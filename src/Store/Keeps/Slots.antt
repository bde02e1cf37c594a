-- ===== src/Store/Keeps/Slots.antt =====
-- The slot that `create` fills is vacant, and the others stay (crates/assets/src/runtime.rs, lines 412 to
-- 442).
use native.Mathlib.Nat.{le_refl}
use fluxel_bases.Prelude.{
  ℕ, ◌≤◌, ◌<◌, ◌≡◌, refl, ap, subst, ◌∙◌, none, some, List, [], ◌∷◌, ◌++◌, arith, u32_max, length,
  get_elem?, set, All, total, append-all, get_elem?-set_ne, get_elem?-lt, get_elem?-append_lt,
  get_elem?-append_last, get_elem?-append_ne, get_elem?-ge, length-append, ◌≢◌, ◌⊎◌, inl, inr, true,
  total-append,
}
use fluxel_bases.Lifecycle.View.{contains}
use fluxel_bases.Error.{ok}
use fluxel_bases.World.{World, Entry, Slot}
use fluxel_bases.Store.Finish.{previous_bytes}
use fluxel_bases.Store.Begin.{new_token, occupy, ensure_slot, fill_slot}
use fluxel_bases.Store.Steps.{At}
use fluxel_bases.Store.Valid.{IsValid, SlotIsValid, IsVacant, AboveAll, IsAscending, slot_bytes}
use fluxel_bases.Store.Writes.{exchange-IsValid}

AboveAll-IsAscending : (b : ℕ) (xs : List ℕ) → AboveAll b xs → IsAscending xs
AboveAll-IsAscending b [] h = tt
AboveAll-IsAscending b (x ∷ xs) h = h.1

contains-head : (i : ℕ) (xs : List ℕ) → contains i (i ∷ xs) ≡ true
unfolding contains
contains-head i xs = ground arith

contains-tail : (i j : ℕ) (xs : List ℕ) → i ≢ j → contains j xs ≡ contains j (i ∷ xs)
unfolding contains
contains-tail i j xs other = ground arith

module _ {V E : Type 0} where
  -- Filling a slot leaves the free slots above it vacant.
  above-IsVacant :
      (slots : List (Slot V E)) (i b : ℕ) (slot : Slot V E) (free : List ℕ)
      → i ≤ b
      → AboveAll b free
      → All (IsVacant slots) free
      → All (IsVacant (set slots i slot)) free
  above-IsVacant slots i b slot [] le asc h = tt
  above-IsVacant slots i b slot (j ∷ free) le (lt, asc) (v, h) = (
    (v.0, get_elem?-set_ne slots i j slot (λ p. omega arith) ∙ v.1),
    above-IsVacant slots i j slot free (omega arith) asc h,
  )

module _ {V E W : Type 0} where
  -- A vacant slot that is not, or no longer, among the free indices.
  pub record IsTaken (w : World V E W) (i g : ℕ) : Type 0 where
    pub valid : IsValid w
    pub at : get_elem? w.slots i ≡ some (record { generation = g; entry = none })
    pub above : AboveAll i w.free

  pub occupy-IsValid : (w : World V E W) (i g : ℕ) → IsTaken w i g → IsValid (occupy i g w.touch w)
  unfolding occupy previous_bytes
  occupy-IsValid w i g t =
      let slot = t.valid.slots_valid i _ t.at in
      exchange-IsValid _ _ w.free t.valid t.at
        (record {
          generation_pos = slot.generation_pos;
          generation_fits = slot.generation_fits;
          occupant = record {
            own_store = refl;
            own_slot = refl;
            own_generation = refl;
            allocated = omega arith;
            touched = le_refl _;
            content_fits = omega arith;
            attempts_fit = omega arith;
            current = tt;
            latest = tt;
          };
        })
        (le_refl _) t.valid.touch_fits (omega arith) refl t.valid.bytes_fit
        (AboveAll-IsAscending i w.free t.above)
        (above-IsVacant w.slots i i _ w.free (le_refl _) t.above t.valid.free_vacant)

  pub fill_slot-taken :
      (w : World V E W) (i g : ℕ)
      → IsTaken w i g
      → fill_slot i w.touch w ≡ (ok (record { token = new_token w i g }), occupy i g w.touch w)
  unfolding fill_slot
  fill_slot-taken w i g t = rw (t.at, fill_slot)

  pub ensure_slot-old : (w : World V E W) (i : ℕ) → i < length w.slots → ensure_slot i w ≡ w
  unfolding ensure_slot
  ensure_slot-old w i h = ground arith

  -- The world with one more slot.
  abbrev pub grown : World V E W → World V E W
  grown w = record w {
    state = record w.state { slots = w.slots ++ record { generation = 1; entry = none } ∷ [] };
  }

  pub ensure_slot-new : (w : World V E W) → ensure_slot (length w.slots) w ≡ grown w
  unfolding ensure_slot
  ensure_slot-new w = ground arith

  pub grown-IsTaken :
      (w : World V E W)
      → IsValid w
      → w.free ≡ []
      → length w.slots ≤ u32_max
      → IsTaken (grown w) (length w.slots) 1
  unfolding total
  grown-IsTaken w v e le = record {
    valid = record {
      slots_valid =
          append-all (λ i slot. SlotIsValid w.id i w.touch w.next slot) w.slots _
            (record { generation_pos = omega arith; generation_fits = omega arith; occupant = tt })
            v.slots_valid;
      accounted = omega (
        arith,
        v.accounted,
        total-append slot_bytes w.slots (record { generation = 1; entry = none } ∷ []),
      );
      bytes_fit = v.bytes_fit;
      touch_fits = v.touch_fits;
      indices_fit =
          omega (arith, length-append w.slots (record { generation = 1; entry = none } ∷ []));
      free_ascending = v.free_ascending;
      free_vacant = rw e tt;
    };
    at = get_elem?-append_last w.slots _;
    above = rw e tt;
  }

  -- The entries of the two worlds are the same, and so is all else that an operation reads.
  pub record SameEntries (w u : World V E W) : Type 0 where
    pub same_id : u.id ≡ w.id
    pub same_heap : u.heap ≡ w.heap
    pub same_touch : u.touch ≡ w.touch
    pub same_poisoned : u.poisoned ≡ w.poisoned
    pub kept : (j g : ℕ) (entry : Entry V E) → At w j g entry → At u j g entry
    pub none_new : (j g : ℕ) (entry : Entry V E) → At u j g entry → At w j g entry

  pub grown-SameEntries : (w : World V E W) → SameEntries w (grown w)
  grown-SameEntries w = record {
    same_id = refl;
    same_heap = refl;
    same_touch = refl;
    same_poisoned = refl;
    kept = λ j g entry at. get_elem?-append_lt w.slots _ j (get_elem?-lt w.slots j at) ∙ at;
    none_new = λ j g entry at.
        append-all (λ k slot. slot ≡ record { generation = g; entry = some entry } → At w k g entry)
          w.slots (record { generation = 1; entry = none }) (λ e. absurd (cc))
          (λ k slot at' e. at' ∙ ap some e) j _ at refl;
  }

  -- The place that a new entry takes was not there, or was free; every other place stays.
  pub record Opens (w u : World V E W) (i g : ℕ) : Type 0 where
    pub slots_else : (j : ℕ) → i ≢ j → get_elem? u.slots j ≡ get_elem? w.slots j
    pub free_else : (j : ℕ) → i ≢ j → contains j u.free ≡ contains j w.free
    pub was :
        ((get_elem? w.slots i ≡ none) × (g ≡ 1))
        ⊎ ((contains i w.free ≡ true)
            × (get_elem? w.slots i ≡ some (record { generation = g; entry = none })))

  pub grown-Opens : (w : World V E W) → Opens w (grown w) (length w.slots) 1
  grown-Opens w = record {
    slots_else = λ j other. get_elem?-append_ne w.slots _ j other;
    free_else = λ j _. refl;
    was = inl (get_elem?-ge w.slots (length w.slots) (le_refl _), refl);
  }

  pub popped-Opens :
      (w : World V E W) (i : ℕ) (rest : List ℕ) (g : ℕ)
      → w.free ≡ i ∷ rest
      → get_elem? w.slots i ≡ some (record { generation = g; entry = none })
      → Opens w (record w { state = record w.state { free = rest } }) i g
  unfolding contains
  popped-Opens w i rest g e at = record {
    slots_else = λ j _. refl;
    free_else = λ j other. rw e (contains-tail i j rest other);
    was = inr (rw e (contains-head i rest), at);
  }

  pub popped-IsTaken :
      (w : World V E W) (i : ℕ) (rest : List ℕ)
      → w.free ≡ i ∷ rest
      → IsValid w
      → (g : ℕ) × IsTaken (record w { state = record w.state { free = rest } }) i g
  popped-IsTaken w i rest e v =
      let (vac, others) = subst (All (IsVacant w.slots)) e v.free_vacant in
      (
        vac.0,
        record {
          valid = record {
            slots_valid = v.slots_valid;
            accounted = v.accounted;
            bytes_fit = v.bytes_fit;
            touch_fits = v.touch_fits;
            indices_fit = v.indices_fit;
            free_ascending = AboveAll-IsAscending i rest (subst IsAscending e v.free_ascending);
            free_vacant = others;
          };
          at = vac.1;
          above = subst IsAscending e v.free_ascending;
        },
      )
