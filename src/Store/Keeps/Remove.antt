-- ===== src/Store/Keeps/Remove.antt =====
-- `remove` keeps the invariant (crates/assets/src/runtime.rs, lines 749 to 804).
use mathlib.Core.Option
use native.Mathlib.Nat.{le_refl}
use fluxel_bases.Prelude.{
  ℕ, ◌≤◌, ◌<◌, ◌≡◌, ◌≢◌, refl, ap, sym, subst, ◌∙◌, inl, inr, Option, none, some, List, [], ◌∷◌,
  arith, u32_max, checked_sub, checked_sub-some, checked_sub-none, weight-le-total, eq-cases,
  checked_add-some, get_elem?, set, All, get_elem?-set_self, get_elem?-set_ne, get_elem?-lt,
  Bool-cases, ◌==◌,
}
use fluxel_bases.Error.{AssetError, Result, ok, err, panic, resident_bytes_overflow}
use fluxel_bases.Exec.Bind.{lift_rule, or_raise_rule}
use fluxel_bases.Identity.{AssetId}
use fluxel_bases.Budget.{RemoveReport}
use fluxel_bases.World.{World, Entry, Slot}
use fluxel_bases.Store.{retained, find_entry}
use fluxel_bases.Store.Finish.{previous_bytes, set_ready_bytes}
use fluxel_bases.Store.Remove.{
  insert_free, next_generation, removable, vacate_with, vacate, recycle_with, recycle, remove_own,
  remove,
}
use fluxel_bases.Store.Steps.{lock_rule, entry_rule}
use fluxel_bases.Store.Valid.{IsValid, StateIsValid, IsVacant, AboveAll, IsAscending, slot_bytes}
use fluxel_bases.Store.Writes.{exchange-IsValid}
use fluxel_bases.Store.Keeps.Shared.{Stands}
use fluxel_bases.Store.Keeps.Finish.{found-Stands}

AboveAll-insert_free :
    (b i : ℕ) (xs : List ℕ) → b < i → AboveAll b xs → AboveAll b (insert_free i xs)
unfolding insert_free
AboveAll-insert_free b i [] less h = (less, tt)
AboveAll-insert_free b i (x ∷ xs) less h = ground (arith, AboveAll-insert_free x i xs)

-- `BTreeSet::insert` keeps the order.
insert_free-IsAscending : (i : ℕ) (xs : List ℕ) → IsAscending xs → IsAscending (insert_free i xs)
unfolding insert_free
insert_free-IsAscending i [] h = tt
insert_free-IsAscending i (x ∷ xs) h = ground (arith, AboveAll-insert_free x i xs)

pub All-insert_free {κ} :
    (P : ℕ → Type κ) (i : ℕ) (xs : List ℕ) → P i → All P xs → All P (insert_free i xs)
unfolding insert_free
All-insert_free P i [] p h = (p, tt)
All-insert_free P i (x ∷ xs) p h = ground (arith, All-insert_free P i xs p)

module _ {V E : Type 0} where
  removable-ok :
      (strong_count : ℕ → ℕ) (entry found : Entry V E)
      → removable strong_count entry ≡ ok found
      → (found ≡ entry) × (strong_count entry.token.addr ≤ 1)
  unfolding removable
  removable-ok strong_count entry found h = ground arith

  removable-ne-panic :
      (strong_count : ℕ → ℕ) (entry : Entry V E) → removable strong_count entry ≢ panic
  unfolding removable
  removable-ne-panic strong_count entry h = ground arith

module _ {V E : Type 0} where
  cleared :
      (slots : List (Slot V E)) (i j : ℕ) (old slot : Slot V E)
      → get_elem? slots i ≡ some old
      → slot.entry ≡ none
      → i ≡ j
      → get_elem? (set slots i slot) j
        ≡ some (record { generation = slot.generation; entry = none })
  cleared slots i j old slot at e p =
      subst
        (λ k.
          get_elem? (set slots i slot) k
          ≡ some (record { generation = slot.generation; entry = none }))
        p
        (get_elem?-set_self slots i slot (get_elem?-lt slots i at)
          ∙ ap some (λ k. record { generation = slot.generation; entry = e k }))

  -- The slots that were vacant stay so, and the emptied one joins them.
  IsVacant-clear :
      (slots : List (Slot V E)) (i : ℕ) (old slot : Slot V E) (free : List ℕ)
      → get_elem? slots i ≡ some old
      → slot.entry ≡ none
      → All (IsVacant slots) free
      → All (IsVacant (set slots i slot)) free
  IsVacant-clear slots i old slot [] at e h = tt
  IsVacant-clear slots i old slot (j ∷ free) at e (v, h) = (
    elim (eq-cases i j) [
      | inl p ↦ (slot.generation, cleared slots i j old slot at e p)
      | inr p ↦ (v.0, get_elem?-set_ne slots i j slot p ∙ v.1)
    ],
    IsVacant-clear slots i old slot free at e h,
  )

module _ {V E W : Type 0} where
  emptied-IsValid :
      (g : ℕ) (free : List ℕ) (id : AssetId) (entry : Entry V E) (total : ℕ) (w : World V E W)
      → 0 < g
      → g ≤ u32_max
      → Stands w id entry
      → checked_sub w.ready_bytes (previous_bytes (retained entry.phase)) ≡ some total
      → IsAscending free
      → All (IsVacant (set w.slots id.slot (record { generation = g; entry = none }))) free
      → StateIsValid w.id
          (record {
            slots = set w.slots id.slot (record { generation = g; entry = none });
            free = free;
            ready_bytes = total;
            touch = w.touch;
          })
          w.next
  emptied-IsValid g free id entry total w pos fits t sum asc vac =
      let sum' = checked_sub-some _ _ total sum in
      exchange-IsValid _ _ free t.valid t.at
        (record { generation_pos = pos; generation_fits = fits; occupant = tt }) (le_refl _)
        t.valid.touch_fits (le_refl _) (omega arith) (omega (arith, t.valid.bytes_fit)) asc vac

  removed-IsValid :
      (next : Option ℕ) (id : AssetId) (entry : Entry V E) (total : ℕ) (w : World V E W)
      → next_generation id.generation ≡ next
      → Stands w id entry
      → checked_sub w.ready_bytes (previous_bytes (retained entry.phase)) ≡ some total
      → IsValid (recycle_with next id (set_ready_bytes total (vacate_with next id w)))
  unfolding set_ready_bytes
  removed-IsValid none id entry total w e t sum =
      let slot = t.valid.slots_valid id.slot _ t.at in
      emptied-IsValid id.generation w.free id entry total w slot.generation_pos slot.generation_fits
        t sum t.valid.free_ascending
        (IsVacant-clear w.slots id.slot _ _ w.free t.at refl t.valid.free_vacant)
  removed-IsValid (some g) id entry total w e t sum =
      let (after, fits) = checked_add-some u32_max id.generation 1 g e in
      emptied-IsValid g (insert_free id.slot w.free) id entry total w (omega arith) fits t sum
        (insert_free-IsAscending id.slot w.free t.valid.free_ascending)
        (All-insert_free _ id.slot w.free
          (g, get_elem?-set_self w.slots id.slot _ (get_elem?-lt w.slots id.slot t.at))
          (IsVacant-clear w.slots id.slot _ _ w.free t.at refl t.valid.free_vacant))

  -- The bytes of an entry are in the total, so their subtraction cannot fail.
  pub bytes-le :
      (id : AssetId) (entry : Entry V E) (w : World V E W)
      → Stands w id entry
      → previous_bytes (retained entry.phase) ≤ w.ready_bytes
  bytes-le id entry w t =
      omega (arith, t.valid.accounted, weight-le-total slot_bytes w.slots id.slot _ t.at)

  -- The outcomes of `remove` on a valid world: no error leaves a trace.
  pub remove_own_rule {κ} :
      (P : Result RemoveReport × World V E W → Type κ) (strong_count : ℕ → ℕ) (id : AssetId)
      (w : World V E W)
      → IsValid w
      → ((e : AssetError) → P (err e, w))
      → ((entry : Entry V E) (total : ℕ)
          → find_entry w id ≡ ok entry
          → removable strong_count entry ≡ ok entry
          → checked_sub w.ready_bytes (previous_bytes (retained entry.phase)) ≡ some total
          → P (
            ok (record {
              id = id;
              removed_generation = Option.map (λ r. r.generation) (retained entry.phase);
              removed_bytes = previous_bytes (retained entry.phase);
            }),
            recycle id (set_ready_bytes total (vacate id w)),
          ))
      → P (remove_own strong_count id w)
  unfolding remove_own
  remove_own_rule P strong_count id w v refused good =
      lock_rule P _ w (λ _. refused _)
        λ _.
          entry_rule P id _ w (λ e _. refused e)
            λ found at.
              lift_rule P (removable strong_count found) _ w (λ e _. refused e)
                (λ e. absurd (removable-ne-panic strong_count found e))
                λ entry free.
                  let (same, _) = removable-ok strong_count found entry free in
                  let at' = at ∙ ap ok (sym same) in
                  or_raise_rule P
                    (checked_sub w.ready_bytes (previous_bytes (retained entry.phase)))
                    resident_bytes_overflow _ (vacate id w)
                    (λ over. absurd (
                      omega (
                        arith,
                        checked_sub-none _ _ over,
                        bytes-le id entry w (found-Stands id entry w v at'),
                      )))
                    λ total. good entry total at' (ap (removable strong_count) same ∙ free)

  remove_own-IsValid :
      (strong_count : ℕ → ℕ) (id : AssetId) (w : World V E W)
      → IsValid w
      → IsValid (remove_own strong_count id w).1
  remove_own-IsValid strong_count id w v =
      remove_own_rule (λ r. IsValid r.1) strong_count id w v (λ _. v)
        λ entry total found _ sum.
          unfold vacate recycle in
          removed-IsValid (next_generation id.generation) id entry total w refl
            (found-Stands id entry w v found) sum

  pub remove-IsValid :
      (strong_count : ℕ → ℕ) (id : AssetId) (w : World V E W)
      → IsValid w
      → IsValid (remove strong_count id w).1
  unfolding remove
  remove-IsValid strong_count id w v = elim (Bool-cases (id.store == w.id)) [
    | inl own ↦ rw (own, remove) (remove_own-IsValid strong_count id w v)
    | inr other ↦ rw (other, remove) v
  ]
