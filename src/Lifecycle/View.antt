-- ===== src/Lifecycle/View.antt =====
-- Each slot of a store's state as a place of the abstract machine, and the writes as its steps.
use fluxel_bases.Prelude.{
  ℕ, ◌≡◌, ◌≢◌, refl, subst, inl, inr, Bool, true, false, ◌||◌, Option, none, some, List, [], ◌∷◌,
  get_elem?, set, get_elem?-set_self, get_elem?-set_ne, get_elem?-lt, eq-cases, ◌==◌,
}
use fluxel_bases.World.{Entry, Slot, StoreState}
use fluxel_bases.Lifecycle.{
  Transition, Place, absent, free, occupied, retired, moves, Steps, here, later, Steps-append,
}

unfoldable pub contains : ℕ → List ℕ → Bool
contains i [] = false
contains i (j ∷ js) = j == i || contains i js

module _ {V E : Type 0} where
  abbrev pub place_entry : Bool → ℕ → Option (Entry V E) → Place V E
  place_entry is_free g (some entry) = occupied g entry
  place_entry true g none = free g
  place_entry false g none = retired

  abbrev pub place : Bool → Option (Slot V E) → Place V E
  place is_free none = absent
  place is_free (some slot) = place_entry is_free slot.generation slot.entry

  pub view : StoreState V E → ℕ → Place V E
  view s i = place (contains i s.free) (get_elem? s.slots i)

  -- Every place of the one state has come to that of the other by steps of the machine.
  pub record Refines (s t : StoreState V E) : Type 0 where
    pub steps : (i : ℕ) → Steps (view s i) (view t i)

  pub Refines-refl : (s : StoreState V E) → Refines s s
  Refines-refl s = record { steps = λ i. here }

  pub Refines-trans : {s t u : StoreState V E} → Refines s t → Refines t u → Refines s u
  Refines-trans a b = record { steps = λ i. Steps-append (a.steps i) (b.steps i) }

  -- The clock and the total are not seen.
  pub Refines-same : {s t : StoreState V E} → t.slots ≡ s.slots → t.free ≡ s.free → Refines s t
  unfolding view
  Refines-same {s} {t} p q = record { steps = λ i. rw (p, q) here }

  pub view-occupied :
      (s : StoreState V E) (i g : ℕ) (entry : Entry V E)
      → get_elem? s.slots i ≡ some (record { generation = g; entry = some entry })
      → view s i ≡ occupied g entry
  unfolding view
  view-occupied s i g entry at = rw at

  pub view-absent : (s : StoreState V E) (i : ℕ) → get_elem? s.slots i ≡ none → view s i ≡ absent
  unfolding view
  view-absent s i outside = rw outside

  pub view-vacant :
      (s : StoreState V E) (i g : ℕ) (is_free : Bool)
      → contains i s.free ≡ is_free
      → get_elem? s.slots i ≡ some (record { generation = g; entry = none })
      → view s i ≡ place_entry is_free g none
  unfolding view
  view-vacant s i g is_free e at = rw (e, at)

  -- Where one slot changes, and the free indices elsewhere do not, its place alone takes steps.
  pub Refines-slot :
      (s t : StoreState V E) (i : ℕ)
      → Steps (view s i) (view t i)
      → ((j : ℕ) → i ≢ j → get_elem? t.slots j ≡ get_elem? s.slots j)
      → ((j : ℕ) → i ≢ j → contains j t.free ≡ contains j s.free)
      → Refines s t
  unfolding view
  Refines-slot s t i here_steps slots frees = record {
    steps = λ j. elim (eq-cases i j) [
      | inl p ↦ subst (λ k. Steps (view s k) (view t k)) p here_steps
      | inr p ↦ rw (slots j p, frees j p) here
    ];
  }

  -- A write of one entry, by a transition of it.
  pub Refines-put :
      (s : StoreState V E) (i g bytes touch : ℕ) (old new : Entry V E)
      → get_elem? s.slots i ≡ some (record { generation = g; entry = some old })
      → new.token ≡ old.token
      → Transition old new
      → Refines s (record {
        slots = set s.slots i (record { generation = g; entry = some new });
        free = s.free;
        ready_bytes = bytes;
        touch = touch;
      })
  Refines-put s i g bytes touch old new at same tr =
      let slot : Slot V E = record { generation = g; entry = some new } in
      let t : StoreState V E = record {
        slots = set s.slots i slot;
        free = s.free;
        ready_bytes = bytes;
        touch = touch;
      } in
      Refines-slot s t i
        (rw
          (
            view-occupied s i g old at,
            view-occupied t i g new (get_elem?-set_self s.slots i slot (get_elem?-lt s.slots i at)),
          )
          (later here (moves same tr)))
        (λ j p. get_elem?-set_ne s.slots i j slot p) (λ j p. refl)
