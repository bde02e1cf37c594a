-- ===== src/Store/Writes.antt =====
-- Writes that keep the invariant of a store's state.
use fluxel_bases.Prelude.{
  ℕ, ◌+◌, ◌≤◌, ◌≡◌, ◌≢◌, ◌∙◌, Option, none, some, List, [], ◌∷◌, u64_max, arith, get_elem?, set,
  All, total-set, set-all, length-set, get_elem?-set_ne,
}
use fluxel_bases.World.{StoreState, Entry, Slot, Phase}
use fluxel_bases.Store.Valid.{
  AttemptIsValid, EntryIsValid, OccupantIsValid, SlotIsValid, StateIsValid, IsVacant, IsAscending,
  entry_bytes, slot_bytes,
}

module _ {V E : Type 0} where
  occupied : ℕ → Entry V E → Slot V E
  occupied g entry = record { generation = g; entry = some entry }

  later_attempt :
      (attempts : ℕ) {next next' : ℕ} (phase : Phase V E)
      → next ≤ next'
      → AttemptIsValid attempts next phase
      → AttemptIsValid attempts next' phase
  later_attempt a Phase.missing n h = tt
  later_attempt a (Phase.producing _ _ _) n h = (h.0, h.1, omega arith)
  later_attempt a (Phase.ready _) n h = tt
  later_attempt a (Phase.failed _ _ _) n h = h

  -- Time may pass, and other allocations be made.
  pub later_entry :
      {store i g touch touch' next next' : ℕ} {entry : Entry V E}
      → touch ≤ touch'
      → next ≤ next'
      → EntryIsValid store i g touch next entry
      → EntryIsValid store i g touch' next' entry
  later_entry {entry} t n h = record {
    own_store = h.own_store;
    own_slot = h.own_slot;
    own_generation = h.own_generation;
    allocated = omega arith;
    touched = omega arith;
    content_fits = h.content_fits;
    attempts_fit = h.attempts_fit;
    current = h.current;
    latest = later_attempt entry.attempt_generation entry.phase n h.latest;
  }

  later_occupant :
      (store i g : ℕ) {touch touch' next next' : ℕ} (o : Option (Entry V E))
      → touch ≤ touch'
      → next ≤ next'
      → OccupantIsValid store i g touch next o
      → OccupantIsValid store i g touch' next' o
  later_occupant store i g none t n h = tt
  later_occupant store i g (some entry) t n h = later_entry t n h

  pub later_slot :
      {store i touch touch' next next' : ℕ} (slot : Slot V E)
      → touch ≤ touch'
      → next ≤ next'
      → SlotIsValid store i touch next slot
      → SlotIsValid store i touch' next' slot
  later_slot {store} {i} slot t n h = record {
    generation_pos = h.generation_pos;
    generation_fits = h.generation_fits;
    occupant = later_occupant store i slot.generation slot.entry t n h.occupant;
  }

  -- A free index names another slot than one that holds an entry.
  free_ne :
      (slots : List (Slot V E)) (i j g : ℕ) (entry : Entry V E)
      → get_elem? slots i ≡ some (occupied g entry)
      → IsVacant slots j
      → i ≢ j
  unfolding occupied
  free_ne slots i j g entry at (_, e) p = cc (at, e, p)

  IsVacant-set :
      (slots : List (Slot V E)) (i : ℕ) (slot : Slot V E) (g : ℕ) (entry : Entry V E)
      (free : List ℕ)
      → get_elem? slots i ≡ some (occupied g entry)
      → All (IsVacant slots) free
      → All (IsVacant (set slots i slot)) free
  IsVacant-set slots i slot g entry [] at h = tt
  IsVacant-set slots i slot g entry (j ∷ free) at (v, h) = (
    (v.0, get_elem?-set_ne slots i j slot (free_ne slots i j g entry at v) ∙ v.1),
    IsVacant-set slots i slot g entry free at h,
  )

  -- A slot is exchanged for another, and the total is brought up to date.
  pub exchange-IsValid :
      {store i next next' touch' bytes' : ℕ} {s : StoreState V E} (old slot : Slot V E)
      (free' : List ℕ)
      → StateIsValid store s next
      → get_elem? s.slots i ≡ some old
      → SlotIsValid store i touch' next' slot
      → s.touch ≤ touch'
      → touch' ≤ u64_max
      → next ≤ next'
      → bytes' + slot_bytes old ≡ s.ready_bytes + slot_bytes slot
      → bytes' ≤ u64_max
      → IsAscending free'
      → All (IsVacant (set s.slots i slot)) free'
      → StateIsValid store
          (record {
            slots = set s.slots i slot;
            free = free';
            ready_bytes = bytes';
            touch = touch';
          })
          next'
  exchange-IsValid {store} {i} {next} {next'} {touch'} {bytes'} {s} old slot free' v at ok t tm n e
        fits asc vac =
      record {
        slots_valid =
            set-all (λ j found. SlotIsValid store j touch' next' found) s.slots i slot ok
              λ j found h. later_slot found t n (v.slots_valid j found h);
        accounted = omega (arith, total-set slot_bytes s.slots i old slot at, v.accounted);
        bytes_fit = fits;
        touch_fits = tm;
        indices_fit = rw (length-set s.slots i slot) v.indices_fit;
        free_ascending = asc;
        free_vacant = vac;
      }

  -- An entry is exchanged for another at its place.
  pub write-IsValid :
      {store i g next next' touch' bytes' : ℕ} {s : StoreState V E} (old entry : Entry V E)
      → StateIsValid store s next
      → get_elem? s.slots i ≡ some (record { generation = g; entry = some old })
      → EntryIsValid store i g touch' next' entry
      → s.touch ≤ touch'
      → touch' ≤ u64_max
      → next ≤ next'
      → bytes' + entry_bytes (some old) ≡ s.ready_bytes + entry_bytes (some entry)
      → bytes' ≤ u64_max
      → StateIsValid store
          (record {
            slots = set s.slots i (record { generation = g; entry = some entry });
            free = s.free;
            ready_bytes = bytes';
            touch = touch';
          })
          next'
  unfolding occupied
  write-IsValid {i} {g} {s} old entry v at ok t tm n e fits =
      let sv = v.slots_valid i (occupied g old) at in
      exchange-IsValid (occupied g old) (occupied g entry) s.free v at
        (record {
          generation_pos = sv.generation_pos;
          generation_fits = sv.generation_fits;
          occupant = ok;
        })
        t tm n e fits v.free_ascending
        (IsVacant-set s.slots i (occupied g entry) g old s.free at v.free_vacant)

  -- The entry that stands in a slot of a valid state.
  pub At-IsValid :
      {store next : ℕ} {s : StoreState V E} (i g : ℕ) (entry : Entry V E)
      → StateIsValid store s next
      → get_elem? s.slots i ≡ some (record { generation = g; entry = some entry })
      → EntryIsValid store i g s.touch next entry
  At-IsValid i g entry v at = (v.slots_valid i _ at).occupant
