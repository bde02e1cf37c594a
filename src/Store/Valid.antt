-- ===== src/Store/Valid.antt =====
-- The invariant of a store's state (crates/assets/src/runtime.rs), and that a write of one entry
-- keeps it.
use fluxel_bases.Prelude.{
  ℕ, suc, ◌≤◌, ◌<◌, ◌≡◌, refl, Option, none, some, List, [], ◌∷◌, u32_max, u64_max, arith, length,
  get_elem?, All, total,
}
use fluxel_bases.World.{World, StoreState, Entry, Slot, Phase, ReadyValue, new}
use fluxel_bases.Store.{retained}
use fluxel_bases.Store.Finish.{previous_bytes}

abbrev pub AboveAll : ℕ → List ℕ → Type 0
AboveAll b [] = Unit {0}
AboveAll b (x ∷ xs) = (b < x) × AboveAll x xs

abbrev pub IsAscending : List ℕ → Type 0
IsAscending [] = Unit {0}
IsAscending (x ∷ xs) = AboveAll x xs

module _ {V : Type 0} where
  -- A retained value is the one last committed.
  abbrev pub RetainedIsValid : ℕ → Option (ReadyValue V) → Type 0
  RetainedIsValid content none = Unit {0}
  RetainedIsValid content (some r) = (r.generation ≡ content) × (0 < content)

module _ {V E : Type 0} where
  -- The latest attempt is the one that the phase names; its cell is allocated.
  abbrev pub AttemptIsValid : ℕ → ℕ → Phase V E → Type 0
  AttemptIsValid attempts next (Phase.producing attempt _ cell) =
      (attempt ≡ attempts) × (0 < attempts) × (cell < next)
  AttemptIsValid attempts next (Phase.failed attempt _ _) = (attempt ≡ attempts) × (0 < attempts)
  AttemptIsValid attempts next _ = Unit {0}

  pub record EntryIsValid (store i g touch next : ℕ) (entry : Entry V E) : Type 0 where
    pub own_store : entry.token.id.store ≡ store
    pub own_slot : entry.token.id.slot ≡ i
    pub own_generation : entry.token.id.generation ≡ g
    pub allocated : entry.token.addr < next
    pub touched : entry.last_touch ≤ touch
    pub content_fits : entry.content_generation ≤ u64_max
    pub attempts_fit : entry.attempt_generation ≤ u64_max
    pub current : RetainedIsValid entry.content_generation (retained entry.phase)
    pub latest : AttemptIsValid entry.attempt_generation next entry.phase

  abbrev pub OccupantIsValid : ℕ → ℕ → ℕ → ℕ → ℕ → Option (Entry V E) → Type 0
  OccupantIsValid store i g touch next none = Unit {0}
  OccupantIsValid store i g touch next (some entry) = EntryIsValid store i g touch next entry

  pub record SlotIsValid (store i touch next : ℕ) (slot : Slot V E) : Type 0 where
    pub generation_pos : 0 < slot.generation
    pub generation_fits : slot.generation ≤ u32_max
    pub occupant : OccupantIsValid store i slot.generation touch next slot.entry

  -- The bytes that a slot is charged for.
  abbrev pub entry_bytes : Option (Entry V E) → ℕ
  entry_bytes none = 0
  entry_bytes (some entry) = previous_bytes (retained entry.phase)

  abbrev pub slot_bytes : Slot V E → ℕ
  slot_bytes slot = entry_bytes slot.entry

  abbrev pub IsVacant : List (Slot V E) → ℕ → Type 0
  IsVacant slots i = (g : ℕ) × (get_elem? slots i ≡ some (record { generation = g; entry = none }))

  pub record StateIsValid (store : ℕ) (s : StoreState V E) (next : ℕ) : Type 0 where
    pub slots_valid :
        (i : ℕ) (slot : Slot V E)
        → get_elem? s.slots i ≡ some slot
        → SlotIsValid store i s.touch next slot
    pub accounted : s.ready_bytes ≡ total slot_bytes s.slots
    pub bytes_fit : s.ready_bytes ≤ u64_max
    pub touch_fits : s.touch ≤ u64_max
    pub indices_fit : length s.slots ≤ suc u32_max
    pub free_ascending : IsAscending s.free
    pub free_vacant : All (IsVacant s.slots) s.free

module _ {V E W : Type 0} where
  abbrev pub IsValid : World V E W → Type 0
  IsValid w = StateIsValid w.id w.state w.next

module _ (V E W : Type 0) where
  -- A new store is valid.
  pub new-IsValid : (id : ℕ) → IsValid (new {V = V} {E = E} {W = W} id)
  unfolding new total get_elem?
  new-IsValid id = record {
    slots_valid = λ i slot h. absurd (cc);
    accounted = refl;
    bytes_fit = omega arith;
    touch_fits = omega arith;
    indices_fit = omega arith;
    free_ascending = tt;
    free_vacant = tt;
  }
