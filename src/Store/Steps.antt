-- ===== src/Store/Steps.antt =====
-- The outcomes of the steps that the operations share (crates/assets/src/runtime.rs, lines 262 to
-- 346), and rules by which a property of an operation follows from its outcomes.
use fluxel_bases.Prelude.{
  ℕ, ◌+◌, ◌≤◌, ◌<◌, ◌≡◌, refl, ◌⊎◌, inl, inr, Bool, true, false, Option, none, some, u64_max, arith,
  get_elem?, ap, checked_add-cases, Bool-cases, ◌==◌, if◌then◌else◌,
}
use fluxel_bases.Error.{
  AssetError, Result, ok, err, foreign_identity, generation_exhausted, synchronization_poisoned,
}
use fluxel_bases.Exec.{Exec, ◌>>=◌, continue}
use fluxel_bases.Exec.Bind.{bind_rule}
use fluxel_bases.Identity.{AssetId, AssetHandle, handle_id}
use fluxel_bases.World.{World, Entry, Slot}
use fluxel_bases.Store.{
  lock, next_touch, or_stale, in_slot, stale, find_entry, entry_mut, validate_handle, put_entry,
}
use fluxel_bases.Store.Begin.{touch_entry}

if-cases {ℓ} :
    {A : Type ℓ} (b : Bool) (x y : A)
    → ((b ≡ true) × ((if b then x else y) ≡ x)) ⊎ ((b ≡ false) × ((if b then x else y) ≡ y))
if-cases true x y = inl (refl, refl)
if-cases false x y = inr (refl, refl)

module _ {V E : Type 0} where
  or_stale-ok :
      (id : AssetId) (o : Option (Entry V E)) (entry : Entry V E)
      → or_stale id o ≡ ok entry
      → o ≡ some entry
  or_stale-ok id none entry h = cc
  or_stale-ok id (some e) entry h = cc

  in_slot-ok :
      (id : AssetId) (o : Option (Slot V E)) (entry : Entry V E)
      → in_slot id o ≡ ok entry
      → o ≡ some (record { generation = id.generation; entry = some entry })
  in_slot-ok id none entry h = cc
  in_slot-ok id (some slot) entry h = ground (arith, or_stale-ok id slot.entry entry)

  or_stale-cases :
      (id : AssetId) (o : Option (Entry V E))
      → ((e : AssetError) × (or_stale id o ≡ err e)) ⊎ ((x : Entry V E) × (or_stale id o ≡ ok x))
  or_stale-cases id none = inl (stale id, refl)
  or_stale-cases id (some e) = inr (e, refl)

  in_slot-cases :
      (id : AssetId) (o : Option (Slot V E))
      → ((e : AssetError) × (in_slot id o ≡ err e)) ⊎ ((x : Entry V E) × (in_slot id o ≡ ok x))
  in_slot-cases id none = inl (stale id, refl)
  in_slot-cases id (some slot) = elim (Bool-cases (slot.generation == id.generation)) [
    | inl same ↦ rw same (or_stale-cases id slot.entry)
    | inr other ↦ rw other (inl (stale id, refl))
  ]

module _ {V E W : Type 0} where
  -- The world after `next_touch`.
  abbrev pub bump : World V E W → World V E W
  bump w = record w { state = record w.state { touch = w.touch + 1 } }

  lock-cases :
      (w : World V E W)
      → ((w.poisoned ≡ true) × (lock w ≡ (err synchronization_poisoned, w)))
        ⊎ ((w.poisoned ≡ false) × (lock w ≡ (ok tt, w)))
  unfolding lock
  lock-cases w = if-cases w.poisoned _ _

  next_touch-cases :
      (w : World V E W)
      → ((u64_max ≤ w.touch) × (next_touch w ≡ (err generation_exhausted, w)))
        ⊎ ((w.touch < u64_max) × (next_touch w ≡ (ok (w.touch + 1), bump w)))
  unfolding next_touch
  next_touch-cases w = elim (checked_add-cases u64_max w.touch 1) [
    | inl (e, h) ↦ inl (omega arith, rw (e, next_touch))
    | inr (e, h) ↦ inr (omega arith, rw (e, next_touch))
  ]

  -- The entry stands in the slot, at the generation of the identity.
  abbrev pub At : World V E W → ℕ → ℕ → Entry V E → Type 0
  At w i g entry = get_elem? w.slots i ≡ some (record { generation = g; entry = some entry })

  pub find_entry-ok :
      (w : World V E W) (id : AssetId) (entry : Entry V E)
      → find_entry w id ≡ ok entry
      → (id.store ≡ w.id) × At w id.slot id.generation entry
  unfolding find_entry
  find_entry-ok w id entry h = ground (arith, in_slot-ok id (get_elem? w.slots id.slot) entry)

  pub find_entry-cases :
      (w : World V E W) (id : AssetId)
      → ((e : AssetError) × (find_entry w id ≡ err e))
        ⊎ ((x : Entry V E) × (find_entry w id ≡ ok x))
  unfolding find_entry
  find_entry-cases w id = elim (Bool-cases (id.store == w.id)) [
    | inl own ↦ rw own (in_slot-cases id (get_elem? w.slots id.slot))
    | inr other ↦ rw other (inl (foreign_identity, refl))
  ]

module _ {κ} {V E W A : Type 0} (P : Result A × World V E W → Type κ) where
  -- Every operation begins with the lock, and all but four go on with the clock.
  pub lock_rule :
      (k : Unit {0} → Exec (World V E W) A) (w : World V E W)
      → (w.poisoned ≡ true → P (err synchronization_poisoned, w))
      → (w.poisoned ≡ false → P (k tt w))
      → P ((lock >>= k) w)
  lock_rule k w closed open_ = elim (lock-cases w) [
    | inl (p, e) ↦ bind_rule P lock k w _ e (closed p)
    | inr (p, e) ↦ bind_rule P lock k w _ e (open_ p)
  ]

  pub clock_rule :
      (k : ℕ → Exec (World V E W) A) (w : World V E W)
      → ((e : AssetError) → P (err e, w))
      → (w.touch < u64_max → P (k (w.touch + 1) (bump w)))
      → P ((lock >>= λ _. next_touch >>= k) w)
  clock_rule k w refused good =
      lock_rule (λ _. next_touch >>= k) w (λ _. refused _)
        λ _. elim (next_touch-cases w) [
          | inl (_, e) ↦ bind_rule P next_touch k w _ e (refused _)
          | inr (h, e) ↦ bind_rule P next_touch k w _ e (good h)
        ]

  pub entry_rule :
      (id : AssetId) (k : Entry V E → Exec (World V E W) A) (w : World V E W)
      → ((e : AssetError) → find_entry w id ≡ err e → P (err e, w))
      → ((entry : Entry V E) → find_entry w id ≡ ok entry → P (k entry w))
      → P ((entry_mut id >>= k) w)
  unfolding entry_mut
  entry_rule id k w refused good = elim (find_entry-cases w id) [
    | inl (x, e) ↦ bind_rule P (entry_mut id) k w (err x, w) (ap (λ r. (r, w)) e) (refused x e)
    | inr (x, e) ↦ bind_rule P (entry_mut id) k w (ok x, w) (ap (λ r. (r, w)) e) (good x e)
  ]

module _ {V E W : Type 0} where
  validate_handle-cases :
      (h : AssetHandle) (w : World V E W)
      → ((e : AssetError) × (validate_handle h w ≡ (err e, w)))
        ⊎ ((entry : Entry V E) × (find_entry w (handle_id h) ≡ ok entry)
            × (entry.token.addr ≡ h.token.addr)
            × (validate_handle h w ≡ (ok entry, w)))
  unfolding validate_handle
  validate_handle-cases h w = elim (find_entry-cases w (handle_id h)) [
    | inl (e, q) ↦ inl (e, rw (q, validate_handle))
    | inr (x, q) ↦ elim (Bool-cases (x.token.addr == h.token.addr)) [
      | inl same ↦ inr (x, q, ground arith, rw (q, validate_handle, same))
      | inr other ↦ inl (foreign_identity, rw (q, validate_handle, other))
    ]
  ]

module _ {κ} {V E W A : Type 0} (P : Result A × World V E W → Type κ) where
  -- The four operations on a handle.
  pub touch_entry_rule :
      (h : AssetHandle) (k : Entry V E → Exec (World V E W) A) (w : World V E W)
      → ((e : AssetError) → P (err e, w))
      → ((e : AssetError) → w.touch < u64_max → P (err e, bump w))
      → ((entry : Entry V E)
          → w.touch < u64_max
          → find_entry w (handle_id h) ≡ ok entry
          → entry.token.addr ≡ h.token.addr
          → let touched : Entry V E = record entry { last_touch = w.touch + 1 } in
            P (k touched (put_entry (handle_id h) touched (bump w))))
      → P ((touch_entry h >>= k) w)
  unfolding touch_entry
  touch_entry_rule h k w early late good =
      clock_rule (λ r. P (continue r.0 k r.1)) _ w early
        λ lt. elim (validate_handle-cases h (bump w)) [
          | inl (e, q) ↦
              bind_rule (λ r. P (continue r.0 k r.1)) (validate_handle h) _ (bump w) _ q (late e lt)
          | inr (x, found, same, q) ↦
              bind_rule (λ r. P (continue r.0 k r.1)) (validate_handle h) _ (bump w) _ q
                (good x lt found same)
        ]
