-- ===== src/Store/Begin.antt =====
-- crates/assets/src/runtime.rs, lines 412 to 587: `create`, `acquire`, `retry`,
-- `request_replacement`, `observe` and `upgrade`.
use mathlib.Core.Option
use fluxel_bases.Prelude.{
  ℕ, ◌+◌, true, Option, none, some, [], ◌∷◌, ◌++◌, u32_max, u64_max, try_from, length, get_elem?,
  ◌==◌, if◌then◌else◌,
}
use fluxel_bases.Error.{
  Result, ok, err, panic, foreign_identity, stale_identity, generation_exhausted,
}
use fluxel_bases.Exec.{Exec, pure, raise, or_raise, modify, ◌>>=◌, ◌>>◌}
use fluxel_bases.Identity.{AssetId, IdentityToken, AssetHandle, AssetWeak, handle_id, upgrade_token}
use fluxel_bases.State.{AssetObservation}
use fluxel_bases.Production.{ProducerPermit, Acquire, Production}
use fluxel_bases.World.{World, Entry, Phase, ReadyValue}
use fluxel_bases.Store.{
  lock, next_touch, find_entry, validate_handle, put_entry, write_entry, snapshot, failure,
  make_attempt, waiter, retained,
}

module _ {V E : Type 0} where
  abbrev pub new_entry : IdentityToken → ℕ → Entry V E
  new_entry token touch = record {
    token = token;
    phase = Phase.missing;
    content_generation = 0;
    attempt_generation = 0;
    last_touch = touch;
  }

  unfoldable pub observation : Entry V E → Phase V E → AssetObservation V E
  unfolding snapshot failure
  observation entry Phase.missing = AssetObservation.missing entry.token.id
  observation entry (Phase.ready r) = AssetObservation.ready (snapshot entry r)
  observation entry (Phase.failed attempt error previous) =
      AssetObservation.failed (failure entry attempt error previous)
  observation entry (Phase.producing attempt previous _) =
      AssetObservation.producing entry.token.id attempt (Option.map (snapshot entry) previous)

  -- `upgrade` after its lock: `strong_count` is the count of each token's owners at that moment.
  abbrev pub upgraded : (ℕ → ℕ) → AssetWeak → Result (Entry V E) → Result (Option AssetHandle)
  upgraded strong_count weak (ok entry) = elim (upgrade_token strong_count weak.token) [
    | none ↦ ok none
    | some token ↦
        if token.addr == entry.token.addr then ok (some (record { token = token })) else ok none
  ]
  upgraded strong_count weak (err (stale_identity _ _)) = ok none
  upgraded strong_count weak (err e) = err e
  upgraded strong_count weak panic = panic

module _ {V E W : Type 0} where
  -- `free.pop_first()`, or else the index of a slot to be added.
  unfoldable pub take_index : Exec (World V E W) ℕ
  unfolding try_from or_raise
  take_index w = elim w.free [
    | [] ↦ or_raise (try_from u32_max (length w.slots)) generation_exhausted w
    | slot ∷ rest ↦ (ok slot, record w { state = record w.state { free = rest } })
  ]

  unfoldable pub ensure_slot : ℕ → World V E W → World V E W
  ensure_slot i w =
      if i == length w.slots
      then record w {
        state = record w.state { slots = w.slots ++ record { generation = 1; entry = none } ∷ [] };
      }
      else w

  -- The token of the slot at index `i`, in a new allocation.
  abbrev pub new_token : World V E W → ℕ → ℕ → IdentityToken
  new_token w i generation = record {
    addr = w.next;
    id = record { store = w.id; slot = i; generation = generation };
  }

  unfoldable pub occupy : ℕ → ℕ → ℕ → World V E W → World V E W
  unfolding put_entry
  occupy i generation touch w =
      put_entry (new_token w i generation).id (new_entry (new_token w i generation) touch)
        (record w { heap = record w.heap { next = w.next + 1 } })

  -- The new entry at `state.slots[i]`; an index out of range would panic under the lock.
  unfoldable pub fill_slot : ℕ → ℕ → Exec (World V E W) AssetHandle
  unfolding occupy get_elem?
  fill_slot i touch w = elim (get_elem? w.slots i) [
    | none ↦ (panic, record w { poisoned = true })
    | some slot ↦
        (ok (record { token = new_token w i slot.generation }), occupy i slot.generation touch w)
  ]

  unfoldable pub create : Exec (World V E W) AssetHandle
  unfolding lock next_touch take_index ensure_slot fill_slot ◌>>=◌
  create = do lock; touch ← next_touch; i ← take_index; modify (ensure_slot i); fill_slot i touch

  -- The first lines of the four operations below, up to `entry.last_touch = touch`.
  unfoldable pub touch_entry : AssetHandle → Exec (World V E W) (Entry V E)
  unfolding lock next_touch validate_handle write_entry ◌>>=◌
  touch_entry h = do
    lock
    touch ← next_touch
    entry ← validate_handle h
    let entry' = record entry { last_touch = touch }
    write_entry (handle_id h) entry'
    pure entry'

  unfoldable pub acquire_phase : AssetId → Entry V E → Phase V E → Exec (World V E W) (Acquire V E)
  unfolding snapshot failure waiter make_attempt ◌>>=◌
  acquire_phase id entry (Phase.ready r) = pure (Acquire.ready (snapshot entry r))
  acquire_phase id entry (Phase.failed attempt error previous) =
      pure (Acquire.failed (failure entry attempt error previous))
  acquire_phase id entry (Phase.producing attempt _ cell) = do
    joined ← waiter entry.token.id attempt cell
    pure (Acquire.waiter joined)
  acquire_phase id entry Phase.missing = do
    permit ← make_attempt id entry none
    pure (Acquire.producer permit)

  unfoldable pub acquire : AssetHandle → Exec (World V E W) (Acquire V E)
  unfolding touch_entry acquire_phase ◌>>=◌
  acquire h = do entry ← touch_entry h; acquire_phase (handle_id h) entry entry.phase

  -- The old phase is exchanged for `Missing` before the attempt is made.
  unfoldable pub restart :
      AssetId → Entry V E → Option (ReadyValue V) → Exec (World V E W) ProducerPermit
  unfolding write_entry make_attempt ◌>>=◌
  restart id entry previous =
      if entry.attempt_generation == u64_max then raise generation_exhausted else do
        let vacated = record entry { phase = Phase.missing }
        write_entry id vacated
        make_attempt id vacated previous

  unfoldable pub retry_phase : AssetId → Entry V E → Phase V E → Exec (World V E W) (Acquire V E)
  unfolding snapshot waiter make_attempt restart ◌>>=◌
  retry_phase id entry (Phase.ready r) = pure (Acquire.ready (snapshot entry r))
  retry_phase id entry (Phase.producing attempt _ cell) = do
    joined ← waiter entry.token.id attempt cell
    pure (Acquire.waiter joined)
  retry_phase id entry Phase.missing = do
    permit ← make_attempt id entry none
    pure (Acquire.producer permit)
  retry_phase id entry (Phase.failed _ _ previous) = do
    permit ← restart id entry previous
    pure (Acquire.producer permit)

  unfoldable pub retry : AssetHandle → Exec (World V E W) (Acquire V E)
  unfolding touch_entry retry_phase ◌>>=◌
  retry h = do entry ← touch_entry h; retry_phase (handle_id h) entry entry.phase

  unfoldable pub replace_phase : AssetId → Entry V E → Phase V E → Exec (World V E W) Production
  unfolding waiter restart ◌>>=◌
  replace_phase id entry (Phase.producing attempt _ cell) = do
    joined ← waiter entry.token.id attempt cell
    pure (Production.waiter joined)
  replace_phase id entry phase = do
    permit ← restart id entry (retained phase)
    pure (Production.producer permit)

  unfoldable pub request_replacement : AssetHandle → Exec (World V E W) Production
  unfolding touch_entry replace_phase ◌>>=◌
  request_replacement h = do entry ← touch_entry h; replace_phase (handle_id h) entry entry.phase

  unfoldable pub observe : AssetHandle → Exec (World V E W) (AssetObservation V E)
  unfolding touch_entry observation ◌>>=◌
  observe h = do entry ← touch_entry h; pure (observation entry entry.phase)

  unfoldable pub upgrade : (ℕ → ℕ) → AssetWeak → Exec (World V E W) (Option AssetHandle)
  unfolding lock find_entry upgrade_token ◌>>=◌
  upgrade strong_count weak w =
      if weak.id.store == w.id
      then (lock >>= λ _ v. (upgraded strong_count weak (find_entry v weak.id), v)) w
      else (err foreign_identity, w)
