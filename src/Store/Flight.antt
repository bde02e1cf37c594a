-- ===== src/Store/Flight.antt =====
-- One attempt at a time for an entry, and what its end shows to the next call
-- (crates/assets/src/runtime.rs, lines 444 to 655).

use fluxel_bases.Prelude.{
  ℕ, ◌+◌, ◌<◌, ◌≡◌, refl, sym, subst, false, Option, some, arith, u64_max, checked_add,
  get_elem?-set_self, get_elem?-lt, ==_refl,
}
use fluxel_bases.Error.{Result, ok}
use fluxel_bases.Exec.{Exec, pure, ◌>>=◌}
use fluxel_bases.Exec.Bind.{bind_rule}
use fluxel_bases.Identity.{AssetId, AssetHandle, handle_id}
use fluxel_bases.Production.{Acquire, Production, ProductionWaiter}
use fluxel_bases.World.{World, Entry, Phase, ReadyValue}
use fluxel_bases.Store.{lock, next_touch, find_entry, entry_mut, validate_handle, put_entry, waiter}
use fluxel_bases.Store.Begin.{
  touch_entry, acquire, acquire_phase, retry, retry_phase, request_replacement, replace_phase,
}
use fluxel_bases.Store.Steps.{bump, find_entry-ok}

module _ {V E W : Type 0} where
  -- The handle names the entry, in a store whose lock and clock are good.
  pub record Reaches (w : World V E W) (h : AssetHandle) (entry : Entry V E) : Type 0 where
    pub sound : w.poisoned ≡ false
    pub more : w.touch < u64_max
    pub found : find_entry w (handle_id h) ≡ ok entry
    pub same : entry.token.addr ≡ h.token.addr

  abbrev pub touched : World V E W → Entry V E → Entry V E
  touched w entry = record entry { last_touch = w.touch + 1 }

  abbrev pub touched_world : World V E W → AssetHandle → Entry V E → World V E W
  touched_world w h entry = put_entry (handle_id h) (touched w entry) (bump w)

  touch_entry-ok :
      (w : World V E W) (h : AssetHandle) (entry : Entry V E)
      → Reaches w h entry
      → touch_entry h w ≡ (ok (touched w entry), touched_world w h entry)
  unfolding touch_entry lock next_touch validate_handle entry_mut checked_add ◌>>=◌
  touch_entry-ok w h entry r = ground (arith, r.sound, r.more, r.found, r.same)

  pub after_touch :
      {A : Type 0} (w : World V E W) (h : AssetHandle) (entry : Entry V E)
      (k : Entry V E → Exec (World V E W) A) (r : Result A × World V E W)
      → Reaches w h entry
      → k (touched w entry) (touched_world w h entry) ≡ r
      → (touch_entry h >>= k) w ≡ r
  after_touch w h entry k r reaches e =
      bind_rule (λ s. s ≡ r) (touch_entry h) k w _ (touch_entry-ok w h entry reaches) e

  joined_waiter :
      {A : Type 0} (id : AssetId) (attempt cell : ℕ) (f : ProductionWaiter → A) (w u : World V E W)
      (p : ProductionWaiter)
      → waiter id attempt cell w ≡ (ok p, u)
      → (waiter id attempt cell >>= λ q. pure (f q)) w ≡ (ok (f p), u)
  unfolding pure
  joined_waiter id attempt cell f w u p e =
      bind_rule (λ s. s ≡ (ok (f p), u)) (waiter id attempt cell) _ w _ e refl

  waiter-ok :
      (id : AssetId) (attempt cell : ℕ) (w u : World V E W) (p : ProductionWaiter)
      → waiter id attempt cell w ≡ (ok p, u)
      → (p.attempt ≡ attempt) × (p.cell ≡ cell) × (u.slots ≡ w.slots)
  unfolding waiter
  waiter-ok id attempt cell w u p e = ground arith

  -- While the attempt of an entry runs, `acquire`, `retry` and `request_replacement` on a good handle
  -- of it, in a store whose lock and clock are good, all answer with a waiter on the attempt's cell,
  -- where one can be registered; of the slots only the entry's touch changes.
  pub single_flight :
      (w : World V E W) (h : AssetHandle) (entry : Entry V E) (attempt cell : ℕ)
      (previous : Option (ReadyValue V)) (p : ProductionWaiter) (u : World V E W)
      → Reaches w h entry
      → entry.phase ≡ Phase.producing attempt previous cell
      → waiter entry.token.id attempt cell (touched_world w h entry) ≡ (ok p, u)
      → (acquire h w ≡ (ok (Acquire.waiter p), u))
        × (retry h w ≡ (ok (Acquire.waiter p), u))
        × (request_replacement h w ≡ (ok (Production.waiter p), u))
        × (p.attempt ≡ attempt)
        × (p.cell ≡ cell)
        × (u.slots ≡ (touched_world w h entry).slots)
  unfolding acquire acquire_phase retry retry_phase request_replacement replace_phase
  single_flight w h entry attempt cell previous p u r e joined =
      let joins = waiter-ok entry.token.id attempt cell (touched_world w h entry) u p joined in
      (
        after_touch w h entry _ _ r (
            subst
              (λ phase.
                acquire_phase (handle_id h) (touched w entry) phase (touched_world w h entry)
                ≡ (ok (Acquire.waiter p), u))
              (sym e)
              (joined_waiter entry.token.id attempt cell Acquire.waiter (touched_world w h entry) u
                p joined)),
        after_touch w h entry _ _ r (
            subst
              (λ phase.
                retry_phase (handle_id h) (touched w entry) phase (touched_world w h entry)
                ≡ (ok (Acquire.waiter p), u))
              (sym e)
              (joined_waiter entry.token.id attempt cell Acquire.waiter (touched_world w h entry) u
                p joined)),
        after_touch w h entry _ _ r (
            subst
              (λ phase.
                replace_phase (handle_id h) (touched w entry) phase (touched_world w h entry)
                ≡ (ok (Production.waiter p), u))
              (sym e)
              (joined_waiter entry.token.id attempt cell Production.waiter (touched_world w h entry)
                u p joined)),
        joins.0,
        joins.1,
        joins.2,
      )

  -- A write through a reference is what the reference then reads.
  pub find_entry-put_entry :
      (w : World V E W) (id : AssetId) (old entry : Entry V E)
      → find_entry w id ≡ ok old
      → find_entry (put_entry id entry w) id ≡ ok entry
  unfolding find_entry put_entry
  find_entry-put_entry w id old entry found =
      let (own, at) = find_entry-ok w id old found in
      rw
        (
          own,
          ==_refl w.id,
          get_elem?-set_self w.slots id.slot
              (record { generation = id.generation; entry = some entry })
              (get_elem?-lt w.slots id.slot at),
          ==_refl id.generation,
        )
        refl
