-- ===== src/Store/Keeps/Calls.antt =====
-- Every call, and so every history of calls, keeps the invariant of a store's state.
use fluxel_bases.Prelude.{ℕ, Bool, false, List, [], ◌∷◌, arith}
use fluxel_bases.Error.{Result}
use fluxel_bases.Production.{ProducerPermit, ProductionWaiter}
use fluxel_bases.World.{World, Slot}
use fluxel_bases.Store.Finish.{commit, fail, cancel}
use fluxel_bases.Store.Collect.{cache_stats}
use fluxel_bases.Store.Permit.{
  is_ok, drop_permit, settle, commit_permit, fail_permit, cancel_permit, clone_waiter, close_entry,
  close_slots, drop_store, poll_waiter, drop_waiter,
}
use fluxel_bases.Store.Calls.{
  Call, creates, acquires, retries, replaces, observes, upgrades, commits, fails, cancels,
  drops_permit, removes, collects, reads_stats, polls, clones, drops_waiter, closes, step, run,
}
use fluxel_bases.Store.Valid.{IsValid}
use fluxel_bases.Store.Keeps.Create.{create-IsValid}
use fluxel_bases.Store.Keeps.Begin.{
  acquire-IsValid, retry-IsValid, request_replacement-IsValid, observe-IsValid, upgrade-IsValid,
}
use fluxel_bases.Store.Keeps.Finish.{commit-IsValid, fail-IsValid, cancel-IsValid}
use fluxel_bases.Store.Keeps.Remove.{remove-IsValid}
use fluxel_bases.Store.Keeps.Collect.{collect-IsValid}

module _ {V E W : Type 0} where
  drop_permit-IsValid :
      (p : ProducerPermit) (w : World V E W) → IsValid w → IsValid (drop_permit p w)
  unfolding drop_permit
  drop_permit-IsValid p w v = ground (arith, cancel-IsValid p.id p.attempt p.cell w v)

  settle-IsValid {ℓ} :
      {A : Type ℓ} (p : ProducerPermit) (r : Result A × World V E W)
      → IsValid r.1
      → IsValid (settle p r).1
  unfolding settle
  settle-IsValid p (r, w) v = drop_permit-IsValid (record p { completed = is_ok r }) w v

  commit_permit-IsValid :
      (p : ProducerPermit) (value : V) (bytes : ℕ) (w : World V E W)
      → IsValid w
      → IsValid (commit_permit p value bytes w).1
  unfolding commit_permit
  commit_permit-IsValid p value bytes w v = ground (
    arith,
    settle-IsValid p (commit p.id p.attempt p.cell value bytes w)
        (commit-IsValid p.id p.attempt p.cell value bytes w v),
  )

  fail_permit-IsValid :
      (p : ProducerPermit) (error : E) (w : World V E W)
      → IsValid w
      → IsValid (fail_permit p error w).1
  unfolding fail_permit
  fail_permit-IsValid p error w v = ground (
    arith,
    settle-IsValid p (fail p.id p.attempt p.cell error w)
        (fail-IsValid p.id p.attempt p.cell error w v),
  )

  cancel_permit-IsValid :
      (p : ProducerPermit) (w : World V E W) → IsValid w → IsValid (cancel_permit p w).1
  unfolding cancel_permit
  cancel_permit-IsValid p w v = ground (
    arith,
    settle-IsValid p (cancel p.id p.attempt p.cell w) (cancel-IsValid p.id p.attempt p.cell w v),
  )

  close_slots-IsValid :
      (slots : List (Slot V E)) (w : World V E W) → IsValid w → IsValid (close_slots slots w)
  unfolding close_slots
  close_slots-IsValid [] w v = v
  close_slots-IsValid (slot ∷ slots) w v =
      close_slots-IsValid slots (close_entry slot.entry w) (ground arith)

  cache_stats-IsValid : (w : World V E W) → IsValid w → IsValid (cache_stats w).1
  unfolding cache_stats
  cache_stats-IsValid w v = ground arith

  clone_waiter-IsValid :
      (p : ProductionWaiter) (w : World V E W) → IsValid w → IsValid (clone_waiter p w).1
  unfolding clone_waiter
  clone_waiter-IsValid p w v = ground arith

module _ {V E W : Type 0} (will_wake : W → W → Bool) where
  pub step-IsValid : (c : Call V E W) (w : World V E W) → IsValid w → IsValid (step will_wake c w)
  unfolding step poll_waiter drop_waiter
  step-IsValid creates w v = create-IsValid w v
  step-IsValid (acquires h) w v = acquire-IsValid h w v
  step-IsValid (retries h) w v = retry-IsValid h w v
  step-IsValid (replaces h) w v = request_replacement-IsValid h w v
  step-IsValid (observes h) w v = observe-IsValid h w v
  step-IsValid (upgrades strong_count h) w v = upgrade-IsValid strong_count h w v
  step-IsValid (commits p value bytes) w v = commit_permit-IsValid p value bytes w v
  step-IsValid (fails p error) w v = fail_permit-IsValid p error w v
  step-IsValid (cancels p) w v = cancel_permit-IsValid p w v
  step-IsValid (drops_permit p) w v = drop_permit-IsValid p w v
  step-IsValid (removes strong_count id) w v = remove-IsValid strong_count id w v
  step-IsValid (collects strong_count budget) w v = collect-IsValid strong_count budget w v
  step-IsValid reads_stats w v = cache_stats-IsValid w v
  step-IsValid (polls p waker) w v = v
  step-IsValid (clones p) w v = clone_waiter-IsValid p w v
  step-IsValid (drops_waiter p) w v = v
  step-IsValid closes w v =
      unfold drop_store in close_slots-IsValid w.slots (record w { alive = false }) v

  -- After any history of calls, with any arguments, the state of a store that was valid before is
  -- valid.
  pub run-IsValid :
      (cs : List (Call V E W)) (w : World V E W) → IsValid w → IsValid (run will_wake cs w)
  unfolding run
  run-IsValid [] w v = v
  run-IsValid (c ∷ cs) w v = run-IsValid cs (step will_wake c w) (step-IsValid c w v)
