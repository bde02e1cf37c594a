-- ===== src/Lifecycle/Refines/Calls.antt =====
-- Every call of a client of a store, and so every history of calls, implements the abstract machine
-- (crates/assets/src/store.rs; runtime.rs, lines 262 to 930).
use fluxel_bases.Prelude.{ℕ, Bool, false, List, [], ◌∷◌, arith}
use fluxel_bases.Error.{Result}
use fluxel_bases.Production.{ProducerPermit, ProductionWaiter}
use fluxel_bases.World.{World, Slot}
use fluxel_bases.Store.Finish.{commit, fail, cancel}
use fluxel_bases.Store.Collect.{cache_stats}
use fluxel_bases.Store.Permit.{
  is_ok, drop_permit, settle, commit_permit, fail_permit, cancel_permit, clone_waiter, close_entry,
  close_slots, drop_store, poll_waiter, drop_waiter,
}
use fluxel_bases.Store.Calls.{
  Call, creates, acquires, retries, replaces, observes, upgrades, commits, fails, cancels,
  drops_permit, removes, collects, reads_stats, polls, clones, drops_waiter, closes, step, run,
}
use fluxel_bases.Store.Valid.{IsValid}
use fluxel_bases.Store.Keeps.Finish.{commit-IsValid, fail-IsValid, cancel-IsValid}
use fluxel_bases.Store.Keeps.Calls.{step-IsValid}
use fluxel_bases.Lifecycle.View.{Refines-trans}
use fluxel_bases.Lifecycle.Refines.{Reach, Reach-refl}
use fluxel_bases.Lifecycle.Refines.Begin.{
  acquire-Reach, retry-Reach, request_replacement-Reach, observe-Reach, upgrade-Reach,
}
use fluxel_bases.Lifecycle.Refines.Finish.{commit-Reach, fail-Reach, cancel-Reach}
use fluxel_bases.Lifecycle.Refines.Create.{create-Reach}
use fluxel_bases.Lifecycle.Refines.Remove.{remove-Reach}
use fluxel_bases.Lifecycle.Refines.Collect.{collect-Reach}

module _ {V E W : Type 0} where
  drop_permit-Reach : (p : ProducerPermit) (w : World V E W) → IsValid w → Reach w (drop_permit p w)
  unfolding drop_permit
  drop_permit-Reach p w v = ground (arith, Reach-refl w, cancel-Reach p.id p.attempt p.cell w v)

  -- The drop that ends the method of a permit.
  settle-Reach :
      {A : Type 0} (p : ProducerPermit) (w : World V E W) (r : Result A × World V E W)
      → IsValid r.1
      → Reach w r.1
      → Reach w (settle p r).1
  unfolding settle
  settle-Reach p w (r, u) v h =
      Refines-trans h (drop_permit-Reach (record p { completed = is_ok r }) u v)

  commit_permit-Reach :
      (p : ProducerPermit) (value : V) (bytes : ℕ) (w : World V E W)
      → IsValid w
      → Reach w (commit_permit p value bytes w).1
  unfolding commit_permit
  commit_permit-Reach p value bytes w v =
      let ended =
        settle-Reach p w (commit p.id p.attempt p.cell value bytes w)
          (commit-IsValid p.id p.attempt p.cell value bytes w v)
          (commit-Reach p.id p.attempt p.cell value bytes w v) in
      ground (arith, Reach-refl w, ended)

  fail_permit-Reach :
      (p : ProducerPermit) (error : E) (w : World V E W)
      → IsValid w
      → Reach w (fail_permit p error w).1
  unfolding fail_permit
  fail_permit-Reach p error w v =
      let ended =
        settle-Reach p w (fail p.id p.attempt p.cell error w)
          (fail-IsValid p.id p.attempt p.cell error w v)
          (fail-Reach p.id p.attempt p.cell error w v) in
      ground (arith, Reach-refl w, ended)

  cancel_permit-Reach :
      (p : ProducerPermit) (w : World V E W) → IsValid w → Reach w (cancel_permit p w).1
  unfolding cancel_permit
  cancel_permit-Reach p w v =
      let ended =
        settle-Reach p w (cancel p.id p.attempt p.cell w) (cancel-IsValid p.id p.attempt p.cell w v)
          (cancel-Reach p.id p.attempt p.cell w v) in
      ground (arith, Reach-refl w, ended)

  -- The drop of the store ends attempts in their cells alone.
  close_slots-Reach :
      (slots : List (Slot V E)) (w u : World V E W) → Reach w u → Reach w (close_slots slots u)
  unfolding close_slots
  close_slots-Reach [] w u h = h
  close_slots-Reach (slot ∷ slots) w u h =
      close_slots-Reach slots w (close_entry slot.entry u) (ground arith)

  cache_stats-Reach : (w : World V E W) → Reach w (cache_stats w).1
  unfolding cache_stats
  cache_stats-Reach w = ground (arith, Reach-refl w)

  clone_waiter-Reach : (p : ProductionWaiter) (w : World V E W) → Reach w (clone_waiter p w).1
  unfolding clone_waiter
  clone_waiter-Reach p w = ground (arith, Reach-refl w)

module _ {V E W : Type 0} (will_wake : W → W → Bool) where
  step-Reach : (c : Call V E W) (w : World V E W) → IsValid w → Reach w (step will_wake c w)
  unfolding step poll_waiter drop_waiter
  step-Reach creates w v = create-Reach w v
  step-Reach (acquires h) w v = acquire-Reach h w v
  step-Reach (retries h) w v = retry-Reach h w v
  step-Reach (replaces h) w v = request_replacement-Reach h w v
  step-Reach (observes h) w v = observe-Reach h w v
  step-Reach (upgrades strong_count h) w v = upgrade-Reach strong_count h w
  step-Reach (commits p value bytes) w v = commit_permit-Reach p value bytes w v
  step-Reach (fails p error) w v = fail_permit-Reach p error w v
  step-Reach (cancels p) w v = cancel_permit-Reach p w v
  step-Reach (drops_permit p) w v = drop_permit-Reach p w v
  step-Reach (removes strong_count id) w v = remove-Reach strong_count id w v
  step-Reach (collects strong_count budget) w v = collect-Reach strong_count budget w v
  step-Reach reads_stats w v = cache_stats-Reach w
  step-Reach (polls p waker) w v = Reach-refl w
  step-Reach (clones p) w v = clone_waiter-Reach p w
  step-Reach (drops_waiter p) w v = Reach-refl w
  step-Reach closes w v =
      unfold drop_store in close_slots-Reach w.slots w (record w { alive = false }) (Reach-refl w)

  -- Whatever the clients of a valid store call, with any arguments and any outcomes, takes every slot
  -- through steps of the abstract machine: a place appears or is used again with a new entry of no
  -- content; an attempt begins only from an idle phase and under the next number; only the running
  -- attempt commits, fails or is cancelled; a commit takes the next content generation, the others
  -- keep the value that the attempt kept; an eviction takes a retained value; and an idle entry leaves
  -- its place free under the next generation, or retired for good after the last.
  pub run-Reach :
      (cs : List (Call V E W)) (w : World V E W) → IsValid w → Reach w (run will_wake cs w)
  unfolding run
  run-Reach [] w v = Reach-refl w
  run-Reach (c ∷ cs) w v =
      Refines-trans (step-Reach c w v)
        (run-Reach cs (step will_wake c w) (step-IsValid will_wake c w v))
