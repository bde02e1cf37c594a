-- ===== src/Store/Calls.antt =====
-- The calls of a store's clients, in any order and with any arguments: crates/assets/src/store.rs
-- and the methods of permits and waiters in crates/assets/src/production.rs.
use fluxel_bases.Prelude.{ℕ, Bool, List, [], ◌∷◌}
use fluxel_bases.Identity.{AssetId, AssetHandle, AssetWeak}
use fluxel_bases.Budget.{ResidentBytes, CacheBudget}
use fluxel_bases.Production.{ProducerPermit, ProductionWaiter}
use fluxel_bases.World.{World}
use fluxel_bases.Store.Begin.{create, acquire, retry, request_replacement, observe, upgrade}
use fluxel_bases.Store.Remove.{remove}
use fluxel_bases.Store.Collect.{collect, cache_stats}
use fluxel_bases.Store.Permit.{
  commit_permit, fail_permit, cancel_permit, drop_permit, poll_waiter, clone_waiter, drop_waiter,
  drop_store,
}

-- `removes` and `collects` carry the counts of the tokens' owners at the time of the call.
pub data Call (V E W : Type 0) : Type 0 where
  creates : Call V E W
  acquires retries replaces observes : AssetHandle → Call V E W
  upgrades : (strong_count : ℕ → ℕ) → AssetWeak → Call V E W
  commits : ProducerPermit → V → ResidentBytes → Call V E W
  fails : ProducerPermit → E → Call V E W
  cancels drops_permit : ProducerPermit → Call V E W
  removes : (strong_count : ℕ → ℕ) → AssetId → Call V E W
  collects : (strong_count : ℕ → ℕ) → CacheBudget → Call V E W
  reads_stats : Call V E W
  polls : ProductionWaiter → W → Call V E W
  clones drops_waiter : ProductionWaiter → Call V E W
  closes : Call V E W

module _ {V E W : Type 0} (will_wake : W → W → Bool) where
  unfoldable pub step : Call V E W → World V E W → World V E W
  step creates w = (create w).1
  step (acquires h) w = (acquire h w).1
  step (retries h) w = (retry h w).1
  step (replaces h) w = (request_replacement h w).1
  step (observes h) w = (observe h w).1
  step (upgrades strong_count h) w = (upgrade strong_count h w).1
  step (commits p value bytes) w = (commit_permit p value bytes w).1
  step (fails p error) w = (fail_permit p error w).1
  step (cancels p) w = (cancel_permit p w).1
  step (drops_permit p) w = drop_permit p w
  step (removes strong_count id) w = (remove strong_count id w).1
  step (collects strong_count budget) w = (collect strong_count budget w).1
  step reads_stats w = (cache_stats w).1
  step (polls p waker) w = (poll_waiter will_wake p waker w).1
  step (clones p) w = (clone_waiter p w).1
  step (drops_waiter p) w = drop_waiter p w
  step closes w = drop_store w

  unfoldable pub run : List (Call V E W) → World V E W → World V E W
  unfolding step
  run [] w = w
  run (c ∷ cs) w = run cs (step c w)
