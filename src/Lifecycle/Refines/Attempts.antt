-- ===== src/Lifecycle/Refines/Attempts.antt =====
-- The calls that begin, join and end attempts implement the abstract machine
-- (crates/assets/src/runtime.rs, lines 444 to 747).
use fluxel_bases.Prelude.{ℕ}
use fluxel_bases.Identity.{AssetId, AssetHandle}
use fluxel_bases.World.{World}
use fluxel_bases.Store.Begin.{acquire, retry, request_replacement, observe}
use fluxel_bases.Store.Finish.{commit, fail, cancel}
use fluxel_bases.Store.Valid.{IsValid}
use fluxel_bases.Lifecycle.Refines.{Reach}
use fluxel_bases.Lifecycle.Refines.Begin.{
  acquire-Reach, retry-Reach, request_replacement-Reach, observe-Reach,
}
use fluxel_bases.Lifecycle.Refines.Finish.{commit-Reach, fail-Reach, cancel-Reach}

module _ {V E W : Type 0} where
  -- From a valid store, whatever their arguments and outcomes, `acquire`, `retry`,
  -- `request_replacement`, `observe`, `commit`, `fail` and `cancel` take every slot through steps of
  -- the abstract machine of a slot: an attempt begins only from an idle phase and under the next
  -- generation, only the running attempt commits, fails or is cancelled, a commit takes the next
  -- content generation, and a failure or a cancellation keeps the value that the attempt kept.
  attempts-Reach :
      (h : AssetHandle) (id : AssetId) (attempt cell : ℕ) (value : V) (bytes : ℕ) (error : E)
      (w : World V E W)
      → IsValid w
      → Reach w (acquire h w).1
        × Reach w (retry h w).1
        × Reach w (request_replacement h w).1
        × Reach w (observe h w).1
        × Reach w (commit id attempt cell value bytes w).1
        × Reach w (fail id attempt cell error w).1
        × Reach w (cancel id attempt cell w).1
  attempts-Reach h id attempt cell value bytes error w v = (
    acquire-Reach h w v,
    retry-Reach h w v,
    request_replacement-Reach h w v,
    observe-Reach h w v,
    commit-Reach id attempt cell value bytes w v,
    fail-Reach id attempt cell error w v,
    cancel-Reach id attempt cell w v,
  )
