-- ===== src/Store/Expiry.antt =====
-- A permit that does not name the active attempt ends nothing (crates/assets/src/runtime.rs, lines
-- 589 to 747).
use fluxel_bases.Prelude.{ℕ, ◌<◌, ◌≡◌, refl, false, Option, none, some, arith, u64_max, checked_add}
use fluxel_bases.Error.{AssetError, ok, err, expired_producer}
use fluxel_bases.Exec.{◌>>=◌}
use fluxel_bases.Identity.{AssetId}
use fluxel_bases.World.{World, Entry, Phase}
use fluxel_bases.Store.{lock, next_touch, find_entry, entry_mut}
use fluxel_bases.Store.Finish.{claim, commit, fail, cancel}
use fluxel_bases.Store.Steps.{bump}

module _ {V E : Type 0} where
  -- The attempt that a phase has active.
  abbrev pub active_attempt : Phase V E → Option ℕ
  active_attempt (Phase.producing attempt _ _) = some attempt
  active_attempt _ = none

  abbrev pub IsActive : ℕ → ℕ → Phase V E → Type 0
  IsActive attempt cell (Phase.producing a _ c) = (a ≡ attempt) × (c ≡ cell)
  IsActive attempt cell _ = ⊥

  claim-expired :
      (attempt cell : ℕ) (phase : Phase V E)
      → ¬ (IsActive attempt cell phase)
      → claim attempt cell phase ≡ err (expired_producer attempt (active_attempt phase))
  unfolding claim
  claim-expired attempt cell Phase.missing h = refl
  claim-expired attempt cell (Phase.producing a p c) h = ground (arith, h)
  claim-expired attempt cell (Phase.ready r) h = refl
  claim-expired attempt cell (Phase.failed a e p) h = refl

module _ {V E W : Type 0} where
  -- Where the lock is good and the clock and the content generation have room, a permit whose attempt
  -- is not the active one of the entry that it finds is refused by `commit`, `fail` and `cancel` alike,
  -- with the attempt that is active, if any; the clock alone moves.
  pub expired_permit :
      (id : AssetId) (attempt cell : ℕ) (value : V) (bytes : ℕ) (error : E) (w : World V E W)
      (entry : Entry V E)
      → w.poisoned ≡ false
      → w.touch < u64_max
      → find_entry w id ≡ ok entry
      → entry.content_generation < u64_max
      → ¬ (IsActive attempt cell entry.phase)
      → let e : AssetError = expired_producer attempt (active_attempt entry.phase) in
        (commit id attempt cell value bytes w ≡ (err e, bump w))
        × (fail id attempt cell error w ≡ (err e, bump w))
        × (cancel id attempt cell w ≡ (err e, bump w))
  unfolding commit fail cancel lock next_touch checked_add entry_mut ◌>>=◌
  expired_permit id attempt cell value bytes error w entry sound more found fits other =
      let refused = claim-expired attempt cell entry.phase other in ground (arith, refused, found)
