-- ===== src/Store/Exhaustion.antt =====
-- A store whose clock has no next value (crates/assets/src/runtime.rs, lines 262 to 270).
use fluxel_bases.Prelude.{ℕ, ◌≡◌, false, arith, u64_max, checked_add}
use fluxel_bases.Error.{err, generation_exhausted}
use fluxel_bases.Exec.{◌>>=◌}
use fluxel_bases.Identity.{AssetId, AssetHandle}
use fluxel_bases.Production.{ProducerPermit}
use fluxel_bases.World.{World}
use fluxel_bases.Store.{lock, next_touch}
use fluxel_bases.Store.Begin.{touch_entry, create, acquire, retry, request_replacement, observe}
use fluxel_bases.Store.Finish.{commit, fail, cancel}
use fluxel_bases.Store.Permit.{drop_permit}

module _ {V E W : Type 0} where
  -- Once the clock of a store whose lock is good stands at its last value, the calls that read it are refused and change nothing; a
  -- permit can then neither end its attempt nor, when it is dropped, cancel it.
  pub exhausted_clock :
      (h : AssetHandle) (id : AssetId) (attempt cell : ℕ) (value : V) (bytes : ℕ) (error : E)
      (p : ProducerPermit) (w : World V E W)
      → w.poisoned ≡ false
      → w.touch ≡ u64_max
      → (create w ≡ (err generation_exhausted, w))
        × (acquire h w ≡ (err generation_exhausted, w))
        × (retry h w ≡ (err generation_exhausted, w))
        × (request_replacement h w ≡ (err generation_exhausted, w))
        × (observe h w ≡ (err generation_exhausted, w))
        × (commit id attempt cell value bytes w ≡ (err generation_exhausted, w))
        × (fail id attempt cell error w ≡ (err generation_exhausted, w))
        × (cancel id attempt cell w ≡ (err generation_exhausted, w))
        × (drop_permit p w ≡ w)
  unfolding create acquire retry request_replacement observe touch_entry commit fail cancel
      drop_permit lock next_touch checked_add ◌>>=◌
  exhausted_clock h id attempt cell value bytes error p w sound last = (
    ground arith,
    ground arith,
    ground arith,
    ground arith,
    ground arith,
    ground arith,
    ground arith,
    ground arith,
    ground arith,
  )
