-- ===== src/Error.antt =====
-- crates/assets/src/error.rs: the structured failures, and the result of a fallible call.
pub mod Display
use fluxel_bases.Prelude.{ℕ, Option}

pub data AssetError : Type 0 where
  foreign_identity : AssetError
  stale_identity : (slot slot_generation : ℕ) → AssetError
  live_users : (strong_users : ℕ) → AssetError
  production_in_progress : (attempt : ℕ) → AssetError
  no_active_production : AssetError
  expired_producer : (actual_attempt : ℕ) (expected_attempt : Option ℕ) → AssetError
  producer_already_completed : AssetError
  resident_bytes_overflow : AssetError
  generation_exhausted : AssetError
  synchronization_poisoned : AssetError
  store_closed : AssetError

-- `Result<A, AssetError>`; `panic` is the unwinding of an `expect`.
pub data Result {ℓ} (A : Type ℓ) : Type ℓ where
  ok : A → Result A
  err : AssetError → Result A
  panic : Result A
