-- ===== src/State.antt =====
-- crates/assets/src/state.rs: snapshots, failures and observations. `ContentGeneration` and
-- `AttemptGeneration` wrap one `u64`; an `Arc<V>` is the immutable value itself.
use fluxel_bases.Prelude.{ℕ, Option}
use fluxel_bases.Identity.{AssetId, AssetHandle}
use fluxel_bases.Budget.{ResidentBytes}

abbrev pub ContentGeneration : Type 0
ContentGeneration = ℕ

abbrev pub AttemptGeneration : Type 0
AttemptGeneration = ℕ

pub record AssetSnapshot (V : Type 0) : Type 0 where
  pub handle : AssetHandle
  pub generation : ContentGeneration
  pub value : V
  pub bytes : ResidentBytes

pub record ProductionFailure (V E : Type 0) : Type 0 where
  pub id : AssetId
  pub attempt : AttemptGeneration
  pub error : E
  pub previous : Option (AssetSnapshot V)

pub data AssetObservation (V E : Type 0) : Type 0 where
  missing : AssetId → AssetObservation V E
  producing : AssetId → AttemptGeneration → Option (AssetSnapshot V) → AssetObservation V E
  ready : AssetSnapshot V → AssetObservation V E
  failed : ProductionFailure V E → AssetObservation V E
