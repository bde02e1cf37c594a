-- ===== src/Budget.antt =====
-- crates/assets/src/budget.rs: byte accounting and the reports. `ResidentBytes` wraps one `u64`.
use fluxel_bases.Prelude.{ℕ, List, Option}
use fluxel_bases.Identity.{AssetId}

abbrev pub ResidentBytes : Type 0
ResidentBytes = ℕ

pub record CacheBudget : Type 0 where
  pub max_resident_bytes : ℕ

pub record EvictedAsset : Type 0 where
  pub id : AssetId
  pub generation : ℕ
  pub bytes : ResidentBytes

pub record CollectReport : Type 0 where
  pub before : ResidentBytes
  pub after : ResidentBytes
  pub evicted : List EvictedAsset

pub record CacheStats : Type 0 where
  pub ready_entries : ℕ
  pub resident_bytes : ResidentBytes

pub record RemoveReport : Type 0 where
  pub id : AssetId
  pub removed_generation : Option ℕ
  pub removed_bytes : ResidentBytes
