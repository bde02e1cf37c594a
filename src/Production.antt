-- ===== src/Production.antt =====
-- crates/assets/src/production.rs: the data of production: capabilities and outcomes. The methods
-- are in Store/Permit.antt.
use fluxel_bases.Prelude.{ℕ, Bool, Option}
use fluxel_bases.Identity.{AssetId}
use fluxel_bases.State.{AttemptGeneration, AssetSnapshot, ProductionFailure}

pub data ProductionOutcome (V E : Type 0) : Type 0 where
  ready : AssetSnapshot V → ProductionOutcome V E
  failed : ProductionFailure V E → ProductionOutcome V E
  cancelled :
      (id : AssetId) (attempt : AttemptGeneration) (previous : Option (AssetSnapshot V))
      → ProductionOutcome V E

-- `cell` is the address of the attempt's `Arc<AttemptCell>`.
pub record ProducerPermit : Type 0 where
  pub id : AssetId
  pub attempt : AttemptGeneration
  pub cell : ℕ
  pub completed : Bool

-- `key` is that of the `WaiterRegistration`, whose slot the cell holds under this key.
pub record ProductionWaiter : Type 0 where
  pub id : AssetId
  pub attempt : AttemptGeneration
  pub cell : ℕ
  pub key : ℕ

pub data Acquire (V E : Type 0) : Type 0 where
  ready : AssetSnapshot V → Acquire V E
  producer : ProducerPermit → Acquire V E
  waiter : ProductionWaiter → Acquire V E
  failed : ProductionFailure V E → Acquire V E

pub data Production : Type 0 where
  producer : ProducerPermit → Production
  waiter : ProductionWaiter → Production
