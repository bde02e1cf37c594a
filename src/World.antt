-- ===== src/World.antt =====
-- crates/assets/src/runtime.rs, lines 211 to 303: the synchronized state of a store. `StoreInner`
-- and what it shares with handles, permits and waiters make one `World`.
use fluxel_bases.Prelude.{ℕ, Bool, true, false, Option, List, []}
use fluxel_bases.Error.{Result}
use fluxel_bases.Identity.{IdentityToken}
use fluxel_bases.State.{ContentGeneration, AttemptGeneration}
use fluxel_bases.Budget.{ResidentBytes}
use fluxel_bases.Production.{ProductionOutcome}
use fluxel_bases.Cell.{AttemptCell, new_cell}

pub record ReadyValue (V : Type 0) : Type 0 where
  pub generation : ContentGeneration
  pub value : V
  pub bytes : ResidentBytes

pub data Phase (V E : Type 0) : Type 0 where
  missing : Phase V E
  producing :
      (attempt : AttemptGeneration) (previous : Option (ReadyValue V)) (cell : ℕ) → Phase V E
  ready : ReadyValue V → Phase V E
  failed : (attempt : AttemptGeneration) (error : E) (previous : Option (ReadyValue V)) → Phase V E

pub record Entry (V E : Type 0) : Type 0 where
  pub token : IdentityToken
  pub phase : Phase V E
  pub content_generation : ℕ
  pub attempt_generation : ℕ
  pub last_touch : ℕ

pub record Slot (V E : Type 0) : Type 0 where
  pub generation : ℕ
  pub entry : Option (Entry V E)

-- `free` is the `BTreeSet`, in ascending order.
pub record StoreState (V E : Type 0) : Type 0 where
  pub slots : List (Slot V E)
  pub free : List ℕ
  pub ready_bytes : ℕ
  pub touch : ℕ

-- The allocations behind the `Arc`s: the next address, the attempt cells, and the wakers that have
-- been woken, the latest first.
pub record Heap (V E W : Type 0) : Type 0 where
  pub next : ℕ
  pub cells : ℕ → AttemptCell (Result (ProductionOutcome V E)) W
  pub woken : List W

-- `poisoned` is that of the lock on `state`; `alive` says that some `AssetStore` still owns it.
pub record World (V E W : Type 0) : Type 0 where
  pub id : ℕ
  pub alive : Bool
  pub poisoned : Bool
  pub state : StoreState V E
  pub open state use *
  pub heap : Heap V E W
  pub open heap use *

-- `StoreInner::new`, with the identity drawn from `NEXT_STORE_ID`.
unfoldable pub new : {V E W : Type 0} → ℕ → World V E W
unfolding new_cell
new id = record {
  id = id;
  alive = true;
  poisoned = false;
  state = record { slots = []; free = []; ready_bytes = 0; touch = 0 };
  heap = record { next = 0; cells = λ _. new_cell; woken = [] };
}
