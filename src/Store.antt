-- ===== src/Store.antt =====
-- crates/assets/src/runtime.rs, lines 262 to 410: the steps that the operations of a store share.
-- The operations are in the modules below.
pub mod Steps
pub mod Valid
pub mod Writes
pub mod Keeps
pub mod Begin
pub mod Finish
pub mod Remove
pub mod Collect
pub mod Permit
pub mod Calls
pub mod Expiry
pub mod Flight
pub mod Publish
pub mod Failing
pub mod Retrying
pub mod Eviction
pub mod Removal
pub mod Exhaustion
pub mod Creation
pub mod Cancellation
mod Examples
use mathlib.Core.Option
use fluxel_bases.Prelude.{
  ℕ, ◌+◌, true, false, Option, none, some, ◌++◌, u64_max, checked_add, get_elem?, set, ◌==◌,
  if◌then◌else◌,
}
use fluxel_bases.Error.{
  AssetError, Result, ok, err, panic, foreign_identity, stale_identity, generation_exhausted,
  synchronization_poisoned,
}
use fluxel_bases.Exec.{Exec, pure, or_raise, lift, modify, ◌>>=◌, ◌>>◌}
use fluxel_bases.Identity.{AssetId, AssetHandle, handle_id}
use fluxel_bases.State.{AttemptGeneration, AssetSnapshot, ProductionFailure}
use fluxel_bases.Production.{ProductionOutcome, ProductionWaiter, ProducerPermit}
use fluxel_bases.Cell.{new_cell, register, update, complete}
use fluxel_bases.World.{World, Entry, Slot, Phase, ReadyValue}

unfoldable pub stale : AssetId → AssetError
stale id = stale_identity id.slot id.generation

module _ {V E : Type 0} where
  abbrev pub or_stale : AssetId → Option (Entry V E) → Result (Entry V E)
  or_stale id none = err (stale id)
  or_stale id (some entry) = ok entry

  abbrev pub in_slot : AssetId → Option (Slot V E) → Result (Entry V E)
  in_slot id none = err (stale id)
  in_slot id (some slot) =
      if slot.generation == id.generation then or_stale id slot.entry else err (stale id)

  -- `Arc::ptr_eq`
  abbrev pub same_token : AssetHandle → Entry V E → Result (Entry V E)
  same_token h entry = if entry.token.addr == h.token.addr then ok entry else err foreign_identity

module _ {V E W : Type 0} where
  unfoldable pub lock : Exec (World V E W) (Unit {0})
  lock w = if w.poisoned then (err synchronization_poisoned, w) else (ok tt, w)

  unfoldable pub next_touch : Exec (World V E W) ℕ
  next_touch w = elim (checked_add u64_max w.touch 1) [
    | none ↦ (err generation_exhausted, w)
    | some touch ↦ (ok touch, record w { state = record w.state { touch = touch } })
  ]

  -- `StoreInner::entry_mut`: the entry that the reference then names.
  unfoldable pub find_entry : World V E W → AssetId → Result (Entry V E)
  unfolding stale get_elem?
  find_entry w id =
      if id.store == w.id then in_slot id (get_elem? w.slots id.slot) else err foreign_identity

  unfoldable pub entry_mut : AssetId → Exec (World V E W) (Entry V E)
  unfolding find_entry
  entry_mut id w = (find_entry w id, w)

  -- A write through that reference. Its slot has the generation of `id`.
  unfoldable pub put_entry : AssetId → Entry V E → World V E W → World V E W
  unfolding set
  put_entry id entry w = record w {
    state = record w.state {
      slots = set w.slots id.slot (record { generation = id.generation; entry = some entry });
    };
  }

  unfoldable pub write_entry : AssetId → Entry V E → Exec (World V E W) (Unit {0})
  unfolding put_entry
  write_entry id entry = modify (put_entry id entry)

  -- `StoreInner::validate_handle`
  unfoldable pub validate_handle : AssetHandle → Exec (World V E W) (Entry V E)
  unfolding entry_mut ◌>>=◌
  validate_handle h = do entry ← entry_mut (handle_id h); lift (same_token h entry)

  -- `AttemptCell::complete`, on the cell at an address.
  unfoldable pub complete_at : ℕ → Result (ProductionOutcome V E) → World V E W → World V E W
  unfolding complete
  complete_at cell result w =
      let (wakers, c) = complete result (w.cells cell) in
      record w { heap = record w.heap { cells = update w.cells cell c; woken = wakers ++ w.woken } }

module _ {V E : Type 0} where
  -- The value that a phase retains, if any.
  abbrev pub retained : Phase V E → Option (ReadyValue V)
  retained Phase.missing = none
  retained (Phase.producing _ previous _) = previous
  retained (Phase.ready r) = some r
  retained (Phase.failed _ _ previous) = previous

  unfoldable pub snapshot : Entry V E → ReadyValue V → AssetSnapshot V
  snapshot entry r = record {
    handle = record { token = entry.token };
    generation = r.generation;
    value = r.value;
    bytes = r.bytes;
  }

  unfoldable pub failure :
      Entry V E → AttemptGeneration → E → Option (ReadyValue V) → ProductionFailure V E
  unfolding snapshot
  failure entry attempt error previous = record {
    id = entry.token.id;
    attempt = attempt;
    error = error;
    previous = Option.map (snapshot entry) previous;
  }

module _ {V E W : Type 0} where
  -- `Arc::new(AttemptCell::new())`
  unfoldable pub alloc_cell : Exec (World V E W) ℕ
  unfolding new_cell
  alloc_cell w = (
    ok w.next,
    record w { heap = record w.heap { next = w.next + 1; cells = update w.cells w.next new_cell } },
  )

  -- `id` names the entry's slot.
  unfoldable pub make_attempt :
      AssetId → Entry V E → Option (ReadyValue V) → Exec (World V E W) ProducerPermit
  unfolding checked_add alloc_cell write_entry ◌>>=◌
  make_attempt id entry previous = do
    attempt ← or_raise (checked_add u64_max entry.attempt_generation 1) generation_exhausted
    cell ← alloc_cell
    write_entry id (record entry {
      attempt_generation = attempt;
      phase = Phase.producing attempt previous cell;
    })
    pure (record { id = entry.token.id; attempt = attempt; cell = cell; completed = false })

  -- `StoreInner::waiter` runs under the lock of the store: its panic poisons that lock.
  unfoldable pub waiter : AssetId → AttemptGeneration → ℕ → Exec (World V E W) ProductionWaiter
  unfolding register
  waiter id attempt cell w = elim (register (w.cells cell).registry) [
    | none ↦ (panic, record w { poisoned = true })
    | some (key, r) ↦ (
      ok (record { id = id; attempt = attempt; cell = cell; key = key }),
      record w {
        heap = record w.heap {
          cells = update w.cells cell (record (w.cells cell) { registry = r });
        };
      },
    )
  ]
