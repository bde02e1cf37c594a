-- ===== src/Store/Permit.antt =====
-- crates/assets/src/production.rs, lines 61 to 183, and the drop of the store (runtime.rs, lines 910
-- to 930): the methods of `ProducerPermit` and `ProductionWaiter`. A method that takes `self` ends
-- with the drop of the permit.
use fluxel_bases.Prelude.{ℕ, Bool, true, false, Option, none, some, List, [], ◌∷◌, if◌then◌else◌}
use fluxel_bases.Error.{Result, ok, err, panic, store_closed}
use fluxel_bases.Exec.{Exec}
use fluxel_bases.State.{AssetSnapshot, ProductionFailure}
use fluxel_bases.Budget.{ResidentBytes}
use fluxel_bases.Production.{ProductionOutcome, ProducerPermit, ProductionWaiter}
use fluxel_bases.Cell.{AttemptCell, Poll, update, register, deregister, poll}
use fluxel_bases.World.{World, Entry, Slot, Phase}
use fluxel_bases.Store.{complete_at}
use fluxel_bases.Store.Finish.{commit, fail, cancel}

abbrev pub is_ok {ℓ} : {A : Type ℓ} → Result A → Bool
is_ok (ok _) = true
is_ok _ = false

module _ {V E W : Type 0} where
  -- `Drop for ProducerPermit`; `Weak::upgrade` fails once the store is gone.
  unfoldable pub drop_permit : ProducerPermit → World V E W → World V E W
  unfolding cancel
  drop_permit p w =
      if p.completed then w else if w.alive then (cancel p.id p.attempt p.cell w).1 else w

  unfoldable pub settle {ℓ} :
      {A : Type ℓ} → ProducerPermit → Result A × World V E W → Result A × World V E W
  unfolding drop_permit
  settle p (r, w) = (r, drop_permit (record p { completed = is_ok r }) w)

  unfoldable pub commit_permit :
      ProducerPermit → V → ResidentBytes → Exec (World V E W) (AssetSnapshot V)
  unfolding settle commit
  commit_permit p value bytes w =
      if w.alive
      then settle p (commit p.id p.attempt p.cell value bytes w)
      else (err store_closed, w)

  unfoldable pub fail_permit : ProducerPermit → E → Exec (World V E W) (ProductionFailure V E)
  unfolding settle fail
  fail_permit p error w =
      if w.alive then settle p (fail p.id p.attempt p.cell error w) else (err store_closed, w)

  unfoldable pub cancel_permit : ProducerPermit → Exec (World V E W) (Unit {0})
  unfolding settle cancel
  cancel_permit p w =
      if w.alive then settle p (cancel p.id p.attempt p.cell w) else (err store_closed, w)

  -- A write to the cell of a waiter.
  abbrev pub set_cell :
      ℕ → AttemptCell (Result (ProductionOutcome V E)) W → World V E W → World V E W
  set_cell cell c w = record w { heap = record w.heap { cells = update w.cells cell c } }

  -- `Future::poll`
  unfoldable pub poll_waiter :
      (W → W → Bool)
      → ProductionWaiter
      → W
      → World V E W
      → Poll (ProductionOutcome V E) × World V E W
  unfolding poll
  poll_waiter will_wake p waker w =
      let (answer, c) = poll will_wake p.key waker (w.cells p.cell) in (answer, set_cell p.cell c w)

  -- `Clone for ProductionWaiter`, with a slot of its own; not under the lock of the store.
  unfoldable pub clone_waiter : ProductionWaiter → Exec (World V E W) ProductionWaiter
  unfolding register
  clone_waiter p w = elim (register (w.cells p.cell).registry) [
    | none ↦ (panic, w)
    | some (key, r) ↦
        (ok (record p { key = key }), set_cell p.cell (record (w.cells p.cell) { registry = r }) w)
  ]

  -- `Drop for ProductionWaiter`
  unfoldable pub drop_waiter : ProductionWaiter → World V E W → World V E W
  unfolding deregister
  drop_waiter p w =
      set_cell p.cell
        (record (w.cells p.cell) { registry = deregister p.key (w.cells p.cell).registry }) w

  -- `Drop for StoreInner`: the lock is recovered if it is poisoned.
  abbrev pub close_entry : Option (Entry V E) → World V E W → World V E W
  close_entry none w = w
  close_entry (some entry) w = elim entry.phase [
    | Phase.producing _ _ cell ↦ complete_at cell (err store_closed) w
    | _ ↦ w
  ]

  unfoldable pub close_slots : List (Slot V E) → World V E W → World V E W
  unfolding complete_at
  close_slots [] w = w
  close_slots (slot ∷ slots) w = close_slots slots (close_entry slot.entry w)

  unfoldable pub drop_store : World V E W → World V E W
  unfolding close_slots
  drop_store w = close_slots w.slots (record w { alive = false })
