-- ===== src/Store/Finish.antt =====
-- crates/assets/src/runtime.rs, lines 589 to 747: `commit`, `fail` and `cancel`, with which a
-- permit ends its attempt. A path that returns an error puts the phase back before the lock is
-- released, so it is written as one that never took the phase away.
use mathlib.Core.Option
use fluxel_bases.Prelude.{
  ℕ, ◌&&◌, Option, none, some, u64_max, checked_add, checked_sub, ◌==◌, if◌then◌else◌,
}
use fluxel_bases.Error.{
  Result, ok, err, expired_producer, generation_exhausted, resident_bytes_overflow,
}
use fluxel_bases.Exec.{Exec, pure, or_raise, lift, gets, modify, ◌>>=◌, ◌>>◌}
use fluxel_bases.Identity.{AssetId}
use fluxel_bases.State.{AttemptGeneration, AssetSnapshot, ProductionFailure}
use fluxel_bases.Budget.{ResidentBytes}
use fluxel_bases.Production.{ProductionOutcome}
use fluxel_bases.World.{World, Phase, ReadyValue}
use fluxel_bases.Store.{lock, next_touch, entry_mut, write_entry, snapshot, complete_at}

module _ {V : Type 0} where
  unfoldable pub previous_bytes : Option (ReadyValue V) → ℕ
  previous_bytes none = 0
  previous_bytes (some r) = r.bytes

  -- `current_total.checked_sub(previous_bytes).and_then(|total| total.checked_add(bytes))`
  unfoldable pub replaced_total : ℕ → Option (ReadyValue V) → ResidentBytes → Option ℕ
  unfolding checked_sub checked_add previous_bytes
  replaced_total current previous bytes = elim (checked_sub current (previous_bytes previous)) [
    | none ↦ none
    | some kept ↦ checked_add u64_max kept bytes
  ]

module _ {V E : Type 0} where
  -- The match on the old phase: the value kept by the attempt that the permit names.
  unfoldable pub claim : AttemptGeneration → ℕ → Phase V E → Result (Option (ReadyValue V))
  claim attempt cell (Phase.producing active previous active_cell) =
      if active == attempt && active_cell == cell
      then ok previous
      else err (expired_producer attempt (some active))
  claim attempt cell phase = err (expired_producer attempt none)

  -- The phase after a cancellation.
  abbrev pub restored : Option (ReadyValue V) → Phase V E
  restored none = Phase.missing
  restored (some r) = Phase.ready r

module _ {V E W : Type 0} where
  unfoldable pub set_ready_bytes : ℕ → World V E W → World V E W
  set_ready_bytes bytes w = record w { state = record w.state { ready_bytes = bytes } }

  unfoldable pub commit :
      AssetId → AttemptGeneration → ℕ → V → ResidentBytes → Exec (World V E W) (AssetSnapshot V)
  unfolding lock next_touch entry_mut claim replaced_total write_entry set_ready_bytes snapshot
      complete_at ◌>>=◌
  commit id attempt cell value bytes = do
    lock
    touch ← next_touch
    current_total ← gets (λ w. w.ready_bytes)
    entry ← entry_mut id
    generation ← or_raise (checked_add u64_max entry.content_generation 1) generation_exhausted
    previous ← lift (claim attempt cell entry.phase)
    ready_bytes ← or_raise (replaced_total current_total previous bytes) resident_bytes_overflow
    let r : ReadyValue V = record { generation = generation; value = value; bytes = bytes }
    write_entry id (record entry {
      content_generation = generation;
      last_touch = touch;
      phase = Phase.ready r;
    })
    modify (set_ready_bytes ready_bytes)
    modify (complete_at cell (ok (ProductionOutcome.ready (snapshot entry r))))
    pure (snapshot entry r)

  unfoldable pub fail :
      AssetId → AttemptGeneration → ℕ → E → Exec (World V E W) (ProductionFailure V E)
  unfolding lock next_touch entry_mut claim write_entry snapshot complete_at ◌>>=◌
  fail id attempt cell error = do
    lock
    touch ← next_touch
    entry ← entry_mut id
    previous ← lift (claim attempt cell entry.phase)
    let report : ProductionFailure V E = record {
      id = id;
      attempt = attempt;
      error = error;
      previous = Option.map (snapshot entry) previous;
    }
    write_entry id
        (record entry { last_touch = touch; phase = Phase.failed attempt error previous })
    modify (complete_at cell (ok (ProductionOutcome.failed report)))
    pure report

  unfoldable pub cancel : AssetId → AttemptGeneration → ℕ → Exec (World V E W) (Unit {0})
  unfolding lock next_touch entry_mut claim write_entry snapshot complete_at ◌>>=◌
  cancel id attempt cell = do
    lock
    touch ← next_touch
    entry ← entry_mut id
    previous ← lift (claim attempt cell entry.phase)
    write_entry id (record entry { last_touch = touch; phase = restored previous })
    modify (
        complete_at cell
          (ok (ProductionOutcome.cancelled id attempt (Option.map (snapshot entry) previous))))
