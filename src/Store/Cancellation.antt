-- ===== src/Store/Cancellation.antt =====
-- The drop of an unfinished permit (crates/assets/src/production.rs, lines 120 to 135, and
-- crates/assets/src/runtime.rs, lines 707 to 747).
use mathlib.Core.Option
use fluxel_bases.Prelude.{
  ℕ, ◌+◌, ◌≡◌, refl, ap, ◌∙◌, true, false, Option, none, some, arith, checked_add,
}
use fluxel_bases.Error.{ok}
use fluxel_bases.Exec.{◌>>=◌}
use fluxel_bases.Identity.{AssetHandle, handle_id}
use fluxel_bases.Production.{ProductionOutcome, ProducerPermit}
use fluxel_bases.World.{World, Entry, Phase, ReadyValue}
use fluxel_bases.Store.{lock, next_touch, find_entry, entry_mut, put_entry, snapshot, complete_at}
use fluxel_bases.Lifecycle.{kept_phase}
use fluxel_bases.Store.Finish.{restored, cancel}
use fluxel_bases.Store.Permit.{drop_permit}
use fluxel_bases.Store.Steps.{bump}
use fluxel_bases.Store.Flight.{Reaches, find_entry-put_entry}
use fluxel_bases.Store.Publish.{claim-active, complete_at-outcome}

module _ {V E : Type 0} where
  abbrev pub cancelled_entry : ℕ → Option (ReadyValue V) → Entry V E → Entry V E
  cancelled_entry touch previous entry = record entry {
    last_touch = touch;
    phase = kept_phase previous;
  }

  pub restored-kept_phase :
      (previous : Option (ReadyValue V)) → restored {V = V} {E = E} previous ≡ kept_phase previous
  restored-kept_phase none = refl
  restored-kept_phase (some r) = refl

module _ {V E W : Type 0} where
  cancel-ok :
      (w : World V E W) (h : AssetHandle) (entry : Entry V E) (attempt cell : ℕ)
      (previous : Option (ReadyValue V))
      → Reaches w h entry
      → entry.phase ≡ Phase.producing attempt previous cell
      → cancel (handle_id h) attempt cell w ≡ (
        ok tt,
        complete_at cell
            (ok (
              ProductionOutcome.cancelled
                (handle_id h)
                attempt
                (Option.map (snapshot entry) previous)))
            (put_entry (handle_id h) (cancelled_entry (w.touch + 1) previous entry) (bump w)),
      )
  unfolding cancel lock next_touch entry_mut checked_add ◌>>=◌
  cancel-ok w h entry attempt cell previous r runs =
      let claimed = claim-active attempt cell entry.phase previous runs in
      let kept = restored-kept_phase {E = E} previous in
      ground (arith, r.sound, r.more, r.found, claimed, kept)

  drop_permit-cancel :
      (p : ProducerPermit) (w : World V E W)
      → p.completed ≡ false
      → w.alive ≡ true
      → drop_permit p w ≡ (cancel p.id p.attempt p.cell w).1
  unfolding drop_permit
  drop_permit-cancel p w open_ alive = ground (arith, open_, alive)

  -- The drop of the unfinished permit of the running attempt, while the store lives, its lock and its
  -- clock are good and the attempt has no result yet, puts back the value that the attempt kept, or
  -- none, charges nothing, and leaves the cancellation as the result in the attempt's cell.
  pub drop_permit-restores :
      (w : World V E W) (h : AssetHandle) (entry : Entry V E) (attempt cell : ℕ)
      (previous : Option (ReadyValue V))
      → Reaches w h entry
      → entry.phase ≡ Phase.producing attempt previous cell
      → w.alive ≡ true
      → (w.cells cell).outcome ≡ none
      → let u : World V E W =
          drop_permit
            (record { id = handle_id h; attempt = attempt; cell = cell; completed = false })
            w in
        (find_entry u (handle_id h) ≡ ok (cancelled_entry (w.touch + 1) previous entry))
        × (u.ready_bytes ≡ w.ready_bytes)
        × ((u.cells cell).outcome
            ≡ some (
                ok (
                  ProductionOutcome.cancelled
                    (handle_id h)
                    attempt
                    (Option.map (snapshot entry) previous))))
  drop_permit-restores w h entry attempt cell previous r runs alive fresh =
      rw
        (drop_permit-cancel _ w refl alive
          ∙ ap (λ x. x.1) (cancel-ok w h entry attempt cell previous r runs))
        (
          unfold complete_at find_entry in
              find_entry-put_entry (bump w) (handle_id h) entry
                (cancelled_entry (w.touch + 1) previous entry) r.found,
          unfold complete_at put_entry in refl,
          complete_at-outcome cell
              (ok (
                ProductionOutcome.cancelled (handle_id h) attempt
                  (Option.map (snapshot entry) previous)))
              (put_entry (handle_id h) (cancelled_entry (w.touch + 1) previous entry) (bump w))
              (unfold put_entry in fresh),
        )
