-- ===== src/Store/Retrying.antt =====
-- The beginning of the next attempt, by a retry after a failure (crates/assets/src/runtime.rs, lines 373
-- to 410 and 470 to 504).

use fluxel_bases.Prelude.{
  ℕ, ◌+◌, ◌<◌, ◌≡◌, refl, sym, subst, ◌∙◌, false, Option, arith, checked_add, u64_max,
}
use fluxel_bases.Error.{ok}
use fluxel_bases.Exec.{◌>>=◌, pure}
use fluxel_bases.Exec.Bind.{bind_rule}
use fluxel_bases.Identity.{AssetId, AssetHandle, handle_id}
use fluxel_bases.Production.{Acquire, ProducerPermit}
use fluxel_bases.Cell.{update, new_cell}
use fluxel_bases.World.{World, Entry, Phase, ReadyValue}
use fluxel_bases.Store.{find_entry, put_entry, make_attempt, alloc_cell}
use fluxel_bases.Store.Begin.{retry, retry_phase, restart}
use fluxel_bases.Store.Steps.{bump}
use fluxel_bases.Store.Keeps.Shared.{restart-make_attempt}
use fluxel_bases.Store.Flight.{Reaches, touched, touched_world, after_touch, find_entry-put_entry}

module _ {V E : Type 0} where
  abbrev pub next_permit : Entry V E → ℕ → ProducerPermit
  next_permit entry cell = record {
    id = entry.token.id;
    attempt = entry.attempt_generation + 1;
    cell = cell;
    completed = false;
  }

  -- The entry whose next attempt runs.
  abbrev pub restarted : Option (ReadyValue V) → ℕ → Entry V E → Entry V E
  restarted previous cell entry = record entry {
    attempt_generation = entry.attempt_generation + 1;
    phase = Phase.producing (entry.attempt_generation + 1) previous cell;
  }

module _ {V E W : Type 0} where
  abbrev pub allocated : World V E W → World V E W
  allocated w = record w {
    heap = record w.heap { next = w.next + 1; cells = update w.cells w.next new_cell };
  }

  pub make_attempt-ok :
      (id : AssetId) (entry : Entry V E) (previous : Option (ReadyValue V)) (w : World V E W)
      → entry.attempt_generation < u64_max
      → make_attempt id entry previous w ≡ (
        ok (next_permit entry w.next),
        put_entry id (restarted previous w.next entry) (allocated w),
      )
  unfolding make_attempt alloc_cell checked_add ◌>>=◌
  make_attempt-ok id entry previous w room = ground arith

  restart_phase-ok :
      (id : AssetId) (entry : Entry V E) (attempt : ℕ) (error : E)
      (previous : Option (ReadyValue V)) (w : World V E W)
      → entry.attempt_generation < u64_max
      → retry_phase id entry (Phase.failed attempt error previous) w ≡ (
        ok (Acquire.producer (next_permit entry w.next)),
        put_entry id (restarted previous w.next entry) (allocated w),
      )
  unfolding retry_phase pure
  restart_phase-ok id entry attempt error previous w room =
      bind_rule
        (λ r. r ≡ (
          ok (Acquire.producer (next_permit entry w.next)),
          put_entry id (restarted previous w.next entry) (allocated w),
        ))
        (restart id entry previous) _ w _
        (restart-make_attempt id entry previous w room ∙ make_attempt-ok id entry previous w room)
        refl

  -- A retry of an entry whose last attempt failed, in a store whose lock is good and whose clock and
  -- count of attempts have room, gives out a permit of the next attempt, under which the entry then
  -- runs with the value that the failure kept.
  pub retry-failed :
      (w : World V E W) (h : AssetHandle) (entry : Entry V E) (attempt : ℕ) (error : E)
      (previous : Option (ReadyValue V))
      → Reaches w h entry
      → entry.phase ≡ Phase.failed attempt error previous
      → entry.attempt_generation < u64_max
      → let r = retry h w in
        (r.0 ≡ ok (Acquire.producer (next_permit entry w.next)))
        × (find_entry r.1 (handle_id h) ≡ ok (restarted previous w.next (touched w entry)))
  unfolding retry
  retry-failed w h entry attempt error previous reaches e room =
      let id = handle_id h in
      let made : retry h w ≡ (
        ok (Acquire.producer (next_permit entry w.next)),
        put_entry id (restarted previous w.next (touched w entry))
            (allocated (touched_world w h entry)),
      ) =
        after_touch w h entry _ _ reaches (
          subst
            (λ phase. retry_phase id (touched w entry) phase (touched_world w h entry) ≡ (
              ok (Acquire.producer (next_permit entry w.next)),
              put_entry id (restarted previous w.next (touched w entry))
                  (allocated (touched_world w h entry)),
            ))
            (sym e)
            (unfold put_entry in
              restart_phase-ok id (touched w entry) attempt error previous (touched_world w h entry)
                room)) in
      rw made (
        refl,
        find_entry-put_entry (allocated (touched_world w h entry)) id (touched w entry) _ (
            unfold find_entry in
            find_entry-put_entry (bump w) id entry (touched w entry) reaches.found),
      )
