-- ===== src/Store/Failing.antt =====
-- What a failure shows to the next call and to the waiters (crates/assets/src/runtime.rs, lines 444 to
-- 468 and 658 to 705).
use mathlib.Core.Option
use fluxel_bases.Prelude.{
  ℕ, ◌+◌, ◌<◌, ◌≡◌, refl, ap, sym, subst, ◌∙◌, Option, none, some, arith, checked_add, u64_max,
}
use fluxel_bases.Error.{ok}
use fluxel_bases.Exec.{◌>>=◌}
use fluxel_bases.Identity.{AssetId, AssetHandle, handle_id}
use fluxel_bases.State.{ProductionFailure}
use fluxel_bases.Production.{Acquire, ProductionOutcome}
use fluxel_bases.World.{World, Entry, Phase, ReadyValue}
use fluxel_bases.Store.{
  lock, next_touch, find_entry, entry_mut, put_entry, snapshot, failure, complete_at,
}
use fluxel_bases.Store.Begin.{acquire, acquire_phase}
use fluxel_bases.Store.Finish.{fail}
use fluxel_bases.Store.Steps.{bump, find_entry-ok}
use fluxel_bases.Store.Valid.{IsValid}
use fluxel_bases.Store.Writes.{At-IsValid}
use fluxel_bases.Store.Flight.{Reaches, touched, touched_world, after_touch, find_entry-put_entry}
use fluxel_bases.Store.Publish.{claim-active, complete_at-outcome}

module _ {V E : Type 0} where
  abbrev pub failed_entry : ℕ → ℕ → E → Option (ReadyValue V) → Entry V E → Entry V E
  failed_entry touch attempt error previous entry = record entry {
    last_touch = touch;
    phase = Phase.failed attempt error previous;
  }

  -- What the failure of an attempt says, to its producer, its waiters and the next call.
  abbrev pub failure_of :
      AssetHandle → Entry V E → ℕ → E → Option (ReadyValue V) → ProductionFailure V E
  failure_of h entry attempt error previous = record {
    id = handle_id h;
    attempt = attempt;
    error = error;
    previous = Option.map (snapshot entry) previous;
  }

module _ {V E W : Type 0} where
  abbrev pub failed_world :
      World V E W
      → AssetHandle
      → Entry V E
      → (attempt cell : ℕ) → E
      → Option (ReadyValue V)
      → World V E W
  failed_world w h entry attempt cell error previous =
      complete_at cell (ok (ProductionOutcome.failed (failure_of h entry attempt error previous)))
        (put_entry (handle_id h) (failed_entry (w.touch + 1) attempt error previous entry) (bump w))

  pub fail-ok :
      (w : World V E W) (h : AssetHandle) (entry : Entry V E) (attempt cell : ℕ) (error : E)
      (previous : Option (ReadyValue V))
      → Reaches w h entry
      → entry.phase ≡ Phase.producing attempt previous cell
      → fail (handle_id h) attempt cell error w ≡ (
        ok (failure_of h entry attempt error previous),
        failed_world w h entry attempt cell error previous,
      )
  unfolding fail lock next_touch entry_mut checked_add ◌>>=◌
  fail-ok w h entry attempt cell error previous r runs =
      let claimed = claim-active attempt cell entry.phase previous runs in
      ground (arith, r.sound, r.more, r.found, claimed)

  -- On a valid store, an entry carries the identity by which it is found.
  pub found-id :
      (w : World V E W) (id : AssetId) (entry : Entry V E)
      → IsValid w
      → find_entry w id ≡ ok entry
      → entry.token.id ≡ id
  found-id w id entry v found =
      let (own, at) = find_entry-ok w id entry found in
      let t = At-IsValid id.slot id.generation entry v at in
      λ i. record {
        store = (t.own_store ∙ sym own) i;
        slot = t.own_slot i;
        generation = t.own_generation i;
      }

  pub failed-Reaches :
      (w : World V E W) (h : AssetHandle) (entry : Entry V E) (attempt cell : ℕ) (error : E)
      (previous : Option (ReadyValue V))
      → Reaches w h entry
      → w.touch + 1 < u64_max
      → Reaches
          (failed_world w h entry attempt cell error previous)
          h
          (failed_entry (w.touch + 1) attempt error previous entry)
  unfolding complete_at put_entry find_entry
  failed-Reaches w h entry attempt cell error previous r more = record {
    sound = r.sound;
    more = more;
    found = find_entry-put_entry (bump w) (handle_id h) entry _ r.found;
    same = r.same;
  }

  acquire-failed :
      (w : World V E W) (h : AssetHandle) (entry : Entry V E) (attempt : ℕ) (error : E)
      (previous : Option (ReadyValue V))
      → entry.phase ≡ Phase.failed attempt error previous
      → Reaches w h entry
      → (acquire h w).0 ≡ ok (Acquire.failed (failure entry attempt error previous))
  unfolding acquire acquire_phase failure snapshot
  acquire-failed w h entry attempt error previous e reaches =
      ap (λ x. x.0)
        (after_touch w h entry _
          (ok (Acquire.failed (failure entry attempt error previous)), touched_world w h entry)
          reaches
          (subst
            (λ phase.
              acquire_phase (handle_id h) (touched w entry) phase (touched_world w h entry) ≡ (
                ok (Acquire.failed (failure entry attempt error previous)),
                touched_world w h entry,
              ))
            (sym e) refl))

  -- A failure by the permit of the running attempt, on a valid store whose lock is good, whose clock
  -- has room and where the attempt has no result yet: it charges nothing, and its error, its attempt
  -- and the value that the attempt kept are what the producer gets back, what `acquire` then answers,
  -- and the result in the attempt's cell.
  pub fail-acquire :
      (w : World V E W) (h : AssetHandle) (entry : Entry V E) (attempt cell : ℕ) (error : E)
      (previous : Option (ReadyValue V))
      → IsValid w
      → Reaches w h entry
      → entry.phase ≡ Phase.producing attempt previous cell
      → w.touch + 1 < u64_max
      → (w.cells cell).outcome ≡ none
      → let r = fail (handle_id h) attempt cell error w in
        let f = failure_of h entry attempt error previous in
        (r.0 ≡ ok f)
        × (r.1.ready_bytes ≡ w.ready_bytes)
        × ((acquire h r.1).0 ≡ ok (Acquire.failed f))
        × ((r.1.cells cell).outcome ≡ some (ok (ProductionOutcome.failed f)))
  unfolding failure snapshot
  fail-acquire w h entry attempt cell error previous v r runs more fresh =
      rw (fail-ok w h entry attempt cell error previous r runs) (
        refl,
        unfold complete_at put_entry in refl,
        acquire-failed (failed_world w h entry attempt cell error previous) h
              (failed_entry (w.touch + 1) attempt error previous entry) attempt error previous refl
              (failed-Reaches w h entry attempt cell error previous r more)
            ∙ ap
                (λ id.
                  ok (
                    Acquire.failed
                      (record (failure_of h entry attempt error previous) { id = id })))
                (found-id w (handle_id h) entry v r.found),
        complete_at-outcome cell _ _ (unfold put_entry in fresh),
      )
