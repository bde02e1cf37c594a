-- ===== src/Lifecycle/Refines.antt =====
-- The steps that the operations share, as histories of the abstract machine
-- (crates/assets/src/runtime.rs, lines 262 to 410).
pub mod Begin
pub mod Finish
pub mod Attempts
pub mod Create
pub mod Remove
pub mod Collect
pub mod Calls
pub mod Identities
use fluxel_bases.Prelude.{
  ℕ, ◌+◌, ◌<◌, ◌≡◌, refl, Option, u64_max, arith, checked_add, checked_add-some, ◌==◌, Bool-cases,
  inl, inr,
}
use fluxel_bases.Error.{Result, ok}
use fluxel_bases.Exec.{Exec, ◌>>=◌}
use fluxel_bases.Exec.Bind.{or_raise_rule}
use fluxel_bases.Identity.{AssetId, AssetHandle, handle_id}
use fluxel_bases.Production.{ProducerPermit}
use fluxel_bases.World.{World, Entry, ReadyValue}
use fluxel_bases.Store.{find_entry, put_entry, make_attempt, waiter, retained}
use fluxel_bases.Store.Begin.{touch_entry, restart}
use fluxel_bases.Store.Steps.{At, bump, find_entry-ok, touch_entry_rule}
use fluxel_bases.Store.Valid.{IsValid}
use fluxel_bases.Store.Keeps.Shared.{Stands, entry_valid, touched-Stands, restart-make_attempt}
use fluxel_bases.Lifecycle.{IsIdle, Transition, rests, begins}
use fluxel_bases.Lifecycle.View.{Refines, Refines-refl, Refines-trans, Refines-same, Refines-put}

module _ {V E W : Type 0} where
  -- The places of the one world have come to those of the other by steps of the machine.
  abbrev pub Reach : World V E W → World V E W → Type 0
  Reach w u = Refines w.state u.state

  pub Reach-refl : (w : World V E W) → Reach w w
  Reach-refl w = Refines-refl w.state

  pub bump-Reach : (w : World V E W) → Reach w (bump w)
  bump-Reach w = Refines-same refl refl

  pub put-Reach :
      (id : AssetId) (old entry : Entry V E) (w : World V E W)
      → At w id.slot id.generation old
      → entry.token ≡ old.token
      → Transition old entry
      → Reach w (put_entry id entry w)
  unfolding put_entry
  put-Reach id old entry w at same tr =
      Refines-put w.state id.slot id.generation w.ready_bytes w.touch old entry at same tr

  touched-Reach :
      (h : AssetHandle) (entry : Entry V E) (w : World V E W)
      → find_entry w (handle_id h) ≡ ok entry
      → Reach w (put_entry (handle_id h) (record entry { last_touch = w.touch + 1 }) (bump w))
  touched-Reach h entry w found = Refines-trans (bump-Reach w) (
      put-Reach (handle_id h) entry _ (bump w) (find_entry-ok w (handle_id h) entry found).1 refl
        (rests refl refl refl))

  -- An operation on a handle takes steps if what follows `touch_entry` does.
  pub touch_entry-Reach :
      {A : Type 0} (h : AssetHandle) (k : Entry V E → Exec (World V E W) A) (w : World V E W)
      → ((entry : Entry V E) (u : World V E W)
          → Stands u (handle_id h) entry
          → Reach u (k entry u).1)
      → IsValid w
      → Reach w ((touch_entry h >>= k) w).1
  touch_entry-Reach {A} h k w keep v =
      touch_entry_rule (λ (r : Result A × World V E W). Reach w r.1) h k w (λ _. Reach-refl w)
        (λ _ lt. bump-Reach w)
        λ entry lt found _.
          Refines-trans (touched-Reach h entry w found)
            (keep _ _ (touched-Stands h entry w v lt found))

  pub waiter-Reach :
      (id : AssetId) (attempt cell : ℕ) (w : World V E W) → Reach w (waiter id attempt cell w).1
  unfolding waiter
  waiter-Reach id attempt cell w = ground (arith, Reach-refl w)

  pub make_attempt-Reach :
      (id : AssetId) (entry : Entry V E) (previous : Option (ReadyValue V)) (w : World V E W)
      → Stands w id entry
      → previous ≡ retained entry.phase
      → IsIdle entry.phase
      → Reach w (make_attempt id entry previous w).1
  unfolding make_attempt
  make_attempt-Reach id entry previous w t e idle =
      or_raise_rule (λ (r : Result ProducerPermit × World V E W). Reach w r.1)
        (checked_add u64_max entry.attempt_generation 1) _ _ w (λ _. Reach-refl w)
        λ attempt some_attempt.
          let (counted, fits) =
            checked_add-some u64_max entry.attempt_generation 1 attempt some_attempt in
          Refines-put w.state id.slot id.generation w.ready_bytes w.touch entry _ t.at refl
            (begins w.next idle (rw (counted, e) refl) counted refl)

  pub restart-Reach :
      (id : AssetId) (entry : Entry V E) (w : World V E W)
      → Stands w id entry
      → IsIdle entry.phase
      → Reach w (restart id entry (retained entry.phase) w).1
  unfolding restart
  restart-Reach id entry w t idle = elim (Bool-cases (entry.attempt_generation == u64_max)) [
    | inl last ↦ rw (last, restart) (Reach-refl w)
    | inr more ↦
        rw
          (restart-make_attempt id entry (retained entry.phase) w
            (ground (arith, (entry_valid w id entry t).attempts_fit)))
          (make_attempt-Reach id entry (retained entry.phase) w t refl idle)
  ]
