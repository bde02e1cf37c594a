-- ===== src/Loader/Wait.antt =====
-- crates/assets/examples/file_loader/mod.rs, lines 602 to 670: the blocking wait of a thread that has
-- decided that it may block.
pub mod Ends
pub mod Wakes
use fluxel_bases.Prelude.{
  ℕ, ◌+◌, ◌-◌, Bool, true, false, Option, none, some, List, [], ◌∷◌, ltb, if◌then◌else◌, ◌==◌,
}
use fluxel_bases.Error.{AssetError, Result, ok, err, panic}
use fluxel_bases.Production.{ProductionOutcome, ProductionWaiter}
use fluxel_bases.Cell.{Poll}
use fluxel_bases.World.{World}
use fluxel_bases.Store.Permit.{poll_waiter}

pub data WaitError : Type 0 where
  blocking_denied timed_out : WaitError
  core : AssetError → WaitError

pub data BlockingPolicy : Type 0 where
  allow deny : BlockingPolicy

-- How a wait ends: with a value, an error, or the panic of a poll.
pub data Wait (A : Type 0) : Type 0 where
  finished : A → Wait A
  gives_up : WaitError → Wait A
  panics : Wait A

abbrev pub waited : {A : Type 0} → Result A → Wait A
waited (ok a) = finished a
waited (err e) = gives_up (core e)
waited panic = panics

-- What the other threads and the clock do while one turn of the loop blocks: the time since the start
-- of the wait, and the store at the end of the turn.
pub record Round (V E W : Type 0) : Type 0 where
  pub elapsed : ℕ
  pub meanwhile : World V E W → World V E W

-- `Notify`: one message in the channel for each wake of the wait's own waker.
unfoldable pub sent : {W : Type 0} → (W → Bool) → List W → ℕ
sent is_own [] = 0
sent is_own (w ∷ ws) = let rest = sent is_own ws in if is_own w then rest + 1 else rest

module _ {V E W : Type 0} (is_own : W → Bool) (timeout : ℕ) where
  -- One turn of the loop after its poll, from the number of messages that it has received.
  unfoldable pub turn :
      Round V E W
      → ℕ
      → (World V E W → Option (Wait (ProductionOutcome V E) × World V E W))
      → Poll (ProductionOutcome V E) × World V E W
      → Option (Wait (ProductionOutcome V E) × World V E W)
  unfolding sent
  turn round received next (Poll.ready r, w) = some (waited r, w)
  turn round received next (Poll.pending, w) =
      let after = round.meanwhile w in
      if (timeout - round.elapsed) == 0
      then some (gives_up WaitError.timed_out, w)
      else if ltb received (sent is_own after.woken)
      then next after
      else some (gives_up WaitError.timed_out, after)

module _ {V E W : Type 0} where
  -- `none` is that the rounds run out before the wait ends.
  unfoldable pub last_turn :
      Poll (ProductionOutcome V E) × World V E W
      → Option (Wait (ProductionOutcome V E) × World V E W)
  last_turn (Poll.ready r, w) = some (waited r, w)
  last_turn (Poll.pending, w) = none

module _ {V E W : Type 0} (will_wake : W → W → Bool) (is_own : W → Bool) (waker : W)
    (timeout : ℕ) where
  unfoldable pub wait_loop :
      List (Round V E W)
      → ProductionWaiter
      → ℕ
      → World V E W
      → Option (Wait (ProductionOutcome V E) × World V E W)
  unfolding poll_waiter turn last_turn
  wait_loop [] p received w = last_turn (poll_waiter will_wake p waker w)
  wait_loop (round ∷ rounds) p received w =
      turn is_own timeout round received (wait_loop rounds p (received + 1))
        (poll_waiter will_wake p waker w)

  -- `wait_for`. The channel is new: what was sent before is not in it.
  unfoldable pub wait_for :
      BlockingPolicy
      → List (Round V E W)
      → ProductionWaiter
      → World V E W
      → Option (Wait (ProductionOutcome V E) × World V E W)
  unfolding wait_loop
  wait_for BlockingPolicy.deny rounds p w = some (gives_up WaitError.blocking_denied, w)
  wait_for BlockingPolicy.allow rounds p w = wait_loop rounds p (sent is_own w.woken) w
