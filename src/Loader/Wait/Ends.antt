-- ===== src/Loader/Wait/Ends.antt =====
-- A blocking wait ends by its timeout (crates/assets/examples/file_loader/mod.rs, lines 618 to 648).
use fluxel_bases.Prelude.{ℕ, ◌+◌, ◌≤◌, ◌≢◌, ◌⊎◌, inl, inr, Bool, Option, none, List, [], ◌∷◌, arith}
use fluxel_bases.Production.{ProductionOutcome, ProductionWaiter}
use fluxel_bases.Cell.{Poll}
use fluxel_bases.World.{World}
use fluxel_bases.Store.Permit.{poll_waiter}
use fluxel_bases.Loader.Wait.{
  BlockingPolicy, allow, deny, Wait, Round, sent, turn, wait_loop, wait_for,
}

module _ {V E W : Type 0} where
  -- In one of the rounds the time is up.
  abbrev pub RunsOut : ℕ → List (Round V E W) → Type 0
  RunsOut timeout [] = ⊥
  RunsOut timeout (round ∷ rounds) = (timeout ≤ round.elapsed) ⊎ RunsOut timeout rounds

module _ {V E W : Type 0} (is_own : W → Bool) (timeout : ℕ) where
  turn-ne-none :
      (round : Round V E W) (received : ℕ)
      (next : World V E W → Option (Wait (ProductionOutcome V E) × World V E W))
      (polled : Poll (ProductionOutcome V E) × World V E W)
      → ((timeout ≤ round.elapsed) ⊎ ((after : World V E W) → next after ≢ none))
      → turn is_own timeout round received next polled ≢ none
  unfolding turn
  turn-ne-none round received next (Poll.ready r, w) h = λ e. cc
  turn-ne-none round received next (Poll.pending, w) (inl up) = ground arith
  turn-ne-none round received next (Poll.pending, w) (inr goes) =
      let rest = goes (round.meanwhile w) in ground (arith, rest)

module _ {V E W : Type 0} (will_wake : W → W → Bool) (is_own : W → Bool) (waker : W)
    (timeout : ℕ) where
  wait_loop-ne-none :
      (rounds : List (Round V E W)) (p : ProductionWaiter) (received : ℕ) (w : World V E W)
      → RunsOut timeout rounds
      → wait_loop will_wake is_own waker timeout rounds p received w ≢ none
  unfolding wait_loop
  wait_loop-ne-none [] p received w up = absurd up
  wait_loop-ne-none (round ∷ rounds) p received w up =
      turn-ne-none is_own timeout round received
        (wait_loop will_wake is_own waker timeout rounds p (received + 1))
        (poll_waiter will_wake p waker w)
        (elim up [
          | inl now ↦ inl now
          | inr later ↦ inr (λ after. wait_loop-ne-none rounds p (received + 1) after later)
        ])

  -- A wait returns, whatever the other threads do, if the time of one of its rounds is up.
  pub wait_for-ne-none :
      (policy : BlockingPolicy) (rounds : List (Round V E W)) (p : ProductionWaiter)
      (w : World V E W)
      → RunsOut timeout rounds
      → wait_for will_wake is_own waker timeout policy rounds p w ≢ none
  unfolding wait_for
  wait_for-ne-none deny rounds p w up = λ e. cc
  wait_for-ne-none allow rounds p w up = wait_loop-ne-none rounds p (sent is_own w.woken) w up
