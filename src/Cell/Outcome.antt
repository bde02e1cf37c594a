-- ===== src/Cell/Outcome.antt =====
-- The result of an attempt as its waiters see it (crates/assets/src/runtime.rs, lines 134 to 208).
use fluxel_bases.Prelude.{ℕ, ◌≡◌, refl, Bool, false, arith, Option, none, some, []}
use fluxel_bases.Error.{Result}
use fluxel_bases.Cell.{AttemptCell, Poll, check, complete, poll}

module _ {R W : Type 0} where
  complete_outcome :
      (r : R) (c : AttemptCell R W) (o : Option R)
      → c.outcome ≡ o
      → (s : R) × ((complete r c).1.outcome ≡ some s)
  unfolding complete
  complete_outcome r c none h = (r, ground arith)
  complete_outcome r c (some s) h = (s, ground arith)

  complete-settled : (r s : R) (c : AttemptCell R W) → c.outcome ≡ some s → complete r c ≡ ([], c)
  unfolding complete
  complete-settled r s c h = rw (h, complete) refl

  -- The second result of an attempt changes nothing and wakes nobody.
  pub complete-complete :
      (first second : R) (c : AttemptCell R W)
      → complete second (complete first c).1 ≡ ([], (complete first c).1)
  complete-complete first second c =
      let (s, h) = complete_outcome first c c.outcome refl in
      complete-settled second s (complete first c).1 h

  -- After the first completion of a cell whose lock is good, every poll answers its result and leaves
  -- the cell as it was.
  pub poll-complete :
      (will_wake : W → W → Bool) (key : ℕ) (waker : W) (result : Result R)
      (c : AttemptCell (Result R) W)
      → c.poisoned ≡ false
      → c.outcome ≡ none
      → poll will_wake key waker (complete result c).1 ≡ (Poll.ready result, (complete result c).1)
  unfolding poll complete check
  poll-complete will_wake key waker result c sound open_ = ground arith
