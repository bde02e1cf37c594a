-- ===== src/Cell/Wakes.antt =====
-- No wakeup is lost: an invariant of a poll and a completion of the same attempt, interleaved.
use fluxel_bases.Prelude.{
  ℕ, ◌≡◌, refl, ap, ◌∙◌, inl, inr, Bool, true, false, Option, none, some, List, [], ◌∷◌, arith,
  IsMember, eq-cases, Bool-cases,
}
use fluxel_bases.Error.{Result, err, synchronization_poisoned}
use fluxel_bases.Cell.{
  AttemptCell, Poll, update, take_slots, take_wakers, record_waker, check, set_outcome, drain,
  answer,
}
use fluxel_bases.Cell.Interleave.{
  PollPc, CompletePc, Race, after_check, after_set, Moves, checks, records, answers, sets, drains,
  Runs, here, later, IsWoken, Holds, Inv, Good,
}

module _ {W : Type 0} where
  found :
      (j : ℕ) (ks : List ℕ) (slots : ℕ → Option W) (v : W) (o : Option W)
      → slots j ≡ o
      → IsMember v (take_slots ks (update slots j none)).0
      → IsMember v (take_slots (j ∷ ks) slots).0
  unfolding take_slots
  found j ks slots v none e h = rw (e, take_slots) h
  found j ks slots v (some w) e h = rw (e, take_slots) (inr h)

  pub take_slots-IsMember :
      (ks : List ℕ) (slots : ℕ → Option W) (k : ℕ) (v : W)
      → IsMember k ks
      → slots k ≡ some v
      → IsMember v (take_slots ks slots).0
  unfolding take_slots
  take_slots-IsMember [] slots k v member at = elim member [ ]
  take_slots-IsMember (j ∷ ks) slots k v member at = elim (eq-cases j k) [
    | inl same ↦ rw (ap slots same ∙ at, take_slots) (inl refl)
    | inr other ↦ elim member [
      | inl same ↦ absurd (other same)
      | inr rest ↦
          found j ks slots v (slots j) refl
            (take_slots-IsMember ks (update slots j none) k v rest (ground (arith, other, at)))
    ]
  ]

module _ {R W : Type 0} (will_wake : W → W → Bool) (key : ℕ) (waker : W) (result : Result R) where
  pub records-Holds :
      (c : AttemptCell (Result R) W)
      → Holds will_wake key waker result
          (record c { registry = record_waker will_wake key waker c.registry })
  unfolding record_waker
  records-Holds c = kept (c.registry.slots key) refl
    where
      kept :
          (o : Option W)
          → c.registry.slots key ≡ o
          → Holds will_wake key waker result
              (record c { registry = record_waker will_wake key waker c.registry })
      kept none e = rw (e, record_waker) (waker, ground arith, inl refl)
      kept (some v) e = elim (Bool-cases (will_wake v waker)) [
        | inl same ↦ rw (e, same, record_waker) (v, e, inr same)
        | inr other ↦ rw (e, other, record_waker) (waker, ground arith, inl refl)
      ]

  pub records-Listed :
      (c : AttemptCell (Result R) W)
      → IsMember key c.registry.registered
      → IsMember key (record_waker will_wake key waker c.registry).registered
  unfolding record_waker
  records-Listed c member = ground arith

  pub drains-IsWoken :
      (c : AttemptCell (Result R) W)
      → IsMember key c.registry.registered
      → Holds will_wake key waker result c
      → IsWoken will_wake key waker result (drain c).0
  unfolding drain take_wakers
  drains-IsWoken c member (v, at, suits) =
      (v, take_slots-IsMember c.registry.registered c.registry.slots key v member at, suits)

  check-Decided :
      (c : AttemptCell (Result R) W) (r : Result R)
      → c.outcome ≡ some r
      → (s : Result R) × (check c ≡ some s)
  unfolding check
  check-Decided c r e = elim (Bool-cases c.poisoned) [
    | inl p ↦ (err synchronization_poisoned, rw (p, check) refl)
    | inr p ↦ (r, rw (p, check) e)
  ]

  check-none : (c : AttemptCell (Result R) W) → check c ≡ none → c.outcome ≡ none
  unfolding check
  check-none c e = ground arith

  set_outcome-Decided :
      (c : AttemptCell (Result R) W) → (r : Result R) × ((set_outcome result c).1.outcome ≡ some r)
  unfolding set_outcome
  set_outcome-Decided c = go c.outcome refl
    where
      go :
          (o : Option (Result R))
          → c.outcome ≡ o
          → (r : Result R) × ((set_outcome result c).1.outcome ≡ some r)
      go none e = (result, rw (e, set_outcome) refl)
      go (some r) e = (r, rw (e, set_outcome) e)

  abbrev InvOf : Race R W → Type 0
  InvOf = Good will_wake key waker result

  checks-Inv :
      (c : AttemptCell (Result R) W) (k : CompletePc W)
      → Inv will_wake key waker result c PollPc.begins k
      → Inv will_wake key waker result c (after_check (check c)) k
  checks-Inv c CompletePc.begins h = go (check c)
    where
      go :
          (o : Option (Result R))
          → Inv will_wake key waker result c (after_check o) CompletePc.begins
      go none = h
      go (some r) = tt
  checks-Inv c CompletePc.decided (r, e) = rw (check-Decided c r e).1 tt
  checks-Inv c (CompletePc.woke ws) (r, e) = rw (check-Decided c r e).1 tt

  answers-Inv :
      (c : AttemptCell (Result R) W) (k : CompletePc W)
      → Inv will_wake key waker result c PollPc.recorded k
      → Inv will_wake key waker result c (PollPc.answered (answer (check c))) k
  answers-Inv c CompletePc.begins (l, h) = go (check c) refl
    where
      go :
          (o : Option (Result R))
          → check c ≡ o
          → Inv will_wake key waker result c (PollPc.answered (answer o)) CompletePc.begins
      go none e = (l, h, check-none c e)
      go (some r) e = tt
  answers-Inv c CompletePc.decided (r, e) = rw (check-Decided c r e).1 tt
  answers-Inv c (CompletePc.woke ws) (r, e) = rw (check-Decided c r e).1 tt

  records-Inv :
      (c : AttemptCell (Result R) W) (k : CompletePc W)
      → Inv will_wake key waker result c PollPc.checked k
      → Inv will_wake key waker result
          (record c { registry = record_waker will_wake key waker c.registry })
          PollPc.recorded
          k
  records-Inv c CompletePc.begins l = (records-Listed c l, records-Holds c)
  records-Inv c CompletePc.decided h = h
  records-Inv c (CompletePc.woke ws) h = h

  drains-Inv :
      (c : AttemptCell (Result R) W) (p : PollPc R)
      → Inv will_wake key waker result c p CompletePc.decided
      → Inv will_wake key waker result (drain c).1 p (CompletePc.woke (drain c).0)
  unfolding drain
  drains-Inv c PollPc.begins h = h
  drains-Inv c PollPc.checked h = h
  drains-Inv c PollPc.recorded h = h
  drains-Inv c (PollPc.answered (Poll.ready r)) h = tt
  drains-Inv c (PollPc.answered Poll.pending) (l, h) = drains-IsWoken c l h

  after_set-Inv :
      (c : AttemptCell (Result R) W) (p : PollPc R) (first : Bool)
      → Inv will_wake key waker result c p CompletePc.decided
      → Inv will_wake key waker result c p (CompletePc.woke [])
      → Inv will_wake key waker result c p (after_set first)
  after_set-Inv c p true h _ = h
  after_set-Inv c p false _ h = h

  sets-Inv :
      (c : AttemptCell (Result R) W) (p : PollPc R)
      → Inv will_wake key waker result c p CompletePc.begins
      → Inv will_wake key waker result
          (set_outcome result c).1
          p
          (after_set (set_outcome result c).0)
  unfolding set_outcome
  sets-Inv c PollPc.begins h =
      let d = set_outcome-Decided c in
      after_set-Inv (set_outcome result c).1 PollPc.begins (set_outcome result c).0 d d
  sets-Inv c PollPc.checked h =
      let d = set_outcome-Decided c in
      after_set-Inv (set_outcome result c).1 PollPc.checked (set_outcome result c).0 d d
  sets-Inv c PollPc.recorded h =
      let d = set_outcome-Decided c in
      after_set-Inv (set_outcome result c).1 PollPc.recorded (set_outcome result c).0 d d
  sets-Inv c (PollPc.answered (Poll.ready r)) h = tt
  sets-Inv c (PollPc.answered Poll.pending) (l, h, e) = rw (e, set_outcome) (l, h)

  Moves-Inv : {s t : Race R W} → Moves will_wake key waker result s t → InvOf s → InvOf t
  Moves-Inv (checks c k) h = checks-Inv c k h
  Moves-Inv (records c k) h = records-Inv c k h
  Moves-Inv (answers c k) h = answers-Inv c k h
  Moves-Inv (sets c p) h = sets-Inv c p h
  Moves-Inv (drains c p) h = drains-Inv c p h

  Runs-Inv : {s t : Race R W} → Runs will_wake key waker result s t → InvOf s → InvOf t
  Runs-Inv here h = h
  Runs-Inv (later r m) h = Moves-Inv m (Runs-Inv r h)

  -- However a poll of a registered waiter and a completion interleave, a poll that ends pending has
  -- its waker, or one that wakes the same task, woken by the completion.
  pub pending-IsWoken :
      (c d : AttemptCell (Result R) W) (ws : List W)
      → IsMember key c.registry.registered
      → Runs will_wake key waker result
          (record { cell = c; poller = PollPc.begins; completer = CompletePc.begins })
          (record {
            cell = d;
            poller = PollPc.answered Poll.pending;
            completer = CompletePc.woke ws;
          })
      → IsWoken will_wake key waker result ws
  pending-IsWoken c d ws listed r = Runs-Inv r listed
