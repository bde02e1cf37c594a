-- ===== src/Cell/Examples.antt =====
-- Concrete cells with one waiter and with three, at which the properties of their completion are applied.
use fluxel_bases.Prelude.{
  ℕ, ◌≡◌, ◌≢◌, ◌↔◌, refl, inl, false, Option, none, some, [], ◌∷◌, ◌==◌, if◌then◌else◌, IsMember,
}
use fluxel_bases.Error.{Result, ok}
use fluxel_bases.Cell.{
  AttemptCell, Poll, complete, deregister, poll, check, set_outcome, drain, record_waker,
}
use fluxel_bases.Cell.Outcome.{complete-complete, poll-complete}
use fluxel_bases.Cell.Interleave.{
  PollPc, CompletePc, here, later, checks, records, answers, sets, drains, IsWoken,
}
use fluxel_bases.Cell.Wakes.{pending-IsWoken}
use fluxel_bases.Cell.Fanout.{deregister-complete}

abbrev three_wakers : ℕ → Option ℕ
three_wakers k = if k == 1 then some 10 else if k == 3 then some 30 else none

abbrev three_waiters : AttemptCell ℕ ℕ
three_waiters = record {
  outcome = none;
  poisoned = false;
  registry = record { next_key = 3; registered = 3 ∷ 2 ∷ 1 ∷ []; slots = three_wakers };
}

deregister-complete_example :
    IsMember 30
      (complete 5 (record three_waiters { registry = deregister 1 three_waiters.registry })).0
    ↔ ((k : ℕ) × (k ≢ 1) × IsMember k (3 ∷ 2 ∷ 1 ∷ []) × (three_wakers k ≡ some 30))
deregister-complete_example = deregister-complete 5 three_waiters 1 30 refl

-- A waiter with key 1 that has no waker yet.
abbrev one_cell : AttemptCell (Result ℕ) ℕ
one_cell = record {
  outcome = none;
  poisoned = false;
  registry = record { next_key = 1; registered = 1 ∷ []; slots = λ _. none };
}

complete-complete_example :
    complete (ok 6) (complete (ok 5) one_cell).1 ≡ ([], (complete (ok 5) one_cell).1)
complete-complete_example = complete-complete (ok 5) (ok 6) one_cell

poll-complete_example :
    poll (◌==◌) 1 30 (complete (ok 5) one_cell).1
    ≡ (Poll.ready (ok 5), (complete (ok 5) one_cell).1)
poll-complete_example = poll-complete (◌==◌) 1 30 (ok 5) one_cell refl refl

abbrev five : Result ℕ
five = ok 5

-- The poll answers before the completion decides.
abbrev polled_cell : AttemptCell (Result ℕ) ℕ
unfolding record_waker
polled_cell = record one_cell { registry = record_waker (◌==◌) 1 30 one_cell.registry }

pending-IsWoken_example : IsWoken (◌==◌) 1 30 five (30 ∷ [])
unfolding record_waker check set_outcome drain
pending-IsWoken_example =
    pending-IsWoken (◌==◌) 1 30 five one_cell (drain (set_outcome five polled_cell).1).1 (30 ∷ [])
      (inl refl)
      (later
        (later
          (later
            (later (later here (checks one_cell CompletePc.begins))
              (records one_cell CompletePc.begins))
            (answers polled_cell CompletePc.begins))
          (sets polled_cell (PollPc.answered Poll.pending)))
        (drains (set_outcome five polled_cell).1 (PollPc.answered Poll.pending)))
