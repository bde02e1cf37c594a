-- ===== src/Cell/Interleave.antt =====
-- A poll and a completion of the same attempt, interleaved at their locks (crates/assets/src/runtime.rs,
-- lines 38 to 71 and 170 to 208).
use fluxel_bases.Prelude.{ℕ, ◌≡◌, ◌⊎◌, Bool, true, false, Option, none, some, List, [], IsMember}
use fluxel_bases.Error.{Result}
use fluxel_bases.Cell.{AttemptCell, Poll, record_waker, check, set_outcome, drain, answer}

-- Where a poll stands between its sections, and where a completion does.
pub data PollPc (R : Type 0) : Type 0 where
  begins checked recorded : PollPc R
  answered : Poll R → PollPc R

pub data CompletePc (W : Type 0) : Type 0 where
  begins decided : CompletePc W
  woke : List W → CompletePc W

pub record Race (R W : Type 0) : Type 0 where
  pub cell : AttemptCell (Result R) W
  pub poller : PollPc R
  pub completer : CompletePc W

abbrev pub after_check : {R : Type 0} → Option (Result R) → PollPc R
after_check none = PollPc.checked
after_check (some r) = PollPc.answered (Poll.ready r)

abbrev pub after_set : {W : Type 0} → Bool → CompletePc W
after_set true = CompletePc.decided
after_set false = CompletePc.woke []

module _ {R W : Type 0} (will_wake : W → W → Bool) (key : ℕ) (waker : W) (result : Result R) where
  -- One section of either side.
  pub data Moves : Race R W → Race R W → Type 0 where
    checks :
        (c : AttemptCell (Result R) W) (k : CompletePc W)
        → Moves
            (record { cell = c; poller = PollPc.begins; completer = k })
            (record { cell = c; poller = after_check (check c); completer = k })
    records :
        (c : AttemptCell (Result R) W) (k : CompletePc W)
        → Moves
            (record { cell = c; poller = PollPc.checked; completer = k })
            (record {
              cell = record c { registry = record_waker will_wake key waker c.registry };
              poller = PollPc.recorded;
              completer = k;
            })
    answers :
        (c : AttemptCell (Result R) W) (k : CompletePc W)
        → Moves
            (record { cell = c; poller = PollPc.recorded; completer = k })
            (record { cell = c; poller = PollPc.answered (answer (check c)); completer = k })
    sets :
        (c : AttemptCell (Result R) W) (p : PollPc R)
        → Moves
            (record { cell = c; poller = p; completer = CompletePc.begins })
            (record {
              cell = (set_outcome result c).1;
              poller = p;
              completer = after_set (set_outcome result c).0;
            })
    drains :
        (c : AttemptCell (Result R) W) (p : PollPc R)
        → Moves
            (record { cell = c; poller = p; completer = CompletePc.decided })
            (record { cell = (drain c).1; poller = p; completer = CompletePc.woke (drain c).0 })

  pub data Runs (s : Race R W) : Race R W → Type 0 where
    here : Runs s s
    later : {t u : Race R W} → Runs s t → Moves t u → Runs s u

  -- A waker that stands for the poll's.
  abbrev pub Suits : W → Type 0
  Suits v = (v ≡ waker) ⊎ (will_wake v waker ≡ true)

  abbrev pub IsWoken : List W → Type 0
  IsWoken ws = (v : W) × IsMember v ws × Suits v

  abbrev pub Holds : AttemptCell (Result R) W → Type 0
  Holds c = (v : W) × (c.registry.slots key ≡ some v) × Suits v

  abbrev pub Listed : AttemptCell (Result R) W → Type 0
  Listed c = IsMember key c.registry.registered

  abbrev pub Decided : AttemptCell (Result R) W → Type 0
  Decided c = (r : Result R) × (c.outcome ≡ some r)

  abbrev pub Inv : AttemptCell (Result R) W → PollPc R → CompletePc W → Type 0
  Inv c (PollPc.answered (Poll.ready r)) k = Unit {0}
  Inv c (PollPc.answered Poll.pending) CompletePc.begins = Listed c × Holds c × (c.outcome ≡ none)
  Inv c (PollPc.answered Poll.pending) CompletePc.decided = Listed c × Holds c
  Inv c (PollPc.answered Poll.pending) (CompletePc.woke ws) = IsWoken ws
  Inv c PollPc.recorded CompletePc.begins = Listed c × Holds c
  Inv c p CompletePc.begins = Listed c
  Inv c p k = Decided c

  abbrev pub Good : Race R W → Type 0
  Good s = Inv s.cell s.poller s.completer
