-- ===== src/Loader/Program.antt =====
-- crates/assets/examples/07_file_loader.rs: a program that loads one file. Its worker thread shares with
-- the main thread only the loader and the budget, and touches what the main thread reads, the store,
-- in one section, the end of its production; a schedule says when that section runs. A failed `expect`,
-- `assert` or `unreachable` is a panic of the program.
pub mod Leased
pub mod Requests
pub mod Fetched
mod Examples
use fluxel_bases.Prelude.{ℕ, Bool, false, Option, none, some, List, [], ◌∷◌}
use fluxel_bases.Error.{Result}
use fluxel_bases.Production.{ProductionOutcome, ProductionWaiter}
use fluxel_bases.Store.Permit.{poll_waiter}
use fluxel_bases.Loader.Failure.{LoadError, Io, IoError, done, fails, Load, loaded}
use fluxel_bases.Loader.Key.{PathBuf, FileKey, raw, new_key}
use fluxel_bases.Loader.Budget.{InFlightBudget, with_limits}
use fluxel_bases.Loader.Directory.{FileLoader, FileStore, new_loader}
use fluxel_bases.Loader.Producer.{Snapshot, FileProducer, with_store}
use fluxel_bases.Loader.Production.{FileSystem, produce_with}
use fluxel_bases.Loader.Requests.{FileRequest, request}
use fluxel_bases.Loader.Wait.{BlockingPolicy, Wait, finished, Round, wait_for}

-- When the production ends: before the main thread first polls, or while it first blocks, that time
-- after the start of the wait.
pub data Schedule : Type 0 where
  before_wait : Schedule
  during_wait : (elapsed : ℕ) → Schedule

-- What the program uses of the system beside the file system: `fs::metadata(..).len()`, the kind of a
-- path, the current directory and `usize::MAX`.
pub record System (Kind Message : Type 0) : Type 1 where
  pub files : FileSystem Kind Message
  pub metadata_length : PathBuf → Io Kind Message ℕ
  pub is_absolute : PathBuf → Bool
  pub current_dir : Io Kind Message PathBuf
  pub drive_relative : IoError Kind Message
  pub usize_max : ℕ

-- `Duration::from_secs(5)`, in nanoseconds.
abbrev pub five_seconds : ℕ
five_seconds = 5000000000

-- `worker.join().expect(..)`, and the content of the snapshot.
abbrev pub joined_content :
    {Kind Message : Type 0} → Load Kind Message Snapshot → Snapshot → Option (List ℕ)
joined_content (loaded _) snapshot = some snapshot.value
joined_content _ snapshot = none

-- The end of `main`: the content, and where it is written.
abbrev pub fetched_to : Option PathBuf → Option (List ℕ) → Option (List ℕ × Option PathBuf)
fetched_to output none = none
fetched_to output (some content) = some (content, output)

module _ {Kind Message W : Type 0} where
  -- The arms of the `match` on the wait.
  abbrev pub delivered :
      Load Kind Message Snapshot
      → Option
          (Wait (ProductionOutcome (List ℕ) (LoadError Kind Message)) × FileStore Kind Message W)
      → Option (List ℕ)
  delivered out (some (finished (ProductionOutcome.ready snapshot), _)) =
      joined_content out snapshot
  delivered out _ = none

  -- The last round of the wait, by whose end the time is up.
  abbrev pub time_up : Round (List ℕ) (LoadError Kind Message) W
  time_up = record { elapsed = five_seconds; meanwhile = λ w. w }

module _ {Kind Message W : Type 0} (system : System Kind Message) where
  -- The worker's closure.
  unfoldable pub worker :
      FileProducer
      → InFlightBudget
      → FileLoader Kind Message W
      → Load Kind Message Snapshot × FileLoader Kind Message W
  unfolding produce_with
  worker producer budget l =
      let (out, _, l') = produce_with system.usize_max system.files (some budget) producer l in
      (out, l')

module _ {Kind Message W : Type 0} (will_wake : W → W → Bool) (is_own : W → Bool) (waker : W)
    (system : System Kind Message) where
  -- From the start of the worker to its end, with the wait between.
  unfoldable pub wait_out :
      Schedule
      → FileProducer
      → ProductionWaiter
      → InFlightBudget
      → FileLoader Kind Message W
      → Option (List ℕ)
  unfolding worker wait_for poll_waiter
  wait_out before_wait producer waiter budget l =
      let (out, l') = worker system producer budget l in
      delivered out (
        wait_for will_wake is_own waker five_seconds BlockingPolicy.allow (time_up ∷ []) waiter
          l'.store)
  wait_out (during_wait elapsed) producer waiter budget l =
      let polled = (poll_waiter will_wake waiter waker l.store).1 in
      let out = (worker system producer budget (with_store polled l)).0 in
      let round : Round (List ℕ) (LoadError Kind Message) W = record {
        elapsed = elapsed;
        meanwhile = λ w. (worker system producer budget (with_store w l)).1.store;
      } in
      delivered out (
        wait_for will_wake is_own waker five_seconds BlockingPolicy.allow (round ∷ time_up ∷ [])
          waiter l.store)

  -- The two requests. The entry alone owns the token at the second.
  abbrev pub second_request :
      Schedule
      → FileProducer
      → InFlightBudget
      → Load Kind Message (FileRequest Kind Message) × FileLoader Kind Message W
      → Option (List ℕ)
  second_request schedule producer budget (loaded (FileRequest.waiting waiter), l) =
      wait_out schedule producer waiter budget l
  second_request schedule producer budget _ = none

  abbrev pub first_request :
      Schedule
      → FileKey
      → InFlightBudget
      → Load Kind Message (FileRequest Kind Message) × FileLoader Kind Message W
      → Option (List ℕ)
  first_request schedule key budget (loaded (FileRequest.producer producer), l) =
      second_request schedule producer budget (request (λ _. 1) key false l)
  first_request schedule key budget _ = none

  abbrev pub keyed : Schedule → ℕ → Io Kind Message FileKey → Option (List ℕ)
  keyed schedule source_bytes (fails _) = none
  keyed schedule source_bytes (done key) =
      first_request schedule key (with_limits source_bytes 1)
        (request (λ _. 1) key false (new_loader 1))

  abbrev pub measured : Schedule → PathBuf → Io Kind Message ℕ → Option (List ℕ)
  measured schedule path (fails _) = none
  measured schedule path (done source_bytes) =
      keyed schedule source_bytes
        (new_key system.is_absolute system.current_dir system.drive_relative path raw)

  -- The content that the program has loaded, which it prints the length of; `none` is a panic. Its
  -- store is the first of the process, which has identity 1.
  unfoldable pub fetch : Schedule → PathBuf → Option (List ℕ)
  unfolding wait_out request new_loader with_limits new_key
  fetch schedule path = measured schedule path (system.metadata_length path)

  -- `main`, from its arguments: the content and where it writes it.
  unfoldable pub file_program : Schedule → List PathBuf → Option (List ℕ × Option PathBuf)
  unfolding fetch
  file_program schedule [] = none
  file_program schedule (path ∷ []) = fetched_to none (fetch schedule path)
  file_program schedule (path ∷ output ∷ []) = fetched_to (some output) (fetch schedule path)
  file_program schedule (path ∷ output ∷ more ∷ rest) = none
