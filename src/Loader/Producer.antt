-- ===== src/Loader/Producer.antt =====
-- crates/assets/examples/file_loader/mod.rs, lines 327 to 344 and 387 to 455: the producer of a file and
-- its ends. `none` in the place of a permit is that it was taken.
pub mod Balance
use mathlib.Core.Option
use fluxel_bases.Prelude.{
  ℕ, Bool, true, false, Option, none, some, List, [], ◌∷◌, try_from, length, if◌then◌else◌,
}
use fluxel_bases.Error.{Result, ok, err, panic}
use fluxel_bases.Identity.{AssetId}
use fluxel_bases.State.{AttemptGeneration, AssetSnapshot, ProductionFailure}
use fluxel_bases.Production.{ProducerPermit}
use fluxel_bases.Store.Permit.{commit_permit, fail_permit, drop_permit}
use fluxel_bases.Loader.Failure.{
  IoError, LoadError, budget_rejected, source_too_large, core, Io, done, fails, Load, loaded,
  refused, panics, io,
}
use fluxel_bases.Loader.Budget.{
  InFlightBudget, Reservation, increase, drop_reservation, reserve_slot,
}
use fluxel_bases.Loader.Reading.{read_exact_bounded}
use fluxel_bases.Loader.Key.{PathBuf, FileKey, transformed}
use fluxel_bases.Loader.Metrics.{LoadStats, inc, dec}
use fluxel_bases.Loader.Directory.{FileLoader, FileStore}

abbrev pub Snapshot : Type 0
Snapshot = AssetSnapshot (List ℕ)

pub record FileProducer : Type 0 where
  pub key : FileKey
  pub permit : Option ProducerPermit
  pub terminal : Bool

-- `FileProducer::id` and `attempt`; `none` is the panic of their `expect`.
abbrev pub producer_id : FileProducer → Option AssetId
producer_id p = Option.map (λ (permit : ProducerPermit). permit.id) p.permit

abbrev pub producer_attempt : FileProducer → Option AttemptGeneration
producer_attempt p = Option.map (λ (permit : ProducerPermit). permit.attempt) p.permit

-- The counter of one way to end.
pub data Ending : Type 0 where
  succeeded failed cancelled : Ending

abbrev pub count_ending : Ending → LoadStats → LoadStats
count_ending Ending.succeeded m = record m { producer_successes = inc m.producer_successes }
count_ending Ending.failed m = record m { producer_failures = inc m.producer_failures }
count_ending Ending.cancelled m = record m { producer_cancellations = inc m.producer_cancellations }

-- `FileProducer::settle`, on the counters; the flag is then set.
unfoldable pub settle_metrics : Bool → LoadStats → LoadStats
settle_metrics terminal m =
    if terminal then m else record m { producers_in_flight = dec m.producers_in_flight }

module _ {Kind Message W : Type 0} where
  abbrev pub end_with : Bool → Ending → FileLoader Kind Message W → FileLoader Kind Message W
  end_with terminal ending l = record l {
    metrics = count_ending ending (settle_metrics terminal l.metrics);
  }

  abbrev pub with_store :
      FileStore Kind Message W → FileLoader Kind Message W → FileLoader Kind Message W
  with_store w l = record l { store = w }

  abbrev pub drop_taken :
      Option ProducerPermit → FileLoader Kind Message W → FileLoader Kind Message W
  drop_taken none l = l
  drop_taken (some permit) l = with_store (drop_permit permit l.store) l

  -- `Drop for FileProducer`, and then that of its permit.
  unfoldable pub drop_producer :
      FileProducer → FileLoader Kind Message W → FileLoader Kind Message W
  unfolding settle_metrics drop_permit
  drop_producer p l =
      drop_taken p.permit (if p.terminal then l else end_with p.terminal Ending.cancelled l)

  abbrev pub failed_with :
      FileProducer
      → LoadError Kind Message
      → Result (ProductionFailure (List ℕ) (LoadError Kind Message)) × FileStore Kind Message W
      → FileLoader Kind Message W
      → Load Kind Message Snapshot × FileLoader Kind Message W
  failed_with p error (ok _, w) l =
      (refused error, end_with p.terminal Ending.failed (with_store w l))
  failed_with p error (err e, w) l =
      (refused (core e), end_with p.terminal Ending.cancelled (with_store w l))
  failed_with p error (panic, w) l =
      (panics, drop_producer (record p { permit = none }) (with_store w l))

  -- `FileProducer::fail`, after `permit.take()`.
  abbrev pub fail_taken :
      FileProducer
      → LoadError Kind Message
      → Option ProducerPermit
      → FileLoader Kind Message W
      → Load Kind Message Snapshot × FileLoader Kind Message W
  fail_taken p error none l = (panics, drop_producer p l)
  fail_taken p error (some permit) l = failed_with p error (fail_permit permit error l.store) l

  unfoldable pub fail_producer :
      FileProducer
      → LoadError Kind Message
      → FileLoader Kind Message W
      → Load Kind Message Snapshot × FileLoader Kind Message W
  unfolding settle_metrics drop_producer fail_permit
  fail_producer p error l = fail_taken p error p.permit l

  -- `dropped` is the end of the lease, which stands between the commit and the counters.
  abbrev pub committed_with :
      FileProducer
      → Option (Unit {0})
      → Result Snapshot × FileStore Kind Message W
      → FileLoader Kind Message W
      → Load Kind Message Snapshot × FileLoader Kind Message W
  committed_with p none (_, w) l =
      (panics, drop_producer (record p { permit = none }) (with_store w l))
  committed_with p (some _) (ok snapshot, w) l =
      (loaded snapshot, end_with p.terminal Ending.succeeded (with_store w l))
  committed_with p (some _) (err e, w) l =
      (refused (core e), end_with p.terminal Ending.cancelled (with_store w l))
  committed_with p (some _) (panic, w) l =
      (panics, drop_producer (record p { permit = none }) (with_store w l))

  abbrev pub publish_taken :
      FileProducer
      → List ℕ
      → Option (Unit {0})
      → Option ProducerPermit
      → FileLoader Kind Message W
      → Load Kind Message Snapshot × FileLoader Kind Message W
  publish_taken p bytes dropped none l = (panics, drop_producer p l)
  publish_taken p bytes dropped (some permit) l =
      committed_with p dropped (commit_permit permit bytes (length bytes) l.store) l

  -- The end of `produce_with`, from `let permit`.
  unfoldable pub publish :
      FileProducer
      → List ℕ
      → Option (Unit {0})
      → FileLoader Kind Message W
      → Load Kind Message Snapshot × FileLoader Kind Message W
  unfolding settle_metrics drop_producer commit_permit
  publish p bytes dropped l = publish_taken p bytes dropped p.permit l
