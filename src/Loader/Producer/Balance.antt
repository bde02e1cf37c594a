-- ===== src/Loader/Producer/Balance.antt =====
-- Every way to end a producer is counted once (crates/assets/examples/file_loader/mod.rs, lines 413 to
-- 455).
use fluxel_bases.Prelude.{ℕ, ◌+◌, ◌≡◌, refl, false, Option, none, some, List, arith, length}
use fluxel_bases.Error.{Result, ok, err, panic}
use fluxel_bases.State.{ProductionFailure}
use fluxel_bases.Production.{ProducerPermit}
use fluxel_bases.Store.Permit.{commit_permit, fail_permit}
use fluxel_bases.Loader.Failure.{LoadError}
use fluxel_bases.Loader.Metrics.{LoadStats, wrap64, dec}
use fluxel_bases.Loader.Directory.{FileLoader, FileStore}
use fluxel_bases.Loader.Producer.{
  Snapshot, FileProducer, Ending, count_ending, settle_metrics, drop_taken, drop_producer,
  failed_with, fail_taken, fail_producer, committed_with, publish_taken, publish,
}

abbrev pub ends : LoadStats → ℕ
ends m = m.producer_successes + m.producer_failures + m.producer_cancellations

-- One producer fewer is in flight, and one more has ended.
pub record HasEnded (m n : LoadStats) : Type 0 where
  pub in_flight : n.producers_in_flight ≡ dec m.producers_in_flight
  pub same_producers : n.producers ≡ m.producers
  pub ended : wrap64 (ends n) ≡ wrap64 (ends m + 1)

count_ending-HasEnded :
    (ending : Ending) (m : LoadStats) → HasEnded m (count_ending ending (settle_metrics false m))
unfolding settle_metrics
count_ending-HasEnded Ending.succeeded m = record {
  in_flight = refl;
  same_producers = refl;
  ended = omega arith;
}
count_ending-HasEnded Ending.failed m = record {
  in_flight = refl;
  same_producers = refl;
  ended = omega arith;
}
count_ending-HasEnded Ending.cancelled m = record {
  in_flight = refl;
  same_producers = refl;
  ended = omega arith;
}

module _ {Kind Message W : Type 0} where
  pub drop_producer-HasEnded :
      (p : FileProducer) (l : FileLoader Kind Message W)
      → p.terminal ≡ false
      → HasEnded l.metrics (drop_producer p l).metrics
  unfolding drop_producer
  drop_producer-HasEnded p l e = dropped p.permit
    where
      dropped :
          (permit : Option ProducerPermit)
          → HasEnded l.metrics
              (drop_taken permit (drop_producer (record p { permit = none }) l)).metrics
      dropped none = rw (e, drop_producer) (count_ending-HasEnded Ending.cancelled l.metrics)
      dropped (some permit) =
          rw (e, drop_producer) (count_ending-HasEnded Ending.cancelled l.metrics)

  failed_with-HasEnded :
      (p : FileProducer) (error : LoadError Kind Message)
      (r : Result (ProductionFailure (List ℕ) (LoadError Kind Message)))
      (w : FileStore Kind Message W) (l : FileLoader Kind Message W)
      → p.terminal ≡ false
      → HasEnded l.metrics (failed_with p error (r, w) l).1.metrics
  failed_with-HasEnded p error (ok _) w l e = rw e (count_ending-HasEnded Ending.failed l.metrics)
  failed_with-HasEnded p error (err _) w l e =
      rw e (count_ending-HasEnded Ending.cancelled l.metrics)
  failed_with-HasEnded p error panic w l e =
      drop_producer-HasEnded (record p { permit = none }) (record l { store = w }) e

  pub fail_producer-HasEnded :
      (p : FileProducer) (error : LoadError Kind Message) (l : FileLoader Kind Message W)
      → p.terminal ≡ false
      → HasEnded l.metrics (fail_producer p error l).1.metrics
  unfolding fail_producer
  fail_producer-HasEnded p error l e = taken p.permit
    where
      taken :
          (permit : Option ProducerPermit)
          → HasEnded l.metrics (fail_taken p error permit l).1.metrics
      taken none = drop_producer-HasEnded p l e
      taken (some permit) =
          let r = fail_permit permit error l.store in failed_with-HasEnded p error r.0 r.1 l e

  committed_with-HasEnded :
      (p : FileProducer) (dropped : Option (Unit {0})) (r : Result Snapshot)
      (w : FileStore Kind Message W) (l : FileLoader Kind Message W)
      → p.terminal ≡ false
      → HasEnded l.metrics (committed_with p dropped (r, w) l).1.metrics
  committed_with-HasEnded p none r w l e =
      drop_producer-HasEnded (record p { permit = none }) (record l { store = w }) e
  committed_with-HasEnded p (some _) (ok _) w l e =
      rw e (count_ending-HasEnded Ending.succeeded l.metrics)
  committed_with-HasEnded p (some _) (err _) w l e =
      rw e (count_ending-HasEnded Ending.cancelled l.metrics)
  committed_with-HasEnded p (some _) panic w l e =
      drop_producer-HasEnded (record p { permit = none }) (record l { store = w }) e

  pub publish-HasEnded :
      (p : FileProducer) (bytes : List ℕ) (dropped : Option (Unit {0}))
      (l : FileLoader Kind Message W)
      → p.terminal ≡ false
      → HasEnded l.metrics (publish p bytes dropped l).1.metrics
  unfolding publish
  publish-HasEnded p bytes dropped l e = taken p.permit
    where
      taken :
          (permit : Option ProducerPermit)
          → HasEnded l.metrics (publish_taken p bytes dropped permit l).1.metrics
      taken none = drop_producer-HasEnded p l e
      taken (some permit) =
          let r = commit_permit permit bytes (length bytes) l.store in
          committed_with-HasEnded p dropped r.0 r.1 l e
