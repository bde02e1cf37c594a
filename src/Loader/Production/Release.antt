-- ===== src/Loader/Production/Release.antt =====
-- A production ends its producer once, and gives the budget back
-- (crates/assets/examples/file_loader/mod.rs, lines 346 to 411).
use fluxel_bases.Prelude.{
  ℕ, ◌≡◌, refl, ap, ◌∙◌, Bool, true, false, Option, none, some, List, arith, checked_add,
}
use fluxel_bases.Loader.Failure.{Io, done, fails, Load, loaded, refused, panics}
use fluxel_bases.Loader.Budget.{InFlightBudget, Reservation, increase, reserve_slot}
use fluxel_bases.Loader.Key.{FileKey}
use fluxel_bases.Loader.Metrics.{LoadStats}
use fluxel_bases.Loader.Directory.{FileLoader}
use fluxel_bases.Loader.Producer.{FileProducer}
use fluxel_bases.Loader.Producer.Balance.{
  HasEnded, fail_producer-HasEnded, publish-HasEnded, drop_producer-HasEnded,
}
use fluxel_bases.Loader.Production.{
  FileSystem, Lease, increase_lease, drop_lease, prepare, read_leased, finish, count_rejection,
  with_rejection, produce_leased, slot_lease, produce_with,
}

-- A rejection is counted apart.
rejection-HasEnded :
    (rejected : Bool) (m n : LoadStats) → HasEnded (count_rejection rejected m) n → HasEnded m n
rejection-HasEnded true m n h = record {
  in_flight = h.in_flight;
  same_producers = h.same_producers;
  ended = h.ended;
}
rejection-HasEnded false m n h = h

module _ {Kind Message W : Type 0} where
  finish-HasEnded :
      (p : FileProducer) (out : Load Kind Message (List ℕ)) (dropped : Option (Unit {0}))
      (l : FileLoader Kind Message W)
      → p.terminal ≡ false
      → HasEnded l.metrics (finish p out dropped l).1.metrics
  finish-HasEnded p (loaded bytes) dropped l e = publish-HasEnded p bytes dropped l e
  finish-HasEnded p (refused error) dropped l e = fail_producer-HasEnded p error l e
  finish-HasEnded p panics dropped l e = drop_producer-HasEnded p l e

module _ {Kind Message W : Type 0} (usize_max : ℕ) (fs : FileSystem Kind Message) where
  produce_leased-HasEnded :
      (p : FileProducer) (lease : Lease) (l : FileLoader Kind Message W)
      → p.terminal ≡ false
      → HasEnded l.metrics (produce_leased usize_max fs p lease l).2.metrics
  unfolding produce_leased
  produce_leased-HasEnded p lease l e =
      let prepared = prepare usize_max fs p.key lease in
      rejection-HasEnded prepared.is_rejected l.metrics _ (
        finish-HasEnded p prepared.outcome (drop_lease prepared.lease).0
          (with_rejection prepared.is_rejected l) e)

  pub produce_with-HasEnded :
      (budget : Option InFlightBudget) (p : FileProducer) (l : FileLoader Kind Message W)
      → p.terminal ≡ false
      → HasEnded l.metrics (produce_with usize_max fs budget p l).2.metrics
  unfolding produce_with
  produce_with-HasEnded none p l e = produce_leased-HasEnded p none l e
  produce_with-HasEnded (some b) p l e =
      leased (reserve_slot usize_max b).0 (reserve_slot usize_max b).1
    where
      leased :
          (slot : Option Reservation) (b' : InFlightBudget)
          → HasEnded l.metrics (slot_lease usize_max fs p slot b' l).2.metrics
      leased none b' =
          rejection-HasEnded true l.metrics _ (fail_producer-HasEnded p _ (with_rejection true l) e)
      leased (some r) b' = produce_leased-HasEnded p (some (r, b')) l e

-- The end of the lease gives this budget back.
abbrev Returns : InFlightBudget → Lease → Type 0
Returns b lease = drop_lease lease ≡ (some tt, some b)

module _ (usize_max : ℕ) where
  slot-Returns :
      (b b' : InFlightBudget) (r : Reservation)
      → b.poisoned ≡ false
      → reserve_slot usize_max b ≡ (some r, b')
      → Returns b (some (r, b'))
  unfolding reserve_slot drop_lease checked_add
  slot-Returns b b' r sound e = ground arith

  increase-Returns :
      (b b' : InFlightBudget) (r : Reservation) (bytes : ℕ)
      → b.poisoned ≡ false
      → reserve_slot usize_max b ≡ (some r, b')
      → Returns b (increase_lease bytes (some (r, b'))).1
  unfolding reserve_slot increase drop_lease checked_add
  increase-Returns b b' r bytes sound e = ground arith

  no_slot : (b b' : InFlightBudget) → reserve_slot usize_max b ≡ (none, b') → b' ≡ b
  unfolding reserve_slot
  no_slot b b' e = ground arith

module _ {Kind Message : Type 0} (usize_max : ℕ) (fs : FileSystem Kind Message) where
  read_leased-lease :
      (key : FileKey) (source : fs.Source) (source_len : ℕ) (out : Option Bool) (lease : Lease)
      → (read_leased usize_max fs key source source_len (out, lease)).lease ≡ lease
  read_leased-lease key source source_len none lease = refl
  read_leased-lease key source source_len (some true) lease = refl
  read_leased-lease key source source_len (some false) lease = refl

  prepare-Returns :
      (b : InFlightBudget) (key : FileKey) (lease : Lease)
      → Returns b lease
      → ((bytes : ℕ) → Returns b (increase_lease bytes lease).1)
      → Returns b (prepare usize_max fs key lease).lease
  unfolding prepare
  prepare-Returns b key lease h more = opened (fs.open_file key.path) refl
    where
      measured :
          (source : fs.Source)
          → fs.open_file key.path ≡ done source
          → (o : Io Kind Message ℕ) → fs.source_length source ≡ o
          → Returns b (prepare usize_max fs key lease).lease
      measured source e (fails _) f = rw (e, f, prepare) h
      measured source e (done n) f =
          rw (e, f, prepare)
            (ap drop_lease (
                read_leased-lease key source n (increase_lease n lease).0
                  (increase_lease n lease).1)
              ∙ more n)

      opened :
          (o : Io Kind Message fs.Source)
          → fs.open_file key.path ≡ o
          → Returns b (prepare usize_max fs key lease).lease
      opened (fails _) e = rw (e, prepare) h
      opened (done source) e = measured source e (fs.source_length source) refl

module _ {Kind Message W : Type 0} (usize_max : ℕ) (fs : FileSystem Kind Message) where
  -- Whatever becomes of a production, a budget that is not poisoned comes back as it was: the slot and
  -- the bytes that were reserved are released.
  pub produce_with-budget :
      (b : InFlightBudget) (p : FileProducer) (l : FileLoader Kind Message W)
      → b.poisoned ≡ false
      → (produce_with usize_max fs (some b) p l).1 ≡ some b
  unfolding produce_with produce_leased
  produce_with-budget b p l sound =
      leased (reserve_slot usize_max b).0 (reserve_slot usize_max b).1 refl
    where
      leased :
          (slot : Option Reservation) (b' : InFlightBudget)
          → reserve_slot usize_max b ≡ (slot, b')
          → (slot_lease usize_max fs p slot b' l).1 ≡ some b
      leased none b' e = ap some (no_slot usize_max b b' e)
      leased (some r) b' e =
          ap (λ x. x.1)
            (prepare-Returns usize_max fs b p.key (some (r, b'))
              (slot-Returns usize_max b b' r sound e)
              (λ bytes. increase-Returns usize_max b b' r bytes sound e))
