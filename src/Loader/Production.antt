-- ===== src/Loader/Production.antt =====
-- crates/assets/examples/file_loader/mod.rs, lines 346 to 411: the production of a file. It works on
-- the loader's store and counters, and on the budget where one is given.
pub mod Release
pub mod Refuses
use fluxel_bases.Prelude.{
  ℕ, Bool, true, false, Option, none, some, List, [], ◌∷◌, try_from, if◌then◌else◌,
}
use fluxel_bases.Loader.Failure.{
  IoError, LoadError, budget_rejected, source_too_large, Io, done, fails, Load, loaded, refused,
  panics, io,
}
use fluxel_bases.Loader.Budget.{
  InFlightBudget, Reservation, increase, drop_reservation, reserve_slot,
}
use fluxel_bases.Loader.Reading.{read_exact_bounded}
use fluxel_bases.Loader.Key.{PathBuf, FileKey, transformed}
use fluxel_bases.Loader.Metrics.{LoadStats, inc}
use fluxel_bases.Loader.Directory.{FileLoader}
use fluxel_bases.Loader.Producer.{Snapshot, FileProducer, fail_producer, publish, drop_producer}

-- `std::fs::File`: what is opened, its length by its metadata, and its reads.
pub record FileSystem (Kind Message : Type 0) : Type 1 where
  pub Source : Type 0
  pub open_file : PathBuf → Io Kind Message Source
  pub source_length : Source → Io Kind Message ℕ
  pub read : ℕ → Source → Io Kind Message (List ℕ) × Source

-- A lease is a reservation of the budget that is given.
abbrev pub Lease : Type 0
Lease = Option (Reservation × InFlightBudget)

-- `lease.increase(source_len)`, if there is one: whether to go on, and the lease.
abbrev pub increase_lease : ℕ → Lease → Option Bool × Lease
increase_lease bytes none = (some true, none)
increase_lease bytes (some (r, b)) =
    let (out, b') = increase bytes r b in
    elim out [ none ↦ (none, some (r, b')) | some (fits, r') ↦ (some fits, some (r', b')) ]

-- The end of the lease, which may panic, and the budget after it.
unfoldable pub drop_lease : Lease → Option (Unit {0}) × Option InFlightBudget
unfolding drop_reservation
drop_lease none = (some tt, none)
drop_lease (some (r, b)) = let (out, b') = drop_reservation r b in (out, some b')

module _ {Kind Message A : Type 0} where
  abbrev pub or_panic : Option (Unit {0}) → Load Kind Message A → Load Kind Message A
  or_panic none out = panics
  or_panic (some _) out = out

-- What the steps before the commit leave: the bytes to commit or the reason to fail, the lease, and
-- whether the budget refused.
pub record Prepared (Kind Message : Type 0) : Type 0 where
  pub outcome : Load Kind Message (List ℕ)
  pub lease : Lease
  pub is_rejected : Bool

abbrev pub count_rejection : Bool → LoadStats → LoadStats
count_rejection true m = record m { budget_rejections = inc m.budget_rejections }
count_rejection false m = m

module _ {Kind Message : Type 0} (usize_max : ℕ) (fs : FileSystem Kind Message) where
  -- The result of `read_exact_bounded`, which never is `none`, transformed.
  abbrev pub transformed_read :
      FileKey → Option (Load Kind Message (List ℕ) × fs.Source) → Load Kind Message (List ℕ)
  transformed_read key none = panics
  transformed_read key (some (loaded bytes, _)) = loaded (transformed key.variant bytes)
  transformed_read key (some (refused e, _)) = refused e
  transformed_read key (some (panics, _)) = panics

  unfoldable pub read_source : FileKey → fs.Source → ℕ → Load Kind Message (List ℕ)
  unfolding try_from read_exact_bounded transformed
  read_source key source source_len = elim (try_from usize_max source_len) [
    | none ↦ refused source_too_large
    | some capacity ↦ transformed_read key (read_exact_bounded fs.read source_len capacity source)
  ]

  abbrev pub read_leased : FileKey → fs.Source → ℕ → Option Bool × Lease → Prepared Kind Message
  read_leased key source source_len (none, lease) = record {
    outcome = panics;
    lease = lease;
    is_rejected = false;
  }
  read_leased key source source_len (some false, lease) = record {
    outcome = refused (budget_rejected source_len);
    lease = lease;
    is_rejected = true;
  }
  read_leased key source source_len (some true, lease) = record {
    outcome = read_source key source source_len;
    lease = lease;
    is_rejected = false;
  }

  -- `produce_with`, from the opening of the file to its transformation.
  unfoldable pub prepare : FileKey → Lease → Prepared Kind Message
  unfolding io increase read_source
  prepare key lease = elim (fs.open_file key.path) [
    | fails e ↦ record { outcome = refused (io e); lease = lease; is_rejected = false }
    | done source ↦ elim (fs.source_length source) [
      | fails e ↦ record { outcome = refused (io e); lease = lease; is_rejected = false }
      | done source_len ↦ read_leased key source source_len (increase_lease source_len lease)
    ]
  ]

module _ {Kind Message W : Type 0} where
  abbrev pub finish :
      FileProducer
      → Load Kind Message (List ℕ)
      → Option (Unit {0})
      → FileLoader Kind Message W
      → Load Kind Message Snapshot × FileLoader Kind Message W
  finish p (loaded bytes) dropped l = publish p bytes dropped l
  finish p (refused e) dropped l = fail_producer p e l
  finish p panics dropped l = (panics, drop_producer p l)

  abbrev pub with_rejection : Bool → FileLoader Kind Message W → FileLoader Kind Message W
  with_rejection rejected l = record l { metrics = count_rejection rejected l.metrics }

module _ {Kind Message W : Type 0} (usize_max : ℕ) (fs : FileSystem Kind Message) where
  -- `produce_with`, past the reservation of its slot.
  unfoldable pub produce_leased :
      FileProducer
      → Lease
      → FileLoader Kind Message W
      → Load Kind Message Snapshot × Option InFlightBudget × FileLoader Kind Message W
  unfolding prepare publish fail_producer drop_producer drop_lease
  produce_leased p lease l =
      let prepared = prepare usize_max fs p.key lease in
      let (dropped, budget) = drop_lease prepared.lease in
      let (out, l') = finish p prepared.outcome dropped (with_rejection prepared.is_rejected l) in
      (or_panic dropped out, budget, l')

  abbrev pub slot_lease :
      FileProducer
      → Option Reservation
      → InFlightBudget
      → FileLoader Kind Message W
      → Load Kind Message Snapshot × Option InFlightBudget × FileLoader Kind Message W
  slot_lease p none b l =
      let (out, l') = fail_producer p (budget_rejected 0) (with_rejection true l) in
      (out, some b, l')
  slot_lease p (some r) b l = produce_leased p (some (r, b)) l

  -- The budget comes back beside the loader.
  unfoldable pub produce_with :
      Option InFlightBudget
      → FileProducer
      → FileLoader Kind Message W
      → Load Kind Message Snapshot × Option InFlightBudget × FileLoader Kind Message W
  unfolding reserve_slot produce_leased
  produce_with none p l = produce_leased p none l
  produce_with (some b) p l = let (slot, b') = reserve_slot usize_max b in slot_lease p slot b' l

  abbrev pub produce :
      FileProducer
      → FileLoader Kind Message W
      → Load Kind Message Snapshot × Option InFlightBudget × FileLoader Kind Message W
  produce p l = produce_with none p l
