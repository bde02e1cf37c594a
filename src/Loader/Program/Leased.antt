-- ===== src/Loader/Program/Leased.antt =====
-- A production under a budget of its own size (crates/assets/examples/07_file_loader.rs, lines 26 to 28,
-- and file_loader/mod.rs, lines 350 to 411).
use fluxel_bases.Prelude.{
  ℕ, ◌<◌, ◌≤◌, ◌≡◌, ap, ◌∙◌, true, false, some, List, arith, length, u64_max, checked_add,
  checked_sub,
}
use fluxel_bases.Loader.Failure.{Load, loaded}
use fluxel_bases.Loader.Key.{FileKey, transformed}
use fluxel_bases.Loader.Budget.{
  InFlightBudget, with_limits, reserve_slot, increase, drop_reservation,
}
use fluxel_bases.Loader.Directory.{FileLoader}
use fluxel_bases.Loader.Producer.{FileProducer, Snapshot, publish}
use fluxel_bases.Loader.Production.{
  FileSystem, Lease, prepare, increase_lease, read_leased, drop_lease, produce_with, produce_leased,
  slot_lease, or_panic, finish,
}
use fluxel_bases.Loader.Requests.Published.{IsReadable, read_source-content, leased}

-- A budget of one production of that many bytes.
abbrev pub lone_budget : ℕ → InFlightBudget
lone_budget n = with_limits n 1

abbrev full_lease : ℕ → Lease
full_lease n = some (
  record { bytes = n },
  record { maximum_bytes = n; maximum_tasks = 1; poisoned = false; reserved_bytes = n; tasks = 1 },
)

abbrev empty_lease : ℕ → Lease
empty_lease n = some (
  record { bytes = 0 },
  record { maximum_bytes = n; maximum_tasks = 1; poisoned = false; reserved_bytes = 0; tasks = 1 },
)

increase_lease-fits :
    (n : ℕ) → n ≤ u64_max → increase_lease n (empty_lease n) ≡ (some true, full_lease n)
unfolding increase checked_add
increase_lease-fits n fits = ground arith

drop_lease-full : (n : ℕ) → drop_lease (full_lease n) ≡ (some tt, some (lone_budget n))
unfolding drop_lease drop_reservation checked_sub with_limits
drop_lease-full n = ground arith

reserve_slot-first :
    (usize_max n : ℕ)
    → 0 < usize_max
    → reserve_slot usize_max (lone_budget n) ≡ (
      some (record { bytes = 0 }),
      record {
        maximum_bytes = n;
        maximum_tasks = 1;
        poisoned = false;
        reserved_bytes = 0;
        tasks = 1;
      },
    )
unfolding reserve_slot checked_add with_limits
reserve_slot-first usize_max n room = ground arith

module _ {Kind Message : Type 0} (usize_max : ℕ) (fs : FileSystem Kind Message) where
  prepare-leased :
      (key : FileKey) (content : fs.Source → List ℕ) (source : fs.Source)
      → IsReadable usize_max fs key content source
      → length (content source) ≤ u64_max
      → prepare usize_max fs key (empty_lease (length (content source))) ≡ record {
        outcome = loaded (transformed key.variant (content source));
        lease = full_lease (length (content source));
        is_rejected = false;
      }
  unfolding prepare
  prepare-leased key content source f fits =
      rw (f.opens, f.measures, prepare)
        (ap (read_leased usize_max fs key source (length (content source)))
            (increase_lease-fits (length (content source)) fits)
          ∙ ap
              (λ out. record {
                outcome = out;
                lease = full_lease (length (content source));
                is_rejected = false;
              })
              (read_source-content usize_max fs key content source f))

module _ {Kind Message W : Type 0} where
  pub produce-leased :
      (usize_max : ℕ) (fs : FileSystem Kind Message) (content : fs.Source → List ℕ)
      (source : fs.Source) (p : FileProducer) (l : FileLoader Kind Message W)
      {made : Load Kind Message Snapshot × FileLoader Kind Message W}
      → IsReadable usize_max fs p.key content source
      → length (content source) ≤ u64_max
      → 0 < usize_max
      → publish p (transformed p.key.variant (content source)) (some tt) l ≡ made
      → produce_with usize_max fs (some (lone_budget (length (content source)))) p l
        ≡ (made.0, some (lone_budget (length (content source))), made.1)
  unfolding produce_with produce_leased
  produce-leased usize_max fs content source p l readable fits room e =
      let n = length (content source) in
      let bytes = transformed p.key.variant (content source) in
      ap (λ x. slot_lease usize_max fs p x.0 x.1 l) (reserve_slot-first usize_max n room)
      ∙ ap (leased p l) (prepare-leased usize_max fs p.key content source readable fits)
      ∙ ap
          (λ d. (
            or_panic d.0 (finish p (loaded bytes) d.0 l).0,
            d.1,
            (finish p (loaded bytes) d.0 l).1,
          ))
          (drop_lease-full n)
      ∙ ap (λ x. (x.0, some (lone_budget n), x.1)) e
