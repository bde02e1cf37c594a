-- ===== src/Loader/Metrics.antt =====
-- crates/assets/examples/file_loader/mod.rs, lines 159 to 202: the counters, which are `AtomicU64`s and
-- wrap around.
use fluxel_bases.Prelude.{ℕ, ◌+◌, ◌%◌, u64_max}

abbrev pub wrap64 : ℕ → ℕ
wrap64 n = n % 0x1_0000_0000_0000_0000

pub record LoadStats : Type 0 where
  pub requests : ℕ
  pub ready_hits : ℕ
  pub producers : ℕ
  pub joined_waiters : ℕ
  pub failed_requests : ℕ
  pub producer_successes : ℕ
  pub producer_failures : ℕ
  pub producer_cancellations : ℕ
  pub budget_rejections : ℕ
  pub producers_in_flight : ℕ

abbrev pub no_loads : LoadStats
no_loads = record {
  requests = 0;
  ready_hits = 0;
  producers = 0;
  joined_waiters = 0;
  failed_requests = 0;
  producer_successes = 0;
  producer_failures = 0;
  producer_cancellations = 0;
  budget_rejections = 0;
  producers_in_flight = 0;
}

-- `fetch_add(1)` and `fetch_sub(1)`
abbrev pub inc : ℕ → ℕ
inc n = wrap64 (n + 1)

abbrev pub dec : ℕ → ℕ
dec n = wrap64 (n + u64_max)
