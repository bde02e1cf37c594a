-- ===== src/Loader/Examples.antt =====
-- Small concrete loaders, at which the properties of crates/assets/examples/file_loader are applied.
mod Published
mod Waits
use fluxel_bases.Prelude.{
  ℕ, suc, zero, ◌≡◌, ◌≢◌, ◌↔◌, refl, inl, Bool, true, false, none, some, List, [], ◌∷◌, arith,
  length, ◌==◌, get_elem?, set, checked_add, checked_sub,
}
use fluxel_bases.Error.{ok}
use fluxel_bases.Identity.{IdentityToken, AssetHandle, downgrade}
use fluxel_bases.Production.{ProductionWaiter, ProductionOutcome}
use fluxel_bases.Cell.{new_cell, register}
use fluxel_bases.World.{World, Entry, Phase}
use fluxel_bases.Store.{find_entry, put_entry, waiter, complete_at}
use fluxel_bases.Store.Finish.{replaced_total}
use fluxel_bases.Store.Flight.{Reaches, touched_world}
use fluxel_bases.Store.Publish.{IsCommittable}
use fluxel_bases.Store.Valid.{new-IsValid}
use fluxel_bases.Loader.Failure.{LoadError, Io, done, loaded}
use fluxel_bases.Loader.Budget.{InFlightBudget, with_limits, reserve}
use fluxel_bases.Loader.Budget.Leases.{reserves, reserves_slot, increases, drops, lease_run}
use fluxel_bases.Loader.Budget.Limits.{IsHonest, lease_run-IsHonest, reserve_exact}
use fluxel_bases.Loader.Reading.{read_exact_bounded}
use fluxel_bases.Loader.Reading.Exact.{Reads, read_exact, read_exact_bounded-ne-none}
use fluxel_bases.Loader.Key.{
  Component, prefix, root_dir, cur_dir, parent_dir, normal, raw, uppercase, FileKey, PathBuf,
  same_key, transformed,
}
use fluxel_bases.Loader.Metrics.{no_loads}
use fluxel_bases.Loader.Directory.{FileLoader, new_loader, lookup, forget}
use fluxel_bases.Loader.Directory.Lookup.{same_key_iff}
use fluxel_bases.Loader.Producer.{Snapshot, FileProducer}
use fluxel_bases.Loader.Production.{FileSystem, produce_with}
use fluxel_bases.Loader.Production.Release.{produce_with-budget}
use fluxel_bases.Loader.Requests.{
  FileRequest, request, counted, session_run, requests, drops_producer, forgets,
}
use fluxel_bases.Loader.Requests.Balance.{IsBalanced, session_run-IsBalanced}
use fluxel_bases.Loader.Requests.Published.{IsReadable, produce-request}
use fluxel_bases.Loader.Requests.Joined.{joined_loader, request-joins}
use fluxel_bases.Loader.Wait.{allow, Round, waited, wait_for}
use fluxel_bases.Loader.Wait.Ends.{wait_for-ne-none}
use fluxel_bases.Loader.Wait.Wakes.{wait_for-complete_at}

-- A source that gives one byte at a time.
abbrev pub read_one : ℕ → List ℕ → Io ℕ ℕ (List ℕ) × List ℕ
read_one zero s = (done [], s)
read_one (suc n) [] = (done [], [])
read_one (suc n) (b ∷ s) = (done (b ∷ []), s)

abbrev pub whole : List ℕ → List ℕ
whole s = s

pub read_one-Reads : (n : ℕ) (s : List ℕ) → Reads read_one whole n s
read_one-Reads zero s = record {
  bytes = [];
  after = s;
  returns = refl;
  part = refl;
  within = omega arith;
  ends = λ more _. let h : ⊥ = omega arith in absurd h;
}
read_one-Reads (suc n) [] = record {
  bytes = [];
  after = [];
  returns = refl;
  part = refl;
  within = omega arith;
  ends = λ _ _. refl;
}
read_one-Reads (suc n) (b ∷ s) = record {
  bytes = b ∷ [];
  after = s;
  returns = refl;
  part = refl;
  within = omega arith;
  ends = λ _ e. absurd (cons-ne b e);
}
  where
    cons-ne : (b : ℕ) → (b ∷ []) ≢ []
    cons-ne b e = cc

read_exact_bounded-ne-none_example : read_exact_bounded read_one 3 3 (1 ∷ 2 ∷ []) ≢ none
read_exact_bounded-ne-none_example = read_exact_bounded-ne-none read_one 3 3 (1 ∷ 2 ∷ [])

read_exact_example :
    (after : List ℕ) × (read_exact_bounded read_one 3 3 (1 ∷ 2 ∷ 4 ∷ [])
      ≡ some (loaded (1 ∷ 2 ∷ 4 ∷ []), after))
read_exact_example = read_exact read_one whole read_one-Reads 3 (1 ∷ 2 ∷ 4 ∷ [])

abbrev small_budget : InFlightBudget
small_budget = record {
  maximum_bytes = 10;
  maximum_tasks = 2;
  poisoned = false;
  reserved_bytes = 3;
  tasks = 1;
}

reserve_exact_example :
    reserve 8 7 small_budget
    ≡ (some (some (record { bytes = 7 })), record small_budget { tasks = 2; reserved_bytes = 10 })
reserve_exact_example = reserve_exact 8 7 small_budget refl (omega arith) (omega arith)

lease_run-IsHonest_example : IsHonest 10 2 (
    lease_run 8
      (reserves 7 ∷ reserves_slot ∷ increases 0 3 ∷ drops 1 ∷ [])
      (record { budget = with_limits 10 2; live = [] }))
lease_run-IsHonest_example =
    lease_run-IsHonest 8 10 2 (reserves 7 ∷ reserves_slot ∷ increases 0 3 ∷ drops 1 ∷ [])

abbrev pub one_key : FileKey
one_key = record { path = root_dir ∷ normal (b'a' ∷ []) ∷ []; variant = uppercase }

abbrev other_key : FileKey
other_key = record one_key { variant = raw }

same_key_iff_example : (same_key one_key other_key ≡ true) ↔ (one_key ≡ other_key)
same_key_iff_example = same_key_iff one_key other_key

abbrev drive : Component
drive = prefix true (b'C' ∷ b':' ∷ [])

abbrev dotted : PathBuf
dotted = drive ∷ root_dir ∷ normal (b'a' ∷ []) ∷ parent_dir ∷ cur_dir ∷ normal (b'b' ∷ []) ∷ []

-- The file system with one file.
abbrev pub one_file : FileSystem ℕ ℕ
one_file = record {
  Source = List ℕ;
  open_file = λ _. done (b'h' ∷ b'i' ∷ []);
  source_length = λ s. done (length s);
  read = read_one;
}

abbrev one_producer : FileProducer
one_producer = record { key = one_key; permit = none; terminal = false }

produce_with-budget_example :
    (produce_with 8 one_file (some small_budget) one_producer (new_loader {W = ℕ} 7)).1
    ≡ some small_budget
produce_with-budget_example =
    produce_with-budget 8 one_file small_budget one_producer (new_loader 7) refl

session_run-IsBalanced_example : IsBalanced {Kind = ℕ} {Message = ℕ} {W = ℕ} (
    session_run
      (requests (λ _. 1) one_key false ∷ drops_producer 0 ∷ forgets (λ _. 0) one_key ∷ [])
      (record { loader = new_loader 7; live = [] }))
session_run-IsBalanced_example =
    session_run-IsBalanced ℕ 7
      (requests (λ _. 1) one_key false ∷ drops_producer 0 ∷ forgets (λ _. 0) one_key ∷ [])
