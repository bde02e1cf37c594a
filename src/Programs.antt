-- ===== src/Programs.antt =====
-- The example programs of crates/assets/examples, as clients of a store. A failed `expect`, `assert` or
-- `unreachable` is a panic of the program; what unwinding then drops is not modelled. The counts of the
-- tokens' owners at a call are the owners that the program then has.
mod Runs
use Prim.Native.String.{String}
use text.Mathlib.Text.{◌==◌ as same_text}
use fluxel_bases.Prelude.{
  ℕ, zero, suc, Bool, true, false, not, ◌&&◌, Option, none, some, List, [], ◌∷◌, length, ltb, leb,
  ◌==◌,
}
use fluxel_bases.Error.{Result, ok, err, panic}
use fluxel_bases.Exec.{Exec, pure, lift, modify, ◌>>=◌, ◌>>◌}
use fluxel_bases.Identity.{AssetHandle, AssetWeak, handle_id, same_id, downgrade}
use fluxel_bases.State.{AssetSnapshot, AssetObservation}
use fluxel_bases.Production.{Acquire, Production, ProducerPermit}
use fluxel_bases.World.{World}
use fluxel_bases.Store.Begin.{create, acquire, retry, request_replacement, observe, upgrade}
use fluxel_bases.Store.Remove.{remove}
use fluxel_bases.Store.Collect.{collect}
use fluxel_bases.Store.Permit.{commit_permit, fail_permit, drop_waiter, drop_store}

abbrev pub expected : {A : Type 0} → Result A → Result A
expected (err e) = panic
expected r = r

abbrev pub is_err : {A : Type 0} → Result A → Bool
is_err (err _) = true
is_err _ = false

module _ {S A : Type 0} where
  unfoldable pub expect : Exec S A → Exec S A
  expect m s = let (r, s') = m s in (expected r, s')

  -- The result itself, which the program looks at or forgets; a panic goes on.
  unfoldable pub try_call : Exec S A → Exec S (Result A)
  try_call m s = let (r, s') = m s in elim r [ panic ↦ (panic, s') | other ↦ (ok other, s') ]

module _ {S : Type 0} where
  unfoldable pub assert : Bool → Exec S (Unit {0})
  assert true s = (ok tt, s)
  assert false s = (panic, s)

module _ {V E : Type 0} where
  -- The arms of the programs' `match`es; the others are `unreachable!`.
  abbrev pub producer_of : Acquire V E → Result ProducerPermit
  producer_of (Acquire.producer permit) = ok permit
  producer_of _ = panic

  abbrev pub snapshot_of : Acquire V E → Result (AssetSnapshot V)
  snapshot_of (Acquire.ready snapshot) = ok snapshot
  snapshot_of _ = panic

abbrev pub replacement_of : Production → Result ProducerPermit
replacement_of (Production.producer permit) = ok permit
replacement_of _ = panic

module _ {V E W : Type 0} where
  -- `assert!(matches!(.., Ok(Acquire::Waiter(_))))`, and the drop of that waiter.
  abbrev pub joined_only : Result (Acquire V E) → Exec (World V E W) (Unit {0})
  joined_only (ok (Acquire.waiter p)) w = (ok tt, drop_waiter p w)
  joined_only _ w = (panic, w)

module _ {V E : Type 0} where
  abbrev pub matches_ready : Result (Acquire V E) → Bool
  matches_ready (ok (Acquire.ready _)) = true
  matches_ready _ = false

  abbrev pub matches_failed : Result (Acquire V E) → Bool
  matches_failed (ok (Acquire.failed _)) = true
  matches_failed _ = false

  abbrev pub matches_missing : Result (AssetObservation V E) → Bool
  matches_missing (ok (AssetObservation.missing _)) = true
  matches_missing _ = false

abbrev pub some_of : {A : Type 0} → Option A → Result A
some_of none = panic
some_of (some a) = ok a

abbrev pub is_present : {A : Type 0} → Option A → Bool
is_present none = false
is_present (some _) = true

-- `vec![value; length]`
abbrev pub repeated : ℕ → ℕ → List ℕ
repeated value zero = []
repeated value (suc n) = value ∷ repeated value n

-- A program on a store of such values, whose errors are texts.
abbrev pub Program : Type 0 → Type 0 → Type 0
Program V W = Exec (World V String W) (Unit {0})

module _ {V W : Type 0} where
  -- The first producer of an asset, and its commit.
  abbrev pub produced : AssetHandle → V → ℕ → Exec (World V String W) (AssetSnapshot V)
  produced h value bytes = do
    acquired ← expect (acquire h)
    permit ← lift (producer_of acquired)
    expect (commit_permit permit value bytes)

  abbrev pub read_ready : AssetHandle → Exec (World V String W) (AssetSnapshot V)
  read_ready h = do acquired ← expect (acquire h); lift (snapshot_of acquired)

module _ {W : Type 0} where
  -- 01_shared_production.rs
  unfoldable pub shared_production : Program String W
  unfolding expect try_call assert pure lift modify ◌>>=◌
  shared_production = do
    icon ← expect create
    acquired ← expect (acquire icon)
    producer ← lift (producer_of acquired)
    again ← try_call (acquire icon)
    joined_only again
    expect (commit_permit producer "decoded icon" 64)
    ready ← read_ready icon
    assert (same_text ready.value "decoded icon")
    assert (ready.bytes == 64)
    modify drop_store

  -- 02_strong_weak_cache.rs: each token is owned by its entry alone, once its handle is dropped.
  unfoldable pub strong_weak_cache : Program String W
  unfolding expect try_call assert pure lift modify downgrade ◌>>=◌
  strong_weak_cache = do
    strong ← expect create
    let weak = downgrade strong
    produced strong "font bytes" 128
    kept ← expect (upgrade (λ _. 1) weak)
    assert (is_present kept)
    report ← expect (collect (λ _. 1) (record { max_resident_bytes = 0 }))
    assert (leb report.after report.before)
    assert (not (length report.evicted == 0))
    found ← expect (upgrade (λ _. 1) weak)
    upgraded ← lift (some_of found)
    observed ← try_call (observe upgraded)
    assert (matches_missing observed)
    modify drop_store

  -- 03_content_replacement.rs
  unfoldable pub content_replacement : Program String W
  unfolding expect try_call assert pure lift modify same_id ◌>>=◌
  content_replacement = do
    sprite ← expect create
    produced sprite "first pixels" 16
    first ← read_ready sprite
    requested ← expect (request_replacement sprite)
    replacement ← lift (replacement_of requested)
    expect (commit_permit replacement "second pixels" 32)
    second ← read_ready sprite
    assert (same_id (handle_id first.handle) (handle_id second.handle))
    assert (ltb first.generation second.generation)
    assert (same_text first.value "first pixels")
    assert (same_text second.value "second pixels")
    modify drop_store

  -- 04_stale_handle.rs
  unfoldable pub stale_handle : Program (List ℕ) W
  unfolding expect try_call assert pure lift modify same_id downgrade ◌>>=◌
  stale_handle = do
    old ← expect create
    let old_weak = downgrade old
    expect (remove (λ _. 1) (handle_id old))
    replacement ← expect create
    found ← expect (upgrade (λ _. 1) old_weak)
    assert (not (is_present found))
    removed ← try_call (remove (λ _. 1) (handle_id old))
    assert (is_err removed)
    assert (not (same_id (handle_id old) (handle_id replacement)))
    modify drop_store

  -- 05_failure_retry.rs
  unfoldable pub failure_retry : Program String W
  unfolding expect try_call assert pure lift modify ◌>>=◌
  failure_retry = do
    shader ← expect create
    acquired ← expect (acquire shader)
    producer ← lift (producer_of acquired)
    try_call (fail_permit producer "source was unavailable")
    after ← try_call (acquire shader)
    assert (matches_failed after)
    retried ← expect (retry shader)
    permit ← lift (producer_of retried)
    expect (commit_permit permit "void main() {}" 14)
    last ← try_call (acquire shader)
    assert (matches_ready last)
    modify drop_store

  -- 06_budget_collection.rs
  unfoldable pub budget_collection : Program (List ℕ) W
  unfolding expect try_call assert pure lift modify ◌>>=◌
  budget_collection = do
    first ← expect create
    second ← expect create
    produced first (repeated 1 32) 32
    produced second (repeated 2 32) 32
    report ← expect (collect (λ _. 1) (record { max_resident_bytes = 32 }))
    assert (report.before == 64)
    assert (report.after == 32)
    assert (length report.evicted == 1)
    modify drop_store
