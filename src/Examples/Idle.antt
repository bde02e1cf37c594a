-- ===== src/Examples/Idle.antt =====
-- A store without handles and attempts, and one at the end of its clock, at which the properties of
-- collections, removals and creations are applied.
use fluxel_bases.Prelude.{ℕ, ◌≡◌, refl, some, [], ◌∷◌, arith, get_elem?}
use mathlib.Core.Option.{some-injective}
use Prim.Native.Nat.{zero}
use fluxel_bases.Prelude.{suc, subst, total}
use fluxel_bases.Error.{live_users, generation_exhausted}
use fluxel_bases.Budget.{EvictedAsset}
use fluxel_bases.World.{Slot}
use fluxel_bases.Store.{stale}
use fluxel_bases.Store.Begin.{create, observe}
use fluxel_bases.Store.Finish.{previous_bytes}
use fluxel_bases.Store.Remove.{remove}
use fluxel_bases.Store.Collect.{collect}
use fluxel_bases.Store.Permit.{drop_permit}
use fluxel_bases.Store.Eviction.{evicted_bytes, collect-adds_up}
use fluxel_bases.Prelude.{List, ◌+◌, u64_max}
use fluxel_bases.Store.Creation.{IsFresh, create-IsFresh}
use fluxel_bases.Store.Removal.{refusal, remove_refused, remove_unused}
use fluxel_bases.Store.Exhaustion.{exhausted_clock}
use fluxel_bases.Error.{ok, err}
use fluxel_bases.World.{World, Entry, Phase}
use fluxel_bases.Store.{find_entry}
use fluxel_bases.Store.Begin.{acquire, retry, request_replacement}
use fluxel_bases.Store.Finish.{commit, fail, cancel}
use fluxel_bases.Store.Valid.{IsValid}
use fluxel_bases.Examples.{one_id, one_handle, one_entry, one_store, one_permit}

-- The entry of one_store, ready with 10 bytes and without an attempt.
abbrev idle_entry : Entry ℕ ℕ
idle_entry = record one_entry {
  phase = Phase.ready (record { generation = 1; value = 5; bytes = 10 });
}

abbrev idle_store : World ℕ ℕ ℕ
idle_store = record one_store {
  state = record one_store.state {
    slots = record { generation = 1; entry = some idle_entry } ∷ [];
  };
}

only_slot :
    (P : ℕ → Slot ℕ ℕ → Type 0) (only : Slot ℕ ℕ)
    → P 0 only
    → (i : ℕ) (slot : Slot ℕ ℕ) → get_elem? (only ∷ []) i ≡ some slot
    → P i slot
unfolding get_elem?
only_slot P only p zero slot e = subst (P 0) (some-injective _ _ e) p
only_slot P only p (suc i) slot e = absurd (cc)

idle_store-IsValid : IsValid idle_store
unfolding total previous_bytes
idle_store-IsValid = record {
  slots_valid = only_slot _ _ (record {
    generation_pos = omega arith;
    generation_fits = omega arith;
    occupant = record {
      own_store = refl;
      own_slot = refl;
      own_generation = refl;
      allocated = omega arith;
      touched = omega arith;
      content_fits = omega arith;
      attempts_fit = omega arith;
      current = (refl, omega arith);
      latest = tt;
    };
  });
  accounted = refl;
  bytes_fit = omega arith;
  touch_fits = omega arith;
  indices_fit = omega arith;
  free_ascending = tt;
  free_vacant = tt;
}

collect-adds_up_example :
    (evicted : List EvictedAsset) × ((collect
        (λ _. 1)
        (record { max_resident_bytes = 9 })
        idle_store).0
      ≡ ok (record {
        before = 10;
        after = (collect (λ _. 1) (record { max_resident_bytes = 9 }) idle_store).1.ready_bytes;
        evicted = evicted;
      }))
    × ((collect (λ _. 1) (record { max_resident_bytes = 9 }) idle_store).1.ready_bytes
          + evicted_bytes evicted
        ≡ 10)
collect-adds_up_example =
    collect-adds_up (λ _. 1) (record { max_resident_bytes = 9 }) idle_store idle_store-IsValid refl

remove_unused_example :
    let r = remove (λ _. 1) one_id idle_store in
    (r.0 ≡ ok (record { id = one_id; removed_generation = some 1; removed_bytes = 10 }))
    × (r.1.ready_bytes + 10 ≡ 10)
    × (find_entry r.1 one_id ≡ err (stale one_id))
unfolding find_entry get_elem? refusal previous_bytes
remove_unused_example =
    remove_unused (λ _. 1) one_id idle_store idle_entry idle_store-IsValid refl refl refl

remove_refused_example : remove (λ _. 3) one_id idle_store ≡ (err (live_users 2), idle_store)
unfolding find_entry get_elem? refusal
remove_refused_example =
    remove_refused (λ _. 3) one_id idle_store idle_entry (live_users 2) refl refl refl

abbrev last_store : World ℕ ℕ ℕ
last_store = record one_store { state = record one_store.state { touch = u64_max } }

exhausted_clock_example :
    (create last_store ≡ (err generation_exhausted, last_store))
    × (acquire one_handle last_store ≡ (err generation_exhausted, last_store))
    × (retry one_handle last_store ≡ (err generation_exhausted, last_store))
    × (request_replacement one_handle last_store ≡ (err generation_exhausted, last_store))
    × (observe one_handle last_store ≡ (err generation_exhausted, last_store))
    × (commit one_id 2 2 6 20 last_store ≡ (err generation_exhausted, last_store))
    × (fail one_id 2 2 404 last_store ≡ (err generation_exhausted, last_store))
    × (cancel one_id 2 2 last_store ≡ (err generation_exhausted, last_store))
    × (drop_permit one_permit last_store ≡ last_store)
exhausted_clock_example =
    exhausted_clock one_handle one_id 2 2 6 20 404 one_permit last_store refl refl

create-IsFresh_example : IsFresh idle_store one_id (ok idle_entry) (create idle_store)
unfolding find_entry get_elem?
create-IsFresh_example = create-IsFresh idle_store one_id idle_store-IsValid
