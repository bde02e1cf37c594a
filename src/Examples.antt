-- ===== src/Examples.antt =====
-- Small concrete stores, at which the properties of crates/assets are applied.
mod Idle
use fluxel_bases.Prelude.{
  ℕ, ◌≡◌, refl, true, false, none, some, [], ◌∷◌, arith, inl, ◌==◌, set, get_elem?, checked_add,
  checked_sub, ◌↔◌,
}
use mathlib.Core.Option.{some-injective}
use Prim.Native.Nat.{zero}
use fluxel_bases.Prelude.{suc, subst, total}
use fluxel_bases.Error.{live_users, generation_exhausted}
use fluxel_bases.Budget.{EvictedAsset}
use fluxel_bases.World.{Slot}
use fluxel_bases.Store.{stale}
use fluxel_bases.Store.Begin.{create, observe}
use fluxel_bases.Store.Finish.{previous_bytes}
use fluxel_bases.Store.Remove.{remove}
use fluxel_bases.Store.Collect.{collect}
use fluxel_bases.Store.Permit.{drop_permit}
use fluxel_bases.Store.Eviction.{evicted_bytes, collect-adds_up}
use fluxel_bases.Production.{ProducerPermit}
use fluxel_bases.Prelude.{List, ◌+◌, u64_max}
use fluxel_bases.Store.Creation.{IsFresh, create-IsFresh}
use fluxel_bases.Store.{snapshot}
use fluxel_bases.Store.Cancellation.{cancelled_entry, drop_permit-restores}
use fluxel_bases.Store.Removal.{refusal, remove_refused, remove_unused}
use fluxel_bases.Store.Exhaustion.{exhausted_clock}
use fluxel_bases.Error.{Result, ok, err, expired_producer}
use fluxel_bases.Identity.Order.{same_id_iff}
use fluxel_bases.Identity.{same_id, AssetId, IdentityToken, AssetHandle}
use fluxel_bases.Production.{Acquire, Production, ProductionOutcome, ProductionWaiter}
use fluxel_bases.Cell.{
  AttemptCell, Poll, new_cell, complete, poll, register, check, set_outcome, drain, record_waker,
}
use fluxel_bases.Cell.Outcome.{complete-complete, poll-complete}
use fluxel_bases.Cell.Interleave.{
  PollPc, CompletePc, here, later, checks, records, answers, sets, drains, IsWoken,
}
use fluxel_bases.Cell.Wakes.{pending-IsWoken}
use fluxel_bases.World.{World, Entry, Phase, new}
use fluxel_bases.Store.{find_entry, put_entry, waiter}
use fluxel_bases.Store.Begin.{acquire, retry, request_replacement}
use fluxel_bases.Store.Finish.{commit, fail, cancel, replaced_total}
use fluxel_bases.Store.Steps.{bump}
use fluxel_bases.Store.Valid.{IsValid, new-IsValid}
use fluxel_bases.Store.Calls.{run, creates, acquires, closes}
use fluxel_bases.Store.Keeps.Calls.{run-IsValid}
use fluxel_bases.Store.Expiry.{expired_permit}
use fluxel_bases.Store.Flight.{Reaches, touched_world, single_flight, find_entry-put_entry}
use fluxel_bases.Store.Publish.{IsCommittable, published, commit-acquire}

abbrev pub one_id : AssetId
one_id = record { store = 7; slot = 0; generation = 1 }

abbrev pub one_token : IdentityToken
one_token = record { addr = 0; id = one_id }

abbrev pub one_handle : AssetHandle
one_handle = record { token = one_token }

-- An entry that replaces a value of 10 bytes by its second attempt.
abbrev pub one_entry : Entry ℕ ℕ
one_entry = record {
  token = one_token;
  phase = Phase.producing 2 (some (record { generation = 1; value = 5; bytes = 10 })) 2;
  content_generation = 1;
  attempt_generation = 2;
  last_touch = 4;
}

abbrev pub one_store : World ℕ ℕ ℕ
one_store = record {
  id = 7;
  alive = true;
  poisoned = false;
  state = record {
    slots = record { generation = 1; entry = some one_entry } ∷ [];
    free = [];
    ready_bytes = 10;
    touch = 4;
  };
  heap = record { next = 3; cells = λ _. new_cell; woken = [] };
}

pub one_Reaches : Reaches one_store one_handle one_entry
unfolding find_entry get_elem?
one_Reaches = record { sound = refl; more = omega arith; found = refl; same = refl }

run-IsValid_example : IsValid (
    run
      (◌==◌)
      (creates ∷ acquires one_handle ∷ acquires one_handle ∷ closes ∷ [])
      (new {V = ℕ} {E = ℕ} {W = ℕ} 7))
run-IsValid_example =
    run-IsValid (◌==◌) (creates ∷ acquires one_handle ∷ acquires one_handle ∷ closes ∷ []) (new 7)
      (new-IsValid ℕ ℕ ℕ 7)

-- The permit of the first attempt, while the second runs.
expired_permit_example :
    (commit one_id 1 1 6 20 one_store ≡ (err (expired_producer 1 (some 2)), bump one_store))
    × (fail one_id 1 1 404 one_store ≡ (err (expired_producer 1 (some 2)), bump one_store))
    × (cancel one_id 1 1 one_store ≡ (err (expired_producer 1 (some 2)), bump one_store))
expired_permit_example =
    expired_permit one_id 1 1 6 20 404 one_store one_entry refl (omega arith) one_Reaches.found
      (omega arith) (λ h. omega (arith, h.0))

abbrev one_waiter : ProductionWaiter
one_waiter = record { id = one_id; attempt = 2; cell = 2; key = 1 }

abbrev joined_world : World ℕ ℕ ℕ
unfolding waiter register put_entry set checked_add new_cell
joined_world = (waiter one_id 2 2 (touched_world one_store one_handle one_entry)).1

single_flight_example :
    (acquire one_handle one_store ≡ (ok (Acquire.waiter one_waiter), joined_world))
    × (retry one_handle one_store ≡ (ok (Acquire.waiter one_waiter), joined_world))
    × (request_replacement one_handle one_store ≡ (ok (Production.waiter one_waiter), joined_world))
    × (one_waiter.attempt ≡ 2)
    × (one_waiter.cell ≡ 2)
    × (joined_world.slots ≡ (touched_world one_store one_handle one_entry).slots)
unfolding waiter register put_entry set checked_add new_cell
single_flight_example =
    single_flight one_store one_handle one_entry 2 2
      (some (record { generation = 1; value = 5; bytes = 10 })) one_waiter joined_world one_Reaches
      refl refl

one_IsCommittable : IsCommittable one_store one_handle one_entry 2 2 25 25
unfolding previous_bytes
one_IsCommittable = record {
  reaches = one_Reaches;
  previous = some (record { generation = 1; value = 5; bytes = 10 });
  runs = refl;
  room = omega arith;
  covered = omega arith;
  exchanged = refl;
  bounded = omega arith;
}

commit-acquire_example :
    let r = commit one_id 2 2 6 25 one_store in
    (r.0 ≡ ok (published one_entry 6 25))
    × (r.1.ready_bytes ≡ 25)
    × ((acquire one_handle r.1).0 ≡ ok (Acquire.ready (published one_entry 6 25)))
    × ((r.1.cells 2).outcome ≡ some (ok (ProductionOutcome.ready (published one_entry 6 25))))
unfolding new_cell
commit-acquire_example =
    commit-acquire one_store one_handle one_entry 2 2 6 25 25 one_IsCommittable (omega arith) refl

same_id_iff_example : (same_id one_id one_id ≡ true) ↔ (one_id ≡ one_id)
same_id_iff_example = same_id_iff one_id one_id

abbrev pub one_permit : ProducerPermit
one_permit = record { id = one_id; attempt = 2; cell = 2; completed = false }

drop_permit-restores_example :
    let u = drop_permit one_permit one_store in
    (find_entry u one_id
      ≡ ok (cancelled_entry 5 (some (record { generation = 1; value = 5; bytes = 10 })) one_entry))
    × (u.ready_bytes ≡ 10)
    × ((u.cells 2).outcome
        ≡ some (
            ok (
              ProductionOutcome.cancelled one_id 2
                (some (record { handle = one_handle; generation = 1; value = 5; bytes = 10 })))))
unfolding snapshot new_cell
drop_permit-restores_example =
    drop_permit-restores one_store one_handle one_entry 2 2
      (some (record { generation = 1; value = 5; bytes = 10 })) one_Reaches refl refl refl
