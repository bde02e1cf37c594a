-- ===== src/Store/Examples.antt =====
-- Concrete stores, made by calls, at which the properties of failures and of evictions are applied.
use fluxel_bases.Prelude.{
  ℕ, ◌≡◌, refl, false, none, some, [], ◌∷◌, arith, ◌==◌, set, get_elem?, checked_add, checked_sub,
  try_from,
}
use fluxel_bases.Error.{ok}
use fluxel_bases.Exec.{◌>>=◌}
use fluxel_bases.Identity.{AssetId, AssetHandle}
use fluxel_bases.Production.{Acquire, ProductionOutcome, ProducerPermit}
use fluxel_bases.World.{World, Entry, Phase, new}
use fluxel_bases.Cell.{
  new_cell, set_outcome, drain, complete, take_wakers, take_slots, new_registry,
}
use fluxel_bases.Store.{
  lock, next_touch, put_entry, find_entry, entry_mut, validate_handle, write_entry, make_attempt,
  alloc_cell, complete_at, snapshot,
}
use fluxel_bases.Store.Begin.{
  create, take_index, ensure_slot, fill_slot, occupy, acquire, touch_entry, acquire_phase, retry,
}
use fluxel_bases.Store.Finish.{commit, fail, claim, replaced_total, previous_bytes, set_ready_bytes}
use fluxel_bases.Store.Permit.{commit_permit, fail_permit, settle, drop_permit}
use fluxel_bases.Store.Collect.{collect}
use fluxel_bases.Store.Calls.{creates, acquires, commits, fails, run, step}
use fluxel_bases.Store.Valid.{new-IsValid}
use fluxel_bases.Store.Keeps.Calls.{run-IsValid}
use fluxel_bases.Store.Flight.{Reaches, touched}
use fluxel_bases.Store.Failing.{failure_of, fail-acquire}
use fluxel_bases.Store.Retrying.{next_permit, restarted, retry-failed}
use fluxel_bases.Store.Eviction.Order.{CollectsOldest, collect-CollectsOldest}

abbrev made_id : AssetId
made_id = record { store = 7; slot = 0; generation = 1 }

abbrev made_handle : AssetHandle
made_handle = record { token = record { addr = 0; id = made_id } }

abbrev made_permit : ProducerPermit
made_permit = record { id = made_id; attempt = 1; cell = 1; completed = false }

abbrev made_entry : ℕ → Phase ℕ ℕ → Entry ℕ ℕ
made_entry touch phase = record {
  token = made_handle.token;
  phase = phase;
  content_generation = 0;
  attempt_generation = 1;
  last_touch = touch;
}

-- A store in which the first attempt of an asset runs, and one in which it has failed.
abbrev running : World ℕ ℕ ℕ
running = run (◌==◌) (creates ∷ acquires made_handle ∷ []) (new 7)

abbrev failed_store : World ℕ ℕ ℕ
failed_store = run (◌==◌) (creates ∷ acquires made_handle ∷ fails made_permit 404 ∷ []) (new 7)

abbrev ready_store : World ℕ ℕ ℕ
ready_store = run (◌==◌) (creates ∷ acquires made_handle ∷ commits made_permit 5 10 ∷ []) (new 7)

running-Reaches : Reaches running made_handle (made_entry 2 (Phase.producing 1 none 1))
unfolding run step create new lock next_touch take_index ensure_slot fill_slot occupy put_entry set
    get_elem? checked_add checked_sub try_from find_entry entry_mut previous_bytes set_ready_bytes
    acquire touch_entry acquire_phase validate_handle write_entry make_attempt alloc_cell new_cell
    complete_at set_outcome drain complete take_wakers take_slots commit_permit fail_permit settle
    drop_permit commit fail claim replaced_total snapshot new_registry ◌>>=◌
running-Reaches = record { sound = refl; more = omega arith; found = refl; same = refl }

failed_store-Reaches : Reaches failed_store made_handle (made_entry 3 (Phase.failed 1 404 none))
unfolding run step create new lock next_touch take_index ensure_slot fill_slot occupy put_entry set
    get_elem? checked_add checked_sub try_from find_entry entry_mut previous_bytes set_ready_bytes
    acquire touch_entry acquire_phase validate_handle write_entry make_attempt alloc_cell new_cell
    complete_at set_outcome drain complete take_wakers take_slots commit_permit fail_permit settle
    drop_permit commit fail claim replaced_total snapshot new_registry ◌>>=◌
failed_store-Reaches = record { sound = refl; more = omega arith; found = refl; same = refl }

fail-acquire_example :
    let r = fail made_id 1 1 404 running in
    let f = failure_of made_handle (made_entry 2 (Phase.producing 1 none 1)) 1 404 none in
    (r.0 ≡ ok f)
    × (r.1.ready_bytes ≡ running.ready_bytes)
    × ((acquire made_handle r.1).0 ≡ ok (Acquire.failed f))
    × ((r.1.cells 1).outcome ≡ some (ok (ProductionOutcome.failed f)))
unfolding run step create new lock next_touch take_index ensure_slot fill_slot occupy put_entry set
    get_elem? checked_add checked_sub try_from find_entry entry_mut previous_bytes set_ready_bytes
    acquire touch_entry acquire_phase validate_handle write_entry make_attempt alloc_cell new_cell
    complete_at set_outcome drain complete take_wakers take_slots commit_permit fail_permit settle
    drop_permit commit fail claim replaced_total snapshot new_registry ◌>>=◌
fail-acquire_example =
    fail-acquire running made_handle (made_entry 2 (Phase.producing 1 none 1)) 1 1 404 none
      (run-IsValid (◌==◌) (creates ∷ acquires made_handle ∷ []) (new 7) (new-IsValid ℕ ℕ ℕ 7))
      running-Reaches refl (omega arith) refl

retry-failed_example :
    let entry = made_entry 3 (Phase.failed 1 404 none) in
    let r = retry made_handle failed_store in
    (r.0 ≡ ok (Acquire.producer (next_permit entry failed_store.next)))
    × (find_entry r.1 made_id ≡ ok (restarted none failed_store.next (touched failed_store entry)))
retry-failed_example =
    retry-failed failed_store made_handle (made_entry 3 (Phase.failed 1 404 none)) 1 404 none
      failed_store-Reaches refl (omega arith)

collect-CollectsOldest_example :
    CollectsOldest
      (λ _. 1)
      9
      ready_store
      (collect (λ _. 1) (record { max_resident_bytes = 9 }) ready_store)
unfolding run step create new lock next_touch take_index ensure_slot fill_slot occupy put_entry set
    get_elem? checked_add checked_sub try_from find_entry entry_mut previous_bytes set_ready_bytes
    acquire touch_entry acquire_phase validate_handle write_entry make_attempt alloc_cell new_cell
    complete_at set_outcome drain complete take_wakers take_slots commit_permit fail_permit settle
    drop_permit commit fail claim replaced_total snapshot new_registry ◌>>=◌
collect-CollectsOldest_example =
    collect-CollectsOldest (λ _. 1) (record { max_resident_bytes = 9 }) ready_store
      (run-IsValid (◌==◌) (creates ∷ acquires made_handle ∷ commits made_permit 5 10 ∷ []) (new 7)
        (new-IsValid ℕ ℕ ℕ 7))
      refl
