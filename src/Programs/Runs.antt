-- ===== src/Programs/Runs.antt =====
-- Each of the example programs runs to its end without a panic, on a store of some identity (crates/assets/examples).
use fluxel_bases.Prelude.{ℕ, ◌≡◌, refl, set, get_elem?, checked_add, checked_sub, try_from}
use fluxel_bases.Error.{ok}
use fluxel_bases.Exec.{◌>>=◌}
use fluxel_bases.World.{new}
use fluxel_bases.Identity.{same_id, downgrade, upgrade_token, cmp_id}
use fluxel_bases.Cell.{
  new_cell, set_outcome, drain, complete, take_wakers, take_slots, new_registry, register,
  deregister, remove_key,
}
use fluxel_bases.Store.{
  lock, next_touch, put_entry, find_entry, entry_mut, validate_handle, write_entry, make_attempt,
  alloc_cell, complete_at, snapshot, failure, waiter,
}
use fluxel_bases.Store.Begin.{
  create, take_index, ensure_slot, fill_slot, occupy, acquire, touch_entry, acquire_phase, retry,
  retry_phase, restart, request_replacement, replace_phase, observe, observation, upgrade,
}
use fluxel_bases.Store.Finish.{
  commit, fail, cancel, claim, replaced_total, previous_bytes, set_ready_bytes,
}
use fluxel_bases.Store.Remove.{remove, remove_own, removable, vacate, recycle, insert_free}
use fluxel_bases.Store.Collect.{
  collect, candidates, sort_candidates, insert_sorted, cmp_candidate, evict_until, evict_turn,
  evict_entry, evict_phase, eligible,
}
use fluxel_bases.Store.Permit.{
  commit_permit, fail_permit, settle, drop_permit, drop_waiter, drop_store, close_slots,
}
use fluxel_bases.Programs.{
  expect, try_call, assert, shared_production, strong_weak_cache, content_replacement, stale_handle,
  failure_retry, budget_collection,
}

programs_run :
    ((shared_production {W = ℕ} (new 7)).0 ≡ ok tt)
    × ((strong_weak_cache {W = ℕ} (new 7)).0 ≡ ok tt)
    × ((content_replacement {W = ℕ} (new 7)).0 ≡ ok tt)
    × ((stale_handle {W = ℕ} (new 7)).0 ≡ ok tt)
    × ((failure_retry {W = ℕ} (new 7)).0 ≡ ok tt)
    × ((budget_collection {W = ℕ} (new 7)).0 ≡ ok tt)
unfolding set get_elem? checked_add checked_sub try_from ◌>>=◌ new same_id downgrade upgrade_token
    cmp_id new_cell set_outcome drain complete take_wakers take_slots new_registry register
    deregister remove_key lock next_touch put_entry find_entry entry_mut validate_handle write_entry
    make_attempt alloc_cell complete_at snapshot failure waiter create take_index ensure_slot
    fill_slot occupy acquire touch_entry acquire_phase retry retry_phase restart request_replacement
    replace_phase observe observation upgrade commit fail cancel claim replaced_total previous_bytes
    set_ready_bytes remove remove_own removable vacate recycle insert_free collect candidates
    sort_candidates insert_sorted cmp_candidate evict_until evict_turn evict_entry evict_phase
    eligible commit_permit fail_permit settle drop_permit drop_waiter drop_store close_slots expect
    try_call assert shared_production strong_weak_cache content_replacement stale_handle
    failure_retry budget_collection
programs_run = (refl, refl, refl, refl, refl, refl)
