-- ===== src/Lifecycle/Examples.antt =====
-- Concrete histories of a store, at which the properties of its lifecycle are applied.
use fluxel_bases.Prelude.{
  ℕ, ◌≡◌, ◌≢◌, refl, none, [], ◌∷◌, ◌==◌, set, get_elem?, checked_add, checked_sub, try_from,
}
use fluxel_bases.Error.{ok}
use fluxel_bases.Exec.{◌>>=◌}
use fluxel_bases.Identity.{AssetId, AssetHandle, handle_id}
use fluxel_bases.Budget.{RemoveReport}
use fluxel_bases.World.{World, Entry, Phase, new}
use fluxel_bases.Cell.{new_cell}
use fluxel_bases.Store.{
  lock, next_touch, put_entry, find_entry, entry_mut, validate_handle, make_attempt, alloc_cell,
  write_entry,
}
use fluxel_bases.Store.Begin.{
  create, take_index, ensure_slot, fill_slot, occupy, acquire, touch_entry, acquire_phase,
}
use fluxel_bases.Store.Finish.{previous_bytes, set_ready_bytes}
use fluxel_bases.Store.Remove.{remove, remove_own, removable, vacate, recycle, insert_free}
use fluxel_bases.Store.Calls.{creates, acquires, run, step}
use fluxel_bases.Store.Valid.{new-IsValid}
use fluxel_bases.Store.Keeps.Calls.{run-IsValid}
use fluxel_bases.Lifecycle.History.{Continues}
use fluxel_bases.Lifecycle.Refines.{Reach}
use fluxel_bases.Lifecycle.Refines.Calls.{run-Reach}
use fluxel_bases.Lifecycle.Refines.Identities.{remove-run, remove-create, run-Continues}

abbrev first_id : AssetId
first_id = record { store = 7; slot = 0; generation = 1 }

abbrev first_handle : AssetHandle
first_handle = record { token = record { addr = 0; id = first_id } }

abbrev second_id : AssetId
second_id = record { store = 7; slot = 0; generation = 2 }

abbrev second_handle : AssetHandle
second_handle = record { token = record { addr = 1; id = second_id } }

abbrev first_entry : Entry ℕ ℕ
first_entry = record {
  token = first_handle.token;
  phase = Phase.missing;
  content_generation = 0;
  attempt_generation = 0;
  last_touch = 1;
}

abbrev second_entry : Entry ℕ ℕ
second_entry = record first_entry {
  phase = Phase.producing 1 none 1;
  attempt_generation = 1;
  last_touch = 2;
}

abbrev started : World ℕ ℕ ℕ
started = run (◌==◌) (creates ∷ []) (new 7)

run-Reach_example :
    Reach
      (new {V = ℕ} {E = ℕ} {W = ℕ} 7)
      (run (◌==◌) (creates ∷ acquires first_handle ∷ []) (new 7))
run-Reach_example =
    run-Reach (◌==◌) (creates ∷ acquires first_handle ∷ []) (new 7) (new-IsValid ℕ ℕ ℕ 7)

abbrev nothing_removed : RemoveReport
nothing_removed = record { id = first_id; removed_generation = none; removed_bytes = 0 }

abbrev removed : World ℕ ℕ ℕ
removed = (remove (λ _. 1) first_id started).1

removes_first : remove (λ _. 1) first_id started ≡ (ok nothing_removed, removed)
unfolding run step create new lock next_touch take_index ensure_slot fill_slot occupy put_entry set
    get_elem? checked_add checked_sub try_from remove remove_own find_entry entry_mut removable
    vacate recycle insert_free previous_bytes set_ready_bytes ◌>>=◌
removes_first = refl

remove-run_example :
    (find_entry (run (◌==◌) (creates ∷ acquires first_handle ∷ []) removed) first_id)
    ≢ ok first_entry
remove-run_example =
    remove-run (◌==◌) (λ _. 1) first_id started removed nothing_removed
      (creates ∷ acquires first_handle ∷ []) first_entry
      (run-IsValid (◌==◌) (creates ∷ []) (new 7) (new-IsValid ℕ ℕ ℕ 7)) removes_first

abbrev reused : World ℕ ℕ ℕ
reused = (create (run (◌==◌) (acquires first_handle ∷ []) removed)).1

creates_second :
    create (run (◌==◌) (acquires first_handle ∷ []) removed) ≡ (ok second_handle, reused)
unfolding run step create new lock next_touch take_index ensure_slot fill_slot occupy put_entry set
    get_elem? checked_add checked_sub try_from remove remove_own find_entry entry_mut removable
    vacate recycle insert_free previous_bytes set_ready_bytes acquire touch_entry acquire_phase
    validate_handle write_entry make_attempt alloc_cell new_cell ◌>>=◌
creates_second = refl

remove-create_example : handle_id second_handle ≢ first_id
remove-create_example =
    remove-create (◌==◌) (λ _. 1) first_id started removed reused nothing_removed
      (acquires first_handle ∷ []) second_handle
      (run-IsValid (◌==◌) (creates ∷ []) (new 7) (new-IsValid ℕ ℕ ℕ 7)) removes_first creates_second

run-Continues_example : Continues first_entry second_entry
unfolding run step create new lock next_touch take_index ensure_slot fill_slot occupy put_entry set
    get_elem? checked_add checked_sub try_from remove remove_own find_entry entry_mut removable
    vacate recycle insert_free previous_bytes set_ready_bytes acquire touch_entry acquire_phase
    validate_handle write_entry make_attempt alloc_cell new_cell ◌>>=◌
run-Continues_example =
    run-Continues (◌==◌) (acquires first_handle ∷ []) first_id started first_entry second_entry
      (run-IsValid (◌==◌) (creates ∷ []) (new 7) (new-IsValid ℕ ℕ ℕ 7)) refl refl
