-- ===== src/Loader/Requests/Examples.antt =====
-- Loaders at which the properties of the first requests of a key and of a failed production are applied.
use fluxel_bases.Prelude.{
  ℕ, ◌≡◌, ◌↔◌, refl, true, false, none, some, List, [], ◌∷◌, arith, set, get_elem?, checked_add,
  checked_sub, try_from, ◌==◌,
}
use fluxel_bases.Exec.{◌>>=◌, pure}
use fluxel_bases.Identity.{AssetId, AssetHandle, downgrade}
use fluxel_bases.Production.{ProducerPermit}
use fluxel_bases.Cell.{
  new_cell, new_registry, set_outcome, drain, complete, take_wakers, take_slots,
}
use fluxel_bases.Store.Finish.{commit, claim, replaced_total, previous_bytes, set_ready_bytes}
use fluxel_bases.Store.Permit.{commit_permit, settle, drop_permit}
use fluxel_bases.Store.Removal.{refusal}
use fluxel_bases.Loader.Directory.Forget.{IsForgotten, forget-Forgetting}
use fluxel_bases.World.{Entry, Phase, new}
use fluxel_bases.Store.{
  lock, next_touch, put_entry, find_entry, entry_mut, validate_handle, write_entry, make_attempt,
  alloc_cell, complete_at, snapshot,
}
use fluxel_bases.Store.Begin.{
  create, take_index, ensure_slot, fill_slot, occupy, acquire, touch_entry, acquire_phase,
}
use fluxel_bases.Store.Calls.{creates, acquires, commits, run, step}
use fluxel_bases.Store.Valid.{new-IsValid}
use fluxel_bases.Store.Keeps.Calls.{run-IsValid}
use fluxel_bases.Store.Failing.{failure_of}
use fluxel_bases.Loader.Failure.{LoadError, source_io, done, fails, io, loaded, refused}
use fluxel_bases.Loader.Key.{root_dir, normal, raw, FileKey}
use fluxel_bases.Loader.Directory.{FileLoader, FileStore, new_loader, lookup, insert, forget}
use fluxel_bases.Loader.Producer.{FileProducer}
use fluxel_bases.Loader.Production.{FileSystem, prepare, produce_with}
use fluxel_bases.Loader.Requests.{FileRequest, request}
use fluxel_bases.Loader.Requests.Fresh.{first_waiter, lookup-inserted, request-request}
use fluxel_bases.Loader.Reading.Stops.{read_fails}
use fluxel_bases.Loader.Production.Refuses.{Refuses, stops, prepare-Refuses_iff}
use fluxel_bases.Loader.Requests.Refused.{produce-Refuses}

abbrev fresh_key : FileKey
fresh_key = record { path = root_dir ∷ normal (b'b' ∷ []) ∷ []; variant = raw }

abbrev first_id : AssetId
first_id = record { store = 7; slot = 0; generation = 1 }

abbrev first_handle : AssetHandle
first_handle = record { token = record { addr = 0; id = first_id } }

abbrev empty_loader : FileLoader ℕ ℕ ℕ
empty_loader = new_loader 7

abbrev first_store : FileStore ℕ ℕ ℕ
first_store = (create empty_loader.store).1

request-request_example :
    let first = request (λ _. 0) fresh_key false empty_loader in
    (first.0
      ≡ loaded (
          FileRequest.producer (record {
            key = fresh_key;
            permit = some (record { id = first_id; attempt = 1; cell = 1; completed = false });
            terminal = false;
          })))
    × ((request (λ _. 2) fresh_key true first.1).0
        ≡ loaded (FileRequest.waiting (first_waiter first_id 1)))
unfolding new_loader new create lock next_touch take_index ensure_slot fill_slot occupy put_entry
    set get_elem? checked_add try_from lookup ◌>>=◌
request-request_example =
    request-request (λ _. 0) (λ _. 2) fresh_key true empty_loader first_handle first_store
      (new-IsValid (List ℕ) (LoadError ℕ ℕ) ℕ 7) refl (omega arith) refl refl refl (omega arith)

-- A file system that opens its file and reads nothing of it, as of a directory.
abbrev no_file : FileSystem ℕ ℕ
no_file = record {
  Source = Unit;
  open_file = λ _. done tt;
  source_length = λ _. done 4;
  read = λ _ s. (fails (record { kind = 2; message = 3 }), s);
}

no_file-Refuses : Refuses 8 no_file fresh_key (source_io 2 3)
unfolding io
no_file-Refuses =
    stops 4 tt refl refl (omega arith)
      (read_fails (record { kind = 2; message = 3 }) tt (omega arith) refl refl)

prepare-Refuses_iff_example :
    ((prepare 8 no_file fresh_key none).outcome ≡ refused (source_io 2 3))
    ↔ Refuses 8 no_file fresh_key (source_io 2 3)
prepare-Refuses_iff_example = prepare-Refuses_iff 8 no_file (λ _ _. tt) fresh_key (source_io 2 3)

-- A loader in which the first attempt of its key runs.
abbrev begun_store : FileStore ℕ ℕ ℕ
begun_store = run (◌==◌) (creates ∷ acquires first_handle ∷ []) (new 7)

abbrev begun_loader : FileLoader ℕ ℕ ℕ
begun_loader = record empty_loader {
  store = begun_store;
  directory = insert fresh_key (downgrade first_handle) [];
}

abbrev begun_entry : Entry (List ℕ) (LoadError ℕ ℕ)
begun_entry = record {
  token = first_handle.token;
  phase = Phase.producing 1 none 1;
  content_generation = 0;
  attempt_generation = 1;
  last_touch = 2;
}

produce-Refuses_example :
    let p : FileProducer = record {
      key = fresh_key;
      permit = some (record { id = first_id; attempt = 1; cell = 1; completed = false });
      terminal = false;
    } in
    let r = produce_with 8 no_file none p begun_loader in
    let next : ProducerPermit = record {
      id = first_id;
      attempt = 2;
      cell = 2;
      completed = false;
    } in
    (r.0 ≡ refused (source_io 2 3))
    × ((request (λ _. 1) fresh_key false r.2).0
        ≡ loaded (FileRequest.failed (failure_of first_handle begun_entry 1 (source_io 2 3) none)))
    × ((request (λ _. 1) fresh_key true r.2).0
        ≡ loaded (
            FileRequest.producer
              (record { key = fresh_key; permit = some next; terminal = false })))
unfolding run step create new new_loader io lock next_touch take_index ensure_slot fill_slot occupy
    put_entry set get_elem? checked_add try_from find_entry entry_mut acquire touch_entry
    acquire_phase validate_handle write_entry make_attempt alloc_cell new_cell new_registry pure
    ◌>>=◌
produce-Refuses_example =
    produce-Refuses 8 no_file (λ _. 1) fresh_key (source_io 2 3) first_handle begun_loader
      begun_entry 1 1 none no_file-Refuses
      (run-IsValid (◌==◌) (creates ∷ acquires first_handle ∷ []) (new 7)
        (new-IsValid (List ℕ) (LoadError ℕ ℕ) ℕ 7))
      (record { sound = refl; more = omega arith; found = refl; same = refl }) refl (omega arith)
      (omega arith) refl refl refl (lookup-inserted fresh_key (downgrade first_handle) [])
      (omega arith)

-- A loader whose file is there, and in use by nobody.
abbrev held_store : FileStore ℕ ℕ ℕ
held_store =
    run (◌==◌)
      (creates
        ∷ acquires first_handle
        ∷ commits (record { id = first_id; attempt = 1; cell = 1; completed = false }) (1 ∷ 2 ∷ [])
            2
        ∷ [])
      (new 7)

abbrev held_loader : FileLoader ℕ ℕ ℕ
held_loader = record empty_loader {
  store = held_store;
  directory = insert fresh_key (downgrade first_handle) [];
}

forget-Forgetting_example :
    let r = forget (λ _. 1) fresh_key held_loader in
    (r.0 ≡ loaded tt) × IsForgotten fresh_key first_id 2 fresh_key held_loader r.1
unfolding run step create new new_loader lock next_touch take_index ensure_slot fill_slot occupy
    put_entry set get_elem? checked_add checked_sub try_from find_entry entry_mut acquire
    touch_entry acquire_phase validate_handle write_entry make_attempt alloc_cell new_cell
    new_registry complete_at set_outcome drain complete take_wakers take_slots commit_permit settle
    drop_permit commit claim replaced_total previous_bytes set_ready_bytes snapshot refusal
    downgrade pure ◌>>=◌
forget-Forgetting_example =
    forget-Forgetting (λ _. 1) fresh_key fresh_key held_loader (some (downgrade first_handle))
      (run-IsValid (◌==◌)
        (creates
          ∷ acquires first_handle
          ∷ commits (record { id = first_id; attempt = 1; cell = 1; completed = false })
              (1 ∷ 2 ∷ []) 2
          ∷ [])
        (new 7) (new-IsValid (List ℕ) (LoadError ℕ ℕ) ℕ 7))
      refl refl (lookup-inserted fresh_key (downgrade first_handle) [])
