-- ===== src/Loader/Program/Requests.antt =====
-- The two requests of the program that loads one file, on its new loader
-- (crates/assets/examples/07_file_loader.rs, lines 29 to 37).
use fluxel_bases.Prelude.{
  ℕ, ◌≡◌, refl, true, false, none, some, [], ◌∷◌, arith, set, get_elem?, checked_add, try_from,
}
use fluxel_bases.Exec.{◌>>=◌, pure}
use fluxel_bases.Identity.{AssetId, AssetHandle, downgrade}
use fluxel_bases.Production.{ProductionWaiter}
use fluxel_bases.World.{Entry, Phase, new}
use fluxel_bases.Cell.{update, new_cell, new_registry, register}
use fluxel_bases.Store.{
  lock, next_touch, find_entry, entry_mut, validate_handle, write_entry, put_entry, make_attempt,
  alloc_cell, waiter,
}
use fluxel_bases.Store.Begin.{
  create, take_index, ensure_slot, fill_slot, occupy, acquire, acquire_phase, touch_entry,
}
use fluxel_bases.Store.Flight.{Reaches}
use fluxel_bases.Loader.Failure.{loaded}
use fluxel_bases.Loader.Key.{FileKey}
use fluxel_bases.Loader.Metrics.{no_loads, inc}
use fluxel_bases.Loader.Directory.{
  FileLoader, FileStore, new_loader, lookup, insert, handle_for, handle_known, create_for, entered,
  in_store,
}
use fluxel_bases.Loader.Producer.{FileProducer}
use fluxel_bases.Loader.Requests.{FileRequest, acquire_file, counted, request}
use fluxel_bases.Loader.Requests.Joined.{joined_loader, request-joins}
use fluxel_bases.Loader.Requests.Fresh.{first_waiter, lookup-inserted}

abbrev pub file_id : AssetId
file_id = record { store = 1; slot = 0; generation = 1 }

abbrev pub file_handle : AssetHandle
file_handle = record { token = record { addr = 0; id = file_id } }

-- The waiter of the second request, and the producer of the first.
abbrev pub file_waiter : ProductionWaiter
file_waiter = first_waiter file_id 1

abbrev pub file_producer : FileKey → FileProducer
file_producer key = record {
  key = key;
  permit = some (record { id = file_id; attempt = 1; cell = 1; completed = false });
  terminal = false;
}

module _ {V E : Type 0} where
  -- The entry while its first attempt runs.
  abbrev pub running : ℕ → Entry V E
  running touch = record {
    token = record { addr = 0; id = file_id };
    phase = Phase.producing 1 none 1;
    content_generation = 0;
    attempt_generation = 1;
    last_touch = touch;
  }

module _ {Kind Message W : Type 0} where
  abbrev requested_store : FileStore Kind Message W
  requested_store = record {
    id = 1;
    alive = true;
    poisoned = false;
    state = record {
      slots = record { generation = 1; entry = some (running 2) } ∷ [];
      free = [];
      ready_bytes = 0;
      touch = 2;
    };
    heap = record { next = 2; cells = update (λ _. new_cell) 1 new_cell; woken = [] };
  }

  -- The store after both requests.
  abbrev pub waiting_store : FileStore Kind Message W
  waiting_store = record {
    id = 1;
    alive = true;
    poisoned = false;
    state = record {
      slots = record { generation = 1; entry = some (running 3) } ∷ [];
      free = [];
      ready_bytes = 0;
      touch = 3;
    };
    heap = record {
      next = 2;
      cells = update (update (λ _. new_cell) 1 new_cell) 1 (record new_cell {
        registry = record { next_key = 1; registered = 1 ∷ []; slots = update (λ _. none) 1 none };
      });
      woken = [];
    };
  }

  abbrev pub requested_loader : FileKey → FileLoader Kind Message W
  requested_loader key = record {
    store = requested_store;
    directory = insert key (downgrade file_handle) [];
    directory_poisoned = false;
    metrics = record no_loads { requests = inc 0; producers = inc 0; producers_in_flight = inc 0 };
  }

  abbrev pub waiting_loader : FileKey → FileLoader Kind Message W
  waiting_loader key = joined_loader waiting_store (counted (requested_loader key))

  requested_store-Reaches : Reaches requested_store file_handle (running 2)
  unfolding find_entry get_elem?
  requested_store-Reaches = record { sound = refl; more = omega arith; found = refl; same = refl }

  pub request-first :
      (key : FileKey)
      → request (λ _. 1) key false (new_loader 1)
        ≡ (loaded (FileRequest.producer (file_producer key)), requested_loader key)
  unfolding request acquire_file handle_for handle_known create_for entered in_store lookup
      new_loader new create lock next_touch take_index ensure_slot fill_slot occupy put_entry set
      get_elem? checked_add try_from new_cell acquire acquire_phase touch_entry validate_handle
      entry_mut find_entry write_entry make_attempt alloc_cell pure ◌>>=◌
  request-first key = refl

  pub request-second :
      (key : FileKey)
      → request (λ _. 1) key false (requested_loader key)
        ≡ (loaded (FileRequest.waiting file_waiter), waiting_loader key)
  unfolding waiter register checked_add new_cell new_registry put_entry set
  request-second key =
      (request-joins (λ _. 1) key false file_handle (requested_loader key) (running 2) 1 1 none
        file_waiter waiting_store requested_store-Reaches refl refl refl
        (lookup-inserted key (downgrade file_handle) []) (omega arith)).0
