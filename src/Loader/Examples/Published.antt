-- ===== src/Loader/Examples/Published.antt =====
-- A loader in which the first attempt of a file runs, at which the properties of productions and of
-- joined requests are applied.
use fluxel_bases.Prelude.{
  ℕ, ◌≡◌, refl, true, false, none, some, List, [], ◌∷◌, arith, get_elem?, set, checked_add,
}
use fluxel_bases.Identity.{IdentityToken, AssetHandle, downgrade}
use fluxel_bases.Production.{ProductionWaiter}
use fluxel_bases.Cell.{new_cell, register}
use fluxel_bases.World.{World, Entry, Phase}
use fluxel_bases.Store.{find_entry, put_entry, waiter}
use fluxel_bases.Store.Finish.{previous_bytes}
use fluxel_bases.Store.Flight.{Reaches, touched_world}
use fluxel_bases.Store.Publish.{IsCommittable}
use fluxel_bases.Loader.Failure.{LoadError, loaded}
use fluxel_bases.Loader.Key.{transformed}
use fluxel_bases.Loader.Metrics.{no_loads}
use fluxel_bases.Loader.Directory.{FileLoader, lookup}
use fluxel_bases.Loader.Directory.Lookup.{same_key_iff}
use fluxel_bases.Loader.Producer.{Snapshot}
use fluxel_bases.Loader.Production.{produce_with}
use fluxel_bases.Loader.Requests.{FileRequest, request, counted}
use fluxel_bases.Loader.Requests.Published.{IsReadable, produce-request}
use fluxel_bases.Loader.Requests.Joined.{joined_loader, request-joins}
use fluxel_bases.Loader.Examples.{one_key, one_file, whole, read_one-Reads}

abbrev one_token : IdentityToken
one_token = record { addr = 0; id = record { store = 7; slot = 0; generation = 1 } }

abbrev one_handle : AssetHandle
one_handle = record { token = one_token }

-- The first attempt of a file runs.
abbrev one_entry : Entry (List ℕ) (LoadError ℕ ℕ)
one_entry = record {
  token = one_token;
  phase = Phase.producing 1 none 1;
  content_generation = 0;
  attempt_generation = 1;
  last_touch = 2;
}

abbrev one_loader : FileLoader ℕ ℕ ℕ
one_loader = record {
  store = record {
    id = 7;
    alive = true;
    poisoned = false;
    state = record {
      slots = record { generation = 1; entry = some one_entry } ∷ [];
      free = [];
      ready_bytes = 0;
      touch = 2;
    };
    heap = record { next = 2; cells = λ _. new_cell; woken = [] };
  };
  directory = (one_key, downgrade one_handle) ∷ [];
  directory_poisoned = false;
  metrics = record no_loads { requests = 1; producers = 1; producers_in_flight = 1 };
}

one_Reaches : Reaches one_loader.store one_handle one_entry
unfolding find_entry get_elem?
one_Reaches = record { sound = refl; more = omega arith; found = refl; same = refl }

one_known : lookup one_key one_loader.directory ≡ some (downgrade one_handle)
unfolding lookup downgrade
one_known = rw ((same_key_iff one_key one_key).1 refl, lookup) refl

one_IsCommittable : IsCommittable one_loader.store one_handle one_entry 1 1 2 2
unfolding previous_bytes
one_IsCommittable = record {
  reaches = one_Reaches;
  previous = none;
  runs = refl;
  room = omega arith;
  covered = omega arith;
  exchanged = refl;
  bounded = omega arith;
}

one_IsReadable : IsReadable 8 one_file one_key whole (b'h' ∷ b'i' ∷ [])
one_IsReadable = record {
  opens = refl;
  measures = refl;
  fits = omega arith;
  reads = read_one-Reads;
}

abbrev one_snapshot : Snapshot
one_snapshot = record { handle = one_handle; generation = 1; value = b'H' ∷ b'I' ∷ []; bytes = 2 }

produce-request_example :
    let r =
      produce_with 8 one_file none
        (record {
          key = one_key;
          permit = some (record { id = one_token.id; attempt = 1; cell = 1; completed = false });
          terminal = false;
        })
        one_loader in
    (r.0 ≡ loaded one_snapshot)
    × ((request (λ _. 1) one_key false r.2).0 ≡ loaded (FileRequest.ready one_snapshot))
unfolding transformed
produce-request_example =
    produce-request 8 one_file (λ _. 1) one_key whole (b'h' ∷ b'i' ∷ []) one_handle one_loader
      one_entry 1 1 2 one_IsReadable one_IsCommittable (omega arith) refl refl one_known
      (omega arith)

abbrev one_waiter : ProductionWaiter
one_waiter = record { id = one_token.id; attempt = 1; cell = 1; key = 1 }

abbrev waiting_store : World (List ℕ) (LoadError ℕ ℕ) ℕ
unfolding waiter register put_entry set checked_add new_cell
waiting_store = (waiter one_token.id 1 1 (touched_world one_loader.store one_handle one_entry)).1

request-joins_example :
    (request (λ _. 1) one_key true one_loader
      ≡ (loaded (FileRequest.waiting one_waiter), joined_loader waiting_store (counted one_loader)))
    × (one_waiter.attempt ≡ 1)
    × (one_waiter.cell ≡ 1)
unfolding waiter register put_entry set checked_add new_cell
request-joins_example =
    request-joins (λ _. 1) one_key true one_handle one_loader one_entry 1 1 none one_waiter
      waiting_store one_Reaches refl refl refl one_known (omega arith)
