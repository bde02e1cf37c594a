-- ===== src/Loader/Program/Fetched.antt =====
-- What the program that loads one file ends with (crates/assets/examples/07_file_loader.rs).
use fluxel_bases.Prelude.{
  ℕ, ◌<◌, ◌≤◌, ◌≡◌, refl, ap, ◌∙◌, inl, Bool, true, false, Option, none, some, List, [], ◌∷◌, arith,
  length, u64_max, get_elem?,
}
use fluxel_bases.Error.{Result, ok}
use fluxel_bases.Production.{ProducerPermit, ProductionOutcome}
use fluxel_bases.World.{Heap}
use fluxel_bases.Cell.{complete, set_outcome, new_cell}
use fluxel_bases.Store.Permit.{set_cell}
use fluxel_bases.Store.{find_entry, put_entry, complete_at}
use fluxel_bases.Store.Finish.{previous_bytes, set_ready_bytes}
use fluxel_bases.Store.Publish.{IsCommittable, committed_world, commit-ok}
use fluxel_bases.Loader.Failure.{LoadError, Load, loaded, done}
use fluxel_bases.Loader.Key.{PathBuf, FileKey, raw, transformed, new_key}
use fluxel_bases.Loader.Directory.{FileLoader, FileStore}
use fluxel_bases.Loader.Producer.{Snapshot, with_store}
use fluxel_bases.Loader.Wait.{wait_for, Wait, BlockingPolicy, Round, waited}
use fluxel_bases.Loader.Wait.Wakes.{
  wait_loop-ready, wait_for-completed, polled_store, poll_waiter-pending,
}
use fluxel_bases.Loader.Requests.Published.{
  IsReadable, publish-ok, published_loader, commit_permit-ok,
}
use fluxel_bases.Loader.Program.{
  Schedule, before_wait, during_wait, System, five_seconds, worker, wait_out, delivered, time_up,
  measured, keyed, first_request, second_request, fetch, fetched_to, file_program,
}
use fluxel_bases.Loader.Program.Leased.{lone_budget, produce-leased}
use fluxel_bases.Loader.Program.Requests.{
  file_id, file_handle, file_waiter, file_producer, running, waiting_store, waiting_loader,
  request-first, request-second,
}

-- The time at which the production ends lies within that of the wait.
abbrev pub IsTimely : Schedule → Type 0
IsTimely before_wait = Unit {0}
IsTimely (during_wait elapsed) = elapsed < five_seconds

abbrev file_snapshot : List ℕ → Snapshot
file_snapshot bytes = record {
  handle = file_handle;
  generation = 1;
  value = bytes;
  bytes = length bytes;
}

module _ {Kind Message W : Type 0} where
  -- The store of the two requests, while that is its heap.
  abbrev store_with : Heap (List ℕ) (LoadError Kind Message) W → FileStore Kind Message W
  store_with heap = record waiting_store { heap = heap }

  abbrev loaded_store : List ℕ → FileStore Kind Message W → FileStore Kind Message W
  loaded_store bytes w =
      committed_world w file_handle (running 3) 1 bytes (length bytes) (length bytes)

  waiting-IsCommittable :
      (heap : Heap (List ℕ) (LoadError Kind Message) W) (n : ℕ)
      → n ≤ u64_max
      → IsCommittable (store_with heap) file_handle (running 3) 1 1 n n
  unfolding find_entry get_elem? previous_bytes
  waiting-IsCommittable heap n fits = record {
    reaches = record { sound = refl; more = omega arith; found = refl; same = refl };
    previous = none;
    runs = refl;
    room = omega arith;
    covered = omega arith;
    exchanged = omega arith;
    bounded = fits;
  }

module _ {Kind Message : Type 0} (system : System Kind Message) where
  -- A file that the worker can read at a path, within the bounds of the machine's words, with what the
  -- file system answers for the path of the argument.
  pub record IsLoadable (argument path : PathBuf) (content : system.files.Source → List ℕ)
      (source : system.files.Source) : Type 0 where
    pub keyed :
        new_key system.is_absolute system.current_dir system.drive_relative argument raw
        ≡ done (record { path = path; variant = raw })
    pub measured : system.metadata_length argument ≡ done (length (content source))
    pub readable :
        IsReadable system.usize_max system.files
          (record { path = path; variant = raw })
          content
          source
    pub fits : length (content source) ≤ u64_max
    pub room : 0 < system.usize_max

module _ {Kind Message W : Type 0} (will_wake : W → W → Bool) (is_own : W → Bool) (waker : W)
    (system : System Kind Message) (argument path : PathBuf)
    (content : system.files.Source → List ℕ) (source : system.files.Source)
    (f : IsLoadable system argument path content source) where
  worker-ends :
      (heap : Heap (List ℕ) (LoadError Kind Message) W)
      → let key : FileKey = record { path = path; variant = raw } in
        let bytes = content source in
        let l = with_store (store_with heap) (waiting_loader key) in
        worker system (file_producer key) (lone_budget (length bytes)) l
        ≡ (loaded (file_snapshot bytes), published_loader l (loaded_store bytes (store_with heap)))
  unfolding worker transformed
  worker-ends heap =
      let key : FileKey = record { path = path; variant = raw } in
      let bytes = content source in
      let n = length bytes in
      let l = with_store (store_with heap) (waiting_loader key) in
      let permit : ProducerPermit = record {
        id = file_id;
        attempt = 1;
        cell = 1;
        completed = false;
      } in
      let made =
        publish-ok (file_producer key) permit bytes _ l (loaded_store bytes (store_with heap)) refl
          refl
          (commit_permit-ok permit bytes n (store_with heap) _ _ refl (
            commit-ok (store_with heap) file_handle (running 3) 1 1 bytes n n
              (waiting-IsCommittable heap n f.fits))) in
      ap (λ x. (x.0, x.2))
        (produce-leased system.usize_max system.files content source (file_producer key) l
          f.readable f.fits f.room made)

  -- The wait over the loader of the two requests.
  abbrev outcome_of : Schedule → Option (List ℕ)
  outcome_of schedule =
      wait_out will_wake is_own waker system schedule
        (file_producer (record { path = path; variant = raw })) file_waiter
        (lone_budget (length (content source)))
        (waiting_loader (record { path = path; variant = raw }))

  -- The wait of those rounds, on the store.
  abbrev waits :
      List (Round (List ℕ) (LoadError Kind Message) W)
      → FileStore Kind Message W
      → Option
          (Wait (ProductionOutcome (List ℕ) (LoadError Kind Message)) × FileStore Kind Message W)
  waits rounds =
      wait_for will_wake is_own waker five_seconds BlockingPolicy.allow rounds file_waiter

  abbrev works : FileStore Kind Message W → Load Kind Message Snapshot × FileLoader Kind Message W
  works w =
      worker system (file_producer (record { path = path; variant = raw }))
        (lone_budget (length (content source)))
        (with_store w (waiting_loader (record { path = path; variant = raw })))

  abbrev file_ready : Result (ProductionOutcome (List ℕ) (LoadError Kind Message))
  file_ready = ok (ProductionOutcome.ready (file_snapshot (content source)))

  waits-loaded :
      waits (time_up ∷ []) (loaded_store (content source) waiting_store)
      ≡ some (
        waited file_ready,
        set_cell 1
            ((loaded_store (content source) waiting_store).cells 1)
            (loaded_store (content source) waiting_store),
      )
  unfolding wait_for complete_at complete set_outcome new_cell set_ready_bytes put_entry
  waits-loaded =
      wait_loop-ready will_wake is_own waker five_seconds (time_up ∷ []) file_waiter 0
        (loaded_store (content source) waiting_store) file_ready refl refl

  wait_out-early : outcome_of before_wait ≡ some (content source)
  unfolding wait_out
  wait_out-early =
      ap (λ x. delivered x.0 (waits (time_up ∷ []) x.1.store)) (worker-ends waiting_store.heap)
      ∙ ap (delivered (loaded (file_snapshot (content source)))) waits-loaded

  abbrev waiting_polled : FileStore Kind Message W
  waiting_polled =
      let store = waiting_store {Kind = Kind} {Message = Message} {W = W} in
      polled_store will_wake is_own waker five_seconds store.state file_waiter store

  abbrev worker_round : ℕ → Round (List ℕ) (LoadError Kind Message) W
  worker_round elapsed = record { elapsed = elapsed; meanwhile = λ w. (works w).1.store }

  waits-worker :
      (elapsed : ℕ)
      → elapsed < five_seconds
      → is_own waker ≡ true
      → ((v : W) → will_wake v waker ≡ true → is_own v ≡ true)
      → (after : FileStore Kind Message W) × (waits
            (worker_round elapsed ∷ time_up ∷ [])
            waiting_store
          ≡ some (waited file_ready, after))
  unfolding set_ready_bytes put_entry new_cell
  waits-worker elapsed early own stands =
      wait_for-completed will_wake is_own waker five_seconds (λ w. (works w).1.store) _ file_waiter
        waiting_store file_ready elapsed (time_up ∷ [])
        (ap (λ x. x.1.store) (worker-ends waiting_polled.heap)) refl refl (inl refl) own stands
        early

  wait_out-late :
      (elapsed : ℕ)
      → elapsed < five_seconds
      → is_own waker ≡ true
      → ((v : W) → will_wake v waker ≡ true → is_own v ≡ true)
      → outcome_of (during_wait elapsed) ≡ some (content source)
  unfolding wait_out new_cell
  wait_out-late elapsed early own stands =
      let rounds = worker_round elapsed ∷ time_up ∷ [] in
      let (_, ends) = waits-worker elapsed early own stands in
      ap (λ x. delivered (works x.1).0 (waits rounds waiting_store))
        (poll_waiter-pending will_wake is_own waker five_seconds file_waiter waiting_store refl
          refl)
      ∙ ap (λ x. delivered x.0 (waits rounds waiting_store)) (worker-ends waiting_polled.heap)
      ∙ ap (delivered (loaded (file_snapshot (content source)))) ends

  outcome_of-content :
      (schedule : Schedule)
      → IsTimely schedule
      → is_own waker ≡ true
      → ((v : W) → will_wake v waker ≡ true → is_own v ≡ true)
      → outcome_of schedule ≡ some (content source)
  outcome_of-content before_wait early own stands = wait_out-early
  outcome_of-content (during_wait elapsed) early own stands = wait_out-late elapsed early own stands

  fetch-content :
      (schedule : Schedule)
      → outcome_of schedule ≡ some (content source)
      → fetch will_wake is_own waker system schedule argument ≡ some (content source)
  unfolding fetch
  fetch-content schedule e =
      let key : FileKey = record { path = path; variant = raw } in
      let n = length (content source) in
      ap (measured will_wake is_own waker system schedule argument) f.measured
      ∙ ap (keyed will_wake is_own waker system schedule n) f.keyed
      ∙ ap (first_request will_wake is_own waker system schedule key (lone_budget n))
          (request-first key)
      ∙ ap
          (second_request will_wake is_own waker system schedule (file_producer key)
            (lone_budget n))
          (request-second key)
      ∙ e

module _ {Kind Message W : Type 0} (will_wake : W → W → Bool) (is_own : W → Bool) (waker : W)
    (system : System Kind Message) where
  -- The program on a file that it can read and whose production ends before the time of the wait is
  -- up, before the wait or while it blocks: it panics nowhere, and what it loads through the store is
  -- the file's content, to write where a second argument says and nowhere without one. The length of
  -- the file is the one that was read before, the content fits the machine's words, and a waker that
  -- stands for the wait's own sends to its channel too.
  pub file_program-content :
      (schedule : Schedule) (argument path output : PathBuf)
      (content : system.files.Source → List ℕ) (source : system.files.Source)
      → IsLoadable system argument path content source
      → IsTimely schedule
      → is_own waker ≡ true
      → ((v : W) → will_wake v waker ≡ true → is_own v ≡ true)
      → (file_program will_wake is_own waker system schedule (argument ∷ [])
          ≡ some (content source, none))
        × (file_program will_wake is_own waker system schedule (argument ∷ output ∷ [])
            ≡ some (content source, some output))
  unfolding file_program
  file_program-content schedule argument path output content source f early own stands =
      let e = fetch-content will_wake is_own waker system argument path content source f schedule (
        outcome_of-content will_wake is_own waker system argument path content source f schedule
          early own stands) in
      (ap (fetched_to none) e, ap (fetched_to (some output)) e)
