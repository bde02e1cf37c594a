-- ===== src/Loader/Requests/Joined.antt =====
-- A request of a key that is being produced (crates/assets/examples/file_loader/mod.rs, lines 226 to
-- 318).
use fluxel_bases.Prelude.{ℕ, ◌<◌, ◌≡◌, ap, ◌∙◌, Bool, true, false, Option, some, List}
use fluxel_bases.Error.{Result, ok}
use fluxel_bases.Identity.{AssetHandle, downgrade}
use fluxel_bases.Production.{Acquire}
use fluxel_bases.World.{Entry, Phase, ReadyValue}
use fluxel_bases.Store.Begin.{acquire}
use fluxel_bases.Store.Flight.{Reaches}
use fluxel_bases.Loader.Failure.{LoadError, Load, loaded}
use fluxel_bases.Loader.Key.{FileKey}
use fluxel_bases.Loader.Metrics.{inc}
use fluxel_bases.Loader.Directory.{FileLoader, FileStore, lookup, from_core, in_store}
use fluxel_bases.Loader.Producer.{with_store}
use fluxel_bases.Loader.Requests.{FileRequest, acquired, acquire_file, handled, counted, request}
use fluxel_bases.Loader.Directory.Alive.{handle_for-alive}
use fluxel_bases.Production.{ProductionWaiter}
use fluxel_bases.Store.{waiter}
use fluxel_bases.Store.Flight.{touched_world, single_flight}
use fluxel_bases.Store.Begin.{retry}

module _ {Kind Message W : Type 0} where
  -- `FileLoader::acquire`, past the store's answer.
  abbrev pub acquires :
      FileKey
      → FileLoader Kind Message W
      → Result (Acquire (List ℕ) (LoadError Kind Message)) × FileStore Kind Message W
      → Load Kind Message (FileRequest Kind Message) × FileLoader Kind Message W
  acquires key l (out, u) = acquired key (from_core out) (with_store u l)

  abbrev pub joined_loader :
      FileStore Kind Message W → FileLoader Kind Message W → FileLoader Kind Message W
  joined_loader u l = record l {
    store = u;
    metrics = record l.metrics { joined_waiters = inc l.metrics.joined_waiters };
  }

  acquire_file-joins :
      (key : FileKey) (is_retry : Bool) (h : AssetHandle) (l : FileLoader Kind Message W)
      (p : ProductionWaiter) (u : FileStore Kind Message W)
      → acquire h l.store ≡ (ok (Acquire.waiter p), u)
      → retry h l.store ≡ (ok (Acquire.waiter p), u)
      → acquire_file key h is_retry l ≡ (loaded (FileRequest.waiting p), joined_loader u l)
  unfolding acquire_file in_store
  acquire_file-joins key true h l p u a r = ap (acquires key l) r
  acquire_file-joins key false h l p u a r = ap (acquires key l) a

  -- A request or a retry of a key whose identity is alive, while its attempt runs, in a loader whose
  -- directory, store and clock are good: it waits for that attempt, where a waiter can be registered,
  -- and makes no producer; the directory stays, and of the counters only those of the requests and
  -- of the joined waiters grow.
  pub request-joins :
      (strong_count : ℕ → ℕ) (key : FileKey) (is_retry : Bool) (h : AssetHandle)
      (l : FileLoader Kind Message W) (entry : Entry (List ℕ) (LoadError Kind Message))
      (attempt cell : ℕ) (previous : Option (ReadyValue (List ℕ))) (p : ProductionWaiter)
      (u : FileStore Kind Message W)
      → Reaches l.store h entry
      → entry.phase ≡ Phase.producing attempt previous cell
      → waiter entry.token.id attempt cell (touched_world l.store h entry) ≡ (ok p, u)
      → l.directory_poisoned ≡ false
      → lookup key l.directory ≡ some (downgrade h)
      → 0 < strong_count h.token.addr
      → (request strong_count key is_retry l
          ≡ (loaded (FileRequest.waiting p), joined_loader u (counted l)))
        × (p.attempt ≡ attempt)
        × (p.cell ≡ cell)
  unfolding request
  request-joins strong_count key is_retry h l entry attempt cell previous p u reaches runs made
        sound known alive =
      let (acquires, retries, _, same_attempt, same_cell, _) =
        single_flight l.store h entry attempt cell previous p u reaches runs made in
      (
        ap (handled key is_retry)
              (handle_for-alive strong_count key h (counted l) entry reaches sound known alive)
            ∙ acquire_file-joins key is_retry h (counted l) p u acquires retries,
        same_attempt,
        same_cell,
      )
