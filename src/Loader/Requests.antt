-- ===== src/Loader/Requests.antt =====
-- crates/assets/examples/file_loader/mod.rs, lines 226 to 238 and 279 to 325: requests, and the calls of
-- a loader's clients in any order.
pub mod Balance
pub mod Published
pub mod Joined
pub mod Fresh
pub mod Refused
mod Examples
use fluxel_bases.Prelude.{
  ℕ, Bool, true, false, Option, none, some, List, [], ◌∷◌, get_elem?, remove_at, if◌then◌else◌,
}
use fluxel_bases.Identity.{AssetHandle}
use fluxel_bases.Production.{ProductionWaiter, Acquire}
use fluxel_bases.State.{ProductionFailure}
use fluxel_bases.Store.Begin
use fluxel_bases.Loader.Failure.{LoadError, Load, loaded, refused, panics}
use fluxel_bases.Loader.Budget.{InFlightBudget}
use fluxel_bases.Loader.Key.{FileKey}
use fluxel_bases.Loader.Metrics.{LoadStats, inc}
use fluxel_bases.Loader.Directory.{FileLoader, in_store, handle_for, forget}
use fluxel_bases.Loader.Producer.{Snapshot, FileProducer, drop_producer}
use fluxel_bases.Loader.Production.{FileSystem, produce_with}

pub data FileRequest (Kind Message : Type 0) : Type 0 where
  ready : Snapshot → FileRequest Kind Message
  producer : FileProducer → FileRequest Kind Message
  waiting : ProductionWaiter → FileRequest Kind Message
  failed : ProductionFailure (List ℕ) (LoadError Kind Message) → FileRequest Kind Message

module _ {Kind Message : Type 0} where
  -- The request that an acquisition makes, and its counters.
  abbrev pub request_of :
      FileKey → Acquire (List ℕ) (LoadError Kind Message) → FileRequest Kind Message
  request_of key (Acquire.ready snapshot) = FileRequest.ready snapshot
  request_of key (Acquire.producer permit) =
      FileRequest.producer (record { key = key; permit = some permit; terminal = false })
  request_of key (Acquire.waiter waiter) = FileRequest.waiting waiter
  request_of key (Acquire.failed failure) = FileRequest.failed failure

  abbrev pub count_request : Acquire (List ℕ) (LoadError Kind Message) → LoadStats → LoadStats
  count_request (Acquire.ready _) m = record m { ready_hits = inc m.ready_hits }
  count_request (Acquire.producer _) m = record m {
    producers = inc m.producers;
    producers_in_flight = inc m.producers_in_flight;
  }
  count_request (Acquire.waiter _) m = record m { joined_waiters = inc m.joined_waiters }
  count_request (Acquire.failed _) m = record m { failed_requests = inc m.failed_requests }

module _ {Kind Message W : Type 0} where
  abbrev pub acquired :
      FileKey
      → Load Kind Message (Acquire (List ℕ) (LoadError Kind Message))
      → FileLoader Kind Message W
      → Load Kind Message (FileRequest Kind Message) × FileLoader Kind Message W
  acquired key (loaded a) l =
      (loaded (request_of key a), record l { metrics = count_request a l.metrics })
  acquired key (refused e) l = (refused e, l)
  acquired key panics l = (panics, l)

  -- `FileLoader::acquire`
  unfoldable pub acquire_file :
      FileKey
      → AssetHandle
      → Bool
      → FileLoader Kind Message W
      → Load Kind Message (FileRequest Kind Message) × FileLoader Kind Message W
  unfolding in_store Begin.acquire Begin.retry
  acquire_file key handle is_retry l =
      let (out, l') = in_store (if is_retry then Begin.retry handle else Begin.acquire handle) l in
      acquired key out l'

  abbrev pub handled :
      FileKey
      → Bool
      → Load Kind Message AssetHandle × FileLoader Kind Message W
      → Load Kind Message (FileRequest Kind Message) × FileLoader Kind Message W
  handled key is_retry (loaded handle, l) = acquire_file key handle is_retry l
  handled key is_retry (refused e, l) = (refused e, l)
  handled key is_retry (panics, l) = (panics, l)

  abbrev pub counted : FileLoader Kind Message W → FileLoader Kind Message W
  counted l = record l { metrics = record l.metrics { requests = inc l.metrics.requests } }

  -- `FileLoader::request`, and `FileLoader::retry` where `is_retry`.
  unfoldable pub request :
      (ℕ → ℕ)
      → FileKey
      → Bool
      → FileLoader Kind Message W
      → Load Kind Message (FileRequest Kind Message) × FileLoader Kind Message W
  unfolding handle_for acquire_file
  request strong_count key is_retry l =
      handled key is_retry (handle_for strong_count key (counted l))

  -- `FileLoader::stats`
  abbrev pub stats : FileLoader Kind Message W → LoadStats
  stats l = l.metrics

-- A loader with the producers that it gave out and that have not ended.
pub record Session (Kind Message W : Type 0) : Type 0 where
  pub loader : FileLoader Kind Message W
  pub live : List FileProducer

-- A producer is named by its place among those that have not ended.
pub data LoaderCall (Kind Message : Type 0) : Type 1 where
  requests : (strong_count : ℕ → ℕ) → FileKey → (is_retry : Bool) → LoaderCall Kind Message
  produces :
      (usize_max : ℕ)
      → FileSystem Kind Message
      → Option InFlightBudget
      → (i : ℕ) → LoaderCall Kind Message
  drops_producer : (i : ℕ) → LoaderCall Kind Message
  forgets : (strong_count : ℕ → ℕ) → FileKey → LoaderCall Kind Message

module _ {Kind Message W : Type 0} where
  abbrev pub add_live :
      Load Kind Message (FileRequest Kind Message)
      → FileLoader Kind Message W
      → List FileProducer
      → Session Kind Message W
  add_live (loaded (FileRequest.producer p)) l live = record { loader = l; live = p ∷ live }
  add_live _ l live = record { loader = l; live = live }

  abbrev pub end_live :
      (FileProducer → FileLoader Kind Message W → FileLoader Kind Message W)
      → ℕ
      → Option FileProducer
      → Session Kind Message W
      → Session Kind Message W
  end_live ending i none s = s
  end_live ending i (some p) s = record { loader = ending p s.loader; live = remove_at s.live i }

  unfoldable pub session_step :
      LoaderCall Kind Message → Session Kind Message W → Session Kind Message W
  unfolding request produce_with drop_producer forget
  session_step (requests strong_count key is_retry) s =
      let (out, l) = request strong_count key is_retry s.loader in add_live out l s.live
  session_step (produces usize_max fs budget i) s =
      end_live (λ p l. (produce_with usize_max fs budget p l).2) i (get_elem? s.live i) s
  session_step (drops_producer i) s = end_live drop_producer i (get_elem? s.live i) s
  session_step (forgets strong_count key) s = record s {
    loader = (forget strong_count key s.loader).1;
  }

  unfoldable pub session_run :
      List (LoaderCall Kind Message) → Session Kind Message W → Session Kind Message W
  unfolding session_step
  session_run [] s = s
  session_run (c ∷ cs) s = session_run cs (session_step c s)
