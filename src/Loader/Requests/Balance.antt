-- ===== src/Loader/Requests/Balance.antt =====
-- The counters of a loader account for every producer that it gave out
-- (crates/assets/examples/file_loader/mod.rs, lines 159 to 455).
use fluxel_bases.Prelude.{
  ℕ, zero, suc, ◌+◌, ◌≡◌, refl, sym, subst, Bool, false, Option, none, some, List, [], ◌∷◌, arith,
  length, get_elem?, remove_at, All, length-remove_at, if◌then◌else◌,
}
use fluxel_bases.Identity.{AssetHandle, AssetWeak}
use fluxel_bases.Production.{Acquire}
use fluxel_bases.Store.Begin
use fluxel_bases.Store.Begin.{create, upgrade}
use fluxel_bases.Loader.Failure.{LoadError, Load, loaded, refused, panics}
use fluxel_bases.Loader.Key.{FileKey}
use fluxel_bases.Loader.Metrics.{LoadStats, wrap64}
use fluxel_bases.Loader.Directory.{
  FileLoader, new_loader, in_store, lookup, create_for, handle_known, handle_for, forget_known,
  forget,
}
use fluxel_bases.Loader.Producer.{FileProducer, drop_producer}
use fluxel_bases.Loader.Producer.Balance.{ends, HasEnded, drop_producer-HasEnded}
use fluxel_bases.Loader.Production.{produce_with}
use fluxel_bases.Loader.Production.Release.{produce_with-HasEnded}
use fluxel_bases.Loader.Requests.{
  acquired, acquire_file, handled, counted, request, Session, LoaderCall, requests, produces,
  drops_producer, forgets, add_live, end_live, session_step, session_run,
}

-- The producers that were counted are those that have ended, each once, and those that are alive.
pub record Accounts (m : LoadStats) (live : List FileProducer) : Type 0 where
  pub in_flight : m.producers_in_flight ≡ wrap64 (length live)
  pub given_out : m.producers ≡ wrap64 (ends m + length live)
  pub unended : All (λ p. p.terminal ≡ false) live

remove_at-unended :
    (live : List FileProducer) (i : ℕ) (p : FileProducer)
    → get_elem? live i ≡ some p
    → All (λ q. q.terminal ≡ false) live
    → (p.terminal ≡ false) × All (λ q. q.terminal ≡ false) (remove_at live i)
unfolding get_elem? remove_at
remove_at-unended [] i p at h = absurd (cc)
remove_at-unended (x ∷ live) zero p at h = (ground (arith, h.0), h.1)
remove_at-unended (x ∷ live) (suc i) p at (q, h) =
    let (e, rest) = remove_at-unended live i p at h in (e, (q, rest))

module _ {Kind Message W : Type 0} where
  abbrev pub IsBalanced : Session Kind Message W → Type 0
  IsBalanced s = Accounts s.loader.metrics s.live

  create_for-metrics :
      (key : FileKey) (l : FileLoader Kind Message W) → (create_for key l).1.metrics ≡ l.metrics
  unfolding create_for in_store
  create_for-metrics key l = ground arith

  handle_known-metrics :
      (strong_count : ℕ → ℕ) (key : FileKey) (known : Option AssetWeak)
      (l : FileLoader Kind Message W)
      → (handle_known strong_count key known l).1.metrics ≡ l.metrics
  unfolding handle_known in_store
  handle_known-metrics strong_count key none l = create_for-metrics key l
  handle_known-metrics strong_count key (some weak) l =
      ground (arith, create_for-metrics key (in_store (upgrade strong_count weak) l).1)

  handle_for-metrics :
      (strong_count : ℕ → ℕ) (key : FileKey) (l : FileLoader Kind Message W)
      → (handle_for strong_count key l).1.metrics ≡ l.metrics
  unfolding handle_for
  handle_for-metrics strong_count key l =
      ground (arith, handle_known-metrics strong_count key (lookup key l.directory) l)

  forget_known-metrics :
      (strong_count : ℕ → ℕ) (key : FileKey) (known : Option AssetWeak)
      (l : FileLoader Kind Message W)
      → (forget_known strong_count key known l).1.metrics ≡ l.metrics
  unfolding in_store
  forget_known-metrics strong_count key none l = refl
  forget_known-metrics strong_count key (some weak) l = ground arith

  forget-metrics :
      (strong_count : ℕ → ℕ) (key : FileKey) (l : FileLoader Kind Message W)
      → (forget strong_count key l).1.metrics ≡ l.metrics
  unfolding forget
  forget-metrics strong_count key l =
      ground (arith, forget_known-metrics strong_count key (lookup key l.directory) l)

  -- An acquisition counts a producer where it gives one out.
  acquired-IsBalanced :
      (key : FileKey) (out : Load Kind Message (Acquire (List ℕ) (LoadError Kind Message)))
      (l : FileLoader Kind Message W) (live : List FileProducer)
      → Accounts l.metrics live
      → let r = acquired key out l in IsBalanced (add_live r.0 r.1 live)
  acquired-IsBalanced key (loaded (Acquire.ready s)) l live h = ground arith
  acquired-IsBalanced key (loaded (Acquire.producer p)) l live h = record {
    in_flight = omega (arith, h.in_flight);
    given_out = omega (arith, h.given_out);
    unended = (refl, h.unended);
  }
  acquired-IsBalanced key (loaded (Acquire.waiter p)) l live h = ground arith
  acquired-IsBalanced key (loaded (Acquire.failed e)) l live h = ground arith
  acquired-IsBalanced key (refused e) l live h = h
  acquired-IsBalanced key panics l live h = h

  handled-IsBalanced :
      (key : FileKey) (is_retry : Bool) (out : Load Kind Message AssetHandle)
      (l : FileLoader Kind Message W) (live : List FileProducer)
      → Accounts l.metrics live
      → let r = handled key is_retry (out, l) in IsBalanced (add_live r.0 r.1 live)
  unfolding acquire_file in_store
  handled-IsBalanced key is_retry (loaded handle) l live h =
      let r = in_store (if is_retry then Begin.retry handle else Begin.acquire handle) l in
      acquired-IsBalanced key r.0 r.1 live h
  handled-IsBalanced key is_retry (refused e) l live h = h
  handled-IsBalanced key is_retry panics l live h = h

  request-IsBalanced :
      (strong_count : ℕ → ℕ) (key : FileKey) (is_retry : Bool) (l : FileLoader Kind Message W)
      (live : List FileProducer)
      → Accounts l.metrics live
      → let r = request strong_count key is_retry l in IsBalanced (add_live r.0 r.1 live)
  unfolding request
  request-IsBalanced strong_count key is_retry l live h =
      let r = handle_for strong_count key (counted l) in
      handled-IsBalanced key is_retry r.0 r.1 live (
        subst (λ m. Accounts m live) (sym (handle_for-metrics strong_count key (counted l)))
          (record { in_flight = h.in_flight; given_out = h.given_out; unended = h.unended }))

  end_live-IsBalanced :
      (ending : FileProducer → FileLoader Kind Message W → FileLoader Kind Message W) (i : ℕ)
      (o : Option FileProducer) (s : Session Kind Message W)
      → ((p : FileProducer) (l : FileLoader Kind Message W)
          → p.terminal ≡ false
          → HasEnded l.metrics (ending p l).metrics)
      → get_elem? s.live i ≡ o
      → IsBalanced s
      → IsBalanced (end_live ending i o s)
  end_live-IsBalanced ending i none s ended at h = h
  end_live-IsBalanced ending i (some p) s ended at h =
      let (open_, rest) = remove_at-unended s.live i p at h.unended in
      let e = ended p s.loader open_ in
      let fewer = length-remove_at s.live i p at in
      record {
        in_flight = omega (arith, h.in_flight, e.in_flight, fewer);
        given_out = omega (arith, h.given_out, e.same_producers, e.ended, fewer);
        unended = rest;
      }

  session_step-IsBalanced :
      (c : LoaderCall Kind Message) (s : Session Kind Message W)
      → IsBalanced s
      → IsBalanced (session_step c s)
  unfolding session_step
  session_step-IsBalanced (requests strong_count key is_retry) s h =
      request-IsBalanced strong_count key is_retry s.loader s.live h
  session_step-IsBalanced (produces usize_max fs budget i) s h =
      end_live-IsBalanced (λ p l. (produce_with usize_max fs budget p l).2) i (get_elem? s.live i) s
        (λ p l e. produce_with-HasEnded usize_max fs budget p l e) refl h
  session_step-IsBalanced (drops_producer i) s h =
      end_live-IsBalanced drop_producer i (get_elem? s.live i) s
        (λ p l e. drop_producer-HasEnded p l e) refl h
  session_step-IsBalanced (forgets strong_count key) s h =
      subst (λ m. Accounts m s.live) (sym (forget-metrics strong_count key s.loader)) h

  run_from-IsBalanced :
      (cs : List (LoaderCall Kind Message)) (s : Session Kind Message W)
      → IsBalanced s
      → IsBalanced (session_run cs s)
  unfolding session_run
  run_from-IsBalanced [] s h = h
  run_from-IsBalanced (c ∷ cs) s h =
      run_from-IsBalanced cs (session_step c s) (session_step-IsBalanced c s h)

module _ {Kind Message : Type 0} (W : Type 0) where
  -- After any calls on a new loader, with any files, budgets and owner counts, the producers in flight
  -- are those that were given out and have not ended, and the producers given out are these with the
  -- successes, the failures and the cancellations, as 64-bit counters.
  pub session_run-IsBalanced :
      (id : ℕ) (cs : List (LoaderCall Kind Message))
      → IsBalanced {W = W} (session_run cs (record { loader = new_loader id; live = [] }))
  unfolding new_loader
  session_run-IsBalanced id cs =
      run_from-IsBalanced cs _ (record { in_flight = refl; given_out = refl; unended = tt })
