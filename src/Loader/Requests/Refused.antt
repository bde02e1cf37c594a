-- ===== src/Loader/Requests/Refused.antt =====
-- What a production that reads no content shows to the next request and to a retry of its key
-- (crates/assets/examples/file_loader/mod.rs, lines 226 to 243 and 350 to 434).
use fluxel_bases.Prelude.{
  ℕ, ◌+◌, ◌<◌, ◌≡◌, refl, ap, sym, ◌∙◌, Bool, true, false, Option, none, some, List, arith, u64_max,
  if◌then◌else◌,
}
use fluxel_bases.Error.{ok}
use fluxel_bases.Identity.{AssetHandle, handle_id, downgrade}
use fluxel_bases.State.{ProductionFailure}
use fluxel_bases.Production.{Acquire, ProducerPermit}
use fluxel_bases.Store.Begin.{acquire, retry}
use fluxel_bases.World.{World, Entry, Phase, ReadyValue}
use fluxel_bases.Store.{complete_at, put_entry}
use fluxel_bases.Store.Finish.{fail}
use fluxel_bases.Store.Permit.{settle, drop_permit, fail_permit}
use fluxel_bases.Store.Valid.{IsValid}
use fluxel_bases.Store.Flight.{Reaches}
use fluxel_bases.Store.Failing.{
  failed_entry, failed_world, failure_of, fail-ok, failed-Reaches, fail-acquire, found-id,
}
use fluxel_bases.Store.Retrying.{retry-failed}
use fluxel_bases.Loader.Failure.{LoadError, Load, loaded, refused}
use fluxel_bases.Loader.Key.{FileKey}
use fluxel_bases.Loader.Directory.{FileLoader, FileStore, lookup, in_store}
use fluxel_bases.Loader.Directory.Alive.{handle_for-alive}
use fluxel_bases.Loader.Producer.{
  Snapshot, Ending, end_with, with_store, FileProducer, fail_producer,
}
use fluxel_bases.Loader.Production.{FileSystem, produce_with, produce_leased, drop_lease}
use fluxel_bases.Loader.Requests.{FileRequest, request_of, acquire_file, handled, counted, request}
use fluxel_bases.Loader.Requests.Published.{leased}
use fluxel_bases.Loader.Production.Refuses.{Refuses, prepare-Refuses}

module _ {V E W : Type 0} where
  fail_permit-ok :
      (p : ProducerPermit) (error : E) (w u : World V E W) (f : ProductionFailure V E)
      → w.alive ≡ true
      → fail p.id p.attempt p.cell error w ≡ (ok f, u)
      → fail_permit p error w ≡ (ok f, u)
  unfolding fail_permit settle drop_permit
  fail_permit-ok p error w u f alive e = ground (arith, alive, e)

module _ {Kind Message W : Type 0} where
  -- The loader after the failure.
  abbrev failed_loader :
      FileLoader Kind Message W → FileStore Kind Message W → FileLoader Kind Message W
  failed_loader l u = end_with false Ending.failed (with_store u l)

  fail_producer-ok :
      (p : FileProducer) (permit : ProducerPermit) (error : LoadError Kind Message)
      (f : ProductionFailure (List ℕ) (LoadError Kind Message)) (l : FileLoader Kind Message W)
      (u : FileStore Kind Message W)
      → p.permit ≡ some permit
      → p.terminal ≡ false
      → fail_permit permit error l.store ≡ (ok f, u)
      → fail_producer p error l ≡ (refused error, failed_loader l u)
  unfolding fail_producer
  fail_producer-ok p permit error f l u given live e = rw (given, live, fail_producer, e) refl

  produce-refused :
      (usize_max : ℕ) (fs : FileSystem Kind Message) (error : LoadError Kind Message)
      (p : FileProducer) (l : FileLoader Kind Message W)
      {made : Load Kind Message Snapshot × FileLoader Kind Message W}
      → Refuses usize_max fs p.key error
      → fail_producer p error l ≡ made
      → produce_with usize_max fs none p l ≡ (made.0, none, made.1)
  unfolding produce_with produce_leased drop_lease
  produce-refused usize_max fs error p l refuses e =
      ap (leased p l) (prepare-Refuses usize_max fs p.key error refuses)
      ∙ ap (λ x. (x.0, none, x.1)) e

  acquire_file-answer :
      (key : FileKey) (is_retry : Bool) (h : AssetHandle) (l : FileLoader Kind Message W)
      (answer : Acquire (List ℕ) (LoadError Kind Message))
      → ((if is_retry then retry h else acquire h) l.store).0 ≡ ok answer
      → (acquire_file key h is_retry l).0 ≡ loaded (request_of key answer)
  unfolding acquire_file in_store
  acquire_file-answer key true h l answer e = rw e refl
  acquire_file-answer key false h l answer e = rw e refl

  -- What a request or a retry answers for a key whose identity is alive.
  request-acquires :
      (strong_count : ℕ → ℕ) (key : FileKey) (is_retry : Bool) (h : AssetHandle)
      (l : FileLoader Kind Message W) (entry : Entry (List ℕ) (LoadError Kind Message))
      (answer : Acquire (List ℕ) (LoadError Kind Message))
      → Reaches l.store h entry
      → l.directory_poisoned ≡ false
      → lookup key l.directory ≡ some (downgrade h)
      → 0 < strong_count h.token.addr
      → ((if is_retry then retry h else acquire h) l.store).0 ≡ ok answer
      → (request strong_count key is_retry l).0 ≡ loaded (request_of key answer)
  unfolding request
  request-acquires strong_count key is_retry h l entry answer reaches sound known alive e =
      ap (λ x. (handled key is_retry x).0)
        (handle_for-alive strong_count key h (counted l) entry reaches sound known alive)
      ∙ acquire_file-answer key is_retry h (counted l) answer e

  -- A production without a budget of a file that it cannot open, whose length it cannot read or hold,
  -- or of which a read fails, ends early or goes past that length; by the permit of the running attempt
  -- of a key's identity on a valid store, where the locks are good, the clock and the attempts have
  -- room, the attempt has no result yet and a handle lives. It returns the error of that way to end;
  -- the next request of the key is the failure of that attempt with that error, and a retry in its
  -- place is the producer of the key's next attempt.
  pub produce-Refuses :
      (usize_max : ℕ) (fs : FileSystem Kind Message) (strong_count : ℕ → ℕ) (key : FileKey)
      (error : LoadError Kind Message) (h : AssetHandle) (l : FileLoader Kind Message W)
      (entry : Entry (List ℕ) (LoadError Kind Message)) (attempt cell : ℕ)
      (previous : Option (ReadyValue (List ℕ)))
      → Refuses usize_max fs key error
      → IsValid l.store
      → Reaches l.store h entry
      → entry.phase ≡ Phase.producing attempt previous cell
      → l.store.touch + 1 < u64_max
      → entry.attempt_generation < u64_max
      → (l.store.cells cell).outcome ≡ none
      → l.store.alive ≡ true
      → l.directory_poisoned ≡ false
      → lookup key l.directory ≡ some (downgrade h)
      → 0 < strong_count h.token.addr
      → let p : FileProducer = record {
        key = key;
        permit =
            some (record { id = handle_id h; attempt = attempt; cell = cell; completed = false });
        terminal = false;
      } in
        let r = produce_with usize_max fs none p l in
        let next : ProducerPermit = record {
          id = handle_id h;
          attempt = entry.attempt_generation + 1;
          cell = l.store.next;
          completed = false;
        } in
        (r.0 ≡ refused error)
        × ((request strong_count key false r.2).0
            ≡ loaded (FileRequest.failed (failure_of h entry attempt error previous)))
        × ((request strong_count key true r.2).0
            ≡ loaded
                (FileRequest.producer (record { key = key; permit = some next; terminal = false })))
  unfolding complete_at put_entry
  produce-Refuses usize_max fs strong_count key error h l entry attempt cell previous refuses v
        reaches runs more room fresh alive sound known lives =
      let permit : ProducerPermit = record {
        id = handle_id h;
        attempt = attempt;
        cell = cell;
        completed = false;
      } in
      let p : FileProducer = record { key = key; permit = some permit; terminal = false } in
      let next : ProducerPermit = record {
        id = handle_id h;
        attempt = entry.attempt_generation + 1;
        cell = l.store.next;
        completed = false;
      } in
      let u = failed_world l.store h entry attempt cell error previous in
      let after = failed_loader l u in
      let failed = fail-ok l.store h entry attempt cell error previous reaches runs in
      let e = produce-refused usize_max fs error p l refuses (
        fail_producer-ok p permit error _ l u refl refl
          (fail_permit-ok permit error l.store u _ alive failed)) in
      let entry' = failed_entry (l.store.touch + 1) attempt error previous entry in
      let still = failed-Reaches l.store h entry attempt cell error previous reaches more in
      let (_, _, acquires, _) =
        fail-acquire l.store h entry attempt cell error previous v reaches runs more fresh in
      let (retries, _) = retry-failed u h entry' attempt error previous still refl room in
      (
        ap (λ x. x.0) e,
        ap (λ x. (request strong_count key false x.2).0) e
            ∙ request-acquires strong_count key false h after entry' _ still sound known lives
                (sym (ap (λ x. (acquire h x.1).0) failed) ∙ acquires),
        ap (λ x. (request strong_count key true x.2).0) e
            ∙ request-acquires strong_count key true h after entry' (Acquire.producer next) still
                sound known lives
                (retries
                  ∙ ap (λ id. ok (Acquire.producer (record next { id = id })))
                      (found-id l.store (handle_id h) entry v reaches.found)),
      )
