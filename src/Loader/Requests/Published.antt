-- ===== src/Loader/Requests/Published.antt =====
-- What a production shows to the next request of its key (crates/assets/examples/file_loader/mod.rs,
-- lines 226 to 318 and 387 to 411).
use fluxel_bases.Loader.Directory.Alive.{handle_for-alive}
use fluxel_bases.Prelude.{
  ℕ, ◌+◌, ◌<◌, ◌≡◌, refl, ap, ◌∙◌, true, false, Option, none, some, List, arith, length, u64_max,
}
use fluxel_bases.Error.{ok}
use fluxel_bases.Identity.{AssetHandle, handle_id, downgrade}
use fluxel_bases.State.{AssetSnapshot}
use fluxel_bases.Production.{ProducerPermit}
use fluxel_bases.World.{World, Entry, Phase, ReadyValue}
use fluxel_bases.Store.{snapshot}
use fluxel_bases.Store.Finish.{commit}
use fluxel_bases.Store.Permit.{settle, drop_permit, commit_permit}
use fluxel_bases.Store.Flight.{Reaches}
use fluxel_bases.Store.Publish.{
  IsCommittable, published, committed, committed_world, commit-ok, committed-Reaches, acquire-ready,
}
use fluxel_bases.Loader.Failure.{LoadError, Load, loaded}
use fluxel_bases.Loader.Key.{FileKey}
use fluxel_bases.Loader.Directory.{FileLoader, FileStore, lookup, in_store}
use fluxel_bases.Loader.Failure.{done}
use fluxel_bases.Loader.Key.{transformed}
use fluxel_bases.Loader.Reading.Exact.{Reads, verdict, read_exact}
use fluxel_bases.Loader.Production.{
  or_panic, with_rejection, FileSystem, Prepared, prepare, read_source, transformed_read,
  produce_with, produce_leased, finish, drop_lease,
}
use fluxel_bases.Prelude.{◌≤◌, ==_refl, try_from}
use fluxel_bases.Loader.Budget.{InFlightBudget}
use fluxel_bases.Loader.Producer.{Snapshot, Ending, end_with, with_store, FileProducer, publish}
use fluxel_bases.Loader.Requests.{FileRequest, acquire_file, handled, counted, request}

module _ {V E W : Type 0} where
  -- A permit that ended its attempt cancels nothing when it is dropped.
  pub commit_permit-ok :
      (p : ProducerPermit) (value : V) (bytes : ℕ) (w u : World V E W) (s : AssetSnapshot V)
      → w.alive ≡ true
      → commit p.id p.attempt p.cell value bytes w ≡ (ok s, u)
      → commit_permit p value bytes w ≡ (ok s, u)
  unfolding commit_permit settle drop_permit
  commit_permit-ok p value bytes w u s alive e = ground (arith, alive, e)

pub try_from-fits : (limit n : ℕ) → n ≤ limit → try_from limit n ≡ some n
unfolding try_from
try_from-fits limit n le = ground arith

verdict-same :
    {Kind Message : Type 0}
    → (bytes : List ℕ)
    → verdict {Kind = Kind} {Message = Message} (length bytes) bytes ≡ loaded bytes
verdict-same bytes = rw (==_refl (length bytes)) refl

module _ {Kind Message : Type 0} (usize_max : ℕ) (fs : FileSystem Kind Message) where
  -- A file that opens, does not fail, and holds its content in the length of its metadata.
  pub record IsReadable (key : FileKey) (content : fs.Source → List ℕ) (source : fs.Source)
      : Type 0 where
    pub opens : fs.open_file key.path ≡ done source
    pub measures : fs.source_length source ≡ done (length (content source))
    pub fits : length (content source) ≤ usize_max
    pub reads : (n : ℕ) (s : fs.Source) → Reads fs.read content n s

  pub read_source-content :
      (key : FileKey) (content : fs.Source → List ℕ) (source : fs.Source)
      → IsReadable key content source
      → read_source usize_max fs key source (length (content source))
        ≡ loaded (transformed key.variant (content source))
  unfolding read_source
  read_source-content key content source f =
      let n = length (content source) in
      let (after, e) = read_exact fs.read content f.reads n source in
      rw (try_from-fits usize_max n f.fits, read_source)
        (ap (transformed_read usize_max fs key)
          (e ∙ ap (λ out. some (out, after)) (verdict-same (content source))))

  prepare-content :
      (key : FileKey) (content : fs.Source → List ℕ) (source : fs.Source)
      → IsReadable key content source
      → prepare usize_max fs key none ≡ record {
        outcome = loaded (transformed key.variant (content source));
        lease = none;
        is_rejected = false;
      }
  unfolding prepare
  prepare-content key content source f =
      rw (f.opens, f.measures, read_source-content key content source f, prepare) refl

module _ {Kind Message W : Type 0} where
  -- The loader after the publication.
  abbrev pub published_loader :
      FileLoader Kind Message W → FileStore Kind Message W → FileLoader Kind Message W
  published_loader l u = end_with false Ending.succeeded (with_store u l)

  pub publish-ok :
      (p : FileProducer) (permit : ProducerPermit) (bytes : List ℕ) (s : Snapshot)
      (l : FileLoader Kind Message W) (u : FileStore Kind Message W)
      → p.permit ≡ some permit
      → p.terminal ≡ false
      → commit_permit permit bytes (length bytes) l.store ≡ (ok s, u)
      → publish p bytes (some tt) l ≡ (loaded s, published_loader l u)
  unfolding publish
  publish-ok p permit bytes s l u given live e = rw (given, live, publish, e) refl

  acquire_file-ready :
      (key : FileKey) (h : AssetHandle) (l : FileLoader Kind Message W)
      (entry : Entry (List ℕ) (LoadError Kind Message)) (r : ReadyValue (List ℕ))
      → Reaches l.store h entry
      → entry.phase ≡ Phase.ready r
      → (acquire_file key h false l).0 ≡ loaded (FileRequest.ready (snapshot entry r))
  unfolding acquire_file in_store
  acquire_file-ready key h l entry r reaches ready =
      rw (acquire-ready l.store h entry r ready reaches) refl

  request-ready :
      (strong_count : ℕ → ℕ) (key : FileKey) (h : AssetHandle) (l : FileLoader Kind Message W)
      (entry : Entry (List ℕ) (LoadError Kind Message)) (r : ReadyValue (List ℕ))
      → Reaches l.store h entry
      → entry.phase ≡ Phase.ready r
      → l.directory_poisoned ≡ false
      → lookup key l.directory ≡ some (downgrade h)
      → 0 < strong_count h.token.addr
      → (request strong_count key false l).0 ≡ loaded (FileRequest.ready (snapshot entry r))
  unfolding request
  request-ready strong_count key h l entry r reaches ready sound known alive =
      ap (λ x. (handled key false x).0)
        (handle_for-alive strong_count key h (counted l) entry reaches sound known alive)
      ∙ acquire_file-ready key h (counted l) entry r reaches ready

  -- `produce_leased`, past its preparation.
  abbrev pub leased :
      FileProducer
      → FileLoader Kind Message W
      → Prepared Kind Message
      → Load Kind Message Snapshot × Option InFlightBudget × FileLoader Kind Message W
  leased p l prepared =
      let (dropped, budget) = drop_lease prepared.lease in
      let (out, l') = finish p prepared.outcome dropped (with_rejection prepared.is_rejected l) in
      (or_panic dropped out, budget, l')

  produce-content :
      (usize_max : ℕ) (fs : FileSystem Kind Message) (content : fs.Source → List ℕ)
      (source : fs.Source) (p : FileProducer) (l : FileLoader Kind Message W)
      {made : Load Kind Message Snapshot × FileLoader Kind Message W}
      → IsReadable usize_max fs p.key content source
      → publish p (transformed p.key.variant (content source)) (some tt) l ≡ made
      → produce_with usize_max fs none p l ≡ (made.0, none, made.1)
  unfolding produce_with produce_leased drop_lease
  produce-content usize_max fs content source p l readable e =
      ap (leased p l) (prepare-content usize_max fs p.key content source readable)
      ∙ ap (λ x. (x.0, none, x.1)) e

  -- A production without a budget, by the permit of the running attempt of a key's identity, of a
  -- file that opens, does not fail, fits, and holds its content in the length of its metadata, where
  -- the lock, the clock, the generation and the total have room and a handle lives: it returns the
  -- content under the key's transformation, published under the next generation, and the next
  -- request of the key is ready with that same snapshot, and reads no file.
  pub produce-request :
      (usize_max : ℕ) (fs : FileSystem Kind Message) (strong_count : ℕ → ℕ) (key : FileKey)
      (content : fs.Source → List ℕ) (source : fs.Source) (h : AssetHandle)
      (l : FileLoader Kind Message W) (entry : Entry (List ℕ) (LoadError Kind Message))
      (attempt cell total : ℕ)
      → IsReadable usize_max fs key content source
      → let bytes = transformed key.variant (content source) in
        IsCommittable l.store h entry attempt cell (length bytes) total
        → l.store.touch + 1 < u64_max
        → l.store.alive ≡ true
        → l.directory_poisoned ≡ false
        → lookup key l.directory ≡ some (downgrade h)
        → 0 < strong_count h.token.addr
        → let s = published entry bytes (length bytes) in
          let p : FileProducer = record {
            key = key;
            permit =
                some
                  (record { id = handle_id h; attempt = attempt; cell = cell; completed = false });
            terminal = false;
          } in
          let r = produce_with usize_max fs none p l in
          (r.0 ≡ loaded s) × ((request strong_count key false r.2).0 ≡ loaded (FileRequest.ready s))
  unfolding produce_with produce_leased drop_lease
  produce-request usize_max fs strong_count key content source h l entry attempt cell total readable
        c more alive sound known lives =
      let bytes = transformed key.variant (content source) in
      let permit : ProducerPermit = record {
        id = handle_id h;
        attempt = attempt;
        cell = cell;
        completed = false;
      } in
      let p : FileProducer = record { key = key; permit = some permit; terminal = false } in
      let w' = committed_world l.store h entry cell bytes (length bytes) total in
      let made = publish-ok p permit bytes _ l w' refl refl (
        commit_permit-ok permit bytes (length bytes) l.store w' _ alive
          (commit-ok l.store h entry attempt cell bytes (length bytes) total c)) in
      let e = produce-content usize_max fs content source p l readable made in
      (
        ap (λ x. x.0) e,
        ap (λ x. (request strong_count key false x.2).0) e
            ∙ request-ready strong_count key h (published_loader l w')
                (committed (l.store.touch + 1) (length bytes) bytes entry) _
                (committed-Reaches l.store h entry cell bytes (length bytes) total c.reaches more)
                refl sound known lives,
      )
