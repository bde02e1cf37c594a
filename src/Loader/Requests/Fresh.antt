-- ===== src/Loader/Requests/Fresh.antt =====
-- The first requests of a key that the directory does not have
-- (crates/assets/examples/file_loader/mod.rs, lines 226 to 318).
use fluxel_bases.Prelude.{
  ℕ, ◌+◌, ◌<◌, ◌≡◌, refl, ap, sym, subst, ◌∙◌, Bool, false, none, some, List, arith, u64_max,
  checked_add, ==_refl, if◌then◌else◌, get_elem?-set_self, get_elem?-lt,
}
use fluxel_bases.Error.{Result, ok}
use fluxel_bases.Exec.{pure}
use fluxel_bases.Exec.Bind.{bind_rule}
use fluxel_bases.Identity.{AssetHandle, AssetId, handle_id, downgrade}
use fluxel_bases.Production.{Acquire, ProducerPermit, ProductionWaiter}
use fluxel_bases.Cell.{new_cell, new_registry, register}
use fluxel_bases.World.{World, Entry, Phase}
use fluxel_bases.Store.{find_entry, put_entry, make_attempt, waiter}
use fluxel_bases.Store.Begin.{create, occupy, new_token, new_entry, acquire, acquire_phase}
use fluxel_bases.Store.Valid.{IsValid}
use fluxel_bases.Store.Keeps.Slots.{IsTaken, SameEntries}
use fluxel_bases.Store.Keeps.Create.{create_rule}
use fluxel_bases.Store.Flight.{Reaches, touched, touched_world, after_touch, find_entry-put_entry}
use fluxel_bases.Store.Steps.{bump}
use fluxel_bases.Store.Eviction.{find_entry-At}
use fluxel_bases.Store.Retrying.{next_permit, restarted, allocated, make_attempt-ok}
use fluxel_bases.Loader.Failure.{loaded, refused, directory_poisoned}
use fluxel_bases.Loader.Key.{FileKey}
use fluxel_bases.Loader.Directory.{
  FileLoader, FileStore, lookup, insert, from_core, create_for, entered, handle_known, handle_for,
  in_store,
}
use fluxel_bases.Loader.Directory.Lookup.{same_key_iff, lookup-insert}
use fluxel_bases.Loader.Producer.{with_store}
use fluxel_bases.Loader.Requests.{FileRequest, acquire_file, handled, counted, request}
use fluxel_bases.Loader.Requests.Joined.{acquires, request-joins}

-- The first waiter of a new attempt.
abbrev pub first_waiter : AssetId → ℕ → ProductionWaiter
first_waiter id cell = record { id = id; attempt = 1; cell = cell; key = 1 }

module _ {V E W : Type 0} where
  -- What the holder of a new handle can rely on.
  abbrev NewHandle : World V E W → Result AssetHandle × World V E W → Type 0
  NewHandle w (ok h, u) =
      (find_entry u (handle_id h) ≡ ok (new_entry h.token (w.touch + 1)))
      × (u.poisoned ≡ w.poisoned)
      × (u.touch ≡ w.touch + 1)
  NewHandle w (_, u) = Unit {0}

  create-NewHandle : (w : World V E W) → IsValid w → NewHandle w (create w)
  create-NewHandle w v =
      create_rule (NewHandle w) w (λ _. tt) (λ _ _. tt) (λ u i g t same _. entered u i g t same) v
    where
      entered :
          (u : World V E W) (i g : ℕ)
          → IsTaken u i g
          → SameEntries (bump w) u
          → NewHandle w (ok (record { token = new_token u i g }), occupy i g u.touch u)
      entered u i g t same =
          let token = new_token u i g in
          (
            unfold occupy put_entry in
                find_entry-At (occupy i g u.touch u) token.id (new_entry token u.touch) refl
                  (get_elem?-set_self u.slots i _ (get_elem?-lt u.slots i t.at))
                ∙ ap (λ touch. ok (new_entry token touch)) same.same_touch,
            unfold occupy put_entry in same.same_poisoned,
            unfold occupy put_entry in same.same_touch,
          )

  -- An acquisition of an entry without content gives out the permit of its next attempt.
  acquire-missing :
      (w : World V E W) (h : AssetHandle) (entry : Entry V E)
      → Reaches w h entry
      → entry.phase ≡ Phase.missing
      → entry.attempt_generation < u64_max
      → acquire h w ≡ (
        ok (Acquire.producer (next_permit entry w.next)),
        put_entry
            (handle_id h)
            (restarted none w.next (touched w entry))
            (allocated (touched_world w h entry)),
      )
  unfolding acquire acquire_phase pure
  acquire-missing w h entry reaches e room = after_touch w h entry _ _ reaches (
      subst
        (λ phase. acquire_phase (handle_id h) (touched w entry) phase (touched_world w h entry) ≡ (
          ok (Acquire.producer (next_permit entry w.next)),
          put_entry (handle_id h) (restarted none w.next (touched w entry))
              (allocated (touched_world w h entry)),
        ))
        (sym e)
        (bind_rule
          (λ r. r ≡ (
            ok (Acquire.producer (next_permit entry w.next)),
            put_entry (handle_id h) (restarted none w.next (touched w entry))
                (allocated (touched_world w h entry)),
          ))
          (make_attempt (handle_id h) (touched w entry) none) _ (touched_world w h entry) _
          (unfold put_entry in
            make_attempt-ok (handle_id h) (touched w entry) none (touched_world w h entry) room)
          refl))

  -- What the first acquisition of an entry leaves.
  abbrev begun_world : World V E W → AssetHandle → Entry V E → World V E W
  begun_world w h entry =
      put_entry (handle_id h) (restarted none w.next (touched w entry))
        (allocated (touched_world w h entry))

  begun-Reaches :
      (w : World V E W) (h : AssetHandle) (entry : Entry V E)
      → Reaches w h entry
      → w.touch + 1 < u64_max
      → Reaches (begun_world w h entry) h (restarted none w.next (touched w entry))
  unfolding put_entry find_entry
  begun-Reaches w h entry r more = record {
    sound = r.sound;
    more = more;
    found =
        find_entry-put_entry (allocated (touched_world w h entry)) (handle_id h) (touched w entry) _
          (find_entry-put_entry (bump w) (handle_id h) entry (touched w entry) r.found);
    same = r.same;
  }

  waiter-first :
      (id : AssetId) (cell : ℕ) (w : World V E W)
      → w.cells cell ≡ new_cell
      → (waiter id 1 cell w).0 ≡ ok (first_waiter id cell)
  unfolding waiter register checked_add new_cell new_registry
  waiter-first id cell w e = rw (e, waiter, register) refl

module _ {V E W : Type 0} where
  -- The waiter that joins an attempt just begun.
  waiter-begun :
      (w : World V E W) (h : AssetHandle) (entry : Entry V E)
      → let begun = begun_world w h entry in
        let joined =
          waiter h.token.id 1 w.next
            (touched_world begun h (restarted none w.next (touched w entry))) in
        joined ≡ (ok (first_waiter h.token.id w.next), joined.1)
  waiter-begun w h entry =
      let begun = begun_world w h entry in
      let joined =
        waiter h.token.id 1 w.next
          (touched_world begun h (restarted none w.next (touched w entry))) in
      ap (λ o. (o, joined.1))
        (waiter-first h.token.id w.next
          (touched_world begun h (restarted none w.next (touched w entry)))
          (unfold put_entry in (rw (==_refl w.next) refl)))

pub lookup-inserted :
    {A : Type 0} (key : FileKey) (a : A) (d : List (FileKey × A))
    → lookup key (insert key a d) ≡ some a
lookup-inserted key a d =
    lookup-insert key key a d
    ∙ ap (λ b. if b then some a else lookup key d) ((same_key_iff key key).1 refl)

module _ {Kind Message W : Type 0} where
  -- The loader after `handle_for` has made an identity for the key.
  abbrev entered_loader :
      FileKey
      → AssetHandle
      → FileStore Kind Message W
      → FileLoader Kind Message W
      → FileLoader Kind Message W
  entered_loader key h u l = record l {
    store = u;
    directory = insert key (downgrade h) l.directory;
  }

  handle_for-create :
      (strong_count : ℕ → ℕ) (key : FileKey) (h : AssetHandle) (l : FileLoader Kind Message W)
      (u : FileStore Kind Message W)
      → l.directory_poisoned ≡ false
      → lookup key l.directory ≡ none
      → create l.store ≡ (ok h, u)
      → handle_for strong_count key l ≡ (loaded h, entered_loader key h u l)
  unfolding handle_for handle_known create_for entered in_store
  handle_for-create strong_count key h l u sound unknown made =
      subst
        (λ b.
          (if b
            then (refused directory_poisoned, l)
            else handle_known strong_count key (lookup key l.directory) l)
          ≡ (loaded h, entered_loader key h u l))
        (sym sound)
        (ap (λ o. handle_known strong_count key o l) unknown
          ∙ ap (λ x. entered key (from_core x.0, with_store x.1 l)) made)

  acquire_file-producer :
      (key : FileKey) (h : AssetHandle) (l : FileLoader Kind Message W) (permit : ProducerPermit)
      (u : FileStore Kind Message W)
      → acquire h l.store ≡ (ok (Acquire.producer permit), u)
      → acquire_file key h false l ≡ acquires key l (ok (Acquire.producer permit), u)
  unfolding acquire_file in_store
  acquire_file-producer key h l permit u e = ap (acquires key l) e

  -- Two requests of a key that the directory does not have, on a loader whose directory and store are
  -- good, whose clock has room and whose store makes an identity: the first is the producer of that
  -- identity's first attempt, and the second, by a request or a retry and while the identity lives,
  -- waits for that same attempt.
  pub request-request :
      (strong_count strong_count' : ℕ → ℕ) (key : FileKey) (is_retry : Bool)
      (l : FileLoader Kind Message W) (h : AssetHandle) (u : FileStore Kind Message W)
      → IsValid l.store
      → l.store.poisoned ≡ false
      → l.store.touch + 2 < u64_max
      → l.directory_poisoned ≡ false
      → lookup key l.directory ≡ none
      → create l.store ≡ (ok h, u)
      → 0 < strong_count' h.token.addr
      → let permit : ProducerPermit = record {
        id = handle_id h;
        attempt = 1;
        cell = u.next;
        completed = false;
      } in
        let first = request strong_count key false l in
        (first.0
          ≡ loaded
              (FileRequest.producer (record { key = key; permit = some permit; terminal = false })))
        × ((request strong_count' key is_retry first.1).0
            ≡ loaded (FileRequest.waiting (first_waiter (handle_id h) u.next)))
  unfolding request
  request-request strong_count strong_count' key is_retry l h u v sound room good unknown made
        alive =
      let (found, same_poisoned, same_touch) =
        subst (NewHandle l.store) made (create-NewHandle l.store v) in
      let entry = new_entry h.token (l.store.touch + 1) in
      let reaches : Reaches u h entry = record {
        sound = same_poisoned ∙ sound;
        more = omega arith;
        found = found;
        same = refl;
      } in
      let l1 = entered_loader key h u (counted l) in
      let w2 = begun_world u h entry in
      let e =
        ap (handled key false)
          (handle_for-create strong_count key h (counted l) u good unknown made)
        ∙ acquire_file-producer key h l1 _ w2
            (acquire-missing u h entry reaches refl (omega arith)) in
      let l2 = (acquires key l1 (ok (Acquire.producer (next_permit entry u.next)), w2)).1 in
      let entry2 = restarted none u.next (touched u entry) in
      let joins =
        request-joins strong_count' key is_retry h l2 entry2 1 u.next none
          (first_waiter (handle_id h) u.next) _ (begun-Reaches u h entry reaches (omega arith)) refl
          (waiter-begun u h entry) good (lookup-inserted key (downgrade h) l.directory) alive in
      (
        ap (λ x. x.0) e,
        ap (λ x. (request strong_count' key is_retry x.1).0) e ∙ ap (λ x. x.0) joins.0,
      )
