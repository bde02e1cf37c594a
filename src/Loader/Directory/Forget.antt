-- ===== src/Loader/Directory/Forget.antt =====
-- What `forget` does and what it refuses (crates/assets/examples/file_loader/mod.rs, lines 240 to 256).
use fluxel_bases.Prelude.{
  ℕ, ◌+◌, ◌≡◌, refl, ap, sym, subst, ◌∙◌, false, Option, none, some, List, arith, if◌then◌else◌,
  inl, inr,
}
use fluxel_bases.Error.{AssetError, Result, ok, err, panic}
use fluxel_bases.Exec.{◌>>=◌}
use fluxel_bases.Identity.{AssetId, AssetWeak}
use fluxel_bases.World.{World, Entry}
use fluxel_bases.Store.{lock, find_entry, entry_mut, retained, stale}
use fluxel_bases.Store.Finish.{previous_bytes}
use fluxel_bases.Store.Remove.{remove, remove_own}
use fluxel_bases.Store.Removal.{refusal, remove_refused, remove_unused}
use fluxel_bases.Store.Steps.{find_entry-cases}
use fluxel_bases.Store.Valid.{IsValid}
use fluxel_bases.Loader.Failure.{LoadError, Load, loaded, refused, core, directory_poisoned}
use fluxel_bases.Loader.Key.{FileKey, same_key}
use fluxel_bases.Loader.Directory.{FileLoader, lookup, erase, forgot, forget_known, forget}
use fluxel_bases.Loader.Directory.Lookup.{lookup-erase}

module _ {V E W : Type 0} where
  -- An identity that finds no entry is not removed.
  remove_lost :
      (strong_count : ℕ → ℕ) (id : AssetId) (e : AssetError) (w : World V E W)
      → w.poisoned ≡ false
      → find_entry w id ≡ err e
      → remove strong_count id w ≡ (err e, w)
  unfolding remove remove_own lock entry_mut find_entry ◌>>=◌
  remove_lost strong_count id e w sound lost = ground (arith, sound, lost)

module _ {Kind Message W : Type 0} where
  -- The identity is gone from the store with the bytes of its entry, and the key alone from the
  -- directory.
  pub record IsForgotten (key : FileKey) (id : AssetId) (bytes : ℕ) (j : FileKey)
      (l m : FileLoader Kind Message W) : Type 0 where
    pub gone : find_entry m.store id ≡ err (stale id)
    pub released : m.store.ready_bytes + bytes ≡ l.store.ready_bytes
    pub left_out : lookup j m.directory ≡ (if same_key key j then none else lookup j l.directory)

  -- What `forget` must do with an entry that must not be removed, or may be.
  abbrev pub Removes :
      FileKey
      → AssetId
      → Entry (List ℕ) (LoadError Kind Message)
      → Option AssetError
      → FileKey
      → FileLoader Kind Message W
      → Load Kind Message (Unit {0}) × FileLoader Kind Message W
      → Type 0
  Removes key id entry (some e) j l r = r ≡ (refused (core e), l)
  Removes key id entry none j l r =
      (r.0 ≡ loaded tt) × IsForgotten key id (previous_bytes (retained entry.phase)) j l r.1

  -- What `forget` must do with what the identity of the key finds in the store.
  abbrev pub Forgets :
      (ℕ → ℕ)
      → FileKey
      → AssetId
      → Result (Entry (List ℕ) (LoadError Kind Message))
      → FileKey
      → FileLoader Kind Message W
      → Load Kind Message (Unit {0}) × FileLoader Kind Message W
      → Type 0
  Forgets strong_count key id (ok entry) j l r =
      Removes key id entry (refusal (strong_count entry.token.addr) entry.phase) j l r
  Forgets strong_count key id (err e) j l r = r ≡ (refused (core e), l)
  Forgets strong_count key id panic j l r = ⊥

  -- `forget`, by what the directory has for the key.
  abbrev pub Forgetting :
      (ℕ → ℕ)
      → FileKey
      → Option AssetWeak
      → FileKey
      → FileLoader Kind Message W
      → Load Kind Message (Unit {0}) × FileLoader Kind Message W
      → Type 0
  Forgetting strong_count key none j l r = r ≡ (loaded tt, l)
  Forgetting strong_count key (some weak) j l r =
      Forgets strong_count key weak.id (find_entry l.store weak.id) j l r

  removed-Removes :
      (strong_count : ℕ → ℕ) (key j : FileKey) (id : AssetId) (l : FileLoader Kind Message W)
      (entry : Entry (List ℕ) (LoadError Kind Message)) (o : Option AssetError)
      → IsValid l.store
      → l.store.poisoned ≡ false
      → find_entry l.store id ≡ ok entry
      → refusal (strong_count entry.token.addr) entry.phase ≡ o
      → Removes key id entry o j l (forgot key (remove strong_count id l.store) l)
  removed-Removes strong_count key j id l entry (some e) v sound found must =
      ap (λ r. forgot key r l) (remove_refused strong_count id l.store entry e sound found must)
  removed-Removes strong_count key j id l entry none v sound found may =
      let (done, released, gone) = remove_unused strong_count id l.store entry v sound found may in
      let e : forgot key (remove strong_count id l.store) l ≡ (
        loaded tt,
        record l { store = (remove strong_count id l.store).1; directory = erase key l.directory },
      ) =
        ap (λ o. forgot key (o, (remove strong_count id l.store).1) l) done in
      subst (Removes key id entry none j l) (sym e) (
        refl,
        record { gone = gone; released = released; left_out = lookup-erase key j l.directory },
      )

  known-Forgetting :
      (strong_count : ℕ → ℕ) (key j : FileKey) (o : Option AssetWeak)
      (l : FileLoader Kind Message W)
      → IsValid l.store
      → l.store.poisoned ≡ false
      → Forgetting strong_count key o j l (forget_known strong_count key o l)
  known-Forgetting strong_count key j none l v sound = refl
  known-Forgetting strong_count key j (some weak) l v sound =
      elim (find_entry-cases l.store weak.id) [
        | inl (e, lost) ↦
            subst
              (λ r.
                Forgets strong_count key weak.id r j l
                  (forget_known strong_count key (some weak) l))
              (sym lost)
              (ap (λ r. forgot key r l) (remove_lost strong_count weak.id e l.store sound lost))
        | inr (entry, found) ↦
            subst
              (λ r.
                Forgets strong_count key weak.id r j l
                  (forget_known strong_count key (some weak) l))
              (sym found) (removed-Removes strong_count key j weak.id l entry _ v sound found refl)
      ]

  -- On a loader whose lock and whose valid store's lock are good, `forget` changes nothing where the
  -- directory does not have the key. Otherwise, where the key's identity finds an entry without handles
  -- and without an attempt, the identity is then stale in the store, the bytes of the entry have left
  -- the total, and exactly the key is out of the directory; where it finds another entry or none,
  -- `forget` answers with the refusal of the store, and nothing changes at all.
  pub forget-Forgetting :
      (strong_count : ℕ → ℕ) (key j : FileKey) (l : FileLoader Kind Message W)
      (o : Option AssetWeak)
      → IsValid l.store
      → l.store.poisoned ≡ false
      → l.directory_poisoned ≡ false
      → lookup key l.directory ≡ o
      → Forgetting strong_count key o j l (forget strong_count key l)
  unfolding forget
  forget-Forgetting strong_count key j l o v sound good known =
      subst (Forgetting strong_count key o j l)
        (sym (
          ap
            (λ b.
              if b
              then (refused directory_poisoned, l)
              else forget_known strong_count key (lookup key l.directory) l)
            good
          ∙ ap (λ x. forget_known strong_count key x l) known))
        (known-Forgetting strong_count key j o l v sound)
