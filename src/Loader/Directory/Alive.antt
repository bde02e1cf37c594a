-- ===== src/Loader/Directory/Alive.antt =====
-- The handle of a key whose identity is alive (crates/assets/examples/file_loader/mod.rs, lines 245 to
-- 261).
use fluxel_bases.Prelude.{ℕ, ◌<◌, ◌≡◌, ap, sym, ◌∙◌, subst, false, some, List, arith, if◌then◌else◌}
use fluxel_bases.Error.{ok}
use fluxel_bases.Exec.{Exec, ◌>>=◌}
use fluxel_bases.Identity.{AssetHandle, handle_id, downgrade, upgrade_token}
use fluxel_bases.World.{World, Entry}
use fluxel_bases.Store.{lock}
use fluxel_bases.Store.Begin.{upgrade}
use fluxel_bases.Store.Steps.{find_entry-ok}
use fluxel_bases.Store.Flight.{Reaches}
use fluxel_bases.Loader.Failure.{LoadError, directory_poisoned, loaded, refused}
use fluxel_bases.Loader.Key.{FileKey}
use fluxel_bases.Loader.Directory.{
  FileLoader, FileStore, lookup, handle_known, renewed, from_core, handle_for, in_store,
}
use fluxel_bases.Loader.Producer.{with_store}

module _ {V E W : Type 0} where
  upgrade-Reaches :
      (strong_count : ℕ → ℕ) (w : World V E W) (h : AssetHandle) (entry : Entry V E)
      → Reaches w h entry
      → 0 < strong_count h.token.addr
      → upgrade strong_count (downgrade h) w ≡ (ok (some h), w)
  unfolding upgrade upgrade_token downgrade lock ◌>>=◌
  upgrade-Reaches strong_count w h entry r alive =
      let own = (find_entry-ok w (handle_id h) entry r.found).0 in
      ground (arith, own, r.sound, r.found, r.same)

module _ {Kind Message W : Type 0} where
  in_store-ok :
      {A : Type 0}
      → (m : Exec (FileStore Kind Message W) A) (l : FileLoader Kind Message W) {a : A}
      → m l.store ≡ (ok a, l.store)
      → in_store m l ≡ (loaded a, l)
  unfolding in_store
  in_store-ok m l e = ap (λ x. (from_core x.0, with_store x.1 l)) e

  -- The handle of a key whose identity is alive.
  pub handle_for-alive :
      (strong_count : ℕ → ℕ) (key : FileKey) (h : AssetHandle) (l : FileLoader Kind Message W)
      (entry : Entry (List ℕ) (LoadError Kind Message))
      → Reaches l.store h entry
      → l.directory_poisoned ≡ false
      → lookup key l.directory ≡ some (downgrade h)
      → 0 < strong_count h.token.addr
      → handle_for strong_count key l ≡ (loaded h, l)
  unfolding handle_for handle_known renewed
  handle_for-alive strong_count key h l entry reaches sound known alive =
      subst
        (λ b.
          (if b
            then (refused directory_poisoned, l)
            else handle_known strong_count key (lookup key l.directory) l)
          ≡ (loaded h, l))
        (sym sound)
        (ap (λ o. handle_known strong_count key o l) known
          ∙ ap (renewed key) (
              in_store-ok (upgrade strong_count (downgrade h)) l
                (upgrade-Reaches strong_count l.store h entry reaches alive)))
