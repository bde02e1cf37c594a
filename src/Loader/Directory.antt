-- ===== src/Loader/Directory.antt =====
-- crates/assets/examples/file_loader/mod.rs, lines 204 to 277: the loader and its directory from keys
-- to identities. `directory_poisoned` is that of the directory's lock. The counts of the tokens' owners
-- at the time of a call are its argument.
pub mod Lookup
pub mod Forget
pub mod Alive
use fluxel_bases.Prelude.{ℕ, Bool, true, false, Option, none, some, List, [], ◌∷◌, if◌then◌else◌}
use fluxel_bases.Error.{Result, ok, err, panic}
use fluxel_bases.Exec.{Exec}
use fluxel_bases.Identity.{AssetHandle, AssetWeak, downgrade}
use fluxel_bases.Budget.{RemoveReport}
use fluxel_bases.World.{World}
use fluxel_bases.World
use fluxel_bases.Store.Begin.{create, upgrade}
use fluxel_bases.Store.Remove.{remove}
use fluxel_bases.Loader.Failure.{LoadError, core, directory_poisoned, Load, loaded, refused, panics}
use fluxel_bases.Loader.Key.{FileKey, same_key}
use fluxel_bases.Loader.Metrics.{LoadStats, no_loads}

abbrev pub FileStore : Type 0 → Type 0 → Type 0 → Type 0
FileStore Kind Message W = World (List ℕ) (LoadError Kind Message) W

pub record FileLoader (Kind Message W : Type 0) : Type 0 where
  pub store : FileStore Kind Message W
  pub directory : List (FileKey × AssetWeak)
  pub directory_poisoned : Bool
  pub metrics : LoadStats

-- `HashMap`, by the `PartialEq` of its keys.
module _ {A : Type 0} where
  unfoldable pub lookup : FileKey → List (FileKey × A) → Option A
  unfolding same_key
  lookup k [] = none
  lookup k ((j, a) ∷ d) = if same_key j k then some a else lookup k d

  unfoldable pub insert : FileKey → A → List (FileKey × A) → List (FileKey × A)
  unfolding same_key
  insert k a [] = (k, a) ∷ []
  insert k a ((j, b) ∷ d) = if same_key j k then (j, a) ∷ d else (j, b) ∷ insert k a d

  unfoldable pub erase : FileKey → List (FileKey × A) → List (FileKey × A)
  unfolding same_key
  erase k [] = []
  erase k ((j, b) ∷ d) = let rest = erase k d in if same_key j k then rest else (j, b) ∷ rest

module _ {Kind Message : Type 0} where
  -- `map_err(LoadError::Core)`
  abbrev pub from_core : {A : Type 0} → Result A → Load Kind Message A
  from_core (ok a) = loaded a
  from_core (err e) = refused (core e)
  from_core panic = panics

module _ {Kind Message W : Type 0} where
  -- `FileLoader::new`, with the identity of its store.
  unfoldable pub new_loader : ℕ → FileLoader Kind Message W
  unfolding World.new
  new_loader id = record {
    store = World.new id;
    directory = [];
    directory_poisoned = false;
    metrics = no_loads;
  }

  unfoldable pub in_store :
      {A : Type 0}
      → Exec (FileStore Kind Message W) A
      → FileLoader Kind Message W
      → Load Kind Message A × FileLoader Kind Message W
  in_store m l = let (r, w) = m l.store in (from_core r, record l { store = w })

  -- A panic while the directory is locked.
  abbrev pub poison : FileLoader Kind Message W → FileLoader Kind Message W
  poison l = record l { directory_poisoned = true }

  -- The directory after the creation of the key's identity.
  unfoldable pub entered :
      FileKey
      → Load Kind Message AssetHandle × FileLoader Kind Message W
      → Load Kind Message AssetHandle × FileLoader Kind Message W
  unfolding downgrade insert
  entered key (loaded h, l) =
      (loaded h, record l { directory = insert key (downgrade h) l.directory })
  entered key (refused e, l) = (refused e, l)
  entered key (panics, l) = (panics, poison l)

  unfoldable pub create_for :
      FileKey
      → FileLoader Kind Message W
      → Load Kind Message AssetHandle × FileLoader Kind Message W
  unfolding in_store create entered
  create_for key l = entered key (in_store create l)

  -- `handle_for`, after the upgrade of the key's identity.
  unfoldable pub renewed :
      FileKey
      → Load Kind Message (Option AssetHandle) × FileLoader Kind Message W
      → Load Kind Message AssetHandle × FileLoader Kind Message W
  unfolding create_for
  renewed key (loaded (some h), l) = (loaded h, l)
  renewed key (loaded none, l) = create_for key l
  renewed key (refused e, l) = (refused e, l)
  renewed key (panics, l) = (panics, poison l)

  unfoldable pub handle_known :
      (ℕ → ℕ)
      → FileKey
      → Option AssetWeak
      → FileLoader Kind Message W
      → Load Kind Message AssetHandle × FileLoader Kind Message W
  unfolding in_store upgrade create_for renewed
  handle_known strong_count key none l = create_for key l
  handle_known strong_count key (some weak) l = renewed key (in_store (upgrade strong_count weak) l)

  unfoldable pub handle_for :
      (ℕ → ℕ)
      → FileKey
      → FileLoader Kind Message W
      → Load Kind Message AssetHandle × FileLoader Kind Message W
  unfolding lookup handle_known
  handle_for strong_count key l =
      if l.directory_poisoned
      then (refused directory_poisoned, l)
      else handle_known strong_count key (lookup key l.directory) l

  -- The directory after the removal that it asked for.
  abbrev pub forgot :
      FileKey
      → Result RemoveReport × FileStore Kind Message W
      → FileLoader Kind Message W
      → Load Kind Message (Unit {0}) × FileLoader Kind Message W
  forgot key (ok _, w) l = (loaded tt, record l { store = w; directory = erase key l.directory })
  forgot key (err e, w) l = (refused (core e), record l { store = w })
  forgot key (panic, w) l = (panics, poison (record l { store = w }))

  abbrev pub forget_known :
      (ℕ → ℕ)
      → FileKey
      → Option AssetWeak
      → FileLoader Kind Message W
      → Load Kind Message (Unit {0}) × FileLoader Kind Message W
  forget_known strong_count key none l = (loaded tt, l)
  forget_known strong_count key (some weak) l = forgot key (remove strong_count weak.id l.store) l

  unfoldable pub forget :
      (ℕ → ℕ)
      → FileKey
      → FileLoader Kind Message W
      → Load Kind Message (Unit {0}) × FileLoader Kind Message W
  unfolding lookup remove erase
  forget strong_count key l =
      if l.directory_poisoned
      then (refused directory_poisoned, l)
      else forget_known strong_count key (lookup key l.directory) l
