-- ===== src/Loader/Failure.antt =====
-- crates/assets/examples/file_loader/mod.rs, lines 105 to 130: the failures of a load. `Kind` and
-- `Message` are the two things that the code reads of a `std::io::Error`, which is external.
use fluxel_bases.Prelude.{ℕ}
use fluxel_bases.Error.{AssetError}

pub record IoError (Kind Message : Type 0) : Type 0 where
  pub kind : Kind
  pub message : Message

pub data LoadError (Kind Message : Type 0) : Type 0 where
  source_io : (kind : Kind) (message : Message) → LoadError Kind Message
  budget_rejected : (bytes : ℕ) → LoadError Kind Message
  source_changed : (expected_bytes observed_bytes : ℕ) → LoadError Kind Message
  source_too_large : LoadError Kind Message
  directory_poisoned : LoadError Kind Message
  core : AssetError → LoadError Kind Message

-- The outcome of a call of the operating system, and that of a call of the loader.
pub data Io (Kind Message A : Type 0) : Type 0 where
  done : A → Io Kind Message A
  fails : IoError Kind Message → Io Kind Message A

pub data Load (Kind Message A : Type 0) : Type 0 where
  loaded : A → Load Kind Message A
  refused : LoadError Kind Message → Load Kind Message A
  panics : Load Kind Message A

module _ {Kind Message : Type 0} where
  -- `LoadError::io`
  unfoldable pub io : IoError Kind Message → LoadError Kind Message
  io e = source_io e.kind e.message
