-- ===== src/Loader/Key.antt =====
-- crates/assets/examples/file_loader/mod.rs, lines 33 to 103: the keys of sources. A path is the list of
-- its components as they were written; a name is its bytes, among them no separator.
pub mod Verbatim
pub mod Normal
use mathlib.Core.Bool.{not}
use native.Mathlib.Decide.{ℕ_discrete}
use fluxel_bases.Prelude.{
  ℕ, ◌+◌, ◌-◌, Bool, true, false, ◌&&◌, ◌||◌, List, [], ◌∷◌, ◌++◌, map, leb, if◌then◌else◌,
}
use fluxel_bases.Loader.Failure.{IoError, Io, done, fails}

abbrev pub Name : Type 0
Name = List ℕ

-- A prefix is verbatim if it is one of the kinds that Windows reads literally (`Prefix::is_verbatim`).
pub data Component : Type 0 where
  prefix : (is_verbatim : Bool) → Name → Component
  root_dir cur_dir parent_dir : Component
  normal : Name → Component

abbrev pub PathBuf : Type 0
PathBuf = List Component

pub PathBuf-discrete : Discrete PathBuf
PathBuf-discrete = hlevel ℕ_discrete

pub data Variant : Type 0 where
  raw uppercase : Variant

pub record FileKey : Type 0 where
  pub path : PathBuf
  pub variant : Variant

abbrev pub same_variant : Variant → Variant → Bool
same_variant raw raw = true
same_variant uppercase uppercase = true
same_variant _ _ = false

abbrev pub decided : {P : Type 0} → Dec P → Bool
decided (yes _) = true
decided (no _) = false

-- `PartialEq for FileKey`
unfoldable pub same_key : FileKey → FileKey → Bool
same_key a b = decided (PathBuf-discrete a.path b.path) && same_variant a.variant b.variant

-- `Path::components`: a `.` is given only at the head of a path, or after a verbatim prefix.
unfoldable pub trailing : PathBuf → PathBuf
trailing [] = []
trailing (cur_dir ∷ cs) = trailing cs
trailing (c ∷ cs) = c ∷ trailing cs

unfoldable pub components : PathBuf → PathBuf
unfolding trailing
components [] = []
components (prefix true p ∷ cs) = prefix true p ∷ cs
components (c ∷ cs) = c ∷ trailing cs

-- The prefix of a path, which a root keeps when it is pushed.
abbrev pub prefix_of : PathBuf → PathBuf
prefix_of (prefix v p ∷ _) = prefix v p ∷ []
prefix_of _ = []

abbrev pub has_verbatim : PathBuf → Bool
has_verbatim (prefix v _ ∷ _) = v
has_verbatim _ = false

-- The path less its last component, if that is a name.
unfoldable pub pop_normal : PathBuf → PathBuf
pop_normal [] = []
pop_normal (normal n ∷ []) = []
pop_normal (c ∷ []) = c ∷ []
pop_normal (c ∷ d ∷ cs) = c ∷ pop_normal (d ∷ cs)

-- `PathBuf::push` of one component. After a verbatim prefix it takes a `.` for nothing, and a `..` for
-- the removal of the last name.
unfoldable pub push : PathBuf → Component → PathBuf
unfolding pop_normal
push path (prefix v p) = prefix v p ∷ []
push path root_dir = prefix_of path ++ root_dir ∷ []
push path cur_dir = if has_verbatim path then path else path ++ cur_dir ∷ []
push path parent_dir = if has_verbatim path then pop_normal path else path ++ parent_dir ∷ []
push path (normal n) = path ++ normal n ∷ []

unfoldable pub join : PathBuf → PathBuf → PathBuf
unfolding push
join path [] = path
join path (c ∷ cs) = join (push path c) cs

abbrev pub is_prefix : Component → Bool
is_prefix (prefix _ _) = true
is_prefix _ = false

unfoldable pub any_prefix : PathBuf → Bool
any_prefix [] = false
any_prefix (c ∷ cs) = is_prefix c || any_prefix cs

-- The loop of `FileKey::new`.
unfoldable pub normalized : PathBuf → PathBuf → PathBuf
unfolding push
normalized path [] = path
normalized path (cur_dir ∷ cs) = normalized path cs
normalized path (c ∷ cs) = let pushed = push path c in normalized pushed cs

-- `u8::to_ascii_uppercase`
abbrev pub to_ascii_uppercase : ℕ → ℕ
to_ascii_uppercase c = if leb b'a' c && leb c b'z' then c - 32 else c

-- `FileKey::transformed`
unfoldable pub transformed : Variant → List ℕ → List ℕ
transformed raw bytes = bytes
transformed uppercase bytes = map to_ascii_uppercase bytes

-- `Path::is_absolute` depends on the target; `current_dir` and the error are the system's.
module _ {Kind Message : Type 0} (is_absolute : PathBuf → Bool)
    (current_dir : Io Kind Message PathBuf) (drive_relative : IoError Kind Message) where
  abbrev pub key_of : Io Kind Message PathBuf → Variant → Io Kind Message FileKey
  key_of (fails e) variant = fails e
  key_of (done absolute) variant =
      done (record { path = normalized [] (components absolute); variant = variant })

  abbrev pub joined : Io Kind Message PathBuf → PathBuf → Io Kind Message PathBuf
  joined (fails e) path = fails e
  joined (done base) path = done (join base path)

  -- `FileKey::new`
  unfoldable pub new_key : PathBuf → Variant → Io Kind Message FileKey
  unfolding components normalized any_prefix join
  new_key path variant =
      if not (is_absolute path) && any_prefix (components path)
      then fails drive_relative
      else key_of (if is_absolute path then done path else joined current_dir path) variant
