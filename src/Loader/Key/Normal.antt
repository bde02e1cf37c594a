-- ===== src/Loader/Key/Normal.antt =====
-- The normal form of a source's path (crates/assets/examples/file_loader/mod.rs, lines 52 to 90).
use fluxel_bases.Prelude.{Bool, true, [], ◌∷◌}
use fluxel_bases.Loader.Key.{prefix, root_dir, cur_dir, PathBuf, Name}
use fluxel_bases.Loader.Key.Verbatim.{IsBody, resolved}

-- A path that begins at a root, after a prefix or not.
pub data IsRooted : PathBuf → Type 0 where
  at_root : {cs : PathBuf} → IsBody cs → IsRooted (root_dir ∷ cs)
  at_prefix :
      {is_verbatim : Bool} {name : Name} {cs : PathBuf}
      → IsBody cs
      → IsRooted (prefix is_verbatim name ∷ root_dir ∷ cs)

-- The path less its `.` components; `..` stays.
unfoldable pub without_dots : PathBuf → PathBuf
without_dots [] = []
without_dots (cur_dir ∷ cs) = without_dots cs
without_dots (c ∷ cs) = c ∷ without_dots cs

-- What a key must make of a rooted path: after a verbatim prefix each `..` is taken together with the
-- name before it, and elsewhere it stays.
unfoldable pub canonical : PathBuf → PathBuf
unfolding resolved without_dots
canonical (prefix true name ∷ root_dir ∷ cs) = prefix true name ∷ root_dir ∷ (resolved cs).1
canonical path = without_dots path
