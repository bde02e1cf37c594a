-- ===== src/Loader/Key/Verbatim.antt =====
-- The components past the root of a path with a verbatim prefix, when they are pushed one by one
-- (crates/assets/examples/file_loader/mod.rs, lines 70 to 78).
use mathlib.Core.List.{append_assoc, append-nil}
use fluxel_bases.Prelude.{ℕ, zero, suc, ◌≡◌, refl, sym, ap, ◌∙◌, true, [], ◌∷◌, ◌++◌}
use fluxel_bases.Loader.Key.{
  prefix, root_dir, cur_dir, parent_dir, normal, PathBuf, Name, Component, push, pop_normal,
  normalized,
}

-- Components past the root.
abbrev pub IsBody : PathBuf → Type 0
IsBody [] = Unit {0}
IsBody (prefix _ _ ∷ cs) = ⊥
IsBody (root_dir ∷ cs) = ⊥
IsBody (_ ∷ cs) = IsBody cs

-- The names of a path that no later `..` takes back, after the number of `..` that take back what
-- stands before the path.
unfoldable pub resolved : PathBuf → ℕ × PathBuf
resolved [] = (0, [])
resolved (parent_dir ∷ cs) = let (ups, names) = resolved cs in (suc ups, names)
resolved (normal n ∷ cs) =
    let (ups, names) = resolved cs in elim ups [ zero ↦ (0, normal n ∷ names) | suc k ↦ (k, names) ]
resolved (_ ∷ cs) = resolved cs

-- The path less that many of its last components.
unfoldable drop_last : PathBuf → PathBuf
drop_last [] = []
drop_last (c ∷ []) = []
drop_last (c ∷ d ∷ cs) = c ∷ drop_last (d ∷ cs)

unfoldable pub drop_end : ℕ → PathBuf → PathBuf
unfolding drop_last
drop_end zero cs = cs
drop_end (suc k) cs = drop_end k (drop_last cs)

drop_last-append : (cs : PathBuf) (c : Component) → drop_last (cs ++ c ∷ []) ≡ cs
unfolding drop_last
drop_last-append [] c = refl
drop_last-append (x ∷ []) c = refl
drop_last-append (x ∷ y ∷ cs) c = ap (λ r. x ∷ r) (drop_last-append (y ∷ cs) c)

pub drop_end-nil : (k : ℕ) → drop_end k [] ≡ []
unfolding drop_end drop_last
drop_end-nil zero = refl
drop_end-nil (suc k) = drop_end-nil k

-- Names only.
abbrev pub AreNames : PathBuf → Type 0
AreNames [] = Unit {0}
AreNames (normal _ ∷ cs) = AreNames cs
AreNames _ = ⊥

append-AreNames : (cs : PathBuf) (n : Name) → AreNames cs → AreNames (cs ++ normal n ∷ [])
append-AreNames [] n h = tt
append-AreNames (normal m ∷ cs) n h = append-AreNames cs n h
append-AreNames (prefix _ _ ∷ cs) n h = absurd h
append-AreNames (root_dir ∷ cs) n h = absurd h
append-AreNames (cur_dir ∷ cs) n h = absurd h
append-AreNames (parent_dir ∷ cs) n h = absurd h

drop_last-AreNames : (cs : PathBuf) → AreNames cs → AreNames (drop_last cs)
unfolding drop_last
drop_last-AreNames [] h = tt
drop_last-AreNames (c ∷ []) h = tt
drop_last-AreNames (normal m ∷ d ∷ cs) h = drop_last-AreNames (d ∷ cs) h
drop_last-AreNames (prefix _ _ ∷ d ∷ cs) h = absurd h
drop_last-AreNames (root_dir ∷ d ∷ cs) h = absurd h
drop_last-AreNames (cur_dir ∷ d ∷ cs) h = absurd h
drop_last-AreNames (parent_dir ∷ d ∷ cs) h = absurd h

pop_normal-drop_last :
    (cs : PathBuf) → AreNames cs → pop_normal (root_dir ∷ cs) ≡ root_dir ∷ drop_last cs
unfolding pop_normal drop_last
pop_normal-drop_last [] h = refl
pop_normal-drop_last (c ∷ cs) h = ap (λ r. root_dir ∷ r) (names c cs h)
  where
    names :
        (c : Component) (cs : PathBuf)
        → AreNames (c ∷ cs)
        → pop_normal (c ∷ cs) ≡ drop_last (c ∷ cs)
    names (normal n) [] h = refl
    names (normal n) (d ∷ cs) h = ap (λ r. normal n ∷ r) (names d cs h)
    names (prefix _ _) cs h = absurd h
    names root_dir cs h = absurd h
    names cur_dir cs h = absurd h
    names parent_dir cs h = absurd h

-- A name after the names that are kept, under that many `..` of what follows.
drop_end-name :
    (n : Name) (kept names : PathBuf) (ups : ℕ)
    → let more : ℕ × PathBuf = elim ups [ zero ↦ (0, normal n ∷ names) | suc k ↦ (k, names) ] in
      drop_end ups (kept ++ normal n ∷ []) ++ names ≡ drop_end more.0 kept ++ more.1
unfolding drop_end
drop_end-name n kept names zero = append_assoc kept (normal n ∷ []) names
drop_end-name n kept names (suc k) =
    ap (λ cs. drop_end k cs ++ names) (drop_last-append kept (normal n))

module _ (p : Name) where
  pub normalized-resolved :
      (kept cs : PathBuf)
      → AreNames kept
      → IsBody cs
      → normalized (prefix true p ∷ root_dir ∷ kept) cs
        ≡ prefix true p ∷ root_dir ∷ (drop_end (resolved cs).0 kept ++ (resolved cs).1)
  unfolding normalized push resolved drop_end pop_normal
  normalized-resolved kept [] names body =
      ap (λ r. prefix true p ∷ root_dir ∷ r) (sym (append-nil kept))
  normalized-resolved kept (cur_dir ∷ cs) names body = normalized-resolved kept cs names body
  normalized-resolved kept (parent_dir ∷ cs) names body =
      ap (λ path. normalized (prefix true p ∷ path) cs) (pop_normal-drop_last kept names)
      ∙ normalized-resolved (drop_last kept) cs (drop_last-AreNames kept names) body
  normalized-resolved kept (normal n ∷ cs) names body =
      normalized-resolved (kept ++ normal n ∷ []) cs (append-AreNames kept n names) body
      ∙ ap (λ r. prefix true p ∷ root_dir ∷ r)
          (drop_end-name n kept (resolved cs).1 (resolved cs).0)
  normalized-resolved kept (prefix _ _ ∷ cs) names body = absurd body
  normalized-resolved kept (root_dir ∷ cs) names body = absurd body

pub resolved-AreNames : (cs : PathBuf) → AreNames (resolved cs).1
unfolding resolved
resolved-AreNames [] = tt
resolved-AreNames (cur_dir ∷ cs) = resolved-AreNames cs
resolved-AreNames (parent_dir ∷ cs) = resolved-AreNames cs
resolved-AreNames (prefix _ _ ∷ cs) = resolved-AreNames cs
resolved-AreNames (root_dir ∷ cs) = resolved-AreNames cs
resolved-AreNames (normal n ∷ cs) = kept (resolved cs).0 (resolved cs).1 (resolved-AreNames cs)
  where
    kept :
        (ups : ℕ) (names : PathBuf)
        → AreNames names
        → let more : ℕ × PathBuf = elim ups [ zero ↦ (0, normal n ∷ names) | suc k ↦ (k, names) ] in
          AreNames more.1
    kept zero names h = h
    kept (suc k) names h = h

pub resolved-names : (cs : PathBuf) → AreNames cs → resolved cs ≡ (0, cs)
unfolding resolved
resolved-names [] h = refl
resolved-names (normal n ∷ cs) h =
    ap
      (λ (x : ℕ × PathBuf).
        let more : ℕ × PathBuf = elim x.0 [ zero ↦ (0, normal n ∷ x.1) | suc k ↦ (k, x.1) ] in more)
      (resolved-names cs h)
resolved-names (prefix _ _ ∷ cs) h = absurd h
resolved-names (root_dir ∷ cs) h = absurd h
resolved-names (cur_dir ∷ cs) h = absurd h
resolved-names (parent_dir ∷ cs) h = absurd h

pub AreNames-IsBody : (cs : PathBuf) → AreNames cs → IsBody cs
AreNames-IsBody [] h = tt
AreNames-IsBody (normal n ∷ cs) h = AreNames-IsBody cs h
AreNames-IsBody (prefix _ _ ∷ cs) h = absurd h
AreNames-IsBody (root_dir ∷ cs) h = absurd h
AreNames-IsBody (cur_dir ∷ cs) h = absurd h
AreNames-IsBody (parent_dir ∷ cs) h = absurd h
