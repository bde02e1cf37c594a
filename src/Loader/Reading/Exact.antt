-- ===== src/Loader/Reading/Exact.antt =====
-- The read of a source ends, and gives the whole of it or says how it changed
-- (crates/assets/examples/file_loader/mod.rs, lines 457 to 487).
use mathlib.Core.List.{append_assoc, append-nil}
use fluxel_bases.Prelude.{
  ℕ, zero, suc, ◌+◌, ◌-◌, ◌≤◌, ◌<◌, ◌≡◌, ◌≢◌, refl, sym, ap, ◌∙◌, ◌⊎◌, inl, inr, true, Option, none,
  some, List, [], ◌∷◌, ◌++◌, arith, length, length-append, ltb, ltb→lt, if◌then◌else◌, ◌==◌,
  Bool-cases,
}
use fluxel_bases.Loader.Failure.{source_changed, Io, done, fails, Load, loaded, refused, io}
use fluxel_bases.Loader.Reading.{saturating_suc, fill, expect_end, read_exact_bounded}

module _ {Kind Message S : Type 0} (read : ℕ → S → Io Kind Message (List ℕ) × S) where
  fill-ne-none :
      (fuel source_len capacity : ℕ) (filled : List ℕ) (s : S)
      → capacity ≤ fuel + length filled
      → fill read (suc fuel) source_len capacity filled s ≢ none
  unfolding fill
  fill-ne-none zero source_len capacity filled s enough = ground arith
  fill-ne-none (suc fuel) source_len capacity filled s enough =
      let rest = λ (b : ℕ) (bs : List ℕ) (s' : S).
        fill-ne-none fuel source_len capacity (filled ++ b ∷ bs) s' in
      elim (Bool-cases (ltb (length filled) capacity)) [
        | inr full ↦ rw (full, fill) (λ e. cc)
        | inl more ↦
            rw (more, fill)
              (round (read (capacity - length filled) s).0 (read (capacity - length filled) s).1
                λ b bs s'. rest b bs s' (omega (arith, enough, length-append filled (b ∷ bs))))
      ]
    where
      round :
          (out : Io Kind Message (List ℕ)) (s' : S)
          → ((b : ℕ) (bs : List ℕ) (t : S)
              → fill read (suc fuel) source_len capacity (filled ++ b ∷ bs) t ≢ none)
          → let o : Option (Load Kind Message (List ℕ) × S) = elim out [
            | fails e ↦ some (refused (io e), s')
            | done [] ↦ some (refused (source_changed source_len (length filled)), s')
            | done (b ∷ bs) ↦ fill read (suc fuel) source_len capacity (filled ++ b ∷ bs) s'
          ] in
            o ≢ none
      round (fails e) s' rest p = cc
      round (done []) s' rest p = cc
      round (done (b ∷ bs)) s' rest p = rest b bs s' p

  -- The read of a source ends with a result, whatever the source does.
  pub read_exact_bounded-ne-none :
      (source_len capacity : ℕ) (s : S) → read_exact_bounded read source_len capacity s ≢ none
  unfolding read_exact_bounded
  read_exact_bounded-ne-none source_len capacity s =
      ended (fill read (suc capacity) source_len capacity [] s)
        (fill-ne-none capacity source_len capacity [] s (omega arith))
    where
      ended :
          (o : Option (Load Kind Message (List ℕ) × S))
          → o ≢ none
          → let r : Option (Load Kind Message (List ℕ) × S) = elim o [
            | none ↦ none
            | some (out, s') ↦ some (expect_end read source_len out s')
          ] in
            r ≢ none
      ended none h = λ _. h refl
      ended (some (out, s')) h = λ e. cc

-- A source that holds `content` and does not fail: a read on a buffer of length `n` gives a first part
-- of what is left, and nothing only at the end.
pub record Reads {Kind Message S : Type 0} (read : ℕ → S → Io Kind Message (List ℕ) × S)
    (content : S → List ℕ) (n : ℕ) (s : S) : Type 0 where
  pub bytes : List ℕ
  pub after : S
  pub returns : read n s ≡ (done bytes, after)
  pub part : content s ≡ bytes ++ content after
  pub within : length bytes ≤ n
  pub ends : 0 < n → bytes ≡ [] → content s ≡ []

module _ {Kind Message : Type 0} where
  -- What the loader must make of a source with this content, whose metadata gave this length.
  abbrev pub verdict : ℕ → List ℕ → Load Kind Message (List ℕ)
  verdict source_len content =
      if length content == source_len
      then loaded content
      else refused (
          source_changed source_len
            (if ltb (length content) source_len then length content else saturating_suc source_len))

module _ {Kind Message S : Type 0} (read : ℕ → S → Io Kind Message (List ℕ) × S) where
  -- A round that reads something, and one that reads nothing.
  pub fill-some :
      (fuel source_len capacity : ℕ) (filled : List ℕ) (b : ℕ) (bs : List ℕ) (s after : S)
      → ltb (length filled) capacity ≡ true
      → read (capacity - length filled) s ≡ (done (b ∷ bs), after)
      → fill read (suc fuel) source_len capacity filled s
        ≡ fill read fuel source_len capacity (filled ++ b ∷ bs) after
  unfolding fill
  fill-some fuel source_len capacity filled b bs s after more e =
      rw (more, ap (λ x. x.0) e, ap (λ x. x.1) e, fill) refl

  pub fill-nothing :
      (fuel source_len capacity : ℕ) (filled : List ℕ) (s after : S)
      → ltb (length filled) capacity ≡ true
      → read (capacity - length filled) s ≡ (done [], after)
      → fill read (suc fuel) source_len capacity filled s
        ≡ some (refused (source_changed source_len (length filled)), after)
  unfolding fill
  fill-nothing fuel source_len capacity filled s after more e =
      rw (more, ap (λ x. x.0) e, ap (λ x. x.1) e, fill) refl

  read_exact_bounded-fill :
      (source_len capacity : ℕ) (s after : S) (out : Load Kind Message (List ℕ))
      → fill read (suc capacity) source_len capacity [] s ≡ some (out, after)
      → read_exact_bounded read source_len capacity s ≡ some (expect_end read source_len out after)
  unfolding read_exact_bounded
  read_exact_bounded-fill source_len capacity s after out e =
      ap
        (λ (o : Option (Load Kind Message (List ℕ) × S)).
          let r : Option (Load Kind Message (List ℕ) × S) = elim o [
            | none ↦ none
            | some (x, t) ↦ some (expect_end read source_len x t)
          ] in
          r)
        e

module _ {Kind Message S : Type 0} (read : ℕ → S → Io Kind Message (List ℕ) × S)
    (content : S → List ℕ) (reads : (n : ℕ) (s : S) → Reads read content n s) where
  -- The two ends of the loop.
  abbrev Ends : ℕ → ℕ → ℕ → List ℕ → S → Type 0
  Ends fuel source_len capacity filled s =
      ((after : S) × (length filled + length (content s) < capacity)
        × (fill read fuel source_len capacity filled s
            ≡ some
                (refused (source_changed source_len (length filled + length (content s))), after)))
      ⊎ ((bytes : List ℕ) × (after : S) × (fill read fuel source_len capacity filled s
            ≡ some (loaded bytes, after))
          × (length bytes ≡ capacity)
          × (filled ++ content s ≡ bytes ++ content after))

  -- One round that does not end the loop by its test, from what its read gave.
  round :
      (source_len capacity : ℕ) (filled : List ℕ) (fuel : ℕ) (s : S)
      → ltb (length filled) capacity ≡ true
      → (r : Reads read content (capacity - length filled) s) (bytes : List ℕ) → r.bytes ≡ bytes
      → ((b : ℕ) (bs : List ℕ)
          → r.bytes ≡ b ∷ bs
          → Ends (suc fuel) source_len capacity (filled ++ b ∷ bs) r.after)
      → Ends (suc (suc fuel)) source_len capacity filled s
  round source_len capacity filled fuel s more r [] e next =
      let none_left : length (content s) ≡ 0 = ap length (r.ends (ground arith) e) in
      inl (
        r.after,
        ground (arith, none_left),
        fill-nothing read (suc fuel) source_len capacity filled s r.after more
              (r.returns ∙ ap (λ b. (done b, r.after)) e)
            ∙ ap (λ n. some (refused (source_changed source_len n), r.after))
                (omega (arith, none_left)),
      )
  round source_len capacity filled fuel s more r (b ∷ bs) e next =
      let stepped =
        fill-some read (suc fuel) source_len capacity filled b bs s r.after more
          (r.returns ∙ ap (λ b. (done b, r.after)) e) in
      let part = r.part ∙ ap (λ bytes. bytes ++ content r.after) e in
      let sizes = ap length part ∙ length-append (b ∷ bs) (content r.after) in
      let whole = length-append filled (b ∷ bs) in
      elim (next b bs e) [
        | inl (after, short, ends) ↦ inl (
          after,
          omega (arith, sizes, whole),
          stepped
              ∙ ends
              ∙ ap (λ n. some (refused (source_changed source_len n), after))
                  (omega (arith, sizes, whole)),
        )
        | inr (bytes, after, ends, full, same) ↦ inr (
          bytes,
          after,
          stepped ∙ ends,
          full,
          ap (λ xs. filled ++ xs) part
              ∙ sym (append_assoc filled (b ∷ bs) (content r.after))
              ∙ same,
        )
      ]

  fill-Ends :
      (fuel source_len capacity : ℕ) (filled : List ℕ) (s : S)
      → capacity ≤ fuel + length filled
      → length filled ≤ capacity
      → Ends (suc fuel) source_len capacity filled s
  unfolding fill
  fill-Ends zero source_len capacity filled s enough fits =
      inr (filled, s, ground arith, omega arith, refl)
  fill-Ends (suc fuel) source_len capacity filled s enough fits =
      elim (Bool-cases (ltb (length filled) capacity)) [
        | inr full ↦ inr (filled, s, rw (full, fill) refl, ground arith, refl)
        | inl more ↦
            let r = reads (capacity - length filled) s in
            round source_len capacity filled fuel s more r r.bytes refl λ b bs e.
              fill-Ends fuel source_len capacity (filled ++ b ∷ bs) r.after
                (omega (arith, length-append filled (b ∷ bs)))
                (omega
                  (arith, length-append filled (b ∷ bs), r.within, ap length e, ltb→lt _ _ more))
      ]

  -- The read past the end, after as many bytes as were expected.
  expect_end-verdict :
      (source_len : ℕ) (bytes : List ℕ) (s : S)
      → length bytes ≡ source_len
      → (after : S) × (expect_end read source_len (loaded bytes) s
          ≡ (verdict source_len (bytes ++ content s), after))
  unfolding expect_end
  expect_end-verdict source_len bytes s full = past (reads 1 s) (reads 1 s).bytes refl
    where
      past :
          (r : Reads read content 1 s) (more : List ℕ)
          → r.bytes ≡ more
          → (after : S) × (expect_end read source_len (loaded bytes) s
              ≡ (verdict source_len (bytes ++ content s), after))
      past r [] e =
          let returned = r.returns ∙ ap (λ b. (done b, r.after)) e in
          let same = ap (λ c. bytes ++ c) (r.ends (omega arith) e) ∙ append-nil bytes in
          (
            r.after,
            rw (ap (λ x. x.0) returned, ap (λ x. x.1) returned, expect_end, same)
                (ap (λ x. (x, r.after)) (ground (arith, full))),
          )
      past r (b ∷ bs) e =
          let returned = r.returns ∙ ap (λ b. (done b, r.after)) e in
          let part =
            ap length (r.part ∙ ap (λ c. c ++ content r.after) e)
            ∙ length-append (b ∷ bs) (content r.after) in
          let sizes = length-append bytes (content s) in
          (
            r.after,
            rw (ap (λ x. x.0) returned, ap (λ x. x.1) returned, expect_end)
                (ap (λ x. (x, r.after)) (ground (arith, full, part, sizes))),
          )

  -- On a source that holds its content and does not fail, whose metadata gave a length that the process
  -- can hold, the read gives the whole content where it has that length, and otherwise refuses with
  -- the length that it saw, or with one byte more than was expected.
  pub read_exact :
      (source_len : ℕ) (s : S)
      → (after : S) × (read_exact_bounded read source_len source_len s
          ≡ some (verdict source_len (content s), after))
  unfolding expect_end
  read_exact source_len s =
      elim (fill-Ends source_len source_len source_len [] s (omega arith) (omega arith)) [
        | inl (after, short, ends) ↦ (
          after,
          read_exact_bounded-fill read source_len source_len s after _ ends
              ∙ ap (λ x. some (x, after)) (ground arith),
        )
        | inr (bytes, mid, ends, full, same) ↦
            let (after, e) = expect_end-verdict source_len bytes mid full in
            (
              after,
              read_exact_bounded-fill read source_len source_len s mid _ ends
                  ∙ ap some (e ∙ ap (λ c. (verdict source_len c, after)) (sym same)),
            )
      ]
