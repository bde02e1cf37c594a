-- ===== src/Loader/Reading/Stops.antt =====
-- The reads of a source that end without its content (crates/assets/examples/file_loader/mod.rs, lines
-- 457 to 487).
use fluxel_bases.Prelude.{
  ℕ, zero, suc, ◌+◌, ◌-◌, ◌≤◌, ◌<◌, ◌≡◌, refl, sym, ap, subst, ◌∙◌, inl, inr, true, false, Option,
  none, some, List, [], ◌∷◌, ◌++◌, arith, length, length-append, ltb, Bool-cases,
}
use fluxel_bases.Loader.Failure.{
  IoError, LoadError, source_changed, Io, done, fails, Load, loaded, refused, io,
}
use fluxel_bases.Loader.Reading.{saturating_suc, fill, expect_end, read_exact_bounded}
use fluxel_bases.Loader.Reading.Exact.{fill-some, fill-nothing}

module _ {Kind Message S : Type 0} (read : ℕ → S → Io Kind Message (List ℕ) × S) where
  -- What a source does, read by read, from so many bytes read and so many to read, until a read fails,
  -- or it ends before the length that its metadata gave, or it has a byte past it.
  pub data Stops (source_len : ℕ) (error : LoadError Kind Message) : ℕ → ℕ → S → Type 0 where
    read_fails :
        {filled rest : ℕ} {s : S} (e : IoError Kind Message) (s' : S)
        → 0 < rest
        → read rest s ≡ (fails e, s')
        → error ≡ io e
        → Stops source_len error filled rest s
    ends_early :
        {filled rest : ℕ} {s : S} (s' : S)
        → 0 < rest
        → read rest s ≡ (done [], s')
        → error ≡ source_changed source_len filled
        → Stops source_len error filled rest s
    goes_on :
        {filled rest : ℕ} {s : S} (left b : ℕ) (bs : List ℕ) (s' : S)
        → read rest s ≡ (done (b ∷ bs), s')
        → length (b ∷ bs) + left ≡ rest
        → Stops source_len error (filled + length (b ∷ bs)) left s'
        → Stops source_len error filled rest s
    last_fails :
        {filled rest : ℕ} {s : S} (e : IoError Kind Message) (s' : S)
        → rest ≡ 0
        → read 1 s ≡ (fails e, s')
        → error ≡ io e
        → Stops source_len error filled rest s
    goes_past :
        {filled rest : ℕ} {s : S} (b : ℕ) (bs : List ℕ) (s' : S)
        → rest ≡ 0
        → read 1 s ≡ (done (b ∷ bs), s')
        → error ≡ source_changed source_len (saturating_suc source_len)
        → Stops source_len error filled rest s

  -- The end of `read_exact_bounded`, after its loop.
  abbrev ended :
      ℕ → Option (Load Kind Message (List ℕ) × S) → Option (Load Kind Message (List ℕ) × S)
  ended source_len none = none
  ended source_len (some (out, s)) = some (expect_end read source_len out s)

  fill-fails :
      (fuel source_len capacity : ℕ) (filled : List ℕ) (e : IoError Kind Message) (s s' : S)
      → ltb (length filled) capacity ≡ true
      → read (capacity - length filled) s ≡ (fails e, s')
      → fill read (suc fuel) source_len capacity filled s ≡ some (refused (io e), s')
  unfolding fill
  fill-fails fuel source_len capacity filled e s s' more r =
      rw (more, ap (λ x. x.0) r, ap (λ x. x.1) r, fill) refl

  fill-full :
      (fuel source_len capacity : ℕ) (filled : List ℕ) (s : S)
      → ltb (length filled) capacity ≡ false
      → fill read (suc fuel) source_len capacity filled s ≡ some (loaded filled, s)
  unfolding fill
  fill-full fuel source_len capacity filled s full = rw (full, fill) refl

  expect_end-fails :
      (source_len : ℕ) (bytes : List ℕ) (e : IoError Kind Message) (s s' : S)
      → read 1 s ≡ (fails e, s')
      → expect_end read source_len (loaded bytes) s ≡ (refused (io e), s')
  unfolding expect_end
  expect_end-fails source_len bytes e s s' r =
      rw (ap (λ x. x.0) r, ap (λ x. x.1) r, expect_end) refl

  expect_end-nothing :
      (source_len : ℕ) (bytes : List ℕ) (s s' : S)
      → read 1 s ≡ (done [], s')
      → expect_end read source_len (loaded bytes) s ≡ (loaded bytes, s')
  unfolding expect_end
  expect_end-nothing source_len bytes s s' r =
      rw (ap (λ x. x.0) r, ap (λ x. x.1) r, expect_end) refl

  expect_end-past :
      (source_len : ℕ) (bytes : List ℕ) (b : ℕ) (bs : List ℕ) (s s' : S)
      → read 1 s ≡ (done (b ∷ bs), s')
      → expect_end read source_len (loaded bytes) s
        ≡ (refused (source_changed source_len (saturating_suc source_len)), s')
  unfolding expect_end
  expect_end-past source_len bytes b bs s s' r =
      rw (ap (λ x. x.0) r, ap (λ x. x.1) r, expect_end) refl

  -- The read on a buffer for what is left.
  rest-read :
      (filled rest capacity : ℕ) (s : S) {r : Io Kind Message (List ℕ) × S}
      → filled + rest ≡ capacity
      → read rest s ≡ r
      → read (capacity - filled) s ≡ r
  rest-read filled rest capacity s sum e = ap (λ n. read n s) (omega (arith, sum)) ∙ e

  ended-Stops :
      (fuel source_len capacity : ℕ) (error : LoadError Kind Message) (filled : List ℕ) (rest : ℕ)
      (s : S)
      → length filled + rest ≡ capacity
      → rest ≤ fuel
      → Stops source_len error (length filled) rest s
      → (after : S) × (ended source_len (fill read (suc fuel) source_len capacity filled s)
          ≡ some (refused error, after))
  unfolding expect_end
  ended-Stops fuel source_len capacity error filled rest s sum enough
        (read_fails e s' more r same) =
      (
        s',
        ap (ended source_len) (
              fill-fails fuel source_len capacity filled e s s' (ground arith)
                (rest-read (length filled) rest capacity s sum r))
            ∙ ap (λ x. some (refused x, s')) (sym same),
      )
  ended-Stops fuel source_len capacity error filled rest s sum enough (ends_early s' more r same) =
      (
        s',
        ap (ended source_len) (
              fill-nothing read fuel source_len capacity filled s s' (ground arith)
                (rest-read (length filled) rest capacity s sum r))
            ∙ ap (λ x. some (refused x, s')) (sym same),
      )
  ended-Stops zero source_len capacity error filled rest s sum enough
        (goes_on left b bs s' r parts t) =
      absurd (omega (arith, parts, enough))
  ended-Stops (suc fuel) source_len capacity error filled rest s sum enough
        (goes_on left b bs s' r parts t) =
      let grown = length-append filled (b ∷ bs) in
      let (after, e) =
        ended-Stops fuel source_len capacity error (filled ++ b ∷ bs) left s'
          (omega (arith, grown, sum, parts)) (omega (arith, parts, enough))
          (subst (λ f. Stops source_len error f left s') (sym grown) t) in
      (
        after,
        ap (ended source_len) (
              fill-some read (suc fuel) source_len capacity filled b bs s s' (ground arith)
                (rest-read (length filled) rest capacity s sum r))
            ∙ e,
      )
  ended-Stops fuel source_len capacity error filled rest s sum enough
        (last_fails e s' full r same) =
      (
        s',
        ap (ended source_len) (fill-full fuel source_len capacity filled s (ground arith))
            ∙ ap some (expect_end-fails source_len filled e s s' r)
            ∙ ap (λ x. some (refused x, s')) (sym same),
      )
  ended-Stops fuel source_len capacity error filled rest s sum enough
        (goes_past b bs s' full r same) =
      (
        s',
        ap (ended source_len) (fill-full fuel source_len capacity filled s (ground arith))
            ∙ ap some (expect_end-past source_len filled b bs s s' r)
            ∙ ap (λ x. some (refused x, s')) (sym same),
      )

  -- The bounded read of a source that stops answers with the error that it stops by.
  pub read_exact_bounded-Stops :
      (source_len : ℕ) (error : LoadError Kind Message) (s : S)
      → Stops source_len error 0 source_len s
      → (after : S) × (read_exact_bounded read source_len source_len s
          ≡ some (refused error, after))
  unfolding read_exact_bounded
  read_exact_bounded-Stops source_len error s t =
      let (after, e) =
        ended-Stops source_len source_len source_len error [] source_len s (omega arith)
          (omega arith) t in
      (after, e)

module _ {Kind Message S : Type 0} (read : ℕ → S → Io Kind Message (List ℕ) × S) where
  -- A read gives no more than its buffer holds.
  abbrev pub IsBounded : ℕ → Io Kind Message (List ℕ) × S → Type 0
  IsBounded n (done bytes, s) = length bytes ≤ n
  IsBounded n (fails e, s) = Unit {0}

  refused-inj :
      (x y : LoadError Kind Message) (s t : S)
      → ◌≡◌ {A = Option (Load Kind Message (List ℕ) × S)}
          (some (refused x, s))
          (some (refused y, t))
      → y ≡ x
  refused-inj x y s t e = cc

  loaded-ne-refused :
      (bytes : List ℕ) (y : LoadError Kind Message) (s t : S)
      → ◌≡◌ {A = Option (Load Kind Message (List ℕ) × S)}
          (some (loaded bytes, s))
          (some (refused y, t))
      → ⊥
  loaded-ne-refused bytes y s t e = cc

  -- The end of the read, after as many bytes as the metadata gave.
  refused-last :
      (source_len : ℕ) (error : LoadError Kind Message) (filled : List ℕ) (rest : ℕ) (s : S)
      (out : Io Kind Message (List ℕ)) (s' after : S)
      → rest ≡ 0
      → read 1 s ≡ (out, s')
      → some (expect_end read source_len (loaded filled) s) ≡ some (refused error, after)
      → Stops read source_len error (length filled) rest s
  unfolding expect_end
  refused-last source_len error filled rest s (fails e) s' after full r h = last_fails e s' full r (
      refused-inj (io e) error s' after
        (ap some (sym (expect_end-fails read source_len filled e s s' r)) ∙ h))
  refused-last source_len error filled rest s (done []) s' after full r h = absurd (
      loaded-ne-refused filled error s' after
        (ap some (sym (expect_end-nothing read source_len filled s s' r)) ∙ h))
  refused-last source_len error filled rest s (done (b ∷ bs)) s' after full r h =
      goes_past b bs s' full r (
        refused-inj _ error s' after
          (ap some (sym (expect_end-past read source_len filled b bs s s' r)) ∙ h))

  -- A round of the loop that reads, with what the rounds after it give.
  refused-round :
      (fuel source_len capacity : ℕ) (error : LoadError Kind Message) (filled : List ℕ) (rest : ℕ)
      (s : S) (out : Io Kind Message (List ℕ)) (s' after : S)
      → length filled + rest ≡ capacity
      → 0 < rest
      → read rest s ≡ (out, s')
      → IsBounded rest (out, s')
      → ((left b : ℕ) (bs : List ℕ)
          → length (filled ++ b ∷ bs) + left ≡ capacity
          → ended read source_len (fill read fuel source_len capacity (filled ++ b ∷ bs) s')
            ≡ some (refused error, after)
          → Stops read source_len error (length (filled ++ b ∷ bs)) left s')
      → ended read source_len (fill read (suc fuel) source_len capacity filled s)
        ≡ some (refused error, after)
      → Stops read source_len error (length filled) rest s
  unfolding expect_end
  refused-round fuel source_len capacity error filled rest s (fails e) s' after sum more r within
        next h =
      read_fails e s' more r (
        refused-inj (io e) error s' after (
          ap (ended read source_len) (
            sym (
              fill-fails read fuel source_len capacity filled e s s' (ground arith)
                (rest-read read (length filled) rest capacity s sum r)))
          ∙ h))
  refused-round fuel source_len capacity error filled rest s (done []) s' after sum more r within
        next h =
      ends_early s' more r (
        refused-inj (source_changed source_len (length filled)) error s' after (
          ap (ended read source_len) (
            sym (
              fill-nothing read fuel source_len capacity filled s s' (ground arith)
                (rest-read read (length filled) rest capacity s sum r)))
          ∙ h))
  refused-round fuel source_len capacity error filled rest s (done (b ∷ bs)) s' after sum more r
        within next h =
      let grown = length-append filled (b ∷ bs) in
      goes_on (rest - length (b ∷ bs)) b bs s' r (omega (arith, within)) (
        subst (λ f. Stops read source_len error f (rest - length (b ∷ bs)) s') grown
          (next (rest - length (b ∷ bs)) b bs (omega (arith, grown, within, sum)) (
            ap (ended read source_len) (
              sym (
                fill-some read fuel source_len capacity filled b bs s s' (ground arith)
                  (rest-read read (length filled) rest capacity s sum r)))
            ∙ h)))

module _ {Kind Message S : Type 0} (read : ℕ → S → Io Kind Message (List ℕ) × S)
    (bounded : (n : ℕ) (s : S) → IsBounded read n (read n s)) where
  no_fuel :
      (source_len capacity : ℕ) (error : LoadError Kind Message) (filled : List ℕ) (s after : S)
      → ended read source_len (fill read zero source_len capacity filled s)
        ≡ some (refused error, after)
      → ⊥
  unfolding fill
  no_fuel source_len capacity error filled s after h = cc

  refused-Stops :
      (fuel source_len capacity : ℕ) (error : LoadError Kind Message) (filled : List ℕ) (rest : ℕ)
      (s after : S)
      → length filled + rest ≡ capacity
      → ended read source_len (fill read fuel source_len capacity filled s)
        ≡ some (refused error, after)
      → Stops read source_len error (length filled) rest s
  refused-Stops zero source_len capacity error filled rest s after sum h =
      absurd (no_fuel source_len capacity error filled s after h)
  refused-Stops (suc fuel) source_len capacity error filled rest s after sum h =
      elim (Bool-cases (ltb (length filled) capacity)) [
        | inl more ↦
            refused-round read fuel source_len capacity error filled rest s (read rest s).0
              (read rest s).1 after sum (ground (arith, more, sum)) refl (bounded rest s)
              (λ left b bs total rec.
                refused-Stops fuel source_len capacity error (filled ++ b ∷ bs) left (read rest s).1
                  after total rec)
              h
        | inr full ↦
            refused-last read source_len error filled rest s (read 1 s).0 (read 1 s).1 after
              (ground (arith, full, sum)) refl
              (ap (ended read source_len)
                  (sym (fill-full read fuel source_len capacity filled s full))
                ∙ h)
      ]

  -- The bounded read answers with an error only where its source stops by it.
  pub read_exact_bounded-refused :
      (source_len : ℕ) (error : LoadError Kind Message) (s after : S)
      → read_exact_bounded read source_len source_len s ≡ some (refused error, after)
      → Stops read source_len error 0 source_len s
  unfolding read_exact_bounded
  read_exact_bounded-refused source_len error s after h =
      refused-Stops (suc source_len) source_len source_len error [] source_len s after (omega arith)
        h
