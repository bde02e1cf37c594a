-- ===== src/Loader/Production/Refuses.antt =====
-- The productions that read no content (crates/assets/examples/file_loader/mod.rs, lines 350 to 411 and 457
-- to 487).
use fluxel_bases.Prelude.{
  ℕ, ◌<◌, ◌≤◌, ◌≡◌, ◌↔◌, inl, inr, refl, ap, sym, ◌∙◌, false, Option, none, some, List, arith,
  try_from, try_from-cases,
}
use fluxel_bases.Loader.Failure.{
  IoError, LoadError, Load, loaded, panics, refused, source_too_large, Io, io, done, fails,
}
use fluxel_bases.Loader.Key.{FileKey}
use fluxel_bases.Loader.Reading.{read_exact_bounded}
use fluxel_bases.Loader.Reading.Stops.{
  Stops, IsBounded, read_exact_bounded-Stops, read_exact_bounded-refused,
}
use fluxel_bases.Loader.Production.{FileSystem, prepare, read_source, transformed_read}
use fluxel_bases.Loader.Requests.Published.{try_from-fits}

module _ {Kind Message : Type 0} (usize_max : ℕ) (fs : FileSystem Kind Message) where
  -- The ways in which a production without a budget reads no content, each with its error: the file
  -- does not open, its length cannot be read or does not fit a `usize`, or one of its reads fails, ends
  -- early or goes past that length.
  pub data Refuses (key : FileKey) (error : LoadError Kind Message) : Type 0 where
    open_fails :
        (e : IoError Kind Message)
        → fs.open_file key.path ≡ fails e
        → error ≡ io e
        → Refuses key error
    length_fails :
        (e : IoError Kind Message) (source : fs.Source)
        → fs.open_file key.path ≡ done source
        → fs.source_length source ≡ fails e
        → error ≡ io e
        → Refuses key error
    too_large :
        (n : ℕ) (source : fs.Source)
        → fs.open_file key.path ≡ done source
        → fs.source_length source ≡ done n
        → usize_max < n
        → error ≡ source_too_large
        → Refuses key error
    stops :
        (n : ℕ) (source : fs.Source)
        → fs.open_file key.path ≡ done source
        → fs.source_length source ≡ done n
        → n ≤ usize_max
        → Stops fs.read n error 0 n source
        → Refuses key error

  try_from-exceeds : (n : ℕ) → usize_max < n → try_from usize_max n ≡ none
  unfolding try_from
  try_from-exceeds n more = ground arith

  read_source-Stops :
      (key : FileKey) (error : LoadError Kind Message) (n : ℕ) (source : fs.Source)
      → n ≤ usize_max
      → Stops fs.read n error 0 n source
      → read_source usize_max fs key source n ≡ refused error
  unfolding read_source
  read_source-Stops key error n source fits t =
      let (after, e) = read_exact_bounded-Stops fs.read n error source t in
      rw (try_from-fits usize_max n fits, read_source) (ap (transformed_read usize_max fs key) e)

  pub prepare-Refuses :
      (key : FileKey) (error : LoadError Kind Message)
      → Refuses key error
      → prepare usize_max fs key none
        ≡ record { outcome = refused error; lease = none; is_rejected = false }
  unfolding prepare read_source
  prepare-Refuses key error (open_fails e opens same) = rw (opens, same, prepare) refl
  prepare-Refuses key error (length_fails e source opens measures same) =
      rw (opens, measures, same, prepare) refl
  prepare-Refuses key error (too_large n source opens measures more same) =
      rw (opens, measures, try_from-exceeds n more, same, prepare, read_source) refl
  prepare-Refuses key error (stops n source opens measures fits t) =
      rw (opens, measures, read_source-Stops key error n source fits t, prepare) refl

  -- A transformed read is an error only where the read is.
  transformed_read-refused :
      (key : FileKey) (error : LoadError Kind Message)
      (o : Option (Load Kind Message (List ℕ) × fs.Source))
      → transformed_read usize_max fs key o ≡ refused error
      → (after : fs.Source) × (o ≡ some (refused error, after))
  transformed_read-refused key error none h = cc
  transformed_read-refused key error (some (loaded bytes, s)) h = cc
  transformed_read-refused key error (some (refused e, s)) h = (s, cc)
  transformed_read-refused key error (some (panics, s)) h = cc

  refused-inj :
      (x y : LoadError Kind Message)
      → ◌≡◌ {A = Load Kind Message (List ℕ)} (refused x) (refused y)
      → y ≡ x
  refused-inj x y e = cc

  read_source-too_large :
      (key : FileKey) (n : ℕ) (source : fs.Source)
      → try_from usize_max n ≡ none
      → read_source usize_max fs key source n ≡ refused source_too_large
  unfolding read_source
  read_source-too_large key n source e = rw (e, read_source) refl

  read_source-read :
      (key : FileKey) (n : ℕ) (source : fs.Source)
      → try_from usize_max n ≡ some n
      → read_source usize_max fs key source n
        ≡ transformed_read usize_max fs key (read_exact_bounded fs.read n n source)
  unfolding read_source
  read_source-read key n source e = rw (e, read_source) refl

  prepare-open :
      (key : FileKey) (e : IoError Kind Message)
      → fs.open_file key.path ≡ fails e
      → (prepare usize_max fs key none).outcome ≡ refused (io e)
  unfolding prepare
  prepare-open key e opens = rw (opens, prepare) refl

  prepare-length :
      (key : FileKey) (source : fs.Source) (e : IoError Kind Message)
      → fs.open_file key.path ≡ done source
      → fs.source_length source ≡ fails e
      → (prepare usize_max fs key none).outcome ≡ refused (io e)
  unfolding prepare
  prepare-length key source e opens measures = rw (opens, measures, prepare) refl

  prepare-read :
      (key : FileKey) (source : fs.Source) (n : ℕ)
      → fs.open_file key.path ≡ done source
      → fs.source_length source ≡ done n
      → (prepare usize_max fs key none).outcome ≡ read_source usize_max fs key source n
  unfolding prepare
  prepare-read key source n opens measures = rw (opens, measures, prepare) refl

module _ {Kind Message : Type 0} (usize_max : ℕ) (fs : FileSystem Kind Message)
    (bounded : (n : ℕ) (s : fs.Source) → IsBounded fs.read n (fs.read n s)) (key : FileKey)
    (error : LoadError Kind Message) where
  read-Refuses :
      (n : ℕ) (source : fs.Source)
      → fs.open_file key.path ≡ done source
      → fs.source_length source ≡ done n
      → read_source usize_max fs key source n ≡ refused error
      → Refuses usize_max fs key error
  read-Refuses n source opens measures h = elim (try_from-cases usize_max n) [
    | inl (over, more) ↦ too_large n source opens measures more (
        refused-inj usize_max fs source_too_large error
          (sym (read_source-too_large usize_max fs key n source over) ∙ h))
    | inr (fits, le) ↦
        let (after, e) =
          transformed_read-refused usize_max fs key error (read_exact_bounded fs.read n n source)
            (sym (read_source-read usize_max fs key n source fits) ∙ h) in
        stops n source opens measures le
          (read_exact_bounded-refused fs.read bounded n error source after e)
  ]

  length-Refuses :
      (source : fs.Source) (length_is : Io Kind Message ℕ)
      → fs.open_file key.path ≡ done source
      → fs.source_length source ≡ length_is
      → (prepare usize_max fs key none).outcome ≡ refused error
      → Refuses usize_max fs key error
  length-Refuses source (fails e) opens measures h = length_fails e source opens measures (
      refused-inj usize_max fs (io e) error
        (sym (prepare-length usize_max fs key source e opens measures) ∙ h))
  length-Refuses source (done n) opens measures h =
      read-Refuses n source opens measures
        (sym (prepare-read usize_max fs key source n opens measures) ∙ h)

  outcome-Refuses :
      (opened : Io Kind Message fs.Source)
      → fs.open_file key.path ≡ opened
      → (prepare usize_max fs key none).outcome ≡ refused error
      → Refuses usize_max fs key error
  outcome-Refuses (fails e) opens h =
      open_fails e opens
        (refused-inj usize_max fs (io e) error (sym (prepare-open usize_max fs key e opens) ∙ h))
  outcome-Refuses (done source) opens h =
      length-Refuses source (fs.source_length source) opens refl h

  -- Where a read gives no more than its buffer holds, the steps of a production without a budget before
  -- its commit end in an error exactly in these ways, each by its own error.
  pub prepare-Refuses_iff :
      ((prepare usize_max fs key none).outcome ≡ refused error) ↔ Refuses usize_max fs key error
  prepare-Refuses_iff = (
    outcome-Refuses (fs.open_file key.path) refl,
    λ refuses. ap (λ p. p.outcome) (prepare-Refuses usize_max fs key error refuses),
  )
