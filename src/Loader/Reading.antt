-- ===== src/Loader/Reading.antt =====
-- crates/assets/examples/file_loader/mod.rs, lines 457 to 487: the read of a source whose length was
-- given by its metadata. `read n s` is `source.read` on a buffer of length `n`: the bytes that it put
-- there, in order, and the source after it. The buffer is the part that is filled; the rest of it is
-- never seen. The loop runs on fuel, and its `none` says that the fuel ran out.
pub mod Exact
pub mod Stops
use fluxel_bases.Prelude.{
  ℕ, zero, suc, ◌+◌, ◌-◌, Bool, Option, none, some, List, [], ◌∷◌, ◌++◌, u64_max, length, ltb, leb,
  if◌then◌else◌, ◌==◌,
}
use fluxel_bases.Loader.Failure.{
  IoError, LoadError, source_changed, Io, done, fails, Load, loaded, refused, io,
}

-- `a.saturating_add(1)`
abbrev pub saturating_suc : ℕ → ℕ
saturating_suc a = if ltb a u64_max then a + 1 else a

module _ {Kind Message S : Type 0} (read : ℕ → S → Io Kind Message (List ℕ) × S) where
  -- The loop, on the bytes filled so far.
  unfoldable pub fill :
      (fuel : ℕ) → (source_len capacity : ℕ) → List ℕ → S → Option (Load Kind Message (List ℕ) × S)
  unfolding io
  fill zero source_len capacity filled s = none
  fill (suc fuel) source_len capacity filled s = elim (ltb (length filled) capacity) [
    | Bool.false ↦ some (loaded filled, s)
    | Bool.true ↦
        let (out, s') = read (capacity - length filled) s in
        elim out [
          | fails e ↦ some (refused (io e), s')
          | done [] ↦ some (refused (source_changed source_len (length filled)), s')
          | done (b ∷ bs) ↦ fill fuel source_len capacity (filled ++ b ∷ bs) s'
        ]
  ]

  -- The read of one more byte, which must not be there.
  unfoldable pub expect_end :
      (source_len : ℕ) → Load Kind Message (List ℕ) → S → Load Kind Message (List ℕ) × S
  unfolding io
  expect_end source_len (loaded bytes) s =
      let (out, s') = read 1 s in
      elim out [
        | fails e ↦ (refused (io e), s')
        | done [] ↦ (loaded bytes, s')
        | done (b ∷ bs) ↦ (refused (source_changed source_len (saturating_suc source_len)), s')
      ]
  expect_end source_len other s = (other, s)

  -- Each round but the last fills a byte, so that one round more than the capacity is enough.
  unfoldable pub read_exact_bounded : ℕ → ℕ → S → Option (Load Kind Message (List ℕ) × S)
  unfolding fill expect_end
  read_exact_bounded source_len capacity s = elim (fill (suc capacity) source_len capacity [] s) [
    | none ↦ none
    | some (out, s') ↦ some (expect_end source_len out s')
  ]
