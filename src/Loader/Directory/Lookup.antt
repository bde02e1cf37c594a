-- ===== src/Loader/Directory/Lookup.antt =====
-- The directory as a map from keys (crates/assets/examples/file_loader/mod.rs, lines 92 to 103 and 226
-- to 277).
use fluxel_bases.Prelude.{
  ◌≡◌, ◌↔◌, refl, ap, sym, ◌∙◌, Bool, true, ◌&&◌, none, some, List, [], ◌∷◌, arith, if◌then◌else◌,
}
use fluxel_bases.Loader.Key.{
  PathBuf-discrete, FileKey, Variant, raw, uppercase, same_variant, decided, same_key,
}
use fluxel_bases.Loader.Directory.{lookup, insert, erase}

same_variant_iff : (a b : Variant) → (same_variant a b ≡ true) ↔ (a ≡ b)
same_variant_iff raw raw = (λ _. refl, λ _. refl)
same_variant_iff raw uppercase = (λ e. cc, λ e. cc)
same_variant_iff uppercase raw = (λ e. cc, λ e. cc)
same_variant_iff uppercase uppercase = (λ _. refl, λ _. refl)

decided_iff : {P : Type 0} (d : Dec P) → (decided d ≡ true) ↔ P
decided_iff (yes p) = (λ _. p, λ _. refl)
decided_iff (no n) = (λ e. cc, λ p. absurd (n p))

both : (x y : Bool) → (x && y) ≡ true → (x ≡ true) × (y ≡ true)
both x y e = ground arith

-- The hand-written `==` of keys decides the equality of both fields.
pub same_key_iff : (a b : FileKey) → (same_key a b ≡ true) ↔ (a ≡ b)
unfolding same_key
same_key_iff a b =
    let paths = decided_iff (PathBuf-discrete a.path b.path) in
    let variants = same_variant_iff a.variant b.variant in
    (
      λ e.
          let (p, v) =
            both (decided (PathBuf-discrete a.path b.path)) (same_variant a.variant b.variant) e in
          let path = paths.0 p in
          let variant = variants.0 v in λ i. record { path = path i; variant = variant i },
      λ e.
          rw (paths.1 (ap (λ (k : FileKey). k.path) e))
            (variants.1 (ap (λ (k : FileKey). k.variant) e)),
    )

-- Equal keys are found alike, and keys equal to a third are equal.
same_key_left : (a b c : FileKey) → same_key a b ≡ true → same_key a c ≡ same_key b c
same_key_left a b c e = ap (λ k. same_key k c) ((same_key_iff a b).0 e)

same_key_join : (a b c : FileKey) → same_key a c ≡ true → same_key b c ≡ true → same_key a b ≡ true
same_key_join a b c p q =
    (same_key_iff a b).1 ((same_key_iff a c).0 p ∙ sym ((same_key_iff b c).0 q))

module _ {A : Type 0} where
  pub lookup-insert :
      (k j : FileKey) (a : A) (d : List (FileKey × A))
      → lookup j (insert k a d) ≡ (if same_key k j then some a else lookup j d)
  unfolding lookup insert
  lookup-insert k j a [] = refl
  lookup-insert k j a ((i, b) ∷ d) =
      ground (arith, same_key_left i k j, same_key_join i k j, lookup-insert k j a d)

  pub lookup-erase :
      (k j : FileKey) (d : List (FileKey × A))
      → lookup j (erase k d) ≡ (if same_key k j then none else lookup j d)
  unfolding lookup erase
  lookup-erase k j [] = ground arith
  lookup-erase k j ((i, b) ∷ d) =
      ground (arith, same_key_left i k j, same_key_join i k j, lookup-erase k j d)
