-- ===== src/Prelude/Lists.antt =====
-- Lists measured and indexed by native numbers, under the library's names.
use Prim.Native.Nat.{ℕ, zero, suc, ◌+◌, ◌≤◌, ◌<◌}
use mathlib.Core.Path.{◌≡◌, refl, ap, subst}
use mathlib.Core.Logic.{◌≢◌, ◌⊎◌}
use mathlib.Core.List.{List, [], ◌∷◌, ◌++◌}
use mathlib.Core.Option.{Option, none, some, some-injective}
use native.Mathlib.Omega.{arith}

module _ {A : Type 0} where
  abbrev pub IsMember : A → List A → Type 0
  IsMember x [] = ⊥
  IsMember x (y ∷ ys) = (y ≡ x) ⊎ IsMember x ys

module _ {ℓ} {A : Type ℓ} where
  abbrev pub length : List A → ℕ
  length [] = 0
  length (x ∷ xs) = suc (length xs)

  unfoldable pub get_elem? : List A → ℕ → Option A
  get_elem? [] i = none
  get_elem? (x ∷ xs) zero = some x
  get_elem? (x ∷ xs) (suc i) = get_elem? xs i

  -- A write out of bounds changes nothing.
  unfoldable pub set : List A → ℕ → A → List A
  set [] i v = []
  set (x ∷ xs) zero v = v ∷ xs
  set (x ∷ xs) (suc i) v = x ∷ set xs i v

  abbrev pub All {κ} : (A → Type κ) → List A → Type κ
  All P [] = Unit
  All P (x ∷ xs) = P x × All P xs

module _ {ℓ} {A : Type ℓ} where
  pub length-set : (xs : List A) (i : ℕ) (v : A) → length (set xs i v) ≡ length xs
  unfolding set
  length-set [] i v = refl
  length-set (x ∷ xs) zero v = refl
  length-set (x ∷ xs) (suc i) v = ap suc (length-set xs i v)

  pub length-append : (xs ys : List A) → length (xs ++ ys) ≡ length xs + length ys
  length-append [] ys = omega arith
  length-append (x ∷ xs) ys = omega (arith, length-append xs ys)

  pub get_elem?-lt : (xs : List A) (i : ℕ) {v : A} → get_elem? xs i ≡ some v → i < length xs
  unfolding get_elem?
  get_elem?-lt [] i h = absurd (cc)
  get_elem?-lt (x ∷ xs) zero h = omega arith
  get_elem?-lt (x ∷ xs) (suc i) h = omega (arith, get_elem?-lt xs i h)

  pub get_elem?-set_self :
      (xs : List A) (i : ℕ) (v : A) → i < length xs → get_elem? (set xs i v) i ≡ some v
  unfolding get_elem? set
  get_elem?-set_self [] i v h = elim h [ ]
  get_elem?-set_self (x ∷ xs) zero v h = refl
  get_elem?-set_self (x ∷ xs) (suc i) v h = get_elem?-set_self xs i v (omega arith)

  pub get_elem?-set_ne :
      (xs : List A) (i j : ℕ) (v : A) → i ≢ j → get_elem? (set xs i v) j ≡ get_elem? xs j
  unfolding get_elem? set
  get_elem?-set_ne [] i j v h = refl
  get_elem?-set_ne (x ∷ xs) zero zero v h = absurd (h refl)
  get_elem?-set_ne (x ∷ xs) zero (suc j) v h = refl
  get_elem?-set_ne (x ∷ xs) (suc i) zero v h = refl
  get_elem?-set_ne (x ∷ xs) (suc i) (suc j) v h = get_elem?-set_ne xs i j v (λ e. h (ap suc e))

  pub set-set : (xs : List A) (i : ℕ) (u v : A) → set (set xs i u) i v ≡ set xs i v
  unfolding set
  set-set [] i u v = refl
  set-set (x ∷ xs) zero u v = refl
  set-set (x ∷ xs) (suc i) u v = ap (◌∷◌ x) (set-set xs i u v)

  pub get_elem?-append_last : (xs : List A) (v : A) → get_elem? (xs ++ v ∷ []) (length xs) ≡ some v
  unfolding get_elem?
  get_elem?-append_last [] v = refl
  get_elem?-append_last (x ∷ xs) v = get_elem?-append_last xs v

  pub get_elem?-append_lt :
      (xs ys : List A) (i : ℕ) → i < length xs → get_elem? (xs ++ ys) i ≡ get_elem? xs i
  unfolding get_elem?
  get_elem?-append_lt [] ys i h = elim h [ ]
  get_elem?-append_lt (x ∷ xs) ys zero h = refl
  get_elem?-append_lt (x ∷ xs) ys (suc i) h = get_elem?-append_lt xs ys i (omega arith)

  pub get_elem?-append_ne :
      (xs : List A) (v : A) (i : ℕ) → length xs ≢ i → get_elem? (xs ++ v ∷ []) i ≡ get_elem? xs i
  unfolding get_elem?
  get_elem?-append_ne [] v zero h = absurd (h refl)
  get_elem?-append_ne [] v (suc i) h = refl
  get_elem?-append_ne (x ∷ xs) v zero h = refl
  get_elem?-append_ne (x ∷ xs) v (suc i) h = get_elem?-append_ne xs v i (λ e. h (ap suc e))

  pub get_elem?-ge : (xs : List A) (i : ℕ) → length xs ≤ i → get_elem? xs i ≡ none
  unfolding get_elem?
  get_elem?-ge [] i h = refl
  get_elem?-ge (x ∷ xs) zero h = absurd (omega arith)
  get_elem?-ge (x ∷ xs) (suc i) h = get_elem?-ge xs i (omega arith)

module _ {ℓ} {A : Type ℓ} where
  unfoldable pub remove_at : List A → ℕ → List A
  remove_at [] i = []
  remove_at (x ∷ xs) zero = xs
  remove_at (x ∷ xs) (suc i) = x ∷ remove_at xs i

  pub length-remove_at :
      (xs : List A) (i : ℕ) (v : A)
      → get_elem? xs i ≡ some v
      → length (remove_at xs i) + 1 ≡ length xs
  unfolding get_elem? remove_at
  length-remove_at [] i v h = absurd (cc)
  length-remove_at (x ∷ xs) zero v h = omega arith
  length-remove_at (x ∷ xs) (suc i) v h = omega (arith, length-remove_at xs i v h)

-- The sum of a weight over a list.
module _ {ℓ} {A : Type ℓ} (weight : A → ℕ) where
  unfoldable pub total : List A → ℕ
  total [] = 0
  total (x ∷ xs) = weight x + total xs

  pub total-set :
      (xs : List A) (i : ℕ) (old v : A)
      → get_elem? xs i ≡ some old
      → total (set xs i v) + weight old ≡ total xs + weight v
  unfolding get_elem? set total
  total-set [] i old v h = absurd (cc)
  total-set (x ∷ xs) zero old v h = ground arith
  total-set (x ∷ xs) (suc i) old v h = omega (arith, total-set xs i old v h)

  pub weight-le-total :
      (xs : List A) (i : ℕ) (v : A) → get_elem? xs i ≡ some v → weight v ≤ total xs
  unfolding get_elem? total
  weight-le-total [] i v h = absurd (cc)
  weight-le-total (x ∷ xs) zero v h = ground arith
  weight-le-total (x ∷ xs) (suc i) v h = omega (arith, weight-le-total xs i v h)

  pub total-remove_at :
      (xs : List A) (i : ℕ) (v : A)
      → get_elem? xs i ≡ some v
      → total (remove_at xs i) + weight v ≡ total xs
  unfolding get_elem? remove_at total
  total-remove_at [] i v h = absurd (cc)
  total-remove_at (x ∷ xs) zero v h = ground arith
  total-remove_at (x ∷ xs) (suc i) v h = omega (arith, total-remove_at xs i v h)

  pub total-append : (xs ys : List A) → total (xs ++ ys) ≡ total xs + total ys
  unfolding total
  total-append [] ys = omega arith
  total-append (x ∷ xs) ys = omega (arith, total-append xs ys)

-- A property of the elements at their indices survives a write and a push.
module _ {ℓ} {A : Type ℓ} where
  pub set-all {κ} :
      (P : ℕ → A → Type κ) (xs : List A) (i : ℕ) (v : A)
      → P i v
      → ((j : ℕ) (x : A) → get_elem? xs j ≡ some x → P j x)
      → (j : ℕ) (x : A) → get_elem? (set xs i v) j ≡ some x
      → P j x
  unfolding get_elem? set
  set-all P [] i v p all j x h = absurd (cc)
  set-all P (y ∷ xs) zero v p all zero x h = subst (P 0) (some-injective _ _ h) p
  set-all P (y ∷ xs) zero v p all (suc j) x h = all (suc j) x h
  set-all P (y ∷ xs) (suc i) v p all zero x h = all 0 x h
  set-all P (y ∷ xs) (suc i) v p all (suc j) x h =
      set-all (λ k. P (suc k)) xs i v p (λ k. all (suc k)) j x h

  pub append-all {κ} :
      (P : ℕ → A → Type κ) (xs : List A) (v : A)
      → P (length xs) v
      → ((j : ℕ) (x : A) → get_elem? xs j ≡ some x → P j x)
      → (j : ℕ) (x : A) → get_elem? (xs ++ v ∷ []) j ≡ some x
      → P j x
  unfolding get_elem?
  append-all P [] v p all zero x h = subst (P 0) (some-injective _ _ h) p
  append-all P [] v p all (suc j) x h = absurd (cc)
  append-all P (y ∷ xs) v p all zero x h = all 0 x h
  append-all P (y ∷ xs) v p all (suc j) x h =
      append-all (λ k. P (suc k)) xs v p (λ k. all (suc k)) j x h
