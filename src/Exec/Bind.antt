-- ===== src/Exec/Bind.antt =====
-- A property of a `do` block from the outcomes of its first step, one rule for each kind of step.
use fluxel_bases.Prelude.{◌≡◌, refl, Option, none, some}
use fluxel_bases.Error.{AssetError, Result, ok, err, panic}
use fluxel_bases.Exec.{Exec, continue, ◌>>=◌, or_raise, lift}

module _ {ℓ κ} {S A B : Type ℓ} (P : Result B × S → Type κ) where
  -- Whatever holds of `f` after the outcome `r` of `m` holds of the block.
  pub bind_rule :
      (m : Exec S A) (f : A → Exec S B) (s : S) (r : Result A × S)
      → m s ≡ r
      → P (continue r.0 f r.1)
      → P ((m >>= f) s)
  unfolding ◌>>=◌
  bind_rule m f s r e h = rw e h

  pub lift_rule :
      (r : Result A) (f : A → Exec S B) (s : S)
      → ((e : AssetError) → r ≡ err e → P (err e, s))
      → (r ≡ panic → P (panic, s))
      → ((a : A) → r ≡ ok a → P (f a s))
      → P ((lift r >>= f) s)
  unfolding ◌>>=◌
  lift_rule (ok a) f s refused fatal good = good a refl
  lift_rule (err e) f s refused fatal good = refused e refl
  lift_rule panic f s refused fatal good = fatal refl

  pub or_raise_rule :
      (o : Option A) (e : AssetError) (f : A → Exec S B) (s : S)
      → (o ≡ none → P (err e, s))
      → ((a : A) → o ≡ some a → P (f a s))
      → P ((or_raise o e >>= f) s)
  unfolding ◌>>=◌
  or_raise_rule none e f s refused good = refused refl
  or_raise_rule (some a) e f s refused good = good a refl

-- The state after a block.
module _ {ℓ κ} {S A B : Type ℓ} (P : S → Type κ) where
  pub state_rule :
      (m : Exec S A) (f : A → Exec S B) (s : S)
      → P (m s).1
      → ((a : A) (t : S) → P t → P (f a t).1)
      → P ((m >>= f) s).1
  unfolding ◌>>=◌
  state_rule m f s h k = let (r, t) = m s in go r t h
    where
      go : (r : Result A) (t : S) → P t → P (continue r f t).1
      go (ok a) t h = k a t h
      go (err e) t h = h
      go panic t h = h
