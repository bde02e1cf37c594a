-- ===== src/Lifecycle/History.antt =====
-- What no history of the abstract machine undoes.
use fluxel_bases.Prelude.{ℕ, ◌≤◌, ◌<◌, ◌≡◌, ◌⊎◌, inl, inr, arith, ◌∙◌, refl}
use native.Mathlib.Nat.{le_refl}
use fluxel_bases.World.{Entry}
use fluxel_bases.Lifecycle.{
  Transition, rests, begins, commits, fails, cancels, evicts, Place, absent, free, occupied,
  retired, PlaceStep, appears, reuses, moves, recycles, retires, Steps, here, later,
}

module _ {V E : Type 0} where
  -- The identity of generation `g` has been removed from the place.
  abbrev pub IsPast : ℕ → Place V E → Type 0
  IsPast g absent = ⊥
  IsPast g (free h) = g < h
  IsPast g (occupied h _) = g < h
  IsPast g retired = Unit {0}

  step-IsPast : (g : ℕ) {p q : Place V E} → PlaceStep p q → IsPast g p → IsPast g q
  step-IsPast g (appears _ _) h = absurd h
  step-IsPast g (reuses _) h = h
  step-IsPast g (moves _ _) h = h
  step-IsPast g (recycles _ e) h = omega arith
  step-IsPast g (retires _ _) h = tt

  -- A removed identity does not come back.
  pub Steps-IsPast : (g : ℕ) {p q : Place V E} → Steps p q → IsPast g p → IsPast g q
  Steps-IsPast g here h = h
  Steps-IsPast g (later r s) h = step-IsPast g s (Steps-IsPast g r h)

  -- The entry is the same asset, and no younger.
  pub record Continues (old new : Entry V E) : Type 0 where
    pub same_token : new.token ≡ old.token
    pub content_grows : old.content_generation ≤ new.content_generation
    pub attempts_grow : old.attempt_generation ≤ new.attempt_generation

  Transition-Continues :
      {old new : Entry V E} → new.token ≡ old.token → Transition old new → Continues old new
  Transition-Continues t (rests _ a c) = record {
    same_token = t;
    content_grows = omega arith;
    attempts_grow = omega arith;
  }
  Transition-Continues t (begins _ _ _ a c) = record {
    same_token = t;
    content_grows = omega arith;
    attempts_grow = omega arith;
  }
  Transition-Continues t (commits _ _ _ _ _ _ a c) = record {
    same_token = t;
    content_grows = omega arith;
    attempts_grow = omega arith;
  }
  Transition-Continues t (fails _ _ _ _ _ a c) = record {
    same_token = t;
    content_grows = omega arith;
    attempts_grow = omega arith;
  }
  Transition-Continues t (cancels _ _ _ _ a c) = record {
    same_token = t;
    content_grows = omega arith;
    attempts_grow = omega arith;
  }
  Transition-Continues t (evicts _ _ a c) = record {
    same_token = t;
    content_grows = omega arith;
    attempts_grow = omega arith;
  }

  -- What may stand where the entry stood: itself, moved on, or what came after its removal.
  abbrev pub Follows : ℕ → Entry V E → Place V E → Type 0
  Follows g old (occupied h new) = ((g ≡ h) × Continues old new) ⊎ (g < h)
  Follows g old p = IsPast g p

  step-Follows :
      (g : ℕ) (old : Entry V E) {p q : Place V E}
      → PlaceStep p q
      → Follows g old p
      → Follows g old q
  step-Follows g old (appears _ _) f = absurd f
  step-Follows g old (reuses _) f = inr f
  step-Follows g old (moves t s) (inl (e, c)) =
      let d = Transition-Continues t s in
      inl (
        e,
        record {
          same_token = d.same_token ∙ c.same_token;
          content_grows = omega arith;
          attempts_grow = omega arith;
        },
      )
  step-Follows g old (moves t s) (inr less) = inr less
  step-Follows g old (recycles _ e) (inl (f, _)) = omega arith
  step-Follows g old (recycles _ e) (inr less) = omega arith
  step-Follows g old (retires _ _) f = tt

  pub Steps-Follows :
      {g : ℕ} {old : Entry V E} {q : Place V E} → Steps (occupied g old) q → Follows g old q
  Steps-Follows here =
      inl (refl, record { same_token = refl; content_grows = le_refl _; attempts_grow = le_refl _ })
  Steps-Follows {g} {old} (later r s) = step-Follows g old s (Steps-Follows r)
