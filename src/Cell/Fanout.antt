-- ===== src/Cell/Fanout.antt =====
-- Which waiters a completion wakes (crates/assets/src/runtime.rs, lines 111 to 184).
use fluxel_bases.Prelude.{
  ℕ, ◌≡◌, ◌≢◌, ◌↔◌, refl, ap, ◌∙◌, inl, inr, Option, none, some, List, [], ◌∷◌, arith, IsMember,
  eq-cases,
}
use fluxel_bases.Cell.{
  AttemptCell, update, remove_key, take_slots, take_wakers, deregister, set_outcome, drain,
  complete,
}
use fluxel_bases.Cell.Wakes.{take_slots-IsMember}

module _ {W : Type 0} where
  update-some :
      (slots : ℕ → Option W) (j k : ℕ) (v : W)
      → update slots j none k ≡ some v
      → (j ≢ k) × (slots k ≡ some v)
  update-some slots j k v e = elim (eq-cases j k) [
    | inl same ↦ absurd (ground (arith, same, e))
    | inr other ↦ (other, ground (arith, other, e))
  ]

  -- A registration among these keys holds the waker.
  abbrev pub Holder : (ℕ → Option W) → List ℕ → W → Type 0
  Holder slots ks v = (k : ℕ) × IsMember k ks × (slots k ≡ some v)

  later-Holder :
      (slots : ℕ → Option W) (j : ℕ) (ks : List ℕ) (v : W)
      → Holder (update slots j none) ks v
      → Holder slots (j ∷ ks) v
  later-Holder slots j ks v (k, member, at) = (k, inr member, (update-some slots j k v at).1)

  take_slots-Holder :
      (ks : List ℕ) (slots : ℕ → Option W) (v : W)
      → IsMember v (take_slots ks slots).0
      → Holder slots ks v
  unfolding take_slots
  take_slots-Holder [] slots v member = elim member [ ]
  take_slots-Holder (j ∷ ks) slots v member =
      split (slots j) refl (take_slots-Holder ks (update slots j none) v) member
    where
      split :
          (o : Option W)
          → slots j ≡ o
          → (IsMember v (take_slots ks (update slots j none)).0 → Holder (update slots j none) ks v)
          → (let (wakers, left) = take_slots ks (update slots j none) in
              let taken : List W × (ℕ → Option W) = elim o [
                | none ↦ (wakers, left)
                | some w ↦ (w ∷ wakers, left)
              ] in
              IsMember v taken.0)
          → Holder slots (j ∷ ks) v
      split none at rest member = later-Holder slots j ks v (rest member)
      split (some w) at rest (inl same) = (j, inl refl, at ∙ ap some same)
      split (some w) at rest (inr member) = later-Holder slots j ks v (rest member)

remove_key-IsMember :
    (key k : ℕ) (ks : List ℕ) → IsMember k (remove_key key ks) ↔ (IsMember k ks × (k ≢ key))
unfolding remove_key
remove_key-IsMember key k [] = (λ m. absurd m, λ m. m.0)
remove_key-IsMember key k (j ∷ ks) =
    let rest = remove_key-IsMember key k ks in
    elim (eq-cases j key) [
      | inl same ↦ ground (arith, same, rest)
      | inr other ↦ ground (arith, other, rest)
    ]

module _ {R W : Type 0} where
  -- A completion of a cell without a result wakes exactly the wakers that its registrations hold.
  complete_iff :
      (r : R) (c : AttemptCell R W) (v : W)
      → c.outcome ≡ none
      → IsMember v (complete r c).0 ↔ Holder c.registry.slots c.registry.registered v
  unfolding complete set_outcome drain take_wakers
  complete_iff r c v open_ =
      rw (open_, complete, set_outcome)
        (
          take_slots-Holder c.registry.registered c.registry.slots v,
          λ h. take_slots-IsMember c.registry.registered c.registry.slots h.0 v h.1 h.2,
        )

  -- So a waiter that is dropped before the completion is not woken by it, and every other is: the
  -- wakers are exactly those of the other registrations.
  pub deregister-complete :
      (r : R) (c : AttemptCell R W) (key : ℕ) (v : W)
      → c.outcome ≡ none
      → IsMember v (complete r (record c { registry = deregister key c.registry })).0
        ↔ ((k : ℕ) × (k ≢ key) × IsMember k c.registry.registered × (c.registry.slots k ≡ some v))
  unfolding deregister
  deregister-complete r c key v open_ =
      let woken = complete_iff r (record c { registry = deregister key c.registry }) v open_ in
      (
        λ m.
            let (k, member, at) = woken.0 m in
            let (listed, other) = (remove_key-IsMember key k c.registry.registered).0 member in
            (k, other, listed, (update-some c.registry.slots key k v at).1),
        λ h.
            let (k, other, listed, at) = h in
            woken.1 (
              k,
              (remove_key-IsMember key k c.registry.registered).1 (listed, other),
              ground (arith, other, at),
            ),
      )
