-- ===== src/Store/Creation.antt =====
-- What `create` hands out (crates/assets/src/runtime.rs, lines 412 to 442).
use fluxel_bases.Prelude.{
  ℕ, ◌≡◌, ◌≢◌, ◌⊎◌, inl, inr, refl, ap, sym, subst, ◌∙◌, arith, Bool-cases, ==_iff, ◌==◌, none,
  some, get_elem?, set, get_elem?-set_self, get_elem?-set_ne, get_elem?-lt,
}
use fluxel_bases.Error.{AssetError, Result, ok, err, panic}
use fluxel_bases.Identity.{AssetId, AssetHandle, handle_id}
use fluxel_bases.World.{World, Entry, Slot}
use fluxel_bases.Store.{find_entry, put_entry}
use fluxel_bases.Store.Begin.{new_entry, new_token, occupy, create}
use fluxel_bases.Store.Steps.{At, bump, find_entry-ok, find_entry-cases}
use fluxel_bases.Store.Valid.{IsValid}
use fluxel_bases.Store.Keeps.Slots.{IsTaken, SameEntries, Opens}
use fluxel_bases.Store.Keeps.Create.{create_rule}
use fluxel_bases.Store.Eviction.{find_entry-At}

module _ {V E W : Type 0} where
  -- What `create` leaves of what an older identity found.
  abbrev pub Keeps : AssetId → Result (Entry V E) → AssetHandle → World V E W → Type 0
  Keeps id (ok entry) h u = (find_entry u id ≡ ok entry) × (id ≢ handle_id h)
  Keeps id (err e) h u = (id ≡ handle_id h) ⊎ (find_entry u id ≡ err e)
  Keeps id panic h u = ⊥

  -- The outcome of `create`, with what an identity found before.
  abbrev pub IsFresh :
      World V E W → AssetId → Result (Entry V E) → Result AssetHandle × World V E W → Type 0
  IsFresh w id found (ok h, u) =
      (find_entry u (handle_id h) ≡ ok (new_entry h.token u.touch)) × Keeps id found h u
  IsFresh w id found (err e, u) = (u.slots ≡ w.slots) × (u.heap ≡ w.heap)
  IsFresh w id found (panic, u) = ⊥

  vacant-ne :
      (w : World V E W) (i j g h : ℕ) (entry : Entry V E)
      → get_elem? w.slots i ≡ some (record { generation = g; entry = none })
      → At w j h entry
      → i ≢ j
  vacant-ne w i j g h entry vacant at same = cc

  occupied-IsFresh :
      (w v : World V E W) (id : AssetId) (entry : Entry V E) (i g : ℕ)
      → find_entry w id ≡ ok entry
      → IsTaken v i g
      → SameEntries (bump w) v
      → IsFresh w id (ok entry) (ok (record { token = new_token v i g }), occupy i g v.touch v)
  unfolding occupy put_entry
  occupied-IsFresh w v id entry i g found t same =
      let (own, at) = find_entry-ok w id entry found in
      let kept = same.kept id.slot id.generation entry at in
      let other = vacant-ne v i id.slot g id.generation entry t.at kept in
      let u = occupy i g v.touch v in
      (
        find_entry-At u (new_token v i g).id _ refl
            (get_elem?-set_self v.slots i _ (get_elem?-lt v.slots i t.at)),
        (
          find_entry-At u id entry (own ∙ sym same.same_id)
              (get_elem?-set_ne v.slots i id.slot _ other ∙ kept),
          λ e. other (sym (ap (λ (k : AssetId). k.slot) e)),
        ),
      )

  -- The slot of the new entry.
  abbrev new_slot : World V E W → ℕ → ℕ → Slot V E
  new_slot v i g = record { generation = g; entry = some (new_entry (new_token v i g) v.touch) }

  -- An identity of the store that names no slot of the state finds nothing.
  occupied-else :
      (w v : World V E W) (id : AssetId) (e : AssetError) (i g : ℕ)
      → find_entry w id ≡ err e
      → SameEntries (bump w) v
      → get_elem? v.slots id.slot ≡ get_elem? w.slots id.slot
      → i ≢ id.slot
      → find_entry (occupy i g v.touch v) id ≡ err e
  unfolding occupy put_entry find_entry
  occupied-else w v id e i g found same else_ other =
      let at = get_elem?-set_ne v.slots i id.slot (new_slot v i g) other ∙ else_ in
      ground (arith, found, at, same.same_id)

  occupied-here :
      (w v : World V E W) (id : AssetId) (e : AssetError) (i g : ℕ)
      → find_entry w id ≡ err e
      → IsTaken v i g
      → SameEntries (bump w) v
      → Opens (bump w) v i g
      → i ≡ id.slot
      → (id ≡ (new_token v i g).id) ⊎ (find_entry (occupy i g v.touch v) id ≡ err e)
  unfolding occupy put_entry find_entry
  occupied-here w v id e i g found t same opens here =
      let at : get_elem? (set v.slots i (new_slot v i g)) id.slot ≡ some (new_slot v i g) =
        subst (λ j. get_elem? (set v.slots i (new_slot v i g)) j ≡ some (new_slot v i g)) here
          (get_elem?-set_self v.slots i (new_slot v i g) (get_elem?-lt v.slots i t.at)) in
      elim opens.was [
        | inl (none_before, _) ↦ ground (arith, found, at, here, none_before, same.same_id)
        | inr (_, vacant) ↦ ground (arith, found, at, here, vacant, same.same_id)
      ]

  -- An identity that found no entry is the new one, or still finds none.
  occupied-missing :
      (w v : World V E W) (id : AssetId) (e : AssetError) (i g : ℕ)
      → find_entry w id ≡ err e
      → IsTaken v i g
      → SameEntries (bump w) v
      → Opens (bump w) v i g
      → IsFresh w id (err e) (ok (record { token = new_token v i g }), occupy i g v.touch v)
  unfolding occupy put_entry
  occupied-missing w v id e i g found t same opens =
      let u = occupy i g v.touch v in
      (
        find_entry-At u (new_token v i g).id _ refl
            (get_elem?-set_self v.slots i _ (get_elem?-lt v.slots i t.at)),
        elim (Bool-cases (i == id.slot)) [
          | inl here ↦ occupied-here w v id e i g found t same opens ((==_iff i id.slot).0 here)
          | inr other ↦ inr (
              occupied-else w v id e i g found same
                (opens.slots_else id.slot (λ p. ground (arith, p))) (λ p. ground (arith, p)))
        ],
      )

  -- On a valid store, a new one among them, `create` does not panic: it is refused, with the slots and
  -- the heap as they were, or hands out an identity that finds a new entry without content. Any
  -- identity that found an entry before differs from it and still finds that entry, and any other
  -- still finds none.
  pub create-IsFresh :
      (w : World V E W) (id : AssetId) → IsValid w → IsFresh w id (find_entry w id) (create w)
  create-IsFresh w id v = elim (find_entry-cases w id) [
    | inl (e, found) ↦
        subst (λ r. IsFresh w id r (create w)) (sym found)
          (create_rule (IsFresh w id (err e)) w (λ _. (refl, refl)) (λ _ _. (refl, refl))
            (λ u i g t same opens. occupied-missing w u id e i g found t same opens) v)
    | inr (entry, found) ↦
        subst (λ r. IsFresh w id r (create w)) (sym found)
          (create_rule (IsFresh w id (ok entry)) w (λ _. (refl, refl)) (λ _ _. (refl, refl))
            (λ u i g t same _. occupied-IsFresh w u id entry i g found t same) v)
  ]
