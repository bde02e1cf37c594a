-- ===== src/Store/Keeps/Create.antt =====
-- `create` keeps the invariant, and fills a slot that was vacant (crates/assets/src/runtime.rs,
-- lines 412 to 442).
use fluxel_bases.Prelude.{
  ℕ, ◌+◌, ◌<◌, ◌≡◌, refl, sym, subst, List, [], ◌∷◌, u32_max, u64_max, try_from, try_from-some,
  length, get_elem?-lt,
}
use fluxel_bases.Error.{AssetError, Result, ok, err, generation_exhausted}
use fluxel_bases.Exec.Bind.{or_raise_rule}
use fluxel_bases.Identity.{AssetHandle}
use fluxel_bases.World.{World}
use fluxel_bases.Store.Begin.{new_token, occupy, ensure_slot, fill_slot, create}
use fluxel_bases.Store.Steps.{bump, clock_rule}
use fluxel_bases.Store.Valid.{IsValid}
use fluxel_bases.Store.Keeps.Shared.{bump-IsValid}
use fluxel_bases.Store.Keeps.Slots.{
  IsTaken, SameEntries, Opens, occupy-IsValid, fill_slot-taken, ensure_slot-old, ensure_slot-new,
  grown, grown-IsTaken, grown-SameEntries, grown-Opens, popped-Opens, popped-IsTaken,
}

module _ {κ} {V E W : Type 0} (P : Result AssetHandle × World V E W → Type κ) where
  filled :
      (u v : World V E W) (i g : ℕ)
      → IsTaken v i g
      → ensure_slot i u ≡ v
      → P (ok (record { token = new_token v i g }), occupy i g v.touch v)
      → P (fill_slot i v.touch (ensure_slot i u))
  filled u v i g t e h =
      subst (λ x. P (fill_slot i v.touch x)) (sym e) (subst P (sym (fill_slot-taken v i g t)) h)

  create_free :
      (w : World V E W) (free : List ℕ)
      → let u : World V E W = record w { state = record w.state { free = free } } in
        ((e : AssetError) → P (err e, u))
        → ((e : AssetError) → w.touch < u64_max → P (err e, bump u))
        → ((v : World V E W) (i g : ℕ)
            → IsTaken v i g
            → SameEntries (bump u) v
            → Opens (bump u) v i g
            → P (ok (record { token = new_token v i g }), occupy i g v.touch v))
        → IsValid u
        → P (create u)
  unfolding create
  create_free w [] early late good valid =
      let u : World V E W = record w { state = record w.state { free = [] } } in
      clock_rule P _ u early λ lt.
        or_raise_rule P (try_from u32_max (length w.slots)) generation_exhausted _ (bump u)
          (λ _. late _ lt)
          λ i e.
            subst (λ j. P (fill_slot j (w.touch + 1) (ensure_slot j (bump u))))
              (sym (try_from-some _ _ i e).0)
              (filled (bump u) (grown (bump u)) (length w.slots) 1
                (grown-IsTaken (bump u) (bump-IsValid u lt valid) refl (try_from-some _ _ i e).1)
                (ensure_slot-new (bump u))
                (good (grown (bump u)) (length w.slots) 1
                  (grown-IsTaken (bump u) (bump-IsValid u lt valid) refl (try_from-some _ _ i e).1)
                  (grown-SameEntries (bump u)) (grown-Opens (bump u))))
  create_free w (i ∷ rest) early late good valid =
      let u : World V E W = record w { state = record w.state { free = i ∷ rest } } in
      clock_rule P _ u early λ lt.
        let v : World V E W = record (bump u) { state = record (bump u).state { free = rest } } in
        let taken = popped-IsTaken (bump u) i rest refl (bump-IsValid u lt valid) in
        filled v v i taken.0 taken.1 (ensure_slot-old v i (get_elem?-lt w.slots i taken.1.at)) (
          good v i taken.0 taken.1
            (record {
              same_id = refl;
              same_heap = refl;
              same_touch = refl;
              same_poisoned = refl;
              kept = λ _ _ _ at. at;
              none_new = λ _ _ _ at. at;
            })
            (popped-Opens (bump u) i rest taken.0 refl taken.1.at))

  -- The outcomes of `create` on a valid world: an error, or a handle on a slot that was vacant.
  pub create_rule :
      (w : World V E W)
      → ((e : AssetError) → P (err e, w))
      → ((e : AssetError) → w.touch < u64_max → P (err e, bump w))
      → ((v : World V E W) (i g : ℕ)
          → IsTaken v i g
          → SameEntries (bump w) v
          → Opens (bump w) v i g
          → P (ok (record { token = new_token v i g }), occupy i g v.touch v))
      → IsValid w
      → P (create w)
  create_rule w = create_free w w.free

module _ {V E W : Type 0} where
  pub create-IsValid : (w : World V E W) → IsValid w → IsValid (create w).1
  create-IsValid w v =
      create_rule (λ r. IsValid r.1) w (λ _. v) (λ _ lt. bump-IsValid w lt v)
        (λ u i g t _ _. occupy-IsValid u i g t) v
