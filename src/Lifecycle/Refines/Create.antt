-- ===== src/Lifecycle/Refines/Create.antt =====
-- `create` as a history of the abstract machine (crates/assets/src/runtime.rs, lines 412 to 442).
use fluxel_bases.Prelude.{
  ℕ, ◌≡◌, refl, ◌∙◌, ◌⊎◌, inl, inr, true, none, some, get_elem?, get_elem?-set_self,
  get_elem?-set_ne, get_elem?-lt,
}
use fluxel_bases.World.{World, Entry, StoreState}
use fluxel_bases.Store.{put_entry}
use fluxel_bases.Store.Begin.{new_entry, new_token, occupy, create}
use fluxel_bases.Store.Steps.{bump}
use fluxel_bases.Store.Valid.{IsValid}
use fluxel_bases.Store.Keeps.Slots.{IsTaken, Opens}
use fluxel_bases.Store.Keeps.Create.{create_rule}
use fluxel_bases.Lifecycle.{IsNew, Steps, here, later, appears, reuses, occupied}
use fluxel_bases.Lifecycle.View.{
  contains, view, view-absent, view-vacant, view-occupied, Refines-slot, Refines-trans,
}
use fluxel_bases.Lifecycle.Refines.{Reach, Reach-refl, bump-Reach}

module _ {V E : Type 0} where
  -- A new entry appears at the end, or in a place that was free.
  enters :
      (s : StoreState V E) (i g : ℕ) (entry : Entry V E)
      → IsNew entry
      → ((get_elem? s.slots i ≡ none) × (g ≡ 1))
        ⊎ ((contains i s.free ≡ true)
            × (get_elem? s.slots i ≡ some (record { generation = g; entry = none })))
      → Steps (view s i) (occupied g entry)
  enters s i g entry new (inl (outside, first)) =
      rw (view-absent s i outside) (later here (appears first new))
  enters s i g entry new (inr (is_free, at)) =
      rw (view-vacant s i g true is_free at) (later here (reuses new))

module _ {V E W : Type 0} where
  occupy-Reach :
      (w v : World V E W) (i g : ℕ) → IsTaken v i g → Opens w v i g → Reach w (occupy i g v.touch v)
  unfolding occupy put_entry
  occupy-Reach w v i g t opens =
      let u = occupy i g v.touch v in
      let entry = new_entry (new_token v i g) v.touch in
      Refines-slot w.state u.state i
        (rw
          (view-occupied u.state i g entry
            (get_elem?-set_self v.slots i _ (get_elem?-lt v.slots i t.at)))
          (enters w.state i g entry
            (record { no_value = refl; no_content = refl; no_attempt = refl }) opens.was))
        (λ j other. get_elem?-set_ne v.slots i j _ other ∙ opens.slots_else j other) opens.free_else

  pub create-Reach : (w : World V E W) → IsValid w → Reach w (create w).1
  create-Reach w v =
      create_rule (λ r. Reach w r.1) w (λ _. Reach-refl w) (λ _ _. bump-Reach w)
        (λ u i g t _ opens. Refines-trans (bump-Reach w) (occupy-Reach (bump w) u i g t opens)) v
