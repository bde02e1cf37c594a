-- ===== src/Lifecycle/Refines/Collect.antt =====
-- `collect` as a history of the abstract machine (crates/assets/src/runtime.rs, lines 806 to 877).
use fluxel_bases.Prelude.{ℕ, ◌≡◌, refl, inl, inr, some, List, [], ◌∷◌, Bool-cases, leb}
use fluxel_bases.Error.{Result}
use fluxel_bases.Exec.Bind.{state_rule}
use fluxel_bases.Identity.{AssetId}
use fluxel_bases.Budget.{CacheBudget, CollectReport}
use fluxel_bases.World.{World, Entry, Phase, ReadyValue}
use fluxel_bases.Store.{put_entry}
use fluxel_bases.Store.Finish.{set_ready_bytes}
use fluxel_bases.Store.Collect.{Candidate, evict_phase, evict_until, collect}
use fluxel_bases.Store.Steps.{At, lock_rule}
use fluxel_bases.Store.Valid.{IsValid}
use fluxel_bases.Store.Keeps.Finish.{found-Stands}
use fluxel_bases.Store.Keeps.Collect.{evicted_world, evicted-IsValid, evict_turn_rule}
use fluxel_bases.Lifecycle.{Transition}
use fluxel_bases.Lifecycle.View.{Refines-trans, Refines-put}
use fluxel_bases.Lifecycle.Refines.{Reach, Reach-refl}

module _ {V E W : Type 0} where
  evicted-Reach :
      (id : AssetId) (entry : Entry V E) (r : ReadyValue V) (phase : Phase V E) (total : ℕ)
      (w : World V E W)
      → At w id.slot id.generation entry
      → evict_phase entry.phase ≡ some (r, phase)
      → Reach w (evicted_world id entry phase total w)
  unfolding set_ready_bytes put_entry
  evicted-Reach id entry r phase total w at e =
      Refines-put w.state id.slot id.generation total w.touch entry _ at refl
        (Transition.evicts r e refl refl)

  evict_until-Reach :
      (budget : CacheBudget) (cs : List Candidate) (w : World V E W)
      → IsValid w
      → Reach w (evict_until budget cs w).1
  unfolding evict_until
  evict_until-Reach budget [] w v = Reach-refl w
  evict_until-Reach budget ((t, id) ∷ cs) w v =
      elim (Bool-cases (leb w.ready_bytes budget.max_resident_bytes)) [
        | inl done ↦ rw (done, evict_until) (Reach-refl w)
        | inr more ↦
            rw (more, evict_until)
              (evict_turn_rule (λ r. Reach w r.1) id (evict_until budget cs) w v
                (λ _ _. Reach-refl w) (λ _ _ _. evict_until-Reach budget cs w v)
                λ entry r phase total found e sum.
                  let t = found-Stands id entry w v found in
                  let u = evicted_world id entry phase total w in
                  state_rule (Reach w) (evict_until budget cs) _ u
                    (Refines-trans (evicted-Reach id entry r phase total w t.at e) (
                      evict_until-Reach budget cs u
                        (evicted-IsValid id entry r phase total w t e sum)))
                    λ _ _ h. h)
      ]

  pub collect-Reach :
      (strong_count : ℕ → ℕ) (budget : CacheBudget) (w : World V E W)
      → IsValid w
      → Reach w (collect strong_count budget w).1
  unfolding collect
  collect-Reach strong_count budget w v =
      lock_rule (λ (r : Result CollectReport × World V E W). Reach w r.1) _ w (λ _. Reach-refl w)
        λ _.
          state_rule (Reach w) (evict_until budget _) _ w (evict_until-Reach budget _ w v)
            λ _ _ h. h
