-- ===== src/Store/Eviction/Order.antt =====
-- What `collect` evicts, and where it stops (crates/assets/src/runtime.rs, lines 806 to 877).
use mathlib.Core.List.{Perm}
use fluxel_bases.Prelude.{
  ℕ, ◌-◌, ◌≤◌, ◌<◌, ◌≡◌, ◌≢◌, refl, sym, subst, ◌∙◌, ◌⊎◌, inl, inr, true, false, none, some, List,
  [], ◌∷◌, ◌++◌, map, arith, get_elem?-set_ne, All, leb, leb→le, Bool-cases, checked_sub-some,
}
use fluxel_bases.Error.{Result, ok}
use fluxel_bases.Exec.{Exec, continue, ◌>>=◌, gets, pure}
use fluxel_bases.Exec.Bind.{bind_rule}
use fluxel_bases.Identity.{AssetId}
use fluxel_bases.Budget.{CacheBudget, EvictedAsset, CollectReport}
use fluxel_bases.World.{World, Entry, Phase, ReadyValue}
use fluxel_bases.Store.{find_entry, put_entry}
use fluxel_bases.Store.Finish.{set_ready_bytes}
use fluxel_bases.Store.Collect.{
  Candidate, sort_candidates, eligible, candidates, evict_phase, evict_until, collect,
}
use fluxel_bases.Store.Steps.{At, lock_rule, find_entry-ok}
use fluxel_bases.Store.Valid.{IsValid}
use fluxel_bases.Store.Keeps.Finish.{found-Stands}
use fluxel_bases.Store.Keeps.Collect.{evicted_world, evicted-IsValid, evict_turn_rule}
use fluxel_bases.Store.Eviction.{find_entry-At, All-sort_candidates, All-candidates}
use fluxel_bases.Store.Eviction.Spare.{spare, candidates-spare}
use fluxel_bases.Store.Eviction.Sorted.{
  IsAscending, sort_candidates-IsAscending, sort_candidates-perm, IsApart, sort_candidates-IsApart,
  candidates-IsApart,
}

module _ {V E : Type 0} where
  eligible-evict_phase :
      (phase : Phase V E)
      → eligible phase ≡ true
      → (r : ReadyValue V) × (after : Phase V E) × (evict_phase phase ≡ some (r, after))
  unfolding eligible evict_phase
  eligible-evict_phase Phase.missing e = absurd (cc)
  eligible-evict_phase (Phase.producing a p c) e = absurd (cc)
  eligible-evict_phase (Phase.ready r) e = (r, _, refl)
  eligible-evict_phase (Phase.failed a x none) e = absurd (cc)
  eligible-evict_phase (Phase.failed a x (some r)) e = (r, _, refl)

-- Each eviction was made while the bytes were above the budget.
abbrev pub IsNeeded : (max bytes : ℕ) → List EvictedAsset → Type 0
IsNeeded max bytes [] = Unit
IsNeeded max bytes (e ∷ es) = (max < bytes) × IsNeeded max (bytes - e.bytes) es

module _ {V E W : Type 0} where
  abbrev IsEvictable : World V E W → Candidate → Type 0
  IsEvictable w c =
      (entry : Entry V E) × (r : ReadyValue V) × (after : Phase V E) × (find_entry w c.1 ≡ ok entry)
      × (evict_phase entry.phase ≡ some (r, after))

  put-IsEvictable :
      (w : World V E W) (id : AssetId) (entry : Entry V E) (sum : ℕ) (c : Candidate)
      → id.slot ≢ c.1.slot
      → IsEvictable w c
      → IsEvictable (set_ready_bytes sum (put_entry id entry w)) c
  unfolding put_entry set_ready_bytes
  put-IsEvictable w id entry sum c other (e, r, after, found, takes) =
      let (own, at) = find_entry-ok w c.1 e found in
      (
        e,
        r,
        after,
        find_entry-At (set_ready_bytes sum (put_entry id entry w)) c.1 e own
            (get_elem?-set_ne w.slots id.slot c.1.slot _ other ∙ at),
        takes,
      )

  All-IsEvictable :
      (w : World V E W) (id : AssetId) (entry : Entry V E) (sum : ℕ) (cs : List Candidate)
      → All (λ d. id.slot ≢ d.1.slot) cs
      → All (IsEvictable w) cs
      → All (IsEvictable (set_ready_bytes sum (put_entry id entry w))) cs
  All-IsEvictable w id entry sum [] others h = tt
  All-IsEvictable w id entry sum (c ∷ cs) (other, others) (f, h) =
      (put-IsEvictable w id entry sum c other f, All-IsEvictable w id entry sum cs others h)

  -- The candidates are evicted from the first on, each while it is needed, until they are used up or
  -- the bytes fit.
  abbrev Evicts :
      ℕ → List Candidate → World V E W → Result (List EvictedAsset) × World V E W → Type 0
  Evicts max cs w r =
      (evicted : List EvictedAsset) × (left : List Candidate) × (r.0 ≡ ok evicted)
      × (map (λ (e : EvictedAsset). e.id) evicted ++ map (λ (c : Candidate). c.1) left
          ≡ map (λ (c : Candidate). c.1) cs)
      × IsNeeded max w.ready_bytes evicted
      × ((left ≡ []) ⊎ (r.1.ready_bytes ≤ max))

  turned-Evicts :
      (max : ℕ) (rest : Exec (World V E W) (List EvictedAsset)) (c : Candidate)
      (cs : List Candidate) (item : EvictedAsset) (w u : World V E W)
      → item.id ≡ c.1
      → max < w.ready_bytes
      → u.ready_bytes ≡ w.ready_bytes - item.bytes
      → Evicts max cs u (rest u)
      → Evicts max (c ∷ cs) w ((rest >>= λ evicted. pure (item ∷ evicted)) u)
  unfolding pure
  turned-Evicts max rest c cs item w u same above less (evicted, left, e, ids, needed, stops) =
      bind_rule (Evicts max (c ∷ cs) w) rest _ u (rest u) refl (
        subst
          (λ r. Evicts max (c ∷ cs) w (continue r (λ evicted. pure (item ∷ evicted)) (rest u).1))
          (sym e)
          (
            item ∷ evicted,
            left,
            refl,
            λ i. same i ∷ ids i,
            (above, subst (λ b. IsNeeded max b evicted) less needed),
            stops,
          ))

  evict_until-Evicts :
      (budget : CacheBudget) (cs : List Candidate) (w : World V E W)
      → IsValid w
      → IsApart cs
      → All (IsEvictable w) cs
      → Evicts budget.max_resident_bytes cs w (evict_until budget cs w)
  unfolding evict_until
  evict_until-Evicts budget [] w v a h = ([], [], refl, refl, tt, inl refl)
  evict_until-Evicts budget ((t, id) ∷ cs) w v (others, a) (f, h) =
      elim (Bool-cases (leb w.ready_bytes budget.max_resident_bytes)) [
        | inl done ↦
            rw (done, evict_until) ([], (t, id) ∷ cs, refl, refl, tt, inr (leb→le _ _ done))
        | inr more ↦
            let above : budget.max_resident_bytes < w.ready_bytes = ground arith in
            rw (more, evict_until)
              (evict_turn_rule (Evicts budget.max_resident_bytes ((t, id) ∷ cs) w) id
                (evict_until budget cs) w v (λ e missing. absurd (cc))
                (λ entry found kept. absurd (took_nothing entry found kept))
                λ entry r phase total found e sum.
                  let u = evicted_world id entry phase total w in
                  let whole = checked_sub-some w.ready_bytes r.bytes total sum in
                  turned-Evicts budget.max_resident_bytes (evict_until budget cs) (t, id) cs _ w u
                    refl above (omega arith)
                    (evict_until-Evicts budget cs u
                      (evicted-IsValid id entry r phase total w (found-Stands id entry w v found) e
                        sum)
                      a (All-IsEvictable w id _ total cs others h)))
      ]
    where
      took_nothing :
          (entry : Entry V E) → find_entry w id ≡ ok entry → evict_phase entry.phase ≡ none → ⊥
      took_nothing entry found kept = cc

  candidates-IsEvictable :
      (strong_count : ℕ → ℕ) (w : World V E W)
      → IsValid w
      → All (IsEvictable w) (candidates strong_count w.slots)
  candidates-IsEvictable strong_count w v =
      All-candidates (IsEvictable w) strong_count w.slots λ i g entry at can.
        let t = (v.slots_valid i _ at).occupant in
        let (r, after, takes) = eligible-evict_phase entry.phase can in
        (
          entry,
          r,
          after,
          find_entry-At w entry.token.id entry t.own_store (
              subst (λ j. At w j entry.token.id.generation entry) (sym t.own_slot)
                (subst (λ h. At w i h entry) (sym t.own_generation) at)),
          takes,
        )

  -- What a collection must report, and how it must choose.
  abbrev pub CollectsOldest :
      (ℕ → ℕ) → ℕ → World V E W → Result CollectReport × World V E W → Type 0
  CollectsOldest strong_count max w r =
      (order : List Candidate) × (evicted : List EvictedAsset) × (left : List Candidate) × Perm
        order (spare strong_count w.slots)
      × IsAscending order
      × (r.0 ≡ ok (record { before = w.ready_bytes; after = r.1.ready_bytes; evicted = evicted }))
      × (map (λ (e : EvictedAsset). e.id) evicted ++ map (λ (c : Candidate). c.1) left
          ≡ map (λ (c : Candidate). c.1) order)
      × IsNeeded max w.ready_bytes evicted
      × ((left ≡ []) ⊎ (r.1.ready_bytes ≤ max))

  -- On a valid store whose lock is good, `collect` evicts exactly a first part of its candidates (the
  -- entries without handles that retain a value outside an attempt), in the order of their last touch
  -- and then of their identities; it makes each eviction while the bytes are above the budget, and
  -- leaves candidates over only if the bytes then fit the budget.
  pub collect-CollectsOldest :
      (strong_count : ℕ → ℕ) (budget : CacheBudget) (w : World V E W)
      → IsValid w
      → w.poisoned ≡ false
      → CollectsOldest strong_count budget.max_resident_bytes w (collect strong_count budget w)
  unfolding collect gets pure ◌>>=◌
  collect-CollectsOldest strong_count budget w v sound =
      lock_rule (CollectsOldest strong_count budget.max_resident_bytes w) _ w
        (λ closed. absurd (cc))
        λ _.
          let cs = candidates strong_count w.slots in
          let order = sort_candidates cs in
          let apart =
            candidates-IsApart strong_count w.slots
              λ i g entry at. (v.slots_valid i _ at).occupant.own_slot in
          let (evicted, left, e, ids, needed, stops) =
            evict_until-Evicts budget order w v (sort_candidates-IsApart cs apart)
              (All-sort_candidates (IsEvictable w) cs (candidates-IsEvictable strong_count w v)) in
          subst
            (λ r. CollectsOldest strong_count budget.max_resident_bytes w (
              continue r
                (λ evicted s. (
                  ok (record { before = w.ready_bytes; after = s.ready_bytes; evicted = evicted }),
                  s,
                ))
                (evict_until budget order w).1))
            (sym e)
            (
              order,
              evicted,
              left,
              subst (Perm order) (candidates-spare strong_count w.slots) (sort_candidates-perm cs),
              sort_candidates-IsAscending cs,
              refl,
              ids,
              needed,
              stops,
            )
