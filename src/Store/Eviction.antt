-- ===== src/Store/Eviction.antt =====
-- What `collect` reports (crates/assets/src/runtime.rs, lines 806 to 877).
pub mod Spare
pub mod Sorted
pub mod Order
use Prim.Native.Nat.{Ordering}
use Prim.Native.Nat.Ordering.{lt, eq, gt}
use fluxel_bases.Prelude.{
  ℕ, zero, suc, ◌+◌, ◌≡◌, refl, ap, sym, subst, ◌∙◌, inl, inr, Bool, true, false, ◌&&◌, none, some,
  List, [], ◌∷◌, arith, get_elem?, get_elem?-set_self, get_elem?-set_ne, get_elem?-lt, All, total,
  leb, Bool-cases, eq-cases, ==_refl, ◌==◌, if◌then◌else◌, Option, checked_sub-some,
}
use fluxel_bases.Error.{Result, ok}
use fluxel_bases.Exec.{Exec, continue, ◌>>=◌, gets, pure}
use fluxel_bases.Exec.Bind.{bind_rule}
use fluxel_bases.Identity.{AssetId}
use fluxel_bases.Budget.{CacheBudget, EvictedAsset, CollectReport}
use fluxel_bases.World.{World, Entry, Slot}
use fluxel_bases.Store.{find_entry, put_entry}
use fluxel_bases.Store.Finish.{set_ready_bytes}
use fluxel_bases.Store.Collect.{
  Candidate, cmp_candidate, insert_sorted, sort_candidates, eligible, candidate_of, candidates,
  evict_until, collect,
}
use fluxel_bases.Store.Steps.{At, lock_rule, find_entry-ok}
use fluxel_bases.Store.Valid.{IsValid}
use fluxel_bases.Store.Keeps.Finish.{found-Stands}
use fluxel_bases.Store.Keeps.Collect.{evicted_world, evicted-IsValid, evict_turn_rule}

-- The bytes that a list of evictions reports.
unfoldable pub evicted_bytes : List EvictedAsset → ℕ
unfolding total
evicted_bytes = total (λ e. e.bytes)

module _ {κ} (P : Candidate → Type κ) where
  pub All-insert_sorted :
      (c : Candidate) (cs : List Candidate) → P c → All P cs → All P (insert_sorted c cs)
  unfolding insert_sorted
  All-insert_sorted c [] p h = (p, tt)
  All-insert_sorted c (d ∷ ds) p (q, h) = place (cmp_candidate c d) (All-insert_sorted c ds p h)
    where
      place :
          (o : Ordering)
          → All P (insert_sorted c ds)
          → All P (elim o [ gt ↦ d ∷ insert_sorted c ds | _ ↦ c ∷ d ∷ ds ])
      place lt _ = (p, (q, h))
      place eq _ = (p, (q, h))
      place gt rest = (q, rest)

  pub All-sort_candidates : (cs : List Candidate) → All P cs → All P (sort_candidates cs)
  unfolding sort_candidates
  All-sort_candidates [] h = tt
  All-sort_candidates (c ∷ cs) (p, h) =
      All-insert_sorted c (sort_candidates cs) p (All-sort_candidates cs h)

  module _ {V E : Type 0} (strong_count : ℕ → ℕ) where
    All-candidate_of :
        (o : Option (Entry V E)) (cs : List Candidate)
        → ((entry : Entry V E)
            → o ≡ some entry
            → eligible entry.phase ≡ true
            → P (entry.last_touch, entry.token.id))
        → All P cs
        → All P (candidate_of strong_count o cs)
    All-candidate_of none cs p h = h
    All-candidate_of (some entry) cs p h =
        chosen (strong_count entry.token.addr == 1) (eligible entry.phase) refl
      where
        chosen :
            (alone can : Bool)
            → eligible entry.phase ≡ can
            → All P (if alone && can then (entry.last_touch, entry.token.id) ∷ cs else cs)
        chosen true true e = (p entry refl e, h)
        chosen true false e = h
        chosen false can e = h

    pub All-candidates :
        (slots : List (Slot V E))
        → ((i g : ℕ) (entry : Entry V E)
            → get_elem? slots i ≡ some (record { generation = g; entry = some entry })
            → eligible entry.phase ≡ true
            → P (entry.last_touch, entry.token.id))
        → All P (candidates strong_count slots)
    unfolding candidates get_elem?
    All-candidates [] h = tt
    All-candidates (slot ∷ slots) h =
        All-candidate_of slot.entry (candidates strong_count slots)
          (λ entry e.
            h zero slot.generation entry
              (ap some (λ k. record { generation = slot.generation; entry = e k })))
          (All-candidates slots (λ i. h (suc i)))

module _ {V E : Type 0} where
  generations :
      (slots : List (Slot V E)) (i j g h : ℕ) (old new : Entry V E)
      → i ≡ j
      → get_elem? slots i ≡ some (record { generation = g; entry = some old })
      → get_elem? slots j ≡ some (record { generation = h; entry = some new })
      → g ≡ h
  generations slots i j g h old new same at at' = cc

module _ {V E W : Type 0} where
  abbrev IsFound : World V E W → Candidate → Type 0
  IsFound w c = (entry : Entry V E) × (find_entry w c.1 ≡ ok entry)

  pub find_entry-At :
      (w : World V E W) (id : AssetId) (entry : Entry V E)
      → id.store ≡ w.id
      → At w id.slot id.generation entry
      → find_entry w id ≡ ok entry
  unfolding find_entry
  find_entry-At w id entry own at = rw (own, ==_refl w.id, at, ==_refl id.generation) refl

  put-IsFound :
      (w : World V E W) (id : AssetId) (old entry : Entry V E) (sum : ℕ) (c : Candidate)
      → find_entry w id ≡ ok old
      → IsFound w c
      → IsFound (set_ready_bytes sum (put_entry id entry w)) c
  unfolding put_entry set_ready_bytes
  put-IsFound w id old entry sum c found (e, found') =
      let (own, at) = find_entry-ok w id old found in
      let (own', at') = find_entry-ok w c.1 e found' in
      let u = set_ready_bytes sum (put_entry id entry w) in
      elim (eq-cases id.slot c.1.slot) [
        | inl same ↦
            let same_generation = generations w.slots _ _ _ _ _ _ same at at' in
            (
              entry,
              find_entry-At u c.1 entry own' (
                  subst (λ i. At u i c.1.generation entry) same
                    (subst (λ g. At u id.slot g entry) same_generation
                      (get_elem?-set_self w.slots id.slot _ (get_elem?-lt w.slots id.slot at)))),
            )
        | inr other ↦ (
          e,
          find_entry-At u c.1 e own' (get_elem?-set_ne w.slots id.slot c.1.slot _ other ∙ at'),
        )
      ]

  abbrev Accounts : World V E W → Result (List EvictedAsset) × World V E W → Type 0
  Accounts w r =
      (evicted : List EvictedAsset) × (r.0 ≡ ok evicted)
      × (r.1.ready_bytes + evicted_bytes evicted ≡ w.ready_bytes)

  All-IsFound :
      (w : World V E W) (id : AssetId) (old entry : Entry V E) (sum : ℕ) (cs : List Candidate)
      → find_entry w id ≡ ok old
      → All (IsFound w) cs
      → All (IsFound (set_ready_bytes sum (put_entry id entry w))) cs
  All-IsFound w id old entry sum [] found h = tt
  All-IsFound w id old entry sum (c ∷ cs) found (f, h) =
      (put-IsFound w id old entry sum c found f, All-IsFound w id old entry sum cs found h)

  -- What one more eviction adds to the account.
  turned :
      (rest : Exec (World V E W) (List EvictedAsset)) (item : EvictedAsset) (w u : World V E W)
      → Accounts u (rest u)
      → u.ready_bytes + item.bytes ≡ w.ready_bytes
      → Accounts w ((rest >>= λ evicted. pure (item ∷ evicted)) u)
  unfolding evicted_bytes pure
  turned rest item w u (evicted, e, sum) step = bind_rule (Accounts w) rest _ u (rest u) refl (
      subst (λ r. Accounts w (continue r (λ evicted. pure (item ∷ evicted)) (rest u).1)) (sym e)
        (item ∷ evicted, refl, omega arith))

  evict_until-Accounts :
      (budget : CacheBudget) (cs : List Candidate) (w : World V E W)
      → IsValid w
      → All (IsFound w) cs
      → Accounts w (evict_until budget cs w)
  unfolding evict_until evicted_bytes
  evict_until-Accounts budget [] w v h = ([], refl, omega arith)
  evict_until-Accounts budget ((t, id) ∷ cs) w v (f, h) =
      elim (Bool-cases (leb w.ready_bytes budget.max_resident_bytes)) [
        | inl done ↦ rw (done, evict_until) ([], refl, omega arith)
        | inr more ↦
            rw (more, evict_until)
              (evict_turn_rule (Accounts w) id (evict_until budget cs) w v
                (λ e missing. absurd (cc)) (λ _ _ _. evict_until-Accounts budget cs w v h)
                λ entry r phase total found e sum.
                  let u = evicted_world id entry phase total w in
                  turned (evict_until budget cs) _ w u
                    (evict_until-Accounts budget cs u
                      (evicted-IsValid id entry r phase total w (found-Stands id entry w v found) e
                        sum)
                      (All-IsFound w id entry _ total cs found h))
                    (checked_sub-some _ _ total sum))
      ]

  candidates-IsFound :
      (strong_count : ℕ → ℕ) (w : World V E W)
      → IsValid w
      → All (IsFound w) (candidates strong_count w.slots)
  candidates-IsFound strong_count w v =
      All-candidates (IsFound w) strong_count w.slots λ i g entry at _.
        let t = (v.slots_valid i _ at).occupant in
        (
          entry,
          find_entry-At w entry.token.id entry t.own_store (
              subst (λ j. At w j entry.token.id.generation entry) (sym t.own_slot)
                (subst (λ h. At w i h entry) (sym t.own_generation) at)),
        )

  -- On a valid store whose lock is good, `collect` does not fail, and what it reports adds up: the
  -- bytes after it and those of the evicted values make the bytes before it, which were the total.
  pub collect-adds_up :
      (strong_count : ℕ → ℕ) (budget : CacheBudget) (w : World V E W)
      → IsValid w
      → w.poisoned ≡ false
      → (evicted : List EvictedAsset) × ((collect strong_count budget w).0
          ≡ ok (record {
            before = w.ready_bytes;
            after = (collect strong_count budget w).1.ready_bytes;
            evicted = evicted;
          }))
        × ((collect strong_count budget w).1.ready_bytes + evicted_bytes evicted ≡ w.ready_bytes)
  unfolding collect gets pure ◌>>=◌
  collect-adds_up strong_count budget w v sound =
      lock_rule Report _ w (λ closed. absurd (cc))
        λ _.
          let order = sort_candidates (candidates strong_count w.slots) in
          let (evicted, e, sum) =
            evict_until-Accounts budget order w v
              (All-sort_candidates (IsFound w) _ (candidates-IsFound strong_count w v)) in
          subst
            (λ r. Report (
              continue r
                (λ evicted s. (
                  ok (record { before = w.ready_bytes; after = s.ready_bytes; evicted = evicted }),
                  s,
                ))
                (evict_until budget order w).1))
            (sym e) (evicted, refl, sum)
    where
      Report : Result CollectReport × World V E W → Type 0
      Report r =
          (evicted : List EvictedAsset) × (r.0
            ≡ ok (record { before = w.ready_bytes; after = r.1.ready_bytes; evicted = evicted }))
          × (r.1.ready_bytes + evicted_bytes evicted ≡ w.ready_bytes)
