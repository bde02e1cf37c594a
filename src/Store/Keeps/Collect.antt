-- ===== src/Store/Keeps/Collect.antt =====
-- `collect` keeps the invariant (crates/assets/src/runtime.rs, lines 806 to 877).
use native.Mathlib.Nat.{le_refl}
use fluxel_bases.Prelude.{
  ℕ, ◌≡◌, refl, ap, inl, inr, Option, none, some, List, [], ◌∷◌, arith, checked_sub,
  checked_sub-some, checked_sub-none, Bool-cases, leb,
}
use fluxel_bases.Error.{AssetError, Result, ok, err, resident_bytes_overflow}
use fluxel_bases.Exec.{Exec, pure, ◌>>=◌}
use fluxel_bases.Exec.Bind.{or_raise_rule, state_rule}
use fluxel_bases.Identity.{AssetId}
use fluxel_bases.Budget.{CacheBudget, EvictedAsset, CollectReport}
use fluxel_bases.World.{World, Entry, Phase, ReadyValue}
use fluxel_bases.Store.{retained, find_entry, put_entry}
use fluxel_bases.Store.Finish.{previous_bytes, set_ready_bytes}
use fluxel_bases.Store.Collect.{
  Candidate, evict_phase, evict_entry, evict_turn, evict_until, collect,
}
use fluxel_bases.Store.Steps.{lock_rule, entry_rule}
use fluxel_bases.Store.Valid.{IsValid, AttemptIsValid}
use fluxel_bases.Store.Writes.{write-IsValid}
use fluxel_bases.Store.Keeps.Shared.{Stands, entry_valid}
use fluxel_bases.Store.Keeps.Finish.{found-Stands}
use fluxel_bases.Store.Keeps.Remove.{bytes-le}

module _ {V E : Type 0} where
  -- An eviction takes what the phase retained, and leaves the attempt as it was.
  evict_phase-some :
      (attempts next : ℕ) (phase after : Phase V E) (r : ReadyValue V)
      → evict_phase phase ≡ some (r, after)
      → AttemptIsValid attempts next phase
      → (retained phase ≡ some r) × (retained after ≡ none) × AttemptIsValid attempts next after
  unfolding evict_phase
  evict_phase-some a n Phase.missing after r e h = absurd (cc)
  evict_phase-some a n (Phase.producing _ _ _) after r e h = absurd (cc)
  evict_phase-some a n (Phase.ready s) after r e h = ground arith
  evict_phase-some a n (Phase.failed _ _ none) after r e h = absurd (cc)
  evict_phase-some a n (Phase.failed t x (some s)) after r e h = ground arith

module _ {V E W : Type 0} where
  -- The world after one eviction.
  abbrev pub evicted_world : AssetId → Entry V E → Phase V E → ℕ → World V E W → World V E W
  evicted_world id entry phase total w =
      set_ready_bytes total (put_entry id (record entry { phase = phase }) w)

  pub evicted-IsValid :
      (id : AssetId) (entry : Entry V E) (r : ReadyValue V) (phase : Phase V E) (total : ℕ)
      (w : World V E W)
      → Stands w id entry
      → evict_phase entry.phase ≡ some (r, phase)
      → checked_sub w.ready_bytes r.bytes ≡ some total
      → IsValid (evicted_world id entry phase total w)
  unfolding set_ready_bytes put_entry previous_bytes
  evicted-IsValid id entry r phase total w t e sum =
      let old = entry_valid w id entry t in
      let (took, left, latest) =
        evict_phase-some entry.attempt_generation w.next entry.phase phase r e old.latest in
      let sum' = checked_sub-some _ _ total sum in
      write-IsValid entry _ t.valid t.at
        (record {
          own_store = old.own_store;
          own_slot = old.own_slot;
          own_generation = old.own_generation;
          allocated = old.allocated;
          touched = old.touched;
          content_fits = old.content_fits;
          attempts_fit = old.attempts_fit;
          current = rw left tt;
          latest = latest;
        })
        (le_refl _) t.valid.touch_fits (le_refl _) (rw (took, left, previous_bytes) (omega arith))
        (omega (arith, t.valid.bytes_fit))

  -- The outcomes of one turn on a valid world: the subtraction does not fail.
  pub evict_turn_rule {κ} :
      (P : Result (List EvictedAsset) × World V E W → Type κ) (id : AssetId)
      (rest : Exec (World V E W) (List EvictedAsset)) (w : World V E W)
      → IsValid w
      → ((e : AssetError) → find_entry w id ≡ err e → P (err e, w))
      → ((entry : Entry V E)
          → find_entry w id ≡ ok entry
          → evict_phase entry.phase ≡ none
          → P (rest w))
      → ((entry : Entry V E) (r : ReadyValue V) (phase : Phase V E) (total : ℕ)
          → find_entry w id ≡ ok entry
          → evict_phase entry.phase ≡ some (r, phase)
          → checked_sub w.ready_bytes r.bytes ≡ some total
          → P (
              (rest >>= λ evicted.
              pure (record { id = id; generation = r.generation; bytes = r.bytes } ∷ evicted))
                (evicted_world id entry phase total w)))
      → P (evict_turn id rest w)
  unfolding evict_turn previous_bytes
  evict_turn_rule P id rest w v refused skip took =
      entry_rule P id _ w refused λ entry found. split entry found (evict_phase entry.phase) refl
    where
      split :
          (entry : Entry V E)
          → find_entry w id ≡ ok entry
          → (o : Option (ReadyValue V × Phase V E)) → evict_phase entry.phase ≡ o
          → P (evict_entry id entry o rest w)
      split entry found none e = skip entry found e
      split entry found (some (r, phase)) e =
          let t = found-Stands id entry w v found in
          let (retains, _, _) =
            evict_phase-some entry.attempt_generation w.next entry.phase phase r e
              (entry_valid w id entry t).latest in
          or_raise_rule P (checked_sub w.ready_bytes r.bytes) resident_bytes_overflow _
            (put_entry id (record entry { phase = phase }) w)
            (λ over. absurd (
              omega (
                arith,
                checked_sub-none _ _ over,
                bytes-le id entry w t,
                ap previous_bytes retains,
              )))
            (λ total. took entry r phase total found e)

  evict_until-IsValid :
      (budget : CacheBudget) (cs : List Candidate) (w : World V E W)
      → IsValid w
      → IsValid (evict_until budget cs w).1
  unfolding evict_until
  evict_until-IsValid budget [] w v = v
  evict_until-IsValid budget ((t, id) ∷ cs) w v =
      elim (Bool-cases (leb w.ready_bytes budget.max_resident_bytes)) [
        | inl done ↦ rw (done, evict_until) v
        | inr more ↦
            rw (more, evict_until)
              (evict_turn_rule (λ r. IsValid r.1) id (evict_until budget cs) w v (λ _ _. v)
                (λ _ _ _. evict_until-IsValid budget cs w v)
                λ entry r phase total found e sum.
                  let u = evicted_world id entry phase total w in
                  state_rule IsValid (evict_until budget cs) _ u
                    (evict_until-IsValid budget cs u (
                      evicted-IsValid id entry r phase total w (found-Stands id entry w v found) e
                        sum))
                    λ _ _ h. h)
      ]

  pub collect-IsValid :
      (strong_count : ℕ → ℕ) (budget : CacheBudget) (w : World V E W)
      → IsValid w
      → IsValid (collect strong_count budget w).1
  unfolding collect
  collect-IsValid strong_count budget w v =
      lock_rule (λ (r : Result CollectReport × World V E W). IsValid r.1) _ w (λ _. v)
        λ _.
          state_rule IsValid (evict_until budget _) _ w (evict_until-IsValid budget _ w v)
            λ _ _ h. h
