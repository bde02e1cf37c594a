-- ===== src/Store/Keeps/Finish.antt =====
-- `commit`, `fail` and `cancel` keep the invariant (crates/assets/src/runtime.rs, lines 589 to 747).
use native.Mathlib.Nat.{le_refl}
use fluxel_bases.Prelude.{
  ℕ, ◌+◌, ◌≤◌, ◌<◌, ◌≡◌, ◌≢◌, refl, ap, sym, subst, ◌∙◌, Option, none, some, arith, u64_max,
  checked_add, checked_add-some,
}
use fluxel_bases.Error.{Result, ok, panic, generation_exhausted, resident_bytes_overflow}
use fluxel_bases.Exec.Bind.{lift_rule, or_raise_rule}
use fluxel_bases.Identity.{AssetId}
use fluxel_bases.State.{AssetSnapshot, ProductionFailure}
use fluxel_bases.World.{World, Entry, Phase, ReadyValue}
use fluxel_bases.Store.{retained, put_entry, find_entry}
use fluxel_bases.Store.Finish.{
  claim, previous_bytes, replaced_total, restored, set_ready_bytes, commit, fail, cancel,
}
use fluxel_bases.Store.Steps.{bump, find_entry-ok, clock_rule, entry_rule}
use fluxel_bases.Store.Valid.{IsValid, AttemptIsValid}
use fluxel_bases.Store.Writes.{write-IsValid}
use fluxel_bases.Store.Keeps.Shared.{bump-IsValid, Stands, entry_valid, put-Stands}

module _ {V E : Type 0} where
  -- A claim succeeds only on the attempt and the cell that it names.
  pub claim-ok :
      (attempt cell : ℕ) (phase : Phase V E) (previous : Option (ReadyValue V))
      → claim attempt cell phase ≡ ok previous
      → phase ≡ Phase.producing attempt previous cell
  unfolding claim
  claim-ok attempt cell Phase.missing previous h = absurd (cc)
  claim-ok attempt cell (Phase.producing a p c) previous h = ground arith
  claim-ok attempt cell (Phase.ready r) previous h = absurd (cc)
  claim-ok attempt cell (Phase.failed a e p) previous h = absurd (cc)

  claim-ne-panic : (attempt cell : ℕ) (phase : Phase V E) → claim attempt cell phase ≢ panic
  unfolding claim
  claim-ne-panic attempt cell Phase.missing h = cc
  claim-ne-panic attempt cell (Phase.producing a p c) h = ground arith
  claim-ne-panic attempt cell (Phase.ready r) h = cc
  claim-ne-panic attempt cell (Phase.failed a e p) h = cc

module _ {V : Type 0} where
  -- The new total, where there is one.
  replaced_total-some :
      (current bytes total : ℕ) (previous : Option (ReadyValue V))
      → replaced_total current previous bytes ≡ some total
      → (total + previous_bytes previous ≡ current + bytes) × (total ≤ u64_max)
  unfolding replaced_total
  replaced_total-some current bytes total previous h = ground arith

module _ {V : Type 0} (E : Type 0) where
  retained-restored :
      (previous : Option (ReadyValue V)) → retained (restored {E = E} previous) ≡ previous
  retained-restored none = refl
  retained-restored (some r) = refl

  restored-latest :
      (attempts next : ℕ) (previous : Option (ReadyValue V))
      → AttemptIsValid attempts next (restored {E = E} previous)
  restored-latest attempts next none = tt
  restored-latest attempts next (some r) = tt

module _ {V E W : Type 0} where
  -- An entry that is found, after the clock was read.
  pub found-Stands :
      (id : AssetId) (entry : Entry V E) (w : World V E W)
      → IsValid w
      → find_entry w id ≡ ok entry
      → Stands w id entry
  found-Stands id entry w v found = record { valid = v; at = (find_entry-ok w id entry found).1 }

  -- An attempt ends in a phase that retains what the attempt kept.
  ended-IsValid :
      (id : AssetId) (entry : Entry V E) (phase : Phase V E) (w : World V E W)
      → Stands w id entry
      → retained phase ≡ retained entry.phase
      → AttemptIsValid entry.attempt_generation w.next phase
      → IsValid (put_entry id (record entry { last_touch = w.touch; phase = phase }) w)
  ended-IsValid id entry phase w t e latest =
      let old = entry_valid w id entry t in
      (put-Stands id entry _ w t
        (record {
          own_store = old.own_store;
          own_slot = old.own_slot;
          own_generation = old.own_generation;
          allocated = old.allocated;
          touched = le_refl _;
          content_fits = old.content_fits;
          attempts_fit = old.attempts_fit;
          current = rw e old.current;
          latest = latest;
        })
        (ap previous_bytes e)).valid

  -- The attempt that a claimed entry has.
  pub claimed_attempt :
      (id : AssetId) (entry : Entry V E) (attempt cell : ℕ) (previous : Option (ReadyValue V))
      (w : World V E W)
      → Stands w id entry
      → entry.phase ≡ Phase.producing attempt previous cell
      → (attempt ≡ entry.attempt_generation) × (0 < entry.attempt_generation) × (cell < w.next)
  claimed_attempt id entry attempt cell previous w t e =
      subst (AttemptIsValid entry.attempt_generation w.next) e (entry_valid w id entry t).latest

  pub cancel-IsValid :
      (id : AssetId) (attempt cell : ℕ) (w : World V E W)
      → IsValid w
      → IsValid (cancel id attempt cell w).1
  unfolding cancel
  cancel-IsValid id attempt cell w v =
      clock_rule P _ w (λ _. v)
        λ lt.
          entry_rule P id _ (bump w) (λ _ _. bump-IsValid w lt v)
            λ entry found.
              lift_rule P (claim attempt cell entry.phase) _ (bump w) (λ _ _. bump-IsValid w lt v)
                (λ _. bump-IsValid w lt v)
                λ previous claimed.
                  ended-IsValid id entry (restored previous) (bump w)
                    (found-Stands id entry (bump w) (bump-IsValid w lt v) found)
                    (retained-restored E previous
                      ∙ sym (ap retained (claim-ok attempt cell entry.phase previous claimed)))
                    (restored-latest E _ _ previous)
    where
      P : Result (Unit {0}) × World V E W → Type 0
      P r = IsValid r.1

  pub fail-IsValid :
      (id : AssetId) (attempt cell : ℕ) (error : E) (w : World V E W)
      → IsValid w
      → IsValid (fail id attempt cell error w).1
  unfolding fail
  fail-IsValid id attempt cell error w v =
      clock_rule P _ w (λ _. v)
        λ lt.
          entry_rule P id _ (bump w) (λ _ _. bump-IsValid w lt v)
            λ entry found.
              lift_rule P (claim attempt cell entry.phase) _ (bump w) (λ _ _. bump-IsValid w lt v)
                (λ _. bump-IsValid w lt v)
                λ previous claimed.
                  let at = found-Stands id entry (bump w) (bump-IsValid w lt v) found in
                  let active = claim-ok attempt cell entry.phase previous claimed in
                  let (same, pos, _) =
                    claimed_attempt id entry attempt cell previous (bump w) at active in
                  ended-IsValid id entry (Phase.failed attempt error previous) (bump w) at
                    (sym (ap retained active)) (same, pos)
    where
      P : Result (ProductionFailure V E) × World V E W → Type 0
      P r = IsValid r.1

  -- A commit exchanges the retained value, and the total with it.
  committed-IsValid :
      (id : AssetId) (entry : Entry V E) (previous : Option (ReadyValue V)) (value : V)
      (generation bytes total : ℕ) (w : World V E W)
      → Stands w id entry
      → previous ≡ retained entry.phase
      → checked_add u64_max entry.content_generation 1 ≡ some generation
      → replaced_total w.ready_bytes previous bytes ≡ some total
      → IsValid (
          set_ready_bytes total (
            put_entry id
              (record entry {
                content_generation = generation;
                last_touch = w.touch;
                phase =
                    Phase.ready (record { generation = generation; value = value; bytes = bytes });
              })
              w))
  unfolding set_ready_bytes put_entry previous_bytes
  committed-IsValid id entry previous value generation bytes total w t e counted exchanged =
      let old = entry_valid w id entry t in
      let (next, fits) = checked_add-some u64_max entry.content_generation 1 generation counted in
      let (sum, sum_fits) = replaced_total-some w.ready_bytes bytes total previous exchanged in
      write-IsValid entry _ t.valid t.at
        (record {
          own_store = old.own_store;
          own_slot = old.own_slot;
          own_generation = old.own_generation;
          allocated = old.allocated;
          touched = le_refl _;
          content_fits = fits;
          attempts_fit = old.attempts_fit;
          current = (refl, omega arith);
          latest = tt;
        })
        (le_refl _) t.valid.touch_fits (le_refl _)
        (subst (λ p. total + previous_bytes p ≡ w.ready_bytes + bytes) e sum) sum_fits

  pub commit-IsValid :
      (id : AssetId) (attempt cell : ℕ) (value : V) (bytes : ℕ) (w : World V E W)
      → IsValid w
      → IsValid (commit id attempt cell value bytes w).1
  unfolding commit
  commit-IsValid id attempt cell value bytes w v =
      clock_rule P _ w (λ _. v)
        λ lt.
          let bumped = bump-IsValid w lt v in
          entry_rule P id _ (bump w) (λ _ _. bumped)
            λ entry found.
              or_raise_rule P (checked_add u64_max entry.content_generation 1) generation_exhausted
                _ (bump w) (λ _. bumped)
                λ generation counted.
                  lift_rule P (claim attempt cell entry.phase) _ (bump w) (λ _ _. bumped)
                    (λ _. bumped)
                    λ previous claimed.
                      or_raise_rule P (replaced_total w.ready_bytes previous bytes)
                        resident_bytes_overflow _ (bump w) (λ _. bumped)
                        λ total exchanged.
                          committed-IsValid id entry previous value generation bytes total (bump w)
                            (found-Stands id entry (bump w) bumped found)
                            (sym (ap retained (claim-ok attempt cell entry.phase previous claimed)))
                            counted exchanged
    where
      P : Result (AssetSnapshot V) × World V E W → Type 0
      P r = IsValid r.1
