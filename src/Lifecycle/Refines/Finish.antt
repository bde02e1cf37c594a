-- ===== src/Lifecycle/Refines/Finish.antt =====
-- `commit`, `fail` and `cancel` as histories of the abstract machine (crates/assets/src/runtime.rs, lines
-- 589 to 747).
use fluxel_bases.Prelude.{
  ℕ, ◌≡◌, refl, ap, ◌∙◌, Option, some, u64_max, checked_add, checked_add-some,
}
use fluxel_bases.Error.{Result, generation_exhausted, resident_bytes_overflow}
use fluxel_bases.Exec.Bind.{lift_rule, or_raise_rule}
use fluxel_bases.Identity.{AssetId}
use fluxel_bases.State.{AssetSnapshot, ProductionFailure}
use fluxel_bases.World.{World, Entry, Phase, ReadyValue}
use fluxel_bases.Store.{put_entry}
use fluxel_bases.Store.Finish.{claim, commit, fail, cancel, replaced_total, set_ready_bytes}
use fluxel_bases.Store.Steps.{bump, clock_rule, entry_rule}
use fluxel_bases.Store.Valid.{IsValid}
use fluxel_bases.Store.Keeps.Shared.{Stands, bump-IsValid}
use fluxel_bases.Store.Keeps.Finish.{claim-ok, found-Stands, claimed_attempt}
use fluxel_bases.Store.Cancellation.{restored-kept_phase}
use fluxel_bases.Lifecycle.{Transition}
use fluxel_bases.Lifecycle.View.{Refines-trans, Refines-put}
use fluxel_bases.Lifecycle.Refines.{Reach, Reach-refl, bump-Reach, put-Reach}

module _ {V E W : Type 0} where
  -- The attempt that runs, by the entry's own count.
  claimed-active :
      (id : AssetId) (entry : Entry V E) (attempt cell : ℕ) (previous : Option (ReadyValue V))
      (w : World V E W)
      → Stands w id entry
      → entry.phase ≡ Phase.producing attempt previous cell
      → (attempt ≡ entry.attempt_generation)
        × (entry.phase ≡ Phase.producing entry.attempt_generation previous cell)
  claimed-active id entry attempt cell previous w t e =
      let (same, _, _) = claimed_attempt id entry attempt cell previous w t e in
      (same, e ∙ ap (λ a. Phase.producing a previous cell) same)

  pub cancel-Reach :
      (id : AssetId) (attempt cell : ℕ) (w : World V E W)
      → IsValid w
      → Reach w (cancel id attempt cell w).1
  unfolding cancel
  cancel-Reach id attempt cell w v =
      clock_rule P _ w (λ _. Reach-refl w)
        λ lt.
          entry_rule P id _ (bump w) (λ _ _. bump-Reach w)
            λ entry found.
              lift_rule P (claim attempt cell entry.phase) _ (bump w) (λ _ _. bump-Reach w)
                (λ _. bump-Reach w)
                λ previous claimed.
                  let at = found-Stands id entry (bump w) (bump-IsValid w lt v) found in
                  let (_, active) =
                    claimed-active id entry attempt cell previous (bump w) at
                      (claim-ok attempt cell entry.phase previous claimed) in
                  Refines-trans (bump-Reach w) (
                    put-Reach id entry _ (bump w) at.at refl (
                      Transition.cancels cell previous active (restored-kept_phase previous) refl
                        refl))
    where
      P : Result (Unit {0}) × World V E W → Type 0
      P r = Reach w r.1

  pub fail-Reach :
      (id : AssetId) (attempt cell : ℕ) (error : E) (w : World V E W)
      → IsValid w
      → Reach w (fail id attempt cell error w).1
  unfolding fail
  fail-Reach id attempt cell error w v =
      clock_rule P _ w (λ _. Reach-refl w)
        λ lt.
          entry_rule P id _ (bump w) (λ _ _. bump-Reach w)
            λ entry found.
              lift_rule P (claim attempt cell entry.phase) _ (bump w) (λ _ _. bump-Reach w)
                (λ _. bump-Reach w)
                λ previous claimed.
                  let at = found-Stands id entry (bump w) (bump-IsValid w lt v) found in
                  let (same, active) =
                    claimed-active id entry attempt cell previous (bump w) at
                      (claim-ok attempt cell entry.phase previous claimed) in
                  Refines-trans (bump-Reach w) (
                    put-Reach id entry _ (bump w) at.at refl (
                      Transition.fails cell previous error active
                        (ap (λ a. Phase.failed a error previous) same) refl refl))
    where
      P : Result (ProductionFailure V E) × World V E W → Type 0
      P r = Reach w r.1

  committed-Reach :
      (id : AssetId) (entry : Entry V E) (previous : Option (ReadyValue V)) (value : V)
      (cell generation bytes total : ℕ) (w : World V E W)
      → Stands w id entry
      → entry.phase ≡ Phase.producing entry.attempt_generation previous cell
      → checked_add u64_max entry.content_generation 1 ≡ some generation
      → Reach w (
          set_ready_bytes total (
            put_entry id
              (record entry {
                content_generation = generation;
                last_touch = w.touch;
                phase =
                    Phase.ready (record { generation = generation; value = value; bytes = bytes });
              })
              w))
  unfolding set_ready_bytes put_entry
  committed-Reach id entry previous value cell generation bytes total w t active counted =
      let (next, _) = checked_add-some u64_max entry.content_generation 1 generation counted in
      Refines-put w.state id.slot id.generation total w.touch entry _ t.at refl
        (Transition.commits cell previous _ active refl next refl next)

  pub commit-Reach :
      (id : AssetId) (attempt cell : ℕ) (value : V) (bytes : ℕ) (w : World V E W)
      → IsValid w
      → Reach w (commit id attempt cell value bytes w).1
  unfolding commit
  commit-Reach id attempt cell value bytes w v =
      clock_rule P _ w (λ _. Reach-refl w)
        λ lt.
          entry_rule P id _ (bump w) (λ _ _. bump-Reach w)
            λ entry found.
              or_raise_rule P (checked_add u64_max entry.content_generation 1) generation_exhausted
                _ (bump w) (λ _. bump-Reach w)
                λ generation counted.
                  lift_rule P (claim attempt cell entry.phase) _ (bump w) (λ _ _. bump-Reach w)
                    (λ _. bump-Reach w)
                    λ previous claimed.
                      or_raise_rule P (replaced_total w.ready_bytes previous bytes)
                        resident_bytes_overflow _ (bump w) (λ _. bump-Reach w)
                        λ total exchanged.
                          let at = found-Stands id entry (bump w) (bump-IsValid w lt v) found in
                          Refines-trans (bump-Reach w) (
                            committed-Reach id entry previous value cell generation bytes total
                              (bump w) at
                              (claimed-active id entry attempt cell previous (bump w) at
                                (claim-ok attempt cell entry.phase previous claimed)).1
                              counted)
    where
      P : Result (AssetSnapshot V) × World V E W → Type 0
      P r = Reach w r.1
