-- ===== src/Store/Keeps/Begin.antt =====
-- `acquire`, `retry`, `request_replacement`, `observe` and `upgrade` keep the invariant
-- (crates/assets/src/runtime.rs, lines 444 to 587).
use fluxel_bases.Prelude.{ℕ, ◌≡◌, refl, ap, sym, subst, none, arith}
use fluxel_bases.Exec.Bind.{state_rule}
use fluxel_bases.Identity.{AssetId, AssetHandle, AssetWeak, handle_id}
use fluxel_bases.World.{World, Entry, Phase}
use fluxel_bases.Store.{retained, waiter, make_attempt}
use fluxel_bases.Store.Begin.{
  restart, acquire_phase, acquire, retry_phase, retry, replace_phase, request_replacement, observe,
  upgrade,
}
use fluxel_bases.Store.Valid.{IsValid}
use fluxel_bases.Store.Keeps.Shared.{
  Stands, touch_entry-IsValid, waiter-IsValid, make_attempt-IsValid, restart-IsValid,
}

module _ {V E W : Type 0} where
  acquire_phase-IsValid :
      (id : AssetId) (entry : Entry V E) (phase : Phase V E) (w : World V E W)
      → phase ≡ entry.phase
      → Stands w id entry
      → IsValid (acquire_phase id entry phase w).1
  unfolding acquire_phase
  acquire_phase-IsValid id entry (Phase.ready r) w e t = t.valid
  acquire_phase-IsValid id entry (Phase.failed a x p) w e t = t.valid
  acquire_phase-IsValid id entry (Phase.producing a p c) w e t =
      state_rule IsValid (waiter entry.token.id a c) _ w
        (waiter-IsValid entry.token.id a c w t.valid) λ _ _ v. v
  acquire_phase-IsValid id entry Phase.missing w e t =
      state_rule IsValid (make_attempt id entry none) _ w
        (make_attempt-IsValid id entry none w t (ap retained e)) λ _ _ v. v

  pub acquire-IsValid : (h : AssetHandle) (w : World V E W) → IsValid w → IsValid (acquire h w).1
  unfolding acquire
  acquire-IsValid h w =
      touch_entry-IsValid h _ w
        λ entry u t. acquire_phase-IsValid (handle_id h) entry entry.phase u refl t

  retry_phase-IsValid :
      (id : AssetId) (entry : Entry V E) (phase : Phase V E) (w : World V E W)
      → phase ≡ entry.phase
      → Stands w id entry
      → IsValid (retry_phase id entry phase w).1
  unfolding retry_phase
  retry_phase-IsValid id entry (Phase.ready r) w e t = t.valid
  retry_phase-IsValid id entry (Phase.failed a x p) w e t =
      state_rule IsValid (restart id entry p) _ w
        (subst (λ q. IsValid (restart id entry q w).1) (sym (ap retained e))
          (restart-IsValid id entry w t))
        λ _ _ v. v
  retry_phase-IsValid id entry (Phase.producing a p c) w e t =
      state_rule IsValid (waiter entry.token.id a c) _ w
        (waiter-IsValid entry.token.id a c w t.valid) λ _ _ v. v
  retry_phase-IsValid id entry Phase.missing w e t =
      state_rule IsValid (make_attempt id entry none) _ w
        (make_attempt-IsValid id entry none w t (ap retained e)) λ _ _ v. v

  pub retry-IsValid : (h : AssetHandle) (w : World V E W) → IsValid w → IsValid (retry h w).1
  unfolding retry
  retry-IsValid h w =
      touch_entry-IsValid h _ w
        λ entry u t. retry_phase-IsValid (handle_id h) entry entry.phase u refl t

  replace_phase-IsValid :
      (id : AssetId) (entry : Entry V E) (phase : Phase V E) (w : World V E W)
      → phase ≡ entry.phase
      → Stands w id entry
      → IsValid (replace_phase id entry phase w).1
  unfolding replace_phase
  replace_phase-IsValid id entry (Phase.producing a p c) w e t =
      state_rule IsValid (waiter entry.token.id a c) _ w
        (waiter-IsValid entry.token.id a c w t.valid) λ _ _ v. v
  replace_phase-IsValid id entry phase w e t =
      state_rule IsValid (restart id entry (retained phase)) _ w
        (subst (λ q. IsValid (restart id entry (retained q) w).1) (sym e)
          (restart-IsValid id entry w t))
        λ _ _ v. v

  pub request_replacement-IsValid :
      (h : AssetHandle) (w : World V E W) → IsValid w → IsValid (request_replacement h w).1
  unfolding request_replacement
  request_replacement-IsValid h w =
      touch_entry-IsValid h _ w
        λ entry u t. replace_phase-IsValid (handle_id h) entry entry.phase u refl t

  pub observe-IsValid : (h : AssetHandle) (w : World V E W) → IsValid w → IsValid (observe h w).1
  unfolding observe
  observe-IsValid h w = touch_entry-IsValid h _ w λ entry u t. t.valid

  pub upgrade-IsValid :
      (strong_count : ℕ → ℕ) (h : AssetWeak) (w : World V E W)
      → IsValid w
      → IsValid (upgrade strong_count h w).1
  unfolding upgrade
  upgrade-IsValid strong_count h w v = ground arith
