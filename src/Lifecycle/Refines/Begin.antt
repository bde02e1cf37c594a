-- ===== src/Lifecycle/Refines/Begin.antt =====
-- `acquire`, `retry`, `request_replacement`, `observe` and `upgrade` as histories of the abstract machine
-- (crates/assets/src/runtime.rs, lines 444 to 587).
use fluxel_bases.Prelude.{ℕ, ◌≡◌, refl, ap, sym, subst, none, arith}
use fluxel_bases.Exec.{Exec, pure, ◌>>=◌}
use fluxel_bases.Exec.Bind.{state_rule}
use fluxel_bases.Identity.{AssetId, AssetHandle, AssetWeak, handle_id}
use fluxel_bases.World.{World, Entry, Phase}
use fluxel_bases.Store.{retained, waiter, make_attempt}
use fluxel_bases.Store.Begin.{
  restart, acquire_phase, acquire, retry_phase, retry, replace_phase, request_replacement, observe,
  upgrade,
}
use fluxel_bases.Store.Valid.{IsValid}
use fluxel_bases.Store.Keeps.Shared.{Stands}
use fluxel_bases.Lifecycle.{IsIdle}
use fluxel_bases.Lifecycle.Refines.{
  Reach, Reach-refl, touch_entry-Reach, waiter-Reach, make_attempt-Reach, restart-Reach,
}

module _ {V E W : Type 0} where
  -- The block that returns what a step returns changes nothing more.
  mapped-Reach :
      {A B : Type 0} (m : Exec (World V E W) A) (f : A → B) (w : World V E W)
      → Reach w (m w).1
      → Reach w ((m >>= λ a. pure (f a)) w).1
  unfolding pure
  mapped-Reach m f w h = state_rule (Reach w) m (λ a. pure (f a)) w h λ _ _ k. k

  acquire_phase-Reach :
      (id : AssetId) (entry : Entry V E) (phase : Phase V E) (w : World V E W)
      → phase ≡ entry.phase
      → Stands w id entry
      → Reach w (acquire_phase id entry phase w).1
  unfolding acquire_phase
  acquire_phase-Reach id entry (Phase.ready r) w e t = Reach-refl w
  acquire_phase-Reach id entry (Phase.failed a x p) w e t = Reach-refl w
  acquire_phase-Reach id entry (Phase.producing a p c) w e t =
      mapped-Reach (waiter entry.token.id a c) _ w (waiter-Reach entry.token.id a c w)
  acquire_phase-Reach id entry Phase.missing w e t =
      mapped-Reach (make_attempt id entry none) _ w
        (make_attempt-Reach id entry none w t (ap retained e) (subst IsIdle e tt))

  pub acquire-Reach : (h : AssetHandle) (w : World V E W) → IsValid w → Reach w (acquire h w).1
  unfolding acquire
  acquire-Reach h w =
      touch_entry-Reach h _ w
        λ entry u t. acquire_phase-Reach (handle_id h) entry entry.phase u refl t

  -- The phase from which an attempt restarts.
  restarted-Reach :
      (id : AssetId) (entry : Entry V E) (phase : Phase V E) (w : World V E W)
      → phase ≡ entry.phase
      → IsIdle phase
      → Stands w id entry
      → Reach w (restart id entry (retained phase) w).1
  restarted-Reach id entry phase w e idle t =
      subst (λ q. Reach w (restart id entry (retained q) w).1) (sym e)
        (restart-Reach id entry w t (subst IsIdle e idle))

  retry_phase-Reach :
      (id : AssetId) (entry : Entry V E) (phase : Phase V E) (w : World V E W)
      → phase ≡ entry.phase
      → Stands w id entry
      → Reach w (retry_phase id entry phase w).1
  unfolding retry_phase
  retry_phase-Reach id entry (Phase.ready r) w e t = Reach-refl w
  retry_phase-Reach id entry (Phase.failed a x p) w e t =
      mapped-Reach (restart id entry p) _ w (restarted-Reach id entry (Phase.failed a x p) w e tt t)
  retry_phase-Reach id entry (Phase.producing a p c) w e t =
      mapped-Reach (waiter entry.token.id a c) _ w (waiter-Reach entry.token.id a c w)
  retry_phase-Reach id entry Phase.missing w e t =
      mapped-Reach (make_attempt id entry none) _ w
        (make_attempt-Reach id entry none w t (ap retained e) (subst IsIdle e tt))

  pub retry-Reach : (h : AssetHandle) (w : World V E W) → IsValid w → Reach w (retry h w).1
  unfolding retry
  retry-Reach h w =
      touch_entry-Reach h _ w
        λ entry u t. retry_phase-Reach (handle_id h) entry entry.phase u refl t

  replace_phase-Reach :
      (id : AssetId) (entry : Entry V E) (phase : Phase V E) (w : World V E W)
      → phase ≡ entry.phase
      → Stands w id entry
      → Reach w (replace_phase id entry phase w).1
  unfolding replace_phase
  replace_phase-Reach id entry (Phase.producing a p c) w e t =
      mapped-Reach (waiter entry.token.id a c) _ w (waiter-Reach entry.token.id a c w)
  replace_phase-Reach id entry Phase.missing w e t =
      mapped-Reach (restart id entry none) _ w (restarted-Reach id entry Phase.missing w e tt t)
  replace_phase-Reach id entry (Phase.ready r) w e t =
      mapped-Reach (restart id entry _) _ w (restarted-Reach id entry (Phase.ready r) w e tt t)
  replace_phase-Reach id entry (Phase.failed a x p) w e t =
      mapped-Reach (restart id entry p) _ w (restarted-Reach id entry (Phase.failed a x p) w e tt t)

  pub request_replacement-Reach :
      (h : AssetHandle) (w : World V E W) → IsValid w → Reach w (request_replacement h w).1
  unfolding request_replacement
  request_replacement-Reach h w =
      touch_entry-Reach h _ w
        λ entry u t. replace_phase-Reach (handle_id h) entry entry.phase u refl t

  pub observe-Reach : (h : AssetHandle) (w : World V E W) → IsValid w → Reach w (observe h w).1
  unfolding observe
  observe-Reach h w = touch_entry-Reach h _ w λ entry u t. Reach-refl u

  pub upgrade-Reach :
      (strong_count : ℕ → ℕ) (h : AssetWeak) (w : World V E W)
      → Reach w (upgrade strong_count h w).1
  unfolding upgrade
  upgrade-Reach strong_count h w = ground (arith, Reach-refl w)
