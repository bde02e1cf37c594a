-- ===== src/Lifecycle/Refines/Identities.antt =====
-- What becomes of an identity over the life of a store (documents/design-assets.md; runtime.rs, lines 412
-- to 442 and 749 to 804).
use native.Mathlib.Nat.{lt_irrefl}
use fluxel_bases.Prelude.{
  ℕ, ◌≡◌, ◌≢◌, refl, sym, subst, inl, inr, Bool, true, false, Option, none, some, List, arith, ◌==◌,
  Bool-cases, get_elem?-set_self, get_elem?-lt, checked_add-some, u32_max,
}
use fluxel_bases.Error.{Result, ok}
use fluxel_bases.Identity.{AssetId, AssetHandle, handle_id}
use fluxel_bases.Budget.{RemoveReport}
use fluxel_bases.World.{World, Entry}
use fluxel_bases.Store.{find_entry}
use fluxel_bases.Store.Finish.{set_ready_bytes}
use fluxel_bases.Store.{put_entry}
use fluxel_bases.Store.Begin.{new_token, occupy, create}
use fluxel_bases.Store.Keeps.Slots.{IsTaken}
use fluxel_bases.Store.Keeps.Create.{create_rule}
use fluxel_bases.Store.Eviction.{find_entry-At}
use fluxel_bases.Store.Remove.{next_generation, vacate_with, vacate, recycle_with, recycle, remove}
use fluxel_bases.Store.Calls.{Call, run}
use fluxel_bases.Store.Steps.{find_entry-ok}
use fluxel_bases.Store.Valid.{IsValid}
use fluxel_bases.Store.Keeps.Shared.{Stands}
use fluxel_bases.Store.Keeps.Finish.{found-Stands}
use fluxel_bases.Store.Keeps.Remove.{remove_own_rule, remove-IsValid}
use fluxel_bases.Store.Keeps.Calls.{run-IsValid}
use fluxel_bases.Lifecycle.{Steps}
use fluxel_bases.Lifecycle.History.{IsPast, Continues, Follows, Steps-IsPast, Steps-Follows}
use fluxel_bases.Lifecycle.View.{view, view-vacant, view-occupied}
use fluxel_bases.Lifecycle.Refines.Remove.{contains-insert_free_self, occupied-contains}
use fluxel_bases.Lifecycle.Refines.Create.{create-Reach}
use fluxel_bases.Lifecycle.Refines.Calls.{run-Reach}

module _ {V E W : Type 0} where
  -- The identity has been removed from its slot.
  abbrev pub IsGone : AssetId → World V E W → Type 0
  IsGone id w = IsPast id.generation (view w.state id.slot)

  recycled-IsGone :
      (next : Option ℕ) (id : AssetId) (entry : Entry V E) (total : ℕ) (w : World V E W)
      → next_generation id.generation ≡ next
      → Stands w id entry
      → IsGone id (recycle_with next id (set_ready_bytes total (vacate_with next id w)))
  unfolding set_ready_bytes
  recycled-IsGone none id entry total w e t =
      let u = recycle_with none id (set_ready_bytes total (vacate_with none id w)) in
      subst (IsPast id.generation)
        (sym (
          view-vacant u.state id.slot id.generation false
            (occupied-contains w.slots id.slot id.generation entry w.free t.at t.valid.free_vacant)
            (get_elem?-set_self w.slots id.slot _ (get_elem?-lt w.slots id.slot t.at))))
        tt
  recycled-IsGone (some g) id entry total w e t =
      let u = recycle_with (some g) id (set_ready_bytes total (vacate_with (some g) id w)) in
      subst (IsPast id.generation)
        (sym (
          view-vacant u.state id.slot g true (contains-insert_free_self id.slot w.free)
            (get_elem?-set_self w.slots id.slot _ (get_elem?-lt w.slots id.slot t.at))))
        (omega (arith, (checked_add-some u32_max id.generation 1 g e).0))

  abbrev GoneOnSuccess : AssetId → Result RemoveReport × World V E W → Type 0
  GoneOnSuccess id (ok _, u) = IsGone id u
  GoneOnSuccess id (_, u) = Unit {0}

  remove-GoneOnSuccess :
      (strong_count : ℕ → ℕ) (id : AssetId) (w : World V E W)
      → IsValid w
      → GoneOnSuccess id (remove strong_count id w)
  unfolding remove
  remove-GoneOnSuccess strong_count id w v = elim (Bool-cases (id.store == w.id)) [
    | inl own ↦
        rw (own, remove)
          (remove_own_rule (GoneOnSuccess id) strong_count id w v (λ _. tt)
            λ entry total found _ _.
              unfold vacate recycle in
              recycled-IsGone (next_generation id.generation) id entry total w refl
                (found-Stands id entry w v found))
    | inr other ↦ rw (other, remove) tt
  ]

  IsGone-find_entry :
      (id : AssetId) (w : World V E W) (entry : Entry V E)
      → IsGone id w
      → find_entry w id ≢ ok entry
  IsGone-find_entry id w entry gone found =
      let at = (find_entry-ok w id entry found).1 in
      lt_irrefl _
        (subst (IsPast id.generation) (view-occupied w.state id.slot id.generation entry at) gone)

  abbrev FoundOnSuccess : Result AssetHandle × World V E W → Type 0
  FoundOnSuccess (ok h, u) = (entry : Entry V E) × (find_entry u (handle_id h) ≡ ok entry)
  FoundOnSuccess (_, u) = Unit {0}

  occupied-found :
      (w v : World V E W) (i g : ℕ)
      → IsTaken v i g
      → FoundOnSuccess (ok (record { token = new_token v i g }), occupy i g v.touch v)
  unfolding occupy put_entry
  occupied-found w v i g t = (
    _,
    find_entry-At (occupy i g v.touch v) (new_token v i g).id _ refl
        (get_elem?-set_self v.slots i _ (get_elem?-lt v.slots i t.at)),
  )

  create-FoundOnSuccess : (w : World V E W) → IsValid w → FoundOnSuccess (create w)
  create-FoundOnSuccess w v =
      create_rule FoundOnSuccess w (λ _. tt) (λ _ _. tt) (λ u i g t _ _. occupied-found w u i g t) v

  create-IsGone :
      (id : AssetId) (w u : World V E W) (h : AssetHandle)
      → IsValid w
      → IsGone id w
      → create w ≡ (ok h, u)
      → handle_id h ≢ id
  create-IsGone id w u h v gone created same =
      let gone' = Steps-IsPast id.generation ((create-Reach w v).steps id.slot) gone in
      let (entry, found) = subst FoundOnSuccess created (create-FoundOnSuccess w v) in
      IsGone-find_entry id u entry (subst (λ r. IsGone id r.1) created gone')
        (subst (λ i. find_entry u i ≡ ok entry) same found)

module _ {V E W : Type 0} (will_wake : W → W → Bool) where
  run-IsGone :
      (cs : List (Call V E W)) (id : AssetId) (w : World V E W)
      → IsValid w
      → IsGone id w
      → IsGone id (run will_wake cs w)
  run-IsGone cs id w v gone =
      Steps-IsPast id.generation ((run-Reach will_wake cs w v).steps id.slot) gone

  -- Once a removal of an identity from a valid store has succeeded, no calls of the store's clients
  -- make the identity find an entry again.
  pub remove-run :
      (strong_count : ℕ → ℕ) (id : AssetId) (w u : World V E W) (report : RemoveReport)
      (cs : List (Call V E W)) (entry : Entry V E)
      → IsValid w
      → remove strong_count id w ≡ (ok report, u)
      → find_entry (run will_wake cs u) id ≢ ok entry
  remove-run strong_count id w u report cs entry v removed =
      IsGone-find_entry id (run will_wake cs u) entry (
        run-IsGone cs id u (subst (λ r. IsValid r.1) removed (remove-IsValid strong_count id w v))
          (subst (GoneOnSuccess id) removed (remove-GoneOnSuccess strong_count id w v)))

  -- Once a removal of an identity from a valid store has succeeded, `create` hands out another
  -- identity, whatever the store's clients have called in between.
  pub remove-create :
      (strong_count : ℕ → ℕ) (id : AssetId) (w u t : World V E W) (report : RemoveReport)
      (cs : List (Call V E W)) (h : AssetHandle)
      → IsValid w
      → remove strong_count id w ≡ (ok report, u)
      → create (run will_wake cs u) ≡ (ok h, t)
      → handle_id h ≢ id
  remove-create strong_count id w u t report cs h v removed created =
      let valid = subst (λ r. IsValid r.1) removed (remove-IsValid strong_count id w v) in
      let gone = subst (GoneOnSuccess id) removed (remove-GoneOnSuccess strong_count id w v) in
      create-IsGone id (run will_wake cs u) t h (run-IsValid will_wake cs u valid)
        (run-IsGone cs id u valid gone) created

  -- An identity of a valid store that finds an entry before and after any calls of the store's clients
  -- finds the same asset, under the same token, and its content generation and its count of attempts
  -- have not gone down.
  pub run-Continues :
      (cs : List (Call V E W)) (id : AssetId) (w : World V E W) (old new : Entry V E)
      → IsValid w
      → find_entry w id ≡ ok old
      → find_entry (run will_wake cs w) id ≡ ok new
      → Continues old new
  run-Continues cs id w old new v before after =
      let u = run will_wake cs w in
      let at = (find_entry-ok w id old before).1 in
      let at' = (find_entry-ok u id new after).1 in
      let steps =
        subst (λ p. Steps p (view u.state id.slot))
          (view-occupied w.state id.slot id.generation old at)
          ((run-Reach will_wake cs w v).steps id.slot) in
      let follows =
        subst (Follows id.generation old) (view-occupied u.state id.slot id.generation new at')
          (Steps-Follows steps) in
      elim follows [ inl same ↦ same.1 | inr less ↦ absurd (lt_irrefl _ less) ]
