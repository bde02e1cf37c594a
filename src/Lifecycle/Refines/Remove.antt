-- ===== src/Lifecycle/Refines/Remove.antt =====
-- `remove` as a history of the abstract machine (crates/assets/src/runtime.rs, lines 749 to 804).
use fluxel_bases.Prelude.{
  ℕ, ◌≤◌, ◌≡◌, ◌≢◌, refl, inl, inr, true, false, Option, none, some, List, [], ◌∷◌, arith, u32_max,
  ◌==◌, checked_add-some, checked_add-cases, get_elem?, All, get_elem?-set_self, get_elem?-set_ne,
  get_elem?-lt, Bool-cases, eq-cases,
}
use fluxel_bases.Error.{ok}
use fluxel_bases.Identity.{AssetId}
use fluxel_bases.World.{World, Entry, Slot, Phase}
use fluxel_bases.Store.Finish.{set_ready_bytes}
use fluxel_bases.Store.Remove.{
  insert_free, next_generation, idle, removable, vacate_with, vacate, recycle_with, recycle, remove,
}
use fluxel_bases.Store.Valid.{IsValid, IsVacant}
use fluxel_bases.Store.Keeps.Shared.{Stands}
use fluxel_bases.Store.Keeps.Finish.{found-Stands}
use fluxel_bases.Store.Keeps.Remove.{remove_own_rule}
use fluxel_bases.Lifecycle.{IsIdle, here, later, recycles, retires}
use fluxel_bases.Lifecycle.View.{contains, view-vacant, view-occupied, Refines-slot}
use fluxel_bases.Lifecycle.Refines.{Reach, Reach-refl}

pub contains-insert_free_self : (i : ℕ) (xs : List ℕ) → contains i (insert_free i xs) ≡ true
unfolding contains insert_free
contains-insert_free_self i [] = ground arith
contains-insert_free_self i (x ∷ xs) = ground (arith, contains-insert_free_self i xs)

contains-insert_free_ne :
    (i j : ℕ) (xs : List ℕ) → i ≢ j → contains j (insert_free i xs) ≡ contains j xs
unfolding contains insert_free
contains-insert_free_ne i j [] other = ground (arith, other)
contains-insert_free_ne i j (x ∷ xs) other =
    ground (arith, other, contains-insert_free_ne i j xs other)

last_generation : (g : ℕ) → g ≤ u32_max → next_generation g ≡ none → g ≡ u32_max
last_generation g fits e = elim (checked_add-cases u32_max g 1) [
  | inl (_, over) ↦ omega arith
  | inr (found, _) ↦ absurd (cc)
]

module _ {V E : Type 0} where
  -- An occupied place is not among the free ones.
  pub occupied-contains :
      (slots : List (Slot V E)) (i g : ℕ) (entry : Entry V E) (xs : List ℕ)
      → get_elem? slots i ≡ some (record { generation = g; entry = some entry })
      → All (IsVacant slots) xs
      → contains i xs ≡ false
  unfolding contains
  occupied-contains slots i g entry [] at h = refl
  occupied-contains slots i g entry (x ∷ xs) at ((k, vacant), rest) = elim (eq-cases x i) [
    | inl same ↦ absurd (clash same)
    | inr other ↦ ground (arith, other, occupied-contains slots i g entry xs at rest)
  ]
    where
      clash : x ≡ i → ⊥
      clash same = cc

  idle-IsIdle : (entry : Entry V E) (phase : Phase V E) → idle entry phase ≡ ok entry → IsIdle phase
  idle-IsIdle entry Phase.missing e = tt
  idle-IsIdle entry (Phase.producing a p c) e = absurd (cc)
  idle-IsIdle entry (Phase.ready r) e = tt
  idle-IsIdle entry (Phase.failed a x p) e = tt

  removable-IsIdle :
      (strong_count : ℕ → ℕ) (entry : Entry V E)
      → removable strong_count entry ≡ ok entry
      → IsIdle entry.phase
  unfolding removable
  removable-IsIdle strong_count entry e = ground (arith, idle-IsIdle entry entry.phase)

module _ {V E W : Type 0} where
  removed-Reach :
      (next : Option ℕ) (id : AssetId) (entry : Entry V E) (total : ℕ) (w : World V E W)
      → next_generation id.generation ≡ next
      → Stands w id entry
      → IsIdle entry.phase
      → Reach w (recycle_with next id (set_ready_bytes total (vacate_with next id w)))
  unfolding set_ready_bytes
  removed-Reach none id entry total w e t idle_ =
      let u = recycle_with none id (set_ready_bytes total (vacate_with none id w)) in
      Refines-slot w.state u.state id.slot
        (rw
          (
            view-occupied w.state id.slot id.generation entry t.at,
            view-vacant u.state id.slot id.generation false
                (occupied-contains w.slots id.slot id.generation entry w.free t.at
                  t.valid.free_vacant)
                (get_elem?-set_self w.slots id.slot _ (get_elem?-lt w.slots id.slot t.at)),
          )
          (later here (
            retires idle_ (
              last_generation id.generation (t.valid.slots_valid id.slot _ t.at).generation_fits
                e))))
        (λ j other. get_elem?-set_ne w.slots id.slot j _ other) (λ j _. refl)
  removed-Reach (some g) id entry total w e t idle_ =
      let u = recycle_with (some g) id (set_ready_bytes total (vacate_with (some g) id w)) in
      Refines-slot w.state u.state id.slot
        (rw
          (
            view-occupied w.state id.slot id.generation entry t.at,
            view-vacant u.state id.slot g true (contains-insert_free_self id.slot w.free)
                (get_elem?-set_self w.slots id.slot _ (get_elem?-lt w.slots id.slot t.at)),
          )
          (later here (recycles idle_ (checked_add-some u32_max id.generation 1 g e).0)))
        (λ j other. get_elem?-set_ne w.slots id.slot j _ other)
        (λ j other. contains-insert_free_ne id.slot j w.free other)

  pub remove-Reach :
      (strong_count : ℕ → ℕ) (id : AssetId) (w : World V E W)
      → IsValid w
      → Reach w (remove strong_count id w).1
  unfolding remove
  remove-Reach strong_count id w v = elim (Bool-cases (id.store == w.id)) [
    | inl own ↦
        rw (own, remove)
          (remove_own_rule (λ r. Reach w r.1) strong_count id w v (λ _. Reach-refl w)
            λ entry total found fit _.
              unfold vacate recycle in
              removed-Reach (next_generation id.generation) id entry total w refl
                (found-Stands id entry w v found) (removable-IsIdle strong_count entry fit))
    | inr other ↦ rw (other, remove) (Reach-refl w)
  ]
