-- ===== src/Store/Removal.antt =====
-- What `remove` does and what it refuses (crates/assets/src/runtime.rs, lines 749 to 804).
use mathlib.Core.Option
use fluxel_bases.Prelude.{
  ℕ, ◌+◌, ◌-◌, ◌≡◌, refl, ap, ◌∙◌, inl, inr, false, Option, none, some, arith, get_elem?-set_self,
  get_elem?-lt, ==_refl, checked_sub, ltb, if◌then◌else◌, checked_sub-cases,
}
use fluxel_bases.Error.{AssetError, ok, err, live_users, production_in_progress}
use fluxel_bases.Exec.{◌>>=◌}
use fluxel_bases.Identity.{AssetId}
use fluxel_bases.World.{World, Entry, Phase}
use fluxel_bases.Store.{lock, find_entry, entry_mut, retained, stale, in_slot}
use fluxel_bases.Store.Finish.{previous_bytes, set_ready_bytes}
use fluxel_bases.Store.Remove.{
  next_generation, removable, vacate_with, vacate, recycle_with, recycle, remove_own, remove,
}
use fluxel_bases.Store.Steps.{find_entry-ok}
use fluxel_bases.Store.Valid.{IsValid}
use fluxel_bases.Store.Keeps.Finish.{found-Stands}
use fluxel_bases.Store.Keeps.Remove.{bytes-le}

module _ {V E : Type 0} where
  in_slot-vacant :
      (id : AssetId) (g : ℕ)
      → in_slot {V = V} {E = E} id (some (record { generation = g; entry = none })) ≡ err (stale id)
  in_slot-vacant id g = ground arith

  -- The error with which `remove` must answer, if it must not remove.
  unfoldable pub refusal : ℕ → Phase V E → Option AssetError
  refusal users phase = if ltb 1 users then some (live_users (users - 1)) else elim phase [
    | Phase.producing attempt _ _ ↦ some (production_in_progress attempt)
    | _ ↦ none
  ]

  removable-refusal :
      (strong_count : ℕ → ℕ) (entry : Entry V E) (phase : Phase V E)
      → entry.phase ≡ phase
      → removable strong_count entry
        ≡ elim (refusal (strong_count entry.token.addr) phase) [ none ↦ ok entry | some e ↦ err e ]
  unfolding removable refusal
  removable-refusal strong_count entry Phase.missing e = ground arith
  removable-refusal strong_count entry (Phase.producing a p c) e = ground arith
  removable-refusal strong_count entry (Phase.ready r) e = ground arith
  removable-refusal strong_count entry (Phase.failed a x p) e = ground arith

module _ {V E W : Type 0} where
  refused_remove :
      (strong_count : ℕ → ℕ) (id : AssetId) (w : World V E W) (entry : Entry V E) (e : AssetError)
      → w.poisoned ≡ false
      → find_entry w id ≡ ok entry
      → removable strong_count entry ≡ err e
      → remove strong_count id w ≡ (err e, w)
  unfolding remove remove_own lock entry_mut ◌>>=◌
  refused_remove strong_count id w entry e sound found refused =
      let own = (find_entry-ok w id entry found).0 in ground (arith, own, found, refused)

  -- On an entry that it finds, in a store whose lock is good, `remove` answers with the count of the
  -- handles while one lives, or else with the attempt that runs, and the store stays as it was.
  pub remove_refused :
      (strong_count : ℕ → ℕ) (id : AssetId) (w : World V E W) (entry : Entry V E) (e : AssetError)
      → w.poisoned ≡ false
      → find_entry w id ≡ ok entry
      → refusal (strong_count entry.token.addr) entry.phase ≡ some e
      → remove strong_count id w ≡ (err e, w)
  remove_refused strong_count id w entry e sound found must =
      refused_remove strong_count id w entry e sound found (
        removable-refusal strong_count entry entry.phase refl
        ∙ ap (λ o. elim o [ none ↦ ok entry | some x ↦ err x ]) must)

  removed-stale :
      (next : Option ℕ) (id : AssetId) (entry : Entry V E) (total : ℕ) (w : World V E W)
      → find_entry w id ≡ ok entry
      → find_entry (recycle_with next id (set_ready_bytes total (vacate_with next id w))) id
        ≡ err (stale id)
  unfolding find_entry set_ready_bytes
  removed-stale none id entry total w found =
      let (own, at) = find_entry-ok w id entry found in
      rw
        (
          own,
          ==_refl w.id,
          get_elem?-set_self w.slots id.slot (record { generation = id.generation; entry = none })
              (get_elem?-lt w.slots id.slot at),
        )
        (in_slot-vacant id id.generation)
  removed-stale (some g) id entry total w found =
      let (own, at) = find_entry-ok w id entry found in
      rw
        (
          own,
          ==_refl w.id,
          get_elem?-set_self w.slots id.slot (record { generation = g; entry = none })
              (get_elem?-lt w.slots id.slot at),
        )
        (in_slot-vacant id g)

  remove-ok :
      (strong_count : ℕ → ℕ) (id : AssetId) (w : World V E W) (entry : Entry V E) (total : ℕ)
      → w.poisoned ≡ false
      → find_entry w id ≡ ok entry
      → removable strong_count entry ≡ ok entry
      → checked_sub w.ready_bytes (previous_bytes (retained entry.phase)) ≡ some total
      → remove strong_count id w ≡ (
        ok (record {
          id = id;
          removed_generation = Option.map (λ r. r.generation) (retained entry.phase);
          removed_bytes = previous_bytes (retained entry.phase);
        }),
        recycle id (set_ready_bytes total (vacate id w)),
      )
  unfolding remove remove_own lock entry_mut vacate ◌>>=◌
  remove-ok strong_count id w entry total sound found free sum =
      let own = (find_entry-ok w id entry found).0 in ground (arith, own, found, free, sum)

  recycled-bytes :
      (next : Option ℕ) (id : AssetId) (total : ℕ) (w : World V E W)
      → (recycle_with next id (set_ready_bytes total w)).ready_bytes ≡ total
  unfolding set_ready_bytes
  recycled-bytes none id total w = refl
  recycled-bytes (some g) id total w = refl

  recycle-bytes :
      (id : AssetId) (total : ℕ) (w : World V E W)
      → (recycle id (set_ready_bytes total w)).ready_bytes ≡ total
  unfolding recycle
  recycle-bytes id total w = recycled-bytes (next_generation id.generation) id total w

  -- In a valid store whose lock is good, an entry found without handles and without an attempt is removed: the
  -- report names its retained value, whose bytes leave the total, and the identity is then stale.
  pub remove_unused :
      (strong_count : ℕ → ℕ) (id : AssetId) (w : World V E W) (entry : Entry V E)
      → IsValid w
      → w.poisoned ≡ false
      → find_entry w id ≡ ok entry
      → refusal (strong_count entry.token.addr) entry.phase ≡ none
      → let r = remove strong_count id w in
        let bytes = previous_bytes (retained entry.phase) in
        (r.0
          ≡ ok (record {
            id = id;
            removed_generation = Option.map (λ v. v.generation) (retained entry.phase);
            removed_bytes = bytes;
          }))
        × (r.1.ready_bytes + bytes ≡ w.ready_bytes)
        × (find_entry r.1 id ≡ err (stale id))
  remove_unused strong_count id w entry valid sound found may =
      let free =
        removable-refusal strong_count entry entry.phase refl
        ∙ ap (λ o. elim o [ none ↦ ok entry | some x ↦ err x ]) may in
      elim (checked_sub-cases w.ready_bytes (previous_bytes (retained entry.phase))) [
        | inl over ↦
            absurd
              (omega (arith, over.1, bytes-le id entry w (found-Stands id entry w valid found)))
        | inr (e, sum) ↦
            rw
              (remove-ok strong_count id w entry
                (w.ready_bytes - previous_bytes (retained entry.phase)) sound found free e)
              (
                refl,
                ap (λ n. n + previous_bytes (retained entry.phase))
                      (recycle-bytes id (w.ready_bytes - previous_bytes (retained entry.phase))
                        (vacate id w))
                    ∙ omega (arith, sum),
                unfold recycle vacate in
                    removed-stale (next_generation id.generation) id entry _ w found,
              )
      ]
