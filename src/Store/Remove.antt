-- ===== src/Store/Remove.antt =====
-- crates/assets/src/runtime.rs, lines 749 to 804: `remove`. `strong_count` gives the owners of each
-- token at the time of the call.
use mathlib.Core.Option
use Prim.Native.Nat.{compare}
use Prim.Native.Nat.Ordering.{lt, eq, gt}
use fluxel_bases.Prelude.{
  ℕ, ◌-◌, Option, none, some, List, [], ◌∷◌, u32_max, checked_add, checked_sub, set, ◌==◌,
  if◌then◌else◌,
}
use fluxel_bases.Error.{
  Result, ok, err, foreign_identity, live_users, production_in_progress, resident_bytes_overflow,
}
use fluxel_bases.Exec.{Exec, pure, or_raise, lift, gets, modify, ◌>>=◌, ◌>>◌}
use fluxel_bases.Identity.{AssetId}
use fluxel_bases.Budget.{RemoveReport}
use fluxel_bases.World.{World, Entry, Phase}
use fluxel_bases.Store.{lock, entry_mut, retained}
use fluxel_bases.Store.Finish.{previous_bytes, set_ready_bytes}

-- `BTreeSet::insert`
unfoldable pub insert_free : ℕ → List ℕ → List ℕ
insert_free i [] = i ∷ []
insert_free i (j ∷ js) = elim (compare i j) [
  | lt ↦ i ∷ j ∷ js
  | eq ↦ j ∷ js
  | gt ↦ j ∷ insert_free i js
]

abbrev pub next_generation : ℕ → Option ℕ
next_generation generation = checked_add u32_max generation 1

module _ {V E : Type 0} where
  abbrev pub idle : Entry V E → Phase V E → Result (Entry V E)
  idle entry (Phase.producing attempt _ _) = err (production_in_progress attempt)
  idle entry _ = ok entry

  -- The guards of `remove` on the entry that it found.
  unfoldable pub removable : (ℕ → ℕ) → Entry V E → Result (Entry V E)
  removable strong_count entry =
      let strong_users = strong_count entry.token.addr - 1 in
      if strong_users == 0 then idle entry entry.phase else err (live_users strong_users)

module _ {V E W : Type 0} where
  -- `slot.entry.take()`, and the next generation where there is one.
  abbrev pub vacate_with : Option ℕ → AssetId → World V E W → World V E W
  vacate_with next id w = record w {
    state = record w.state {
      slots =
          set w.slots id.slot
            (record { generation = Option.get_or next id.generation; entry = none });
    };
  }

  unfoldable pub vacate : AssetId → World V E W → World V E W
  unfolding checked_add set
  vacate id w = vacate_with (next_generation id.generation) id w

  -- A slot without a next generation is not used again.
  abbrev pub recycle_with : Option ℕ → AssetId → World V E W → World V E W
  recycle_with none id w = w
  recycle_with (some _) id w = record w {
    state = record w.state { free = insert_free id.slot w.free };
  }

  unfoldable pub recycle : AssetId → World V E W → World V E W
  unfolding checked_add insert_free
  recycle id w = recycle_with (next_generation id.generation) id w

  -- `remove` after its first test; its tests of the slot are those of `entry_mut`.
  unfoldable pub remove_own : (ℕ → ℕ) → AssetId → Exec (World V E W) RemoveReport
  unfolding lock entry_mut removable vacate checked_sub previous_bytes set_ready_bytes recycle ◌>>=◌
  remove_own strong_count id = do
    lock
    found ← entry_mut id
    entry ← lift (removable strong_count found)
    modify (vacate id)
    current ← gets (λ w. w.ready_bytes)
    let bytes = previous_bytes (retained entry.phase)
    ready_bytes ← or_raise (checked_sub current bytes) resident_bytes_overflow
    modify (set_ready_bytes ready_bytes)
    modify (recycle id)
    pure (record {
      id = id;
      removed_generation = Option.map (λ r. r.generation) (retained entry.phase);
      removed_bytes = bytes;
    })

  unfoldable pub remove : (ℕ → ℕ) → AssetId → Exec (World V E W) RemoveReport
  unfolding remove_own
  remove strong_count id w =
      if id.store == w.id then remove_own strong_count id w else (err foreign_identity, w)
