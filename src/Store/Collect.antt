-- ===== src/Store/Collect.antt =====
-- crates/assets/src/runtime.rs, lines 806 to 907: `collect` and `cache_stats`. `strong_count` gives
-- the owners of each token at the time of the call.
use Prim.Native.Nat.{compare, Ordering}
use Prim.Native.Nat.Ordering.{gt}
use fluxel_bases.Prelude.{
  ℕ, Bool, true, false, ◌&&◌, Option, none, some, List, [], ◌∷◌, checked_sub, total, leb, ◌==◌,
  if◌then◌else◌,
}
use fluxel_bases.Error.{ok, resident_bytes_overflow}
use fluxel_bases.Exec.{Exec, pure, or_raise, gets, modify, ◌>>=◌, ◌>>◌}
use fluxel_bases.Identity.{AssetId, cmp_id, then_cmp}
use fluxel_bases.Budget.{CacheBudget, EvictedAsset, CollectReport, CacheStats}
use fluxel_bases.World.{World, Entry, Slot, Phase, ReadyValue}
use fluxel_bases.Store.{lock, entry_mut, write_entry, retained}
use fluxel_bases.Store.Finish.{set_ready_bytes}

-- The order of `(u64, AssetId)`, and the sort by it.
abbrev pub Candidate : Type 0
Candidate = ℕ × AssetId

unfoldable pub cmp_candidate : Candidate → Candidate → Ordering
unfolding cmp_id
cmp_candidate a b = then_cmp (compare a.0 b.0) (cmp_id a.1 b.1)

unfoldable pub insert_sorted : Candidate → List Candidate → List Candidate
unfolding cmp_candidate
insert_sorted c [] = c ∷ []
insert_sorted c (d ∷ ds) = elim (cmp_candidate c d) [ gt ↦ d ∷ insert_sorted c ds | _ ↦ c ∷ d ∷ ds ]

unfoldable pub sort_candidates : List Candidate → List Candidate
unfolding insert_sorted
sort_candidates [] = []
sort_candidates (c ∷ cs) = insert_sorted c (sort_candidates cs)

abbrev pub is_some {ℓ} : {A : Type ℓ} → Option A → Bool
is_some none = false
is_some (some _) = true

module _ {V E : Type 0} where
  unfoldable pub eligible : Phase V E → Bool
  eligible (Phase.ready _) = true
  eligible (Phase.failed _ _ (some _)) = true
  eligible _ = false

  abbrev pub candidate_of : (ℕ → ℕ) → Option (Entry V E) → List Candidate → List Candidate
  candidate_of strong_count none cs = cs
  candidate_of strong_count (some entry) cs =
      if strong_count entry.token.addr == 1 && eligible entry.phase
      then (entry.last_touch, entry.token.id) ∷ cs
      else cs

  unfoldable pub candidates : (ℕ → ℕ) → List (Slot V E) → List Candidate
  unfolding eligible
  candidates strong_count [] = []
  candidates strong_count (slot ∷ slots) =
      candidate_of strong_count slot.entry (candidates strong_count slots)

  -- The value that an eviction takes, and the phase that it leaves.
  unfoldable pub evict_phase : Phase V E → Option (ReadyValue V × Phase V E)
  evict_phase (Phase.ready r) = some (r, Phase.missing)
  evict_phase (Phase.failed attempt error (some r)) = some (r, Phase.failed attempt error none)
  evict_phase _ = none

  abbrev pub entry_retains : Option (Entry V E) → ℕ
  entry_retains none = 0
  entry_retains (some entry) = if is_some (retained entry.phase) then 1 else 0

module _ {V E W : Type 0} where
  -- One turn of the loop of `collect` past its test; `rest` is the remaining turns.
  unfoldable pub evict_entry :
      AssetId
      → Entry V E
      → Option (ReadyValue V × Phase V E)
      → Exec (World V E W) (List EvictedAsset)
      → Exec (World V E W) (List EvictedAsset)
  unfolding write_entry checked_sub set_ready_bytes ◌>>=◌
  evict_entry id entry none rest = rest
  evict_entry id entry (some (r, phase)) rest = do
    write_entry id (record entry { phase = phase })
    current ← gets (λ w. w.ready_bytes)
    ready_bytes ← or_raise (checked_sub current r.bytes) resident_bytes_overflow
    modify (set_ready_bytes ready_bytes)
    evicted ← rest
    pure (record { id = id; generation = r.generation; bytes = r.bytes } ∷ evicted)

  unfoldable pub evict_turn :
      AssetId → Exec (World V E W) (List EvictedAsset) → Exec (World V E W) (List EvictedAsset)
  unfolding entry_mut evict_phase evict_entry ◌>>=◌
  evict_turn id rest = do entry ← entry_mut id; evict_entry id entry (evict_phase entry.phase) rest

  unfoldable pub evict_until : CacheBudget → List Candidate → Exec (World V E W) (List EvictedAsset)
  unfolding evict_turn
  evict_until budget [] w = (ok [], w)
  evict_until budget ((_, id) ∷ cs) w =
      if leb w.ready_bytes budget.max_resident_bytes
      then (ok [], w)
      else evict_turn id (evict_until budget cs) w

  unfoldable pub collect : (ℕ → ℕ) → CacheBudget → Exec (World V E W) CollectReport
  unfolding lock candidates sort_candidates evict_until ◌>>=◌
  collect strong_count budget = do
    lock
    before ← gets (λ w. w.ready_bytes)
    order ← gets (λ w. sort_candidates (candidates strong_count w.slots))
    evicted ← evict_until budget order
    after ← gets (λ w. w.ready_bytes)
    pure (record { before = before; after = after; evicted = evicted })

  unfoldable pub cache_stats : Exec (World V E W) CacheStats
  unfolding lock total ◌>>=◌
  cache_stats = do
    lock
    entries ← gets (λ w. total (λ slot. entry_retains slot.entry) w.slots)
    bytes ← gets (λ w. w.ready_bytes)
    pure (record { ready_entries = entries; resident_bytes = bytes })
