-- ===== src/Store/Publish.antt =====
-- What a commit shows to the next call and to the waiters (crates/assets/src/runtime.rs, lines 444 to
-- 468 and 589 to 655).
use fluxel_bases.Prelude.{
  ℕ, ◌+◌, ◌≤◌, ◌<◌, checked_sub, ◌≡◌, refl, ap, sym, subst, Option, none, some, arith, u64_max,
  checked_add, ==_refl,
}
use fluxel_bases.Error.{Result, ok}
use fluxel_bases.Exec.{◌>>=◌}
use fluxel_bases.Identity.{AssetHandle, handle_id}
use fluxel_bases.Production.{Acquire, ProductionOutcome}
use fluxel_bases.State.{AssetSnapshot}
use fluxel_bases.World.{World, Entry, Phase, ReadyValue}
use fluxel_bases.Cell.{complete}
use fluxel_bases.Store.{lock, next_touch, find_entry, entry_mut, put_entry, snapshot, complete_at}
use fluxel_bases.Store.Begin.{acquire, acquire_phase}
use fluxel_bases.Store.Finish.{claim, commit, replaced_total, previous_bytes, set_ready_bytes}
use fluxel_bases.Store.Steps.{bump}
use fluxel_bases.Store.Flight.{Reaches, touched, touched_world, after_touch, find_entry-put_entry}

module _ {V E : Type 0} where
  abbrev pub committed : ℕ → ℕ → V → Entry V E → Entry V E
  committed touch bytes value entry = record entry {
    content_generation = entry.content_generation + 1;
    last_touch = touch;
    phase =
        Phase.ready
          (record { generation = entry.content_generation + 1; value = value; bytes = bytes });
  }

  abbrev pub published : Entry V E → V → ℕ → AssetSnapshot V
  published entry value bytes = record {
    handle = record { token = entry.token };
    generation = entry.content_generation + 1;
    value = value;
    bytes = bytes;
  }

  pub claim-active :
      (attempt cell : ℕ) (phase : Phase V E) (previous : Option (ReadyValue V))
      → phase ≡ Phase.producing attempt previous cell
      → claim attempt cell phase ≡ ok previous
  unfolding claim
  claim-active attempt cell phase previous e = rw (e, ==_refl attempt, ==_refl cell) refl

module _ {V : Type 0} where
  replaced_total-exchanged :
      (current total bytes : ℕ) (previous : Option (ReadyValue V))
      → previous_bytes previous ≤ current
      → total + previous_bytes previous ≡ current + bytes
      → total ≤ u64_max
      → replaced_total current previous bytes ≡ some total
  unfolding replaced_total checked_sub checked_add
  replaced_total-exchanged current total bytes previous covered exchanged bounded =
      ground (arith, covered, exchanged, bounded)

module _ {V E W : Type 0} where
  -- A permit that its commit will find good: its attempt runs, the generation has room, and the
  -- total less the bytes of the value that the attempt kept has room for the new ones.
  pub record IsCommittable (w : World V E W) (h : AssetHandle) (entry : Entry V E)
      (attempt cell bytes total : ℕ) : Type 0 where
    pub reaches : Reaches w h entry
    pub previous : Option (ReadyValue V)
    pub runs : entry.phase ≡ Phase.producing attempt previous cell
    pub room : entry.content_generation < u64_max
    pub covered : previous_bytes previous ≤ w.ready_bytes
    pub exchanged : total + previous_bytes previous ≡ w.ready_bytes + bytes
    pub bounded : total ≤ u64_max

  abbrev pub committed_world : World V E W → AssetHandle → Entry V E → ℕ → V → ℕ → ℕ → World V E W
  committed_world w h entry cell value bytes total =
      complete_at cell (ok (ProductionOutcome.ready (published entry value bytes))) (
        set_ready_bytes total
          (put_entry (handle_id h) (committed (w.touch + 1) bytes value entry) (bump w)))

  pub commit-ok :
      (w : World V E W) (h : AssetHandle) (entry : Entry V E) (attempt cell : ℕ) (value : V)
      (bytes total : ℕ)
      → IsCommittable w h entry attempt cell bytes total
      → commit (handle_id h) attempt cell value bytes w
        ≡ (ok (published entry value bytes), committed_world w h entry cell value bytes total)
  unfolding commit lock next_touch entry_mut checked_add snapshot ◌>>=◌
  commit-ok w h entry attempt cell value bytes total c =
      let claimed = claim-active attempt cell entry.phase c.previous c.runs in
      let sum =
        replaced_total-exchanged w.ready_bytes total bytes c.previous c.covered c.exchanged
          c.bounded in
      ground (arith, c.reaches.sound, c.reaches.more, c.reaches.found, claimed, c.room, sum)

  complete_at-bytes :
      (cell : ℕ) (r : Result (ProductionOutcome V E)) (total : ℕ) (w : World V E W)
      → (complete_at cell r (set_ready_bytes total w)).ready_bytes ≡ total
  unfolding complete_at set_ready_bytes
  complete_at-bytes cell r total w = refl

  pub complete_at-outcome :
      (cell : ℕ) (r : Result (ProductionOutcome V E)) (w : World V E W)
      → (w.cells cell).outcome ≡ none
      → ((complete_at cell r w).cells cell).outcome ≡ some r
  unfolding complete_at complete
  complete_at-outcome cell r w e = ground arith

  pub committed-Reaches :
      (w : World V E W) (h : AssetHandle) (entry : Entry V E) (cell : ℕ) (value : V)
      (bytes total : ℕ)
      → Reaches w h entry
      → w.touch + 1 < u64_max
      → Reaches
          (committed_world w h entry cell value bytes total)
          h
          (committed (w.touch + 1) bytes value entry)
  unfolding complete_at set_ready_bytes put_entry find_entry
  committed-Reaches w h entry cell value bytes total r more = record {
    sound = r.sound;
    more = more;
    found = find_entry-put_entry (bump w) (handle_id h) entry _ r.found;
    same = r.same;
  }

  pub acquire-ready :
      (w : World V E W) (h : AssetHandle) (entry : Entry V E) (r : ReadyValue V)
      → entry.phase ≡ Phase.ready r
      → Reaches w h entry
      → (acquire h w).0 ≡ ok (Acquire.ready (snapshot entry r))
  unfolding acquire acquire_phase snapshot
  acquire-ready w h entry r e reaches =
      ap (λ x. x.0)
        (after_touch w h entry _ (ok (Acquire.ready (snapshot entry r)), touched_world w h entry)
          reaches
          (subst
            (λ phase.
              acquire_phase (handle_id h) (touched w entry) phase (touched_world w h entry)
              ≡ (ok (Acquire.ready (snapshot entry r)), touched_world w h entry))
            (sym e) refl))

  -- A commit by the permit of the running attempt, where the lock, the clock, the generation and the
  -- total have room and the attempt has no result yet, publishes the value under the next content
  -- generation and charges the new total; `acquire` then answers with that same value, which is also
  -- the result in the attempt's cell.
  pub commit-acquire :
      (w : World V E W) (h : AssetHandle) (entry : Entry V E) (attempt cell : ℕ) (value : V)
      (bytes total : ℕ)
      → IsCommittable w h entry attempt cell bytes total
      → w.touch + 1 < u64_max
      → (w.cells cell).outcome ≡ none
      → let r = commit (handle_id h) attempt cell value bytes w in
        (r.0 ≡ ok (published entry value bytes))
        × (r.1.ready_bytes ≡ total)
        × ((acquire h r.1).0 ≡ ok (Acquire.ready (published entry value bytes)))
        × ((r.1.cells cell).outcome
            ≡ some (ok (ProductionOutcome.ready (published entry value bytes))))
  unfolding snapshot set_ready_bytes put_entry
  commit-acquire w h entry attempt cell value bytes total c more fresh =
      rw (commit-ok w h entry attempt cell value bytes total c) (
        refl,
        complete_at-bytes cell _ total
            (put_entry (handle_id h) (committed (w.touch + 1) bytes value entry) (bump w)),
        acquire-ready (committed_world w h entry cell value bytes total) h
            (committed (w.touch + 1) bytes value entry) _ refl
            (committed-Reaches w h entry cell value bytes total c.reaches more),
        complete_at-outcome cell _ _ fresh,
      )
