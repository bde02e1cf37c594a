-- ===== src/Store/Keeps/Shared.antt =====
-- The steps that begin an attempt keep the invariant (crates/assets/src/runtime.rs, lines 336 to
-- 410 and 490 to 500).
use native.Mathlib.Nat.{le_refl}
use fluxel_bases.Prelude.{
  ℕ, ◌+◌, ◌==◌, ◌<◌, ◌≡◌, refl, inl, inr, Option, some, u64_max, arith, checked_add,
  checked_add-some, Bool-cases, set-set, get_elem?-set_self, get_elem?-lt,
}
use fluxel_bases.Error.{Result, ok}
use fluxel_bases.Exec.{Exec, ◌>>=◌}
use fluxel_bases.Exec.Bind.{or_raise_rule}
use fluxel_bases.Identity.{AssetId, AssetHandle, handle_id}
use fluxel_bases.Production.{ProducerPermit}
use fluxel_bases.World.{World, Entry, Phase, ReadyValue}
use fluxel_bases.Store.{find_entry, put_entry, make_attempt, waiter, retained}
use fluxel_bases.Store.Begin.{touch_entry, restart}
use fluxel_bases.Store.Steps.{At, bump, find_entry-ok, touch_entry_rule}
use fluxel_bases.Store.Valid.{IsValid, EntryIsValid, entry_bytes}
use fluxel_bases.Store.Writes.{write-IsValid, later_slot, At-IsValid}

module _ {V E W : Type 0} where
  pub bump-IsValid : (w : World V E W) → w.touch < u64_max → IsValid w → IsValid (bump w)
  bump-IsValid w lt v = record {
    slots_valid = λ i slot h. later_slot slot (omega arith) (le_refl _) (v.slots_valid i slot h);
    accounted = v.accounted;
    bytes_fit = v.bytes_fit;
    touch_fits = omega arith;
    indices_fit = v.indices_fit;
    free_ascending = v.free_ascending;
    free_vacant = v.free_vacant;
  }

  -- A valid world in which the entry stands where the identity says.
  pub record Stands (w : World V E W) (id : AssetId) (entry : Entry V E) : Type 0 where
    pub valid : IsValid w
    pub at : At w id.slot id.generation entry

  pub entry_valid :
      (w : World V E W) (id : AssetId) (entry : Entry V E)
      → Stands w id entry
      → EntryIsValid w.id id.slot id.generation w.touch w.next entry
  entry_valid w id entry t = At-IsValid id.slot id.generation entry t.valid t.at

  -- A write at the place of the identity, of an entry that retains the same bytes.
  pub put-Stands :
      (id : AssetId) (old entry : Entry V E) (w : World V E W)
      → Stands w id old
      → EntryIsValid w.id id.slot id.generation w.touch w.next entry
      → entry_bytes (some entry) ≡ entry_bytes (some old)
      → Stands (put_entry id entry w) id entry
  unfolding put_entry
  put-Stands id old entry w t valid_entry e = record {
    valid =
        write-IsValid old entry t.valid t.at valid_entry (le_refl _) t.valid.touch_fits (le_refl _)
          (omega arith) t.valid.bytes_fit;
    at = get_elem?-set_self w.slots id.slot _ (get_elem?-lt w.slots id.slot t.at);
  }

  pub touched-Stands :
      (h : AssetHandle) (entry : Entry V E) (w : World V E W)
      → IsValid w
      → w.touch < u64_max
      → find_entry w (handle_id h) ≡ ok entry
      → let touched : Entry V E = record entry { last_touch = w.touch + 1 } in
        Stands (put_entry (handle_id h) touched (bump w)) (handle_id h) touched
  touched-Stands h entry w v lt found =
      let before : Stands (bump w) (handle_id h) entry = record {
        valid = bump-IsValid w lt v;
        at = (find_entry-ok w (handle_id h) entry found).1;
      } in
      let old = entry_valid (bump w) (handle_id h) entry before in
      put-Stands (handle_id h) entry (record entry { last_touch = w.touch + 1 }) (bump w) before
        (record {
          own_store = old.own_store;
          own_slot = old.own_slot;
          own_generation = old.own_generation;
          allocated = old.allocated;
          touched = le_refl _;
          content_fits = old.content_fits;
          attempts_fit = old.attempts_fit;
          current = old.current;
          latest = old.latest;
        })
        refl

  -- An operation on a handle keeps the invariant if what follows `touch_entry` does.
  pub touch_entry-IsValid :
      {A : Type 0} (h : AssetHandle) (k : Entry V E → Exec (World V E W) A) (w : World V E W)
      → ((entry : Entry V E) (u : World V E W)
          → Stands u (handle_id h) entry
          → IsValid (k entry u).1)
      → IsValid w
      → IsValid ((touch_entry h >>= k) w).1
  touch_entry-IsValid {A} h k w keep v =
      touch_entry_rule (λ (r : Result A × World V E W). IsValid r.1) h k w (λ _. v)
        (λ _ lt. bump-IsValid w lt v)
        λ entry lt found _. keep _ _ (touched-Stands h entry w v lt found)

  pub waiter-IsValid :
      (id : AssetId) (attempt cell : ℕ) (w : World V E W)
      → IsValid w
      → IsValid (waiter id attempt cell w).1
  unfolding waiter
  waiter-IsValid id attempt cell w v = ground arith

  pub make_attempt-IsValid :
      (id : AssetId) (entry : Entry V E) (previous : Option (ReadyValue V)) (w : World V E W)
      → Stands w id entry
      → previous ≡ retained entry.phase
      → IsValid (make_attempt id entry previous w).1
  unfolding make_attempt
  make_attempt-IsValid id entry previous w t e =
      or_raise_rule (λ (r : Result ProducerPermit × World V E W). IsValid r.1)
        (checked_add u64_max entry.attempt_generation 1) _ _ w (λ _. t.valid)
        λ attempt some_attempt.
          let old = entry_valid w id entry t in
          let (counted, fits) =
            checked_add-some u64_max entry.attempt_generation 1 attempt some_attempt in
          write-IsValid entry _ t.valid t.at
            (record {
              own_store = old.own_store;
              own_slot = old.own_slot;
              own_generation = old.own_generation;
              allocated = omega arith;
              touched = old.touched;
              content_fits = old.content_fits;
              attempts_fit = fits;
              current = rw e old.current;
              latest = (refl, omega arith, omega arith);
            })
            (le_refl _) t.valid.touch_fits (omega arith) (rw e refl) t.valid.bytes_fit

  -- The phase that `restart` takes away leaves no trace.
  pub restart-make_attempt :
      (id : AssetId) (entry : Entry V E) (previous : Option (ReadyValue V)) (w : World V E W)
      → entry.attempt_generation < u64_max
      → restart id entry previous w ≡ make_attempt id entry previous w
  unfolding restart
  restart-make_attempt id entry previous w lt =
      let overwritten =
        set-set w.slots id.slot
          (record {
            generation = id.generation;
            entry = some (record entry { phase = Phase.missing });
          })
          (record {
            generation = id.generation;
            entry = some (record entry {
              attempt_generation = entry.attempt_generation + 1;
              phase = Phase.producing (entry.attempt_generation + 1) previous w.next;
            });
          }) in
      ground (arith, overwritten)

  pub restart-IsValid :
      (id : AssetId) (entry : Entry V E) (w : World V E W)
      → Stands w id entry
      → IsValid (restart id entry (retained entry.phase) w).1
  unfolding restart
  restart-IsValid id entry w t = elim (Bool-cases (entry.attempt_generation == u64_max)) [
    | inl last ↦ rw (last, restart) t.valid
    | inr more ↦
        rw
          (restart-make_attempt id entry (retained entry.phase) w
            (ground (arith, (entry_valid w id entry t).attempts_fit)))
          (make_attempt-IsValid id entry (retained entry.phase) w t refl)
  ]
