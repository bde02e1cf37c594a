-- ===== src/Loader/Budget/Limits.antt =====
-- The budget counts exactly the reservations that are alive, and stays within its limits
-- (crates/assets/examples/file_loader/mod.rs, lines 505 to 600).
use fluxel_bases.Prelude.{
  ℕ, ◌+◌, ◌≤◌, ◌≡◌, refl, Bool, true, false, Option, none, some, List, [], ◌∷◌, arith, length,
  get_elem?, set, remove_at, total, length-set, total-set, length-remove_at, total-remove_at,
  weight-le-total, checked_add, checked_sub, u64_max, leb, ◌&&◌, if◌then◌else◌,
}
use fluxel_bases.Loader.Budget.{
  InFlightBudget, Reservation, with_limits, increase, drop_reservation, reserved_or_dropped,
  reserve_slot, reserve,
}
use fluxel_bases.Loader.Budget.Leases.{
  Leases, LeaseCall, reserves_slot, reserves, increases, drops, add_lease, add_reserved, set_lease,
  increase_at, drop_at, lease_step, lease_run,
}

abbrev pub live_bytes : List Reservation → ℕ
live_bytes = total (λ r. r.bytes)

-- The budget has these limits and keeps within them, it has not panicked, and its counters are those
-- of the reservations that are alive.
pub record IsHonest (maximum_bytes maximum_tasks : ℕ) (s : Leases) : Type 0 where
  pub sound : s.budget.poisoned ≡ false
  pub same_bytes : s.budget.maximum_bytes ≡ maximum_bytes
  pub same_tasks : s.budget.maximum_tasks ≡ maximum_tasks
  pub counted_bytes : s.budget.reserved_bytes ≡ live_bytes s.live
  pub counted_tasks : s.budget.tasks ≡ length s.live
  pub bytes_within : s.budget.reserved_bytes ≤ maximum_bytes
  pub tasks_within : s.budget.tasks ≤ maximum_tasks

module _ (usize_max : ℕ) where
  -- `reserve` on a budget that is not poisoned, whose limits are in the range of their types, does not
  -- panic: it takes the task and the bytes where both limits allow it, and otherwise leaves the budget
  -- as it was.
  pub reserve_exact :
      (bytes : ℕ) (b : InFlightBudget)
      → b.poisoned ≡ false
      → b.maximum_bytes ≤ u64_max
      → b.maximum_tasks ≤ usize_max
      → reserve usize_max bytes b ≡ (
          if leb (b.tasks + 1) b.maximum_tasks && leb (b.reserved_bytes + bytes) b.maximum_bytes
          then (
            some (some (record { bytes = bytes })),
            record b { tasks = b.tasks + 1; reserved_bytes = b.reserved_bytes + bytes },
          )
          else (some none, b))
  unfolding reserve reserve_slot increase reserved_or_dropped drop_reservation checked_add
      checked_sub
  reserve_exact bytes b sound bytes_fit tasks_fit = ground arith

module _ (usize_max maximum_bytes maximum_tasks : ℕ) where
  abbrev Honest : Leases → Type 0
  Honest = IsHonest maximum_bytes maximum_tasks

  reserve_slot-IsHonest :
      (b : InFlightBudget) (live : List Reservation)
      → Honest (record { budget = b; live = live })
      → Honest (add_lease (reserve_slot usize_max b).0 (reserve_slot usize_max b).1 live)
  unfolding reserve_slot total
  reserve_slot-IsHonest b live h = ground arith

  increase-IsHonest :
      (i bytes : ℕ) (r : Reservation) (b : InFlightBudget) (live : List Reservation)
      → get_elem? live i ≡ some r
      → Honest (record { budget = b; live = live })
      → Honest (set_lease i (increase bytes r b).0 (increase bytes r b).1 live)
  unfolding increase
  increase-IsHonest i bytes r b live at h =
      let le = weight-le-total (λ r. r.bytes) live i r at in
      let r' : Reservation = record { bytes = r.bytes + bytes } in
      ground (
        arith,
        le,
        total-set (λ r. r.bytes) live i r r' at,
        total-set (λ r. r.bytes) live i r r at,
        length-set live i r',
        length-set live i r,
      )

  drop_reservation-IsHonest :
      (i : ℕ) (r : Reservation) (b : InFlightBudget) (live : List Reservation)
      → get_elem? live i ≡ some r
      → Honest (record { budget = b; live = live })
      → Honest (record { budget = (drop_reservation r b).1; live = remove_at live i })
  unfolding drop_reservation
  drop_reservation-IsHonest i r b live at h =
      ground (arith, total-remove_at (λ r. r.bytes) live i r at, length-remove_at live i r at)

  increase_panic :
      (bytes : ℕ) (r : Reservation) (b : InFlightBudget)
      → (increase bytes r b).0 ≡ none
      → (increase bytes r b).1.poisoned ≡ true
  unfolding increase
  increase_panic bytes r b e = ground arith

  -- The end of `reserve`, on the outcome of `increase` for the newest reservation.
  reserved_or_dropped-IsHonest :
      (out : Option (Bool × Reservation)) (b : InFlightBudget) (r : Reservation)
      (live : List Reservation)
      → (out ≡ none → b.poisoned ≡ true)
      → Honest (set_lease 0 out b (r ∷ live))
      → let end = reserved_or_dropped (out, b) in Honest (add_reserved end.0 end.1 live)
  unfolding reserved_or_dropped get_elem? remove_at set
  reserved_or_dropped-IsHonest none b r live panics h = absurd (cc (panics refl, h.sound))
  reserved_or_dropped-IsHonest (some (true, r')) b r live panics h = h
  reserved_or_dropped-IsHonest (some (false, r')) b r live panics h =
      settled (drop_reservation r' b).0 (drop_reservation-IsHonest 0 r' b (r' ∷ live) refl h)
    where
      settled :
          (dropped : Option (Unit {0}))
          → Honest (record { budget = (drop_reservation r' b).1; live = live })
          → let b' = (drop_reservation r' b).1 in
            let end : Option (Option Reservation) × InFlightBudget = elim dropped [
              | none ↦ (none, b')
              | some _ ↦ (some none, b')
            ] in
            Honest (add_reserved end.0 end.1 live)
      settled none k = k
      settled (some _) k = k

  reserve-IsHonest :
      (bytes : ℕ) (b : InFlightBudget) (live : List Reservation)
      → Honest (record { budget = b; live = live })
      → Honest (add_reserved (reserve usize_max bytes b).0 (reserve usize_max bytes b).1 live)
  unfolding reserve get_elem?
  reserve-IsHonest bytes b live h =
      taken (reserve_slot usize_max b).0 (reserve_slot usize_max b).1
        (reserve_slot-IsHonest b live h)
    where
      taken :
          (slot : Option Reservation) (b' : InFlightBudget)
          → Honest (add_lease slot b' live)
          → let end : Option (Option Reservation) × InFlightBudget = elim slot [
            | none ↦ (some none, b')
            | some r ↦ reserved_or_dropped (increase bytes r b')
          ] in
            Honest (add_reserved end.0 end.1 live)
      taken none b' k = k
      taken (some r) b' k =
          reserved_or_dropped-IsHonest (increase bytes r b').0 (increase bytes r b').1 r live
            (increase_panic bytes r b') (increase-IsHonest 0 bytes r b' (r ∷ live) refl k)

  lease_step-IsHonest : (c : LeaseCall) (s : Leases) → Honest s → Honest (lease_step usize_max c s)
  unfolding lease_step
  lease_step-IsHonest reserves_slot s h = reserve_slot-IsHonest s.budget s.live h
  lease_step-IsHonest (reserves bytes) s h = reserve-IsHonest bytes s.budget s.live h
  lease_step-IsHonest (increases i bytes) s h = grown (get_elem? s.live i) refl
    where
      grown : (o : Option Reservation) → get_elem? s.live i ≡ o → Honest (increase_at i bytes o s)
      grown none e = h
      grown (some r) e = increase-IsHonest i bytes r s.budget s.live e h
  lease_step-IsHonest (drops i) s h = dropped (get_elem? s.live i) refl
    where
      dropped : (o : Option Reservation) → get_elem? s.live i ≡ o → Honest (drop_at i o s)
      dropped none e = h
      dropped (some r) e = drop_reservation-IsHonest i r s.budget s.live e h

  run_from-IsHonest :
      (cs : List LeaseCall) (s : Leases) → Honest s → Honest (lease_run usize_max cs s)
  unfolding lease_run
  run_from-IsHonest [] s h = h
  run_from-IsHonest (c ∷ cs) s h =
      run_from-IsHonest cs (lease_step usize_max c s) (lease_step-IsHonest c s h)

  -- After any sequence of calls on a new budget no call has panicked, the counters are the sum of the
  -- bytes and the number of the reservations that are alive, and both are within the limits.
  pub lease_run-IsHonest :
      (cs : List LeaseCall)
      → IsHonest maximum_bytes maximum_tasks (
          lease_run usize_max cs
            (record { budget = with_limits maximum_bytes maximum_tasks; live = [] }))
  unfolding with_limits total
  lease_run-IsHonest cs = run_from-IsHonest cs _ (ground arith)
