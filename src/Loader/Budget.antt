-- ===== src/Loader/Budget.antt =====
-- crates/assets/examples/file_loader/mod.rs, lines 489 to 600: the cap on temporary bytes and tasks. The
-- fields behind the lock stand beside its poison flag. A method that mutates a reservation returns it
-- with the budget; `none` in the place of a result is a panic of an `expect`, and one under the lock
-- poisons it.
pub mod Leases
pub mod Limits
use fluxel_bases.Prelude.{
  ℕ, Bool, true, false, Option, none, some, List, [], ◌∷◌, u64_max, checked_add, checked_sub, ltb,
  get_elem?, set, remove_at, if◌then◌else◌,
}

pub record InFlightBudget : Type 0 where
  pub maximum_bytes : ℕ
  pub maximum_tasks : ℕ
  pub poisoned : Bool
  pub reserved_bytes : ℕ
  pub tasks : ℕ

pub record Reservation : Type 0 where
  pub bytes : ℕ

unfoldable pub with_limits : ℕ → ℕ → InFlightBudget
with_limits maximum_bytes maximum_tasks = record {
  maximum_bytes = maximum_bytes;
  maximum_tasks = maximum_tasks;
  poisoned = false;
  reserved_bytes = 0;
  tasks = 0;
}

-- `Reservation::increase`; its argument goes up only with the total.
unfoldable pub increase :
    ℕ → Reservation → InFlightBudget → Option (Bool × Reservation) × InFlightBudget
unfolding checked_add
increase bytes r b =
    if b.poisoned then (some (false, r), b) else elim (checked_add u64_max b.reserved_bytes bytes) [
      | none ↦ (some (false, r), b)
      | some next ↦
          if ltb b.maximum_bytes next
          then (some (false, r), b)
          else elim (checked_add u64_max r.bytes bytes) [
            | none ↦ (none, record b { reserved_bytes = next; poisoned = true })
            | some total ↦
                (some (true, record { bytes = total }), record b { reserved_bytes = next })
          ]
    ]

-- `Drop for Reservation`
unfoldable pub drop_reservation : Reservation → InFlightBudget → Option (Unit {0}) × InFlightBudget
unfolding checked_sub
drop_reservation r b =
    if b.poisoned then (none, b) else elim (checked_sub b.reserved_bytes r.bytes) [
      | none ↦ (none, record b { poisoned = true })
      | some reserved ↦ elim (checked_sub b.tasks 1) [
        | none ↦ (none, record b { reserved_bytes = reserved; poisoned = true })
        | some tasks ↦ (some tt, record b { reserved_bytes = reserved; tasks = tasks })
      ]
    ]

-- A reservation that could not take its bytes is dropped as `reserve` returns.
unfoldable pub reserved_or_dropped :
    Option (Bool × Reservation) × InFlightBudget → Option (Option Reservation) × InFlightBudget
unfolding drop_reservation
reserved_or_dropped (none, b) = (none, b)
reserved_or_dropped (some (true, r), b) = (some (some r), b)
reserved_or_dropped (some (false, r), b) =
    let (dropped, b') = drop_reservation r b in
    elim dropped [ none ↦ (none, b') | some _ ↦ (some none, b') ]

-- `usize::MAX` depends on the target.
module _ (usize_max : ℕ) where
  unfoldable pub new : ℕ → InFlightBudget
  unfolding with_limits
  new maximum = with_limits maximum usize_max

  unfoldable pub reserve_slot : InFlightBudget → Option Reservation × InFlightBudget
  unfolding checked_add
  reserve_slot b = if b.poisoned then (none, b) else elim (checked_add usize_max b.tasks 1) [
    | none ↦ (none, b)
    | some next ↦
        if ltb b.maximum_tasks next
        then (none, b)
        else (some (record { bytes = 0 }), record b { tasks = next })
  ]

  unfoldable pub reserve : ℕ → InFlightBudget → Option (Option Reservation) × InFlightBudget
  unfolding reserve_slot increase reserved_or_dropped
  reserve bytes b =
      let (slot, b') = reserve_slot b in
      elim slot [ none ↦ (some none, b') | some r ↦ reserved_or_dropped (increase bytes r b') ]

-- `none` is the panic of an `expect` on a poisoned lock.
abbrev pub reserved : InFlightBudget → Option ℕ
reserved b = if b.poisoned then none else some b.reserved_bytes

abbrev pub in_flight : InFlightBudget → Option ℕ
in_flight b = if b.poisoned then none else some b.tasks
