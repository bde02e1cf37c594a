-- ===== src/Loader/Budget/Leases.antt =====
-- The reservations that are alive beside their budget, and what its users can do to them, one call at a
-- time (crates/assets/examples/file_loader/mod.rs, lines 505 to 600).
use fluxel_bases.Prelude.{ℕ, Bool, Option, none, some, List, [], ◌∷◌, get_elem?, set, remove_at}
use fluxel_bases.Loader.Budget.{
  InFlightBudget, Reservation, increase, drop_reservation, reserve_slot, reserve,
}

pub record Leases : Type 0 where
  pub budget : InFlightBudget
  pub live : List Reservation

-- The calls name a reservation by its place among those that are alive.
pub data LeaseCall : Type 0 where
  reserves_slot : LeaseCall
  reserves : (bytes : ℕ) → LeaseCall
  increases : (i bytes : ℕ) → LeaseCall
  drops : (i : ℕ) → LeaseCall

abbrev pub add_lease : Option Reservation → InFlightBudget → List Reservation → Leases
add_lease none b live = record { budget = b; live = live }
add_lease (some r) b live = record { budget = b; live = r ∷ live }

abbrev pub add_reserved : Option (Option Reservation) → InFlightBudget → List Reservation → Leases
add_reserved none b live = record { budget = b; live = live }
add_reserved (some o) b live = add_lease o b live

abbrev pub set_lease : ℕ → Option (Bool × Reservation) → InFlightBudget → List Reservation → Leases
set_lease i none b live = record { budget = b; live = live }
set_lease i (some (_, r)) b live = record { budget = b; live = set live i r }

abbrev pub increase_at : ℕ → ℕ → Option Reservation → Leases → Leases
increase_at i bytes none s = s
increase_at i bytes (some r) s =
    let (out, b) = increase bytes r s.budget in set_lease i out b s.live

abbrev pub drop_at : ℕ → Option Reservation → Leases → Leases
drop_at i none s = s
drop_at i (some r) s = record {
  budget = (drop_reservation r s.budget).1;
  live = remove_at s.live i;
}

module _ (usize_max : ℕ) where
  unfoldable pub lease_step : LeaseCall → Leases → Leases
  lease_step reserves_slot s =
      let (out, b) = reserve_slot usize_max s.budget in add_lease out b s.live
  lease_step (reserves bytes) s =
      let (out, b) = reserve usize_max bytes s.budget in add_reserved out b s.live
  lease_step (increases i bytes) s = increase_at i bytes (get_elem? s.live i) s
  lease_step (drops i) s = drop_at i (get_elem? s.live i) s

  unfoldable pub lease_run : List LeaseCall → Leases → Leases
  unfolding lease_step
  lease_run [] s = s
  lease_run (c ∷ cs) s = lease_run cs (lease_step c s)
