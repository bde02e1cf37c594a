-- ===== src/Loader/Examples/Waits.antt =====
-- A store with one waiter, at which the properties of the blocking wait are applied.
use fluxel_bases.Prelude.{ℕ, ◌≡◌, ◌≢◌, refl, inl, true, false, none, some, [], ◌∷◌, arith, ◌==◌}
use fluxel_bases.Error.{ok}
use fluxel_bases.Identity.{AssetId}
use fluxel_bases.Production.{ProductionWaiter, ProductionOutcome}
use fluxel_bases.World.{World}
use fluxel_bases.Store.{complete_at}
use fluxel_bases.Loader.Wait.{allow, Round, waited, wait_for}
use fluxel_bases.Loader.Wait.Ends.{wait_for-ne-none}
use fluxel_bases.Loader.Wait.Wakes.{wait_for-complete_at}

abbrev one_id : AssetId
one_id = record { store = 7; slot = 0; generation = 1 }

abbrev one_waiter : ProductionWaiter
one_waiter = record { id = one_id; attempt = 1; cell = 1; key = 1 }

-- A store in which a waiter of one attempt is registered.
abbrev waited_store : World ℕ ℕ ℕ
waited_store = record {
  id = 7;
  alive = true;
  poisoned = false;
  state = record { slots = []; free = []; ready_bytes = 0; touch = 0 };
  heap = record {
    next = 2;
    cells = λ _. record {
      outcome = none;
      poisoned = false;
      registry = record { next_key = 1; registered = 1 ∷ []; slots = λ _. none };
    };
    woken = [];
  };
}

abbrev one_outcome : ProductionOutcome ℕ ℕ
one_outcome = ProductionOutcome.cancelled one_id 1 none

abbrev late : Round ℕ ℕ ℕ
late = record { elapsed = 9; meanwhile = λ w. w }

wait_for-ne-none_example :
    wait_for (◌==◌) (λ v. v == 5) 5 4 allow (late ∷ []) one_waiter waited_store ≢ none
wait_for-ne-none_example =
    wait_for-ne-none (◌==◌) (λ v. v == 5) 5 4 allow (late ∷ []) one_waiter waited_store
      (inl (omega arith))

stands_for : (v : ℕ) → (v == 5) ≡ true → (v == 5) ≡ true
stands_for v e = e

wait_for-complete_example :
    (after : World ℕ ℕ ℕ) × (wait_for
        (◌==◌)
        (λ v. v == 5)
        5
        4
        allow
        (record { elapsed = 3; meanwhile = complete_at 1 (ok one_outcome) } ∷ late ∷ [])
        one_waiter
        waited_store
      ≡ some (waited (ok one_outcome), after))
wait_for-complete_example =
    wait_for-complete_at (◌==◌) (λ v. v == 5) 5 4 one_waiter waited_store (ok one_outcome) 3
      (late ∷ []) refl refl (inl refl) refl stands_for (omega arith)
