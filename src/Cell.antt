-- ===== src/Cell.antt =====
-- crates/assets/src/runtime.rs, lines 20 to 209: one attempt's result and its waiters' wakers. Every
-- function that takes a lock once is one atomic section. The `Arc<WakerSlot>` of a registration is
-- `slots key`: keys are never used again, so a key names one slot for its whole life.
pub mod Outcome
pub mod Interleave
pub mod Wakes
pub mod Fanout
mod Examples
use fluxel_bases.Prelude.{
  ℕ, Bool, true, false, Option, none, some, List, [], ◌∷◌, u64_max, checked_add, ◌==◌,
  if◌then◌else◌,
}
use fluxel_bases.Error.{Result, err, synchronization_poisoned}

pub record WaiterRegistry (W : Type 0) : Type 0 where
  pub next_key : ℕ
  pub registered : List ℕ
  pub slots : ℕ → Option W

-- `R` is the type of an attempt's result. `poisoned` is that of the lock on `outcome`; the lock on
-- the registry and those on the slots are always recovered.
pub record AttemptCell (R W : Type 0) : Type 0 where
  pub outcome : Option R
  pub poisoned : Bool
  pub registry : WaiterRegistry W

pub data Poll (R : Type 0) : Type 0 where
  ready : Result R → Poll R
  pending : Poll R

-- A write to one key of a map.
abbrev pub update {ℓ} : {A : Type ℓ} → (ℕ → A) → ℕ → A → ℕ → A
update f k v j = if k == j then v else f j

-- `HashMap::remove`, on the set of keys
unfoldable pub remove_key : ℕ → List ℕ → List ℕ
remove_key k [] = []
remove_key k (j ∷ js) = if j == k then remove_key k js else j ∷ remove_key k js

module _ {W : Type 0} where
  unfoldable pub new_registry : WaiterRegistry W
  new_registry = record { next_key = 0; registered = []; slots = λ _. none }

  -- `WaiterRegistry::register`; `none` is the panic of its `expect`.
  unfoldable pub register : WaiterRegistry W → Option (ℕ × WaiterRegistry W)
  unfolding checked_add
  register r = elim (checked_add u64_max r.next_key 1) [
    | none ↦ none
    | some key ↦ some (
      key,
      record { next_key = key; registered = key ∷ r.registered; slots = update r.slots key none },
    )
  ]

  -- The registration's own reference to the slot is dropped with it.
  unfoldable pub deregister : ℕ → WaiterRegistry W → WaiterRegistry W
  unfolding remove_key
  deregister key r = record r {
    registered = remove_key key r.registered;
    slots = update r.slots key none;
  }

  -- `filter_map(|slot| slot.take())`: the wakers that are taken, and the slots left behind.
  unfoldable pub take_slots : List ℕ → (ℕ → Option W) → List W × (ℕ → Option W)
  take_slots [] slots = ([], slots)
  take_slots (k ∷ ks) slots =
      let (wakers, rest) = take_slots ks (update slots k none) in
      elim (slots k) [ none ↦ (wakers, rest) | some w ↦ (w ∷ wakers, rest) ]

  unfoldable pub take_wakers : WaiterRegistry W → List W × WaiterRegistry W
  unfolding take_slots
  take_wakers r =
      let (wakers, rest) = take_slots r.registered r.slots in
      (wakers, record r { registered = []; slots = rest })

-- `Waker::will_wake` is the executor's.
module _ {W : Type 0} (will_wake : W → W → Bool) where
  abbrev pub holds_equivalent : Option W → W → Bool
  holds_equivalent none waker = false
  holds_equivalent (some existing) waker = will_wake existing waker

  -- `WakerSlot::record`: a test under the lock, then, under the lock again, the same test and the
  -- exchange.
  unfoldable pub record_waker : ℕ → W → WaiterRegistry W → WaiterRegistry W
  record_waker key waker r =
      if holds_equivalent (r.slots key) waker
      then r
      else record r { slots = update r.slots key (some waker) }

module _ {R W : Type 0} where
  unfoldable pub new_cell : AttemptCell R W
  unfolding new_registry
  new_cell = record { outcome = none; poisoned = false; registry = new_registry }

  -- The first section of `AttemptCell::complete`: the first result stays.
  unfoldable pub set_outcome : R → AttemptCell R W → Bool × AttemptCell R W
  set_outcome result c = elim c.outcome [
    | some _ ↦ (false, c)
    | none ↦ (true, record c { outcome = some result })
  ]

  -- Its second section, and the wakers that it then wakes outside the locks.
  unfoldable pub drain : AttemptCell R W → List W × AttemptCell R W
  unfolding take_wakers
  drain c = let (wakers, r) = take_wakers c.registry in (wakers, record c { registry = r })

  unfoldable pub complete : R → AttemptCell R W → List W × AttemptCell R W
  unfolding set_outcome drain
  complete result c = let (first, c') = set_outcome result c in if first then drain c' else ([], c')

abbrev pub answer : {R : Type 0} → Option (Result R) → Poll R
answer none = Poll.pending
answer (some r) = Poll.ready r

module _ {R W : Type 0} where
  -- A section of `AttemptCell::poll` that reads the result; `none` lets the poll go on.
  unfoldable pub check : AttemptCell (Result R) W → Option (Result R)
  check c = if c.poisoned then some (err synchronization_poisoned) else c.outcome

  unfoldable pub poll :
      (W → W → Bool) → ℕ → W → AttemptCell (Result R) W → Poll R × AttemptCell (Result R) W
  unfolding check record_waker
  poll will_wake key waker c = elim (check c) [
    | some r ↦ (Poll.ready r, c)
    | none ↦
        let c' : AttemptCell (Result R) W = record c {
          registry = record_waker will_wake key waker c.registry;
        } in
        (answer (check c'), c')
  ]
