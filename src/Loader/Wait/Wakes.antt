-- ===== src/Loader/Wait/Wakes.antt =====
-- What wakes a blocking wait (crates/assets/examples/file_loader/mod.rs, lines 602 to 648).
use fluxel_bases.Prelude.{
  ℕ, ◌+◌, ◌<◌, ◌≡◌, refl, ap, sym, subst, ◌∙◌, inl, inr, Bool, true, false, Option, none, some,
  List, [], ◌∷◌, ◌++◌, arith, IsMember, ==_refl,
}
use fluxel_bases.Error.{Result}
use fluxel_bases.Production.{ProductionOutcome, ProductionWaiter}
use fluxel_bases.Cell.{Poll, AttemptCell, check, poll, record_waker, complete, set_outcome, drain}
use fluxel_bases.Cell.Wakes.{records-Holds, records-Listed, drains-IsWoken}
use fluxel_bases.Cell.Interleave.{IsWoken}
use fluxel_bases.World.{World, StoreState}
use fluxel_bases.Store.{complete_at}
use fluxel_bases.Store.Permit.{poll_waiter, set_cell}
use fluxel_bases.Loader.Wait.{
  allow, Wait, waited, Round, turn, last_turn, sent, wait_loop, wait_for,
}

module _ {W : Type 0} (is_own : W → Bool) where
  sent-append : (us ws : List W) → sent is_own (us ++ ws) ≡ sent is_own us + sent is_own ws
  unfolding sent
  sent-append [] ws = omega arith
  sent-append (u ∷ us) ws = let rest = sent-append us ws in ground arith

  sent-IsMember : (ws : List W) (v : W) → IsMember v ws → is_own v ≡ true → 0 < sent is_own ws
  unfolding sent
  sent-IsMember [] v member own = elim member [ ]
  sent-IsMember (u ∷ us) v (inl same) own = ground arith
  sent-IsMember (u ∷ us) v (inr member) own =
      let rest = sent-IsMember us v member own in ground arith

module _ {R W : Type 0} (will_wake : W → W → Bool) (key : ℕ) (waker : W) where
  -- The first poll of an attempt without a result waits, and leaves its waker.
  abbrev polled_cell : AttemptCell (Result R) W → AttemptCell (Result R) W
  polled_cell c = record c { registry = record_waker will_wake key waker c.registry }

  poll-pending :
      (c : AttemptCell (Result R) W)
      → c.poisoned ≡ false
      → c.outcome ≡ none
      → poll will_wake key waker c ≡ (Poll.pending, polled_cell c)
  unfolding poll check
  poll-pending c sound open_ = ground (arith, sound, open_)

  poll-ready :
      (c : AttemptCell (Result R) W) (r : Result R)
      → c.poisoned ≡ false
      → c.outcome ≡ some r
      → poll will_wake key waker c ≡ (Poll.ready r, c)
  unfolding poll check
  poll-ready c r sound settled = ground (arith, sound, settled)

  -- The completion of the polled cell wakes a waker that stands for the poll's.
  complete-polled :
      (c : AttemptCell (Result R) W) (r : Result R)
      → c.outcome ≡ none
      → IsMember key c.registry.registered
      → IsWoken will_wake key waker r (complete r (polled_cell c)).0
        × ((complete r (polled_cell c)).1.outcome ≡ some r)
        × ((complete r (polled_cell c)).1.poisoned ≡ c.poisoned)
  unfolding complete set_outcome drain
  complete-polled c r open_ listed =
      let settled : AttemptCell (Result R) W = record (polled_cell c) { outcome = some r } in
      let woken =
        drains-IsWoken will_wake key waker r settled (records-Listed will_wake key waker r c listed)
          (records-Holds will_wake key waker r c) in
      rw (open_, complete, set_outcome) (woken, refl, refl)

module _ {V E W : Type 0} (will_wake : W → W → Bool) (is_own : W → Bool) (waker : W)
    (timeout : ℕ) where
  poll_waiter-poll :
      (p : ProductionWaiter) (w : World V E W) {polled : Poll (ProductionOutcome V E)}
      {c : AttemptCell (Result (ProductionOutcome V E)) W}
      → poll will_wake p.key waker (w.cells p.cell) ≡ (polled, c)
      → poll_waiter will_wake p waker w ≡ (polled, set_cell p.cell c w)
  unfolding poll_waiter
  poll_waiter-poll p w e = ap (λ x. (x.0, set_cell p.cell x.1 w)) e

  -- A poll that finds the result ends the wait.
  pub wait_loop-ready :
      (rounds : List (Round V E W)) (p : ProductionWaiter) (received : ℕ) (w : World V E W)
      (r : Result (ProductionOutcome V E))
      → (w.cells p.cell).poisoned ≡ false
      → (w.cells p.cell).outcome ≡ some r
      → wait_loop will_wake is_own waker timeout rounds p received w
        ≡ some (waited r, set_cell p.cell (w.cells p.cell) w)
  unfolding wait_loop turn last_turn
  wait_loop-ready [] p received w r sound settled =
      ap last_turn
        (poll_waiter-poll p w (poll-ready will_wake p.key waker (w.cells p.cell) r sound settled))
  wait_loop-ready (round ∷ rounds) p received w r sound settled =
      ap
        (turn is_own timeout round received
          (wait_loop will_wake is_own waker timeout rounds p (received + 1)))
        (poll_waiter-poll p w (poll-ready will_wake p.key waker (w.cells p.cell) r sound settled))

  turn-received :
      (elapsed received : ℕ) (act : World V E W → World V E W)
      (next : World V E W → Option (Wait (ProductionOutcome V E) × World V E W)) (w : World V E W)
      → elapsed < timeout
      → received < sent is_own (act w).woken
      → turn is_own timeout
          (record { elapsed = elapsed; meanwhile = act })
          received
          next
          (Poll.pending, w)
        ≡ next (act w)
  unfolding turn
  turn-received elapsed received act next w early more = ground arith

  sent-IsWoken :
      (r : Result (ProductionOutcome V E)) (key : ℕ) (wakers woken : List W)
      → is_own waker ≡ true
      → ((v : W) → will_wake v waker ≡ true → is_own v ≡ true)
      → IsWoken will_wake key waker r wakers
      → sent is_own woken < sent is_own (wakers ++ woken)
  sent-IsWoken r key wakers woken own stands (v, member, suits) =
      let own_v : is_own v ≡ true = elim suits [
        | inl same ↦ ap is_own same ∙ own
        | inr same ↦ stands v same
      ] in
      let more = sent-IsMember is_own wakers v member own_v in
      omega (arith, more, sent-append is_own wakers woken)

  -- The store after the poll, whose state is that one.
  abbrev pub polled_store : StoreState V E → ProductionWaiter → World V E W → World V E W
  polled_store state p w =
      record (set_cell p.cell (polled_cell will_wake p.key waker (w.cells p.cell)) w) {
        state = state;
      }

  pub poll_waiter-pending :
      (p : ProductionWaiter) (w : World V E W)
      → (w.cells p.cell).poisoned ≡ false
      → (w.cells p.cell).outcome ≡ none
      → poll_waiter will_wake p waker w ≡ (Poll.pending, polled_store w.state p w)
  poll_waiter-pending p w sound open_ =
      poll_waiter-poll p w (poll-pending will_wake p.key waker (w.cells p.cell) sound open_)

  completed-polled :
      (state : StoreState V E) (p : ProductionWaiter) (w : World V E W)
      (r : Result (ProductionOutcome V E))
      → (w.cells p.cell).outcome ≡ none
      → IsMember p.key (w.cells p.cell).registry.registered
      → let u = complete_at p.cell r (polled_store state p w) in
        ((u.cells p.cell).outcome ≡ some r)
        × ((u.cells p.cell).poisoned ≡ (w.cells p.cell).poisoned)
        × ((wakers : List W) × IsWoken will_wake p.key waker r wakers
            × (u.woken ≡ wakers ++ w.woken))
  unfolding complete_at
  completed-polled state p w r open_ listed =
      let (woken, outcome, poisoned) =
        complete-polled will_wake p.key waker (w.cells p.cell) r open_ listed in
      rw (==_refl p.cell) (outcome, poisoned, (_, woken, refl))

  -- A wait that polls an attempt without a result, by a registered waiter and before its timeout, is
  -- woken by what happens while it blocks, where that completes the attempt's cell, whatever it does
  -- to the state of the store.
  pub wait_for-completed :
      (act : World V E W → World V E W) (state : StoreState V E) (p : ProductionWaiter)
      (w : World V E W) (r : Result (ProductionOutcome V E)) (elapsed : ℕ)
      (rounds : List (Round V E W))
      → act (polled_store w.state p w) ≡ complete_at p.cell r (polled_store state p w)
      → (w.cells p.cell).poisoned ≡ false
      → (w.cells p.cell).outcome ≡ none
      → IsMember p.key (w.cells p.cell).registry.registered
      → is_own waker ≡ true
      → ((v : W) → will_wake v waker ≡ true → is_own v ≡ true)
      → elapsed < timeout
      → let first : Round V E W = record { elapsed = elapsed; meanwhile = act } in
        (after : World V E W) × (wait_for will_wake is_own waker timeout allow (first ∷ rounds) p w
          ≡ some (waited r, after))
  unfolding wait_for wait_loop
  wait_for-completed act state p w r elapsed rounds does sound open_ listed own stands early =
      let polled = polled_store w.state p w in
      let received = sent is_own w.woken in
      let next = wait_loop will_wake is_own waker timeout rounds p (received + 1) in
      let first : Round V E W = record { elapsed = elapsed; meanwhile = act } in
      let (settled, still, (wakers, woken, sends)) = completed-polled state p w r open_ listed in
      (
        _,
        ap (turn is_own timeout first received next) (poll_waiter-pending p w sound open_)
            ∙ turn-received elapsed received act next polled early (
                subst (λ ws. sent is_own w.woken < sent is_own ws)
                  (sym (ap (λ (u : World V E W). u.woken) does ∙ sends))
                  (sent-IsWoken r p.key wakers w.woken own stands woken))
            ∙ ap next does
            ∙ wait_loop-ready rounds p (received + 1)
                (complete_at p.cell r (polled_store state p w)) r (still ∙ sound) settled,
      )

  -- A wait that polls an attempt without a result, by a registered waiter and before its timeout, and
  -- that the attempt completes while it blocks, is woken by the completion and returns that result,
  -- whatever would happen later: the cell's lock is good, and a waker that stands for the wait's own
  -- sends to its channel too.
  pub wait_for-complete_at :
      (p : ProductionWaiter) (w : World V E W) (r : Result (ProductionOutcome V E)) (elapsed : ℕ)
      (rounds : List (Round V E W))
      → (w.cells p.cell).poisoned ≡ false
      → (w.cells p.cell).outcome ≡ none
      → IsMember p.key (w.cells p.cell).registry.registered
      → is_own waker ≡ true
      → ((v : W) → will_wake v waker ≡ true → is_own v ≡ true)
      → elapsed < timeout
      → let first : Round V E W = record { elapsed = elapsed; meanwhile = complete_at p.cell r } in
        (after : World V E W) × (wait_for will_wake is_own waker timeout allow (first ∷ rounds) p w
          ≡ some (waited r, after))
  wait_for-complete_at p w r elapsed rounds sound open_ listed own stands early =
      wait_for-completed (complete_at p.cell r) w.state p w r elapsed rounds refl sound open_ listed
        own stands early
