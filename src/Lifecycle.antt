-- ===== src/Lifecycle.antt =====
-- The abstract machine of one slot of a store: the state diagram of documents/design-assets.md with
-- the reuse of slots. It forgets locks, clocks, wakers and budgets.
pub mod History
pub mod View
pub mod Refines
mod Examples
use fluxel_bases.Prelude.{ℕ, suc, ◌+◌, ◌<◌, ◌≡◌, Option, some, none, u32_max}
use fluxel_bases.World.{Entry, Phase, ReadyValue}
use fluxel_bases.Store.{retained}
use fluxel_bases.Store.Collect.{evict_phase}

module _ {V E : Type 0} where
  -- No attempt is active.
  abbrev pub IsIdle : Phase V E → Type 0
  IsIdle (Phase.producing _ _ _) = ⊥
  IsIdle _ = Unit {0}

  -- The phase after an attempt that leaves nothing behind: the value that it kept, or none.
  abbrev pub kept_phase : Option (ReadyValue V) → Phase V E
  kept_phase none = Phase.missing
  kept_phase (some r) = Phase.ready r

  -- What can happen to an entry while its identity lives.
  pub data Transition (old new : Entry V E) : Type 0 where
    rests :
        new.phase ≡ old.phase
        → new.attempt_generation ≡ old.attempt_generation
        → new.content_generation ≡ old.content_generation
        → Transition old new
    begins :
        (cell : ℕ)
        → IsIdle old.phase
        → new.phase ≡ Phase.producing (old.attempt_generation + 1) (retained old.phase) cell
        → new.attempt_generation ≡ old.attempt_generation + 1
        → new.content_generation ≡ old.content_generation
        → Transition old new
    commits :
        (cell : ℕ) (previous : Option (ReadyValue V)) (r : ReadyValue V)
        → old.phase ≡ Phase.producing old.attempt_generation previous cell
        → new.phase ≡ Phase.ready r
        → r.generation ≡ old.content_generation + 1
        → new.attempt_generation ≡ old.attempt_generation
        → new.content_generation ≡ old.content_generation + 1
        → Transition old new
    fails :
        (cell : ℕ) (previous : Option (ReadyValue V)) (error : E)
        → old.phase ≡ Phase.producing old.attempt_generation previous cell
        → new.phase ≡ Phase.failed old.attempt_generation error previous
        → new.attempt_generation ≡ old.attempt_generation
        → new.content_generation ≡ old.content_generation
        → Transition old new
    cancels :
        (cell : ℕ) (previous : Option (ReadyValue V))
        → old.phase ≡ Phase.producing old.attempt_generation previous cell
        → new.phase ≡ kept_phase previous
        → new.attempt_generation ≡ old.attempt_generation
        → new.content_generation ≡ old.content_generation
        → Transition old new
    evicts :
        (r : ReadyValue V)
        → evict_phase old.phase ≡ some (r, new.phase)
        → new.attempt_generation ≡ old.attempt_generation
        → new.content_generation ≡ old.content_generation
        → Transition old new

-- A slot that does not exist, is free for use, holds an entry, or will not be used again.
pub data Place (V E : Type 0) : Type 0 where
  absent : Place V E
  free : (generation : ℕ) → Place V E
  occupied : (generation : ℕ) → Entry V E → Place V E
  retired : Place V E

module _ {V E : Type 0} where
  pub record IsNew (entry : Entry V E) : Type 0 where
    pub no_value : entry.phase ≡ Phase.missing
    pub no_content : entry.content_generation ≡ 0
    pub no_attempt : entry.attempt_generation ≡ 0

  pub data PlaceStep : Place V E → Place V E → Type 0 where
    appears :
        {g : ℕ} {entry : Entry V E} → g ≡ 1 → IsNew entry → PlaceStep absent (occupied g entry)
    reuses : {g : ℕ} {entry : Entry V E} → IsNew entry → PlaceStep (free g) (occupied g entry)
    moves :
        {g : ℕ} {old new : Entry V E}
        → new.token ≡ old.token
        → Transition old new
        → PlaceStep (occupied g old) (occupied g new)
    recycles :
        {g h : ℕ} {entry : Entry V E}
        → IsIdle entry.phase
        → h ≡ g + 1
        → PlaceStep (occupied g entry) (free h)
    retires :
        {g : ℕ} {entry : Entry V E}
        → IsIdle entry.phase
        → g ≡ u32_max
        → PlaceStep (occupied g entry) retired

  pub data Steps (p : Place V E) : Place V E → Type 0 where
    here : Steps p p
    later : {q r : Place V E} → Steps p q → PlaceStep q r → Steps p r

  pub Steps-append : {p q r : Place V E} → Steps p q → Steps q r → Steps p r
  Steps-append a here = a
  Steps-append a (later b s) = later (Steps-append a b) s
