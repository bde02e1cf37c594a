-- ===== src/Error/Display.antt =====
-- The messages of errors (crates/assets/src/error.rs, lines 55 to 94, and
-- crates/assets/examples/file_loader/mod.rs, lines 132 to 151). A message is the sequence of what is
-- written to the formatter, which is external.
use Prim.Native.String.{String}
use text.Mathlib.Text.{◌==◌}
use fluxel_bases.Prelude.{
  ℕ, ◌≡◌, refl, ap, sym, ◌∙◌, Option, none, some, List, [], ◌∷◌, if◌then◌else◌,
}
use fluxel_bases.Error.{
  AssetError, foreign_identity, stale_identity, live_users, production_in_progress,
  no_active_production, expired_producer, producer_already_completed, resident_bytes_overflow,
  generation_exhausted, synchronization_poisoned, store_closed,
}
use fluxel_bases.Loader.Failure.{
  LoadError, source_io, budget_rejected, source_changed, source_too_large, directory_poisoned, core,
}

-- A text, a number by its `Display`, and an optional number by its `Debug`.
pub data Written : Type 0 where
  words : String → Written
  number : ℕ → Written
  optional : Option ℕ → Written

-- `Display for AssetError`
unfoldable display : AssetError → List Written
display foreign_identity = words "asset identity belongs to another store" ∷ []
display (stale_identity slot slot_generation) =
    words "asset identity is stale (slot "
    ∷ number slot
    ∷ words ", generation "
    ∷ number slot_generation
    ∷ words ")"
    ∷ []
display (live_users strong_users) =
    words "asset has " ∷ number strong_users ∷ words " live strong users" ∷ []
display (production_in_progress attempt) =
    words "asset production attempt " ∷ number attempt ∷ words " is in progress" ∷ []
display no_active_production = words "asset has no active production" ∷ []
display (expired_producer actual_attempt expected_attempt) =
    words "producer attempt "
    ∷ number actual_attempt
    ∷ words " expired; active attempt is "
    ∷ optional expected_attempt
    ∷ []
display producer_already_completed = words "producer permit was already completed" ∷ []
display resident_bytes_overflow = words "resident byte accounting overflow" ∷ []
display generation_exhausted = words "asset generation space exhausted" ∷ []
display synchronization_poisoned = words "asset store synchronization was poisoned" ∷ []
display store_closed = words "asset store is closed" ∷ []

-- `Display for LoadError`; a message is a text of the operating system.
unfoldable display_load : {Kind : Type 0} → LoadError Kind String → List Written
unfolding display
display_load (source_io _ message) = words message ∷ []
display_load (budget_rejected bytes) =
    words "in-flight budget rejected " ∷ number bytes ∷ words " bytes" ∷ []
display_load (source_changed expected_bytes observed_bytes) =
    words "source size changed while reading: expected "
    ∷ number expected_bytes
    ∷ words " bytes, observed "
    ∷ number observed_bytes
    ∷ words " bytes"
    ∷ []
display_load source_too_large = words "source is too large for this process" ∷ []
display_load directory_poisoned = words "file-loader directory lock poisoned" ∷ []
display_load (core error) = display error

-- The error of a message.
abbrev plain : String → Option AssetError
plain t =
    if t == "asset identity belongs to another store"
    then some foreign_identity
    else if t == "asset has no active production"
    then some no_active_production
    else if t == "producer permit was already completed"
    then some producer_already_completed
    else if t == "resident byte accounting overflow"
    then some resident_bytes_overflow
    else if t == "asset generation space exhausted"
    then some generation_exhausted
    else if t == "asset store synchronization was poisoned"
    then some synchronization_poisoned
    else if t == "asset store is closed"
    then some store_closed
    else none

abbrev parsed : List Written → Option AssetError
parsed (words t ∷ []) = plain t
parsed (words t ∷ number n ∷ words _ ∷ []) =
    if t == "asset has " then some (live_users n) else some (production_in_progress n)
parsed (words _ ∷ number n ∷ words _ ∷ number m ∷ words _ ∷ []) = some (stale_identity n m)
parsed (words _ ∷ number n ∷ words _ ∷ optional o ∷ []) = some (expired_producer n o)
parsed _ = none

parsed-display : (e : AssetError) → parsed (display e) ≡ some e
unfolding display
parsed-display foreign_identity = refl
parsed-display (stale_identity slot slot_generation) = refl
parsed-display (live_users strong_users) = refl
parsed-display (production_in_progress attempt) = refl
parsed-display no_active_production = refl
parsed-display (expired_producer actual_attempt expected_attempt) = refl
parsed-display producer_already_completed = refl
parsed-display resident_bytes_overflow = refl
parsed-display generation_exhausted = refl
parsed-display synchronization_poisoned = refl
parsed-display store_closed = refl

-- The messages of two errors of the store differ wherever the errors or their fields do.
display_injective : (a b : AssetError) → display a ≡ display b → a ≡ b
display_injective a b e =
    let same : some a ≡ some b = sym (parsed-display a) ∙ ap parsed e ∙ parsed-display b in cc
