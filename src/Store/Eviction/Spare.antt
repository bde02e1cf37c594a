-- ===== src/Store/Eviction/Spare.antt =====
-- The entries that a collection may take a value of (crates/assets/src/runtime.rs, lines 806 to 835).
use fluxel_bases.Prelude.{
  ℕ, ◌≡◌, refl, ap, ◌∙◌, Bool, false, ◌&&◌, Option, none, some, List, [], ◌∷◌, ◌++◌, arith, ◌==◌,
  if◌then◌else◌,
}
use fluxel_bases.World.{Entry, Phase, Slot}
use fluxel_bases.Store.{retained}
use fluxel_bases.Store.Collect.{Candidate, eligible, candidate_of, candidates, is_some}

module _ {V E : Type 0} where
  -- A value that an entry retains outside an attempt, and that the entry's own token alone keeps.
  abbrev pub is_spare : ℕ → Phase V E → Bool
  is_spare owners (Phase.producing _ _ _) = false
  is_spare owners phase = owners == 1 && is_some (retained phase)

  abbrev pub spare_of : (ℕ → ℕ) → Option (Entry V E) → List Candidate
  spare_of strong_count none = []
  spare_of strong_count (some entry) =
      if is_spare (strong_count entry.token.addr) entry.phase
      then (entry.last_touch, entry.token.id) ∷ []
      else []

  -- The touches and the identities of the entries that a collection may take a value of.
  abbrev pub spare : (ℕ → ℕ) → List (Slot V E) → List Candidate
  spare strong_count [] = []
  spare strong_count (slot ∷ slots) = spare_of strong_count slot.entry ++ spare strong_count slots

  candidate_of-spare :
      (strong_count : ℕ → ℕ) (entry : Entry V E) (phase : Phase V E) (cs : List Candidate)
      → entry.phase ≡ phase
      → candidate_of strong_count (some entry) cs ≡ spare_of strong_count (some entry) ++ cs
  unfolding eligible
  candidate_of-spare strong_count entry Phase.missing cs e = ground (arith, e)
  candidate_of-spare strong_count entry (Phase.producing a p c) cs e = ground (arith, e)
  candidate_of-spare strong_count entry (Phase.ready r) cs e = ground (arith, e)
  candidate_of-spare strong_count entry (Phase.failed a x none) cs e = ground (arith, e)
  candidate_of-spare strong_count entry (Phase.failed a x (some r)) cs e = ground (arith, e)

  pub candidates-spare :
      (strong_count : ℕ → ℕ) (slots : List (Slot V E))
      → candidates strong_count slots ≡ spare strong_count slots
  unfolding candidates
  candidates-spare strong_count [] = refl
  candidates-spare strong_count (slot ∷ slots) =
      ap (candidate_of strong_count slot.entry) (candidates-spare strong_count slots)
      ∙ each slot.entry
    where
      each :
          (o : Option (Entry V E))
          → candidate_of strong_count o (spare strong_count slots)
            ≡ spare_of strong_count o ++ spare strong_count slots
      each none = refl
      each (some entry) =
          candidate_of-spare strong_count entry entry.phase (spare strong_count slots) refl
