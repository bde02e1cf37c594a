-- ===== src/Store/Eviction/Sorted.antt =====
-- The order in which `collect` visits its candidates (crates/assets/src/runtime.rs, lines 806 to 829).
use Prim.Native.Nat.{Ordering}
use Prim.Native.Nat.Ordering.{lt, eq, gt}
use mathlib.Core.List.{Perm}
use mathlib.Core.List.Perm
use fluxel_bases.Prelude.{
  ℕ, suc, zero, ◌+◌, ◌≤◌, ◌≡◌, ◌≢◌, refl, ap, sym, Bool, true, false, ◌&&◌, Option, none, some,
  List, [], ◌∷◌, arith, All, get_elem?, ◌==◌, if◌then◌else◌,
}
use fluxel_bases.World.{Entry, Slot}
use fluxel_bases.Store.Collect.{
  Candidate, cmp_candidate, insert_sorted, sort_candidates, eligible, candidate_of, candidates,
}
use fluxel_bases.Store.Eviction.{All-insert_sorted, All-sort_candidates}

-- The least recently touched first, and by identity among those of one touch.
abbrev pub IsAscending : List Candidate → Type 0
IsAscending [] = Unit
IsAscending (c ∷ cs) = All (λ d. cmp_candidate c d ≢ gt) cs × IsAscending cs

cmp_candidate_flip : (c d : Candidate) → cmp_candidate c d ≡ gt → cmp_candidate d c ≢ gt
unfolding cmp_candidate
cmp_candidate_flip c d e = ground arith

cmp_candidate_trans :
    (c d e : Candidate) → cmp_candidate c d ≢ gt → cmp_candidate d e ≢ gt → cmp_candidate c e ≢ gt
unfolding cmp_candidate
cmp_candidate_trans c d e h k = ground arith

All-ahead :
    (c d : Candidate) (cs : List Candidate)
    → cmp_candidate c d ≢ gt
    → All (λ e. cmp_candidate d e ≢ gt) cs
    → All (λ e. cmp_candidate c e ≢ gt) cs
All-ahead c d [] h k = tt
All-ahead c d (e ∷ es) h (k, ks) = (cmp_candidate_trans c d e h k, All-ahead c d es h ks)

insert_sorted-IsAscending :
    (c : Candidate) (cs : List Candidate) → IsAscending cs → IsAscending (insert_sorted c cs)
unfolding insert_sorted
insert_sorted-IsAscending c [] h = (tt, tt)
insert_sorted-IsAscending c (d ∷ ds) (below, h) =
    place (cmp_candidate c d) refl (insert_sorted-IsAscending c ds h)
  where
    place :
        (o : Ordering)
        → cmp_candidate c d ≡ o
        → IsAscending (insert_sorted c ds)
        → IsAscending (elim o [ gt ↦ d ∷ insert_sorted c ds | _ ↦ c ∷ d ∷ ds ])
    place lt e rest =
        let ahead : cmp_candidate c d ≢ gt = λ k. cc in
        ((ahead, All-ahead c d ds ahead below), (below, h))
    place eq e rest =
        let ahead : cmp_candidate c d ≢ gt = λ k. cc in
        ((ahead, All-ahead c d ds ahead below), (below, h))
    place gt e rest = (
      All-insert_sorted (λ x. cmp_candidate d x ≢ gt) c ds (cmp_candidate_flip c d e) below,
      rest,
    )

insert_sorted-perm : (c : Candidate) (cs : List Candidate) → Perm (insert_sorted c cs) (c ∷ cs)
unfolding insert_sorted
insert_sorted-perm c [] = Perm.rfl
insert_sorted-perm c (d ∷ ds) = place (cmp_candidate c d) (insert_sorted-perm c ds)
  where
    place :
        (o : Ordering)
        → Perm (insert_sorted c ds) (c ∷ ds)
        → Perm (elim o [ gt ↦ d ∷ insert_sorted c ds | _ ↦ c ∷ d ∷ ds ]) (c ∷ d ∷ ds)
    place lt rest = Perm.rfl
    place eq rest = Perm.rfl
    place gt rest = Perm.trans (Perm.cons d rest) (Perm.swap c d ds)

pub sort_candidates-IsAscending : (cs : List Candidate) → IsAscending (sort_candidates cs)
unfolding sort_candidates
sort_candidates-IsAscending [] = tt
sort_candidates-IsAscending (c ∷ cs) =
    insert_sorted-IsAscending c (sort_candidates cs) (sort_candidates-IsAscending cs)

pub sort_candidates-perm : (cs : List Candidate) → Perm (sort_candidates cs) cs
unfolding sort_candidates
sort_candidates-perm [] = Perm.rfl
sort_candidates-perm (c ∷ cs) =
    Perm.trans (insert_sorted-perm c (sort_candidates cs)) (Perm.cons c (sort_candidates-perm cs))

-- Candidates of different slots.
abbrev pub IsApart : List Candidate → Type 0
IsApart [] = Unit
IsApart (c ∷ cs) = All (λ d. c.1.slot ≢ d.1.slot) cs × IsApart cs

insert_sorted-IsApart :
    (c : Candidate) (cs : List Candidate)
    → All (λ d. c.1.slot ≢ d.1.slot) cs
    → IsApart cs
    → IsApart (insert_sorted c cs)
unfolding insert_sorted
insert_sorted-IsApart c [] h a = (tt, tt)
insert_sorted-IsApart c (d ∷ ds) (other, h) (others, a) =
    place (cmp_candidate c d) (insert_sorted-IsApart c ds h a)
  where
    place :
        (o : Ordering)
        → IsApart (insert_sorted c ds)
        → IsApart (elim o [ gt ↦ d ∷ insert_sorted c ds | _ ↦ c ∷ d ∷ ds ])
    place lt rest = ((other, h), (others, a))
    place eq rest = ((other, h), (others, a))
    place gt rest =
        (All-insert_sorted (λ x. d.1.slot ≢ x.1.slot) c ds (λ e. other (sym e)) others, rest)

pub sort_candidates-IsApart : (cs : List Candidate) → IsApart cs → IsApart (sort_candidates cs)
unfolding sort_candidates
sort_candidates-IsApart [] a = tt
sort_candidates-IsApart (c ∷ cs) (h, a) =
    insert_sorted-IsApart c (sort_candidates cs)
      (All-sort_candidates (λ d. c.1.slot ≢ d.1.slot) cs h) (sort_candidates-IsApart cs a)

-- The candidates of slots from the index on.
abbrev Beyond : ℕ → List Candidate → Type 0
Beyond i cs = All (λ d. i ≤ d.1.slot) cs × IsApart cs

Beyond-suc :
    (i : ℕ) (cs : List Candidate) → All (λ d. i + 1 ≤ d.1.slot) cs → All (λ d. i ≤ d.1.slot) cs
Beyond-suc i [] h = tt
Beyond-suc i (c ∷ cs) (k, h) = (omega arith, Beyond-suc i cs h)

Beyond-ne :
    (i j : ℕ) (cs : List Candidate)
    → i ≡ j
    → All (λ d. i + 1 ≤ d.1.slot) cs
    → All (λ d. j ≢ d.1.slot) cs
Beyond-ne i j [] e h = tt
Beyond-ne i j (c ∷ cs) e (k, h) = (omega arith, Beyond-ne i j cs e h)

module _ {V E : Type 0} (strong_count : ℕ → ℕ) where
  candidate_of-Beyond :
      (i : ℕ) (o : Option (Entry V E)) (cs : List Candidate)
      → ((entry : Entry V E) → o ≡ some entry → entry.token.id.slot ≡ i)
      → Beyond (i + 1) cs
      → Beyond i (candidate_of strong_count o cs)
  candidate_of-Beyond i none cs own (h, a) = (Beyond-suc i cs h, a)
  candidate_of-Beyond i (some entry) cs own (h, a) =
      chosen (strong_count entry.token.addr == 1 && eligible entry.phase)
    where
      chosen : (b : Bool) → Beyond i (if b then (entry.last_touch, entry.token.id) ∷ cs else cs)
      chosen true =
          let at = own entry refl in
          ((omega arith, Beyond-suc i cs h), (Beyond-ne i entry.token.id.slot cs (sym at) h, a))
      chosen false = (Beyond-suc i cs h, a)

  candidates-Beyond :
      (i : ℕ) (slots : List (Slot V E))
      → ((j g : ℕ) (entry : Entry V E)
          → get_elem? slots j ≡ some (record { generation = g; entry = some entry })
          → entry.token.id.slot ≡ i + j)
      → Beyond i (candidates strong_count slots)
  unfolding candidates get_elem?
  candidates-Beyond i [] own = (tt, tt)
  candidates-Beyond i (slot ∷ slots) own =
      candidate_of-Beyond i slot.entry (candidates strong_count slots)
        (λ entry e.
          let at =
            own zero slot.generation entry
              (ap some (λ k. record { generation = slot.generation; entry = e k })) in
          omega arith)
        (candidates-Beyond (i + 1) slots
          λ j g entry at. let own' = own (suc j) g entry at in omega arith)

  pub candidates-IsApart :
      (slots : List (Slot V E))
      → ((j g : ℕ) (entry : Entry V E)
          → get_elem? slots j ≡ some (record { generation = g; entry = some entry })
          → entry.token.id.slot ≡ j)
      → IsApart (candidates strong_count slots)
  candidates-IsApart slots own =
      (candidates-Beyond 0 slots λ j g entry at. let e = own j g entry at in omega arith).1
