-- ===== src/Prelude/Words.antt =====
-- The checked arithmetic of `u32` and `u64`: `checked_add`, `checked_sub`, `u32::try_from`.
use Prim.Native.Nat.{ℕ, ◌+◌, ◌-◌, ◌≤◌, ◌<◌}
use mathlib.Core.Path.{◌≡◌}
use mathlib.Core.Logic.{◌⊎◌, inl, inr}
use mathlib.Core.Option.{Option, none, some}
use native.Mathlib.Omega.{arith}
use fluxel_bases.Prelude.Tests.{leb, Bool-cases, if◌then◌else◌}

abbrev pub u32_max : ℕ
u32_max = 0xffff_ffff

abbrev pub u64_max : ℕ
u64_max = 0xffff_ffff_ffff_ffff

-- `a.checked_add(b)` on an integer type whose greatest value is `limit`.
unfoldable pub checked_add : ℕ → ℕ → ℕ → Option ℕ
checked_add limit a b = if leb (a + b) limit then some (a + b) else none

unfoldable pub checked_sub : ℕ → ℕ → Option ℕ
checked_sub a b = if leb b a then some (a - b) else none

-- `u32::try_from(a).ok()`
unfoldable pub try_from : ℕ → ℕ → Option ℕ
try_from limit a = if leb a limit then some a else none

pub checked_add-cases :
    (limit a b : ℕ)
    → ((checked_add limit a b ≡ none) × (limit < a + b))
      ⊎ ((checked_add limit a b ≡ some (a + b)) × (a + b ≤ limit))
unfolding checked_add
checked_add-cases limit a b = elim (Bool-cases (leb (a + b) limit)) [
  | inl fits ↦ inr (ground arith, ground arith)
  | inr over ↦ inl (ground arith, ground arith)
]

pub checked_sub-cases :
    (a b : ℕ) → ((checked_sub a b ≡ none) × (a < b)) ⊎ ((checked_sub a b ≡ some (a - b)) × (b ≤ a))
unfolding checked_sub
checked_sub-cases a b = elim (Bool-cases (leb b a)) [
  | inl fits ↦ inr (ground arith, ground arith)
  | inr over ↦ inl (ground arith, ground arith)
]

pub try_from-cases :
    (limit a : ℕ)
    → ((try_from limit a ≡ none) × (limit < a)) ⊎ ((try_from limit a ≡ some a) × (a ≤ limit))
unfolding try_from
try_from-cases limit a = elim (Bool-cases (leb a limit)) [
  | inl fits ↦ inr (ground arith, ground arith)
  | inr over ↦ inl (ground arith, ground arith)
]

pub checked_add-some :
    (limit a b c : ℕ) → checked_add limit a b ≡ some c → (c ≡ a + b) × (c ≤ limit)
unfolding checked_add
checked_add-some limit a b c h = ground arith

pub checked_sub-some : (a b c : ℕ) → checked_sub a b ≡ some c → c + b ≡ a
unfolding checked_sub
checked_sub-some a b c h = ground arith

pub try_from-some : (limit a b : ℕ) → try_from limit a ≡ some b → (b ≡ a) × (a ≤ limit)
unfolding try_from
try_from-some limit a b h = ground arith

pub checked_sub-none : (a b : ℕ) → checked_sub a b ≡ none → a < b
unfolding checked_sub
checked_sub-none a b h = ground arith
