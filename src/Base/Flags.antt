-- ===== src/Base/Flags.antt =====
-- Flags in a 32-bit word: tests and clearing, and what they mean for single bits.
use Prim.Native.Nat.{ℕ, zero, suc, ◌-◌, ◌/◌, ◌^◌}
use Prim.Native.Nat.{bit_and}
use mathlib.Core.Path.{◌≡◌, refl, ap}
use mathlib.Core.Logic.{◌⊎◌, inl, inr}
use mathlib.Core.Bool.{Bool, not}
use native.Mathlib.Nat.{pow-suc, one-le-pow}
use native.Mathlib.Omega.{arith}
use in_free_time.Base.Tests.{◌==◌, if◌then◌else◌}
use in_free_time.Base.Bits.{bit_at, bit_at-bit_and, bit_at-le-one, bit_and_step, bit_and-zero}

-- `x & mask` as a condition.
abbrev pub has : ℕ → ℕ → Bool
has x mask = not (bit_and x mask == 0)

-- `x & ~mask`
abbrev pub without : ℕ → ℕ → ℕ
without x mask = bit_and x (0xFFFFFFFF - mask)

-- A mask of one bit leaves nothing, or itself.
bit_and_power :
    (i x : ℕ)
    → ((bit_at i x ≡ 0) × (bit_and x (2 ^ i) ≡ 0))
      ⊎ ((bit_at i x ≡ 1) × (bit_and x (2 ^ i) ≡ 2 ^ i))
bit_and_power zero x = ground (arith, bit_and_step x 1, bit_and-zero (x / 2))
bit_and_power (suc i) x =
    let halves : 2 ^ suc i / 2 ≡ 2 ^ i = omega (arith, pow-suc 2 i) in
    let step = bit_and_step x (2 ^ suc i) in
    elim (bit_and_power i (x / 2)) [
      | inl (clear, none_left) ↦
          inl (clear, omega (arith, step, pow-suc 2 i, ap (bit_and (x / 2)) halves, none_left))
      | inr (set, one_left) ↦
          inr (set, omega (arith, step, pow-suc 2 i, ap (bit_and (x / 2)) halves, one_left))
    ]

-- A test of one bit.
pub has-bit_at : (i x : ℕ) → has x (2 ^ i) ≡ (bit_at i x == 1)
has-bit_at i x = elim (bit_and_power i x) [
  | inl (clear, none_left) ↦ rw none_left (rw clear refl)
  | inr (set, one_left) ↦ ground (arith, set, one_left, one-le-pow i 2)
]

-- Clearing other bits keeps bit `i`; `keeps` is that the mask lacks it.
pub bit_at-without :
    (i x mask : ℕ) → bit_at i (0xFFFFFFFF - mask) ≡ 1 → bit_at i (without x mask) ≡ bit_at i x
bit_at-without i x mask keeps =
    omega (arith, bit_at-bit_and i x (0xFFFFFFFF - mask), bit_at-le-one i x, keeps)

pub bit_at-without_masked :
    (i x mask : ℕ) → bit_at i (0xFFFFFFFF - mask) ≡ 0 → bit_at i (without x mask) ≡ 0
bit_at-without_masked i x mask clears =
    omega (arith, bit_at-bit_and i x (0xFFFFFFFF - mask), clears)

pub bit_at-zero : (i : ℕ) → bit_at i 0 ≡ 0
bit_at-zero zero = refl
bit_at-zero (suc i) = bit_at-zero i

-- The bits of a power of two.
pub bit_at-power : (i j : ℕ) → bit_at i (2 ^ j) ≡ (if i == j then 1 else 0)
bit_at-power zero zero = refl
bit_at-power zero (suc j) = ground (arith, pow-suc 2 j)
bit_at-power (suc i) zero = ground (arith, bit_at-zero i)
bit_at-power (suc i) (suc j) =
    let halves : 2 ^ suc j / 2 ≡ 2 ^ j = omega (arith, pow-suc 2 j) in
    rw halves (ground (arith, bit_at-power i j))
