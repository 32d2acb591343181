-- ===== src/Base/Bits.antt =====
-- Laws of `|` and `&` at variables, from the digit recursions that the native operations mean.
use Prim.Native.Nat.{ℕ, zero, suc, ◌+◌, ◌*◌, ◌/◌, ◌%◌, ◌^◌, ◌≤◌, ◌<◌, min, max}
use Prim.Native.Nat.{bit_and, bit_or, digits, bitwise, bit_and-bitwise, bit_or-bitwise}
use mathlib.Core.Path.{◌≡◌, refl, ap, ◌∙◌}
use mathlib.Core.Logic.{inl, inr}
use mathlib.Core.Bool.{Bool, true, ◌&&◌}
use native.Mathlib.Nat.{pow-suc}
use native.Mathlib.Omega.{arith}
use in_free_time.Base.Tests.{◌==◌, ==_iff, Bool-cases}

-- The digit recursion `digits` stops at 0, so one more unit of fuel changes nothing once there is
-- enough for the left operand.
more_fuel :
    (last : ℕ → ℕ) (digit : ℕ → ℕ → ℕ) (fuel x y : ℕ)
    → x ≤ fuel
    → digits last digit (suc fuel) x y ≡ digits last digit fuel x y
more_fuel last digit zero zero y enough = refl
more_fuel last digit (suc fuel) zero y enough = refl
more_fuel last digit (suc fuel) (suc x) y enough =
    ap (λ t. t * 2 + digit (suc x % 2) (y % 2))
      (more_fuel last digit fuel (suc x / 2) (y / 2) (omega arith))
more_fuel last digit zero (suc x) y enough = absurd (omega arith)

-- All fuel beyond the left operand can go.
pub settle :
    (last : ℕ → ℕ) (digit : ℕ → ℕ → ℕ) (fuel x y : ℕ)
    → x ≤ fuel
    → digits last digit fuel x y ≡ digits last digit x x y
settle last digit zero zero y enough = refl
settle last digit zero (suc x) y enough = absurd (omega arith)
settle last digit (suc fuel) x y enough = elim (Bool-cases (x == suc fuel)) [
  | inl same ↦ rw ((==_iff x (suc fuel)).0 same) refl
  | inr differs ↦
      let less : x ≤ fuel = ground (arith, differs) in
      more_fuel last digit fuel x y less ∙ settle last digit fuel x y less
]

-- `|` and `&` from the lowest digit up.
pub bit_or_step : (a b : ℕ) → bit_or a b ≡ bit_or (a / 2) (b / 2) * 2 + max (a % 2) (b % 2)
bit_or_step a b = rw (bit_or-bitwise a b) (rw (bit_or-bitwise (a / 2) (b / 2)) (low a))
  where
    low :
        (x : ℕ)
        → bitwise (λ y. y) max x b ≡ bitwise (λ y. y) max (x / 2) (b / 2) * 2 + max (x % 2) (b % 2)
    low zero = omega arith
    low (suc x) = omega (arith, settle (λ y. y) max x (suc x / 2) (b / 2) (omega arith))

pub bit_and_step : (a b : ℕ) → bit_and a b ≡ bit_and (a / 2) (b / 2) * 2 + min (a % 2) (b % 2)
bit_and_step a b = rw (bit_and-bitwise a b) (rw (bit_and-bitwise (a / 2) (b / 2)) (low a))
  where
    low :
        (x : ℕ)
        → bitwise (λ y. 0) min x b ≡ bitwise (λ y. 0) min (x / 2) (b / 2) * 2 + min (x % 2) (b % 2)
    low zero = omega arith
    low (suc x) = omega (arith, settle (λ y. 0) min x (suc x / 2) (b / 2) (omega arith))

-- Bit `i` of a word, as 0 or 1.
abbrev pub bit_at : ℕ → ℕ → ℕ
bit_at zero w = w % 2
bit_at (suc i) w = bit_at i (w / 2)

pub bit_at-bit_or : (i a b : ℕ) → bit_at i (bit_or a b) ≡ max (bit_at i a) (bit_at i b)
bit_at-bit_or zero a b = omega (arith, bit_or_step a b)
bit_at-bit_or (suc i) a b =
    let half : bit_or a b / 2 ≡ bit_or (a / 2) (b / 2) = omega (arith, bit_or_step a b) in
    rw half (bit_at-bit_or i (a / 2) (b / 2))

pub bit_at-bit_and : (i a b : ℕ) → bit_at i (bit_and a b) ≡ min (bit_at i a) (bit_at i b)
bit_at-bit_and zero a b = omega (arith, bit_and_step a b)
bit_at-bit_and (suc i) a b =
    let half : bit_and a b / 2 ≡ bit_and (a / 2) (b / 2) = omega (arith, bit_and_step a b) in
    rw half (bit_at-bit_and i (a / 2) (b / 2))

pub bit_at-le-one : (i w : ℕ) → bit_at i w ≤ 1
bit_at-le-one zero w = omega arith
bit_at-le-one (suc i) w = bit_at-le-one i (w / 2)

-- Zero on the right, for left operands up to a bound that is halved at each step.
against_zero : (bound x : ℕ) → x ≤ bound → (bit_or x 0 ≡ x) × (bit_and x 0 ≡ 0)
against_zero bound zero below = (refl, refl)
against_zero (suc bound) (suc x) below =
    let (same, nothing) = against_zero bound (suc x / 2) (omega arith) in
    (omega (arith, bit_or_step (suc x) 0, same), omega (arith, bit_and_step (suc x) 0, nothing))
against_zero zero (suc x) below = absurd (omega arith)

pub bit_or-zero : (x : ℕ) → bit_or x 0 ≡ x
bit_or-zero x = (against_zero (suc x) x (omega arith)).0

pub bit_and-zero : (x : ℕ) → bit_and x 0 ≡ 0
bit_and-zero x = (against_zero (suc x) x (omega arith)).1

-- `(high << width) | low` is a sum when `low` has no more than `width` bits.
pub bit_or_shifted :
    (high low width : ℕ) → low < 2 ^ width → bit_or (high * 2 ^ width) low ≡ high * 2 ^ width + low
bit_or_shifted high low zero narrow = ground (arith, bit_or-zero high)
bit_or_shifted high low (suc width) narrow =
    let even : high * 2 ^ suc width ≡ high * 2 ^ width * 2 =
      omega (arith, ap (λ (power : ℕ). high * power) (pow-suc 2 width)) in
    let halves = bit_or_shifted high (low / 2) width (omega arith) in
    rw even (ground (arith, bit_or_step (high * 2 ^ width * 2) low, halves))

-- A mask of six ones, one step for each bit.
pub bit_and_sixty_three : (a : ℕ) → bit_and a 0x3f ≡ a % 64
bit_and_sixty_three a = omega (
  arith,
  bit_and_step a 63,
  bit_and_step (a / 2) 31,
  bit_and_step (a / 2 / 2) 15,
  bit_and_step (a / 2 / 2 / 2) 7,
  bit_and_step (a / 2 / 2 / 2 / 2) 3,
  bit_and_step (a / 2 / 2 / 2 / 2 / 2) 1,
  bit_and-zero (a / 2 / 2 / 2 / 2 / 2 / 2),
)

-- Do two functions agree at every value below a bound? Over a small range this is evaluated.
unfoldable pub agree_below : (ℕ → ℕ) → (ℕ → ℕ) → ℕ → Bool
agree_below f g zero = true
agree_below f g (suc bound) = agree_below f g bound && (f bound == g bound)

pub eq_of_agree_below :
    (f g : ℕ → ℕ) (bound : ℕ) → agree_below f g bound ≡ true → (x : ℕ) → x < bound → f x ≡ g x
unfolding agree_below
eq_of_agree_below f g zero agree x below = absurd (omega arith)
eq_of_agree_below f g (suc bound) agree x below = elim (Bool-cases (x == bound)) [
  | inl last ↦ ground (arith, (==_iff x bound).0 last)
  | inr before ↦ eq_of_agree_below f g bound (ground (arith, agree)) x (ground (arith, before))
]
