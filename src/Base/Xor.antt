-- ===== src/Base/Xor.antt =====
-- `^` of C as a test: two words differ, which is to say that they differ in a bit.
use Prim.Native.Nat.{
  ℕ, zero, suc, ◌+◌, ◌*◌, ◌/◌, ◌%◌, ◌≤◌, bit_xor, bit_xor-bitwise, bitwise, differ,
}
use mathlib.Core.Path.{◌≡◌, refl, ap}
use mathlib.Core.Logic.{◌↔◌, ◌≢◌, inl, inr}
use mathlib.Core.Bool.{Bool, true, false, not}
use native.Mathlib.Omega.{arith}
use in_free_time.Base.Tests.{◌==◌, Bool-cases}
use in_free_time.Base.Bits.{bit_at, settle}

bit_xor_step : (a b : ℕ) → bit_xor a b ≡ bit_xor (a / 2) (b / 2) * 2 + differ (a % 2) (b % 2)
bit_xor_step a b = rw (bit_xor-bitwise a b) (rw (bit_xor-bitwise (a / 2) (b / 2)) (lowest a))
  where
    lowest :
        (x : ℕ)
        → bitwise (λ y. y) differ x b
          ≡ bitwise (λ y. y) differ (x / 2) (b / 2) * 2 + differ (x % 2) (b % 2)
    lowest zero = omega arith
    lowest (suc x) = omega (arith, settle (λ y. y) differ x (suc x / 2) (b / 2) (omega arith))

differ-zero : (x y : ℕ) → (differ x y ≡ 0) ↔ (x ≡ y)
differ-zero zero y = (λ h. omega arith, λ h. omega arith)
differ-zero (suc x) zero = (λ h. omega arith, λ h. omega arith)
differ-zero (suc x) (suc y) =
    let (f, g) = differ-zero x y in (λ h. omega (arith, f h), λ h. g (omega arith))

xor_halves : (bound a b : ℕ) → a ≤ bound → b ≤ bound → (bit_xor a b ≡ 0) ↔ (a ≡ b)
xor_halves zero zero zero p q = (λ h. refl, λ h. refl)
xor_halves zero (suc a) b p q = absurd (omega arith)
xor_halves zero zero (suc b) p q = absurd (omega arith)
xor_halves (suc bound) a b p q =
    let (f, g) = xor_halves bound (a / 2) (b / 2) (omega arith) (omega arith) in
    let (d, e) = differ-zero (a % 2) (b % 2) in
    (
      λ h. omega (
        arith,
        bit_xor_step a b,
        f (omega (arith, bit_xor_step a b)),
        d (omega (arith, bit_xor_step a b)),
      ),
      λ h. omega (arith, bit_xor_step a b, g (omega arith), e (omega arith)),
    )

-- Words that agree in every bit are equal.
bits_agree : (bound a b : ℕ) → a ≤ bound → b ≤ bound → ((i : ℕ) → bit_at i a ≡ bit_at i b) → a ≡ b
bits_agree zero a b p q h = omega arith
bits_agree (suc bound) a b p q h =
    omega
      (arith, h 0, bits_agree bound (a / 2) (b / 2) (omega arith) (omega arith) (λ i. h (suc i)))

-- `a ^ b` as a condition.
abbrev pub differs : ℕ → ℕ → Bool
differs a b = not (bit_xor a b == 0)

pub differs-false : (a b : ℕ) → ((i : ℕ) → bit_at i a ≡ bit_at i b) → differs a b ≡ false
differs-false a b h =
    let same = bits_agree (a + b) a b (omega arith) (omega arith) h in
    ground (arith, (xor_halves (a + b) a b (omega arith) (omega arith)).1 same)

pub differs-true : (i a b : ℕ) → bit_at i a ≢ bit_at i b → differs a b ≡ true
differs-true i a b h = elim (Bool-cases (bit_xor a b == 0)) [
  | inl e ↦ absurd (
      h (
        ap (bit_at i) ((xor_halves (a + b) a b (omega arith) (omega arith)).0 (ground (arith, e)))))
  | inr e ↦ rw e refl
]
