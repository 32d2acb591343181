-- ===== src/Base/Numerals.antt =====
-- Decimal numerals: `strtol` of C in base 10 with a `long` of 64 bits, and numbers printed.
use Prim.Native.Nat.{ℕ, zero, suc, ◌+◌, ◌-◌, ◌*◌, ◌/◌, ◌%◌, ◌^◌, ◌<◌}
use mathlib.Core.Path.{◌≡◌, ◌∙◌, refl, ap, sym}
use mathlib.Core.Bool.{Bool, true, false, ◌&&◌, ◌||◌}
use mathlib.Core.List.{[], ◌∷◌, ◌++◌, append_assoc, append-nil}
use native.Mathlib.Omega.{arith}
use native.Mathlib.Nat.{pow-suc}
use in_free_time.Base.Tests.{ltb, leb, ◌==◌, if◌then◌else◌, if-elim, Bool-cases}
use mathlib.Core.Logic.{inl, inr}
use in_free_time.Base.Lists.{Bytes, All, All-append}
use in_free_time.Base.Int.{ℤ, pos, negsuc}

-- `isspace` and `isdigit` of the C locale
abbrev pub is_space : ℕ → Bool
is_space c = c == b' ' || leb 9 c && leb c 13

abbrev pub is_digit : ℕ → Bool
is_digit c = leb b'0' c && leb c b'9'

-- What `strtol` gives: the value, the text from `endptr` on, whether there was a number, and whether
-- `errno` is `ERANGE`.
pub record Strtol : Type 0 where
  pub value : ℤ
  pub end : Bytes
  pub parsed : Bool
  pub erange : Bool

-- The digits and what follows them; `n` is the value so far.
abbrev pub read_digits : ℕ → Bytes → ℕ × Bytes
read_digits n [] = (n, [])
read_digits n (c ∷ s) = if is_digit c then read_digits (n * 10 + (c - b'0')) s else (n, c ∷ s)

abbrev pub starts_with_digit : Bytes → Bool
starts_with_digit [] = false
starts_with_digit (c ∷ s) = is_digit c

-- The value with its sign, cut to what a `long` holds
abbrev pub signed : Bool → ℕ → ℤ
signed false n = if ltb n (2 ^ 63) then pos n else pos (2 ^ 63 - 1)
signed true zero = pos 0
signed true (suc n) = if ltb n (2 ^ 63) then negsuc n else negsuc (2 ^ 63 - 1)

abbrev pub strtol_digits : Bytes → Bool → Bytes → Strtol
strtol_digits start negative s =
    if starts_with_digit s
    then (let (n, end) = read_digits 0 s in
        record {
          value = signed negative n;
          end = end;
          parsed = true;
          erange = if negative then ltb (2 ^ 63) n else ltb (2 ^ 63 - 1) n;
        })
    else record { value = pos 0; end = start; parsed = false; erange = false }

abbrev pub strtol_sign : Bytes → Bytes → Strtol
strtol_sign start [] = strtol_digits start false []
strtol_sign start (c ∷ s) =
    if c == b'-'
    then strtol_digits start true s
    else if c == b'+'
    then strtol_digits start false s
    else strtol_digits start false (c ∷ s)

abbrev pub strtol_space : Bytes → Bytes → Strtol
strtol_space start [] = strtol_sign start []
strtol_space start (c ∷ s) = if is_space c then strtol_space start s else strtol_sign start (c ∷ s)

-- `strtol(s, &end, 10)` behind `errno = 0`
abbrev pub strtol : Bytes → Strtol
strtol s = strtol_space s s

-- A number printed, with `more` digits behind the first one at most
abbrev pub decimal_to : ℕ → ℕ → Bytes
decimal_to zero n = (b'0' + n % 10) ∷ []
decimal_to (suc more) n =
    if ltb n 10 then (b'0' + n) ∷ [] else decimal_to more (n / 10) ++ ((b'0' + n % 10) ∷ [])

digit_step :
    (n d : ℕ) (rest : Bytes)
    → d < 10
    → read_digits n ((b'0' + d) ∷ rest) ≡ read_digits (n * 10 + d) rest
digit_step n d rest h =
    let shows : is_digit (b'0' + d) ≡ true = ground (arith, h) in
    let value : b'0' + d - b'0' ≡ d = omega arith in
    rw shows (ap (λ e. read_digits (n * 10 + e) rest) value)

-- A printed number is read again, up to what follows it.
read_digits-decimal_to :
    (more n : ℕ) (rest : Bytes)
    → n < 10 ^ suc more
    → read_digits 0 (decimal_to more n ++ rest) ≡ read_digits n rest
read_digits-decimal_to zero n rest h =
    digit_step 0 (n % 10) rest (omega arith) ∙ ap (λ e. read_digits e rest) (omega (arith, h))
read_digits-decimal_to (suc more) n rest h = elim (Bool-cases (ltb n 10)) [
  | inl e ↦
      rw e (digit_step 0 n rest (ground (arith, e)) ∙ ap (λ m. read_digits m rest) (omega arith))
  | inr e ↦ rw e (
      ap (read_digits 0) (append_assoc (decimal_to more (n / 10)) ((b'0' + n % 10) ∷ []) rest)
      ∙ read_digits-decimal_to more (n / 10) ((b'0' + n % 10) ∷ rest)
          (omega (arith, h, pow-suc 10 (suc more)))
      ∙ digit_step (n / 10) (n % 10) rest (omega arith)
      ∙ ap (λ m. read_digits m rest) (omega arith))
]

starts-append : (s more : Bytes) → starts_with_digit s ≡ true → starts_with_digit (s ++ more) ≡ true
starts-append [] more h = absurd (cc h)
starts-append (c ∷ s) more h = h

pub starts-decimal_to : (more n : ℕ) → starts_with_digit (decimal_to more n) ≡ true
starts-decimal_to zero n = ground arith
starts-decimal_to (suc more) n =
    if-elim (λ s. starts_with_digit s ≡ true) (ltb n 10) (λ e. ground (arith, e))
      λ e.
        starts-append (decimal_to more (n / 10)) ((b'0' + n % 10) ∷ [])
          (starts-decimal_to more (n / 10))

-- Every byte of a printed number is a digit.
pub decimal_to-digits : (more n : ℕ) → All (λ c. is_digit c ≡ true) (decimal_to more n)
decimal_to-digits zero n = (ground arith, tt)
decimal_to-digits (suc more) n =
    if-elim (All (λ c. is_digit c ≡ true)) (ltb n 10) (λ e. (ground (arith, e), tt))
      λ e.
        All-append (λ c. is_digit c ≡ true) (decimal_to more (n / 10)) ((b'0' + n % 10) ∷ [])
          (decimal_to-digits more (n / 10)) (ground arith, tt)

strtol-digits : (s : Bytes) → starts_with_digit s ≡ true → strtol s ≡ strtol_digits s false s
strtol-digits [] h = absurd (cc h)
strtol-digits (c ∷ s) h =
    let no_space : is_space c ≡ false = ground (arith, h) in
    let no_minus : (c == b'-') ≡ false = ground (arith, h) in
    let no_plus : (c == b'+') ≡ false = ground (arith, h) in
    rw no_space (rw no_minus (rw no_plus refl))

-- `strtol` reads a printed number of at most 18 digits to its end.
pub strtol-decimal_to :
    (more n : ℕ)
    → n < 10 ^ suc more
    → n < 2 ^ 63
    → strtol (decimal_to more n) ≡ record { value = pos n; end = []; parsed = true; erange = false }
strtol-decimal_to more n h small =
    let s = decimal_to more n in
    let read : read_digits 0 s ≡ (n, []) =
      ap (read_digits 0) (sym (append-nil s)) ∙ read_digits-decimal_to more n [] h in
    let fits : ltb n (2 ^ 63) ≡ true = ground (arith, small) in
    let no_overflow : ltb (2 ^ 63 - 1) n ≡ false = ground (arith, small) in
    strtol-digits s (starts-decimal_to more n)
    ∙ rw (starts-decimal_to more n) (rw read (rw fits (rw no_overflow refl)))
