-- ===== src/Uu/Chars.antt =====
-- The inner loop of `sf_uudecode` on a line, and the value of a character.
use in_free_time.Base.{
  refl, ℕ, zero, suc, ◌+◌, ◌-◌, ◌*◌, ◌/◌, ◌%◌, ◌^◌, ◌<◌, ◌≡◌, [], ◌∷◌, ◌++◌, arith,
}
use in_free_time.Base.{Bytes, length, length-append, drop, some, All, All-append, IsByte}
use in_free_time.Base.Bits.{bit_and_sixty_three}
use in_free_time.Uu.{uu_decode_char, Span, uu_chars, high_byte, middle_byte, low_byte}

pub uu_decode_char-mod : (c : ℕ) → c < 256 → uu_decode_char c ≡ (c + 32) % 64
unfolding uu_decode_char
uu_decode_char-mod c h = omega (arith, bit_and_sixty_three ((c + 2 ^ 32 - 0x20) % 2 ^ 32))

pub uu_decode_char-lt : (c : ℕ) → uu_decode_char c < 64
unfolding uu_decode_char
uu_decode_char-lt c = omega (arith, bit_and_sixty_three ((c + 2 ^ 32 - 0x20) % 2 ^ 32))

-- The characters that the code takes for `n` bytes.
abbrev pub chars_for : ℕ → ℕ
chars_for n = n * 4 / 3

-- `k` characters, read with the one behind them at hand, give `k - k / 4` bytes; `ptr` moves over
-- exactly these characters.
pub record IsDecoded (k : ℕ) (m out : Bytes) (t : Span) : Type 0 where
  pub moved : t.ahead ≡ drop k m
  pub wrote : length t.out + k / 4 ≡ length out + k
  pub bytes : All IsByte out → All IsByte t.out

pub uu_chars-IsDecoded :
    (k : ℕ) (m out : Bytes)
    → k % 4 < 3
    → k < length m
    → (t : Span) × (uu_chars k m out ≡ some t) × IsDecoded k m out t
unfolding uu_chars
uu_chars-IsDecoded zero m out h l = (
  record { ahead = m; out = out },
  refl,
  record { moved = refl; wrote = omega arith; bytes = λ b. b },
)
uu_chars-IsDecoded (suc zero) (a ∷ b ∷ m) out h l =
    let new = high_byte a b ∷ [] in
    (
      record { ahead = b ∷ m; out = out ++ new },
      refl,
      record {
        moved = refl;
        wrote = omega (arith, length-append out new);
        bytes = λ v. All-append IsByte out new v (omega arith);
      },
    )
uu_chars-IsDecoded (suc (suc zero)) (a ∷ b ∷ c ∷ m) out h l =
    let new = high_byte a b ∷ middle_byte b c ∷ [] in
    (
      record { ahead = c ∷ m; out = out ++ new },
      refl,
      record {
        moved = refl;
        wrote = omega (arith, length-append out new);
        bytes = λ v. All-append IsByte out new v (omega arith);
      },
    )
uu_chars-IsDecoded (suc (suc (suc zero))) m out h l = absurd (omega arith)
uu_chars-IsDecoded (suc (suc (suc (suc k)))) (a ∷ b ∷ c ∷ d ∷ m) out h l =
    let new = high_byte a b ∷ middle_byte b c ∷ low_byte c d ∷ [] in
    let (t, e, v) = uu_chars-IsDecoded k m (out ++ new) (omega arith) (omega arith) in
    (
      t,
      e,
      record {
        moved = v.moved;
        wrote = omega (arith, v.wrote, length-append out new);
        bytes = λ w. v.bytes (All-append IsByte out new w (omega arith));
      },
    )
uu_chars-IsDecoded (suc k) [] out h l = absurd (omega arith)
uu_chars-IsDecoded (suc zero) (a ∷ []) out h l = absurd (omega arith)
uu_chars-IsDecoded (suc (suc k)) (a ∷ []) out h l = absurd (omega arith)
uu_chars-IsDecoded (suc (suc k)) (a ∷ b ∷ []) out h l = absurd (omega arith)
uu_chars-IsDecoded (suc (suc (suc (suc k)))) (a ∷ b ∷ c ∷ []) out h l = absurd (omega arith)
