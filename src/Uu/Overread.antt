-- ===== src/Uu/Overread.antt =====
-- A line cut short at the end of the data is decoded with the byte behind the data.
use in_free_time.Base.{ℕ, ◌+◌, ◌-◌, ◌*◌, ◌/◌, ◌<◌, ◌≡◌, refl, Bool, true, false, [], ◌∷◌}
use in_free_time.Base.{arith, Bytes, Option, none, ok}
use in_free_time.Base.Bits.{bit_or_shifted}
use in_free_time.Uu.{uu_decode_char, uu_chars, uu_line, line_chars, uu_decode, uu_round, uu_loop}
use in_free_time.Uu.Begin.{returned, uu_body, sf_uudecode}
use in_free_time.Uu.Chars.{uu_decode_char-lt}

-- The one byte that a count line of one character gives with `x` behind the data.
pub overread_byte : ℕ → ℕ → ℕ
overread_byte c x = uu_decode_char c * 4 + uu_decode_char x / 16

bang : uu_decode_char b'!' ≡ 1
unfolding uu_decode_char
bang = refl

one_char : (dlen : ℕ) → 0 < dlen → line_chars (dlen - 0) 1 ≡ 1
unfolding line_chars
one_char dlen h = ground arith

-- The data is a line that announces one byte and holds one character, `c`, and `x` stands behind
-- the data. With begin found and a destination that is not empty, `sf_uudecode` stores a byte that
-- has its low bits from `x`.
pub sf_uudecode_overread :
    (strn_str : Bytes → ℕ → Bytes → Option ℕ) (c x dlen : ℕ) (wants_name : Bool)
    → 0 < dlen
    → sf_uudecode strn_str true (b'!' ∷ c ∷ x ∷ []) 2 dlen true false wants_name
      ≡ returned (record {
        ret = ok;
        bytes_read = 2;
        out = overread_byte c x ∷ [];
        begin_found = true;
        end_found = false;
        file_name = none;
      })
unfolding sf_uudecode uu_body uu_loop uu_round uu_line uu_decode uu_chars overread_byte
sf_uudecode_overread strn_str c x dlen wants_name pos = ground (
  arith,
  bang,
  one_char dlen pos,
  bit_or_shifted (uu_decode_char c) (uu_decode_char x / 16) 2,
  uu_decode_char-lt c,
  uu_decode_char-lt x,
)
