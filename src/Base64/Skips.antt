-- ===== src/Base64/Skips.antt =====
-- Bytes outside the alphabet (line ends, blanks, anything that the table marks by 100) do not
-- change what is decoded.
use in_free_time.Base.{ℕ, ◌≡◌, refl, Bool, false, not, [], ◌∷◌, arith, Bytes, ltb, ◌==◌, keep}
use in_free_time.Base64.{Decoder, table_value, step, loop, sf_base64decode, start}
use in_free_time.Base64.{max_base64_chars}

unfoldable pub is_base64 : ℕ → Bool
is_base64 c = not (table_value c == 100)

-- With the character count at its maximum nothing more is read.
loop_full : (max size : ℕ) (cs : Bytes) (s : Decoder) → ltb s.n max ≡ false → loop max size cs s ≡ s
unfolding loop
loop_full max size [] s h = refl
loop_full max size (c ∷ cs) s h = ground arith

loop-keep :
    (max size : ℕ) (cs : Bytes) (s : Decoder)
    → loop max size cs s ≡ loop max size (keep is_base64 cs) s
unfolding loop step is_base64
loop-keep max size [] s = refl
loop-keep max size (c ∷ cs) s =
    grind (arith, loop-keep max size cs, loop_full max size (keep is_base64 cs) s)

-- Decoding an input gives what decoding its alphabet characters and padding signs alone gives.
pub sf_base64decode-keep :
    (inbuf : Bytes) (size : ℕ)
    → sf_base64decode inbuf size ≡ sf_base64decode (keep is_base64 inbuf) size
unfolding sf_base64decode
sf_base64decode-keep inbuf size = rw (loop-keep (max_base64_chars size) size inbuf start)
