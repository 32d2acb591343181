-- ===== src/Base64/Bounds.antt =====
-- The decoder never stores past the output buffer.
use in_free_time.Base.{ℕ, ◌+◌, ◌*◌, ◌/◌, ◌≤◌, ◌<◌, ◌≡◌, [], ◌∷◌, arith, Bytes, length}
use in_free_time.Base.{length-append, All, All-append, IsByte, u8}
use in_free_time.Base64.{Decoder, Round, next, stop, decode_group, step, loop, start}
use in_free_time.Base64.{put_byte, sf_base64decode, max_base64_chars}

-- The counter counts what was stored, and the stored bytes are bytes and fit the buffer.
pub record IsBounded (size : ℕ) (s : Decoder) : Type 0 where
  pub counts : s.bytes_written ≡ length s.out
  pub fits : s.bytes_written ≤ size
  pub bytes : All IsByte s.out

abbrev RoundIsBounded : ℕ → Round → Type 0
RoundIsBounded size (next s) = IsBounded size s
RoundIsBounded size (stop s) = IsBounded size s

put_byte-IsBounded :
    (size b : ℕ) (s : Decoder)
    → IsBounded size s
    → s.bytes_written < size
    → IsBounded size (put_byte b s)
unfolding put_byte
put_byte-IsBounded size b s v h = record {
  counts = omega (arith, length-append s.out (u8 b ∷ []), v.counts);
  fits = omega arith;
  bytes = All-append IsByte s.out _ v.bytes (omega arith);
}

decode_group-IsBounded :
    (size : ℕ) (s : Decoder) → IsBounded size s → RoundIsBounded size (decode_group size s)
unfolding decode_group
decode_group-IsBounded size s v = grind (arith, put_byte-IsBounded)

step-IsBounded : (size c : ℕ) (s : Decoder) → IsBounded size s → RoundIsBounded size (step size s c)
unfolding step
step-IsBounded size c s v = grind (arith, decode_group-IsBounded)

loop-IsBounded :
    (max size : ℕ) (cs : Bytes) (s : Decoder)
    → IsBounded size s
    → IsBounded size (loop max size cs s)
unfolding loop
loop-IsBounded max size [] s v = v
loop-IsBounded max size (c ∷ cs) s v =
    grind (arith, step-IsBounded size c s v, loop-IsBounded max size cs)

-- Three bytes for each four characters, and no more characters than `k` were read.
record IsThrifty (k : ℕ) (s : Decoder) : Type 0 where
  ratio : s.bytes_written ≤ s.n / 4 * 3
  read : s.n ≤ k

abbrev RoundIsThrifty : ℕ → Round → Type 0
RoundIsThrifty k (next s) = IsThrifty k s
RoundIsThrifty k (stop s) = IsThrifty k s

abbrev WritesThree : Decoder → Round → Type 0
WritesThree s (next s') = (s'.bytes_written ≤ s.bytes_written + 3) × (s'.n ≡ s.n)
WritesThree s (stop s') = (s'.bytes_written ≤ s.bytes_written + 3) × (s'.n ≡ s.n)

decode_group-WritesThree : (size : ℕ) (s : Decoder) → WritesThree s (decode_group size s)
unfolding decode_group put_byte
decode_group-WritesThree size s = grind arith

step-IsThrifty :
    (size c k : ℕ) (s : Decoder) → IsThrifty k s → RoundIsThrifty (k + 1) (step size s c)
unfolding step
step-IsThrifty size c k s v = grind (arith, decode_group-WritesThree)

loop-IsThrifty :
    (max size k : ℕ) (cs : Bytes) (s : Decoder)
    → IsThrifty k s
    → IsThrifty (k + length cs) (loop max size cs s)
unfolding loop
loop-IsThrifty max size k [] s v = ground arith
loop-IsThrifty max size k (c ∷ cs) s v =
    grind (arith, step-IsThrifty size c k s v, loop-IsThrifty max size (k + 1) cs)

-- On every input `sf_base64decode` counts the bytes that it stores, they are bytes, they fit the
-- output buffer, and there are at most three of them for each four bytes of input.
pub sf_base64decode_bounds :
    (inbuf : Bytes) (size : ℕ)
    → let d = sf_base64decode inbuf size in
      (d.bytes_written ≡ length d.out)
      × (d.bytes_written ≤ size)
      × All IsByte d.out
      × (4 * d.bytes_written ≤ 3 * length inbuf)
unfolding sf_base64decode
sf_base64decode_bounds inbuf size =
    let max = max_base64_chars size in
    let v =
      loop-IsBounded max size inbuf start
        (record { counts = omega arith; fits = omega arith; bytes = tt }) in
    let w =
      loop-IsThrifty max size 0 inbuf start (record { ratio = omega arith; read = omega arith }) in
    (v.counts, v.fits, v.bytes, omega (arith, w.ratio, w.read))
