-- ===== src/Uu.antt =====
-- `sf_uudecode` of Snort-POCAD/build/src/snort_dynamicsrc/sf_email_attach_decode.c. The source is
-- the memory from `src` on, of which the first `slen` bytes are the data; a read behind the end of
-- that memory is a fault. `out` holds what was stored from `dst` on.
pub mod Begin
pub mod Chars
pub mod Bounds
pub mod Overread
use in_free_time.Base.{ℕ, zero, suc, ◌+◌, ◌-◌, ◌*◌, ◌/◌, ◌%◌, ◌^◌, ◌≤◌, bit_and, bit_or, Bool, true}
use in_free_time.Base.{false, not, ◌&&◌, ◌||◌, List, [], ◌∷◌, ◌++◌, Bytes, length, take, drop, u8}
use in_free_time.Base.{ltb, leb, ◌==◌, if◌then◌else◌, Option, none, some, Ret, ok, failed}

-- `UU_DECODE_CHAR`: the difference is an `int` and may be negative; the mask takes its low bits.
unfoldable pub uu_decode_char : ℕ → ℕ
uu_decode_char c = bit_and ((c + 2 ^ 32 - 0x20) % 2 ^ 32) 0x3f

abbrev pub high_byte : ℕ → ℕ → ℕ
high_byte a b = u8 (bit_or (uu_decode_char a * 2 ^ 2) (uu_decode_char b / 2 ^ 4))

abbrev pub middle_byte : ℕ → ℕ → ℕ
middle_byte b c = u8 (bit_or (uu_decode_char b * 2 ^ 4) (uu_decode_char c / 2 ^ 2))

abbrev pub low_byte : ℕ → ℕ → ℕ
low_byte c d = u8 (bit_or (uu_decode_char c * 2 ^ 6) (uu_decode_char d))

-- What the inner loop leaves: the memory from `ptr` on, and the bytes stored.
pub record Span : Type 0 where
  pub ahead : Bytes
  pub out : Bytes

-- `while (length > 0)`: the memory from `ptr` on is the second argument. A round of four
-- characters reads each of them; a round cut short reads the character behind its last one.
unfoldable pub uu_chars : ℕ → Bytes → Bytes → Option Span
uu_chars zero m out = some (record { ahead = m; out = out })
uu_chars (suc zero) (a ∷ b ∷ m) out =
    some (record { ahead = b ∷ m; out = out ++ (high_byte a b ∷ []) })
uu_chars (suc (suc zero)) (a ∷ b ∷ c ∷ m) out =
    some (record { ahead = c ∷ m; out = out ++ (high_byte a b ∷ middle_byte b c ∷ []) })
uu_chars (suc (suc (suc zero))) (a ∷ b ∷ c ∷ d ∷ m) out =
    some (record { ahead = m; out = out ++ (high_byte a b ∷ middle_byte b c ∷ low_byte c d ∷ []) })
uu_chars (suc (suc (suc (suc n)))) (a ∷ b ∷ c ∷ d ∷ m) out =
    uu_chars n m (out ++ (high_byte a b ∷ middle_byte b c ∷ low_byte c d ∷ []))
uu_chars _ _ out = none

-- The variables of the outer loop: the memory from `ptr` on, `end - ptr`, the bytes stored, `sol`,
-- and `*end_found`.
pub record Uu : Type 0 where
  pub ahead : Bytes
  pub left : ℕ
  pub out : Bytes
  pub sol : Bool
  pub end_found : Bool

pub data UuRound : Type 0 where
  next stop : Uu → UuRound
  fault : UuRound

-- The characters of a line that are decoded, for `count` bytes and the room at `dst`. They are
-- never 3 more than a multiple of 4, so `ptr` moves over as many as there are.
unfoldable pub line_chars : ℕ → ℕ → ℕ
line_chars room count = (if ltb room count then room else count) * 4 / 3

unfoldable pub uu_decode : Uu → ℕ → Bytes → UuRound
uu_decode s chars m = if ltb (s.left - 1) chars then stop s else (elim (uu_chars chars m s.out) [
  | some t ↦ next (record s { ahead = t.ahead; left = s.left - 1 - chars; out = t.out })
  | none ↦ fault
])

-- The first byte of a line, `c`, says how many bytes the line holds.
unfoldable pub uu_line : ℕ → Uu → ℕ → Bytes → UuRound
uu_line dlen s c m =
    let count = uu_decode_char c in
    let s' = record s { sol = false } in
    if count == 0
    then stop s'
    else if count == 5 && c == b'e'
    then stop (record s' { end_found = true })
    else uu_decode s' (line_chars (dlen - length s.out) count) m

-- A round of the outer loop, entered with `ptr < end`.
unfoldable pub uu_round : ℕ → Uu → Bytes → UuRound
uu_round dlen s [] = fault
uu_round dlen s (c ∷ m) =
    if c == b'\n'
    then next (record s { ahead = m; left = s.left - 1; sol = true })
    else if s.sol
    then uu_line dlen s c m
    else next (record s { ahead = m; left = s.left - 1 })

-- The loop ends, reads behind the memory, or has used up its fuel.
pub data UuEnd : Type 0 where
  done : Uu → UuEnd
  bad_read out_of_fuel : UuEnd

abbrev pub go_on : (Uu → UuEnd) → UuRound → UuEnd
go_on rest (next s) = rest s
go_on rest (stop s) = done s
go_on rest fault = bad_read

unfoldable pub uu_loop : ℕ → ℕ → Uu → UuEnd
uu_loop zero dlen s = if not (s.left == 0) && ltb (length s.out) dlen then out_of_fuel else done s
uu_loop (suc fuel) dlen s = elim (not (s.left == 0) && ltb (length s.out) dlen) [
  | true ↦ go_on (uu_loop fuel dlen) (uu_round dlen s s.ahead)
  | false ↦ done s
]
