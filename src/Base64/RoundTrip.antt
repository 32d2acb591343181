-- ===== src/Base64/RoundTrip.antt =====
-- Decoding what a standard base64 encoder writes gives the data back.
use mathlib.Core.List.{append-nil, append_assoc}
use in_free_time.Base.{ℕ, zero, suc, ◌+◌, ◌-◌, ◌*◌, ◌/◌, ◌%◌, ◌^◌, ◌≤◌, ◌<◌, ◌≡◌, refl, true, false}
use in_free_time.Base.{bit_or, [], ◌∷◌, ◌++◌, arith, Bytes, length, ltb, ◌==◌, if◌then◌else◌}
use in_free_time.Base.{All, IsByte, take, take-nil, keep, u8, ok, ap, ◌∙◌}
use in_free_time.Base.Bits.{agree_below, eq_of_agree_below, bit_or_shifted}
use in_free_time.Base64.{Decoder, Round, next, stop, table_value, decode_group, step, loop, start}
use in_free_time.Base64.{put_byte, sf_base64decode, max_base64_chars}
use in_free_time.Base64.Bounds.{sf_base64decode_bounds}
use in_free_time.Base64.Skips.{is_base64, sf_base64decode-keep}

-- The encoder, as RFC 4648 has it: the alphabet, and groups of three bytes.
unfoldable pub digit64 : ℕ → ℕ
digit64 v =
    if ltb v 26
    then v + b'A'
    else if ltb v 52
    then v - 26 + b'a'
    else if ltb v 62
    then v - 52 + b'0'
    else if v == 62
    then b'+'
    else b'/'

unfoldable pub encode64 : Bytes → Bytes
encode64 [] = []
encode64 (a ∷ []) = digit64 (a / 4) ∷ digit64 (a % 4 * 16) ∷ b'=' ∷ b'=' ∷ []
encode64 (a ∷ b ∷ []) =
    digit64 (a / 4) ∷ digit64 (a % 4 * 16 + b / 16) ∷ digit64 (b % 16 * 4) ∷ b'=' ∷ []
encode64 (a ∷ b ∷ c ∷ rest) =
    digit64 (a / 4)
    ∷ digit64 (a % 4 * 16 + b / 16)
    ∷ digit64 (b % 16 * 4 + c / 64)
    ∷ digit64 (c % 64)
    ∷ encode64 rest

table_value-digit64 : (v : ℕ) → v < 64 → table_value (digit64 v) ≡ v
unfolding digit64 table_value agree_below
table_value-digit64 = eq_of_agree_below (λ v. table_value (digit64 v)) (λ v. v) 64 refl

digit64_plain : (v : ℕ) → v < 64 → (digit64 v == b'=') ≡ false
unfolding digit64
digit64_plain v h = ground arith

-- A character of the alphabet is no padding sign, is not skipped, and has its value.
char_ok :
    (v : ℕ)
    → v < 64
    → ((digit64 v == b'=') ≡ false)
      × ((table_value (digit64 v) == 100) ≡ false)
      × (table_value (digit64 v) ≡ v)
char_ok v h = (digit64_plain v h, ground (arith, table_value-digit64 v h), table_value-digit64 v h)

padding : table_value b'=' ≡ 99
unfolding table_value
padding = refl

-- The three output bytes of a group, as arithmetic on the values of its characters.
first_byte : (a x : ℕ) → a < 256 → x / 16 ≡ a % 4 → u8 (bit_or (a / 4 * 2 ^ 2) (x / 2 ^ 4)) ≡ a
first_byte a x ha e = rw (bit_or_shifted (a / 4) (x / 16) 2 (omega arith)) (omega arith)

second_byte :
    (b x y : ℕ)
    → b < 256
    → x % 16 ≡ b / 16
    → y / 4 ≡ b % 16
    → u8 (bit_or (x * 2 ^ 4) (y / 2 ^ 2)) ≡ b
second_byte b x y hb e f = rw (bit_or_shifted x (y / 4) 4 (omega arith)) (omega arith)

third_byte : (c y : ℕ) → c < 256 → y % 4 ≡ c / 64 → u8 (bit_or (y * 2 ^ 6) (c % 64)) ≡ c
third_byte c y hc e = rw (bit_or_shifted y (c % 64) 6 (omega arith)) (omega arith)

-- Where a group begins: nothing is stored, and all groups before it were whole.
record AtGroup (size : ℕ) (s : Decoder) : Type 0 where
  empty : s.base64data ≡ []
  whole : s.n % 4 ≡ 0
  three : s.bytes_written * 4 ≡ s.n * 3
  fits : s.bytes_written ≤ size

abbrev after_group : ℕ → ℕ → Bytes → Round → Decoder
after_group max size rest r = elim r [ next s ↦ loop max size rest s | stop s ↦ s ]

abbrev fill : Decoder → Bytes → Decoder
fill s chars = record s { base64data = chars; n = s.n + 4 }

abbrev keep_char : Decoder → ℕ → Decoder
keep_char s c = record s { base64data = s.base64data ++ (c ∷ []); n = s.n + 1 }

loop_char :
    (max size c : ℕ) (rest : Bytes) (s : Decoder)
    → s.n < max
    → (table_value c == 100) ≡ false
    → ((s.n + 1) % 4 == 0) ≡ false
    → loop max size (c ∷ rest) s ≡ loop max size rest (keep_char s c)
unfolding loop step
loop_char max size c rest s h p q = ground arith

loop_fourth :
    (max size c : ℕ) (rest : Bytes) (s : Decoder)
    → s.n < max
    → (table_value c == 100) ≡ false
    → ((s.n + 1) % 4 == 0) ≡ true
    → loop max size (c ∷ rest) s ≡ after_group max size rest (decode_group size (keep_char s c))
unfolding loop step
loop_fourth max size c rest s h p q = ground arith

-- Four alphabet characters at the start of a group are handed on together.
loop_group :
    (max size w x y z : ℕ) (rest : Bytes) (s : Decoder)
    → AtGroup size s
    → s.n + 3 < max
    → (table_value w == 100) ≡ false
    → (table_value x == 100) ≡ false
    → (table_value y == 100) ≡ false
    → (table_value z == 100) ≡ false
    → loop max size (w ∷ x ∷ y ∷ z ∷ rest) s
      ≡ after_group max size rest (decode_group size (fill s (w ∷ x ∷ y ∷ z ∷ [])))
loop_group max size w x y z rest s g h pw px py pz =
    let s1 = keep_char s w in
    let s2 = keep_char s1 x in
    let s3 = keep_char s2 y in
    loop_char max size w (x ∷ y ∷ z ∷ rest) s (omega arith) pw (ground (arith, g.whole))
    ∙ loop_char max size x (y ∷ z ∷ rest) s1 (omega arith) px (ground (arith, g.whole))
    ∙ loop_char max size y (z ∷ rest) s2 (omega arith) py (ground (arith, g.whole))
    ∙ loop_fourth max size z rest s3 (omega arith) pz (ground (arith, g.whole))
    ∙ ap (λ t. after_group max size rest (decode_group size t)) filled
  where
    filled : keep_char (keep_char (keep_char (keep_char s w) x) y) z ≡ fill s (w ∷ x ∷ y ∷ z ∷ [])
    filled = ground (arith, g.empty)

-- What a decoder that stores the bytes of `bs` in the room left has in the end.
abbrev Delivers : ℕ → Decoder → Bytes → Decoder → Type 0
Delivers room s bs r = (r.out ≡ s.out ++ take room bs) × (r.error ≡ s.error)

-- The state behind a whole group of the bytes `a b c`.
abbrev passed : Decoder → ℕ → ℕ → ℕ → Decoder
passed s a b c = record s {
  base64data = [];
  n = s.n + 4;
  bytes_written = s.bytes_written + 1 + 1 + 1;
  out = ((s.out ++ (a ∷ [])) ++ (b ∷ [])) ++ (c ∷ []);
}

module _ (max size w x y z : ℕ) (rest : Bytes) (s : Decoder) (pw : (w == b'=') ≡ false)
    (px : (x == b'=') ≡ false) where
  abbrev group : Decoder
  group = after_group max size rest (decode_group size (fill s (w ∷ x ∷ y ∷ z ∷ [])))

  module _ (a : ℕ) (pa : u8 (bit_or (table_value w * 2 ^ 2) (table_value x / 2 ^ 4)) ≡ a) where
    group_one :
        (room : ℕ)
        → size ≡ s.bytes_written + room
        → (y == b'=') ≡ true
        → Delivers room s (a ∷ []) group
    unfolding decode_group put_byte
    group_one zero e py = ground (arith, append-nil s.out)
    group_one (suc room) e py = ground (arith, take-nil ℕ room)

    module _ (b : ℕ) (pb : u8 (bit_or (table_value x * 2 ^ 4) (table_value y / 2 ^ 2)) ≡ b)
        (py : (y == b'=') ≡ false) where
      group_two :
          (room : ℕ)
          → size ≡ s.bytes_written + room
          → (z == b'=') ≡ true
          → Delivers room s (a ∷ b ∷ []) group
      unfolding decode_group put_byte
      group_two zero e pz = ground (arith, append-nil s.out)
      group_two (suc zero) e pz = ground arith
      group_two (suc (suc room)) e pz =
          ground (arith, take-nil ℕ room, append_assoc s.out (a ∷ []) (b ∷ []))

      group_three :
          (c : ℕ) (cs : Bytes) (room : ℕ)
          → u8 (bit_or (table_value y * 2 ^ 6) (table_value z)) ≡ c
          → size ≡ s.bytes_written + room
          → (z == b'=') ≡ false
          → ((k : ℕ)
              → room ≡ 3 + k
              → Delivers k (passed s a b c) cs (loop max size rest (passed s a b c)))
          → Delivers room s (a ∷ b ∷ c ∷ cs) group
      unfolding decode_group put_byte
      group_three c cs zero pc e pz ih = ground (arith, append-nil s.out)
      group_three c cs (suc zero) pc e pz ih = ground arith
      group_three c cs (suc (suc zero)) pc e pz ih =
          ground (arith, append_assoc s.out (a ∷ []) (b ∷ []))
      group_three c cs (suc (suc (suc room))) pc e pz ih = ground (
        arith,
        ih room (omega arith),
        append_assoc s.out (a ∷ []) (b ∷ []),
        append_assoc s.out (a ∷ b ∷ []) (c ∷ []),
        append_assoc s.out (a ∷ b ∷ c ∷ []) (take room cs),
      )

loop-encode64 :
    (max size room : ℕ) (bs : Bytes) (s : Decoder)
    → AtGroup size s
    → All IsByte bs
    → size / 3 * 4 + 4 ≤ max
    → size ≡ s.bytes_written + room
    → Delivers room s bs (loop max size (encode64 bs) s)
unfolding encode64
loop-encode64 max size room [] s g h m e =
    unfold loop in ground (arith, take-nil ℕ room, append-nil s.out)
loop-encode64 max size room (a ∷ []) s g h m e =
    let w = digit64 (a / 4) in
    let x = digit64 (a % 4 * 16) in
    let px = char_ok (a % 4 * 16) (omega arith) in
    let pw = char_ok (a / 4) (omega arith) in
    rw (loop_group max size w x b'=' b'=' [] s g (omega arith) pw.1 px.1 (rw padding) (rw padding))
      (group_one max size w x b'=' b'=' [] s pw.0 px.0 a
        (rw (pw.2, px.2) (first_byte a (a % 4 * 16) (omega arith) (omega arith))) room e refl)
loop-encode64 max size room (a ∷ b ∷ []) s g h m e =
    let vx = a % 4 * 16 + b / 16 in
    let vy = b % 16 * 4 in
    let pw = char_ok (a / 4) (omega arith) in
    let px = char_ok vx (omega arith) in
    let py = char_ok vy (omega arith) in
    rw
      (loop_group max size (digit64 (a / 4)) (digit64 vx) (digit64 vy) b'=' [] s g (omega arith)
        pw.1 px.1 py.1 (rw padding))
      (group_two max size (digit64 (a / 4)) (digit64 vx) (digit64 vy) b'=' [] s pw.0 px.0 a
        (rw (pw.2, px.2) (first_byte a vx (omega arith) (omega arith))) b
        (rw (px.2, py.2) (second_byte b vx vy (omega arith) (omega arith) (omega arith))) py.0 room
        e refl)
loop-encode64 max size room (a ∷ b ∷ c ∷ rest) s g h m e =
    let vx = a % 4 * 16 + b / 16 in
    let vy = b % 16 * 4 + c / 64 in
    let pw = char_ok (a / 4) (omega arith) in
    let px = char_ok vx (omega arith) in
    let py = char_ok vy (omega arith) in
    let pz = char_ok (c % 64) (omega arith) in
    rw
      (loop_group max size (digit64 (a / 4)) (digit64 vx) (digit64 vy) (digit64 (c % 64))
        (encode64 rest) s g (omega arith) pw.1 px.1 py.1 pz.1)
      (group_three max size (digit64 (a / 4)) (digit64 vx) (digit64 vy) (digit64 (c % 64))
        (encode64 rest) s pw.0 px.0 a
        (rw (pw.2, px.2) (first_byte a vx (omega arith) (omega arith))) b
        (rw (px.2, py.2) (second_byte b vx vy (omega arith) (omega arith) (omega arith))) py.0 c
        rest room (rw (py.2, pz.2) (third_byte c vy (omega arith) (omega arith))) e pz.0
        (λ k room_is.
          loop-encode64 max size k rest (passed s a b c)
            (record {
              empty = refl;
              whole = omega (arith, g.whole);
              three = omega (arith, g.three);
              fits = omega arith;
            })
            h.1.1.1 m (omega arith)))

decode_text :
    (bs : Bytes) (size : ℕ)
    → All IsByte bs
    → size < 2 ^ 31
    → let d = sf_base64decode (encode64 bs) size in
      (d.ret ≡ ok) × (d.out ≡ take size bs) × (d.bytes_written ≡ length (take size bs))
unfolding sf_base64decode
decode_text bs size h small =
    let made =
      loop-encode64 (max_base64_chars size) size size bs start
        (record { empty = refl; whole = refl; three = refl; fits = omega arith }) h (omega arith)
        (omega arith) in
    let counted = (sf_base64decode_bounds (encode64 bs) size).0 in
    (rw made.1, made.0, counted ∙ ap length made.0)

-- Base64 text of a byte string, with bytes outside the alphabet anywhere in it, decodes with no
-- error to as much of the string as the output buffer holds, and `*bytes_written` says how much.
pub sf_base64decode-encode64 :
    (bs inbuf : Bytes) (size : ℕ)
    → All IsByte bs
    → size < 2 ^ 31
    → keep is_base64 inbuf ≡ encode64 bs
    → let d = sf_base64decode inbuf size in
      (d.ret ≡ ok) × (d.out ≡ take size bs) × (d.bytes_written ≡ length (take size bs))
sf_base64decode-encode64 bs inbuf size h small text =
    rw (sf_base64decode-keep inbuf size, text) (decode_text bs size h small)
