-- ===== src/Base64.antt =====
-- Snort-POCAD/build/src/snort_dynamicsrc/sf_base64decode.c: the base64 decoder. The list `out` of
-- a state holds the bytes stored at `outbuf` so far, so `outbuf_ptr` is `outbuf` plus its length;
-- the input list is `inbuf[0 .. inbuf_size)`.
pub mod Bounds
pub mod Skips
pub mod RoundTrip
use in_free_time.Base.{ℕ, ◌+◌, ◌*◌, ◌/◌, ◌%◌, ◌^◌, bit_or, Bool, true, false, not}
use in_free_time.Base.{◌&&◌, ◌||◌, List, [], ◌∷◌, ◌++◌, Bytes, ltb, ◌==◌, if◌then◌else◌}
use in_free_time.Base.{get_or, replicate, u8, u32, Ret, ok, failed}

-- `sf_decode64tab`: 100 marks a byte that is skipped, 99 is the padding sign.
sf_decode64tab : List ℕ
sf_decode64tab =
    replicate 43 100
    ++ (62 ∷ 100 ∷ 100 ∷ 100 ∷ 63 ∷ 52 ∷ 53 ∷ 54 ∷ 55 ∷ 56 ∷ 57 ∷ 58 ∷ 59 ∷ 60 ∷ 61 ∷ [])
    ++ (100 ∷ 100 ∷ 100 ∷ 99 ∷ 100 ∷ 100 ∷ 100 ∷ [])
    ++ (0 ∷ 1 ∷ 2 ∷ 3 ∷ 4 ∷ 5 ∷ 6 ∷ 7 ∷ 8 ∷ 9 ∷ 10 ∷ 11 ∷ 12 ∷ 13 ∷ 14 ∷ 15 ∷ 16 ∷ 17 ∷ 18 ∷ [])
    ++ (19 ∷ 20 ∷ 21 ∷ 22 ∷ 23 ∷ 24 ∷ 25 ∷ [])
    ++ replicate 6 100
    ++ (26 ∷ 27 ∷ 28 ∷ 29 ∷ 30 ∷ 31 ∷ 32 ∷ 33 ∷ 34 ∷ 35 ∷ 36 ∷ 37 ∷ 38 ∷ 39 ∷ 40 ∷ 41 ∷ 42 ∷ [])
    ++ (43 ∷ 44 ∷ 45 ∷ 46 ∷ 47 ∷ 48 ∷ 49 ∷ 50 ∷ 51 ∷ [])
    ++ replicate 133 100

unfoldable pub table_value : ℕ → ℕ
unfolding sf_decode64tab
table_value c = get_or sf_decode64tab c 100

-- `base64data` up to `base64data_ptr`, the counters `n` and `*bytes_written`, and `error`.
pub record Decoder : Type 0 where
  pub base64data : Bytes
  pub n : ℕ
  pub bytes_written : ℕ
  pub out : Bytes
  pub error : Bool

-- One round of the loop goes on or breaks.
pub data Round : Type 0 where
  next stop : Decoder → Round

unfoldable pub put_byte : ℕ → Decoder → Decoder
put_byte b s = record s { out = s.out ++ (u8 b ∷ []); bytes_written = s.bytes_written + 1 }

abbrev pub max_base64_chars : ℕ → ℕ
max_base64_chars outbuf_size = u32 (outbuf_size / 3 * 4 + 4)

-- The work on four stored characters, with the output size.
unfoldable pub decode_group : ℕ → Decoder → Round
decode_group outbuf_size s =
    let a = get_or s.base64data 0 0 in
    let b = get_or s.base64data 1 0 in
    let c = get_or s.base64data 2 0 in
    let d = get_or s.base64data 3 0 in
    let va = table_value a in
    let vb = table_value b in
    let vc = table_value c in
    let vd = table_value d in
    let s1 =
      if ltb s.bytes_written outbuf_size
      then put_byte (bit_or (va * 2 ^ 2) (vb / 2 ^ 4)) s
      else s in
    let s2 = put_byte (bit_or (vb * 2 ^ 4) (vc / 2 ^ 2)) s1 in
    let s3 = put_byte (bit_or (vc * 2 ^ 6) vd) s2 in
    if a == b'=' || b == b'='
    then stop (record s { error = true })
    else if not (c == b'=') && ltb s1.bytes_written outbuf_size
    then (if not (d == b'=') && ltb s2.bytes_written outbuf_size
        then next (record s3 { base64data = [] })
        else stop s2)
    else stop s1

unfoldable pub step : ℕ → Decoder → ℕ → Round
step outbuf_size s c =
    let s' = record s { base64data = s.base64data ++ (c ∷ []); n = s.n + 1 } in
    if table_value c == 100
    then next s
    else if s'.n % 4 == 0
    then decode_group outbuf_size s'
    else next s'

-- The `while` loop over the unread input; `max` is `max_base64_chars`.
unfoldable pub loop : ℕ → ℕ → Bytes → Decoder → Decoder
loop max outbuf_size [] s = s
loop max outbuf_size (c ∷ cs) s = elim (ltb s.n max) [
  | true ↦ elim (step outbuf_size s c) [ next s' ↦ loop max outbuf_size cs s' | stop s' ↦ s' ]
  | false ↦ s
]

abbrev pub start : Decoder
start = record { base64data = []; n = 0; bytes_written = 0; out = []; error = false }

pub record Decoded : Type 0 where
  pub ret : Ret
  pub bytes_written : ℕ
  pub out : Bytes

unfoldable pub sf_base64decode : Bytes → ℕ → Decoded
sf_base64decode inbuf outbuf_size =
    let s = loop (max_base64_chars outbuf_size) outbuf_size inbuf start in
    record { ret = if s.error then failed else ok; bytes_written = s.bytes_written; out = s.out }
