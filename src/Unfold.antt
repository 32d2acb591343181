-- ===== src/Unfold.antt =====
-- Snort-POCAD/build/src/snort_dynamicsrc/util_unfold.c: removal of header folding, of line ends,
-- and of blanks before line ends. Input lists are `inbuf[0 .. inbuf_size)`; `none` is NULL.
pub mod StripCrlf
pub mod StripLws
pub mod Header
use mathlib.Core.List.{reverse}
use in_free_time.Base.{ℕ, zero, suc, ◌+◌, ◌-◌, ◌%◌, ◌^◌, Bool, true, false, not, ◌&&◌, ◌||◌}
use in_free_time.Base.{List, [], ◌∷◌, ◌++◌, Bytes, length, set, ltb, ◌==◌, if◌then◌else◌}
use in_free_time.Base.{Option, none, some, Ret, ok, failed}

abbrev pub is_blank : ℕ → Bool
is_blank c = c == b' ' || c == b'\t'

abbrev pub is_line_end : ℕ → Bool
is_line_end c = c == b'\n' || c == b'\r'

-- The output of the strip functions; `*output_bytes` is the length of `out`.
pub record Stripped : Type 0 where
  pub ret : Ret
  pub out : Bytes

abbrev pub refused : Stripped
refused = record { ret = failed; out = [] }

-- The loop of `sf_strip_CRLF`, with the bytes stored so far and their count `n`.
unfoldable pub strip_crlf_loop : ℕ → Bytes → ℕ → Bytes → Bytes
strip_crlf_loop size [] n out = out
strip_crlf_loop size (c ∷ cs) n out = elim (ltb n size) [
  | true ↦ elim (is_line_end c) [
    | true ↦ strip_crlf_loop size cs n out
    | false ↦ strip_crlf_loop size cs (n + 1) (out ++ (c ∷ []))
  ]
  | false ↦ out
]

-- The flag says that `outbuf` is not NULL.
unfoldable pub sf_strip_crlf : Option Bytes → Bool → ℕ → Stripped
sf_strip_crlf (some inbuf) true size = record { ret = ok; out = strip_crlf_loop size inbuf 0 [] }
sf_strip_crlf none outbuf size = refused
sf_strip_crlf (some inbuf) false size = refused

-- The bytes before `outbuf_ptr`, the latest first, with `n` and the flag `lws`.
pub record LwsState : Type 0 where
  pub before : Bytes
  pub n : ℕ
  pub lws : Bool

-- `while (n > 0) { if (last is no blank) break; n--; outbuf_ptr--; }`
unfoldable pub pop_blanks : ℕ → Bytes → LwsState
pop_blanks zero before = record { before = before; n = 0; lws = false }
pop_blanks (suc n) [] = record { before = []; n = suc n; lws = false }
pop_blanks (suc n) (c ∷ before) =
    if is_blank c
    then pop_blanks n before
    else record { before = c ∷ before; n = suc n; lws = false }

unfoldable pub lws_step : LwsState → ℕ → LwsState
lws_step s c =
    let trimmed = if s.lws then pop_blanks s.n s.before else s in
    if is_line_end c
    then record trimmed { before = c ∷ trimmed.before; n = trimmed.n + 1 }
    else record { before = c ∷ s.before; n = s.n + 1; lws = is_blank c }

unfoldable pub strip_lws_loop : ℕ → Bytes → LwsState → LwsState
strip_lws_loop size [] s = s
strip_lws_loop size (c ∷ cs) s = elim (ltb s.n size) [
  | true ↦ strip_lws_loop size cs (lws_step s c)
  | false ↦ s
]

abbrev pub lws_start : LwsState
lws_start = record { before = []; n = 0; lws = false }

unfoldable pub sf_strip_lws : Option Bytes → Bool → ℕ → Stripped
sf_strip_lws (some inbuf) true size = record {
  ret = ok;
  out = reverse (strip_lws_loop size inbuf lws_start).before;
}
sf_strip_lws none outbuf size = refused
sf_strip_lws (some inbuf) false size = refused

-- The variables of `sf_unfold_header`. `folding` is `httpheaderfolding`: 1 behind a line feed,
-- 2 behind a carriage return. `out` is what was stored from `outbuf` on, in order.
pub record Unfolding : Type 0 where
  pub num_spaces : ℕ
  pub n : ℕ
  pub folding : ℕ
  pub folding_present : Bool
  pub out : Bytes

-- A round of the loop goes on, or finds the end of the header and breaks.
pub data Line : Type 0 where
  more : Unfolding → Line
  end_of_header : Unfolding → Line

-- The branch of a blank or tab.
abbrev pub blank_step : Bool → Unfolding → ℕ → Unfolding
blank_step trim_spaces s c =
    let spaces = if s.folding_present then s.num_spaces + 1 else s.num_spaces in
    if not (s.folding == 0)
    then record s { num_spaces = spaces + 1; folding_present = true; folding = 0 }
    else if trim_spaces
    then record s { num_spaces = spaces }
    else record s { num_spaces = spaces; out = s.out ++ (c ∷ []) }

unfoldable pub header_step : Bool → Unfolding → ℕ → Line
header_step trim_spaces s c =
    if is_blank c
    then more (blank_step trim_spaces s c)
    else if c == b'\n' && not (s.folding == 1)
    then more (record s { folding = 1 })
    else if c == b'\r' && s.folding == 0
    then more (record s { folding = 2 })
    else if s.folding == 0
    then more (record s { out = s.out ++ (c ∷ []); n = s.n + 1 })
    else end_of_header s

unfoldable pub header_loop : Bool → ℕ → Bytes → Unfolding → Unfolding
header_loop trim_spaces size [] s = s
header_loop trim_spaces size (c ∷ cs) s = elim (ltb s.n size) [
  | true ↦ elim (header_step trim_spaces s c) [
    | more s' ↦ header_loop trim_spaces size cs s'
    | end_of_header s' ↦ s'
  ]
  | false ↦ s
]

abbrev pub header_start : Unfolding
header_start = record { num_spaces = 0; n = 0; folding = 0; folding_present = false; out = [] }

-- `text` is what stands from `outbuf` on, the closing zero included. Where the count is at the
-- size, the zero goes to index `outbuf_size - 1` (of 32 bits), over what stands there.
pub record UnfoldedHeader : Type 0 where
  pub output_bytes : ℕ
  pub folded : ℕ
  pub text : Bytes

unfoldable pub sf_unfold_header : Bytes → ℕ → Bool → UnfoldedHeader
sf_unfold_header inbuf size trim_spaces =
    let s = header_loop trim_spaces size inbuf header_start in
    record {
      output_bytes = length s.out;
      folded = s.num_spaces;
      text = if ltb s.n size then s.out ++ (0 ∷ []) else set s.out ((size + 2 ^ 32 - 1) % 2 ^ 32) 0;
    }
