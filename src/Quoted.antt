-- ===== src/Quoted.antt =====
-- `sf_qpdecode` of Snort-POCAD/build/src/snort_dynamicsrc/sf_email_attach_decode.c: the decoder of
-- quoted-printable text. The character tests are those of the C locale, where no byte above 126
-- is printable; `out` holds what was stored at `dst`.
pub mod Bounds
pub mod RoundTrip
use in_free_time.Base.{
  ℕ, suc, ◌+◌, ◌-◌, ◌*◌, Bool, true, false, not, ◌&&◌, ◌||◌, List, [], ◌∷◌, ◌++◌,
}
use in_free_time.Base.{Bytes, length, leb, ltb, ◌==◌, if◌then◌else◌, Ret, ok, failed}
use in_free_time.Unfold.{is_blank}

abbrev within : ℕ → ℕ → ℕ → Bool
within lo hi c = leb lo c && leb c hi

-- `isxdigit`, and what `strtoul` in base 16 makes of a digit.
unfoldable pub is_xdigit : ℕ → Bool
is_xdigit c = within b'0' b'9' c || within b'a' b'f' c || within b'A' b'F' c

unfoldable pub xdigit_value : ℕ → ℕ
xdigit_value c =
    if within b'0' b'9' c
    then c - b'0'
    else if within b'a' b'f' c
    then c - b'a' + 10
    else c - b'A' + 10

-- `isprint(ch) || isblank(ch) || ch == '\r' || ch == '\n'`
unfoldable pub is_plain : ℕ → Bool
is_plain c = within b' ' b'~' c || is_blank c || c == b'\r' || c == b'\n'

pub record Qp : Type 0 where
  pub bytes_read : ℕ
  pub bytes_copied : ℕ
  pub out : Bytes

abbrev pub skip : ℕ → Qp → Qp
skip k s = record s { bytes_read = s.bytes_read + k }

abbrev pub put : ℕ → ℕ → Qp → Qp
put k b s = record {
  bytes_read = s.bytes_read + k;
  bytes_copied = s.bytes_copied + 1;
  out = s.out ++ (b ∷ []);
}

-- What stands behind a `=` with two bytes or more after it.
pub data Escape : Type 0 where
  soft_newline soft_crlf hex literal : Escape

unfoldable pub escape : ℕ → ℕ → Escape
escape d e =
    if d == b'\n'
    then soft_newline
    else if d == b'\r' && e == b'\n'
    then soft_crlf
    else if is_xdigit d && is_xdigit e
    then hex
    else literal

-- The branch of a byte that is no `=`.
unfoldable pub plain : ℕ → Qp → Qp
plain c s = if is_plain c then put 1 c s else skip 1 s

-- The loop over what is unread. Both digits of an escape were tested, so `strtoul` stops at the
-- zero behind them and the `return -1` for any other end is not reached.
unfoldable pub qp_loop : ℕ → Bytes → Qp → Qp
qp_loop dlen [] s = s
qp_loop dlen (c ∷ []) s =
    if ltb s.bytes_copied dlen then (if c == b'=' then s else plain c s) else s
qp_loop dlen (c ∷ d ∷ []) s = elim (ltb s.bytes_copied dlen) [
  | true ↦ elim (c == b'=') [
    | true ↦ if d == b'\n' then skip 2 s else s
    | false ↦ qp_loop dlen (d ∷ []) (plain c s)
  ]
  | false ↦ s
]
qp_loop dlen (c ∷ d ∷ e ∷ rest) s = elim (ltb s.bytes_copied dlen) [
  | true ↦ elim (c == b'=') [
    | true ↦ elim (escape d e) [
      | soft_newline ↦ qp_loop dlen (e ∷ rest) (skip 2 s)
      | soft_crlf ↦ qp_loop dlen rest (skip 3 s)
      | hex ↦ qp_loop dlen rest (put 3 (xdigit_value d * 16 + xdigit_value e) s)
      | literal ↦ qp_loop dlen (d ∷ e ∷ rest) (put 1 c s)
    ]
    | false ↦ qp_loop dlen (d ∷ e ∷ rest) (plain c s)
  ]
  | false ↦ s
]

abbrev pub qp_start : Qp
qp_start = record { bytes_read = 0; bytes_copied = 0; out = [] }

pub record QpResult : Type 0 where
  pub ret : Ret
  pub state : Qp

-- `src` has `slen` bytes; the flag says that no pointer is NULL. A refusal leaves `*bytes_read`
-- and `*bytes_copied` as they are, here the zeros that the caller put there.
unfoldable pub sf_qpdecode : Bool → Bytes → ℕ → QpResult
sf_qpdecode pointers src dlen =
    if not pointers || length src == 0 || dlen == 0
    then record { ret = failed; state = qp_start }
    else record { ret = ok; state = qp_loop dlen src qp_start }
