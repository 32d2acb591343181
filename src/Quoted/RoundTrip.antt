-- ===== src/Quoted/RoundTrip.antt =====
-- `sf_qpdecode` reads back every quoted-printable text.
use mathlib.Core.List.{append-nil, append_assoc}
use in_free_time.Base.{ℕ, zero, suc, ◌+◌, ◌-◌, ◌/◌, ◌%◌, ◌≤◌, ◌<◌, ◌≡◌, ◌≢◌, refl, sym, ◌∙◌}
use in_free_time.Base.{true, false, List, [], ◌∷◌, ◌++◌, arith, Bytes, length, take, take-nil}
use in_free_time.Base.{ok, ltb, if◌then◌else◌, All}
use in_free_time.Quoted.{Qp, is_plain, is_xdigit, xdigit_value, escape, plain, skip, put, qp_loop}
use in_free_time.Quoted.{qp_start, sf_qpdecode}

-- The pieces that an encoder writes: a byte as it is, a byte in hexadecimal, and soft line breaks.
pub data Piece : Type 0 where
  text : ℕ → Piece
  quoted : ℕ → Piece
  break_crlf break_lf : Piece

abbrev pub IsPiece : Piece → Type 0
IsPiece (text c) = (is_plain c ≡ true) × (c ≢ b'=')
IsPiece (quoted b) = b < 256
IsPiece break_crlf = Unit {0}
IsPiece break_lf = Unit {0}

hex_digit : ℕ → ℕ
hex_digit v = if ltb v 10 then v + b'0' else v - 10 + b'A'

pub written : List Piece → Bytes
written [] = []
written (text c ∷ ps) = c ∷ written ps
written (quoted b ∷ ps) = b'=' ∷ hex_digit (b / 16) ∷ hex_digit (b % 16) ∷ written ps
written (break_crlf ∷ ps) = b'=' ∷ b'\r' ∷ b'\n' ∷ written ps
written (break_lf ∷ ps) = b'=' ∷ b'\n' ∷ written ps

pub meant : List Piece → Bytes
meant [] = []
meant (text c ∷ ps) = c ∷ meant ps
meant (quoted b ∷ ps) = b ∷ meant ps
meant (break_crlf ∷ ps) = meant ps
meant (break_lf ∷ ps) = meant ps

hex_digit_lem :
    (v : ℕ) → v < 16 → (is_xdigit (hex_digit v) ≡ true) × (xdigit_value (hex_digit v) ≡ v)
unfolding hex_digit is_xdigit xdigit_value
hex_digit_lem v h = ground arith

hex_digit_bounds : (v : ℕ) → v < 16 → b'0' ≤ hex_digit v
unfolding hex_digit
hex_digit_bounds v h = ground arith

qp_loop_full :
    (dlen : ℕ) (cs : Bytes) (s : Qp) → ltb s.bytes_copied dlen ≡ false → qp_loop dlen cs s ≡ s
unfolding qp_loop
qp_loop_full dlen [] s h = refl
qp_loop_full dlen (c ∷ []) s h = ground arith
qp_loop_full dlen (c ∷ d ∷ []) s h = ground arith
qp_loop_full dlen (c ∷ d ∷ e ∷ rest) s h = ground arith

module _ (dlen : ℕ) (rest : Bytes) (s : Qp) (h : s.bytes_copied < dlen) where
  qp_loop_break_crlf : qp_loop dlen (b'=' ∷ b'\r' ∷ b'\n' ∷ rest) s ≡ qp_loop dlen rest (skip 3 s)
  unfolding qp_loop escape
  qp_loop_break_crlf = ground arith

  qp_loop_quoted :
      (b : ℕ)
      → b < 256
      → qp_loop dlen (b'=' ∷ hex_digit (b / 16) ∷ hex_digit (b % 16) ∷ rest) s
        ≡ qp_loop dlen rest (put 3 b s)
  unfolding qp_loop escape
  qp_loop_quoted b hb =
      ground (arith, hex_digit_lem (b / 16), hex_digit_lem (b % 16), hex_digit_bounds (b / 16))

qp_loop_break_lf :
    (dlen : ℕ) (rest : Bytes) (s : Qp)
    → s.bytes_copied < dlen
    → qp_loop dlen (b'=' ∷ b'\n' ∷ rest) s ≡ qp_loop dlen rest (skip 2 s)
unfolding qp_loop escape
qp_loop_break_lf dlen [] s h = ground arith
qp_loop_break_lf dlen (e ∷ rest) s h = ground arith

qp_loop_text :
    (dlen c : ℕ) (rest : Bytes) (s : Qp)
    → s.bytes_copied < dlen
    → is_plain c ≡ true
    → c ≢ b'='
    → qp_loop dlen (c ∷ rest) s ≡ qp_loop dlen rest (put 1 c s)
unfolding qp_loop plain
qp_loop_text dlen c [] s h p ne = ground arith
qp_loop_text dlen c (d ∷ []) s h p ne = ground arith
qp_loop_text dlen c (d ∷ e ∷ rest) s h p ne = ground arith

-- What the loop has in the end over the text of `ps`, with room for `room` more bytes.
record Reads (room : ℕ) (ps : List Piece) (s t : Qp) : Type 0 where
  stored : t.out ≡ s.out ++ take room (meant ps)
  all_read : length (meant ps) < room → t.bytes_read ≡ s.bytes_read + length (written ps)

qp_loop-Reads :
    (dlen room : ℕ) (ps : List Piece) (s : Qp)
    → All IsPiece ps
    → dlen ≡ s.bytes_copied + room
    → Reads room ps s (qp_loop dlen (written ps) s)
unfolding written meant
qp_loop-Reads dlen room [] s v e =
    unfold qp_loop in
    record {
      stored = ground (arith, take-nil ℕ room, append-nil s.out);
      all_read = λ h. omega arith;
    }
qp_loop-Reads dlen zero (p ∷ ps) s v e =
    rw (qp_loop_full dlen (written (p ∷ ps)) s (ground arith))
      (record { stored = sym (append-nil s.out); all_read = λ h. absurd (omega arith) })
qp_loop-Reads dlen (suc room) (text c ∷ ps) s v e =
    let t = put 1 c s in
    let ih = qp_loop-Reads dlen room ps t v.1 (omega arith) in
    rw (qp_loop_text dlen c (written ps) s (omega arith) v.0.0 v.0.1) (record {
      stored = ih.stored ∙ append_assoc s.out (c ∷ []) (take room (meant ps));
      all_read = λ h. omega (arith, ih.all_read (omega arith));
    })
qp_loop-Reads dlen (suc room) (quoted b ∷ ps) s v e =
    let t = put 3 b s in
    let ih = qp_loop-Reads dlen room ps t v.1 (omega arith) in
    rw (qp_loop_quoted dlen (written ps) s (omega arith) b v.0) (record {
      stored = ih.stored ∙ append_assoc s.out (b ∷ []) (take room (meant ps));
      all_read = λ h. omega (arith, ih.all_read (omega arith));
    })
qp_loop-Reads dlen (suc room) (break_crlf ∷ ps) s v e =
    let ih = qp_loop-Reads dlen (suc room) ps (skip 3 s) v.1 e in
    rw (qp_loop_break_crlf dlen (written ps) s (omega arith))
      (record { stored = ih.stored; all_read = λ h. omega (arith, ih.all_read h) })
qp_loop-Reads dlen (suc room) (break_lf ∷ ps) s v e =
    let ih = qp_loop-Reads dlen (suc room) ps (skip 2 s) v.1 e in
    rw (qp_loop_break_lf dlen (written ps) s (omega arith))
      (record { stored = ih.stored; all_read = λ h. omega (arith, ih.all_read h) })

-- A quoted-printable text that is not empty (printable bytes as they are, any byte in hexadecimal,
-- soft line breaks of both kinds anywhere) decodes with success to as much of what it means as
-- the destination holds; with room to spare, the whole text is read.
pub sf_qpdecode-written :
    (ps : List Piece) (dlen : ℕ)
    → All IsPiece ps
    → ps ≢ []
    → 0 < dlen
    → let r = sf_qpdecode true (written ps) dlen in
      (r.ret ≡ ok)
      × (r.state.out ≡ take dlen (meant ps))
      × (length (meant ps) < dlen → r.state.bytes_read ≡ length (written ps))
unfolding sf_qpdecode
sf_qpdecode-written [] dlen v ne pos = absurd (ne refl)
sf_qpdecode-written (p ∷ ps) dlen v ne pos =
    let done = qp_loop-Reads dlen dlen (p ∷ ps) qp_start v (omega arith) in
    ground (arith, written_pos p ps, done.stored, done.all_read)
  where
    written_pos : (p : Piece) (ps : List Piece) → 0 < length (written (p ∷ ps))
    written_pos p ps = unfold written in ground arith
