-- ===== src/Quoted/Bounds.antt =====
-- `sf_qpdecode` stays inside both buffers, and leaves at most two bytes unread while there is room.
use in_free_time.Base.{ℕ, ◌+◌, ◌*◌, ◌≤◌, ◌<◌, ◌≡◌, refl, Bool, true, [], ◌∷◌, arith}
use in_free_time.Base.{Bytes, length, ok, length-append, All, All-append, IsByte}
use in_free_time.Quoted.{
  Qp, is_plain, is_xdigit, xdigit_value, escape, hex, plain, skip, put, qp_loop,
}
use in_free_time.Quoted.{qp_start, sf_qpdecode}

-- With `k` bytes handed to the decoder so far, of which `bytes_read` are used up.
pub record IsWithin (dlen k : ℕ) (s : Qp) : Type 0 where
  pub counts : s.bytes_copied ≡ length s.out
  pub fits : s.bytes_copied ≤ dlen
  pub fewer : s.bytes_copied ≤ s.bytes_read
  pub read : s.bytes_read ≤ k
  pub bytes : All IsByte s.out

put-IsWithin :
    (dlen k j b : ℕ) (s : Qp)
    → IsWithin dlen k s
    → s.bytes_copied < dlen
    → b < 256
    → 1 ≤ j
    → s.bytes_read + j ≤ k
    → IsWithin dlen k (put j b s)
put-IsWithin dlen k j b s v h hb hj hk = record {
  counts = omega (arith, length-append s.out (b ∷ []), v.counts);
  fits = omega arith;
  fewer = omega (arith, v.fewer);
  read = hk;
  bytes = All-append IsByte s.out (b ∷ []) v.bytes (hb, tt);
}

xdigit_value-lt : (c : ℕ) → is_xdigit c ≡ true → xdigit_value c < 16
unfolding is_xdigit xdigit_value
xdigit_value-lt c h = ground arith

-- What the loop ensures from a state with all of `cs` ahead of it.
abbrev Ensures : ℕ → ℕ → Qp → Type 0
Ensures dlen k s = IsWithin dlen k s × (s.bytes_copied < dlen → k ≤ s.bytes_read + 2)

plain-IsWithin :
    (dlen k c : ℕ) (s : Qp)
    → IsWithin dlen k s
    → s.bytes_copied < dlen
    → s.bytes_read + 1 ≤ k
    → IsWithin dlen k (plain c s) × ((plain c s).bytes_read ≡ s.bytes_read + 1)
unfolding plain is_plain
plain-IsWithin dlen k c s v h hk = ground (arith, put-IsWithin dlen k 1 c s v h, v)

escape_hex : (d e : ℕ) → escape d e ≡ hex → xdigit_value d * 16 + xdigit_value e < 256
unfolding escape
escape_hex d e h = ground (arith, xdigit_value-lt d, xdigit_value-lt e)

qp_loop-Ensures :
    (dlen k : ℕ) (cs : Bytes) (s : Qp)
    → IsWithin dlen k s
    → k ≡ s.bytes_read + length cs
    → Ensures dlen k (qp_loop dlen cs s)
unfolding qp_loop
qp_loop-Ensures dlen k [] s v e = (v, λ room. omega arith)
qp_loop-Ensures dlen k (c ∷ []) s v e = ground (arith, v, plain-IsWithin dlen k c s v)
qp_loop-Ensures dlen k (c ∷ d ∷ []) s v e =
    ground (arith, v, plain-IsWithin dlen k c s v, qp_loop-Ensures dlen k (d ∷ []) (plain c s))
qp_loop-Ensures dlen k (c ∷ d ∷ e ∷ rest) s v p = ground (
  arith,
  v,
  plain-IsWithin dlen k c s v,
  escape_hex d e,
  put-IsWithin dlen k 1 c s v,
  put-IsWithin dlen k 3 (xdigit_value d * 16 + xdigit_value e) s v,
  qp_loop-Ensures dlen k (e ∷ rest) (skip 2 s),
  qp_loop-Ensures dlen k rest (skip 3 s),
  qp_loop-Ensures dlen k rest (put 3 (xdigit_value d * 16 + xdigit_value e) s),
  qp_loop-Ensures dlen k (d ∷ e ∷ rest) (put 1 c s),
  qp_loop-Ensures dlen k (d ∷ e ∷ rest) (plain c s),
)

-- On every input `sf_qpdecode` reads no more than the source, counts the bytes that it stores,
-- which are bytes and fit the destination, and stores no more than it reads. If it succeeds with
-- room left in the destination, at most two bytes of the source are unread.
pub sf_qpdecode_bounds :
    (pointers : Bool) (src : Bytes) (dlen : ℕ)
    → let r = sf_qpdecode pointers src dlen in
      IsWithin dlen (length src) r.state
      × (r.ret ≡ ok → r.state.bytes_copied < dlen → length src ≤ r.state.bytes_read + 2)
unfolding sf_qpdecode
sf_qpdecode_bounds pointers src dlen =
    let start : IsWithin dlen (length src) qp_start = record {
      counts = refl;
      fits = omega arith;
      fewer = omega arith;
      read = omega arith;
      bytes = tt;
    } in
    ground (arith, start, qp_loop-Ensures dlen (length src) src qp_start start (omega arith))
