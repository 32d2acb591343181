-- ===== src/Unfold/StripCrlf.antt =====
-- What `sf_strip_CRLF` computes.
use mathlib.Core.List.{append-nil, append_assoc}
use in_free_time.Base.{ℕ, zero, suc, ◌+◌, ◌≡◌, refl, Bool, true, not}
use in_free_time.Base.{[], ◌∷◌, ◌++◌, arith, Bytes, keep, take, take-nil, some, ok}
use in_free_time.Unfold.{strip_crlf_loop, sf_strip_crlf, is_line_end}

-- The bytes that are no line end.
pub is_text : ℕ → Bool
is_text c = not (is_line_end c)

strip_crlf_loop-keep :
    (size room n : ℕ) (cs out : Bytes)
    → size ≡ n + room
    → strip_crlf_loop size cs n out ≡ out ++ take room (keep is_text cs)
unfolding strip_crlf_loop is_text
strip_crlf_loop-keep size room n [] out e = ground (arith, take-nil ℕ room, append-nil out)
strip_crlf_loop-keep size zero n (c ∷ cs) out e = ground (arith, append-nil out)
strip_crlf_loop-keep size (suc room) n (c ∷ cs) out e = ground (
  arith,
  strip_crlf_loop-keep size (suc room) n cs out e,
  strip_crlf_loop-keep size room (n + 1) cs (out ++ (c ∷ [])) (omega arith),
  append_assoc out (c ∷ []) (take room (keep is_text cs)),
)

-- `sf_strip_CRLF` stores the bytes that are no carriage return or line feed, in order, as many as
-- the output buffer holds.
pub sf_strip_crlf-keep :
    (inbuf : Bytes) (size : ℕ)
    → let r = sf_strip_crlf (some inbuf) true size in
      (r.ret ≡ ok) × (r.out ≡ take size (keep is_text inbuf))
unfolding sf_strip_crlf
sf_strip_crlf-keep inbuf size = (refl, strip_crlf_loop-keep size size 0 inbuf [] (omega arith))
