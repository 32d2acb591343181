-- ===== src/Unfold/StripLws.antt =====
-- What `sf_strip_LWS` computes.
use mathlib.Core.List.{append-nil, append_assoc, reverse, reverse-append}
use in_free_time.Base.{ℕ, ◌+◌, ◌≤◌, ◌<◌, ◌≡◌, refl, sym, ap, ◌∙◌, Bool, true, false, ◌&&◌}
use in_free_time.Base.{[], ◌∷◌, ◌++◌, arith, Bytes, length, length-reverse, some, ok, if◌then◌else◌}
use in_free_time.Unfold.{LwsState, pop_blanks, lws_step, strip_lws_loop, lws_start, sf_strip_lws}
use in_free_time.Unfold.{is_line_end, is_blank}

-- Whether the text goes on with a line end, some blanks before it or none.
pub line_ends : Bytes → Bool
line_ends [] = false
line_ends (c ∷ cs) =
    let rest = line_ends cs in if is_line_end c then true else if is_blank c then rest else false

-- The text without the blanks that stand before a line end.
pub without_lws : Bytes → Bytes
without_lws [] = []
without_lws (c ∷ cs) =
    let rest = without_lws cs in if is_blank c && line_ends cs then rest else c ∷ rest

-- A stack without the blanks on top.
popped : Bytes → Bytes
popped [] = []
popped (c ∷ cs) = let rest = popped cs in if is_blank c then rest else c ∷ cs

top_blank : Bytes → Bool
top_blank [] = false
top_blank (c ∷ cs) = is_blank c

record IsStack (s : LwsState) : Type 0 where
  counts : s.n ≡ length s.before
  flag : s.lws ≡ top_blank s.before

pop_blanks-popped :
    (before : Bytes)
    → let t = pop_blanks (length before) before in
      (t.before ≡ popped before)
      × (t.n ≡ length (popped before))
      × (t.lws ≡ false)
      × (length (popped before) ≤ length before)
unfolding pop_blanks popped
pop_blanks-popped [] = (refl, refl, refl, omega arith)
pop_blanks-popped (c ∷ before) = ground (arith, pop_blanks-popped before)

popped_same : (before : Bytes) → top_blank before ≡ false → popped before ≡ before
unfolding popped top_blank
popped_same [] h = refl
popped_same (c ∷ before) h = ground arith

lws_start-IsStack : IsStack lws_start
unfolding top_blank
lws_start-IsStack = record { counts = refl; flag = refl }

lws_step-IsStack : (s : LwsState) (c : ℕ) → IsStack s → IsStack (lws_step s c)
unfolding lws_step top_blank
lws_step-IsStack s c v = rw v.counts (ground (arith, pop_blanks-popped s.before))

-- What the loop has in the end, if the text ahead is `cs`.
abbrev resolved : Bytes → Bytes → Bytes
resolved before cs = reverse (if line_ends cs then popped before else before) ++ without_lws cs

reverse-cons_append : (c : ℕ) (xs ys : Bytes) → reverse (c ∷ xs) ++ ys ≡ reverse xs ++ (c ∷ ys)
reverse-cons_append c xs ys =
    ap (λ t. t ++ ys) (reverse-append (c ∷ []) xs) ∙ append_assoc (reverse xs) (c ∷ []) ys

lws_step-resolved :
    (s : LwsState) (c : ℕ) (cs : Bytes)
    → IsStack s
    → resolved (lws_step s c).before cs ≡ resolved s.before (c ∷ cs)
unfolding lws_step line_ends without_lws popped top_blank
lws_step-resolved s c cs v = rw v.counts (
    ground (
      arith,
      pop_blanks-popped s.before,
      popped_same s.before,
      reverse-cons_append c s.before (without_lws cs),
      reverse-cons_append c (popped s.before) (without_lws cs),
    ))

length-lws_step :
    (s : LwsState) (c : ℕ) → IsStack s → length (lws_step s c).before ≤ length s.before + 1
unfolding lws_step
length-lws_step s c v = rw v.counts (ground (arith, pop_blanks-popped s.before))

strip_lws_loop-cons :
    (size c : ℕ) (cs : Bytes) (s : LwsState)
    → s.n < size
    → strip_lws_loop size (c ∷ cs) s ≡ strip_lws_loop size cs (lws_step s c)
unfolding strip_lws_loop
strip_lws_loop-cons size c cs s h = ground arith

strip_lws_loop-resolved :
    (size : ℕ) (cs : Bytes) (s : LwsState)
    → IsStack s
    → length s.before + length cs ≤ size
    → reverse (strip_lws_loop size cs s).before ≡ resolved s.before cs
strip_lws_loop-resolved size [] s v h =
    unfold strip_lws_loop line_ends without_lws in sym (append-nil (reverse s.before))
strip_lws_loop-resolved size (c ∷ cs) s v h =
    rw (strip_lws_loop-cons size c cs s (omega (arith, v.counts))) (
      strip_lws_loop-resolved size cs (lws_step s c) (lws_step-IsStack s c v)
        (omega (arith, length-lws_step s c v))
      ∙ lws_step-resolved s c cs v)

-- If the output buffer is no smaller than the input, `sf_strip_LWS` stores the input without the
-- blanks and tabs that stand before a carriage return or line feed.
pub sf_strip_lws-without_lws :
    (inbuf : Bytes) (size : ℕ)
    → length inbuf ≤ size
    → let r = sf_strip_lws (some inbuf) true size in (r.ret ≡ ok) × (r.out ≡ without_lws inbuf)
unfolding sf_strip_lws
sf_strip_lws-without_lws inbuf size h = (
  refl,
  strip_lws_loop-resolved size inbuf lws_start lws_start-IsStack (omega arith)
      ∙ unfold popped in ground arith,
)

strip_lws_loop-IsStack :
    (size : ℕ) (cs : Bytes) (s : LwsState)
    → IsStack s
    → s.n ≤ size
    → let t = strip_lws_loop size cs s in IsStack t × (t.n ≤ size)
unfolding strip_lws_loop
strip_lws_loop-IsStack size [] s v h = (v, h)
strip_lws_loop-IsStack size (c ∷ cs) s v h = ground (
  arith,
  lws_step-IsStack s c v,
  length-lws_step s c v,
  v.counts,
  strip_lws_loop-IsStack size cs (lws_step s c),
)

-- `sf_strip_LWS` never stores past the output buffer.
pub length-sf_strip_lws :
    (inbuf : Bytes) (size : ℕ) → length (sf_strip_lws (some inbuf) true size).out ≤ size
unfolding sf_strip_lws
length-sf_strip_lws inbuf size =
    let (v, fits) = strip_lws_loop-IsStack size inbuf lws_start lws_start-IsStack (omega arith) in
    omega (arith, v.counts, length-reverse (strip_lws_loop size inbuf lws_start).before)
