-- ===== src/Unfold/Header.antt =====
-- What `sf_unfold_header` stores: the joined lines of a folded header, within the buffer when
-- blanks are trimmed, and past its end when blanks are kept.
use mathlib.Core.List.{append-nil, append_assoc}
use in_free_time.Base.{
  ℕ, ◌+◌, ◌-◌, ◌%◌, ◌^◌, ◌≤◌, ◌<◌, ◌≡◌, refl, sym, ◌∙◌, Bool, true, false, not, ◌&&◌,
}
use in_free_time.Base.{
  List, [], ◌∷◌, ◌++◌, arith, Bytes, length, length-append, length-set, keep-append,
  length-keep-append,
}
use in_free_time.Base.{All, keep, if◌then◌else◌, ◌||◌}
use in_free_time.Unfold.{is_blank, is_line_end, Unfolding, Line, more, end_of_header, blank_step}
use in_free_time.Unfold.{header_step, header_loop, header_start, sf_unfold_header}

-- With trimming, each stored byte is counted.
abbrev Counted : ℕ → Unfolding → Type 0
Counted size s = (s.n ≡ length s.out) × (s.n ≤ size)

abbrev LineCounted : ℕ → Line → Type 0
LineCounted size (more s) = Counted size s
LineCounted size (end_of_header s) = Counted size s

header_step-Counted :
    (size c : ℕ) (s : Unfolding)
    → Counted size s
    → s.n < size
    → LineCounted size (header_step true s c)
unfolding header_step
header_step-Counted size c s v h = ground (arith, length-append s.out (c ∷ []))

header_loop-Counted :
    (size : ℕ) (cs : Bytes) (s : Unfolding)
    → Counted size s
    → Counted size (header_loop true size cs s)
unfolding header_loop
header_loop-Counted size [] s v = v
header_loop-Counted size (c ∷ cs) s v =
    grind (arith, header_step-Counted size c s v, header_loop-Counted size cs)

-- When blanks are trimmed, `sf_unfold_header` stays in a buffer that is not empty, with the
-- closing zero, and reports no more bytes than it holds.
pub sf_unfold_header_trimmed :
    (inbuf : Bytes) (size : ℕ)
    → 0 < size
    → let h = sf_unfold_header inbuf size true in (h.output_bytes ≤ size) × (length h.text ≤ size)
unfolding sf_unfold_header
sf_unfold_header_trimmed inbuf size pos =
    let s = header_loop true size inbuf header_start in
    let v = header_loop-Counted size inbuf header_start (omega arith, omega arith) in
    let last = (size + 2 ^ 32 - 1) % 2 ^ 32 in
    (
      omega (arith, v.0, v.1),
      ground (arith, v, length-append s.out (0 ∷ []), length-set s.out last 0),
    )

abbrev IsBlank : ℕ → Type 0
IsBlank c = is_blank c ≡ true

header_loop_blanks :
    (size : ℕ) (cs : Bytes) (s : Unfolding)
    → All IsBlank cs
    → s.n < size
    → s.folding ≡ 0
    → let t = header_loop false size cs s in (t.out ≡ s.out ++ cs) × (t.n ≡ s.n)
unfolding header_loop header_step
header_loop_blanks size [] s b h f = (sym (append-nil s.out), refl)
header_loop_blanks size (c ∷ cs) s b h f =
    ground
      (arith, header_loop_blanks size cs (blank_step false s c) b.1, append_assoc s.out (c ∷ []) cs)

-- Blanks and tabs are stored without being counted when they are not trimmed: any number of them
-- is written from `outbuf` on, with a zero behind them, however small the buffer is.
pub sf_unfold_header_overrun :
    (blanks : Bytes) (size : ℕ)
    → All IsBlank blanks
    → 0 < size
    → let h = sf_unfold_header blanks size false in
      (h.text ≡ blanks ++ (0 ∷ [])) × (h.output_bytes ≡ length blanks)
unfolding sf_unfold_header
sf_unfold_header_overrun blanks size b pos =
    ground (arith, header_loop_blanks size blanks header_start b pos refl)

-- The bytes of a line that are stored.
pub is_stored : Bool → ℕ → Bool
is_stored trim_spaces c = not (trim_spaces && is_blank c)

-- The bytes of a line that are counted.
unfoldable pub is_counted : ℕ → Bool
is_counted c = not (is_blank c)

abbrev pub IsLineText : ℕ → Type 0
IsLineText c = is_line_end c ≡ false

-- Lines that go on the one before, then a line that does not.
pub continued : List Bytes → Bytes → Bytes
continued [] next = b'\r' ∷ b'\n' ∷ next
continued (line ∷ lines) next = b'\r' ∷ b'\n' ∷ b' ' ∷ (line ++ continued lines next)

unfoldable pub joined : List Bytes → Bytes
joined [] = []
joined (line ∷ lines) = line ++ joined lines

-- The state behind the text of a line.
abbrev after_byte : Bool → Unfolding → ℕ → Unfolding
after_byte trim s c =
    if is_blank c then blank_step trim s c else record s { out = s.out ++ (c ∷ []); n = s.n + 1 }

after_line : Bool → Unfolding → Bytes → Unfolding
after_line trim s [] = s
after_line trim s (c ∷ cs) = after_line trim (after_byte trim s c) cs

header_loop-line :
    (trim : Bool) (size : ℕ) (line rest : Bytes) (s : Unfolding)
    → All IsLineText line
    → s.folding ≡ 0
    → s.n + length (keep is_counted line) < size
    → header_loop trim size (line ++ rest) s ≡ header_loop trim size rest (after_line trim s line)
unfolding header_loop header_step after_line is_counted
header_loop-line trim size [] rest s t f h = refl
header_loop-line trim size (c ∷ cs) rest s t f h =
    ground (arith, header_loop-line trim size cs rest (after_byte trim s c) t.1)

after_line_lem :
    (trim : Bool) (s : Unfolding) (line : Bytes)
    → s.folding ≡ 0
    → let r = after_line trim s line in
      (r.out ≡ s.out ++ keep (is_stored trim) line)
      × (r.n ≡ s.n + length (keep is_counted line))
      × (r.folding ≡ 0)
unfolding after_line is_counted is_stored
after_line_lem trim s [] f = (sym (append-nil s.out), omega arith, f)
after_line_lem trim s (c ∷ cs) f = ground (
  arith,
  after_line_lem trim (after_byte trim s c) cs,
  append_assoc s.out (c ∷ []) (keep (is_stored trim) cs),
)

-- The state behind a line end and the blank that folds the next line.
abbrev after_fold : Unfolding → Unfolding
after_fold s = blank_step true (record s { folding = 1 }) b' '

header_loop-fold :
    (trim : Bool) (size : ℕ) (rest : Bytes) (s : Unfolding)
    → s.folding ≡ 0
    → s.n < size
    → header_loop trim size (b'\r' ∷ b'\n' ∷ b' ' ∷ rest) s
      ≡ header_loop trim size rest (after_fold s)
unfolding header_loop header_step
header_loop-fold trim size rest s f h = ground arith

header_loop-end :
    (trim : Bool) (size x : ℕ) (rest : Bytes) (s : Unfolding)
    → s.folding ≡ 0
    → s.n < size
    → (is_blank x || is_line_end x) ≡ false
    → let t = header_loop trim size (b'\r' ∷ b'\n' ∷ x ∷ rest) s in (t.out ≡ s.out) × (t.n ≡ s.n)
unfolding header_loop header_step
header_loop-end trim size x rest s f h e = ground arith

header_loop-continued :
    (trim : Bool) (size x : ℕ) (lines : List Bytes) (rest : Bytes) (s : Unfolding)
    → All (All IsLineText) lines
    → (is_blank x || is_line_end x) ≡ false
    → s.folding ≡ 0
    → s.n + length (keep is_counted (joined lines)) < size
    → let t = header_loop trim size (continued lines (x ∷ rest)) s in
      (t.out ≡ s.out ++ keep (is_stored trim) (joined lines))
      × (t.n ≡ s.n + length (keep is_counted (joined lines)))
unfolding continued joined
header_loop-continued trim size x [] rest s t e f h =
    let (same_out, same_n) = header_loop-end trim size x rest s f (omega arith) e in
    (same_out ∙ sym (append-nil s.out), omega (arith, same_n))
header_loop-continued trim size x (line ∷ lines) rest s t e f h =
    let s1 = after_fold s in
    let s2 = after_line trim s1 line in
    let counts = length-keep-append is_counted line (joined lines) in
    let behind = after_line_lem trim s1 line (ground arith) in
    let ih =
      header_loop-continued trim size x lines rest s2 t.1 e behind.2
        (omega (arith, counts, behind.1)) in
    rw
      (
        header_loop-fold trim size (line ++ continued lines (x ∷ rest)) s f (omega arith),
        header_loop-line trim size line (continued lines (x ∷ rest)) s1 t.0 (ground arith)
            (omega (arith, counts)),
      )
      (
        cc (
          ih.0,
          behind.0,
          keep-append (is_stored trim) line (joined lines),
          append_assoc s.out (keep (is_stored trim) line) (keep (is_stored trim) (joined lines)),
        ),
        omega (arith, ih.1, behind.1, counts),
      )

-- A header whose lines hold no line ends, each line after the first folded by a carriage return,
-- a line feed and a blank, and ended by a line that starts with no blank, tab or line end: if its
-- bytes that are no blanks or tabs are fewer than the buffer's, `sf_unfold_header` stores exactly
-- the joined lines (without their blanks and tabs, if these are trimmed) and a zero behind them.
pub sf_unfold_header-joined :
    (trim : Bool) (size x : ℕ) (line : Bytes) (lines : List Bytes) (rest : Bytes)
    → All (All IsLineText) (line ∷ lines)
    → (is_blank x || is_line_end x) ≡ false
    → length (keep is_counted (joined (line ∷ lines))) < size
    → let h = sf_unfold_header (line ++ continued lines (x ∷ rest)) size trim in
      let kept = keep (is_stored trim) (joined (line ∷ lines)) in
      (h.text ≡ kept ++ (0 ∷ [])) × (h.output_bytes ≡ length kept)
unfolding sf_unfold_header joined
sf_unfold_header-joined trim size x line lines rest t e h =
    let s1 = after_line trim header_start line in
    let counts = length-keep-append is_counted line (joined lines) in
    let behind = after_line_lem trim header_start line refl in
    let tail =
      header_loop-continued trim size x lines rest s1 t.1 e behind.2
        (omega (arith, counts, behind.1)) in
    ground (
      arith,
      header_loop-line trim size line (continued lines (x ∷ rest)) header_start t.0 refl
          (omega (arith, counts)),
      tail,
      behind,
      counts,
      keep-append (is_stored trim) line (joined lines),
    )
