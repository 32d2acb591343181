-- ===== src/Uu/Bounds.antt =====
-- `sf_uudecode` ends, stores nothing behind its destination and reads at most one byte behind its
-- data.
use in_free_time.Base.{ℕ, zero, suc, ◌+◌, ◌-◌, ◌/◌, ◌%◌, ◌≤◌, ◌<◌, ◌≡◌, refl, [], ◌∷◌, arith}
use in_free_time.Base.{
  Bytes, ap, length, length-drop, drop, some, none, All, IsByte, Bool, Option, ltb,
}
use in_free_time.Base.{
  if◌then◌else◌, true, false, not, ◌&&◌, ◌||◌, ◌==◌, Bool-cases, Ret, ok, failed, inl, inr,
}
use in_free_time.Uu.{uu_decode_char, Uu, UuRound, next, stop, fault, uu_line, line_chars, uu_decode}
use in_free_time.Uu.{uu_round, UuEnd, done, go_on, uu_loop}
use in_free_time.Uu.Begin.{UuResult, UuCall, returned, uu_body, uu_early}
use in_free_time.Uu.Begin.{begin_word, uu_at, uu_past_line, uu_past_begin, sf_uudecode}
use in_free_time.Uu.Chars.{uu_chars-IsDecoded}

pub record IsUu (slen dlen : ℕ) (s : Uu) : Type 0 where
  pub fits : length s.out ≤ dlen
  pub inside : s.left ≤ slen
  pub at_hand : s.left < length s.ahead
  pub bytes : All IsByte s.out

-- A round that goes on has less of the data ahead, and no round reads behind the memory.
abbrev RoundIsUu : ℕ → ℕ → ℕ → UuRound → Type 0
RoundIsUu slen dlen left (next s) = IsUu slen dlen s × (s.left < left)
RoundIsUu slen dlen left (stop s) = IsUu slen dlen s
RoundIsUu slen dlen left fault = ⊥

-- As many characters as a line wants give no more bytes than there is room for.
pub line_chars_room :
    (room count : ℕ) → let k = line_chars room count in (k % 4 < 3) × (k ≤ room + k / 4)
unfolding line_chars
line_chars_room room count = ground arith

uu_decode-RoundIsUu :
    (slen dlen k : ℕ) (m : Bytes) (s : Uu)
    → IsUu slen dlen s
    → 0 < s.left
    → s.left ≤ length m
    → k % 4 < 3
    → length s.out + k ≤ dlen + k / 4
    → RoundIsUu slen dlen s.left (uu_decode s k m)
unfolding uu_decode
uu_decode-RoundIsUu slen dlen k m s v pos at_hand rem room =
    elim (Bool-cases (ltb (s.left - 1) k)) [
      | inl short ↦ rw short v
      | inr enough ↦
          let fits : k < s.left = ground arith in
          let (t, e, w) = uu_chars-IsDecoded k m s.out rem (omega arith) in
          rw (enough, e)
            (
              record {
                fits = omega (arith, w.wrote);
                inside = omega (arith, v.inside);
                at_hand = rw w.moved (omega (arith, length-drop k m));
                bytes = w.bytes v.bytes;
              },
              omega arith,
            )
    ]

uu_round-RoundIsUu :
    (slen dlen : ℕ) (s : Uu) (m : Bytes)
    → IsUu slen dlen s
    → m ≡ s.ahead
    → 0 < s.left
    → RoundIsUu slen dlen s.left (uu_round dlen s m)
unfolding uu_round uu_line
uu_round-RoundIsUu slen dlen s [] v e pos = absurd (omega (arith, ap length e, v.at_hand))
uu_round-RoundIsUu slen dlen s (c ∷ m) v e pos =
    let k = line_chars (dlen - length s.out) (uu_decode_char c) in
    ground (
      arith,
      v,
      ap length e,
      line_chars_room (dlen - length s.out) (uu_decode_char c),
      uu_decode-RoundIsUu slen dlen k m (record s { sol = false }),
    )

abbrev pub Ends : ℕ → ℕ → UuEnd → Type 0
Ends slen dlen e = (t : Uu) × (e ≡ done t) × IsUu slen dlen t

go_on-Ends :
    (slen dlen left : ℕ) (rest : Uu → UuEnd) (r : UuRound)
    → ((t : Uu) → IsUu slen dlen t → t.left < left → Ends slen dlen (rest t))
    → RoundIsUu slen dlen left r
    → Ends slen dlen (go_on rest r)
go_on-Ends slen dlen left rest (next s) ih v = ih s v.0 v.1
go_on-Ends slen dlen left rest (stop s) ih v = (s, refl, v)
go_on-Ends slen dlen left rest fault ih v = elim v [ ]

uu_loop_goes :
    (fuel dlen : ℕ) (s : Uu)
    → (not (s.left == 0) && ltb (length s.out) dlen) ≡ true
    → uu_loop (suc fuel) dlen s ≡ go_on (uu_loop fuel dlen) (uu_round dlen s s.ahead)
unfolding uu_loop
uu_loop_goes fuel dlen s h = ground arith

-- With as much fuel as there are bytes ahead, the loop ends by its own tests.
pub uu_loop-Ends :
    (fuel slen dlen : ℕ) (s : Uu)
    → IsUu slen dlen s
    → s.left ≤ fuel
    → Ends slen dlen (uu_loop fuel dlen s)
uu_loop-Ends zero slen dlen s v h = (s, unfold uu_loop in ground arith, v)
uu_loop-Ends (suc fuel) slen dlen s v h =
    elim (Bool-cases (not (s.left == 0) && ltb (length s.out) dlen)) [
      | inr ends ↦ (s, unfold uu_loop in ground arith, v)
      | inl goes ↦ rw (uu_loop_goes fuel dlen s goes) (
          go_on-Ends slen dlen s.left (uu_loop fuel dlen) (uu_round dlen s s.ahead)
            (λ t w l. uu_loop-Ends fuel slen dlen t w (omega arith))
            (uu_round-RoundIsUu slen dlen s s.ahead v refl (ground arith)))
    ]

-- A call that returns, with no more stored than `dlen` bytes and no more read than `slen`.
pub record ReturnsWithin (slen dlen : ℕ) (call : UuCall) : Type 0 where
  pub result : UuResult
  pub returns : call ≡ returned result
  pub stored : length result.out ≤ dlen
  pub bytes : All IsByte result.out
  pub read : result.bytes_read ≤ slen

uu_body-ReturnsWithin :
    (m : Bytes) (slen dlen ptr : ℕ) (end_found : Bool) (name : Option Bytes)
    → slen < length m
    → ptr ≤ slen
    → ReturnsWithin slen dlen (uu_body m slen dlen ptr end_found name)
unfolding uu_body
uu_body-ReturnsWithin m slen dlen ptr end_found name mem h =
    let start = uu_at m slen ptr end_found in
    let v : IsUu slen dlen start = record {
      fits = omega arith;
      inside = omega arith;
      at_hand = omega (arith, length-drop ptr m);
      bytes = tt;
    } in
    let (t, e, w) = uu_loop-Ends slen slen dlen start v (omega arith) in
    rw e
      (record { result = _; returns = refl; stored = w.fits; bytes = w.bytes; read = ground arith })

-- What is relied on of `SnortStrnStr`: a word that it finds lies within the bytes searched.
abbrev pub StaysWithin : (Bytes → ℕ → Bytes → Option ℕ) → Type 0
StaysWithin f =
    (m : Bytes) (n : ℕ) (word : Bytes) (i : ℕ) → f m n word ≡ some i → i + length word ≤ n

early-ReturnsWithin :
    (slen dlen n : ℕ) (ret : Ret) (begin_found end_found : Bool) (name : Option Bytes)
    → n ≤ slen
    → ReturnsWithin slen dlen (uu_early ret n begin_found end_found name)
early-ReturnsWithin slen dlen n ret begin_found end_found name h = record {
  result = _;
  returns = refl;
  stored = omega arith;
  bytes = tt;
  read = h;
}

module _ (strn_str : Bytes → ℕ → Bytes → Option ℕ) (within : StaysWithin strn_str) where
  uu_past_line-ReturnsWithin :
      (m : Bytes) (slen dlen : ℕ) (end_found : Bool) (name : Option Bytes) (sod : ℕ) (o : Option ℕ)
      → slen < length m
      → ((i : ℕ) → o ≡ some i → sod + i ≤ slen)
      → ReturnsWithin slen dlen (uu_past_line strn_str m slen dlen end_found name sod o)
  unfolding uu_past_line
  uu_past_line-ReturnsWithin m slen dlen end_found name sod none mem h =
      early-ReturnsWithin slen dlen slen ok true end_found name (omega arith)
  uu_past_line-ReturnsWithin m slen dlen end_found name sod (some i) mem h =
      uu_body-ReturnsWithin m slen dlen (sod + i) end_found name mem (h i refl)

  uu_past_begin-ReturnsWithin :
      (m : Bytes) (slen dlen : ℕ) (end_found wants_name : Bool) (o : Option ℕ)
      → slen < length m
      → ((i : ℕ) → o ≡ some i → i ≤ slen)
      → ReturnsWithin slen dlen (uu_past_begin strn_str m slen dlen end_found wants_name o)
  unfolding uu_past_begin
  uu_past_begin-ReturnsWithin m slen dlen end_found wants_name none mem h =
      early-ReturnsWithin slen dlen 0 failed false end_found none (omega arith)
  uu_past_begin-ReturnsWithin m slen dlen end_found wants_name (some sod) mem h =
      uu_past_line-ReturnsWithin m slen dlen end_found _ sod _ mem
        (λ i e. omega (arith, h sod refl, within (drop sod m) (slen - sod) (b'\n' ∷ []) i e))

  -- If one byte more than the data can be read at `src`, and `SnortStrnStr` finds words within what
  -- it searches, every call of `sf_uudecode` returns: it reads no further, stores bytes only, at
  -- most `dlen` of them, and reports at most `slen` read.
  pub sf_uudecode-ReturnsWithin :
      (pointers : Bool) (m : Bytes) (slen dlen : ℕ) (begin_found end_found wants_name : Bool)
      → slen < length m
      → ReturnsWithin slen dlen
          (sf_uudecode strn_str pointers m slen dlen begin_found end_found wants_name)
  sf_uudecode-ReturnsWithin pointers m slen dlen begin_found end_found wants_name mem =
      elim (Bool-cases (not pointers || slen == 0 || dlen == 0)) [
        | inl bad ↦
            unfold sf_uudecode in
            rw bad (early-ReturnsWithin slen dlen 0 failed begin_found end_found none (omega arith))
        | inr fine ↦ unfold sf_uudecode in rw fine (by_flag begin_found)
      ]
    where
      by_flag :
          (found : Bool)
          → ReturnsWithin slen dlen (
              if found
              then uu_body m slen dlen 0 end_found none
              else if ltb slen 5
              then uu_early ok 0 false end_found none
              else uu_past_begin strn_str m slen dlen end_found wants_name
                  (strn_str m 5 begin_word))
      by_flag true = uu_body-ReturnsWithin m slen dlen 0 end_found none mem (omega arith)
      by_flag false = elim (Bool-cases (ltb slen 5)) [
        | inl short ↦
            rw short (early-ReturnsWithin slen dlen 0 ok false end_found none (omega arith))
        | inr long ↦ rw long (
            uu_past_begin-ReturnsWithin m slen dlen end_found wants_name _ mem (λ i e.
              let enough : 5 ≤ slen = ground arith in omega (arith, within m 5 begin_word i e)))
      ]
