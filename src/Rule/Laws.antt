-- ===== src/Rule/Laws.antt =====
-- What a parsed rule option matches: `(flags & ssn_flags) ^ mask` against its arguments one by one.
use in_free_time.Base.{
  ℕ, ◌^◌, ◌≤◌, ◌≡◌, ◌≢◌, refl, sym, ap, ◌∙◌, Bool, true, false, not, ◌&&◌, ◌||◌, Option, some, List,
  [], ◌∷◌, All, Bytes, arith, bit_and, ◌==◌, ==_iff, if◌then◌else◌, max, min, Bool-cases, inl, inr,
}
use in_free_time.Base.Bits.{bit_at, bit_at-bit_or, bit_at-bit_and, bit_at-le-one}
use in_free_time.Base.Flags.{has, has-bit_at, bit_at-power, bit_at-zero}
use in_free_time.Base.Xor.{differs-false, differs-true}
use in_free_time.Ssl.{◌>>=◌}
use in_free_time.Session.{SsnData}
use in_free_time.Rule.{
  RuleOptData, Names, Literal, literal_of, with_literal, no_data, sslpp_rule_eval,
}

-- The arguments of an option, if all are known.
abbrev pub literals : Names → List Bytes → Option (List Literal)
literals names [] = some []
literals names (tok ∷ toks) =
    literal_of names tok >>= λ l. literals names toks >>= λ ls. some (l ∷ ls)

-- Is the flag negated in one of the arguments?
abbrev pub negated_in : ℕ → List Literal → Bool
negated_in f [] = false
negated_in f (l ∷ ls) = l.negated && (l.flag == f) || negated_in f ls

-- An argument as the mask takes it: its flag is set or, where one of the arguments negates that
-- flag, is not set.
abbrev pub holds : ℕ → List Literal → Literal → Bool
holds ssn_flags all l =
    if negated_in l.flag all then not (has ssn_flags l.flag) else has ssn_flags l.flag

abbrev pub any_holds : ℕ → List Literal → List Literal → Bool
any_holds ssn_flags all [] = false
any_holds ssn_flags all (l ∷ ls) = holds ssn_flags all l || any_holds ssn_flags all ls

-- An argument on its own holds of a session if its flag is set there, and a negated one if its
-- flag is not.
abbrev pub alone_holds : ℕ → Literal → Bool
alone_holds ssn_flags l = if l.negated then not (has ssn_flags l.flag) else has ssn_flags l.flag

abbrev pub any_alone_holds : ℕ → List Literal → Bool
any_alone_holds ssn_flags [] = false
any_alone_holds ssn_flags (l ∷ ls) = alone_holds ssn_flags l || any_alone_holds ssn_flags ls

-- No argument that is not negated has the flag of one that is.
abbrev pub IsConsistent : List Literal → Type 0
IsConsistent ls = All (λ l. negated_in l.flag ls ≡ l.negated) ls

-- The flag is a single bit.
pub data IsFlag (f : ℕ) : Type 0 where
  bit : (k : ℕ) → f ≡ 2 ^ k → IsFlag f

-- What the loop makes of known arguments
unfoldable pub accumulate : List Literal → RuleOptData → RuleOptData
accumulate [] d = d
accumulate (l ∷ ls) d = accumulate ls (with_literal l d)

asked : ℕ → List Literal → ℕ
asked i [] = 0
asked i (l ∷ ls) = max (bit_at i l.flag) (asked i ls)

refused : ℕ → List Literal → ℕ
refused i [] = 0
refused i (l ∷ ls) = max (if l.negated then bit_at i l.flag else 0) (refused i ls)

accumulate-bits :
    (i : ℕ) (ls : List Literal) (d : RuleOptData)
    → (bit_at i (accumulate ls d).flags ≡ max (bit_at i d.flags) (asked i ls))
      × (bit_at i (accumulate ls d).mask ≡ max (bit_at i d.mask) (refused i ls))
unfolding accumulate asked refused with_literal
accumulate-bits i [] d = (omega arith, omega arith)
accumulate-bits i (l ∷ ls) d =
    let (p, q) = accumulate-bits i ls (with_literal l d) in
    (
      omega (arith, p, bit_at-bit_or i d.flags l.flag),
      ground (arith, q, bit_at-bit_or i d.mask l.flag),
    )

refused-le-asked : (i : ℕ) (ls : List Literal) → (refused i ls ≤ asked i ls) × (asked i ls ≤ 1)
unfolding asked refused
refused-le-asked i [] = (omega arith, omega arith)
refused-le-asked i (l ∷ ls) =
    let (p, q) = refused-le-asked i ls in
    (ground (arith, p), ground (arith, q, bit_at-le-one i l.flag))

-- Bits and powers of two
power-test : (i k : ℕ) → (2 ^ k == 2 ^ i) ≡ (i == k)
power-test i k = elim (Bool-cases (i == k)) [
  | inl e ↦
      let same : 2 ^ k ≡ 2 ^ i = ap (λ n. 2 ^ n) (sym ((==_iff i k).0 e)) in ground (arith, same, e)
  | inr e ↦ elim (Bool-cases (2 ^ k == 2 ^ i)) [
    | inl e' ↦
        let same : bit_at i (2 ^ k) ≡ bit_at i (2 ^ i) =
          ap (bit_at i) ((==_iff (2 ^ k) (2 ^ i)).0 e') in
        ground (arith, same, bit_at-power i k, bit_at-power i i, e)
    | inr e' ↦ e' ∙ sym e
  ]
]

refused-negated_in :
    (i : ℕ) (ls : List Literal)
    → All (λ l. IsFlag l.flag) ls
    → refused i ls ≡ (if negated_in (2 ^ i) ls then 1 else 0)
unfolding refused
refused-negated_in i [] all = refl
refused-negated_in i (l ∷ ls) (bit k e, all) =
    let test : (l.flag == 2 ^ i) ≡ (i == k) = ap (λ f. f == 2 ^ i) e ∙ power-test i k in
    let value : bit_at i l.flag ≡ (if i == k then 1 else 0) = ap (bit_at i) e ∙ bit_at-power i k in
    rw test (ground (arith, value, refused-negated_in i ls all))

-- An argument of one bit, by the bits of the session and of the arguments
holds-bits :
    (i ssn_flags : ℕ) (all : List Literal) (l : Literal)
    → All (λ l. IsFlag l.flag) all
    → l.flag ≡ 2 ^ i
    → holds ssn_flags all l ≡ not (bit_at i ssn_flags == refused i all)
holds-bits i ssn_flags all l flags e =
    let sign : negated_in l.flag all ≡ negated_in (2 ^ i) all = ap (λ f. negated_in f all) e in
    let test : has ssn_flags l.flag ≡ (bit_at i ssn_flags == 1) =
      ap (has ssn_flags) e ∙ has-bit_at i ssn_flags in
    rw sign (rw test (ground (arith, refused-negated_in i all flags, bit_at-le-one i ssn_flags)))

-- If no argument holds, the session has the bits that are asked for just where they are negated.
none_holds :
    (i ssn_flags : ℕ) (all ls : List Literal)
    → All (λ l. IsFlag l.flag) all
    → All (λ l. IsFlag l.flag) ls
    → any_holds ssn_flags all ls ≡ false
    → asked i ls ≡ 1
    → bit_at i ssn_flags ≡ refused i all
unfolding asked
none_holds i ssn_flags all [] flags here none_of h = absurd (omega (arith, h))
none_holds i ssn_flags all (l ∷ ls) flags (bit k e, here) none_of h = elim (Bool-cases (i == k)) [
  | inl same ↦
      let at : l.flag ≡ 2 ^ i = e ∙ ap (λ n. 2 ^ n) (sym ((==_iff i k).0 same)) in
      ground (arith, none_of, holds-bits i ssn_flags all l flags at)
  | inr other ↦
      let clear : bit_at i l.flag ≡ 0 = ap (bit_at i) e ∙ ground (arith, bit_at-power i k, other) in
      none_holds i ssn_flags all ls flags here (ground (arith, none_of)) (omega (arith, h, clear))
]

-- If an argument holds, the session differs from the arguments in a bit that is asked for.
one_holds :
    (ssn_flags : ℕ) (all ls : List Literal)
    → All (λ l. IsFlag l.flag) all
    → All (λ l. IsFlag l.flag) ls
    → any_holds ssn_flags all ls ≡ true
    → (i : ℕ) × (asked i ls ≡ 1) × (bit_at i ssn_flags ≢ refused i all)
unfolding asked
one_holds ssn_flags all [] flags here h = absurd (cc h)
one_holds ssn_flags all (l ∷ ls) flags (bit k e, here) h =
    elim (Bool-cases (holds ssn_flags all l)) [
      | inl now ↦
          let set : bit_at k l.flag ≡ 1 = ap (bit_at k) e ∙ ground (arith, bit_at-power k k) in
          (
            k,
            omega (arith, set, (refused-le-asked k ls).1),
            λ q. ground (arith, q, now, holds-bits k ssn_flags all l flags e),
          )
      | inr later ↦
          let (i, p, q) = one_holds ssn_flags all ls flags here (ground (arith, h, later)) in
          (i, omega (arith, p, bit_at-le-one i l.flag), q)
    ]

pub eval-any_holds :
    (sd : SsnData) (ls : List Literal)
    → All (λ l. IsFlag l.flag) ls
    → sslpp_rule_eval true (some sd) (accumulate ls no_data) ≡ any_holds sd.ssn_flags ls ls
unfolding sslpp_rule_eval
eval-any_holds sd ls flags =
    let d = accumulate ls no_data in
    let asks : (i : ℕ)
        → bit_at i (bit_and d.flags sd.ssn_flags) ≡ min (asked i ls) (bit_at i sd.ssn_flags) =
      λ i. omega (
        arith,
        bit_at-bit_and i d.flags sd.ssn_flags,
        (accumulate-bits i ls no_data).0,
        bit_at-zero i,
      ) in
    let refuses : (i : ℕ) → bit_at i d.mask ≡ refused i ls =
      λ i. omega (arith, (accumulate-bits i ls no_data).1, bit_at-zero i) in
    elim (Bool-cases (any_holds sd.ssn_flags ls ls)) [
      | inl h ↦
          let (i, p, q) = one_holds sd.ssn_flags ls ls flags flags h in
          differs-true i (bit_and d.flags sd.ssn_flags) d.mask
            (λ e. q (omega (arith, e, asks i, refuses i, p, bit_at-le-one i sd.ssn_flags)))
          ∙ sym h
      | inr h ↦
          differs-false (bit_and d.flags sd.ssn_flags) d.mask (λ i. ground (
            arith,
            asks i,
            refuses i,
            refused-le-asked i ls,
            none_holds i sd.ssn_flags ls ls flags flags h,
          ))
          ∙ sym h
    ]

-- Without a contradiction the arguments hold as they do on their own.
pub any_holds-alone :
    (ssn_flags : ℕ) (all ls : List Literal)
    → All (λ l. negated_in l.flag all ≡ l.negated) ls
    → any_holds ssn_flags all ls ≡ any_alone_holds ssn_flags ls
any_holds-alone ssn_flags all [] h = refl
any_holds-alone ssn_flags all (l ∷ ls) (same, later) =
    rw same (rw (any_holds-alone ssn_flags all ls later) refl)
