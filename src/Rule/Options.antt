-- ===== src/Rule/Options.antt =====
-- From the text of a rule option to what it matches, and when its parser ends in a fatal message.
use in_free_time.Base.{
  ◌≡◌, ◌≢◌, ◌↔◌, ◌⊎◌, refl, ap, ◌∙◌, Bool, true, false, Option, none, some, List, [], ◌∷◌, ◌++◌,
  All, Bytes, ◌==◌, if◌then◌else◌, if-elim, inl, inr,
}
use in_free_time.Base.Strings.{strcasecmp, tokens, tokens-joined, joined, IsWord}
use in_free_time.Ssl.{◌>>=◌}
use in_free_time.Ssl.Runs.{Gives, nothing, gives, >>=-Gives, given-value}
use in_free_time.Session.{SsnData}
use in_free_time.Rule.{
  RuleOptData, Names, Literal, literal_of, with_literal, parse_literals, parse_option, no_data,
  sslpp_rule_eval, flag_of,
}
use in_free_time.Rule.{state_names, version_names, is_comma, sslpp_state_init, sslpp_ver_init}
use in_free_time.Rule.Laws.{
  literals, any_holds, any_alone_holds, any_holds-alone, IsConsistent, IsFlag, bit, accumulate,
  eval-any_holds,
}

flag_of-IsFlag :
    (names : Names) (tok : Bytes) → All (λ n. IsFlag n.1) names → Gives IsFlag (flag_of names tok)
unfolding flag_of
flag_of-IsFlag [] tok all = nothing
flag_of-IsFlag ((name, flag) ∷ names) tok (b, all) =
    if-elim (Gives IsFlag) (strcasecmp name tok) (λ _. gives b) λ _. flag_of-IsFlag names tok all

literal_of-IsFlag :
    (names : Names) (tok : Bytes)
    → All (λ n. IsFlag n.1) names
    → Gives (λ l. IsFlag l.flag) (literal_of names tok)
unfolding literal_of
literal_of-IsFlag names [] all = >>=-Gives (flag_of-IsFlag names [] all) λ f h. gives h
literal_of-IsFlag names (c ∷ tok) all =
    if-elim (Gives (λ (l : Literal). IsFlag l.flag)) (c == b'!')
      (λ _. >>=-Gives (flag_of-IsFlag names tok all) λ f h. gives h)
      λ _. >>=-Gives (flag_of-IsFlag names (c ∷ tok) all) λ f h. gives h

literals-IsFlag :
    (names : Names) (toks : List Bytes)
    → All (λ n. IsFlag n.1) names
    → Gives (All (λ l. IsFlag l.flag)) (literals names toks)
literals-IsFlag names [] all = gives tt
literals-IsFlag names (tok ∷ toks) all =
    >>=-Gives (literal_of-IsFlag names tok all)
      λ l h. >>=-Gives (literals-IsFlag names toks all) λ ls hs. gives (h, hs)

accumulate_first :
    (l : Literal) (d : RuleOptData) (o : Option (List Literal))
    → (o >>= λ ls. some (accumulate ls (with_literal l d)))
      ≡ ((o >>= λ ls. some (l ∷ ls)) >>= λ ls. some (accumulate ls d))
unfolding accumulate
accumulate_first l d none = refl
accumulate_first l d (some ls) = refl

read_first :
    (names : Names) (toks : List Bytes) (d : RuleOptData) (o : Option Literal)
    → ((l : Literal)
        → parse_literals names toks (with_literal l d)
          ≡ (literals names toks >>= λ ls. some (accumulate ls (with_literal l d))))
    → (o >>= λ l. parse_literals names toks (with_literal l d))
      ≡ ((o >>= λ l. literals names toks >>= λ ls. some (l ∷ ls)) >>= λ ls. some (accumulate ls d))
read_first names toks d none rest = refl
read_first names toks d (some l) rest = rest l ∙ accumulate_first l d (literals names toks)

fails_if :
    (toks : List Bytes) (o : Option (List Literal)) (allocates : Bool)
    → toks ≢ []
    → (((o >>= λ ls. some (accumulate ls no_data)) >>= λ d. if allocates then some d else none)
        ≡ none)
      ↔ ((toks ≡ []) ⊎ (o ≡ none) ⊎ (allocates ≡ false))
fails_if toks none allocates full = (λ e. inr (inl refl), λ h. refl)
fails_if toks (some ls) false full = (λ e. inr (inr refl), λ h. refl)
fails_if toks (some ls) true full = (
  λ e. absurd (cc e),
  λ h. elim h [
    | inl e ↦ absurd (full e)
    | inr (inl e) ↦ absurd (cc e)
    | inr (inr e) ↦ absurd (cc e)
  ],
)

-- The loop of the parsers first reads all arguments and then merges them.
parse_literals-accumulate :
    (names : Names) (toks : List Bytes) (d : RuleOptData)
    → parse_literals names toks d ≡ (literals names toks >>= λ ls. some (accumulate ls d))
unfolding parse_literals accumulate
parse_literals-accumulate names [] d = refl
parse_literals-accumulate names (tok ∷ toks) d =
    read_first names toks d (literal_of names tok)
      λ l. parse_literals-accumulate names toks (with_literal l d)

-- The parser of an option ends in a fatal message just where there is no argument, where one of them
-- is not known, or where there is no memory.
parse_option-fails :
    (names : Names) (allocates : Bool) (toks : List Bytes)
    → (parse_option names allocates toks ≡ none)
      ↔ ((toks ≡ []) ⊎ (literals names toks ≡ none) ⊎ (allocates ≡ false))
unfolding parse_option
parse_option-fails names allocates [] = (λ e. inl refl, λ h. refl)
parse_option-fails names allocates (tok ∷ toks) =
    rw (parse_literals-accumulate names (tok ∷ toks) no_data)
      (fails_if (tok ∷ toks) (literals names (tok ∷ toks)) allocates λ e. absurd (cc e))

parse_option-matches :
    (names : Names) (tok : Bytes) (toks : List Bytes) (ls : List Literal)
    → All (λ n. IsFlag n.1) names
    → literals names (tok ∷ toks) ≡ some ls
    → (d : RuleOptData) × (parse_option names true (tok ∷ toks) ≡ some d)
      × ((sd : SsnData) → sslpp_rule_eval true (some sd) d ≡ any_holds sd.ssn_flags ls ls)
unfolding parse_option
parse_option-matches names tok toks ls flags e = (
  accumulate ls no_data,
  rw (parse_literals-accumulate names (tok ∷ toks) no_data) (rw e refl),
  λ sd. eval-any_holds sd ls (given-value (rw e at (literals-IsFlag names (tok ∷ toks) flags))),
)

-- The two options, with their names and parsers
pub data RuleOption : Type 0 where
  ssl_state ssl_version : RuleOption

unfoldable pub names_of : RuleOption → Names
names_of ssl_state = state_names
names_of ssl_version = version_names

unfoldable pub init_of : RuleOption → Bool → Bytes → Option RuleOptData
init_of ssl_state = sslpp_state_init
init_of ssl_version = sslpp_ver_init

init_of-parse_option :
    (o : RuleOption) (allocates : Bool) (params : Bytes)
    → init_of o allocates params ≡ parse_option (names_of o) allocates (tokens is_comma params)
unfolding init_of names_of sslpp_state_init sslpp_ver_init
init_of-parse_option ssl_state allocates params = refl
init_of-parse_option ssl_version allocates params = refl

names_of-IsFlag : (o : RuleOption) → All (λ n. IsFlag n.1) (names_of o)
unfolding names_of
names_of-IsFlag ssl_state =
    (bit 20 refl, (bit 21 refl, (bit 23 refl, (bit 22 refl, (bit 24 refl, tt)))))
names_of-IsFlag ssl_version =
    (bit 14 refl, (bit 15 refl, (bit 16 refl, (bit 17 refl, (bit 18 refl, tt)))))

-- The parser of `ssl_state` or `ssl_version` ends in a fatal message just where the text has no
-- argument, where one of its arguments is not known, or where there is no memory.
rule_option-fails :
    (o : RuleOption) (allocates : Bool) (params : Bytes)
    → (init_of o allocates params ≡ none) ↔ (
        (tokens is_comma params ≡ [])
        ⊎ (literals (names_of o) (tokens is_comma params) ≡ none)
        ⊎ (allocates ≡ false))
rule_option-fails o allocates params =
    rw (init_of-parse_option o allocates params)
      (parse_option-fails (names_of o) allocates (tokens is_comma params))

-- The same for the text of known arguments with commas between them, by what the mask makes of them
pub rule_option-evaluates :
    (o : RuleOption) (word : Bytes) (words : List Bytes) (ls : List Literal)
    → IsWord is_comma word
    → All (IsWord is_comma) words
    → literals (names_of o) (word ∷ words) ≡ some ls
    → (d : RuleOptData) × (init_of o true (word ++ joined b',' words) ≡ some d)
      × ((sd : SsnData) → sslpp_rule_eval true (some sd) d ≡ any_holds sd.ssn_flags ls ls)
rule_option-evaluates o word words ls w all e =
    let (d, p, q) = parse_option-matches (names_of o) word words ls (names_of-IsFlag o) e in
    (
      d,
      init_of-parse_option o true (word ++ joined b',' words)
          ∙ ap (parse_option (names_of o) true) (tokens-joined is_comma b',' word words refl w all)
          ∙ p,
      q,
    )

-- The options `ssl_state` and `ssl_version`, from the text of arguments with commas between them: if
-- all of them are known names, or such with a `!` before them, no name stands there both with and
-- without a `!`, and there is memory, the parser gives data with which `SSLPP_rule_eval` matches a
-- session just if one of the arguments, each on its own, holds of it: a name if its flag is set, a
-- name with a `!` if it is not.
pub rule_option-matches :
    (o : RuleOption) (word : Bytes) (words : List Bytes) (ls : List Literal)
    → IsWord is_comma word
    → All (IsWord is_comma) words
    → literals (names_of o) (word ∷ words) ≡ some ls
    → IsConsistent ls
    → (d : RuleOptData) × (init_of o true (word ++ joined b',' words) ≡ some d)
      × ((sd : SsnData) → sslpp_rule_eval true (some sd) d ≡ any_alone_holds sd.ssn_flags ls)
rule_option-matches o word words ls w all e consistent =
    let (d, p, q) = rule_option-evaluates o word words ls w all e in
    (d, p, λ sd. q sd ∙ any_holds-alone sd.ssn_flags ls ls consistent)
