-- ===== src/Rule/Contradictions.antt =====
-- A rule option with the same name both with and without a `!`.
use in_free_time.Base.{ℕ, ◌≡◌, ◌∙◌, true, false, not, some, List, [], ◌∷◌, ◌++◌, Bytes, arith}
use in_free_time.Base.Flags.{has}
use in_free_time.Base.Strings.{joined, IsWord}
use in_free_time.Session.{SsnData}
use in_free_time.Rule.{RuleOptData, Literal, is_comma, sslpp_rule_eval}
use in_free_time.Rule.Laws.{literals, any_holds}
use in_free_time.Rule.Options.{RuleOption, names_of, init_of, rule_option-evaluates}

-- The arguments are a name without and then with a `!`, or the other way around.
pub data IsContradiction (f : ℕ) : List Literal → Type 0 where
  plain_first :
      IsContradiction f
        (record { negated = false; flag = f } ∷ record { negated = true; flag = f } ∷ [])
  negated_first :
      IsContradiction f
        (record { negated = true; flag = f } ∷ record { negated = false; flag = f } ∷ [])

contradiction-holds :
    (ssn_flags f : ℕ) (ls : List Literal)
    → IsContradiction f ls
    → any_holds ssn_flags ls ls ≡ not (has ssn_flags f)
contradiction-holds ssn_flags f _ plain_first = ground arith
contradiction-holds ssn_flags f _ negated_first = ground arith

-- Of a known name and the same name with a `!`, in either order, the one with the `!` alone counts:
-- the parser gives data that matches just the sessions without the flag, although the other argument
-- holds of all the rest.
pub rule_option-contradicts :
    (o : RuleOption) (word word' : Bytes) (f : ℕ) (ls : List Literal)
    → IsWord is_comma word
    → IsWord is_comma word'
    → literals (names_of o) (word ∷ word' ∷ []) ≡ some ls
    → IsContradiction f ls
    → (d : RuleOptData) × (init_of o true (word ++ joined b',' (word' ∷ [])) ≡ some d)
      × ((sd : SsnData) → sslpp_rule_eval true (some sd) d ≡ not (has sd.ssn_flags f))
rule_option-contradicts o word word' f ls w w' e contradiction =
    let (d, p, q) = rule_option-evaluates o word (word' ∷ []) ls w (w', tt) e in
    (d, p, λ sd. q sd ∙ contradiction-holds sd.ssn_flags f ls contradiction)
