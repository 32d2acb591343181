-- ===== src/Base/Strings.antt =====
-- Strings of C as the bytes before their end: `strcasecmp`, `strtok_r`, and words joined again.
use Prim.Native.Nat.{ℕ, ◌+◌}
use mathlib.Core.Path.{◌≡◌, refl, ap, ◌∙◌, sym}
use mathlib.Core.Logic.{◌≢◌, inl, inr}
use mathlib.Core.Bool.{Bool, true, false, ◌&&◌}
use mathlib.Core.List.{List, [], ◌∷◌, ◌++◌, append-nil, append_assoc}
use mathlib.Core.Option.{Option, none, some}
use in_free_time.Base.Tests.{Bool-cases, leb, ◌==◌, if◌then◌else◌}
use in_free_time.Base.Lists.{Bytes, All}

-- `strcmp(a, b) == 0`
abbrev pub same : Bytes → Bytes → Bool
same [] [] = true
same [] (y ∷ b) = false
same (x ∷ a) [] = false
same (x ∷ a) (y ∷ b) = (x == y) && same a b

-- `tolower` of the C locale
abbrev pub to_lower : ℕ → ℕ
to_lower c = if leb b'A' c && leb c b'Z' then c + 32 else c

abbrev pub lowered : Bytes → Bytes
lowered [] = []
lowered (c ∷ s) = to_lower c ∷ lowered s

-- `strcasecmp(a, b) == 0`
abbrev pub strcasecmp : Bytes → Bytes → Bool
strcasecmp a b = same (lowered a) (lowered b)

-- What is to be given out: a word that has begun.
abbrev pub given : Bytes → List Bytes → List Bytes
given [] more = more
given (c ∷ word) more = (c ∷ word) ∷ more

-- All that `strtok_r` gives out one after the other: the runs of bytes that are no separators.
-- `word` is what has been read of the current one.
abbrev pub tokens_from : (ℕ → Bool) → Bytes → Bytes → List Bytes
tokens_from separates word [] = given word []
tokens_from separates word (c ∷ s) =
    if separates c
    then given word (tokens_from separates [] s)
    else tokens_from separates (word ++ (c ∷ [])) s

abbrev pub tokens : (ℕ → Bool) → Bytes → List Bytes
tokens separates s = tokens_from separates [] s

-- One call of `strtok_r`: the token, and what is left behind the separator that ends it.
abbrev pub strtok_from : (ℕ → Bool) → Bytes → Bytes → Option (Bytes × Bytes)
strtok_from separates [] [] = none
strtok_from separates (b ∷ word) [] = some (b ∷ word, [])
strtok_from separates [] (c ∷ s) =
    if separates c then strtok_from separates [] s else strtok_from separates (c ∷ []) s
strtok_from separates (b ∷ word) (c ∷ s) =
    if separates c then some (b ∷ word, s) else strtok_from separates (b ∷ word ++ (c ∷ [])) s

abbrev pub strtok : (ℕ → Bool) → Bytes → Option (Bytes × Bytes)
strtok separates s = strtok_from separates [] s

-- The calls one after the other give out the tokens.
tokens-strtok :
    (separates : ℕ → Bool) (word s : Bytes)
    → tokens_from separates word s ≡ elim (strtok_from separates word s) [
      | none ↦ []
      | some (token, left) ↦ token ∷ tokens separates left
    ]
tokens-strtok separates [] [] = refl
tokens-strtok separates (b ∷ word) [] = refl
tokens-strtok separates [] (c ∷ s) = elim (Bool-cases (separates c)) [
  | inl e ↦ rw e (tokens-strtok separates [] s)
  | inr e ↦ rw e (tokens-strtok separates (c ∷ []) s)
]
tokens-strtok separates (b ∷ word) (c ∷ s) = elim (Bool-cases (separates c)) [
  | inl e ↦ rw e refl
  | inr e ↦ rw e (tokens-strtok separates (b ∷ word ++ (c ∷ [])) s)
]

-- Words with a separator before each
abbrev pub joined : ℕ → List Bytes → Bytes
joined sep [] = []
joined sep (word ∷ words) = (sep ∷ word) ++ joined sep words

-- A word that has no separator and is not empty.
pub record IsWord (separates : ℕ → Bool) (word : Bytes) : Type 0 where
  pub bytes : All (λ c. separates c ≡ false) word
  pub full : word ≢ []

given-full : (word : Bytes) (more : List Bytes) → word ≢ [] → given word more ≡ word ∷ more
given-full [] more full = absurd (full refl)
given-full (c ∷ word) more full = refl

module _ (separates : ℕ → Bool) where
  tokens_from-append :
      (word more rest : Bytes)
      → All (λ c. separates c ≡ false) more
      → tokens_from separates word (more ++ rest) ≡ tokens_from separates (word ++ more) rest
  tokens_from-append word [] rest none_here =
      ap (λ w. tokens_from separates w rest) (sym (append-nil word))
  tokens_from-append word (c ∷ more) rest (e, others) = rw e (
      tokens_from-append (word ++ (c ∷ [])) more rest others
      ∙ ap (λ w. tokens_from separates w rest) (append_assoc word (c ∷ []) more))

  tokens_from-joined :
      (sep : ℕ) (word : Bytes) (words : List Bytes)
      → separates sep ≡ true
      → word ≢ []
      → All (IsWord separates) words
      → tokens_from separates word (joined sep words) ≡ word ∷ words
  tokens_from-joined sep word [] e full all = given-full word [] full
  tokens_from-joined sep word (next ∷ words) e full (n, all) = rw e (
      given-full word (tokens_from separates [] (next ++ joined sep words)) full
      ∙ ap (λ ws. word ∷ ws)
          (tokens_from-append [] next (joined sep words) n.bytes
            ∙ tokens_from-joined sep next words e n.full all))

  -- The first word, and the others with a separator before each, are given out again.
  pub tokens-joined :
      (sep : ℕ) (word : Bytes) (words : List Bytes)
      → separates sep ≡ true
      → IsWord separates word
      → All (IsWord separates) words
      → tokens separates (word ++ joined sep words) ≡ word ∷ words
  tokens-joined sep word words e w all =
      tokens_from-append [] word (joined sep words) w.bytes
      ∙ tokens_from-joined sep word words e w.full all
