-- ===== src/Ssl/Runs.antt =====
-- A computation with faults comes to an end, with a result of which a predicate holds.
use in_free_time.Base.{
  ℕ, zero, suc, ◌+◌, ◌<◌, ◌≡◌, refl, Bool, true, false, Option, none, some, Bytes, get_elem?,
}
use in_free_time.Base.{if◌then◌else◌, length, arith, [], ◌∷◌}
use in_free_time.Ssl.{◌>>=◌, ntohs_at, three_byte_len}

-- The computation has a result, and the result has `P`.
pub data Runs {ℓ κ} {A : Type ℓ} (P : A → Type κ) : Option A → Type (ℓ ⊔ κ) where
  runs : {a : A} → P a → Runs P (some a)

pub >>=-Runs {ℓ κ ℓ' κ'} :
    {A : Type ℓ} {B : Type ℓ'} {P : A → Type κ} {Q : B → Type κ'} {f : A → Option B} {m : Option A}
    → Runs P m
    → ((a : A) → P a → Runs Q (f a))
    → Runs Q (m >>= f)
>>=-Runs (runs {a} h) k = k a h

-- The result, if there is one, has `P`.
pub data Gives {ℓ κ} {A : Type ℓ} (P : A → Type κ) : Option A → Type (ℓ ⊔ κ) where
  nothing : Gives P none
  gives : {a : A} → P a → Gives P (some a)

pub >>=-Gives {ℓ κ ℓ' κ'} :
    {A : Type ℓ} {B : Type ℓ'} {P : A → Type κ} {Q : B → Type κ'} {f : A → Option B} {m : Option A}
    → Gives P m
    → ((a : A) → P a → Gives Q (f a))
    → Gives Q (m >>= f)
>>=-Gives nothing k = nothing
>>=-Gives (gives {a} h) k = k a h

pub given-value {ℓ κ} : {A : Type ℓ} {P : A → Type κ} {a : A} → Gives P (some a) → P a
given-value (gives h) = h

pub if-Runs {ℓ κ} :
    {A : Type ℓ} {P : A → Type κ} {x y : Option A} (b : Bool)
    → (b ≡ true → Runs P x)
    → (b ≡ false → Runs P y)
    → Runs P (if b then x else y)
if-Runs true h k = h refl
if-Runs false h k = k refl

abbrev pub Any {ℓ} : {A : Type ℓ} → A → Type 0
Any a = Unit {0}

pub get_elem?-Runs : (pkt : Bytes) (i : ℕ) → i < length pkt → Runs Any (get_elem? pkt i)
get_elem?-Runs [] i h = absurd (omega arith)
get_elem?-Runs (x ∷ pkt) zero h = runs tt
get_elem?-Runs (x ∷ pkt) (suc i) h = get_elem?-Runs pkt i (omega arith)

pub ntohs_at-Runs : (pkt : Bytes) (i : ℕ) → i + 1 < length pkt → Runs Any (ntohs_at pkt i)
unfolding ntohs_at
ntohs_at-Runs pkt i h =
    >>=-Runs (get_elem?-Runs pkt i (omega arith))
      λ a _. >>=-Runs (get_elem?-Runs pkt (i + 1) h) λ b _. runs tt

pub three_byte_len-Runs :
    (pkt : Bytes) (i : ℕ) → i + 2 < length pkt → Runs Any (three_byte_len pkt i)
unfolding three_byte_len
three_byte_len-Runs pkt i h = >>=-Runs (get_elem?-Runs pkt i (omega arith)) λ a _.
    >>=-Runs (get_elem?-Runs pkt (i + 1) (omega arith))
      λ b _. >>=-Runs (get_elem?-Runs pkt (i + 2) h) λ c _. runs tt

pub Any-Gives {ℓ} : {A : Type ℓ} (o : Option A) → Gives Any o
Any-Gives none = nothing
Any-Gives (some a) = gives tt
