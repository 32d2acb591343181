-- ===== src/Policy/Slots.antt =====
-- Arrays of pointers: the slots in use, and how a write or a larger array changes them.
use in_free_time.Base.{
  ℕ, zero, suc, ◌+◌, ◌≤◌, ◌<◌, ◌≡◌, refl, Option, none, some, List, [], ◌∷◌, ◌++◌,
}
use in_free_time.Base.{◌==◌, if◌then◌else◌, length, get_elem?, set, replicate, arith}

module _ {ℓ} {A : Type ℓ} where
  -- The pointers that are not null.
  abbrev pub active : List (Option A) → ℕ
  active [] = 0
  active (none ∷ slots) = active slots
  active (some a ∷ slots) = suc (active slots)

  -- The pointer of a policy, null where the array has no slot for it.
  abbrev pub peek : List (Option A) → ℕ → Option A
  peek [] j = none
  peek (x ∷ xs) zero = x
  peek (x ∷ xs) (suc j) = peek xs j

  pub length-set : (xs : List (Option A)) (i : ℕ) (v : Option A) → length (set xs i v) ≡ length xs
  length-set [] i v = refl
  length-set (x ∷ xs) zero v = refl
  length-set (x ∷ xs) (suc i) v = omega (arith, length-set xs i v)

  pub peek-set :
      (xs : List (Option A)) (i j : ℕ) (v : Option A)
      → i < length xs
      → peek (set xs i v) j ≡ (if j == i then v else peek xs j)
  peek-set [] i j v h = absurd (omega arith)
  peek-set (x ∷ xs) zero zero v h = refl
  peek-set (x ∷ xs) zero (suc j) v h = ground arith
  peek-set (x ∷ xs) (suc i) zero v h = ground arith
  peek-set (x ∷ xs) (suc i) (suc j) v h = ground (arith, peek-set xs i j v (omega arith))

  pub active-set-some :
      (xs : List (Option A)) (i : ℕ) (a : A)
      → i < length xs
      → peek xs i ≡ none
      → active (set xs i (some a)) ≡ suc (active xs)
  active-set-some [] i a h e = absurd (omega arith)
  active-set-some (none ∷ xs) zero a h e = refl
  active-set-some (some b ∷ xs) zero a h e = absurd (grind (arith, e))
  active-set-some (none ∷ xs) (suc i) a h e = active-set-some xs i a (omega arith) e
  active-set-some (some b ∷ xs) (suc i) a h e =
      omega (arith, active-set-some xs i a (omega arith) e)

  pub active-set-none :
      (xs : List (Option A)) (i : ℕ) (a : A)
      → peek xs i ≡ some a
      → suc (active (set xs i none)) ≡ active xs
  active-set-none [] i a e = absurd (grind (arith, e))
  active-set-none (none ∷ xs) zero a e = absurd (grind (arith, e))
  active-set-none (some b ∷ xs) zero a e = refl
  active-set-none (none ∷ xs) (suc i) a e = active-set-none xs i a e
  active-set-none (some b ∷ xs) (suc i) a e = omega (arith, active-set-none xs i a e)

  pub active-le-length : (xs : List (Option A)) → active xs ≤ length xs
  active-le-length [] = omega arith
  active-le-length (none ∷ xs) = omega (arith, active-le-length xs)
  active-le-length (some a ∷ xs) = omega (arith, active-le-length xs)

  pub peek-lt : (xs : List (Option A)) (i : ℕ) (a : A) → peek xs i ≡ some a → i < length xs
  peek-lt [] i a e = absurd (grind (arith, e))
  peek-lt (x ∷ xs) zero a e = omega arith
  peek-lt (x ∷ xs) (suc i) a e = omega (arith, peek-lt xs i a e)

  pub get_elem?-peek :
      (xs : List (Option A)) (i : ℕ) → i < length xs → get_elem? xs i ≡ some (peek xs i)
  get_elem?-peek [] i h = absurd (omega arith)
  get_elem?-peek (x ∷ xs) zero h = refl
  get_elem?-peek (x ∷ xs) (suc i) h = get_elem?-peek xs i (omega arith)

  -- An array made longer with null pointers.
  pub longer-length :
      (xs : List (Option A)) (k : ℕ) → length (xs ++ replicate k none) ≡ length xs + k
  longer-length [] zero = refl
  longer-length [] (suc k) = omega (arith, longer-length [] k)
  longer-length (x ∷ xs) k = omega (arith, longer-length xs k)

  pub longer-active : (xs : List (Option A)) (k : ℕ) → active (xs ++ replicate k none) ≡ active xs
  longer-active [] zero = refl
  longer-active [] (suc k) = longer-active [] k
  longer-active (none ∷ xs) k = longer-active xs k
  longer-active (some a ∷ xs) k = omega (arith, longer-active xs k)

  pub longer-peek : (xs : List (Option A)) (k j : ℕ) → peek (xs ++ replicate k none) j ≡ peek xs j
  longer-peek [] zero j = refl
  longer-peek [] (suc k) zero = refl
  longer-peek [] (suc k) (suc j) = longer-peek [] k j
  longer-peek (x ∷ xs) k zero = refl
  longer-peek (x ∷ xs) k (suc j) = longer-peek xs k j

  pub active-set-le : (xs : List (Option A)) (i : ℕ) → active (set xs i none) ≤ active xs
  active-set-le [] i = omega arith
  active-set-le (none ∷ xs) zero = omega arith
  active-set-le (some a ∷ xs) zero = omega arith
  active-set-le (none ∷ xs) (suc i) = active-set-le xs i
  active-set-le (some a ∷ xs) (suc i) = omega (arith, active-set-le xs i)
