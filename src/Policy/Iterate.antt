-- ===== src/Policy/Iterate.antt =====
-- `sfPolicyUserDataIterate` and `sfPolicyUserDataFreeIterate` of sfPolicyUserData.c, and
-- `SSLFreeConfigPolicy` of ssl_config.c, with which SSLFreeConfig frees all configurations.
use in_free_time.Base.{
  ℕ, zero, suc, ◌+◌, ◌≤◌, ◌<◌, ◌≡◌, refl, sym, ap, ◌∙◌, true, false, Option, none, some, List, [],
  ◌∷◌, ◌++◌, Bool-cases, Option-cases, inl, inr,
}
use in_free_time.Base.{ltb, ◌==◌, if◌then◌else◌, length, set, drop, get_elem?, arith}
use mathlib.Core.List.{append-nil, append_assoc}
use in_free_time.Policy.{Context, Outcome, returned, fault, sf_policy_user_data_clear}
use in_free_time.Policy.Slots.{peek, length-set, peek-set, get_elem?-peek}
use in_free_time.Policy.Store.{IsContext}
use in_free_time.Policy.Clear.{emptied, emptied-IsContext, clear-inside}

-- What a call of the callback gives: its code, the context, and what else it keeps.
pub record Visited (A : Type 0) (S : Type 0) : Type 0 where
  pub ret : ℕ
  pub context : Context A
  pub kept : S

module _ {A S : Type 0} (callback : Context A → ℕ → A → S → Outcome (Visited A S)) where
  -- The loop of both functions from a policy on, which reads the size of the array again for each
  -- policy. `fuel` counts the policies; without it, the model is at fault.
  unfoldable pub iterate_from : ℕ → ℕ → Context A → S → Outcome (Visited A S)
  iterate_from zero i c s = fault
  iterate_from (suc fuel) i c s =
      if ltb i c.num_allocated_policies
      then elim (get_elem? c.user_config i) [
        | none ↦ fault
        | some none ↦ iterate_from fuel (suc i) c s
        | some (some a) ↦ elim (callback c i a s) [
          | fault ↦ fault
          | returned v ↦
              if v.ret == 0 then iterate_from fuel (suc i) v.context v.kept else returned v
        ]
      ]
      else returned (record { ret = 0; context = c; kept = s })

  -- `sfPolicyUserDataIterate` and `sfPolicyUserDataFreeIterate`
  unfoldable pub sf_policy_user_data_iterate : ℕ → Context A → S → Outcome (Visited A S)
  sf_policy_user_data_iterate fuel c s = iterate_from fuel 0 c s

module _ {A : Type 0} where
  -- `SSLFreeConfigPolicy`, which keeps what it has freed, in order.
  unfoldable pub ssl_free_config_policy : Context A → ℕ → A → List A → Outcome (Visited A (List A))
  ssl_free_config_policy c policy_id config freed = elim (sf_policy_user_data_clear c policy_id) [
    | fault ↦ fault
    | returned (old, d) ↦ returned (record { ret = 0; context = d; kept = freed ++ (config ∷ []) })
  ]

  -- The configurations of some slots, in order
  abbrev pub in_use : List (Option A) → List A
  in_use [] = []
  in_use (none ∷ slots) = in_use slots
  in_use (some a ∷ slots) = a ∷ in_use slots

  drop-peek :
      (xs : List (Option A)) (i : ℕ) → i < length xs → drop i xs ≡ peek xs i ∷ drop (suc i) xs
  drop-peek [] i h = absurd (omega arith)
  drop-peek (x ∷ xs) zero h = refl
  drop-peek (x ∷ xs) (suc i) h = drop-peek xs i (omega arith)

  drop_end : (xs : List (Option A)) (i : ℕ) → length xs ≤ i → drop i xs ≡ []
  drop_end [] zero h = refl
  drop_end [] (suc i) h = refl
  drop_end (x ∷ xs) zero h = absurd (omega arith)
  drop_end (x ∷ xs) (suc i) h = drop_end xs i (omega arith)

  -- Slots that agree from one on
  drop_agree :
      (xs ys : List (Option A)) (i : ℕ)
      → length xs ≡ length ys
      → ((j : ℕ) → i ≤ j → peek xs j ≡ peek ys j)
      → drop i xs ≡ drop i ys
  drop_agree [] [] i h same = refl
  drop_agree [] (y ∷ ys) i h same = absurd (omega (arith, h))
  drop_agree (x ∷ xs) [] i h same = absurd (omega (arith, h))
  drop_agree (x ∷ xs) (y ∷ ys) zero h same = rw (same 0 (omega arith)) (
      ap (λ t. y ∷ t)
        (drop_agree xs ys zero (omega (arith, h)) λ j below. same (suc j) (omega arith)))
  drop_agree (x ∷ xs) (y ∷ ys) (suc i) h same =
      drop_agree xs ys i (omega (arith, h)) λ j below. same (suc j) (omega (arith, below))

  -- The slot of a policy is emptied: the slots behind it are as before.
  drop-emptied :
      (c : Context A) (i : ℕ)
      → i < length c.user_config
      → drop (suc i) (emptied c i).user_config ≡ drop (suc i) c.user_config
  drop-emptied c i h =
      drop_agree (set c.user_config i none) c.user_config (suc i) (length-set c.user_config i none)
        λ j below. peek-set c.user_config i j none h ∙ ground (arith, below)

  peek-emptied :
      (c : Context A) (i j : ℕ)
      → i < length c.user_config
      → ((j : ℕ) → j < i → peek c.user_config j ≡ none)
      → j < suc i
      → peek (emptied c i).user_config j ≡ none
  peek-emptied c i j h before below =
      peek-set c.user_config i j none h ∙ elim (Bool-cases (j == i)) [
        | inl e ↦ rw e refl
        | inr e ↦ rw e (before j (ground (arith, below, e)))
      ]

  Freed : List A → Outcome (Visited A (List A)) → Type 0
  Freed freed o =
      (d : Context A) × (o ≡ returned (record { ret = 0; context = d; kept = freed }))
      × IsContext d
      × ((j : ℕ) → peek d.user_config j ≡ none)

  -- The loop does as it would behind a step, and keeps the same.
  Freed-step :
      {freed freed' : List A} {o o' : Outcome (Visited A (List A))}
      → freed' ≡ freed
      → o ≡ o'
      → Freed freed' o'
      → Freed freed o
  unfolding Freed
  Freed-step p q (d, e, ctx, empty) =
      (d, q ∙ e ∙ ap (λ k. returned (record { ret = 0; context = d; kept = k })) p, ctx, empty)

  peek_end : (xs : List (Option A)) (j : ℕ) → length xs ≤ j → peek xs j ≡ none
  peek_end [] j h = refl
  peek_end (x ∷ xs) zero h = absurd (omega arith)
  peek_end (x ∷ xs) (suc j) h = peek_end xs j (omega arith)

  -- A step of the loop inside the array
  module _ (fuel i : ℕ) (c : Context A) (freed : List A)
      (size : length c.user_config ≡ c.num_allocated_policies) (h : i < length c.user_config) where
    step_none :
        peek c.user_config i ≡ none
        → (iterate_from ssl_free_config_policy (suc fuel) i c freed
            ≡ iterate_from ssl_free_config_policy fuel (suc i) c freed)
          × (freed ++ in_use (drop (suc i) c.user_config) ≡ freed ++ in_use (drop i c.user_config))
    unfolding iterate_from
    step_none e =
        let inside : ltb i c.num_allocated_policies ≡ true = ground (arith, h, size) in
        (
          rw inside (rw (get_elem?-peek c.user_config i h) (rw e refl)),
          rw (drop-peek c.user_config i h) (rw e refl),
        )

    step_some :
        (a : A)
        → peek c.user_config i ≡ some a
        → (iterate_from ssl_free_config_policy (suc fuel) i c freed
            ≡ iterate_from ssl_free_config_policy fuel (suc i) (emptied c i) (freed ++ (a ∷ [])))
          × ((freed ++ (a ∷ [])) ++ in_use (drop (suc i) (emptied c i).user_config)
              ≡ freed ++ in_use (drop i c.user_config))
    unfolding iterate_from ssl_free_config_policy
    step_some a e =
        let inside : ltb i c.num_allocated_policies ≡ true = ground (arith, h, size) in
        (
          rw inside
              (rw (get_elem?-peek c.user_config i h) (rw e (rw (clear-inside c i size h) refl))),
          rw (drop-emptied c i h) (
              append_assoc freed (a ∷ []) (in_use (drop (suc i) c.user_config))
              ∙ rw (drop-peek c.user_config i h) (rw e refl)),
        )

  before_next :
      (c : Context A) (i j : ℕ)
      → ((j : ℕ) → j < i → peek c.user_config j ≡ none)
      → peek c.user_config i ≡ none
      → j < suc i
      → peek c.user_config j ≡ none
  before_next c i j before free below = elim (Bool-cases (j == i)) [
    | inl e ↦ ap (peek c.user_config) (ground (arith, e)) ∙ free
    | inr e ↦ before j (ground (arith, below, e))
  ]

  at_end :
      (fuel i : ℕ) (c : Context A) (freed : List A)
      → IsContext c
      → i ≡ c.num_allocated_policies
      → ((j : ℕ) → j < i → peek c.user_config j ≡ none)
      → Freed
          (freed ++ in_use (drop i c.user_config))
          (iterate_from ssl_free_config_policy (suc fuel) i c freed)
  unfolding Freed iterate_from
  at_end fuel i c freed (size, count, fits) last before =
      let outside : ltb i c.num_allocated_policies ≡ false = ground (arith, last) in
      let nothing : freed ≡ freed ++ in_use (drop i c.user_config) =
        rw (drop_end c.user_config i (omega (arith, last, size))) (sym (append-nil freed)) in
      (
        c,
        rw outside (ap (λ k. returned (record { ret = 0; context = c; kept = k })) nothing),
        (size, count, fits),
        λ j. elim (Bool-cases (ltb j i)) [
          | inl e ↦ before j (ground (arith, e))
          | inr e ↦ peek_end c.user_config j (ground (arith, e, last, size))
        ],
      )

  free_from :
      (fuel i : ℕ) (c : Context A) (freed : List A)
      → IsContext c
      → i ≤ c.num_allocated_policies
      → ((j : ℕ) → j < i → peek c.user_config j ≡ none)
      → c.num_allocated_policies < i + fuel
      → Freed
          (freed ++ in_use (drop i c.user_config))
          (iterate_from ssl_free_config_policy fuel i c freed)
  free_from zero i c freed ctx within before enough = absurd (omega arith)
  free_from (suc fuel) i c freed (size, count, fits) within before enough =
      elim (Bool-cases (ltb i c.num_allocated_policies)) [
        | inr e ↦ at_end fuel i c freed (size, count, fits) (ground (arith, e, within)) before
        | inl e ↦
            let h : i < length c.user_config = ground (arith, e, size) in
            elim (Option-cases (peek c.user_config i)) [
              | inl free ↦
                  let (same, kept) = step_none fuel i c freed size h free in
                  Freed-step kept same (
                    free_from fuel (suc i) c freed (size, count, fits) (omega (arith, h, size))
                      (λ j below. before_next c i j before free below) (omega (arith, enough)))
              | inr (a, used) ↦
                  let (same, kept) = step_some fuel i c freed size h a used in
                  Freed-step kept same (
                    free_from fuel (suc i) (emptied c i) (freed ++ (a ∷ []))
                      (emptied-IsContext c i a (size, count, fits) used) (omega (arith, h, size))
                      (λ j below. peek-emptied c i j h before below) (omega (arith, enough)))
            ]
      ]

  -- SSLFreeConfig over a well-formed context: with a step for each slot and one more, every
  -- configuration is freed once, in the order of the policies, and no policy has one afterwards, nor
  -- counts as active.
  pub sf_policy_user_data_iterate-frees :
      (c : Context A) (fuel : ℕ)
      → IsContext c
      → c.num_allocated_policies < fuel
      → (d : Context A) × (sf_policy_user_data_iterate ssl_free_config_policy fuel c []
          ≡ returned (record { ret = 0; context = d; kept = in_use c.user_config }))
        × IsContext d
        × ((j : ℕ) → peek d.user_config j ≡ none)
  unfolding sf_policy_user_data_iterate Freed
  sf_policy_user_data_iterate-frees c fuel ctx enough =
      free_from fuel 0 c [] ctx (omega arith) (λ j below. absurd (omega (arith, below)))
        (omega (arith, enough))
