-- ===== src/Policy/Store.antt =====
-- Well-formed contexts, and what set, get and clear do to them.
use in_free_time.Base.{
  ℕ, zero, suc, ◌+◌, ◌-◌, ◌^◌, ◌≤◌, ◌<◌, ◌≡◌, refl, ◌∙◌, sym, Bool, true, false, Option, none, some,
  List, [], ◌∷◌,
}
use in_free_time.Base.{
  ltb, ◌==◌, if◌then◌else◌, length, get_elem?, set, u32, ok, failed, arith, take-all, inl, inr, ◌⊎◌,
  Bool-cases,
}
use in_free_time.Policy.{Context, returned, policy_allocation_chunk, expand, store}
use in_free_time.Policy.{sf_policy_user_data_set, pointed, sf_policy_user_data_get}
use in_free_time.Policy.Slots.{
  active, peek, length-set, peek-set, active-set-some, active-le-length, peek-lt, get_elem?-peek,
}
use in_free_time.Policy.Slots.{longer-length, longer-active, longer-peek}

module _ {ℓ} {A : Type ℓ} where
  -- The array has the size that is noted for it, and the active policies are counted.
  abbrev pub IsContext : Context A → Type 0
  IsContext c =
      (length c.user_config ≡ c.num_allocated_policies)
      × (active c.user_config ≡ c.num_active_policies)
      × (c.num_allocated_policies < 2 ^ 32)

  at :
      (xs : List (Option A)) (j : ℕ)
      → (if ltb j (length xs) then pointed (get_elem? xs j) else returned none)
        ≡ returned (peek xs j)
  at [] j = ground arith
  at (x ∷ xs) zero = ground arith
  at (x ∷ xs) (suc j) = ground (arith, at xs j)

  pub get-peek :
      (c : Context A) (j : ℕ)
      → length c.user_config ≡ c.num_allocated_policies
      → sf_policy_user_data_get c j ≡ returned (peek c.user_config j)
  unfolding sf_policy_user_data_get
  get-peek c j h = rw (sym h) (at c.user_config j)

  -- A write into a free slot of the array.
  store-free :
      (c : Context A) (id : ℕ) (a : A)
      → IsContext c
      → id < length c.user_config
      → peek c.user_config id ≡ none
      → (d : Context A) × (store c id (some a) (get_elem? c.user_config id) ≡ returned (ok, d))
        × IsContext d
        × ((j : ℕ) → peek d.user_config j ≡ (if j == id then some a else peek c.user_config j))
  unfolding store
  store-free c id a (size, count, fits) h free =
      let wrote : active (set c.user_config id (some a)) ≡ suc (active c.user_config) =
        active-set-some c.user_config id a h free in
      let bound : active (set c.user_config id (some a)) ≤ length c.user_config = omega (
        arith,
        active-le-length (set c.user_config id (some a)),
        length-set c.user_config id (some a),
      ) in
      (
        record c {
          user_config = set c.user_config id (some a);
          num_active_policies = u32 (c.num_active_policies + 1);
        },
        rw (get_elem?-peek c.user_config id h) (rw free refl),
        (length-set c.user_config id (some a) ∙ size, omega (arith, wrote, bound), fits),
        λ j. peek-set c.user_config id j (some a) h,
      )

  -- The larger array has room for the policy, and nothing else has changed.
  expand-lem :
      (c : Context A) (id : ℕ)
      → IsContext c
      → c.num_allocated_policies ≤ id
      → id + policy_allocation_chunk < 2 ^ 32
      → IsContext (expand c id)
        × (id < length (expand c id).user_config)
        × ((j : ℕ) → peek (expand c id).user_config j ≡ peek c.user_config j)
  unfolding expand
  expand-lem c id (size, count, fits) outside room =
      let more : ℕ = u32 (id + policy_allocation_chunk) - c.num_allocated_policies in
      rw (take-all c.num_allocated_policies c.user_config (omega arith)) (
        (
          omega (arith, longer-length c.user_config more),
          longer-active c.user_config more ∙ count,
          omega arith,
        ),
        omega (arith, longer-length c.user_config more),
        λ j. longer-peek c.user_config more j,
      )

  -- What was read back for a free slot, from a write into the array `b` that reads like `c`.
  reads :
      (c b : Context A) (id : ℕ) (a : A)
      → IsContext c
      → ((j : ℕ) → peek b.user_config j ≡ peek c.user_config j)
      → (d : Context A) → IsContext d
      → ((j : ℕ) → peek d.user_config j ≡ (if j == id then some a else peek b.user_config j))
      → (j : ℕ)
      → sf_policy_user_data_get d j
        ≡ (if j == id then returned (some a) else sf_policy_user_data_get c j)
  reads c b id a h same d k wrote j =
      rw (get-peek c j h.0)
        (rw (get-peek d j k.0) (rw (wrote j) (rw (same j) (branches (j == id)))))
    where
      branches :
          (t : Bool)
          → returned (if t then some a else peek c.user_config j)
            ≡ (if t then returned (some a) else returned (peek c.user_config j))
      branches true = refl
      branches false = refl

  -- In a well-formed context, where allocations succeed and the policy's number plus the chunk
  -- fits in 32 bits, a free policy is set: the call succeeds, keeps the context well-formed, and
  -- changes what is read back for this policy and for no other.
  pub sf_policy_user_data_set-get :
      (calloc : ℕ → Bool) (c : Context A) (id : ℕ) (a : A)
      → ((n : ℕ) → calloc n ≡ true)
      → IsContext c
      → id + policy_allocation_chunk < 2 ^ 32
      → sf_policy_user_data_get c id ≡ returned none
      → (d : Context A) × (sf_policy_user_data_set calloc c id (some a) ≡ returned (ok, d))
        × IsContext d
        × ((j : ℕ)
            → sf_policy_user_data_get d j
              ≡ (if j == id then returned (some a) else sf_policy_user_data_get c j))
  unfolding sf_policy_user_data_set
  sf_policy_user_data_set-get calloc c id a succeeds h room free =
      split (Bool-cases (ltb id c.num_allocated_policies))
    where
      empty : peek c.user_config id ≡ none
      empty = grind (arith, get-peek c id h.0, free)

      split :
          (ltb id c.num_allocated_policies ≡ true) ⊎ (ltb id c.num_allocated_policies ≡ false)
          → (d : Context A) × (sf_policy_user_data_set calloc c id (some a) ≡ returned (ok, d))
            × IsContext d
            × ((j : ℕ)
                → sf_policy_user_data_get d j
                  ≡ (if j == id then returned (some a) else sf_policy_user_data_get c j))
      split (inl inside) =
          let (d, stored, k, wrote) = store-free c id a h (ground (arith, inside, h.0)) empty in
          (d, rw inside stored, k, reads c c id a h (λ j. refl) d k wrote)
      split (inr outside) =
          let (k, within, same) = expand-lem c id h (ground (arith, outside)) room in
          let (d, stored, l, wrote) = store-free (expand c id) id a k within (same id ∙ empty) in
          (
            d,
            rw outside (rw (succeeds (u32 (id + policy_allocation_chunk))) stored),
            l,
            reads c (expand c id) id a h same d l wrote,
          )

  -- In a well-formed context a policy that has a configuration is not overwritten: the call fails
  -- and changes nothing.
  pub sf_policy_user_data_set-occupied :
      (calloc : ℕ → Bool) (c : Context A) (id : ℕ) (a : A) (config : Option A)
      → IsContext c
      → sf_policy_user_data_get c id ≡ returned (some a)
      → sf_policy_user_data_set calloc c id config ≡ returned (failed, c)
  unfolding sf_policy_user_data_set store
  sf_policy_user_data_set-occupied calloc c id a config h occupied =
      let found : peek c.user_config id ≡ some a = grind (arith, get-peek c id h.0, occupied) in
      let inside : id < length c.user_config = peek-lt c.user_config id a found in
      let test : ltb id c.num_allocated_policies ≡ true = ground (arith, inside, h.0) in
      rw test (rw (get_elem?-peek c.user_config id inside) (rw found refl))
