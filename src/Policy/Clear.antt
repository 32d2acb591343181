-- ===== src/Policy/Clear.antt =====
-- Clearing a policy: the law of a policy in use, and what happens to the count for one that is not.
use in_free_time.Base.{
  ℕ, suc, ◌+◌, ◌-◌, ◌^◌, ◌≤◌, ◌<◌, ◌≡◌, refl, ◌∙◌, Bool, true, false, none, some,
}
use in_free_time.Base.{ltb, ◌==◌, if◌then◌else◌, length, set, u32, arith}
use in_free_time.Policy.{
  Context, returned, cleared, sf_policy_user_data_clear, sf_policy_user_data_get,
}
use in_free_time.Policy.Slots.{
  active, peek, length-set, peek-set, active-set-none, active-le-length, active-set-le, peek-lt,
  get_elem?-peek,
}
use in_free_time.Policy.Store.{IsContext, get-peek}

module _ {ℓ} {A : Type ℓ} where
  abbrev pub emptied : Context A → ℕ → Context A
  emptied c id = record c {
    user_config = set c.user_config id none;
    num_active_policies = u32 (c.num_active_policies + 2 ^ 32 - 1);
  }

  pub clear-inside :
      (c : Context A) (id : ℕ)
      → length c.user_config ≡ c.num_allocated_policies
      → id < length c.user_config
      → sf_policy_user_data_clear c id ≡ returned (peek c.user_config id, emptied c id)
  unfolding sf_policy_user_data_clear cleared
  clear-inside c id size inside =
      let test : ltb id c.num_allocated_policies ≡ true = ground (arith, inside, size) in
      rw test (rw (get_elem?-peek c.user_config id inside) refl)

  -- Without a policy in use, a context is well-formed again.
  pub emptied-IsContext :
      (c : Context A) (id : ℕ) (a : A)
      → IsContext c
      → peek c.user_config id ≡ some a
      → IsContext (emptied c id)
  emptied-IsContext c id a (size, count, fits) found =
      let fewer : suc (active (set c.user_config id none)) ≡ active c.user_config =
        active-set-none c.user_config id a found in
      let bound : active c.user_config ≤ length c.user_config = active-le-length c.user_config in
      (length-set c.user_config id none ∙ size, omega (arith, fewer, bound), fits)

  -- In a well-formed context, clearing a policy in use gives back its configuration, keeps the
  -- context well-formed, and changes what is read back for this policy and for no other.
  pub sf_policy_user_data_clear-get :
      (c : Context A) (id : ℕ) (a : A)
      → IsContext c
      → sf_policy_user_data_get c id ≡ returned (some a)
      → (d : Context A) × (sf_policy_user_data_clear c id ≡ returned (some a, d))
        × IsContext d
        × ((j : ℕ)
            → sf_policy_user_data_get d j
              ≡ (if j == id then returned none else sf_policy_user_data_get c j))
  sf_policy_user_data_clear-get c id a (size, count, fits) used =
      let found : peek c.user_config id ≡ some a = grind (arith, get-peek c id size, used) in
      let inside : id < length c.user_config = peek-lt c.user_config id a found in
      let kept : length (set c.user_config id none) ≡ c.num_allocated_policies =
        length-set c.user_config id none ∙ size in
      (
        emptied c id,
        clear-inside c id size inside ∙ rw found refl,
        emptied-IsContext c id a (size, count, fits) found,
        λ j. rw (get-peek c j size) (
            rw (get-peek (emptied c id) j kept)
              (rw (peek-set c.user_config id j none inside) (branches j (j == id)))),
      )
    where
      branches :
          (j : ℕ) (t : Bool)
          → returned (if t then none else peek c.user_config j)
            ≡ (if t then returned none else returned (peek c.user_config j))
      branches j true = refl
      branches j false = refl

  -- Clearing a slot of the array that holds no configuration counts one policy off all the same:
  -- in a well-formed context without active policies the count becomes 2^32 - 1.
  pub sf_policy_user_data_clear_empty :
      (c : Context A) (id : ℕ)
      → IsContext c
      → id < c.num_allocated_policies
      → c.num_active_policies ≡ 0
      → (d : Context A) × (sf_policy_user_data_clear c id ≡ returned (peek c.user_config id, d))
        × (d.num_active_policies ≡ 2 ^ 32 - 1)
        × ¬ IsContext d
  sf_policy_user_data_clear_empty c id (size, count, fits) inside unused = (
    emptied c id,
    clear-inside c id size (omega arith),
    omega arith,
    λ broken. omega (arith, broken.1, active-set-le c.user_config id),
  )
