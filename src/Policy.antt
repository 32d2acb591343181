-- ===== src/Policy.antt =====
-- sfPolicyUserData.c and the inline functions of sfPolicyUserData.h: an array of user pointers,
-- indexed by policy, which grows on demand. A null pointer is `none`; an access outside the array
-- is a fault.
pub mod Slots
pub mod Store
pub mod Clear
pub mod Iterate
use in_free_time.Base.{
  ℕ, ◌+◌, ◌-◌, ◌%◌, ◌^◌, ◌≡◌, Bool, true, false, Option, none, some, List, [], ◌∷◌, ◌++◌,
}
use in_free_time.Base.{
  ltb, if◌then◌else◌, length, get_elem?, set, take, replicate, u32, Ret, ok, failed,
}

-- `tSfPolicyUserContext`, over user configurations `A`. What `userConfig` points to is a list.
pub record Context {ℓ} (A : Type ℓ) : Type ℓ where
  pub current_policy_id : ℕ
  pub num_allocated_policies : ℕ
  pub num_active_policies : ℕ
  pub user_config : List (Option A)

-- A call comes back, or reads or writes outside the array.
pub data Outcome {ℓ} (A : Type ℓ) : Type ℓ where
  returned : A → Outcome A
  fault : Outcome A

abbrev pub policy_allocation_chunk : ℕ
policy_allocation_chunk = 10

module _ {ℓ} {A : Type ℓ} where
  -- `sfPolicyConfigCreate`, where the allocation succeeds.
  unfoldable pub sf_policy_config_create : Context A
  sf_policy_config_create = record {
    current_policy_id = 0;
    num_allocated_policies = 0;
    num_active_policies = 0;
    user_config = [];
  }

  -- The array is replaced by a larger one of null pointers with the old contents copied in.
  -- (A new size that wraps around 2^32 is smaller, and the copy would run over the new array: that
  -- overrun is not seen here.)
  unfoldable pub expand : Context A → ℕ → Context A
  expand c policy_id =
      let size = u32 (policy_id + policy_allocation_chunk) in
      record c {
        user_config =
            take c.num_allocated_policies c.user_config
            ++ replicate (size - c.num_allocated_policies) none;
        num_allocated_policies = size;
      }

  unfoldable pub store : Context A → ℕ → Option A → Option (Option A) → Outcome (Ret × Context A)
  store c policy_id config none = fault
  store c policy_id config (some (some old)) = returned (failed, c)
  store c policy_id config (some none) = returned (
    ok,
    record c {
      user_config = set c.user_config policy_id config;
      num_active_policies = u32 (c.num_active_policies + 1);
    },
  )

  -- `sfPolicyUserDataSet`; `calloc` tells whether the allocation succeeds.
  unfoldable pub sf_policy_user_data_set :
      (ℕ → Bool) → Context A → ℕ → Option A → Outcome (Ret × Context A)
  sf_policy_user_data_set calloc c policy_id config =
      if ltb policy_id c.num_allocated_policies
      then store c policy_id config (get_elem? c.user_config policy_id)
      else if calloc (u32 (policy_id + policy_allocation_chunk))
      then store (expand c policy_id) policy_id config
          (get_elem? (expand c policy_id).user_config policy_id)
      else returned (failed, c)

  unfoldable pub cleared : Context A → ℕ → Option (Option A) → Outcome (Option A × Context A)
  cleared c policy_id none = fault
  cleared c policy_id (some old) = returned (
    old,
    record c {
      user_config = set c.user_config policy_id none;
      num_active_policies = u32 (c.num_active_policies + 2 ^ 32 - 1);
    },
  )

  -- `sfPolicyUserDataClear`
  unfoldable pub sf_policy_user_data_clear : Context A → ℕ → Outcome (Option A × Context A)
  sf_policy_user_data_clear c policy_id =
      if ltb policy_id c.num_allocated_policies
      then cleared c policy_id (get_elem? c.user_config policy_id)
      else returned (none, c)

  abbrev pub pointed : Option (Option A) → Outcome (Option A)
  pointed none = fault
  pointed (some p) = returned p

  -- `sfPolicyUserDataGet`, for a context that is not null
  unfoldable pub sf_policy_user_data_get : Context A → ℕ → Outcome (Option A)
  sf_policy_user_data_get c policy_id =
      if ltb policy_id c.num_allocated_policies
      then pointed (get_elem? c.user_config policy_id)
      else returned none

  -- `sfPolicyUserPolicySet`, and what is set and got for the current policy
  unfoldable pub sf_policy_user_policy_set : Context A → ℕ → Context A
  sf_policy_user_policy_set c policy_id = record c { current_policy_id = policy_id }

  unfoldable pub sf_policy_user_data_get_current : Context A → Outcome (Option A)
  sf_policy_user_data_get_current c = sf_policy_user_data_get c c.current_policy_id

  unfoldable pub sf_policy_user_data_set_current :
      (ℕ → Bool) → Context A → Option A → Outcome (Ret × Context A)
  sf_policy_user_data_set_current calloc c config =
      sf_policy_user_data_set calloc c c.current_policy_id config
