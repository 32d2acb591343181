-- ===== src/Examples/Sessions.antt =====
-- The SSL decoder and the policy contexts at concrete inputs.
use in_free_time.Base.{ℕ, ◌-◌, ◌^◌, ◌≡◌, refl, true, none, some, [], ◌∷◌}
use in_free_time.Base.{Bytes, arith, ◌==◌, if◌then◌else◌, ok, failed}
use in_free_time.Base.Int.{pos}
use in_free_time.Base.Bits.{bit_at}
use in_free_time.Ssl.Records.{Decoded}
use in_free_time.Ssl.Version2.{ssl_decode_v2}
use in_free_time.Ssl.Decode.{ssl_decode}
use in_free_time.Ssl.Total.{
  ssl_decode-total, ssl_decode-from_server, ssl_decode-from_client, ssl_decode_overread,
}
use in_free_time.Base.{◌+◌, ◌*◌, bit_or}
use in_free_time.Ssl.{ver_sslv2_flag}
use in_free_time.Ssl.FirstRecord.{with_rest, ssl_decode_v2_first_record}
use in_free_time.Policy.{
  Context, returned, sf_policy_user_data_set, sf_policy_user_data_get, sf_policy_user_data_clear,
}
use in_free_time.Policy.Slots.{peek}
use in_free_time.Policy.Iterate.{
  sf_policy_user_data_iterate, ssl_free_config_policy, sf_policy_user_data_iterate-frees,
}
use in_free_time.Policy.Store.{
  IsContext, sf_policy_user_data_set-get, sf_policy_user_data_set-occupied,
}
use in_free_time.Policy.Clear.{sf_policy_user_data_clear-get, sf_policy_user_data_clear_empty}

-- A TLS 1.2 record with a client hello cut short.
abbrev tls_hello : Bytes
tls_hello = 22 ∷ 3 ∷ 3 ∷ 0 ∷ 6 ∷ 1 ∷ 0 ∷ 0 ∷ 2 ∷ 3 ∷ 3 ∷ []

ssl_decode-total_example :
    (d : Decoded) × (ssl_decode (some tls_hello) 11 0x80 0 (some 0) (some 0) (pos 0) ≡ some d)
    × (bit_at 28 d.flags ≡ 0)
ssl_decode-total_example =
    ssl_decode-total tls_hello 11 0x80 0 (some 0) (some 0) (pos 0) (omega arith)
      (λ e. absurd (omega (arith, e)))

ssl_decode-from_server_example :
    (d : Decoded) × (ssl_decode (some tls_hello) 11 0x40 0 (some 0) (some 0) (pos 0) ≡ some d)
    × (bit_at 3 d.flags ≡ 0)
ssl_decode-from_server_example =
    ssl_decode-from_server tls_hello 11 0x40 0 (some 0) (some 0) (pos 0) (omega arith)
      (λ e. absurd (omega (arith, e))) refl

ssl_decode-from_client_example :
    (d : Decoded) × (ssl_decode (some tls_hello) 11 0x80 0 (some 0) (some 0) (pos 0) ≡ some d)
    × (bit_at 4 d.flags ≡ 0)
ssl_decode-from_client_example =
    ssl_decode-from_client tls_hello 11 0x80 0 (some 0) (some 0) (pos 0) (omega arith)
      (λ e. absurd (omega (arith, e))) refl refl

ssl_decode_overread_example :
    ssl_decode (some (22 ∷ 3 ∷ 1 ∷ 0 ∷ 3 ∷ 1 ∷ 0 ∷ 2 ∷ [])) 8 0x80 0 (some 0) (some 0) (pos 0)
    ≡ none
ssl_decode_overread_example =
    ssl_decode_overread 22 3 1 0 3 1 0 0x80 0 (some 0) (some 0) (pos 0) refl refl refl refl

ssl_decode_v2_first_record_example :
    ssl_decode_v2 (0x80 ∷ 3 ∷ 2 ∷ 0 ∷ 0 ∷ 0x80 ∷ 9 ∷ 1 ∷ 0 ∷ 0 ∷ 0 ∷ 0 ∷ []) (2 * 5 + 2) 0x80
    ≡ some (bit_or (with_rest 2) ver_sslv2_flag)
ssl_decode_v2_first_record_example =
    ssl_decode_v2_first_record 0x80 3 0x80 1 2 (0 ∷ 0 ∷ 0x80 ∷ 9 ∷ 1 ∷ 0 ∷ 0 ∷ 0 ∷ 0 ∷ [])
      (omega arith) (omega arith)

-- Two slots, the second in use.
abbrev two_slots : Context ℕ
two_slots = record {
  current_policy_id = 0;
  num_allocated_policies = 2;
  num_active_policies = 1;
  user_config = none ∷ some 7 ∷ [];
}

abbrev no_configs : Context ℕ
no_configs = record {
  current_policy_id = 0;
  num_allocated_policies = 2;
  num_active_policies = 0;
  user_config = none ∷ none ∷ [];
}

sf_policy_user_data_set-get_example :
    (d : Context ℕ) × (sf_policy_user_data_set (λ n. true) two_slots 5 (some 8) ≡ returned (ok, d))
    × IsContext d
    × ((j : ℕ)
        → sf_policy_user_data_get d j
          ≡ (if j == 5 then returned (some 8) else sf_policy_user_data_get two_slots j))
unfolding sf_policy_user_data_get
sf_policy_user_data_set-get_example =
    sf_policy_user_data_set-get (λ n. true) two_slots 5 8 (λ n. refl) (refl, refl, omega arith)
      (omega arith) refl

sf_policy_user_data_set-occupied_example :
    sf_policy_user_data_set (λ n. true) two_slots 1 (some 8) ≡ returned (failed, two_slots)
unfolding sf_policy_user_data_get
sf_policy_user_data_set-occupied_example =
    sf_policy_user_data_set-occupied (λ n. true) two_slots 1 7 (some 8) (refl, refl, omega arith)
      refl

sf_policy_user_data_clear-get_example :
    (d : Context ℕ) × (sf_policy_user_data_clear two_slots 1 ≡ returned (some 7, d))
    × IsContext d
    × ((j : ℕ)
        → sf_policy_user_data_get d j
          ≡ (if j == 1 then returned none else sf_policy_user_data_get two_slots j))
unfolding sf_policy_user_data_get
sf_policy_user_data_clear-get_example =
    sf_policy_user_data_clear-get two_slots 1 7 (refl, refl, omega arith) refl

sf_policy_user_data_clear_empty_example :
    (d : Context ℕ) × (sf_policy_user_data_clear no_configs 0
      ≡ returned (peek no_configs.user_config 0, d))
    × (d.num_active_policies ≡ 2 ^ 32 - 1)
    × ¬ IsContext d
sf_policy_user_data_clear_empty_example =
    sf_policy_user_data_clear_empty no_configs 0 (refl, refl, omega arith) (omega arith) refl

sf_policy_user_data_iterate-frees_example :
    (d : Context ℕ) × (sf_policy_user_data_iterate ssl_free_config_policy 3 two_slots []
      ≡ returned (record { ret = 0; context = d; kept = 7 ∷ [] }))
    × IsContext d
    × ((j : ℕ) → peek d.user_config j ≡ none)
sf_policy_user_data_iterate-frees_example =
    sf_policy_user_data_iterate-frees two_slots 3 (refl, refl, omega arith) (omega arith)
