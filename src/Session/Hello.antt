-- ===== src/Session/Hello.antt =====
-- `IsTlsClientHello`, `IsTlsServerHello` and `IsSSL` of ssl_inspect.c.
use in_free_time.Base.{
  ℕ, ◌≡◌, ◌≢◌, ◌↔◌, refl, Bool, true, false, not, Option, none, some, Bytes, get_elem?, length, [],
  ◌∷◌, arith,
}
use in_free_time.Base.{◌==◌, ltb, if◌then◌else◌, ◌&&◌, ◌||◌, bit_or}
use in_free_time.Base.Flags.{has}
use in_free_time.Base.Int.{pos}
use in_free_time.Ssl.{◌>>=◌, bogus_hs_dir_flag, bad_ver_flag, bad_type_flag, unknown_flag}
use in_free_time.Ssl.Decode.{ssl_decode}

-- `IsTlsClientHello`; the list is the bytes from `ptr` to `end`, and `none` is a read behind them.
-- The fourth byte is read only where the third one is no `SSL2_CHELLO_BYTE`.
unfoldable pub is_tls_client_hello : Bytes → Option Bool
is_tls_client_hello bytes =
    if ltb (length bytes) 3
    then some false
    else (get_elem? bytes 0 >>= λ b0. get_elem? bytes 1 >>= λ b1. get_elem? bytes 2 >>= λ b2.
        if b0 == 0x16 && b1 == 0x03
        then some true
        else if b2 == 0x01
        then some true
        else (get_elem? bytes 3 >>= λ b3. some (b3 == 0x01)))

-- `IsTlsServerHello`
unfoldable pub is_tls_server_hello : Bytes → Option Bool
is_tls_server_hello bytes =
    if ltb (length bytes) 3
    then some false
    else (get_elem? bytes 0 >>= λ b0. get_elem? bytes 1 >>= λ b1.
        get_elem? bytes 2 >>= λ b2. some (b0 == 0x16 && b1 == 0x03 || b2 == 0x04))

-- `SSL_ERROR_FLAGS`
abbrev pub error_flags : ℕ
error_flags = bit_or bogus_hs_dir_flag (bit_or bad_ver_flag (bit_or bad_type_flag unknown_flag))

-- `IsSSL`
unfoldable pub is_ssl : Option Bytes → ℕ → ℕ → Option Bool
is_ssl ptr len pkt_flags = do
  d ← ssl_decode ptr len pkt_flags 0 none none (pos 0)
  some (not (d.flags == 0) && not (has d.flags error_flags))

is_tls_client_hello_total : (bytes : Bytes) → length bytes ≢ 3 → is_tls_client_hello bytes ≢ none
unfolding is_tls_client_hello
is_tls_client_hello_total [] h = ground arith
is_tls_client_hello_total (a ∷ []) h = ground arith
is_tls_client_hello_total (a ∷ b ∷ []) h = ground arith
is_tls_client_hello_total (a ∷ b ∷ c ∷ []) h = absurd (h refl)
is_tls_client_hello_total (a ∷ b ∷ c ∷ d ∷ bytes) h = ground arith

is_tls_server_hello_total : (bytes : Bytes) → is_tls_server_hello bytes ≢ none
unfolding is_tls_server_hello
is_tls_server_hello_total [] = ground arith
is_tls_server_hello_total (a ∷ []) = ground arith
is_tls_server_hello_total (a ∷ b ∷ []) = ground arith
is_tls_server_hello_total (a ∷ b ∷ c ∷ bytes) = ground arith

is_tls_client_hello_three :
    (a b c : ℕ)
    → (is_tls_client_hello (a ∷ b ∷ c ∷ []) ≡ none)
      ↔ (((a == 0x16 && b == 0x03) ≡ false) × ((c == 0x01) ≡ false))
unfolding is_tls_client_hello
is_tls_client_hello_three a b c = ground arith

-- `IsTlsServerHello` reads nothing behind its data. `IsTlsClientHello` does so only for three
-- bytes, and then exactly where they neither begin like a TLS record nor end in the type of an
-- SSLv2 client hello.
is_tls_client_hello_overread :
    (bytes : Bytes) (a b c : ℕ)
    → (is_tls_server_hello bytes ≢ none)
      × (length bytes ≢ 3 → is_tls_client_hello bytes ≢ none)
      × ((is_tls_client_hello (a ∷ b ∷ c ∷ []) ≡ none)
          ↔ (((a == 0x16 && b == 0x03) ≡ false) × ((c == 0x01) ≡ false)))
is_tls_client_hello_overread bytes a b c = (
  is_tls_server_hello_total bytes,
  is_tls_client_hello_total bytes,
  is_tls_client_hello_three a b c,
)
