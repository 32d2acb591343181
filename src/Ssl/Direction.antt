-- ===== src/Ssl/Direction.antt =====
-- The directions of a packet, and the flags that a direction rules out.
use in_free_time.Base.{ℕ, ◌≡◌, refl, Bool, true, false, bit_or, if◌then◌else◌, ◌==◌, arith}
use in_free_time.Base.Bits.{bit_at, bit_at-bit_or}
use in_free_time.Ssl.{client_hello_flag}
use in_free_time.Ssl.{server_hello_flag}
use in_free_time.Ssl.{ver_sslv3_flag, ver_tls10_flag, ver_tls11_flag, ver_tls12_flag}
use in_free_time.Ssl.{cur_client_hello_flag, cur_server_hello_flag}
use in_free_time.Ssl.{bogus_hs_dir_flag, bad_ver_flag}
use in_free_time.Ssl.{from_server, from_client, ssl_decode_version_v3}

-- Bit 3 is `SSL_CLIENT_HELLO_FLAG` and bit 4 is `SSL_SERVER_HELLO_FLAG`: a packet from the server
-- holds no client hello, and one from the client no server hello. Bit 28, `SSL_TRAILING_GARB_FLAG`,
-- is never set.
pub data Forbids (pkt_flags : ℕ) : ℕ → Type 0 where
  server : from_server pkt_flags ≡ true → Forbids pkt_flags 3
  client : from_server pkt_flags ≡ false → from_client pkt_flags ≡ true → Forbids pkt_flags 4
  always : Forbids pkt_flags 28
  unencrypted : Forbids pkt_flags 26

-- The flags `f` lack bit `i`.
pub data Lacks (i f : ℕ) : Type 0 where
  absent : bit_at i f ≡ 0 → Lacks i f

pub bit_at-absent : {i f : ℕ} → Lacks i f → bit_at i f ≡ 0
bit_at-absent (absent p) = p

pub bit_or-Lacks : {i a b : ℕ} → Lacks i a → Lacks i b → Lacks i (bit_or a b)
bit_or-Lacks {i} {a} {b} (absent p) (absent q) = absent (omega (arith, bit_at-bit_or i a b))

pub if-Lacks : {i x y : ℕ} (b : Bool) → Lacks i x → Lacks i y → Lacks i (if b then x else y)
if-Lacks true p q = p
if-Lacks false p q = q

pub constant-Lacks :
    {pkt_flags i : ℕ} (f : ℕ)
    → Forbids pkt_flags i
    → bit_at 3 f ≡ 0
    → bit_at 4 f ≡ 0
    → bit_at 28 f ≡ 0
    → bit_at 26 f ≡ 0
    → Lacks i f
constant-Lacks f (server s) p q r u = absent p
constant-Lacks f (client s c) p q r u = absent q
constant-Lacks f always p q r u = absent r
constant-Lacks f unencrypted p q r u = absent u

pub version-Lacks :
    {pkt_flags i : ℕ} (major minor : ℕ)
    → Forbids pkt_flags i
    → Lacks i (ssl_decode_version_v3 major minor)
unfolding ssl_decode_version_v3
version-Lacks {i = i} major minor h =
    let c : (f : ℕ)
        → bit_at 3 f ≡ 0
        → bit_at 4 f ≡ 0
        → bit_at 28 f ≡ 0
        → bit_at 26 f ≡ 0
        → Lacks i f =
      λ f. constant-Lacks f h in
    if-Lacks (major == 3)
      (if-Lacks (minor == 0) (c ver_sslv3_flag refl refl refl refl) (
        if-Lacks (minor == 1) (c ver_tls10_flag refl refl refl refl) (
          if-Lacks (minor == 2) (c ver_tls11_flag refl refl refl refl) (
            if-Lacks (minor == 3) (c ver_tls12_flag refl refl refl refl)
              (c bad_ver_flag refl refl refl refl)))))
      (c bad_ver_flag refl refl refl refl)

-- The flags of a client hello, whose direction is tested.
pub client_hello-Lacks :
    {pkt_flags i : ℕ}
    → Forbids pkt_flags i
    → Lacks i (
        if from_server pkt_flags
        then bogus_hs_dir_flag
        else bit_or client_hello_flag cur_client_hello_flag)
client_hello-Lacks (server s) = rw s (absent refl)
client_hello-Lacks (client s c) = rw s (absent refl)
client_hello-Lacks {pkt_flags} always = if-Lacks (from_server pkt_flags) (absent refl) (absent refl)
client_hello-Lacks {pkt_flags} unencrypted =
    if-Lacks (from_server pkt_flags) (absent refl) (absent refl)

pub server_hello-Lacks :
    {pkt_flags i : ℕ}
    → Forbids pkt_flags i
    → Lacks i (
        if from_server pkt_flags
        then bit_or server_hello_flag cur_server_hello_flag
        else bogus_hs_dir_flag)
server_hello-Lacks (server s) = rw s (absent refl)
server_hello-Lacks (client s c) = rw s (absent refl)
server_hello-Lacks {pkt_flags} always = if-Lacks (from_server pkt_flags) (absent refl) (absent refl)
server_hello-Lacks {pkt_flags} unencrypted =
    if-Lacks (from_server pkt_flags) (absent refl) (absent refl)

pub v2_server_hello-Lacks :
    {pkt_flags i : ℕ}
    → Forbids pkt_flags i
    → Lacks i (
        if from_client pkt_flags
        then bogus_hs_dir_flag
        else bit_or server_hello_flag cur_server_hello_flag)
v2_server_hello-Lacks {pkt_flags} (server s) =
    if-Lacks (from_client pkt_flags) (absent refl) (absent refl)
v2_server_hello-Lacks (client s c) = rw c (absent refl)
v2_server_hello-Lacks {pkt_flags} always =
    if-Lacks (from_client pkt_flags) (absent refl) (absent refl)
v2_server_hello-Lacks {pkt_flags} unencrypted =
    if-Lacks (from_client pkt_flags) (absent refl) (absent refl)
