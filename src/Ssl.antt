-- ===== src/Ssl.antt =====
-- ssl.c and ssl.h: the flags, the reads of a packet, and `SSL_decode_version_v3`. A packet is the
-- list of its bytes; a read outside it is a fault, `none`.
pub mod Handshake
pub mod Records
pub mod Version2
pub mod Decode
pub mod Runs
pub mod Direction
pub mod HandshakeRuns
pub mod RecordsRuns
pub mod Version2Runs
pub mod Total
pub mod FirstRecord
use in_free_time.Base.{
  ℕ, ◌+◌, ◌*◌, ◌^◌, Bool, true, false, Option, none, some, Bytes, get_elem?, not,
}
use in_free_time.Base.{◌==◌, if◌then◌else◌, bit_or, bit_and}

abbrev pub change_cipher_flag : ℕ
change_cipher_flag = 0x1

abbrev pub alert_flag : ℕ
alert_flag = 0x2

abbrev pub possible_hs_flag : ℕ
possible_hs_flag = 0x4

abbrev pub client_hello_flag : ℕ
client_hello_flag = 0x8

abbrev pub server_hello_flag : ℕ
server_hello_flag = 0x10

abbrev pub certificate_flag : ℕ
certificate_flag = 0x20

abbrev pub server_keyx_flag : ℕ
server_keyx_flag = 0x40

abbrev pub client_keyx_flag : ℕ
client_keyx_flag = 0x80

-- Not set by the decoder.
abbrev pub sfinished_flag : ℕ
sfinished_flag = 0x200

abbrev pub sapp_flag : ℕ
sapp_flag = 0x400

abbrev pub capp_flag : ℕ
capp_flag = 0x800

abbrev pub hs_sdone_flag : ℕ
hs_sdone_flag = 0x1000

abbrev pub heartbeat_seen : ℕ
heartbeat_seen = 0x2000

abbrev pub ver_sslv2_flag : ℕ
ver_sslv2_flag = 0x4000

abbrev pub ver_sslv3_flag : ℕ
ver_sslv3_flag = 0x8000

abbrev pub ver_tls10_flag : ℕ
ver_tls10_flag = 0x10000

abbrev pub ver_tls11_flag : ℕ
ver_tls11_flag = 0x20000

abbrev pub ver_tls12_flag : ℕ
ver_tls12_flag = 0x40000

abbrev pub possibly_enc_flag : ℕ
possibly_enc_flag = 0x80000

-- `SSL_VERFLAGS`, the disjunction of the five versions
abbrev pub verflags : ℕ
verflags = 0x7C000

abbrev pub cur_client_hello_flag : ℕ
cur_client_hello_flag = 0x100000

abbrev pub cur_server_hello_flag : ℕ
cur_server_hello_flag = 0x200000

abbrev pub cur_server_keyx_flag : ℕ
cur_server_keyx_flag = 0x400000

abbrev pub cur_client_keyx_flag : ℕ
cur_client_keyx_flag = 0x800000

abbrev pub unknown_flag : ℕ
unknown_flag = 0x1000000

abbrev pub v3_back_compat_v2 : ℕ
v3_back_compat_v2 = 0x2000000

abbrev pub bogus_hs_dir_flag : ℕ
bogus_hs_dir_flag = 0x8000000

-- Not set by the decoder.
abbrev pub trailing_garb_flag : ℕ
trailing_garb_flag = 0x10000000

abbrev pub bad_type_flag : ℕ
bad_type_flag = 0x20000000

abbrev pub bad_ver_flag : ℕ
bad_ver_flag = 0x40000000

abbrev pub truncated_flag : ℕ
truncated_flag = 0x80000000

-- `pkt_flags & FLAG_FROM_SERVER` and `pkt_flags & FLAG_FROM_CLIENT` of sf_snort_packet.h
abbrev pub from_server : ℕ → Bool
from_server pkt_flags = not (bit_and pkt_flags 0x40 == 0)

abbrev pub from_client : ℕ → Bool
from_client pkt_flags = not (bit_and pkt_flags 0x80 == 0)

infixl 5 ◌>>=◌
abbrev pub ◌>>=◌ {ℓ κ} : {A : Type ℓ} {B : Type κ} → Option A → (A → Option B) → Option B
none >>= f = none
some a >>= f = f a

-- `ntohs` of two bytes of the packet
unfoldable pub ntohs_at : Bytes → ℕ → Option ℕ
ntohs_at pkt i = do high ← get_elem? pkt i; low ← get_elem? pkt (i + 1); some (high * 2 ^ 8 + low)

-- `THREE_BYTE_LEN`
unfoldable pub three_byte_len : Bytes → ℕ → Option ℕ
three_byte_len pkt i = do
  x0 ← get_elem? pkt i
  x1 ← get_elem? pkt (i + 1)
  x2 ← get_elem? pkt (i + 2)
  some (bit_or (bit_or x2 (x1 * 2 ^ 8)) (x0 * 2 ^ 16))

-- `SSL_decode_version_v3`
unfoldable pub ssl_decode_version_v3 : ℕ → ℕ → ℕ
ssl_decode_version_v3 major minor =
    if major == 3
    then (if minor == 0
        then ver_sslv3_flag
        else if minor == 1
        then ver_tls10_flag
        else if minor == 2
        then ver_tls11_flag
        else if minor == 3
        then ver_tls12_flag
        else bad_ver_flag)
    else bad_ver_flag
