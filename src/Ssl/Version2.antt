-- ===== src/Ssl/Version2.antt =====
-- `SSL_decode_v2` and `SSL_v3_back_compat_v2` of ssl.c.
use in_free_time.Base.{ℕ, zero, suc, ◌+◌, ◌-◌, ◌%◌, ◌^◌, Bool, Option, none, some, Bytes, get_elem?}
use in_free_time.Base.{◌==◌, ltb, leb, if◌then◌else◌, bit_or, drop, ◌&&◌}
use in_free_time.Ssl.{client_hello_flag}
use in_free_time.Ssl.{server_hello_flag, client_keyx_flag}
use in_free_time.Ssl.{ver_sslv2_flag}
use in_free_time.Ssl.{cur_client_hello_flag, cur_server_hello_flag}
use in_free_time.Ssl.{cur_client_keyx_flag, unknown_flag, v3_back_compat_v2}
use in_free_time.Ssl.{bogus_hs_dir_flag, bad_type_flag, bad_ver_flag, truncated_flag}
use in_free_time.Ssl.{from_server, from_client, ◌>>=◌, ntohs_at}

-- `SSL_v3_back_compat_v2`
unfoldable pub ssl_v3_back_compat_v2 : ℕ → ℕ → Bool
ssl_v3_back_compat_v2 major minor = major == 3 && leb minor 3

-- The switch goes on with new flags, or the function returns its flags at once.
pub data Verdict : Type 0 where
  flagged returns : ℕ → Verdict

unfoldable pub v2_client_hello : Bytes → ℕ → ℕ → Option Verdict
v2_client_hello pkt size retval =
    if ltb size 5 then some (flagged (bit_or retval (bit_or truncated_flag unknown_flag))) else do
      major ← get_elem? pkt 3
      minor ← get_elem? pkt 4
      some (
          flagged (
            if ssl_v3_back_compat_v2 major minor
            then bit_or retval v3_back_compat_v2
            else if minor == 2
            then retval
            else bit_or retval (bit_or bad_ver_flag unknown_flag)))

unfoldable pub v2_server_hello : Bytes → ℕ → ℕ → Option Verdict
v2_server_hello pkt size retval =
    if ltb size 7 then some (flagged (bit_or retval (bit_or truncated_flag unknown_flag))) else do
      minor ← get_elem? pkt 6
      some (
          flagged (if minor == 2 then retval else bit_or retval (bit_or bad_ver_flag unknown_flag)))

-- The switch on `record->type`; `pkt` is where the loop has come to.
unfoldable pub v2_message : ℕ → ℕ → Bytes → ℕ → ℕ → Option Verdict
v2_message type pkt_flags pkt size retval =
    if type == 1
    then v2_client_hello pkt size (
        bit_or retval (
          if from_server pkt_flags
          then bogus_hs_dir_flag
          else bit_or client_hello_flag cur_client_hello_flag))
    else if type == 4
    then v2_server_hello pkt size (
        bit_or retval (
          if from_client pkt_flags
          then bogus_hs_dir_flag
          else bit_or server_hello_flag cur_server_hello_flag))
    else if type == 2
    then some (flagged (bit_or retval (bit_or client_keyx_flag cur_client_keyx_flag)))
    else some (returns (bit_or retval (bit_or bad_type_flag unknown_flag)))

-- `size -= (reclen + 2); pkt += (reclen + 2)`, and the tests behind the loop where that makes
-- `size` negative.
unfoldable pub v2_next : (Bytes → ℕ → ℕ → Option ℕ) → Bytes → ℕ → ℕ → Verdict → Option ℕ
v2_next again pkt size reclen (returns retval) = some retval
v2_next again pkt size reclen (flagged retval) =
    if ltb size (reclen + 2)
    then some (bit_or (bit_or retval truncated_flag) ver_sslv2_flag)
    else again (drop (reclen + 2) pkt) (size - (reclen + 2)) retval

-- A round of the loop, entered with `size > 0`. The length and the type are read through
-- `first`, the pointer `record`, which stays at the start of the packet.
unfoldable pub v2_round : (Bytes → ℕ → ℕ → Option ℕ) → Bytes → ℕ → Bytes → ℕ → ℕ → Option ℕ
v2_round again first pkt_flags pkt size retval =
    if ltb size 5
    then some (bit_or (bit_or retval (bit_or truncated_flag unknown_flag)) ver_sslv2_flag)
    else do
      length ← ntohs_at first 0
      type ← get_elem? first 2
      verdict ← v2_message type pkt_flags pkt size retval
      v2_next again pkt size (length % 2 ^ 15) verdict

-- Out of fuel is `none` too.
unfoldable pub v2_loop : ℕ → Bytes → ℕ → Bytes → ℕ → ℕ → Option ℕ
v2_loop fuel first pkt_flags pkt zero retval = some (bit_or retval ver_sslv2_flag)
v2_loop zero first pkt_flags pkt (suc size) retval = none
v2_loop (suc fuel) first pkt_flags pkt (suc size) retval =
    v2_round (v2_loop fuel first pkt_flags) first pkt_flags pkt (suc size) retval

-- `SSL_decode_v2`. Each round takes 2 bytes at least, so `size` rounds are enough.
unfoldable pub ssl_decode_v2 : Bytes → ℕ → ℕ → Option ℕ
ssl_decode_v2 pkt size pkt_flags = v2_loop size pkt pkt_flags pkt size 0
