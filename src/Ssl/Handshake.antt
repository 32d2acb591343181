-- ===== src/Ssl/Handshake.antt =====
-- `SSL_decode_handshake_v3` of ssl.c: the messages of one handshake record.
use in_free_time.Base.{ℕ, zero, suc, ◌-◌, Option, none, some, Bytes, get_elem?}
use in_free_time.Base.{◌==◌, ltb, if◌then◌else◌, bit_or, bit_and, drop, ◌||◌}
use in_free_time.Ssl.{possible_hs_flag, client_hello_flag}
use in_free_time.Ssl.{server_hello_flag, certificate_flag, server_keyx_flag, client_keyx_flag}
use in_free_time.Ssl.{hs_sdone_flag}
use in_free_time.Ssl.{possibly_enc_flag, verflags, cur_client_hello_flag, cur_server_hello_flag}
use in_free_time.Ssl.{cur_server_keyx_flag, cur_client_keyx_flag}
use in_free_time.Ssl.{bogus_hs_dir_flag, bad_ver_flag, truncated_flag}
use in_free_time.Ssl.{from_server, ◌>>=◌, three_byte_len, ssl_decode_version_v3}

-- The version of a hello message, with `size` bytes behind the message's header. A version is
-- looked for in the flags of the record.
unfoldable pub hello_version : Bytes → ℕ → ℕ → ℕ → Option ℕ
hello_version hello size cur_flags retval =
    if ltb size 2 then some (bit_or retval truncated_flag) else do
      major ← get_elem? hello 4
      minor ← get_elem? hello 5
      let versions = bit_or retval (ssl_decode_version_v3 major minor)
      some (
          if bit_and cur_flags verflags == bit_and versions verflags
          then versions
          else bit_or versions bad_ver_flag)

-- The switch goes on with new flags, or the function returns that the record may be encrypted.
pub data Message : Type 0 where
  flagged : ℕ → Message
  possibly_encrypted : Message

unfoldable pub hello : Bytes → ℕ → ℕ → ℕ → Option Message
hello handshake size cur_flags retval = do
  f ← hello_version handshake size cur_flags retval
  some (flagged f)

-- The switch on `handshake->type`.
unfoldable pub handshake_message : ℕ → ℕ → ℕ → Bytes → ℕ → ℕ → Option Message
handshake_message type cur_flags pkt_flags handshake size retval =
    if type == 1
    then hello handshake size cur_flags (
        bit_or retval (
          if from_server pkt_flags
          then bogus_hs_dir_flag
          else bit_or client_hello_flag cur_client_hello_flag))
    else if type == 2
    then hello handshake size cur_flags (
        bit_or retval (
          if from_server pkt_flags
          then bit_or server_hello_flag cur_server_hello_flag
          else bogus_hs_dir_flag))
    else if type == 14
    then some (
        flagged
          (bit_or retval (if from_server pkt_flags then hs_sdone_flag else bogus_hs_dir_flag)))
    else if type == 12
    then some (
        flagged (
          bit_or retval (
            if from_server pkt_flags
            then bit_or server_keyx_flag cur_server_keyx_flag
            else bogus_hs_dir_flag)))
    else if type == 16
    then some (
        flagged (
          bit_or retval (
            if from_server pkt_flags
            then bogus_hs_dir_flag
            else bit_or client_keyx_flag cur_client_keyx_flag)))
    else if type == 11
    then some (flagged (bit_or retval certificate_flag))
    else if type == 0 || type == 15 || type == 13 || type == 21 || type == 22
    then some (flagged retval)
    else some possibly_encrypted

-- `size -= hs_len; pkt += hs_len`, and the test behind the loop where that makes `size` negative.
unfoldable pub next_message : (Bytes → ℕ → ℕ → Option ℕ) → Bytes → ℕ → ℕ → Message → Option ℕ
next_message again pkt size hs_len possibly_encrypted =
    some (bit_or possible_hs_flag possibly_enc_flag)
next_message again pkt size hs_len (flagged retval) =
    if ltb size hs_len
    then some (bit_or retval truncated_flag)
    else again (drop hs_len pkt) (size - hs_len) retval

-- A round of the loop, entered with `size > 0`.
unfoldable pub handshake_round : (Bytes → ℕ → ℕ → Option ℕ) → ℕ → ℕ → Bytes → ℕ → ℕ → Option ℕ
handshake_round again cur_flags pkt_flags pkt size retval =
    if ltb size 4 then some (bit_or retval truncated_flag) else do
      hs_len ← three_byte_len pkt 1
      type ← get_elem? pkt 0
      message ← handshake_message type cur_flags pkt_flags pkt (size - 4) retval
      next_message again (drop 4 pkt) (size - 4) hs_len message

-- Out of fuel is `none` too.
unfoldable pub handshake_loop : ℕ → ℕ → ℕ → Bytes → ℕ → ℕ → Option ℕ
handshake_loop fuel cur_flags pkt_flags pkt zero retval = some retval
handshake_loop zero cur_flags pkt_flags pkt (suc size) retval = none
handshake_loop (suc fuel) cur_flags pkt_flags pkt (suc size) retval =
    handshake_round (handshake_loop fuel cur_flags pkt_flags) cur_flags pkt_flags pkt (suc size)
      retval

-- Each round takes 4 bytes at least, so `size` rounds are enough.
unfoldable pub ssl_decode_handshake_v3 : Bytes → ℕ → ℕ → ℕ → Option ℕ
ssl_decode_handshake_v3 pkt size cur_flags pkt_flags =
    handshake_loop size cur_flags pkt_flags pkt size 0
