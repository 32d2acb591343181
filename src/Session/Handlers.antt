-- ===== src/Session/Handlers.antt =====
-- The handlers of ssl_inspect.c for the kinds of records: each gives the new flags of the session.
use in_free_time.Base.{ℕ, Bool, not, if◌then◌else◌, ◌==◌, ◌&&◌, ◌||◌, bit_or, bit_and}
use in_free_time.Base.Flags.{has, without}
use in_free_time.Base.Int.{pos, eqb_ℤ}
use in_free_time.Ssl.{change_cipher_flag, alert_flag, client_hello_flag}
use in_free_time.Ssl.{server_hello_flag, certificate_flag, server_keyx_flag, client_keyx_flag}
use in_free_time.Ssl.{sfinished_flag, sapp_flag, capp_flag, hs_sdone_flag, heartbeat_seen}
use in_free_time.Ssl.{ver_sslv2_flag}
use in_free_time.Ssl.{unknown_flag, bogus_hs_dir_flag, trailing_garb_flag}
use in_free_time.Ssl.{bad_type_flag, bad_ver_flag, truncated_flag, from_server, from_client}
use in_free_time.Session.{Counters, next_count, World, count, emit, disable, Packet, Host, Config}
use in_free_time.Session.{
  sslpp_disable_flag, sslpp_trustserver_flag, encrypted_flag, stop_inspection,
}

-- `if (new_flags & mask) counts.x++`
abbrev counted : ℕ → ℕ → ℕ → ℕ
counted new_flags mask n = if has new_flags mask then next_count n else n

-- `SSL_UpdateCounts`
unfoldable pub ssl_update_counts : ℕ → Counters → Counters
ssl_update_counts f c = record c {
  cipher_change = counted f change_cipher_flag c.cipher_change;
  alerts = counted f alert_flag c.alerts;
  hs_chello = counted f client_hello_flag c.hs_chello;
  hs_shello = counted f server_hello_flag c.hs_shello;
  hs_cert = counted f certificate_flag c.hs_cert;
  hs_skey = counted f server_keyx_flag c.hs_skey;
  hs_ckey = counted f client_keyx_flag c.hs_ckey;
  hs_finished = counted f sfinished_flag c.hs_finished;
  hs_sdone = counted f hs_sdone_flag c.hs_sdone;
  sapp = counted f sapp_flag c.sapp;
  capp = counted f capp_flag c.capp;
}

-- `SSL_IS_HANDSHAKE`
abbrev pub handshake_flags : ℕ
handshake_flags = 0x1F8

abbrev pub app_flags : ℕ
app_flags = bit_or capp_flag sapp_flag

-- `SSLPP_ENCRYPTED_FLAGS` and `SSLPP_ENCRYPTED_FLAGS2`
abbrev pub encrypted_flags : ℕ
encrypted_flags = bit_or hs_sdone_flag (bit_or client_keyx_flag app_flags)

abbrev pub encrypted_flags2 : ℕ
encrypted_flags2 = bit_or hs_sdone_flag (bit_or change_cipher_flag app_flags)

-- `SSL_IS_CLEAN`
abbrev pub unclean_flags : ℕ
unclean_flags = bit_or bogus_hs_dir_flag (
    bit_or truncated_flag
      (bit_or bad_ver_flag (bit_or bad_type_flag (bit_or trailing_garb_flag unknown_flag))))

-- `(x & mask) == mask`
abbrev pub has_all : ℕ → ℕ → Bool
has_all x mask = bit_and x mask == mask

-- A handler's result: the flags, and what happened.
pub record Turn : Type 0 where
  pub flags : ℕ
  pub world : World

abbrev turn : ℕ → World → Turn
turn f w = record { flags = f; world = w }

-- Whether a session with these flags is encrypted, and whether that is a completed handshake.
pub data Encryption : Type 0 where
  completed_handshake trusted_or_midstream not_encrypted : Encryption

-- `SSLPP_is_encrypted`
unfoldable pub sslpp_is_encrypted : Host → Config → ℕ → Encryption
sslpp_is_encrypted host config ssl_flags =
    if has config.flags sslpp_trustserver_flag && has ssl_flags sapp_flag
    then trusted_or_midstream
    else if has ssl_flags unclean_flags
    then not_encrypted
    else if has_all ssl_flags encrypted_flags || has_all ssl_flags encrypted_flags2
    then completed_handshake
    else if (host.midstream || host.missed_both) && has_all ssl_flags app_flags
    then trusted_or_midstream
    else not_encrypted

-- `SSLPP_process_alert`
unfoldable pub sslpp_process_alert : Config → Packet → ℕ → ℕ → World → Turn
sslpp_process_alert config packet ssn_flags new_flags w =
    let both = bit_or ssn_flags new_flags in
    let done =
      if has both handshake_flags
        && not (has new_flags handshake_flags)
        && not (has new_flags change_cipher_flag)
        && has config.flags sslpp_disable_flag
        && not (has new_flags heartbeat_seen)
      then disable w
      else w in
    if from_client packet.flags
    then turn (without both sapp_flag) done
    else if from_server packet.flags
    then turn (without both capp_flag) done
    else turn both done

-- What `SSLPP_process_hs` merges from a handshake that it takes for a good one.
abbrev pub kept_handshake_flags : ℕ
kept_handshake_flags =
    bit_or client_hello_flag (bit_or server_hello_flag (bit_or client_keyx_flag sfinished_flag))

-- `SSLPP_process_hs`
unfoldable pub sslpp_process_hs : ℕ → ℕ → World → Turn
sslpp_process_hs ssl_flags new_flags w =
    if has new_flags bogus_hs_dir_flag
    then turn ssl_flags (count (λ c. record c { bad_handshakes = next_count c.bad_handshakes }) w)
    else turn (bit_or ssl_flags (bit_and new_flags kept_handshake_flags)) w

-- Inspection is stopped for good if heartbeats are not checked, else detection is disabled for
-- this packet, unless it holds a heartbeat. `counted_stop` is how the stop is counted.
unfoldable pub quiet : (World → World) → Config → ℕ → World → World
quiet counted_stop config new_flags w =
    if eqb_ℤ config.max_heartbeat_len (pos 0)
    then counted_stop (emit stop_inspection w)
    else if has new_flags heartbeat_seen
    then w
    else disable w

abbrev pub count_stop : World → World
count_stop = count (λ c. record c { stopped = next_count c.stopped })

-- The part of `SSLPP_process_app` behind `SSLPP_is_encrypted`.
unfoldable pub app_turn : Encryption → Config → ℕ → ℕ → World → Turn
app_turn completed_handshake config ssn_flags new_flags w =
    turn (bit_or (bit_or ssn_flags encrypted_flag) new_flags) (
      quiet count_stop config new_flags
        (count (λ c. record c { completed_hs = next_count c.completed_hs }) w))
app_turn trusted_or_midstream config ssn_flags new_flags w =
    turn (bit_or (bit_or ssn_flags encrypted_flag) new_flags) (quiet count_stop config new_flags w)
app_turn not_encrypted config ssn_flags new_flags w = turn (bit_or ssn_flags new_flags) w

-- `SSLPP_process_app`
unfoldable pub sslpp_process_app : Host → Config → ℕ → ℕ → World → Turn
sslpp_process_app host config ssn_flags new_flags w =
    if has config.flags sslpp_disable_flag
    then app_turn (sslpp_is_encrypted host config (bit_or ssn_flags new_flags)) config ssn_flags
        new_flags w
    else turn (bit_or ssn_flags new_flags) w

-- Does a record of another kind stand for data of an encrypted SSLv2 session?
unfoldable pub is_v2_encrypted : Config → ℕ → ℕ → Bool
is_v2_encrypted config ssn_flags new_flags =
    has ssn_flags ver_sslv2_flag
    && has ssn_flags client_hello_flag
    && has ssn_flags server_hello_flag
    && has config.flags sslpp_disable_flag
    && not (has new_flags change_cipher_flag)
    && not (has new_flags heartbeat_seen)

-- `SSLPP_process_other`
unfoldable pub sslpp_process_other : Config → ℕ → ℕ → World → Turn
sslpp_process_other config ssn_flags new_flags w =
    if is_v2_encrypted config ssn_flags new_flags
    then turn (bit_or ssn_flags (bit_or encrypted_flag new_flags))
        (quiet (λ v. v) config new_flags w)
    else turn
        (if has new_flags ver_sslv2_flag || has new_flags unknown_flag
          then bit_or ssn_flags new_flags
          else ssn_flags)
        (count (λ c. record c { unrecognized = next_count c.unrecognized }) w)
