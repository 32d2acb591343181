-- ===== src/Session/Process.antt =====
-- `SSLPP_process` of ssl_inspect.c: one packet of a session.
use in_free_time.Base.{
  ℕ, ◌+◌, Bool, true, false, not, Option, none, some, [], ◌∷◌, get_elem?, set, length,
  if◌then◌else◌, ◌==◌, ◌&&◌, ◌||◌, bit_or, bit_and,
}
use in_free_time.Base.Flags.{has, without}
use in_free_time.Base.Int.{pos, negsuc, eqb_ℤ}
use in_free_time.Ssl.{alert_flag, client_hello_flag}
use in_free_time.Ssl.{server_hello_flag}
use in_free_time.Ssl.{heartbeat_seen}
use in_free_time.Ssl.{ver_sslv2_flag}
use in_free_time.Ssl.{verflags, cur_client_hello_flag}
use in_free_time.Ssl.{cur_server_hello_flag, cur_server_keyx_flag, cur_client_keyx_flag}
use in_free_time.Ssl.{unknown_flag, v3_back_compat_v2}
use in_free_time.Ssl.{from_server, from_client}
use in_free_time.Ssl.{◌>>=◌}
use in_free_time.Ssl.Records.{Decoded}
use in_free_time.Ssl.Decode.{ssl_decode}
use in_free_time.Ports.{has_port}
use in_free_time.Session.{next_count, World, count, emit, disable, Packet, Host, Config, SsnData}
use in_free_time.Session.{
  sslpp_trustserver_flag, encrypted_flag, session_initialize, response_flush_stream, alert,
}
use in_free_time.Session.{invalid_client_hello, invalid_server_hello, hb_request, hb_response}
use in_free_time.Session.{Direction, dir_none, to_server, to_client, both}
use in_free_time.Session.Handlers.{Turn, ssl_update_counts, handshake_flags, app_flags}
use in_free_time.Session.Handlers.{
  sslpp_process_alert, sslpp_process_hs, sslpp_process_app, sslpp_process_other,
}

-- `FLAG_REBUILT_STREAM`
abbrev pub is_rebuilt : Packet → Bool
is_rebuilt packet = has packet.flags 0x2

-- Is the packet one to look at, by the callback, the application protocol or the ports?
unfoldable pub is_inspected : Host → Config → Packet → Bool
is_inspected host config packet =
    if host.ssl_callback && host.is_session_ssl
    then true
    else if eqb_ℤ host.application_protocol (negsuc 0)
    then false
    else if eqb_ℤ host.application_protocol (pos 0)
    then has_port config.ports packet.src_port || has_port config.ports packet.dst_port
    else eqb_ℤ host.application_protocol host.ssl_app_id

-- Does the opposite direction have to be flushed?
unfoldable pub flushes : Direction → Packet → Bool
flushes dir_none packet = false
flushes to_server packet = from_server packet.flags
flushes to_client packet = from_client packet.flags
flushes both packet = true

unfoldable pub flush : Host → Packet → World → World
flush host packet w =
    if not (is_rebuilt packet) && flushes host.reassembly_direction packet
    then emit response_flush_stream w
    else w

-- `SSL_NewSession`, with `is_ssl` set behind it
unfoldable pub ssl_new_session : SsnData
ssl_new_session = record {
  ssn_flags = 0;
  flow_id = 0;
  is_ssl = true;
  partial_rec_len = 0 ∷ 0 ∷ 0 ∷ 0 ∷ [];
}

-- `SSL_STATEFLAGS`
abbrev pub state_flags : ℕ
state_flags = bit_or cur_client_hello_flag (
    bit_or cur_server_hello_flag
      (bit_or cur_server_keyx_flag (bit_or cur_client_keyx_flag unknown_flag)))

-- `SSL_CLEAR_TEMPORARY_FLAGS`
unfoldable pub clear_temporary_flags : SsnData → SsnData
clear_temporary_flags sd = record sd { ssn_flags = without sd.ssn_flags state_flags }

-- The index into `partial_rec_len`
abbrev pub direction_index : Packet → ℕ
direction_index packet =
    (if from_server packet.flags then 1 else 0) + (if is_rebuilt packet then 2 else 0)

-- The alerts on `heartbleed_type`
unfoldable pub heartbleed_alerts : ℕ → Bool → World → World
heartbleed_alerts type server w =
    if has type 1
    then emit (alert hb_request) w
    else if has type 2
    then emit (alert hb_response) w
    else if has type 3
    then emit (alert (if server then hb_response else hb_request)) w
    else w

-- The new flags of a packet, and what came with them.
pub record Seen : Type 0 where
  pub new_flags : ℕ
  pub session : SsnData
  pub world : World

-- `*alert_flags` or `*partial_rec_len` after a call that was given its address
abbrev pub stored : Option ℕ → ℕ
stored none = 0
stored (some n) = n

unfoldable pub after_decode : Packet → SsnData → World → Decoded → Seen
after_decode packet sd w d = record {
  new_flags = d.flags;
  session = record sd {
    partial_rec_len = set sd.partial_rec_len (direction_index packet) (stored d.partial_rec_len);
  };
  world = heartbleed_alerts (stored d.alert_flags) (from_server packet.flags) w;
}

unfoldable pub decode_packet : Config → Packet → SsnData → World → Option Seen
decode_packet config packet sd w = do
  owed ← get_elem? sd.partial_rec_len (direction_index packet)
  d ←
      ssl_decode (some packet.payload) (length packet.payload) packet.flags sd.ssn_flags (some 0)
        (some owed) config.max_heartbeat_len
  some (after_decode packet sd w d)

abbrev pub offered_flags : Bool → Option ℕ → Option ℕ
offered_flags false flow_flags = none
offered_flags true flow_flags = flow_flags

-- The flags that the callback has for the flow, or those of `SSL_decode`
unfoldable pub new_flags_of : Option ℕ → Config → Packet → SsnData → World → Option Seen
new_flags_of (some f) config packet sd w = some (record { new_flags = f; session = sd; world = w })
new_flags_of none config packet sd w = decode_packet config packet sd w

-- What follows for a session that is known to be encrypted
unfoldable pub encrypted_turn : ℕ → ℕ → World → Turn
encrypted_turn ssn_flags new_flags w =
    let counted =
      count (λ c. ssl_update_counts new_flags (record c { decoded = next_count c.decoded })) w in
    record {
      flags = bit_or ssn_flags new_flags;
      world = if has new_flags heartbeat_seen then counted else disable counted;
    }

-- `SSL_V3_SERVER_HELLO`
unfoldable pub is_v3_server_hello : ℕ → Bool
is_v3_server_hello f =
    has f cur_server_hello_flag && has f verflags && not (bit_and f verflags == ver_sslv2_flag)

-- A server that answers a compatible hello in a newer version drops SSLv2.
unfoldable pub drop_compatibility : ℕ → ℕ → ℕ
drop_compatibility ssn_flags new_flags =
    if has ssn_flags v3_back_compat_v2 && is_v3_server_hello new_flags
    then without ssn_flags (bit_or ver_sslv2_flag v3_back_compat_v2)
    else ssn_flags

-- The alerts on hello messages that come out of order
unfoldable pub hello_alerts : Host → Config → ℕ → ℕ → World → World
hello_alerts host config ssn_flags new_flags w =
    if has new_flags client_hello_flag
      && has ssn_flags client_hello_flag
      && has ssn_flags server_hello_flag
    then emit (alert invalid_client_hello) w
    else if not (has config.flags sslpp_trustserver_flag)
        && (has new_flags server_hello_flag && not (has ssn_flags client_hello_flag))
        && not host.missed_from_client
    then emit (alert invalid_server_hello) w
    else w

abbrev pub merged : ℕ → Turn → Turn
merged new_flags t = record t { flags = bit_or t.flags new_flags }

-- The handlers in their order, and the flags merged behind them
unfoldable pub handled : Host → Config → Packet → ℕ → ℕ → World → Turn
handled host config packet ssn_flags new_flags w =
    if has new_flags alert_flag
    then merged new_flags (sslpp_process_alert config packet ssn_flags new_flags w)
    else if has new_flags handshake_flags
    then merged new_flags (sslpp_process_hs ssn_flags new_flags w)
    else if has new_flags app_flags
    then merged new_flags (sslpp_process_app host config ssn_flags new_flags w)
    else sslpp_process_other config ssn_flags new_flags w

unfoldable pub clear_turn : Host → Config → Packet → ℕ → ℕ → World → Turn
clear_turn host config packet ssn_flags new_flags w =
    let kept = drop_compatibility ssn_flags new_flags in
    let alerted = hello_alerts host config kept new_flags w in
    handled host config packet kept new_flags (
      count (λ c. ssl_update_counts new_flags (record c { decoded = next_count c.decoded }))
        alerted)

-- `ssl_cb->session_initialize` with `SSL_Set_flow_id`
unfoldable pub initialize : Host → ℕ → SsnData → World → SsnData × World
initialize host new_flags sd w =
    if has new_flags client_hello_flag && host.ssl_callback
    then (
      elim host.flow_id [ none ↦ sd | some fid ↦ record sd { flow_id = fid } ],
      emit session_initialize w,
    )
    else (sd, w)

abbrev pub with_turn : SsnData → Turn → SsnData × World
with_turn sd t = (record sd { ssn_flags = t.flags }, t.world)

-- The part of `SSLPP_process` behind the new flags
unfoldable pub judge : Host → Config → Packet → Seen → SsnData × World
judge host config packet s =
    if has s.session.ssn_flags encrypted_flag
    then with_turn s.session (encrypted_turn s.session.ssn_flags s.new_flags s.world)
    else (let (sd, w) = initialize host s.new_flags s.session s.world in
        with_turn sd (clear_turn host config packet sd.ssn_flags s.new_flags w))

-- The session data that the stream keeps, and the world
pub record State : Type 0 where
  pub session : Option SsnData
  pub world : World

abbrev pub kept_state : SsnData × World → State
kept_state (sd, w) = record { session = some sd; world = w }

unfoldable pub process_session : Host → Config → Packet → SsnData → World → Option State
process_session host config packet sd w = do
  s ←
      new_flags_of (offered_flags host.ssl_callback host.flow_flags) config packet
        (clear_temporary_flags sd) w
  some (kept_state (judge host config packet s))

-- From `SSL_GetAppData` on; a session that is not there is made, if memory can be allocated.
unfoldable pub process_data : Host → Config → Packet → Option SsnData → World → Option State
process_data host config packet (some sd) w = process_session host config packet sd w
process_data host config packet none w =
    if host.allocates
    then process_session host config packet ssl_new_session w
    else some (record { session = none; world = w })

-- `SSLPP_process`; `none` is a read outside the packet.
unfoldable pub sslpp_process : Host → Option Config → Packet → State → Option State
sslpp_process host none packet s = some s
sslpp_process host (some config) packet s =
    if packet.stream_session && is_inspected host config packet
    then process_data host config packet s.session (flush host packet s.world)
    else some s
