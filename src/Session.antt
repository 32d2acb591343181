-- ===== src/Session.antt =====
-- ssl_inspect.c and ssl_session.h: the state of an SSL session, the counters, and what the
-- preprocessor asks of its host process and does there.
pub mod Hello
pub mod Handlers
pub mod Process
pub mod Events
pub mod Keeps
pub mod Verdicts
pub mod Turns
pub mod Calls
pub mod Invariants
use in_free_time.Base.{
  ℕ, ◌+◌, ◌%◌, ◌^◌, Bool, true, false, Option, none, some, List, [], ◌∷◌, ◌++◌, Bytes,
}
use in_free_time.Base.Int.{ℤ}

-- `SSL_SsnData`
pub record SsnData : Type 0 where
  pub ssn_flags : ℕ
  pub flow_id : ℕ
  pub is_ssl : Bool
  pub partial_rec_len : List ℕ

-- `SSLPP_counters_t`
pub record Counters : Type 0 where
  pub stopped : ℕ
  pub disabled : ℕ
  pub decoded : ℕ
  pub alerts : ℕ
  pub cipher_change : ℕ
  pub unrecognized : ℕ
  pub completed_hs : ℕ
  pub bad_handshakes : ℕ
  pub hs_chello : ℕ
  pub hs_shello : ℕ
  pub hs_cert : ℕ
  pub hs_skey : ℕ
  pub hs_ckey : ℕ
  pub hs_finished : ℕ
  pub hs_sdone : ℕ
  pub capp : ℕ
  pub sapp : ℕ

-- `SSL_InitGlobals`
unfoldable pub ssl_init_globals : Counters
ssl_init_globals = record {
  stopped = 0;
  disabled = 0;
  decoded = 0;
  alerts = 0;
  cipher_change = 0;
  unrecognized = 0;
  completed_hs = 0;
  bad_handshakes = 0;
  hs_chello = 0;
  hs_shello = 0;
  hs_cert = 0;
  hs_skey = 0;
  hs_ckey = 0;
  hs_finished = 0;
  hs_sdone = 0;
  capp = 0;
  sapp = 0;
}

-- `counts.x++` on `uint64_t`
abbrev pub next_count : ℕ → ℕ
next_count n = (n + 1) % 2 ^ 64

-- The events that `ALERT` raises, by name of their message.
pub data Alert : Type 0 where
  invalid_client_hello invalid_server_hello hb_request hb_response : Alert

-- The calls into the host process that change something there.
pub data Effect : Type 0 where
  alert : Alert → Effect
  disable_detect stop_inspection response_flush_stream session_initialize : Effect

-- The counters, and the calls made so far, in order.
pub record World : Type 0 where
  pub counts : Counters
  pub effects : List Effect

abbrev pub emit : Effect → World → World
emit e w = record w { effects = w.effects ++ (e ∷ []) }

abbrev pub count : (Counters → Counters) → World → World
count f w = record w { counts = f w.counts }

-- `DISABLE_DETECT`
abbrev pub disable : World → World
disable w = count (λ c. record c { disabled = next_count c.disabled }) (emit disable_detect w)

-- The parts of `SFSnortPacket` that are used; `stream_session` is whether that is not null.
pub record Packet : Type 0 where
  pub flags : ℕ
  pub payload : Bytes
  pub src_port : ℕ
  pub dst_port : ℕ
  pub stream_session : Bool

-- What `get_reassembly_direction` answers.
pub data Direction : Type 0 where
  dir_none to_server to_client both : Direction

-- What the host process answers while a packet is processed. `ssl_callback` is whether there is a
-- callback interface, and the five fields behind it are what that answers: `flow_flags` are the
-- flags that `get_ssl_flow_flags` hands over (`none` if it returns non-zero), and `flow_id` the
-- identifier that `session_initialize` sets, if it does. The callbacks leave the flags and the
-- lengths of the session alone.
pub record Host : Type 0 where
  pub ssl_callback : Bool
  pub is_session_ssl : Bool
  pub flow_flags : Option ℕ
  pub flow_id : Option ℕ
  pub application_protocol : ℤ
  pub ssl_app_id : ℤ
  pub reassembly_direction : Direction
  pub midstream : Bool
  pub missed_both : Bool
  pub missed_from_client : Bool
  pub allocates : Bool

-- `SSLPP_config_t`, without the two handles; the fields of its two directories are `none` if null.
pub record Config : Type 0 where
  pub ports : Bytes
  pub flags : ℕ
  pub ssl_rules_dir : Option Bytes
  pub pki_dir : Option Bytes
  pub memcap : ℤ
  pub decrypt_memcap : ℤ
  pub max_heartbeat_len : ℤ
  pub enable_ssl_ha : Bool

-- `SSLPP_DISABLE_FLAG` and `SSLPP_TRUSTSERVER_FLAG`
abbrev pub sslpp_disable_flag : ℕ
sslpp_disable_flag = 0x1

abbrev pub sslpp_trustserver_flag : ℕ
sslpp_trustserver_flag = 0x2

-- `SSL_ENCRYPTED_FLAG`
abbrev pub encrypted_flag : ℕ
encrypted_flag = 0x4000000
