-- ===== src/Examples/Packets.antt =====
-- Packets of SSL sessions, at concrete inputs.
use in_free_time.Base.{
  ℕ, ◌≤◌, ◌≡◌, refl, true, false, Option, none, some, List, [], ◌∷◌, All, arith, max,
}
use in_free_time.Base.Bits.{bit_at}
use in_free_time.Base.Flags.{has, without}
use in_free_time.Base.Int.{pos}
use in_free_time.Ssl.Direction.{Lacks, absent}
use in_free_time.Session.{Host, Config, Packet, SsnData, World, dir_none, ssl_init_globals}
use in_free_time.Session.Process.{State, state_flags}
use in_free_time.Session.Events.{Event, process_all, IsDecodable}
use in_free_time.Session.Invariants.{
  Every, Holding, session, IsGentle, every_none, every_some, process_all-quiet,
}
use in_free_time.Session.Calls.{IsQuiet, quiet}
use in_free_time.Session.Verdicts.{seen, temporary_flags, handshake_flags_all}
use in_free_time.Session.Process.{
  Seen, new_flags_of, clear_temporary_flags, flush, flushes, is_inspected, sslpp_process,
  kept_state, drop_compatibility,
}
use in_free_time.Base.{◌&&◌}

abbrev plain_host : Host
plain_host = record {
  ssl_callback = false;
  is_session_ssl = false;
  flow_flags = none;
  flow_id = none;
  application_protocol = pos 7;
  ssl_app_id = pos 7;
  reassembly_direction = dir_none;
  midstream = false;
  missed_both = false;
  missed_from_client = false;
  allocates = true;
}

abbrev config_of : ℕ → Config
config_of flags = record {
  ports = [];
  flags = flags;
  ssl_rules_dir = none;
  pki_dir = none;
  memcap = pos 100000;
  decrypt_memcap = pos 100000;
  max_heartbeat_len = pos 0;
  enable_ssl_ha = false;
}

-- A TLS 1.2 record with a client hello cut short, from the client.
abbrev hello_packet : Packet
hello_packet = record {
  flags = 0x80;
  payload = 22 ∷ 3 ∷ 3 ∷ 0 ∷ 6 ∷ 1 ∷ 0 ∷ 0 ∷ 2 ∷ 3 ∷ 3 ∷ [];
  src_port = 40000;
  dst_port = 443;
  stream_session = true;
}

abbrev events : ℕ → List Event
events flags =
    record { host = plain_host; config = some (config_of flags); packet = hello_packet }
    ∷ record { host = plain_host; config = none; packet = hello_packet }
    ∷ []

abbrev new_world : World
new_world = record { counts = ssl_init_globals; effects = [] }

abbrev ssn_of : ℕ → SsnData
ssn_of flags = record {
  ssn_flags = flags;
  flow_id = 0;
  is_ssl = true;
  partial_rec_len = 0 ∷ 0 ∷ 0 ∷ 0 ∷ [];
}

hello_packet-IsDecodable : IsDecodable hello_packet
hello_packet-IsDecodable e = absurd (omega (arith, e))

hello-IsGentle :
    (o : Option Config)
    → Every (λ config. has config.flags 1 ≡ false) o
    → IsGentle (record { host = plain_host; config = o; packet = hello_packet })
hello-IsGentle o h = record {
  decodable = hello_packet-IsDecodable;
  gentle = h;
  offers = every_none;
}

events-IsGentle : All IsGentle (events 0)
events-IsGentle =
    (hello-IsGentle (some (config_of 0)) (every_some refl), (hello-IsGentle none every_none, tt))

process_all-quiet_example :
    (t : State) × (process_all (events 0) (record { session = some (ssn_of 8); world = new_world })
      ≡ some t)
    × Holding (Lacks 26) t.session
    × IsQuiet t.world
process_all-quiet_example =
    process_all-quiet (events 0) (some (ssn_of 8)) new_world events-IsGentle
      (session (absent refl) refl) (quiet tt)

-- A host whose callback has flags for the flow, and the session that has `ssn_flags` before
abbrev offering_host : ℕ → Host
offering_host flags = record plain_host {
  ssl_callback = true;
  is_session_ssl = true;
  flow_flags = some flags;
}

abbrev offered : ℕ → ℕ → Seen
offered ssn_flags flags = record {
  new_flags = flags;
  session = record (ssn_of ssn_flags) { ssn_flags = without ssn_flags state_flags };
  world = new_world;
}

offered-seen :
    (ssn_flags flags : ℕ)
    → seen (offering_host flags) (config_of 0) hello_packet (ssn_of ssn_flags) new_world
      ≡ some (offered ssn_flags flags)
unfolding seen new_flags_of clear_temporary_flags flush flushes
offered-seen ssn_flags flags = refl

offering-looked :
    (flags : ℕ)
    → (hello_packet.stream_session && is_inspected (offering_host flags) (config_of 0) hello_packet)
      ≡ true
unfolding is_inspected
offering-looked flags = refl

temporary_flags_example :
    (r : SsnData × World) × (sslpp_process
        (offering_host 8)
        (some (config_of 0))
        hello_packet
        (record { session = some (ssn_of 0x100000); world = new_world })
      ≡ some (kept_state r))
    × (bit_at 20 r.0.ssn_flags ≤ bit_at 20 8)
temporary_flags_example =
    temporary_flags 20 (offering_host 8) (config_of 0) hello_packet (ssn_of 0x100000) new_world
      (offered 0x100000 8) refl (offering-looked 8) (offered-seen 0x100000 8)

handshake_flags_all_example :
    (r : SsnData × World) × (sslpp_process
        (offering_host 0x8000010)
        (some (config_of 0))
        hello_packet
        (record { session = some (ssn_of 8); world = new_world })
      ≡ some (kept_state r))
    × (bit_at 27 r.0.ssn_flags
        ≡ max
            (bit_at 27 (drop_compatibility (without 8 state_flags) 0x8000010))
            (bit_at 27 0x8000010))
handshake_flags_all_example =
    handshake_flags_all 27 (offering_host 0x8000010) (config_of 0) hello_packet (ssn_of 8) new_world
      (offered 8 0x8000010) (offering-looked 0x8000010) (offered-seen 8 0x8000010) refl refl refl
