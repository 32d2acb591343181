-- ===== src/Session/Keeps.antt =====
-- Packets through `SSLPP_process`: what holds of the session's flags and of the world after them,
-- from what the two ways through it keep.
use in_free_time.Base.{
  ℕ, ◌≡◌, refl, ◌∙◌, Bool, true, false, not, Option, none, some, List, [], ◌∷◌, length, length-set,
  arith, ◌&&◌,
}
use native.Mathlib.Nat.{le_refl}
use in_free_time.Ssl.{from_server}
use in_free_time.Ssl.Runs.{Runs, runs, >>=-Runs, if-Runs, get_elem?-Runs}
use in_free_time.Base.{All, if-elim}
use in_free_time.Ssl.{client_hello_flag}
use in_free_time.Ssl.Direction.{unencrypted}
use in_free_time.Ssl.Total.{ssl_decode-Runs}
use in_free_time.Base.Flags.{has, without}
use in_free_time.Session.{
  Packet, Host, Config, SsnData, World, encrypted_flag, emit, session_initialize,
}
use in_free_time.Session.Process.{
  direction_index, is_rebuilt, Seen, after_decode, decode_packet, new_flags_of, offered_flags,
}
use in_free_time.Session.Process.{
  clear_temporary_flags, clear_turn, initialize, with_turn, judge, State, kept_state,
}
use in_free_time.Session.Process.{
  state_flags, flushes, process_session, process_data, sslpp_process, ssl_new_session, flush,
  is_inspected, stored,
}
use in_free_time.Session.Events.{
  IsDecodable, Invariant, IsKept, missing, kept, Event, process_all, IsAllowed,
}

module _ (I : Invariant) where
  -- After the new flags of a packet are known.
  record IsSeen (s : Seen) : Type 0 where
    new : I.New s.new_flags
    flags : I.Flags s.session.ssn_flags
    lengths : length s.session.partial_rec_len ≡ 4
    world : I.Holds s.world

  decode_packet-IsSeen :
      (config : Config) (packet : Packet) (sd : SsnData) (w : World)
      → IsDecodable packet
      → I.Flags sd.ssn_flags
      → length sd.partial_rec_len ≡ 4
      → I.Holds w
      → Runs IsSeen (decode_packet config packet sd w)
  unfolding decode_packet after_decode
  decode_packet-IsSeen config packet sd w readable p four h =
      >>=-Runs (get_elem?-Runs sd.partial_rec_len (direction_index packet) (ground (arith, four)))
        λ owed _.
          >>=-Runs
            (ssl_decode-Runs unencrypted packet.payload (length packet.payload) sd.ssn_flags
              (some 0) (some owed) config.max_heartbeat_len (le_refl (length packet.payload))
              readable)
            λ d lacks. runs (record {
              new = I.decoded d.flags lacks;
              flags = p;
              lengths =
                  length-set sd.partial_rec_len (direction_index packet) (stored d.partial_rec_len)
                  ∙ four;
              world = I.alerted (stored d.alert_flags) (from_server packet.flags) w h;
            })

  new_flags_of-IsSeen :
      (offered : Option ℕ) (config : Config) (packet : Packet) (sd : SsnData) (w : World)
      → ((f : ℕ) → offered ≡ some f → I.New f)
      → IsDecodable packet
      → I.Flags sd.ssn_flags
      → length sd.partial_rec_len ≡ 4
      → I.Holds w
      → Runs IsSeen (new_flags_of offered config packet sd w)
  unfolding new_flags_of
  new_flags_of-IsSeen (some f) config packet sd w offers readable p four h =
      runs (record { new = offers f refl; flags = p; lengths = four; world = h })
  new_flags_of-IsSeen none config packet sd w offers readable p four h =
      decode_packet-IsSeen config packet sd w readable p four h

  offered_flags-New :
      (b : Bool) (flow_flags : Option ℕ)
      → ((f : ℕ) → flow_flags ≡ some f → I.New f)
      → (f : ℕ) → offered_flags b flow_flags ≡ some f
      → I.New f
  offered_flags-New false flow_flags offers f h = absurd (cc h)
  offered_flags-New true flow_flags offers f h = offers f h

  -- A session that is not known to be encrypted, with what goes with it.
  record IsClear (r : SsnData × World) : Type 0 where
    off : has r.0.ssn_flags encrypted_flag ≡ false
    flags : I.Flags r.0.ssn_flags
    lengths : length r.0.partial_rec_len ≡ 4
    world : I.Holds r.1

  identified-IsClear :
      (flow_id : Option ℕ) (sd : SsnData) (w : World)
      → IsClear (sd, w)
      → IsClear (elim flow_id [ none ↦ sd | some fid ↦ record sd { flow_id = fid } ], w)
  identified-IsClear none sd w c = c
  identified-IsClear (some fid) sd w c = record {
    off = c.off;
    flags = c.flags;
    lengths = c.lengths;
    world = c.world;
  }

  initialize-IsClear :
      (host : Host) (new : ℕ) (sd : SsnData) (w : World)
      → IsClear (sd, w)
      → IsClear (initialize host new sd w)
  unfolding initialize
  initialize-IsClear host new sd w c =
      if-elim IsClear (has new client_hello_flag && host.ssl_callback)
        (λ _. identified-IsClear host.flow_id sd (emit session_initialize w) (record {
          off = c.off;
          flags = c.flags;
          lengths = c.lengths;
          world = I.initialized w c.world;
        }))
        λ _. c

  clear_turn-IsKept :
      (host : Host) (config : Config) (packet : Packet) (new : ℕ) (r : SsnData × World)
      → I.Configured config
      → I.New new
      → IsClear r
      → IsKept I (kept_state (with_turn r.0 (clear_turn host config packet r.0.ssn_flags new r.1)))
  clear_turn-IsKept host config packet new (sd, w) conf n c =
      let t = I.clear host config packet sd.ssn_flags new w c.off conf c.flags n c.world in
      kept t.0 c.lengths t.1

  judge-IsKept :
      (host : Host) (config : Config) (packet : Packet) (s : Seen)
      → I.Configured config
      → IsSeen s
      → IsKept I (kept_state (judge host config packet s))
  unfolding judge
  judge-IsKept host config packet s conf seen =
      if-elim (λ r. IsKept I (kept_state r)) (has s.session.ssn_flags encrypted_flag)
        (λ on.
          let t =
            I.encrypted s.session.ssn_flags s.new_flags s.world on seen.flags seen.new seen.world in
          kept t.0 seen.lengths t.1)
        λ off.
          clear_turn-IsKept host config packet s.new_flags
            (initialize host s.new_flags s.session s.world) conf seen.new
            (initialize-IsClear host s.new_flags s.session s.world (record {
              off = off;
              flags = seen.flags;
              lengths = seen.lengths;
              world = seen.world;
            }))

  process_session-IsKept :
      (e : Event) (config : Config) (sd : SsnData) (w : World)
      → IsAllowed I e
      → I.Configured config
      → I.Flags sd.ssn_flags
      → length sd.partial_rec_len ≡ 4
      → I.Holds w
      → Runs (IsKept I) (process_session e.host config e.packet sd w)
  unfolding process_session clear_temporary_flags
  process_session-IsKept e config sd w allowed conf p four h =
      >>=-Runs
        (new_flags_of-IsSeen (offered_flags e.host.ssl_callback e.host.flow_flags) config e.packet
          (record sd { ssn_flags = without sd.ssn_flags state_flags }) w
          (offered_flags-New e.host.ssl_callback e.host.flow_flags allowed.offers) allowed.decodable
          (I.cleared sd.ssn_flags p) four h)
        λ s seen. runs (judge-IsKept e.host config e.packet s conf seen)

  flush-Holds :
      (host : Host) (packet : Packet) (w : World) → I.Holds w → I.Holds (flush host packet w)
  unfolding flush
  flush-Holds host packet w h =
      if-elim I.Holds (not (is_rebuilt packet) && flushes host.reassembly_direction packet)
        (λ _. I.flushed w h) λ _. h

  process_data-IsKept :
      (e : Event) (config : Config) (w : World) (s : State)
      → IsAllowed I e
      → I.Configured config
      → I.Holds w
      → IsKept I s
      → Runs (IsKept I) (process_data e.host config e.packet s.session w)
  unfolding process_data ssl_new_session
  process_data-IsKept e config w s allowed conf h (missing m h') =
      if-Runs e.host.allocates
        (λ _. process_session-IsKept e config ssl_new_session w allowed conf (I.fresh m) refl h)
        λ _. runs (missing m h)
  process_data-IsKept e config w s allowed conf h (kept {sd} p four h') =
      process_session-IsKept e config sd w allowed conf p four h

  IsKept-Holds : {s : State} → IsKept I s → I.Holds s.world
  IsKept-Holds (missing m h) = h
  IsKept-Holds (kept p four h) = h

  sslpp_process-IsKept :
      (e : Event) (s : State) (current : Option Config)
      → e.config ≡ current
      → IsAllowed I e
      → IsKept I s
      → Runs (IsKept I) (sslpp_process e.host current e.packet s)
  unfolding sslpp_process
  sslpp_process-IsKept e s none q allowed k = runs k
  sslpp_process-IsKept e s (some config) q allowed k =
      if-Runs (e.packet.stream_session && is_inspected e.host config e.packet)
        (λ _.
          process_data-IsKept e config (flush e.host e.packet s.world) s allowed
            (allowed.configured config q) (flush-Holds e.host e.packet s.world (IsKept-Holds k)) k)
        λ _. runs k

  -- All packets are processed to the end, and the invariant holds then.
  pub process_all-IsKept :
      (events : List Event) (s : State)
      → All (IsAllowed I) events
      → IsKept I s
      → Runs (IsKept I) (process_all events s)
  unfolding process_all
  process_all-IsKept [] s allowed k = runs k
  process_all-IsKept (e ∷ events) s (allowed, rest) k =
      >>=-Runs (sslpp_process-IsKept e s e.config refl allowed k)
        λ t kept_t. process_all-IsKept events t rest kept_t
