-- ===== src/Session/Verdicts.antt =====
-- What one packet does to the flags of its session.
use in_free_time.Base.{
  ℕ, ◌/◌, ◌-◌, ◌≤◌, ◌≡◌, ◌≢◌, ◌∙◌, refl, ap, true, false, Option, none, some, arith, get_elem?,
  ◌==◌, ◌&&◌, max, if-elim, Bool-cases, inl, inr,
}
use in_free_time.Base.Bits.{bit_at, bit_at-bit_or, bit_and_step, bit_and-zero}
use in_free_time.Base.Flags.{
  has, without, bit_at-without, bit_at-without_masked, has-bit_at, bit_at-power,
}
use in_free_time.Ssl.{alert_flag, client_hello_flag}
use in_free_time.Ssl.Decode.{ssl_decode}
use in_free_time.Ssl.Runs.{Gives, gives, >>=-Gives, given-value, Any-Gives}
use in_free_time.Session.{
  Config, World, Packet, Host, SsnData, encrypted_flag, emit, session_initialize,
}
use in_free_time.Session.Handlers.{sslpp_process_hs, handshake_flags}
use in_free_time.Session.Process.{
  state_flags, encrypted_turn, clear_turn, handled, heartbleed_alerts, Seen, new_flags_of,
  offered_flags, clear_temporary_flags, flush, decode_packet, after_decode, direction_index,
  is_inspected, sslpp_process, process_data, process_session, kept_state, judge, initialize,
  with_turn, drop_compatibility,
}
use in_free_time.Session.Turns.{clear_turn-From, From-le, other, hs-From, hs_keeps}

at_encrypted : (i : ℕ) → i ≡ 26 → bit_at i (0xFFFFFFFF - state_flags) ≢ 0
at_encrypted i e h = ground (arith, h, ap (λ j. bit_at j (0xFFFFFFFF - state_flags)) e)

-- The bits that `SSL_CLEAR_TEMPORARY_FLAGS` clears do not stand for an encrypted session.
temporary-other : (i : ℕ) → bit_at i (0xFFFFFFFF - state_flags) ≡ 0 → bit_at i encrypted_flag ≡ 0
temporary-other i h = elim (Bool-cases (i == 26)) [
  | inl e ↦ absurd (at_encrypted i (ground (arith, e)) h)
  | inr e ↦ ground (arith, bit_at-power i 26, e)
]

-- What `SSLPP_process` goes by once the new flags are there: the ones that the callback offers, or
-- those of `SSL_decode`, and the session without its temporary flags
unfoldable pub seen : Host → Config → Packet → SsnData → World → Option Seen
seen host config packet sd w =
    new_flags_of (offered_flags host.ssl_callback host.flow_flags) config packet
      (clear_temporary_flags sd) (flush host packet w)

cleared_flags :
    (offered : Option ℕ) (config : Config) (packet : Packet) (sd : SsnData) (w : World)
    → Gives
        (λ (s : Seen). s.session.ssn_flags ≡ without sd.ssn_flags state_flags)
        (new_flags_of offered config packet (clear_temporary_flags sd) w)
unfolding new_flags_of decode_packet after_decode clear_temporary_flags
cleared_flags (some f) config packet sd w = gives refl
cleared_flags none config packet sd w =
    >>=-Gives (Any-Gives (get_elem? sd.partial_rec_len (direction_index packet)))
      λ owed _. >>=-Gives (Any-Gives (ssl_decode _ _ _ _ _ _ _)) λ d _. gives refl

seen_flags :
    (host : Host) (config : Config) (packet : Packet) (sd : SsnData) (w : World) (s : Seen)
    → seen host config packet sd w ≡ some s
    → s.session.ssn_flags ≡ without sd.ssn_flags state_flags
unfolding seen
seen_flags host config packet sd w s e = given-value (
    rw e at (
      cleared_flags (offered_flags host.ssl_callback host.flow_flags) config packet sd
        (flush host packet w)))

-- From the new flags on, the packet is judged and the session kept.
seen-judge :
    (host : Host) (config : Config) (packet : Packet) (sd : SsnData) (w : World) (s : Seen)
    → (packet.stream_session && is_inspected host config packet) ≡ true
    → seen host config packet sd w ≡ some s
    → sslpp_process host (some config) packet (record { session = some sd; world = w })
      ≡ some (kept_state (judge host config packet s))
unfolding sslpp_process process_data process_session seen
seen-judge host config packet sd w s looked e = rw looked (rw e refl)

-- The flags after a packet are those of one of the two ways.
judge_flags :
    (P : ℕ → Type 0) (host : Host) (config : Config) (packet : Packet) (s : Seen)
    → (has s.session.ssn_flags encrypted_flag ≡ true
        → P (encrypted_turn s.session.ssn_flags s.new_flags s.world).flags)
    → ((w : World)
        → has s.session.ssn_flags encrypted_flag ≡ false
        → P (clear_turn host config packet s.session.ssn_flags s.new_flags w).flags)
    → P (judge host config packet s).0.ssn_flags
unfolding judge initialize
judge_flags P host config packet s enc clear =
    if-elim (λ (r : SsnData × World). P r.0.ssn_flags) (has s.session.ssn_flags encrypted_flag) enc
      λ off.
        if-elim
          (λ (r : SsnData × World).
            P
              (with_turn r.0
                (clear_turn host config packet r.0.ssn_flags s.new_flags r.1)).0.ssn_flags)
          (has s.new_flags client_hello_flag && host.ssl_callback) (λ _. by_flow host.flow_id off)
          λ _. clear s.world off
  where
    by_flow :
        (o : Option ℕ)
        → has s.session.ssn_flags encrypted_flag ≡ false
        → P
            (clear_turn host config packet
              (elim o as (λ _. SsnData) [
                | none ↦ s.session
                | some fid ↦ record (s.session) { flow_id = fid }
              ]).ssn_flags
              s.new_flags
              (emit session_initialize s.world)).flags
    by_flow none off = clear (emit session_initialize s.world) off
    by_flow (some fid) off = clear (emit session_initialize s.world) off

-- The flags that `SSL_CLEAR_TEMPORARY_FLAGS` clears tell of the current packet alone: whatever flags
-- a session has, when its packet is looked at and its new flags are there, `SSLPP_process` keeps the
-- session, and each of those flags that is set in it afterwards stands in the new flags of that
-- packet.
pub temporary_flags :
    (i : ℕ) (host : Host) (config : Config) (packet : Packet) (sd : SsnData) (w : World) (s : Seen)
    → bit_at i (0xFFFFFFFF - state_flags) ≡ 0
    → (packet.stream_session && is_inspected host config packet) ≡ true
    → seen host config packet sd w ≡ some s
    → (r : SsnData × World) × (sslpp_process host
          (some config)
          packet
          (record { session = some sd; world = w })
        ≡ some (kept_state r))
      × (bit_at i r.0.ssn_flags ≤ bit_at i s.new_flags)
unfolding encrypted_turn
temporary_flags i host config packet sd w s h looked e =
    let f = s.session.ssn_flags in
    let gone : bit_at i f ≡ 0 =
      ap (bit_at i) (seen_flags host config packet sd w s e)
      ∙ bit_at-without_masked i sd.ssn_flags state_flags h in
    (
      judge host config packet s,
      seen-judge host config packet sd w s looked e,
      judge_flags (λ g. bit_at i g ≤ bit_at i s.new_flags) host config packet s
          (λ _. omega (arith, bit_at-bit_or i f s.new_flags, gone))
          λ w' _. omega (
            arith,
            gone,
            From-le (
                clear_turn-From i f s.new_flags host config packet w'
                  (other (temporary-other i h))),
          ),
    )

handled-hs :
    (i f new : ℕ) (host : Host) (config : Config) (packet : Packet) (w : World)
    → has new alert_flag ≡ false
    → has new handshake_flags ≡ true
    → bit_at i (handled host config packet f new w).flags ≡ max (bit_at i f) (bit_at i new)
unfolding handled
handled-hs i f new host config packet w no_alert hs =
    let t = sslpp_process_hs f new w in
    rw no_alert (
      rw hs (
        omega
          (arith, bit_at-bit_or i t.flags new, hs_keeps i f new w, From-le (hs-From i f new w))))

still_clear :
    (f : ℕ) → has f encrypted_flag ≡ false → has (without f state_flags) encrypted_flag ≡ false
still_clear f h = ground (
  arith,
  h,
  has-bit_at 26 f,
  has-bit_at 26 (without f state_flags),
  bit_at-without 26 f state_flags refl,
)

-- When a packet is looked at that has a handshake record and no alert among its new flags, and the
-- session is not known to be encrypted, `SSLPP_process` keeps the session with just these flags: all
-- of the packet, also where `SSLPP_process_hs` finds the record in the wrong direction and keeps
-- nothing, or keeps only four kinds of flags; and those of the session before, without the temporary
-- ones and, where a server hello of a newer version answers a compatible hello, without the two that
-- `drop_compatibility` takes away.
pub handshake_flags_all :
    (i : ℕ) (host : Host) (config : Config) (packet : Packet) (sd : SsnData) (w : World) (s : Seen)
    → (packet.stream_session && is_inspected host config packet) ≡ true
    → seen host config packet sd w ≡ some s
    → has sd.ssn_flags encrypted_flag ≡ false
    → has s.new_flags alert_flag ≡ false
    → has s.new_flags handshake_flags ≡ true
    → (r : SsnData × World) × (sslpp_process host
          (some config)
          packet
          (record { session = some sd; world = w })
        ≡ some (kept_state r))
      × (bit_at i r.0.ssn_flags
          ≡ max
              (bit_at i (drop_compatibility (without sd.ssn_flags state_flags) s.new_flags))
              (bit_at i s.new_flags))
unfolding clear_turn
handshake_flags_all i host config packet sd w s looked e off no_alert hs =
    let same = seen_flags host config packet sd w s e in
    (
      judge host config packet s,
      seen-judge host config packet sd w s looked e,
      judge_flags
            (λ g.
              bit_at i g
              ≡ max (bit_at i (drop_compatibility s.session.ssn_flags s.new_flags))
                  (bit_at i s.new_flags))
            host config packet s
            (λ on.
              absurd (cc (on, ap (λ f. has f encrypted_flag) same, still_clear sd.ssn_flags off)))
            (λ w' _. handled-hs i _ s.new_flags host config packet _ no_alert hs)
          ∙ ap (λ f. max (bit_at i (drop_compatibility f s.new_flags)) (bit_at i s.new_flags)) same,
    )

-- The direction of the packet makes no difference to the alert on a heartbeat, although the code
-- asks for it where neither a request nor a response was found.
heartbleed_direction :
    (type : ℕ) (w : World) → heartbleed_alerts type true w ≡ heartbleed_alerts type false w
unfolding heartbleed_alerts
heartbleed_direction type w = grind (
  arith,
  bit_and_step type 3,
  bit_and_step type 2,
  bit_and_step type 1,
  bit_and_step (type / 2) 1,
  bit_and-zero (type / 2),
)
