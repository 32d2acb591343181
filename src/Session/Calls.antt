-- ===== src/Session/Calls.antt =====
-- The calls into the host that `SSLPP_process` makes without `SSLPP_DISABLE_FLAG`.
use in_free_time.Base.{
  ℕ, ◌≡◌, Bool, false, not, [], ◌∷◌, All, All-append, arith, if-elim, ◌&&◌, bit_or,
}
use in_free_time.Base.Flags.{has}
use in_free_time.Ssl.{
  alert_flag, client_hello_flag, server_hello_flag, bogus_hs_dir_flag, change_cipher_flag,
  heartbeat_seen, from_client, from_server,
}
use in_free_time.Session.{
  Packet, Host, Config, World, Effect, emit, count, next_count, sslpp_disable_flag,
  sslpp_trustserver_flag,
}
use in_free_time.Session.{alert, response_flush_stream, session_initialize}
use in_free_time.Session.Handlers.{
  Turn, sslpp_process_alert, sslpp_process_hs, sslpp_process_app, sslpp_process_other,
  handshake_flags, app_flags, ssl_update_counts,
}
use in_free_time.Session.Process.{
  handled, clear_turn, drop_compatibility, hello_alerts, heartbleed_alerts,
}
use in_free_time.Session.Turns.{is_v2_encrypted-off}

-- Neither the detection nor the inspection is turned off by it.
pub data IsSoft : Effect → Type 0 where
  alert_IsSoft : {a : _} → IsSoft (alert a)
  flush_IsSoft : IsSoft response_flush_stream
  initialize_IsSoft : IsSoft session_initialize

-- All calls so far are of that kind.
pub data IsQuiet (w : World) : Type 0 where
  quiet : All IsSoft w.effects → IsQuiet w

pub emit-IsQuiet : (e : Effect) (w : World) → IsSoft e → IsQuiet w → IsQuiet (emit e w)
emit-IsQuiet e w s (quiet h) = quiet (All-append IsSoft w.effects (e ∷ []) h (s, tt))

pub heartbleed_alerts-IsQuiet :
    (type : ℕ) (b : Bool) (w : World) → IsQuiet w → IsQuiet (heartbleed_alerts type b w)
unfolding heartbleed_alerts
heartbleed_alerts-IsQuiet type b w h =
    if-elim IsQuiet (has type 1) (λ _. emit-IsQuiet _ w alert_IsSoft h)
      λ _.
        if-elim IsQuiet (has type 2) (λ _. emit-IsQuiet _ w alert_IsSoft h)
          λ _. if-elim IsQuiet (has type 3) (λ _. emit-IsQuiet _ w alert_IsSoft h) λ _. h

hello_alerts-IsQuiet :
    (host : Host) (config : Config) (f new : ℕ) (w : World)
    → IsQuiet w
    → IsQuiet (hello_alerts host config f new w)
unfolding hello_alerts
hello_alerts-IsQuiet host config f new w h =
    if-elim IsQuiet
      (has new client_hello_flag && has f client_hello_flag && has f server_hello_flag)
      (λ _. emit-IsQuiet _ w alert_IsSoft h)
      λ _.
        if-elim IsQuiet
          (not (has config.flags sslpp_trustserver_flag)
            && (has new server_hello_flag && not (has f client_hello_flag))
            && not host.missed_from_client)
          (λ _. emit-IsQuiet _ w alert_IsSoft h) λ _. h

module _ (config : Config) (off : has config.flags sslpp_disable_flag ≡ false) where
  alert-IsQuiet :
      (f new : ℕ) (packet : Packet) (w : World)
      → IsQuiet w
      → IsQuiet (sslpp_process_alert config packet f new w).world
  unfolding sslpp_process_alert
  alert-IsQuiet f new packet w h =
      let same : (has (bit_or f new) handshake_flags
            && not (has new handshake_flags)
            && not (has new change_cipher_flag)
            && has config.flags sslpp_disable_flag
            && not (has new heartbeat_seen))
          ≡ false =
        ground (arith, off) in
      rw same (
        if-elim (λ (t : Turn). IsQuiet t.world) (from_client packet.flags) (λ _. h)
          λ _. if-elim (λ (t : Turn). IsQuiet t.world) (from_server packet.flags) (λ _. h) λ _. h)

  hs-IsQuiet : (f new : ℕ) (w : World) → IsQuiet w → IsQuiet (sslpp_process_hs f new w).world
  unfolding sslpp_process_hs
  hs-IsQuiet f new w (quiet h) =
      if-elim (λ (t : Turn). IsQuiet t.world) (has new bogus_hs_dir_flag) (λ _. quiet h)
        λ _. quiet h

  app-IsQuiet :
      (host : Host) (f new : ℕ) (w : World)
      → IsQuiet w
      → IsQuiet (sslpp_process_app host config f new w).world
  unfolding sslpp_process_app
  app-IsQuiet host f new w h = rw off h

  other-IsQuiet :
      (f new : ℕ) (w : World) → IsQuiet w → IsQuiet (sslpp_process_other config f new w).world
  unfolding sslpp_process_other
  other-IsQuiet f new w (quiet h) = rw (is_v2_encrypted-off config f new off) (quiet h)

  handled-IsQuiet :
      (host : Host) (packet : Packet) (f new : ℕ) (w : World)
      → IsQuiet w
      → IsQuiet (handled host config packet f new w).world
  unfolding handled
  handled-IsQuiet host packet f new w h =
      if-elim (λ (t : Turn). IsQuiet t.world) (has new alert_flag)
        (λ _. alert-IsQuiet f new packet w h)
        λ _.
          if-elim (λ (t : Turn). IsQuiet t.world) (has new handshake_flags)
            (λ _. hs-IsQuiet f new w h)
            λ _.
              if-elim (λ (t : Turn). IsQuiet t.world) (has new app_flags)
                (λ _. app-IsQuiet host f new w h) λ _. other-IsQuiet f new w h

  counted-IsQuiet :
      (new : ℕ) (w : World)
      → IsQuiet w
      → IsQuiet (count (λ c. ssl_update_counts new (record c { decoded = next_count c.decoded })) w)
  counted-IsQuiet new w (quiet h) = quiet h

  -- A packet of a session that is not known to be encrypted
  pub clear_turn-IsQuiet :
      (host : Host) (packet : Packet) (f new : ℕ) (w : World)
      → IsQuiet w
      → IsQuiet (clear_turn host config packet f new w).world
  unfolding clear_turn
  clear_turn-IsQuiet host packet f new w h =
      let kept = drop_compatibility f new in
      let alerted = hello_alerts host config kept new w in
      handled-IsQuiet host packet kept new
        (count (λ c. ssl_update_counts new (record c { decoded = next_count c.decoded })) alerted)
        (counted-IsQuiet new alerted (hello_alerts-IsQuiet host config kept new w h))
