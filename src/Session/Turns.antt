-- ===== src/Session/Turns.antt =====
-- What the handlers of SSLPP_process do to single flags, and which calls into the host they make.
use in_free_time.Base.{
  ℕ, ◌-◌, ◌≤◌, ◌≡◌, Bool, true, false, max, arith, if◌then◌else◌, if-elim, ◌||◌, ◌&&◌, bit_or,
  bit_and,
}
use in_free_time.Base.Bits.{bit_at, bit_at-bit_or, bit_at-bit_and}
use in_free_time.Base.Flags.{has, without}
use in_free_time.Ssl.{ver_sslv2_flag, v3_back_compat_v2, sapp_flag, capp_flag}
use in_free_time.Ssl.{alert_flag, from_client, from_server, unknown_flag, bogus_hs_dir_flag}
use in_free_time.Session.{
  Packet, Host, Config, World, encrypted_flag, sslpp_disable_flag, count, next_count,
}
use in_free_time.Session.Handlers.{
  Turn, Encryption, sslpp_is_encrypted, sslpp_process_alert, sslpp_process_hs, sslpp_process_app,
  sslpp_process_other, app_turn, kept_handshake_flags, handshake_flags, app_flags, is_v2_encrypted,
  ssl_update_counts, completed_handshake, trusted_or_midstream, not_encrypted,
}
use in_free_time.Session.Process.{
  merged, handled, clear_turn, drop_compatibility, hello_alerts, is_v3_server_hello,
}

-- The bit is set in the one word only if it is set in one of the others.
pub data From (i f new g : ℕ) : Type 0 where
  from : bit_at i g ≤ max (bit_at i f) (bit_at i new) → From i f new g

pub From-le : {i f new g : ℕ} → From i f new g → bit_at i g ≤ max (bit_at i f) (bit_at i new)
From-le (from p) = p

both-From : (i f new : ℕ) → From i f new (bit_or f new)
both-From i f new = from (omega (arith, bit_at-bit_or i f new))

old-From : (i f new : ℕ) → From i f new f
old-From i f new = from (omega arith)

without-From : (i f new g mask : ℕ) → From i f new g → From i f new (without g mask)
without-From i f new g mask (from p) = from (omega (arith, bit_at-bit_and i g (0xFFFFFFFF - mask)))

merged-From : (i f new : ℕ) (t : Turn) → From i f new t.flags → From i f new (merged new t).flags
merged-From i f new t (from p) = from (omega (arith, bit_at-bit_or i t.flags new))

alert-From :
    (i f new : ℕ) (config : Config) (packet : Packet) (w : World)
    → From i f new (sslpp_process_alert config packet f new w).flags
unfolding sslpp_process_alert
alert-From i f new config packet w =
    if-elim (λ (t : Turn). From i f new t.flags) (from_client packet.flags)
      (λ _. without-From i f new (bit_or f new) sapp_flag (both-From i f new))
      λ _.
        if-elim (λ (t : Turn). From i f new t.flags) (from_server packet.flags)
          (λ _. without-From i f new (bit_or f new) capp_flag (both-From i f new))
          λ _. both-From i f new

pub hs-From : (i f new : ℕ) (w : World) → From i f new (sslpp_process_hs f new w).flags
unfolding sslpp_process_hs
hs-From i f new w =
    if-elim (λ (t : Turn). From i f new t.flags) (has new bogus_hs_dir_flag) (λ _. old-From i f new)
      λ _. from (
        omega (
          arith,
          bit_at-bit_or i f (bit_and new kept_handshake_flags),
          bit_at-bit_and i new kept_handshake_flags,
        ))

pub hs_keeps : (i f new : ℕ) (w : World) → bit_at i f ≤ bit_at i (sslpp_process_hs f new w).flags
unfolding sslpp_process_hs
hs_keeps i f new w =
    if-elim (λ (t : Turn). bit_at i f ≤ bit_at i t.flags) (has new bogus_hs_dir_flag)
      (λ _. omega arith) λ _. omega (arith, bit_at-bit_or i f (bit_and new kept_handshake_flags))

-- Setting the flag of an encrypted session concerns that flag alone.
encrypted-From :
    (i f new : ℕ)
    → bit_at i encrypted_flag ≡ 0
    → From i f new (bit_or (bit_or f encrypted_flag) new)
encrypted-From i f new other = from (
    omega (
      arith,
      bit_at-bit_or i (bit_or f encrypted_flag) new,
      bit_at-bit_or i f encrypted_flag,
      other,
    ))

app_turn-From :
    (i f new : ℕ) (e : Encryption) (config : Config) (w : World)
    → bit_at i encrypted_flag ≡ 0
    → From i f new (app_turn e config f new w).flags
unfolding app_turn
app_turn-From i f new completed_handshake config w other = encrypted-From i f new other
app_turn-From i f new trusted_or_midstream config w other = encrypted-From i f new other
app_turn-From i f new not_encrypted config w other = both-From i f new

-- Bit `i` is not set by a verdict that the session is encrypted: it is another one, or the
-- configuration has no `SSLPP_DISABLE_FLAG`, without which there is no verdict.
pub data Spared (config : Config) (i : ℕ) : Type 0 where
  other : bit_at i encrypted_flag ≡ 0 → Spared config i
  off : has config.flags sslpp_disable_flag ≡ false → Spared config i

app-From :
    (i f new : ℕ) (host : Host) (config : Config) (w : World)
    → Spared config i
    → From i f new (sslpp_process_app host config f new w).flags
unfolding sslpp_process_app
app-From i f new host config w (other o) =
    if-elim (λ (t : Turn). From i f new t.flags) (has config.flags sslpp_disable_flag)
      (λ _. app_turn-From i f new (sslpp_is_encrypted host config (bit_or f new)) config w o)
      λ _. both-From i f new
app-From i f new host config w (off o) = rw o (both-From i f new)

pub is_v2_encrypted-off :
    (config : Config) (f new : ℕ)
    → has config.flags sslpp_disable_flag ≡ false
    → is_v2_encrypted config f new ≡ false
unfolding is_v2_encrypted
is_v2_encrypted-off config f new o = rw o (ground arith)

unrecognized-From : (i f new : ℕ) (b : Bool) → From i f new (if b then bit_or f new else f)
unrecognized-From i f new true = both-From i f new
unrecognized-From i f new false = old-From i f new

other-From :
    (i f new : ℕ) (config : Config) (w : World)
    → Spared config i
    → From i f new (sslpp_process_other config f new w).flags
unfolding sslpp_process_other
other-From i f new config w (other o) =
    if-elim (λ (t : Turn). From i f new t.flags) (is_v2_encrypted config f new)
      (λ _. from (
        omega (
          arith,
          bit_at-bit_or i f (bit_or encrypted_flag new),
          bit_at-bit_or i encrypted_flag new,
          o,
        )))
      λ _. unrecognized-From i f new (has new ver_sslv2_flag || has new unknown_flag)
other-From i f new config w (off o) =
    rw (is_v2_encrypted-off config f new o)
      (unrecognized-From i f new (has new ver_sslv2_flag || has new unknown_flag))

handled-From :
    (i f new : ℕ) (host : Host) (config : Config) (packet : Packet) (w : World)
    → Spared config i
    → From i f new (handled host config packet f new w).flags
unfolding handled
handled-From i f new host config packet w s =
    if-elim (λ (t : Turn). From i f new t.flags) (has new alert_flag)
      (λ _.
        merged-From i f new (sslpp_process_alert config packet f new w)
          (alert-From i f new config packet w))
      λ _.
        if-elim (λ (t : Turn). From i f new t.flags) (has new handshake_flags)
          (λ _. merged-From i f new (sslpp_process_hs f new w) (hs-From i f new w))
          λ _.
            if-elim (λ (t : Turn). From i f new t.flags) (has new app_flags)
              (λ _.
                merged-From i f new (sslpp_process_app host config f new w)
                  (app-From i f new host config w s))
              λ _. other-From i f new config w s

drop_compatibility-le : (i f new : ℕ) → bit_at i (drop_compatibility f new) ≤ bit_at i f
unfolding drop_compatibility
drop_compatibility-le i f new =
    if-elim (λ g. bit_at i g ≤ bit_at i f) (has f v3_back_compat_v2 && is_v3_server_hello new)
      (λ _.
        omega (arith, bit_at-bit_and i f (0xFFFFFFFF - bit_or ver_sslv2_flag v3_back_compat_v2)))
      λ _. omega arith

-- A packet of a session that is not known to be encrypted sets no flag but those that it holds,
-- and the one of an encrypted session.
pub clear_turn-From :
    (i f new : ℕ) (host : Host) (config : Config) (packet : Packet) (w : World)
    → Spared config i
    → From i f new (clear_turn host config packet f new w).flags
unfolding clear_turn
clear_turn-From i f new host config packet w s =
    let kept = drop_compatibility f new in
    from (
      omega (
        arith,
        drop_compatibility-le i f new,
        From-le (
            handled-From i kept new host config packet
              (count (λ c. ssl_update_counts new (record c { decoded = next_count c.decoded }))
                (hello_alerts host config kept new w))
              s),
      ))
