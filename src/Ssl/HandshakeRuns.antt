-- ===== src/Ssl/HandshakeRuns.antt =====
-- The handshake decoder reads inside its bytes, ends, and keeps to the packet's direction.
use in_free_time.Base.{ℕ, zero, suc, ◌+◌, ◌-◌, ◌≤◌, ◌≡◌, refl, Bool, Option, Bytes}
use in_free_time.Base.{◌==◌, ltb, bit_or, bit_and, drop, length, length-drop, arith, ◌||◌}
use in_free_time.Ssl.{possible_hs_flag}
use in_free_time.Ssl.{certificate_flag, server_keyx_flag, client_keyx_flag}
use in_free_time.Ssl.{hs_sdone_flag}
use in_free_time.Ssl.{possibly_enc_flag, verflags}
use in_free_time.Ssl.{cur_server_keyx_flag, cur_client_keyx_flag}
use in_free_time.Ssl.{bogus_hs_dir_flag, bad_ver_flag, truncated_flag}
use in_free_time.Ssl.{from_server, ssl_decode_version_v3}
use native.Mathlib.Nat.{le_refl}
use in_free_time.Ssl.Runs.{Runs, runs, >>=-Runs, if-Runs, get_elem?-Runs, three_byte_len-Runs}
use in_free_time.Base.Bits.{bit_at}
use in_free_time.Ssl.Direction.{
  Forbids, Lacks, Forbids, Lacks, bit_or-Lacks, if-Lacks, constant-Lacks, version-Lacks,
  client_hello-Lacks, server_hello-Lacks,
}
use in_free_time.Ssl.Handshake.{
  hello_version, Message, flagged, possibly_encrypted, hello, handshake_message, next_message,
}
use in_free_time.Ssl.Handshake.{handshake_round, handshake_loop, ssl_decode_handshake_v3}

abbrev MessageLacks : ℕ → Message → Type 0
MessageLacks i (flagged f) = Lacks i f
MessageLacks i possibly_encrypted = Unit {0}

module _ {i pkt_flags : ℕ} (forbids : Forbids pkt_flags i) where
  pub constant :
      (f : ℕ) → bit_at 3 f ≡ 0 → bit_at 4 f ≡ 0 → bit_at 28 f ≡ 0 → bit_at 26 f ≡ 0 → Lacks i f
  constant f p q r u = constant-Lacks f forbids p q r u

  -- One more flag, which is not ruled out.
  pub more :
      {retval : ℕ} (f : ℕ)
      → Lacks i retval
      → bit_at 3 f ≡ 0
      → bit_at 4 f ≡ 0
      → bit_at 28 f ≡ 0
      → bit_at 26 f ≡ 0
      → Lacks i (bit_or retval f)
  more f h p q r u = bit_or-Lacks h (constant f p q r u)

  hello-Runs :
      (handshake : Bytes) (size cur_flags retval : ℕ)
      → size + 4 ≤ length handshake
      → Lacks i retval
      → Runs (MessageLacks i) (hello handshake size cur_flags retval)
  unfolding hello hello_version
  hello-Runs handshake size cur_flags retval within h =
      >>=-Runs {P = Lacks i}
        (if-Runs (ltb size 2) (λ _. runs (more truncated_flag h refl refl refl refl))
          λ long. >>=-Runs (get_elem?-Runs handshake 4 (ground (arith, long))) λ major _.
            >>=-Runs (get_elem?-Runs handshake 5 (ground (arith, long))) λ minor _.
              let versions : Lacks i (bit_or retval (ssl_decode_version_v3 major minor)) =
                bit_or-Lacks h (version-Lacks major minor forbids) in
              runs (
                if-Lacks (bit_and cur_flags verflags == _) versions
                  (more bad_ver_flag versions refl refl refl refl)))
        λ f p. runs p

  handshake_message-Runs :
      (type cur_flags : ℕ) (handshake : Bytes) (size retval : ℕ)
      → size + 4 ≤ length handshake
      → Lacks i retval
      → Runs (MessageLacks i) (handshake_message type cur_flags pkt_flags handshake size retval)
  unfolding handshake_message
  handshake_message-Runs type cur_flags handshake size retval within h =
      let s : Bool = from_server pkt_flags in
      if-Runs (type == 1)
        (λ _.
          hello-Runs handshake size cur_flags _ within
            (bit_or-Lacks h (client_hello-Lacks forbids)))
        λ _.
          if-Runs (type == 2)
            (λ _.
              hello-Runs handshake size cur_flags _ within
                (bit_or-Lacks h (server_hello-Lacks forbids)))
            λ _.
              if-Runs (type == 14)
                (λ _. runs (
                  bit_or-Lacks h (
                    if-Lacks s (constant hs_sdone_flag refl refl refl refl)
                      (constant bogus_hs_dir_flag refl refl refl refl))))
                λ _.
                  if-Runs (type == 12)
                    (λ _. runs (
                      bit_or-Lacks h (
                        if-Lacks s
                          (constant (bit_or server_keyx_flag cur_server_keyx_flag) refl refl refl
                            refl)
                          (constant bogus_hs_dir_flag refl refl refl refl))))
                    λ _.
                      if-Runs (type == 16)
                        (λ _. runs (
                          bit_or-Lacks h (
                            if-Lacks s (constant bogus_hs_dir_flag refl refl refl refl) (
                              constant (bit_or client_keyx_flag cur_client_keyx_flag) refl refl refl
                                refl))))
                        λ _.
                          if-Runs (type == 11)
                            (λ _. runs (more certificate_flag h refl refl refl refl))
                            λ _.
                              if-Runs
                                (type == 0 || type == 15 || type == 13 || type == 21 || type == 22)
                                (λ _. runs h) λ _. runs tt

  next_message-Runs :
      (again : Bytes → ℕ → ℕ → Option ℕ) (pkt : Bytes) (size hs_len : ℕ) (message : Message)
      → size ≤ length pkt
      → MessageLacks i message
      → ((f : ℕ) → Lacks i f → Runs (Lacks i) (again (drop hs_len pkt) (size - hs_len) f))
      → Runs (Lacks i) (next_message again pkt size hs_len message)
  unfolding next_message
  next_message-Runs again pkt size hs_len possibly_encrypted within h more_rounds =
      runs (constant (bit_or possible_hs_flag possibly_enc_flag) refl refl refl refl)
  next_message-Runs again pkt size hs_len (flagged f) within h more_rounds =
      if-Runs (ltb size hs_len) (λ _. runs (more truncated_flag h refl refl refl refl))
        λ _. more_rounds f h

  handshake_loop-Runs :
      (fuel cur_flags : ℕ) (pkt : Bytes) (size retval : ℕ)
      → size ≤ fuel
      → size ≤ length pkt
      → Lacks i retval
      → Runs (Lacks i) (handshake_loop fuel cur_flags pkt_flags pkt size retval)
  unfolding handshake_loop handshake_round
  handshake_loop-Runs fuel cur_flags pkt zero retval enough within h = runs h
  handshake_loop-Runs zero cur_flags pkt (suc size) retval enough within h = absurd (omega arith)
  handshake_loop-Runs (suc fuel) cur_flags pkt (suc size) retval enough within h =
      if-Runs (ltb (suc size) 4) (λ _. runs (more truncated_flag h refl refl refl refl))
        λ long. >>=-Runs (three_byte_len-Runs pkt 1 (ground (arith, long))) λ hs_len _.
          >>=-Runs (get_elem?-Runs pkt 0 (ground (arith, long))) λ type _.
            >>=-Runs
              (handshake_message-Runs type cur_flags pkt (suc size - 4) retval
                (ground (arith, long)) h)
              λ message lacks.
                next_message-Runs _ (drop 4 pkt) (suc size - 4) hs_len message
                  (ground (arith, long, length-drop 4 pkt)) lacks
                  λ f p.
                    handshake_loop-Runs fuel cur_flags (drop hs_len (drop 4 pkt))
                      (suc size - 4 - hs_len) f (omega arith)
                      (ground (arith, long, length-drop hs_len (drop 4 pkt), length-drop 4 pkt)) p

  pub ssl_decode_handshake_v3-Runs :
      (pkt : Bytes) (size cur_flags : ℕ)
      → size ≤ length pkt
      → Runs (Lacks i) (ssl_decode_handshake_v3 pkt size cur_flags pkt_flags)
  unfolding ssl_decode_handshake_v3
  ssl_decode_handshake_v3-Runs pkt size cur_flags within =
      handshake_loop-Runs size cur_flags pkt size 0 (le_refl size) within
        (constant 0 refl refl refl refl)
