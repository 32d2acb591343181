-- ===== src/Ssl/RecordsRuns.antt =====
-- The record decoder reads inside the packet, ends, and keeps to the packet's direction.
use in_free_time.Base.{ℕ, zero, suc, ◌-◌, ◌≤◌, refl, Bool, true, false, Option, none, some, Bytes}
use in_free_time.Base.{
  ◌==◌, ltb, if◌then◌else◌, bit_or, bit_and, drop, length, length-drop, arith, ◌||◌, min,
}
use in_free_time.Base.Int.{ℤ, pos, eqb_ℤ}
use native.Mathlib.Nat.{le_refl}
use in_free_time.Ssl.{change_cipher_flag, alert_flag}
use in_free_time.Ssl.{sapp_flag, capp_flag, hs_sdone_flag, heartbeat_seen}
use in_free_time.Ssl.{possibly_enc_flag}
use in_free_time.Ssl.{unknown_flag}
use in_free_time.Ssl.{bad_type_flag, truncated_flag}
use in_free_time.Ssl.{from_server}
use in_free_time.Ssl.Runs.{Runs, runs, >>=-Runs, if-Runs, Any, get_elem?-Runs, ntohs_at-Runs}
use in_free_time.Ssl.Direction.{Forbids, Lacks, bit_or-Lacks, if-Lacks, version-Lacks}
use in_free_time.Ssl.HandshakeRuns.{constant, more, ssl_decode_handshake_v3-Runs}
use in_free_time.Ssl.Records.{Seen, heartbeat, mark, heartbeat_record, handshake_record}
use in_free_time.Ssl.Records.{
  record_body, next_record, record_round, record_loop, conclude, records, ssl_decode_v3,
}

heartbeat-Runs :
    (pkt : Bytes) (size reclen : ℕ) (max_hb_len : ℤ) (retval : ℕ) (alert : Option ℕ)
    → size ≤ length pkt
    → Runs Any (heartbeat pkt size reclen max_hb_len retval alert)
unfolding heartbeat
heartbeat-Runs pkt size reclen max_hb_len retval none within = runs tt
heartbeat-Runs pkt size reclen max_hb_len retval (some alert) within =
    if-Runs (ltb size 3 || eqb_ℤ max_hb_len (pos 0)) (λ _. runs tt)
      λ long.
        >>=-Runs (get_elem?-Runs pkt 0 (ground (arith, long)))
          λ type _. >>=-Runs (ntohs_at-Runs pkt 1 (ground (arith, long))) λ hblen _. runs tt

module _ {i pkt_flags : ℕ} (forbids : Forbids pkt_flags i) where
  abbrev SeenLacks : Seen → Type 0
  SeenLacks s = Lacks i s.retval

  handshake_record-Runs :
      (pkt : Bytes) (size reclen : ℕ) (s : Seen)
      → size ≤ length pkt
      → Lacks i s.retval
      → Runs (λ t. Lacks i t.retval) (handshake_record pkt size reclen pkt_flags s)
  unfolding handshake_record
  handshake_record-Runs pkt size reclen s within h =
      if-Runs (bit_and s.retval change_cipher_flag == 0)
        (λ _.
          >>=-Runs
            (ssl_decode_handshake_v3-Runs forbids pkt (min size reclen) s.retval (omega arith))
            λ f lacks. runs (bit_or-Lacks h lacks))
        λ _. runs (encrypted s.ccs)
    where
      encrypted :
          (ccs : Bool)
          → Lacks i (if ccs then mark s hs_sdone_flag false else record s { ccs = false }).retval
      encrypted true = more forbids hs_sdone_flag h refl refl refl refl
      encrypted false = h

  record_body-Runs :
      (type : ℕ) (pkt : Bytes) (size reclen : ℕ) (max_hb_len : ℤ) (s : Seen)
      → size ≤ length pkt
      → Lacks i s.retval
      → Runs (λ t. Lacks i t.retval) (record_body type pkt size reclen pkt_flags max_hb_len s)
  unfolding record_body heartbeat_record
  record_body-Runs type pkt size reclen max_hb_len s within h =
      if-Runs (type == 20)
        (λ _. runs (
          bit_or-Lacks h (
            if-Lacks (ltb reclen size)
              (constant forbids (bit_or change_cipher_flag possibly_enc_flag) refl refl refl refl)
              (constant forbids change_cipher_flag refl refl refl refl))))
        λ _.
          if-Runs (type == 21) (λ _. runs (more forbids alert_flag h refl refl refl refl))
            λ _.
              if-Runs (type == 24)
                (λ _.
                  >>=-Runs (heartbeat-Runs pkt size reclen max_hb_len _ s.alert_flags within)
                    λ alert _. runs (more forbids heartbeat_seen h refl refl refl refl))
                λ _.
                  if-Runs (type == 22) (λ _. handshake_record-Runs pkt size reclen s within h)
                    λ _.
                      if-Runs (type == 23)
                        (λ _. runs (
                          bit_or-Lacks h (
                            if-Lacks (from_server pkt_flags)
                              (constant forbids sapp_flag refl refl refl refl)
                              (constant forbids capp_flag refl refl refl refl))))
                        λ _. runs (more forbids bad_type_flag h refl refl refl refl)

  record_loop-Runs :
      (fuel : ℕ) (max_hb_len : ℤ) (pkt : Bytes) (size : ℕ) (s : Seen)
      → size ≤ fuel
      → size ≤ length pkt
      → Lacks i s.retval
      → Runs (λ t. Lacks i t.retval) (record_loop fuel pkt_flags max_hb_len pkt size s)
  unfolding record_loop record_round next_record
  record_loop-Runs fuel max_hb_len pkt zero s enough within h = runs h
  record_loop-Runs zero max_hb_len pkt (suc size) s enough within h = absurd (omega arith)
  record_loop-Runs (suc fuel) max_hb_len pkt (suc size) s enough within h =
      if-Runs (ltb (suc size) 5) (λ _. runs (more forbids truncated_flag h refl refl refl refl))
        λ long. >>=-Runs (get_elem?-Runs pkt 1 (ground (arith, long))) λ major _.
          >>=-Runs (get_elem?-Runs pkt 2 (ground (arith, long))) λ minor _.
            >>=-Runs (ntohs_at-Runs pkt 3 (ground (arith, long))) λ reclen _.
              >>=-Runs (get_elem?-Runs pkt 0 (ground (arith, long))) λ type _.
                >>=-Runs
                  (record_body-Runs type (drop 5 pkt) (suc size - 5) reclen max_hb_len _
                    (ground (arith, long, length-drop 5 pkt))
                    (bit_or-Lacks h (version-Lacks major minor forbids)))
                  λ t lacks.
                    if-Runs (ltb (suc size - 5) reclen)
                      (λ _. runs (more forbids truncated_flag lacks refl refl refl refl))
                      λ _.
                        record_loop-Runs fuel max_hb_len (drop reclen (drop 5 pkt))
                          (suc size - 5 - reclen) t (omega arith)
                          (omega (arith, length-drop reclen (drop 5 pkt), length-drop 5 pkt)) lacks

  records-Runs :
      (pkt : Bytes) (size : ℕ) (alert_flags partial : Option ℕ) (max_hb_len : ℤ)
      → size ≤ length pkt
      → Runs (λ d. Lacks i d.flags) (records pkt size pkt_flags alert_flags partial max_hb_len)
  unfolding records conclude
  records-Runs pkt size alert_flags partial max_hb_len within =
      >>=-Runs
        (record_loop-Runs size max_hb_len pkt size _ (le_refl size) within
          (constant forbids 0 refl refl refl refl))
        λ s lacks. runs (if-Lacks _ (more forbids unknown_flag lacks refl refl refl refl) lacks)

  pub ssl_decode_v3-Runs :
      (pkt : Bytes) (size : ℕ) (alert_flags partial : Option ℕ) (max_hb_len : ℤ)
      → size ≤ length pkt
      → Runs
          (λ d. Lacks i d.flags)
          (ssl_decode_v3 pkt size pkt_flags alert_flags partial max_hb_len)
  unfolding ssl_decode_v3
  ssl_decode_v3-Runs pkt size alert_flags none max_hb_len within =
      records-Runs pkt size alert_flags none max_hb_len within
  ssl_decode_v3-Runs pkt size alert_flags (some owed) max_hb_len within =
      if-Runs (size == 0 || owed == 0)
        (λ _. records-Runs pkt size alert_flags (some owed) max_hb_len within)
        λ _.
          if-Runs (ltb size owed) (λ _. runs (constant forbids truncated_flag refl refl refl refl))
            λ _.
              records-Runs (drop owed pkt) (size - owed) alert_flags (some 0) max_hb_len
                (omega (arith, length-drop owed pkt))
