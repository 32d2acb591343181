-- ===== src/Ssl/Version2Runs.antt =====
-- The SSLv2 decoder reads inside the packet, ends, and keeps to the packet's direction.
use in_free_time.Base.{ℕ, zero, suc, ◌+◌, ◌-◌, ◌%◌, ◌^◌, ◌≤◌, refl, Option, Bytes}
use in_free_time.Base.{◌==◌, ltb, bit_or, drop, length, length-drop, arith}
use native.Mathlib.Nat.{le_refl}
use in_free_time.Ssl.{client_keyx_flag}
use in_free_time.Ssl.{ver_sslv2_flag}
use in_free_time.Ssl.{cur_client_keyx_flag, unknown_flag, v3_back_compat_v2}
use in_free_time.Ssl.{bad_type_flag, bad_ver_flag, truncated_flag}
use in_free_time.Ssl.Runs.{Runs, runs, >>=-Runs, if-Runs, get_elem?-Runs, ntohs_at-Runs}
use in_free_time.Ssl.Direction.{
  Forbids, Lacks, bit_or-Lacks, if-Lacks, client_hello-Lacks, v2_server_hello-Lacks,
}
use in_free_time.Ssl.HandshakeRuns.{constant, more}
use in_free_time.Ssl.Version2.{
  ssl_v3_back_compat_v2, Verdict, flagged, returns, v2_client_hello, v2_server_hello,
}
use in_free_time.Ssl.Version2.{v2_message, v2_next, v2_round, v2_loop, ssl_decode_v2}

abbrev VerdictLacks : ℕ → Verdict → Type 0
VerdictLacks i (flagged f) = Lacks i f
VerdictLacks i (returns f) = Lacks i f

module _ {i pkt_flags : ℕ} (forbids : Forbids pkt_flags i) where
  v2_client_hello-Runs :
      (pkt : Bytes) (size retval : ℕ)
      → size ≤ length pkt
      → Lacks i retval
      → Runs (VerdictLacks i) (v2_client_hello pkt size retval)
  unfolding v2_client_hello
  v2_client_hello-Runs pkt size retval within h =
      if-Runs (ltb size 5)
        (λ _. runs (more forbids (bit_or truncated_flag unknown_flag) h refl refl refl refl))
        λ long. >>=-Runs (get_elem?-Runs pkt 3 (ground (arith, long))) λ major _.
          >>=-Runs (get_elem?-Runs pkt 4 (ground (arith, long))) λ minor _. runs (
            if-Lacks (ssl_v3_back_compat_v2 major minor)
              (more forbids v3_back_compat_v2 h refl refl refl refl)
              (if-Lacks (minor == 2) h
                (more forbids (bit_or bad_ver_flag unknown_flag) h refl refl refl refl)))

  v2_server_hello-Runs :
      (pkt : Bytes) (size retval : ℕ)
      → size ≤ length pkt
      → Lacks i retval
      → Runs (VerdictLacks i) (v2_server_hello pkt size retval)
  unfolding v2_server_hello
  v2_server_hello-Runs pkt size retval within h =
      if-Runs (ltb size 7)
        (λ _. runs (more forbids (bit_or truncated_flag unknown_flag) h refl refl refl refl))
        λ long. >>=-Runs (get_elem?-Runs pkt 6 (ground (arith, long))) λ minor _. runs (
          if-Lacks (minor == 2) h
            (more forbids (bit_or bad_ver_flag unknown_flag) h refl refl refl refl))

  v2_message-Runs :
      (type : ℕ) (pkt : Bytes) (size retval : ℕ)
      → size ≤ length pkt
      → Lacks i retval
      → Runs (VerdictLacks i) (v2_message type pkt_flags pkt size retval)
  unfolding v2_message
  v2_message-Runs type pkt size retval within h =
      if-Runs (type == 1)
        (λ _. v2_client_hello-Runs pkt size _ within (bit_or-Lacks h (client_hello-Lacks forbids)))
        λ _.
          if-Runs (type == 4)
            (λ _.
              v2_server_hello-Runs pkt size _ within
                (bit_or-Lacks h (v2_server_hello-Lacks forbids)))
            λ _.
              if-Runs (type == 2)
                (λ _. runs (
                  more forbids (bit_or client_keyx_flag cur_client_keyx_flag) h refl refl refl
                    refl))
                λ _. runs (more forbids (bit_or bad_type_flag unknown_flag) h refl refl refl refl)

  v2_next-Runs :
      (again : Bytes → ℕ → ℕ → Option ℕ) (pkt : Bytes) (size reclen : ℕ) (verdict : Verdict)
      → VerdictLacks i verdict
      → ((f : ℕ)
          → Lacks i f
          → Runs (Lacks i) (again (drop (reclen + 2) pkt) (size - (reclen + 2)) f))
      → Runs (Lacks i) (v2_next again pkt size reclen verdict)
  unfolding v2_next
  v2_next-Runs again pkt size reclen (returns f) h more_rounds = runs h
  v2_next-Runs again pkt size reclen (flagged f) h more_rounds =
      if-Runs (ltb size (reclen + 2))
        (λ _. runs (
          more forbids ver_sslv2_flag (more forbids truncated_flag h refl refl refl refl) refl refl
            refl refl))
        λ _. more_rounds f h

  v2_loop-Runs :
      (fuel : ℕ) (first pkt : Bytes) (size retval : ℕ)
      → size ≤ fuel
      → size ≤ length pkt
      → length pkt ≤ length first
      → Lacks i retval
      → Runs (Lacks i) (v2_loop fuel first pkt_flags pkt size retval)
  unfolding v2_loop v2_round
  v2_loop-Runs fuel first pkt zero retval enough within behind h =
      runs (more forbids ver_sslv2_flag h refl refl refl refl)
  v2_loop-Runs zero first pkt (suc size) retval enough within behind h = absurd (omega arith)
  v2_loop-Runs (suc fuel) first pkt (suc size) retval enough within behind h =
      if-Runs (ltb (suc size) 5)
        (λ _. runs (
          more forbids ver_sslv2_flag
            (more forbids (bit_or truncated_flag unknown_flag) h refl refl refl refl) refl refl refl
            refl))
        λ long. >>=-Runs (ntohs_at-Runs first 0 (ground (arith, long))) λ length _.
          >>=-Runs (get_elem?-Runs first 2 (ground (arith, long))) λ type _.
            >>=-Runs (v2_message-Runs type pkt (suc size) retval within h) λ verdict lacks.
              let reclen : ℕ = length % 2 ^ 15 in
              v2_next-Runs _ pkt (suc size) reclen verdict lacks λ f p.
                v2_loop-Runs fuel first (drop (reclen + 2) pkt) (suc size - (reclen + 2)) f
                  (omega arith) (omega (arith, length-drop (reclen + 2) pkt))
                  (omega (arith, length-drop (reclen + 2) pkt)) p

  pub ssl_decode_v2-Runs :
      (pkt : Bytes) (size : ℕ)
      → size ≤ length pkt
      → Runs (Lacks i) (ssl_decode_v2 pkt size pkt_flags)
  unfolding ssl_decode_v2
  ssl_decode_v2-Runs pkt size within =
      v2_loop-Runs size pkt pkt size 0 (le_refl size) within (le_refl (length pkt))
        (constant forbids 0 refl refl refl refl)
