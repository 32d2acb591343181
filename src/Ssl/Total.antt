-- ===== src/Ssl/Total.antt =====
-- `SSL_decode` reads inside the packet and ends, except for the byte that `SSL_decode` itself reads
-- behind some packets of 8 bytes.
use in_free_time.Base.{
  ℕ, zero, suc, ◌≤◌, ◌<◌, ◌≡◌, refl, true, false, not, Option, none, some, Bytes, get_elem?,
}
use in_free_time.Base.{◌==◌, ltb, leb, bit_or, bit_and, length, arith, ◌||◌, ◌&&◌, [], ◌∷◌}
use in_free_time.Base.Int.{ℤ}
use in_free_time.Base.Bits.{bit_at}
use in_free_time.Ssl.{hs_sdone_flag}
use in_free_time.Ssl.{unknown_flag}
use in_free_time.Ssl.{truncated_flag}
use in_free_time.Ssl.{from_server, from_client, three_byte_len}
use in_free_time.Ssl.Runs.{
  Runs, runs, >>=-Runs, if-Runs, Any, get_elem?-Runs, ntohs_at-Runs, three_byte_len-Runs,
}
use in_free_time.Ssl.Direction.{Forbids, server, client, always, Lacks, bit_at-absent}
use in_free_time.Ssl.HandshakeRuns.{constant}
use in_free_time.Ssl.Records.{Decoded}
use in_free_time.Ssl.RecordsRuns.{ssl_decode_v3-Runs}
use in_free_time.Ssl.Version2Runs.{ssl_decode_v2-Runs}
use in_free_time.Ssl.Decode.{lengths_differ, looks_like_v2, owed, is_v2, as_v2, ssl_decode}

-- Not a packet of 8 bytes that ends in the version of an SSLv2 server hello.
abbrev pub IsReadable : Bytes → ℕ → Type 0
IsReadable pkt size = size ≡ 8 → ¬ (get_elem? pkt 7 ≡ some 2)

get_elem?-found :
    (pkt : Bytes) (i : ℕ) → i < length pkt → Runs (λ b. get_elem? pkt i ≡ some b) (get_elem? pkt i)
get_elem?-found [] i h = absurd (omega arith)
get_elem?-found (x ∷ pkt) zero h = runs refl
get_elem?-found (x ∷ pkt) (suc i) h = get_elem?-found pkt i (omega arith)

lengths_differ-Runs : (pkt : Bytes) → 9 ≤ length pkt → Runs Any (lengths_differ pkt)
unfolding lengths_differ
lengths_differ-Runs pkt h =
    >>=-Runs (three_byte_len-Runs pkt 6 (omega arith))
      λ datalen _. >>=-Runs (ntohs_at-Runs pkt 3 (omega arith)) λ reclen _. runs tt

looks_like_v2-Runs :
    (pkt : Bytes) (size : ℕ)
    → 5 ≤ size
    → size ≤ length pkt
    → IsReadable pkt size
    → Runs Any (looks_like_v2 pkt size)
unfolding looks_like_v2
looks_like_v2-Runs pkt size long within readable =
    >>=-Runs (get_elem?-Runs pkt 4 (omega arith)) λ b4 _.
      if-Runs (b4 == 2)
        (λ _.
          if-Runs (leb 10 size)
            (λ ten. >>=-Runs (get_elem?-Runs pkt 9 (ground (arith, ten))) λ b9 _.
              if-Runs (b9 == 3) (λ _. lengths_differ-Runs pkt (ground (arith, ten))) λ _. runs tt)
            λ _. runs tt)
        λ _.
          if-Runs (leb 8 size)
            (λ eight. >>=-Runs (get_elem?-found pkt 7 (ground (arith, eight))) λ b7 found.
              if-Runs (b7 == 2)
                (λ two. lengths_differ-Runs pkt (ground (arith, eight, two, found, readable)))
                λ _. runs tt)
            λ _. runs tt

is_v2-Runs :
    (pkt : Bytes) (size prev_flags : ℕ) (partial : Option ℕ)
    → 5 ≤ size
    → size ≤ length pkt
    → IsReadable pkt size
    → Runs Any (is_v2 pkt size prev_flags partial)
unfolding is_v2
is_v2-Runs pkt size prev_flags partial long within readable =
    if-Runs (not (bit_and prev_flags hs_sdone_flag == 0)) (λ _. runs tt)
      λ _. >>=-Runs (get_elem?-Runs pkt 0 (omega arith)) λ b0 _.
        if-Runs ((not (bit_and b0 0x80 == 0) || not (bit_and b0 0x40 == 0)) && owed partial == 0)
          (λ _. runs tt)
          λ _.
            if-Runs (size == 5) (λ _. runs tt) λ _. looks_like_v2-Runs pkt size long within readable

module _ {i pkt_flags : ℕ} (forbids : Forbids pkt_flags i) where
  pub ssl_decode-Runs :
      (pkt : Bytes) (size prev_flags : ℕ) (alert_flags partial : Option ℕ) (max_hb_len : ℤ)
      → size ≤ length pkt
      → IsReadable pkt size
      → Runs
          (λ d. Lacks i d.flags)
          (ssl_decode (some pkt) size pkt_flags prev_flags alert_flags partial max_hb_len)
  unfolding ssl_decode as_v2
  ssl_decode-Runs pkt size prev_flags alert_flags partial max_hb_len within readable =
      if-Runs (size == 0) (λ _. runs (constant forbids 0 refl refl refl refl))
        λ _.
          if-Runs (ltb size 5)
            (λ _. runs (constant forbids (bit_or truncated_flag unknown_flag) refl refl refl refl))
            λ long.
              >>=-Runs
                (is_v2-Runs pkt size prev_flags partial (ground (arith, long)) within readable)
                λ v2 _.
                  if-Runs v2
                    (λ _.
                      >>=-Runs (ssl_decode_v2-Runs forbids pkt size within) λ f lacks. runs lacks)
                    λ _. ssl_decode_v3-Runs forbids pkt size alert_flags partial max_hb_len within

outcome :
    {i : ℕ} {o : Option Decoded}
    → Runs (λ d. Lacks i d.flags) o
    → (d : Decoded) × (o ≡ some d) × (bit_at i d.flags ≡ 0)
outcome (runs {a} h) = (a, refl, bit_at-absent h)

-- Decoding a packet of `size` bytes ends without a read outside it, whatever the bytes and the
-- flags are, unless it has 8 bytes and the last one is 2; and `SSL_TRAILING_GARB_FLAG` (bit 28) is
-- not set.
pub ssl_decode-total :
    (pkt : Bytes) (size pkt_flags prev_flags : ℕ) (alert_flags partial : Option ℕ) (max_hb_len : ℤ)
    → size ≤ length pkt
    → IsReadable pkt size
    → (d : Decoded) × (ssl_decode
          (some pkt)
          size
          pkt_flags
          prev_flags
          alert_flags
          partial
          max_hb_len
        ≡ some d)
      × (bit_at 28 d.flags ≡ 0)
ssl_decode-total pkt size pkt_flags prev_flags alert_flags partial max_hb_len within readable =
    outcome
      (ssl_decode-Runs always pkt size prev_flags alert_flags partial max_hb_len within readable)

-- Decoding a packet from the server, unless it has 8 bytes and the last one is 2, has a result
-- without `SSL_CLIENT_HELLO_FLAG` (bit 3).
pub ssl_decode-from_server :
    (pkt : Bytes) (size pkt_flags prev_flags : ℕ) (alert_flags partial : Option ℕ) (max_hb_len : ℤ)
    → size ≤ length pkt
    → IsReadable pkt size
    → from_server pkt_flags ≡ true
    → (d : Decoded) × (ssl_decode
          (some pkt)
          size
          pkt_flags
          prev_flags
          alert_flags
          partial
          max_hb_len
        ≡ some d)
      × (bit_at 3 d.flags ≡ 0)
ssl_decode-from_server pkt size pkt_flags prev_flags alert_flags partial max_hb_len within readable
      s =
    outcome (
      ssl_decode-Runs (server s) pkt size prev_flags alert_flags partial max_hb_len within readable)

-- Decoding a packet from the client, not marked as from the server, unless it has 8 bytes and the
-- last one is 2, has a result without `SSL_SERVER_HELLO_FLAG` (bit 4).
pub ssl_decode-from_client :
    (pkt : Bytes) (size pkt_flags prev_flags : ℕ) (alert_flags partial : Option ℕ) (max_hb_len : ℤ)
    → size ≤ length pkt
    → IsReadable pkt size
    → from_server pkt_flags ≡ false
    → from_client pkt_flags ≡ true
    → (d : Decoded) × (ssl_decode
          (some pkt)
          size
          pkt_flags
          prev_flags
          alert_flags
          partial
          max_hb_len
        ≡ some d)
      × (bit_at 4 d.flags ≡ 0)
ssl_decode-from_client pkt size pkt_flags prev_flags alert_flags partial max_hb_len within readable
      s c =
    outcome (
      ssl_decode-Runs (client s c) pkt size prev_flags alert_flags partial max_hb_len within
        readable)

-- A packet of 8 bytes of which the last is 2 and byte 4 is not, that does not begin like an SSLv2
-- record, on a session whose server is not done: `THREE_BYTE_LEN(pkt+6)` reads the byte behind it.
pub ssl_decode_overread :
    (b0 b1 b2 b3 b4 b5 b6 pkt_flags prev_flags : ℕ) (alert_flags partial : Option ℕ)
    (max_hb_len : ℤ)
    → bit_and b0 0x80 ≡ 0
    → bit_and b0 0x40 ≡ 0
    → (b4 == 2) ≡ false
    → bit_and prev_flags hs_sdone_flag ≡ 0
    → ssl_decode
        (some (b0 ∷ b1 ∷ b2 ∷ b3 ∷ b4 ∷ b5 ∷ b6 ∷ 2 ∷ []))
        8
        pkt_flags
        prev_flags
        alert_flags
        partial
        max_hb_len
      ≡ none
unfolding ssl_decode is_v2 looks_like_v2 lengths_differ three_byte_len
ssl_decode_overread b0 b1 b2 b3 b4 b5 b6 pkt_flags prev_flags alert_flags partial max_hb_len p q r
      s =
    rw s (rw p (rw q (rw r refl)))
