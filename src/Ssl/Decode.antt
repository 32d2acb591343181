-- ===== src/Ssl/Decode.antt =====
-- `SSL_decode` of ssl.c: which of the two formats a packet is read as.
use in_free_time.Base.{ℕ, ◌+◌, Bool, true, false, not, Option, none, some, Bytes, get_elem?}
use in_free_time.Base.{◌==◌, ltb, leb, if◌then◌else◌, bit_or, bit_and, ◌&&◌, ◌||◌}
use in_free_time.Base.Int.{ℤ}
use in_free_time.Ssl.{hs_sdone_flag}
use in_free_time.Ssl.{unknown_flag}
use in_free_time.Ssl.{truncated_flag}
use in_free_time.Ssl.{◌>>=◌, ntohs_at, three_byte_len}
use in_free_time.Ssl.Records.{Decoded, ssl_decode_v3}
use in_free_time.Ssl.Version2.{ssl_decode_v2}

-- Does the length that a TLS message would have disagree with the length of its record?
unfoldable pub lengths_differ : Bytes → Option Bool
lengths_differ pkt = do
  datalen ← three_byte_len pkt 6
  reclen ← ntohs_at pkt 3
  some (not (reclen == datalen + 4))

-- The tests on `pkt[4]`, `pkt[9]` and `pkt[7]`, for more than 5 bytes: is this SSLv2?
unfoldable pub looks_like_v2 : Bytes → ℕ → Option Bool
looks_like_v2 pkt size = get_elem? pkt 4 >>= λ b4.
    if b4 == 2
    then (if leb 10 size
        then (get_elem? pkt 9 >>= λ b9. if b9 == 3 then lengths_differ pkt else some false)
        else some false)
    else (if leb 8 size
        then (get_elem? pkt 7 >>= λ b7. if b7 == 2 then lengths_differ pkt else some false)
        else some false)

-- `*partial_rec_len`, 0 for a null pointer
abbrev pub owed : Option ℕ → ℕ
owed none = 0
owed (some n) = n

-- Which of the two decoders is called, for at least 5 bytes?
unfoldable pub is_v2 : Bytes → ℕ → ℕ → Option ℕ → Option Bool
is_v2 pkt size prev_flags partial_rec_len =
    if not (bit_and prev_flags hs_sdone_flag == 0)
    then some false
    else (get_elem? pkt 0 >>= λ b0.
        if (not (bit_and b0 0x80 == 0) || not (bit_and b0 0x40 == 0)) && owed partial_rec_len == 0
        then some true
        else (if size == 5 then some false else looks_like_v2 pkt size))

unfoldable pub as_v2 : Bytes → ℕ → ℕ → Option ℕ → Option ℕ → Option Decoded
as_v2 pkt size pkt_flags alert_flags partial_rec_len = do
  flags ← ssl_decode_v2 pkt size pkt_flags
  some (record { flags = flags; alert_flags = alert_flags; partial_rec_len = partial_rec_len })

-- `SSL_decode`; a null `pkt` is `none`.
unfoldable pub ssl_decode : Option Bytes → ℕ → ℕ → ℕ → Option ℕ → Option ℕ → ℤ → Option Decoded
ssl_decode none size pkt_flags prev_flags alert_flags partial_rec_len max_hb_len =
    some (record { flags = 0; alert_flags = alert_flags; partial_rec_len = partial_rec_len })
ssl_decode (some pkt) size pkt_flags prev_flags alert_flags partial_rec_len max_hb_len =
    if size == 0
    then some (record { flags = 0; alert_flags = alert_flags; partial_rec_len = partial_rec_len })
    else if ltb size 5
    then some (record {
      flags = bit_or truncated_flag unknown_flag;
      alert_flags = alert_flags;
      partial_rec_len = partial_rec_len;
    })
    else (is_v2 pkt size prev_flags partial_rec_len >>= λ v2.
        if v2
        then as_v2 pkt size pkt_flags alert_flags partial_rec_len
        else ssl_decode_v3 pkt size pkt_flags alert_flags partial_rec_len max_hb_len)
