-- ===== src/Ssl/Records.antt =====
-- `SSL_decode_v3` of ssl.c: the records of one packet.
use in_free_time.Base.{
  ℕ, zero, suc, ◌-◌, Bool, true, false, not, Option, none, some, Bytes, get_elem?,
}
use in_free_time.Base.{◌==◌, ltb, if◌then◌else◌, bit_or, bit_and, drop, ◌&&◌, ◌||◌, min}
use in_free_time.Base.Int.{ℤ, pos, ltb_ℤ, eqb_ℤ}
use in_free_time.Ssl.{change_cipher_flag, alert_flag}
use in_free_time.Ssl.{sapp_flag, capp_flag, hs_sdone_flag, heartbeat_seen}
use in_free_time.Ssl.{possibly_enc_flag, verflags}
use in_free_time.Ssl.{unknown_flag}
use in_free_time.Ssl.{bad_type_flag, bad_ver_flag, truncated_flag}
use in_free_time.Ssl.{from_server, ◌>>=◌, ntohs_at, ssl_decode_version_v3}
use in_free_time.Ssl.Handshake.{ssl_decode_handshake_v3}

-- The variables that the loop carries, and `*alert_flags`, `none` for a null pointer.
pub record Seen : Type 0 where
  pub retval : ℕ
  pub psize : ℕ
  pub ccs : Bool
  pub alert_flags : Option ℕ

-- The alert for a heartbeat of some type, with `reclen` bytes in its record and `hblen` announced.
unfoldable pub heartbeat_alert : ℕ → ℕ → ℕ → ℤ → ℕ → ℕ → ℕ
heartbeat_alert type hblen reclen max_hb_len retval alert =
    if type == 1
    then (if ltb_ℤ max_hb_len (pos hblen) then 1 else alert)
    else if type == 2
    then (if ltb_ℤ max_hb_len (pos reclen) then 2 else alert)
    else if bit_and retval bad_ver_flag == 0 && ltb_ℤ max_hb_len (pos reclen)
    then 3
    else alert

-- What a heartbeat record does to `*alert_flags`, with `size` bytes behind the record's header.
unfoldable pub heartbeat : Bytes → ℕ → ℕ → ℤ → ℕ → Option ℕ → Option (Option ℕ)
heartbeat pkt size reclen max_hb_len retval none = some none
heartbeat pkt size reclen max_hb_len retval (some alert) =
    if ltb size 3 || eqb_ℤ max_hb_len (pos 0) then some (some alert) else do
      type ← get_elem? pkt 0
      hblen ← ntohs_at pkt 1
      some (some (heartbeat_alert type hblen reclen max_hb_len retval alert))

abbrev pub mark : Seen → ℕ → Bool → Seen
mark s f ccs = record s { retval = bit_or s.retval f; ccs = ccs }

unfoldable pub heartbeat_record : Bytes → ℕ → ℕ → ℤ → Seen → Option Seen
heartbeat_record pkt size reclen max_hb_len s = do
  alert ← heartbeat pkt size reclen max_hb_len (bit_or s.retval heartbeat_seen) s.alert_flags
  some (record (mark s heartbeat_seen false) { alert_flags = alert })

unfoldable pub handshake_record : Bytes → ℕ → ℕ → ℕ → Seen → Option Seen
handshake_record pkt size reclen pkt_flags s =
    if bit_and s.retval change_cipher_flag == 0
    then (ssl_decode_handshake_v3 pkt (min size reclen) s.retval pkt_flags >>= λ f.
        some (mark s f false))
    else some (if s.ccs then mark s hs_sdone_flag false else record s { ccs = false })

-- The switch on `record->type`; `pkt` and `size` are behind the record's header.
unfoldable pub record_body : ℕ → Bytes → ℕ → ℕ → ℕ → ℤ → Seen → Option Seen
record_body type pkt size reclen pkt_flags max_hb_len s =
    if type == 20
    then some (
        mark s
          (if ltb reclen size
            then bit_or change_cipher_flag possibly_enc_flag
            else change_cipher_flag)
          true)
    else if type == 21
    then some (mark s alert_flag false)
    else if type == 24
    then heartbeat_record pkt size reclen max_hb_len s
    else if type == 22
    then handshake_record pkt size reclen pkt_flags s
    else if type == 23
    then some (mark s (if from_server pkt_flags then sapp_flag else capp_flag) false)
    else some (mark s bad_type_flag false)

-- `size -= reclen; pkt += reclen`, and the test behind the loop where that makes `size` negative.
unfoldable pub next_record : (Bytes → ℕ → Seen → Option Seen) → Bytes → ℕ → ℕ → Seen → Option Seen
next_record again pkt size reclen s =
    if ltb size reclen
    then some (record s { retval = bit_or s.retval truncated_flag })
    else again (drop reclen pkt) (size - reclen) s

-- A round of the loop, entered with `size > 0`.
unfoldable pub record_round :
    (Bytes → ℕ → Seen → Option Seen) → ℕ → ℤ → Bytes → ℕ → Seen → Option Seen
record_round again pkt_flags max_hb_len pkt size s =
    if ltb size 5 then some (record s { retval = bit_or s.retval truncated_flag }) else do
      major ← get_elem? pkt 1
      minor ← get_elem? pkt 2
      reclen ← ntohs_at pkt 3
      type ← get_elem? pkt 0
      let versioned : Seen = record s {
        retval = bit_or s.retval (ssl_decode_version_v3 major minor);
        psize = reclen - (size - 5);
      }
      t ← record_body type (drop 5 pkt) (size - 5) reclen pkt_flags max_hb_len versioned
      next_record again (drop 5 pkt) (size - 5) reclen t

-- Out of fuel is `none` too.
unfoldable pub record_loop : ℕ → ℕ → ℤ → Bytes → ℕ → Seen → Option Seen
record_loop fuel pkt_flags max_hb_len pkt zero s = some s
record_loop zero pkt_flags max_hb_len pkt (suc size) s = none
record_loop (suc fuel) pkt_flags max_hb_len pkt (suc size) s =
    record_round (record_loop fuel pkt_flags max_hb_len) pkt_flags max_hb_len pkt (suc size) s

-- The flags returned, `*alert_flags` and `*partial_rec_len`; `none` for a null pointer.
pub record Decoded : Type 0 where
  pub flags : ℕ
  pub alert_flags : Option ℕ
  pub partial_rec_len : Option ℕ

-- The code behind the loop; `partial` is the value at `partial_rec_len`, if it is not null.
unfoldable pub conclude : Option ℕ → Seen → Decoded
conclude partial s =
    let garbage = bit_and s.retval verflags == 0 || not (bit_and s.retval bad_ver_flag == 0) in
    record {
      flags = if garbage then bit_or s.retval unknown_flag else s.retval;
      alert_flags = s.alert_flags;
      partial_rec_len = elim partial [
        | none ↦ none
        | some _ ↦ some (if garbage then 0 else s.psize)
      ];
    }

-- The records of `size` bytes. Each round takes 5 bytes at least, so `size` rounds are enough.
unfoldable pub records : Bytes → ℕ → ℕ → Option ℕ → Option ℕ → ℤ → Option Decoded
records pkt size pkt_flags alert_flags partial max_hb_len = do
  s ←
      record_loop size pkt_flags max_hb_len pkt size
        (record { retval = 0; psize = 0; ccs = false; alert_flags = alert_flags })
  some (conclude partial s)

-- `SSL_decode_v3`: the bytes that the last packet's record still owes are skipped first.
unfoldable pub ssl_decode_v3 : Bytes → ℕ → ℕ → Option ℕ → Option ℕ → ℤ → Option Decoded
ssl_decode_v3 pkt size pkt_flags alert_flags none max_hb_len =
    records pkt size pkt_flags alert_flags none max_hb_len
ssl_decode_v3 pkt size pkt_flags alert_flags (some owed) max_hb_len =
    if size == 0 || owed == 0
    then records pkt size pkt_flags alert_flags (some owed) max_hb_len
    else if ltb size owed
    then some (record {
      flags = truncated_flag;
      alert_flags = alert_flags;
      partial_rec_len = some (owed - size);
    })
    else records (drop owed pkt) (size - owed) pkt_flags alert_flags (some 0) max_hb_len
