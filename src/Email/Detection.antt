-- ===== src/Email/Detection.antt =====
-- `limitDetection` and `getDetectionSize` of sf_email_attach_decode.h: how many of the bytes that a
-- call decoded are handed to detection, within a depth for the whole attachment. The counters are
-- words of 32 bits that are passed as `int`; a sum or a difference of two `int` values wraps around
-- in two's complement.
use in_free_time.Base.{ℕ, suc, ◌+◌, ◌^◌, ◌<◌, ◌≤◌, ◌≡◌, arith, List, [], ◌∷◌}
use in_free_time.Base.{if◌then◌else◌, u32}
use in_free_time.Base.Int.{ℤ, pos, pos_part, ◌+ℤ◌, ◌-ℤ◌, ltb_ℤ, eqb_ℤ, to_int}
use in_free_time.Email.State.{EmailState, DecodeType, decode_b64, decode_qp, decode_uu}
use in_free_time.Email.State.{decode_bitenc}

unfoldable pub limit_detection : ℤ → ℤ → ℤ → ℤ
limit_detection depth decoded_bytes decode_bytes_total =
    if eqb_ℤ depth (pos 0)
    then decoded_bytes
    else if ltb_ℤ depth (to_int (decode_bytes_total -ℤ decoded_bytes))
    then pos 0
    else if ltb_ℤ decode_bytes_total depth
    then decoded_bytes
    else to_int (to_int (depth +ℤ decoded_bytes) -ℤ decode_bytes_total)

-- A call of `limitDetection` with two counters
unfoldable pub limited : ℤ → ℕ → ℕ → ℤ
unfolding limit_detection
limited depth decoded_bytes decode_bytes_total =
    limit_detection depth (to_int (pos decoded_bytes)) (to_int (pos decode_bytes_total))

unfoldable pub detection_size : DecodeType → ℤ → ℤ → ℤ → ℤ → EmailState → ℤ
unfolding limited
detection_size decode_b64 b64 qp uu bitenc ds =
    limited b64 ds.decoded_bytes ds.b64_state.decode_bytes_read
detection_size decode_qp b64 qp uu bitenc ds =
    limited qp ds.decoded_bytes ds.qp_state.decode_bytes_read
detection_size decode_uu b64 qp uu bitenc ds =
    limited uu ds.decoded_bytes ds.uu_state.decode_bytes_read
detection_size decode_bitenc b64 qp uu bitenc ds =
    limited bitenc ds.decoded_bytes ds.bitenc_state.bytes_read
detection_size _ b64 qp uu bitenc ds = pos 0

-- `getDetectionSize`
unfoldable pub get_detection_size : ℤ → ℤ → ℤ → ℤ → EmailState → ℤ
unfolding detection_size
get_detection_size b64 qp uu bitenc ds = detection_size ds.decode_type b64 qp uu bitenc ds

-- The bytes handed on by a sequence of calls that decode so many bytes each, with the counter of the
-- bytes decoded.
pub handed_on : ℤ → ℕ → List ℕ → ℕ
unfolding limited
handed_on depth before [] = 0
handed_on depth before (now ∷ later) =
    pos_part (limited depth now (u32 (before + now))) + handed_on depth (u32 (before + now)) later

unfoldable pub total : List ℕ → ℕ
total [] = 0
total (now ∷ later) = now + total later

-- Once 2 ^ 31 bytes were decoded before a call and its counter has not wrapped around, a depth above
-- 0 and below 2 ^ 31, although it is used up, hands on every byte that the call decoded, just as
-- depth 0 does.
pub limited_past_int :
    (depth before now : ℕ)
    → suc depth < 2 ^ 31
    → 2 ^ 31 ≤ before
    → before + now < 2 ^ 32
    → (limited (pos (suc depth)) now (before + now) ≡ pos now)
      × (limited (pos 0) now (before + now) ≡ pos now)
unfolding limited limit_detection
limited_past_int depth before now small past bound = (ground arith, ground arith)
