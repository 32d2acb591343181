-- ===== src/Email/State.antt =====
-- sf_email_attach_decode.h: the state of the decoders, and the functions that set and clear it.
use in_free_time.Base.{ℕ, ◌+◌, ◌-◌, ◌%◌, Bool, false, not, ◌||◌, Bytes, ◌==◌}
use in_free_time.Base.{if◌then◌else◌, Option, none, some}
use in_free_time.Base.Int.{ℤ, pos, ltb_ℤ, eqb_ℤ}

abbrev pub max_buf : ℕ
max_buf = 65535

pub data DecodeType : Type 0 where
  decode_none decode_b64 decode_qp decode_uu decode_bitenc decode_all : DecodeType

-- `DECODE_SUCCESS`, `DECODE_EXCEEDED` and `DECODE_FAIL`.
pub data Code : Type 0 where
  success exceeded fail : Code

-- The counters and depths of the base64, quoted-printable and uuencode states.
pub record CodeState : Type 0 where
  pub encode_bytes_read : ℕ
  pub decode_bytes_read : ℕ
  pub encode_depth : ℤ
  pub decode_depth : ℤ

pub record BitEncState : Type 0 where
  pub bytes_read : ℕ
  pub depth : ℤ

-- Where `decodePtr` points.
pub data Pointer : Type 0 where
  null at_decode_buf at_start : Pointer

-- `s_Email_DecodeState`. A buffer is `none` if its pointer is NULL; `prev_encoded_buf` is an offset
-- in `encodeBuf`.
pub record EmailState : Type 0 where
  pub decode_type : DecodeType
  pub decode_present : Bool
  pub prev_encoded_bytes : ℕ
  pub prev_encoded_buf : Option ℕ
  pub decoded_bytes : ℕ
  pub encode_buf : Option Bytes
  pub decode_buf : Option Bytes
  pub decode_ptr : Pointer
  pub b64_state : CodeState
  pub qp_state : CodeState
  pub uu_state : CodeState
  pub begin_found : Bool
  pub end_found : Bool
  pub bitenc_state : BitEncState

-- `getCodeDepth`
unfoldable pub get_code_depth : ℤ → ℤ → ℤ
get_code_depth code_depth file_depth =
    if ltb_ℤ file_depth (pos 0)
    then code_depth
    else if ltb_ℤ (pos max_buf) file_depth || eqb_ℤ file_depth (pos 0)
    then pos 0
    else if ltb_ℤ code_depth file_depth
    then file_depth
    else code_depth

-- `updateMaxDepth`, as the new `*max_depth`.
unfoldable pub update_max_depth : ℤ → ℤ → ℤ
update_max_depth file_depth max_depth =
    if eqb_ℤ file_depth (pos 0) || ltb_ℤ (pos max_buf) file_depth
    then pos max_buf
    else if ltb_ℤ max_depth file_depth
    then file_depth
    else max_depth

abbrev fresh : ℤ → CodeState
fresh depth = record {
  encode_bytes_read = 0;
  decode_bytes_read = 0;
  encode_depth = depth;
  decode_depth = depth;
}

-- `max_depth` rounded up to a multiple of 8; `& 7` is the remainder by 8.
unfoldable pub round_depth : ℕ → ℕ
round_depth max_depth =
    if not (max_depth % 8 == 0) then max_depth + (8 - max_depth % 8) else max_depth

-- `SetEmailDecodeState`, with the two parts into which `round_depth max_depth` splits the memory at
-- `data`.
unfoldable pub set_email_decode_state : Bytes → Bytes → ℤ → ℤ → ℤ → ℤ → ℤ → EmailState
set_email_decode_state encode_part decode_part b64_depth qp_depth uu_depth bitenc_depth file_depth =
    record {
      decode_type = decode_none;
      decode_present = false;
      prev_encoded_bytes = 0;
      prev_encoded_buf = none;
      decoded_bytes = 0;
      encode_buf = some encode_part;
      decode_buf = some decode_part;
      decode_ptr = at_decode_buf;
      b64_state = fresh (get_code_depth b64_depth file_depth);
      qp_state = fresh (get_code_depth qp_depth file_depth);
      uu_state = fresh (get_code_depth uu_depth file_depth);
      begin_found = false;
      end_found = false;
      bitenc_state = record { bytes_read = 0; depth = get_code_depth bitenc_depth file_depth };
    }

unfoldable pub clear_prev_encode_buf : EmailState → EmailState
clear_prev_encode_buf ds = record ds { prev_encoded_bytes = 0; prev_encoded_buf = none }

unfoldable pub reset_bytes_read : EmailState → EmailState
unfolding clear_prev_encode_buf
reset_bytes_read ds =
    let ds' = clear_prev_encode_buf (record ds { begin_found = false; end_found = false }) in
    record ds' {
      b64_state = record (ds'.b64_state) { encode_bytes_read = 0; decode_bytes_read = 0 };
      qp_state = record (ds'.qp_state) { encode_bytes_read = 0; decode_bytes_read = 0 };
      uu_state = record (ds'.uu_state) { encode_bytes_read = 0; decode_bytes_read = 0 };
      bitenc_state = record (ds'.bitenc_state) { bytes_read = 0 };
    }

unfoldable pub reset_decoded_bytes : EmailState → EmailState
reset_decoded_bytes ds = record ds { decode_ptr = null; decoded_bytes = 0; decode_present = false }

-- `ResetEmailDecodeState`, of a state that is not NULL.
unfoldable pub reset_email_decode_state : EmailState → EmailState
unfolding clear_prev_encode_buf reset_decoded_bytes
reset_email_decode_state ds =
    clear_prev_encode_buf
      (reset_decoded_bytes (record ds { begin_found = false; end_found = false }))

-- `ClearEmailDecodeState`, of a state that is not NULL.
unfoldable pub clear_email_decode_state : EmailState → EmailState
unfolding reset_email_decode_state
clear_email_decode_state ds = reset_email_decode_state (record ds { decode_type = decode_none })
