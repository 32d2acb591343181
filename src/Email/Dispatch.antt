-- ===== src/Email/Dispatch.antt =====
-- `UUDecode`, `BitEncExtract` and `EmailDecode`. `start` is never NULL here, and the list is the
-- bytes from `start` to `end`.
use in_free_time.Base.{ℕ, zero, suc, ◌+◌, ◌-◌, Bool, true, false, not, ◌&&◌, ◌||◌}
use in_free_time.Base.{◌++◌, Bytes, length, take, ltb, ◌==◌, u32}
use in_free_time.Base.{if◌then◌else◌, Option, none, some, Ret, ok, failed}
use in_free_time.Base.Int.{ℤ, pos, negsuc}
use in_free_time.Uu.Begin.{UuCall, returned, read_fault, no_fuel, UuResult, sf_uudecode}
use in_free_time.Email.State.{EmailState, Code, success, exceeded, fail, reset_email_decode_state}
use in_free_time.Email.State.{DecodeType, decode_b64, decode_qp, decode_uu}
use in_free_time.Email.State.{decode_bitenc, at_start, max_buf, clear_prev_encode_buf}
use in_free_time.Email.Admit.{Admission, negative_depth, used_up, ready, admit, carry, write_at}
use in_free_time.Email.Admit.{overlay, with_memory, delivered, advance, keep_unread, read_of}
use in_free_time.Email.Admit.{depth_left, Outcome, outcome, memory_fault, Carried}
use in_free_time.Email.Decoders.{base64_decode, qp_decode}

-- `SafeMemcpy` of snort_bounds.h, as its checks: `n` bytes to the offset `dst` of a buffer that
-- ends at the offset `end`.
unfoldable pub safe_memcpy_ok : ℕ → ℕ → ℕ → Bool
safe_memcpy_ok dst n end = n == 0 || (ltb dst end && ltb (dst + (n - 1)) end)

-- The end of `UUDecode`, by what `sf_uudecode` returned: `ds0` is the state at the start, `failed_ds`
-- the one that a failure resets, and `ds` that one with the flags cleared where the end was found.
unfoldable pub uu_end : Ret → ℕ → ℕ → ℕ → ℕ → EmailState → EmailState → EmailState → Outcome
uu_end failed act read decoded avail ds0 ds failed_ds =
    outcome fail (reset_email_decode_state failed_ds)
uu_end ok act read decoded avail ds0 ds failed_ds =
    if decoded == 0 && avail == 0
    then outcome fail (reset_email_decode_state failed_ds)
    else outcome success (record (delivered (keep_unread ds read act) decoded) {
      uu_state = advance ds0.uu_state (read_of read act) decoded;
    })

-- `act` is `act_encode_size`, `avail` what is left of `encode_avail`, and the decoded bytes are
-- stored.
unfoldable pub uu_finish_call :
    ℕ → ℕ → EmailState → EmailState → Bytes → UuResult → Option Bytes → Outcome
uu_finish_call act avail ds0 ds enc r none = memory_fault
uu_finish_call act avail ds0 ds enc r (some dec) =
    let held = record (with_memory ds enc dec) {
      begin_found = r.begin_found;
      end_found = r.end_found;
    } in
    let ended =
      if r.end_found then record held { end_found = false; begin_found = false } else held in
    uu_end r.ret act r.bytes_read (length r.out) avail ds0 ended held

unfoldable pub uu_called : ℕ → ℕ → EmailState → EmailState → Bytes → Bytes → UuCall → Outcome
uu_called act avail ds0 ds enc dec (returned r) =
    uu_finish_call act avail ds0 ds enc r (overlay r.out dec)
uu_called act avail ds0 ds enc dec read_fault = memory_fault
uu_called act avail ds0 ds enc dec no_fuel = memory_fault

-- The decode buffer as `sf_uudecode` finds it when it stores the last of the bytes that it decodes
unfoldable pub before_last : Bytes → UuCall → Option Bytes
before_last dec (returned r) = overlay (take (length r.out - 1) r.out) dec
before_last dec read_fault = none
before_last dec no_fuel = none

module _ (strn_str : Bytes → ℕ → Bytes → Option ℕ) where
  -- The bytes behind the data in the encode buffer are the rest of that buffer, and then the
  -- decode buffer, which `SetEmailDecodeState` puts behind it. The decoder reads one byte behind
  -- the data at most, and that for the last byte that it stores only. Where this is the first of the
  -- decode buffer, the bytes stored before it are there already: what they are is read off a run on
  -- the buffer as it was, which differs in the last byte at most.
  unfoldable pub uu_decoded :
      ℕ → EmailState → Carried → Bool → Bytes → ℕ → Bytes → Option Bytes → Outcome
  uu_decoded act ds c wants_name dec decode_avail enc none = memory_fault
  uu_decoded act ds c wants_name dec decode_avail enc (some found) =
      uu_called act c.encode_avail ds c.ds enc dec (
        sf_uudecode strn_str true (enc ++ found) act decode_avail c.ds.begin_found c.ds.end_found
          wants_name)

  unfoldable pub uu_written : ℕ → EmailState → Carried → Bool → Bytes → ℕ → Option Bytes → Outcome
  uu_written act ds c wants_name dec decode_avail none = memory_fault
  uu_written act ds c wants_name dec decode_avail (some enc) =
      uu_decoded act ds c wants_name dec decode_avail enc (
        before_last dec (
          sf_uudecode strn_str true (enc ++ dec) act decode_avail c.ds.begin_found c.ds.end_found
            wants_name))

  unfoldable pub uu_ready : Bytes → EmailState → Bool → Bytes → ℕ → Option Carried → Outcome
  uu_ready start ds wants_name dec decode_avail none = memory_fault
  uu_ready start ds wants_name dec decode_avail (some c) =
      let n = if ltb c.encode_avail (length start) then c.encode_avail else length start in
      let copied =
        if ltb 0 c.encode_avail then write_at c.prev_bytes (take n start) c.mem else some c.mem in
      if ltb 0 c.encode_avail && not (safe_memcpy_ok c.prev_bytes n (c.encode_avail + c.prev_bytes))
      then outcome fail (reset_email_decode_state c.ds)
      else uu_written (n + c.prev_bytes) ds c wants_name dec decode_avail copied

  unfoldable pub uu_admitted : Bytes → EmailState → Bool → Admission → Outcome
  uu_admitted start ds wants_name negative_depth =
      outcome exceeded (record ds { begin_found = false })
  uu_admitted start ds wants_name used_up =
      outcome exceeded (reset_email_decode_state (record ds { begin_found = false }))
  uu_admitted start ds wants_name (ready enc dec ea da) =
      uu_ready start ds wants_name dec da (carry ds enc ea)

  unfoldable pub uu_decode_part : Bytes → EmailState → Bool → Outcome
  uu_decode_part start ds wants_name =
      uu_admitted start ds wants_name (admit ds.uu_state.encode_depth ds.uu_state ds)

-- What `BitEncExtract` may hand on, if its depth is not negative.
unfoldable pub bytes_avail : ℤ → ℕ → Option ℕ
bytes_avail (negsuc n) read = none
bytes_avail (pos zero) read = some max_buf
bytes_avail (pos (suc n)) read = some (depth_left (pos (suc n)) read)

unfoldable pub bit_enc_take : Bytes → EmailState → Option ℕ → Code × EmailState
bit_enc_take start ds none = (exceeded, ds)
bit_enc_take start ds (some avail) =
    let act = if ltb (length start) avail then length start else avail in
    if avail == 0 then (exceeded, reset_email_decode_state ds) else (
      success,
      record ds {
        decode_present = true;
        decode_ptr = at_start;
        decoded_bytes = act;
        bitenc_state = record (ds.bitenc_state) {
          bytes_read = u32 (ds.bitenc_state.bytes_read + act);
        };
      },
    )

-- `BitEncExtract`
unfoldable pub bit_enc_extract : Bytes → EmailState → Code × EmailState
bit_enc_extract start ds =
    let ds' = clear_prev_encode_buf ds in
    bit_enc_take start ds' (bytes_avail ds'.bitenc_state.depth ds'.bitenc_state.bytes_read)

abbrev pub returns : Code × EmailState → Outcome
returns (code, ds) = outcome code ds

-- `EmailDecode`
module _ (strn_str : Bytes → ℕ → Bytes → Option ℕ) where
  unfoldable pub decode_as : DecodeType → Bytes → EmailState → Bool → Outcome
  decode_as decode_b64 start ds wants_name = base64_decode start ds
  decode_as decode_qp start ds wants_name = qp_decode start ds
  decode_as decode_uu start ds wants_name = uu_decode_part strn_str start ds wants_name
  decode_as decode_bitenc start ds wants_name = returns (bit_enc_extract start ds)
  decode_as _ start ds wants_name = outcome fail ds

  unfoldable pub email_decode : Bytes → EmailState → Bool → Outcome
  email_decode start ds wants_name = decode_as ds.decode_type start ds wants_name
