-- ===== src/Email/Decoders.antt =====
-- `Base64Decode` and `QPDecode`. `start` is never NULL here, and the list is the bytes from `start`
-- to `end`.
use in_free_time.Base.{ℕ, ◌+◌, ◌-◌, ◌%◌, true, not, ◌&&◌}
use in_free_time.Base.{Bytes, length, take, ◌==◌}
use in_free_time.Base.{if◌then◌else◌, some, Ret, ok, failed}
use in_free_time.Base64.{sf_base64decode}
use in_free_time.Unfold.{sf_strip_crlf, sf_strip_lws}
use in_free_time.Quoted.{sf_qpdecode}
use in_free_time.Base.{Option, none}
use in_free_time.Email.Admit.{Outcome, outcome, memory_fault}
use in_free_time.Email.State.{EmailState, success, exceeded, fail, reset_email_decode_state}
use in_free_time.Email.Admit.{Admission, negative_depth, used_up, ready, admit, carry, write_at}
use in_free_time.Email.Admit.{
  overlay, Carried, with_memory, delivered, advance, keep_unread, read_of,
}

-- The end of `Base64Decode`, by what `sf_base64decode` returned: `ds0` is the state at the start,
-- `ds` the one with the new memory, `encoded` and `decoded` are `act_encode_size` and
-- `act_decode_size`.
unfoldable pub base64_end : Ret → ℕ → ℕ → ℕ → EmailState → EmailState → Outcome
base64_end failed encoded decoded avail ds0 ds = outcome fail (reset_email_decode_state ds)
base64_end ok encoded decoded avail ds0 ds =
    if decoded == 0 && avail == 0
    then outcome fail (reset_email_decode_state ds)
    else outcome success
        (record (delivered ds decoded) { b64_state = advance ds0.b64_state encoded decoded })

-- The same, once the decoded bytes are stored
unfoldable pub base64_decoded :
    Ret → ℕ → ℕ → ℕ → EmailState → EmailState → Bytes → Option Bytes → Outcome
base64_decoded ret encoded decoded avail ds0 ds enc none = memory_fault
base64_decoded ret encoded decoded avail ds0 ds enc (some dec) =
    base64_end ret encoded decoded avail ds0 (with_memory ds enc dec)

-- The remainder of a group of four stays for the next call.
unfoldable pub keep_rest : EmailState → ℕ → ℕ → EmailState
keep_rest ds rest from =
    if not (rest == 0)
    then record ds { prev_encoded_bytes = rest; prev_encoded_buf = some from }
    else ds

-- What follows the strip of line ends, with `act` bytes in the encode buffer
unfoldable pub base64_written : ℕ → EmailState → Carried → Bytes → ℕ → Option Bytes → Outcome
base64_written act ds c dec decode_avail none = memory_fault
base64_written act ds c dec decode_avail (some enc) =
    let whole = act - act % 4 in
    let d = sf_base64decode (take whole enc) decode_avail in
    base64_decoded d.ret whole d.bytes_written c.encode_avail ds (keep_rest c.ds (act % 4) whole)
      enc (overlay d.out dec)

-- The same, by what the strip returned: `stripped` are the bytes behind the ones carried over.
unfoldable pub base64_stripped : Ret → Bytes → EmailState → Carried → Bytes → ℕ → Outcome
base64_stripped failed stripped ds c dec decode_avail =
    outcome fail (reset_email_decode_state (with_memory c.ds c.mem dec))
base64_stripped ok stripped ds c dec decode_avail =
    base64_written (length stripped + c.prev_bytes) ds c dec decode_avail
      (write_at c.prev_bytes stripped c.mem)

-- `Base64Decode`
unfoldable pub base64_ready : Bytes → EmailState → Bytes → ℕ → Option Carried → Outcome
base64_ready start ds dec decode_avail none = memory_fault
base64_ready start ds dec decode_avail (some c) =
    let r = sf_strip_crlf (some start) true c.encode_avail in
    base64_stripped r.ret r.out ds c dec decode_avail

unfoldable pub base64_admitted : Bytes → EmailState → Admission → Outcome
base64_admitted start ds negative_depth = outcome exceeded ds
base64_admitted start ds used_up = outcome exceeded (reset_email_decode_state ds)
base64_admitted start ds (ready enc dec ea da) = base64_ready start ds dec da (carry ds enc ea)

unfoldable pub base64_decode : Bytes → EmailState → Outcome
base64_decode start ds = base64_admitted start ds (admit ds.b64_state.encode_depth ds.b64_state ds)

-- The end of `QPDecode`, by what `sf_qpdecode` returned; `act` is `act_encode_size` before the call.
unfoldable pub qp_end : Ret → ℕ → ℕ → ℕ → ℕ → EmailState → EmailState → Outcome
qp_end failed act read decoded avail ds0 ds = outcome fail (reset_email_decode_state ds)
qp_end ok act read decoded avail ds0 ds =
    if decoded == 0 && avail == 0
    then outcome fail (reset_email_decode_state ds)
    else outcome success (record (delivered (keep_unread ds read act) decoded) {
      qp_state = advance ds0.qp_state (read_of read act) decoded;
    })

unfoldable pub qp_decoded :
    Ret → ℕ → ℕ → ℕ → ℕ → EmailState → EmailState → Bytes → Option Bytes → Outcome
qp_decoded ret act read decoded avail ds0 ds enc none = memory_fault
qp_decoded ret act read decoded avail ds0 ds enc (some dec) =
    qp_end ret act read decoded avail ds0 (with_memory ds enc dec)

unfoldable pub qp_written : ℕ → EmailState → Carried → Bytes → ℕ → Option Bytes → Outcome
qp_written act ds c dec decode_avail none = memory_fault
qp_written act ds c dec decode_avail (some enc) =
    let d = sf_qpdecode true (take act enc) decode_avail in
    qp_decoded d.ret act d.state.bytes_read d.state.bytes_copied c.encode_avail ds c.ds enc
      (overlay d.state.out dec)

unfoldable pub qp_stripped : Ret → Bytes → EmailState → Carried → Bytes → ℕ → Outcome
qp_stripped failed stripped ds c dec decode_avail =
    outcome fail (reset_email_decode_state (with_memory c.ds c.mem dec))
qp_stripped ok stripped ds c dec decode_avail =
    qp_written (length stripped + c.prev_bytes) ds c dec decode_avail
      (write_at c.prev_bytes stripped c.mem)

-- `QPDecode`
unfoldable pub qp_ready : Bytes → EmailState → Bytes → ℕ → Option Carried → Outcome
qp_ready start ds dec decode_avail none = memory_fault
qp_ready start ds dec decode_avail (some c) =
    let r = sf_strip_lws (some start) true c.encode_avail in
    qp_stripped r.ret r.out ds c dec decode_avail

unfoldable pub qp_admitted : Bytes → EmailState → Admission → Outcome
qp_admitted start ds negative_depth = outcome exceeded ds
qp_admitted start ds used_up = outcome exceeded (reset_email_decode_state ds)
qp_admitted start ds (ready enc dec ea da) = qp_ready start ds dec da (carry ds enc ea)

unfoldable pub qp_decode : Bytes → EmailState → Outcome
qp_decode start ds = qp_admitted start ds (admit ds.qp_state.encode_depth ds.qp_state ds)
