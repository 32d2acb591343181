-- ===== src/Email/KeepsBase64.antt =====
-- `Base64Decode` stays in its buffers and keeps the invariant.
use in_free_time.Base.{ℕ, ◌+◌, ◌-◌, ◌%◌, ◌≤◌, refl, ap, arith}
use in_free_time.Base.{true, not, some, ◌==◌, ◌&&◌}
use in_free_time.Base.{
  Bytes, length, length-take, take, keep, Bool-cases, inl, inr, Ret, ok, failed,
}
use in_free_time.Base64.{sf_base64decode}
use in_free_time.Base64.Bounds.{sf_base64decode_bounds}
use in_free_time.Unfold.{sf_strip_crlf}
use in_free_time.Unfold.StripCrlf.{sf_strip_crlf-keep, is_text}
use in_free_time.Email.State.{EmailState}
use in_free_time.Email.Admit.{negative_depth, used_up, ready, carry, Carried, overlay}
use in_free_time.Email.Admit.{advance, Admission}
use in_free_time.Email.Decoders.{
  base64_ready, base64_end, keep_rest, base64_stripped, base64_admitted, base64_decode,
}
use in_free_time.Base.{Option, none, ◌≡◌}
use in_free_time.Email.Decoders.{base64_decoded, base64_written}
use in_free_time.Email.Invariant.{CopyIsCarried}
use in_free_time.Email.Buffers.{Holds, overlay-Holds, write_at-Holds}
use in_free_time.Email.Invariant.{IsCode, IsEmail, IsReady, AdmissionIsReady}
use in_free_time.Email.Invariant.{IsCarried, carry-IsCarried, admit-IsReady, reset-IsEmail}
use in_free_time.Email.Updates.{
  with_memory-IsEmail, with_prev-IsEmail, advance-IsCode, OutcomeKeeps, with_b64-IsEmail,
}

length-sf_strip_crlf :
    (inbuf : Bytes) (size : ℕ) → length (sf_strip_crlf (some inbuf) true size).out ≤ size
length-sf_strip_crlf inbuf size =
    omega
      (arith, ap length (sf_strip_crlf-keep inbuf size).1, length-take size (keep is_text inbuf))

base64_end-Keeps :
    (room encoded decoded avail : ℕ) (r : Ret) (ds0 ds : EmailState)
    → IsEmail room ds
    → IsCode room (advance ds0.b64_state encoded decoded)
    → OutcomeKeeps room (base64_end r encoded decoded avail ds0 ds)
unfolding base64_end
base64_end-Keeps room encoded decoded avail failed ds0 ds v h = reset-IsEmail room ds v
base64_end-Keeps room encoded decoded avail ok ds0 ds v h =
    elim (Bool-cases (decoded == 0 && avail == 0)) [
      | inl nothing ↦ rw nothing (reset-IsEmail room ds v)
      | inr some_bytes ↦ rw some_bytes (with_b64-IsEmail room decoded _ ds v h)
    ]

keep_rest-IsEmail :
    (room rest from : ℕ) (ds : EmailState)
    → IsEmail room ds
    → from + rest ≤ room
    → IsEmail room (keep_rest ds rest from)
unfolding keep_rest
keep_rest-IsEmail room rest from ds v h = elim (Bool-cases (not (rest == 0))) [
  | inl left ↦ rw left (with_prev-IsEmail room from rest ds v h)
  | inr none_left ↦ rw none_left v
]

base64_decoded-Keeps :
    (room encoded decoded avail : ℕ) (r : Ret) (ds0 ds : EmailState) (enc : Bytes)
    (o : Option Bytes)
    → IsEmail room ds
    → length enc ≡ room
    → Holds room o
    → IsCode room (advance ds0.b64_state encoded decoded)
    → OutcomeKeeps room (base64_decoded r encoded decoded avail ds0 ds enc o)
unfolding base64_decoded
base64_decoded-Keeps room encoded decoded avail r ds0 ds enc none v e d h = d
base64_decoded-Keeps room encoded decoded avail r ds0 ds enc (some dec) v e d h =
    base64_end-Keeps room encoded decoded avail r ds0 _ (with_memory-IsEmail room ds enc dec v e d)
      h

base64_written-Keeps :
    (room ea da act : ℕ) (ds : EmailState) (c : Carried) (enc dec : Bytes) (o : Option Bytes)
    → IsEmail room ds
    → IsReady room ds.b64_state enc dec ea da
    → IsCarried room ds ea c
    → act ≤ ea
    → Holds room o
    → OutcomeKeeps room (base64_written act ds c dec da o)
unfolding base64_written
base64_written-Keeps room ea da act ds c enc dec none v h k l w = w
base64_written-Keeps room ea da act ds c enc dec (some new) v h k l w =
    let whole = act - act % 4 in
    let d = sf_base64decode (take whole new) da in
    let bounds = sf_base64decode_bounds (take whole new) da in
    base64_decoded-Keeps room whole d.bytes_written c.encode_avail d.ret ds _ new
      (overlay d.out dec)
      (keep_rest-IsEmail room (act % 4) whole c.ds k.state (omega (arith, l, h.in_buffer))) w
      (rw h.dec_size at
        (overlay-Holds d.out dec (omega (arith, bounds.0, bounds.1, h.dec_size, h.out_buffer))))
      (advance-IsCode room whole d.bytes_written ea da ds.b64_state enc dec v.b64 h
        (omega (arith, l)) bounds.1)

base64_stripped-Keeps :
    (room ea da : ℕ) (r : Ret) (stripped : Bytes) (ds : EmailState) (c : Carried) (enc dec : Bytes)
    → IsEmail room ds
    → IsReady room ds.b64_state enc dec ea da
    → IsCarried room ds ea c
    → length stripped ≤ c.encode_avail
    → OutcomeKeeps room (base64_stripped r stripped ds c dec da)
unfolding base64_stripped
base64_stripped-Keeps room ea da failed stripped ds c enc dec v h k l =
    reset-IsEmail room _ (with_memory-IsEmail room c.ds c.mem dec k.state k.size h.dec_size)
base64_stripped-Keeps room ea da ok stripped ds c enc dec v h k l =
    base64_written-Keeps room ea da (length stripped + c.prev_bytes) ds c enc dec _ v h k
      (omega (arith, k.shares))
      (rw k.size at
        (write_at-Holds c.prev_bytes stripped c.mem (omega (arith, k.shares, k.size, h.in_buffer))))

base64_ready-Keeps :
    (room ea da : ℕ) (start : Bytes) (ds : EmailState) (enc dec : Bytes) (o : Option Carried)
    → IsEmail room ds
    → IsReady room ds.b64_state enc dec ea da
    → CopyIsCarried room ds ea o
    → OutcomeKeeps room (base64_ready start ds dec da o)
unfolding base64_ready
base64_ready-Keeps room ea da start ds enc dec none v h k = k
base64_ready-Keeps room ea da start ds enc dec (some c) v h k =
    base64_stripped-Keeps room ea da (sf_strip_crlf (some start) true c.encode_avail).ret _ ds c enc
      dec v h k (length-sf_strip_crlf start c.encode_avail)

base64_admitted-Keeps :
    (room : ℕ) (start : Bytes) (ds : EmailState) (a : Admission)
    → IsEmail room ds
    → AdmissionIsReady room ds.b64_state a
    → OutcomeKeeps room (base64_admitted start ds a)
unfolding base64_admitted
base64_admitted-Keeps room start ds negative_depth v r = v
base64_admitted-Keeps room start ds used_up v r = reset-IsEmail room ds v
base64_admitted-Keeps room start ds (ready enc dec ea da) v r =
    base64_ready-Keeps room ea da start ds enc dec (carry ds enc ea) v r
      (carry-IsCarried room ea ds enc v r.enc_size)

-- `Base64Decode` keeps the invariant, on every path.
pub base64_decode-Keeps :
    (room : ℕ) (start : Bytes) (ds : EmailState)
    → IsEmail room ds
    → OutcomeKeeps room (base64_decode start ds)
unfolding base64_decode
base64_decode-Keeps room start ds v =
    base64_admitted-Keeps room start ds _ v
      (admit-IsReady room ds.b64_state.encode_depth ds.b64_state ds refl v.b64 v.enc v.dec)
