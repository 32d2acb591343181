-- ===== src/Email/KeepsQuoted.antt =====
-- `QPDecode` stays in its buffers and keeps the invariant.
use in_free_time.Base.{ℕ, ◌+◌, ◌≤◌, refl, arith}
use in_free_time.Base.{true, some, ◌==◌, ◌&&◌}
use in_free_time.Base.{Bytes, length, take, Bool-cases, inl, inr, Ret, ok, failed}
use in_free_time.Unfold.{sf_strip_lws}
use in_free_time.Unfold.StripLws.{length-sf_strip_lws}
use in_free_time.Quoted.{sf_qpdecode}
use in_free_time.Quoted.Bounds.{sf_qpdecode_bounds}
use in_free_time.Email.State.{EmailState}
use in_free_time.Email.Admit.{negative_depth, used_up, ready, carry, Carried, overlay}
use in_free_time.Email.Admit.{advance, read_of, Admission}
use in_free_time.Email.Decoders.{qp_ready, qp_admitted, qp_decode}
use in_free_time.Base.{Option, none, ◌≡◌}
use in_free_time.Email.Decoders.{qp_decoded, qp_written}
use in_free_time.Email.Invariant.{CopyIsCarried}
use in_free_time.Email.Buffers.{Holds, overlay-Holds, write_at-Holds}
use in_free_time.Email.Invariant.{IsCode, IsEmail, IsReady, AdmissionIsReady}
use in_free_time.Email.Invariant.{IsCarried, carry-IsCarried, admit-IsReady, reset-IsEmail}
use in_free_time.Email.Updates.{with_memory-IsEmail, advance-IsCode, OutcomeKeeps, with_qp-IsEmail}
use in_free_time.Email.Updates.{keep_unread-IsEmail, read_of-le}
use in_free_time.Email.Decoders.{qp_end, qp_stripped}

qp_end-Keeps :
    (room act read decoded avail : ℕ) (r : Ret) (ds0 ds : EmailState)
    → IsEmail room ds
    → act ≤ room
    → IsCode room (advance ds0.qp_state (read_of read act) decoded)
    → OutcomeKeeps room (qp_end r act read decoded avail ds0 ds)
unfolding qp_end
qp_end-Keeps room act read decoded avail failed ds0 ds v l h = reset-IsEmail room ds v
qp_end-Keeps room act read decoded avail ok ds0 ds v l h =
    elim (Bool-cases (decoded == 0 && avail == 0)) [
      | inl nothing ↦ rw nothing (reset-IsEmail room ds v)
      | inr some_bytes ↦
          rw some_bytes
            (with_qp-IsEmail room decoded _ _ (keep_unread-IsEmail room read act ds v l) h)
    ]

qp_decoded-Keeps :
    (room act read decoded avail : ℕ) (r : Ret) (ds0 ds : EmailState) (enc : Bytes)
    (o : Option Bytes)
    → IsEmail room ds
    → length enc ≡ room
    → Holds room o
    → act ≤ room
    → IsCode room (advance ds0.qp_state (read_of read act) decoded)
    → OutcomeKeeps room (qp_decoded r act read decoded avail ds0 ds enc o)
unfolding qp_decoded
qp_decoded-Keeps room act read decoded avail r ds0 ds enc none v e d l h = d
qp_decoded-Keeps room act read decoded avail r ds0 ds enc (some dec) v e d l h =
    qp_end-Keeps room act read decoded avail r ds0 _ (with_memory-IsEmail room ds enc dec v e d) l h

qp_written-Keeps :
    (room ea da act : ℕ) (ds : EmailState) (c : Carried) (enc dec : Bytes) (o : Option Bytes)
    → IsEmail room ds
    → IsReady room ds.qp_state enc dec ea da
    → IsCarried room ds ea c
    → act ≤ ea
    → Holds room o
    → OutcomeKeeps room (qp_written act ds c dec da o)
unfolding qp_written
qp_written-Keeps room ea da act ds c enc dec none v h k l w = w
qp_written-Keeps room ea da act ds c enc dec (some new) v h k l w =
    let d = sf_qpdecode true (take act new) da in
    let bounds = (sf_qpdecode_bounds true (take act new) da).0 in
    qp_decoded-Keeps room act d.state.bytes_read d.state.bytes_copied c.encode_avail d.ret ds c.ds
      new (overlay d.state.out dec) k.state w
      (rw h.dec_size at (
        overlay-Holds d.state.out dec
          (omega (arith, bounds.counts, bounds.fits, h.dec_size, h.out_buffer))))
      (omega (arith, l, h.in_buffer))
      (advance-IsCode room (read_of d.state.bytes_read act) d.state.bytes_copied ea da ds.qp_state
        enc dec v.qp h (omega (arith, l, read_of-le d.state.bytes_read act)) bounds.fits)

qp_stripped-Keeps :
    (room ea da : ℕ) (r : Ret) (stripped : Bytes) (ds : EmailState) (c : Carried) (enc dec : Bytes)
    → IsEmail room ds
    → IsReady room ds.qp_state enc dec ea da
    → IsCarried room ds ea c
    → length stripped ≤ c.encode_avail
    → OutcomeKeeps room (qp_stripped r stripped ds c dec da)
unfolding qp_stripped
qp_stripped-Keeps room ea da failed stripped ds c enc dec v h k l =
    reset-IsEmail room _ (with_memory-IsEmail room c.ds c.mem dec k.state k.size h.dec_size)
qp_stripped-Keeps room ea da ok stripped ds c enc dec v h k l =
    qp_written-Keeps room ea da (length stripped + c.prev_bytes) ds c enc dec _ v h k
      (omega (arith, k.shares))
      (rw k.size at
        (write_at-Holds c.prev_bytes stripped c.mem (omega (arith, k.shares, k.size, h.in_buffer))))

qp_ready-Keeps :
    (room ea da : ℕ) (start : Bytes) (ds : EmailState) (enc dec : Bytes) (o : Option Carried)
    → IsEmail room ds
    → IsReady room ds.qp_state enc dec ea da
    → CopyIsCarried room ds ea o
    → OutcomeKeeps room (qp_ready start ds dec da o)
unfolding qp_ready
qp_ready-Keeps room ea da start ds enc dec none v h k = k
qp_ready-Keeps room ea da start ds enc dec (some c) v h k =
    qp_stripped-Keeps room ea da (sf_strip_lws (some start) true c.encode_avail).ret _ ds c enc dec
      v h k (length-sf_strip_lws start c.encode_avail)

qp_admitted-Keeps :
    (room : ℕ) (start : Bytes) (ds : EmailState) (a : Admission)
    → IsEmail room ds
    → AdmissionIsReady room ds.qp_state a
    → OutcomeKeeps room (qp_admitted start ds a)
unfolding qp_admitted
qp_admitted-Keeps room start ds negative_depth v r = v
qp_admitted-Keeps room start ds used_up v r = reset-IsEmail room ds v
qp_admitted-Keeps room start ds (ready enc dec ea da) v r =
    qp_ready-Keeps room ea da start ds enc dec (carry ds enc ea) v r
      (carry-IsCarried room ea ds enc v r.enc_size)

-- `QPDecode` keeps the invariant, on every path.
pub qp_decode-Keeps :
    (room : ℕ) (start : Bytes) (ds : EmailState)
    → IsEmail room ds
    → OutcomeKeeps room (qp_decode start ds)
unfolding qp_decode
qp_decode-Keeps room start ds v =
    qp_admitted-Keeps room start ds _ v
      (admit-IsReady room ds.qp_state.encode_depth ds.qp_state ds refl v.qp v.enc v.dec)
