-- ===== src/Email/KeepsUu.antt =====
-- `UUDecode` stays in its buffers and keeps the invariant.
use in_free_time.Base.{◌-◌}
use in_free_time.Email.Dispatch.{uu_decoded, before_last}
use in_free_time.Base.{ℕ, ◌+◌, ◌≤◌, ◌≡◌, refl, arith}
use in_free_time.Base.{Bool, true, false, not, Option, ltb, ◌==◌, if◌then◌else◌, ◌&&◌}
use in_free_time.Base.{Bytes, length, take, Bool-cases, inl, inr, Ret, ok, failed}
use in_free_time.Email.State.{EmailState}
use in_free_time.Email.Admit.{negative_depth, used_up, ready, carry, write_at, overlay}
use in_free_time.Email.Admit.{advance, read_of, Admission}
use in_free_time.Base.{none, some}
use in_free_time.Email.Admit.{Carried}
use in_free_time.Email.Dispatch.{uu_written}
use in_free_time.Email.Updates.{OutcomeKeeps}
use in_free_time.Email.Invariant.{IsCarried, CopyIsCarried}
use in_free_time.Email.Buffers.{Holds, overlay-Holds, write_at-Holds}
use in_free_time.Email.Invariant.{IsCode, IsEmail, IsReady, AdmissionIsReady}
use in_free_time.Email.Invariant.{carry-IsCarried, admit-IsReady, reset-IsEmail}
use in_free_time.Email.Updates.{with_memory-IsEmail, advance-IsCode}
use in_free_time.Email.Updates.{keep_unread-IsEmail, read_of-le}
use in_free_time.Base.{◌++◌, length-append, length-take}
use in_free_time.Uu.Begin.{UuCall, UuResult}
use in_free_time.Uu.Bounds.{ReturnsWithin, StaysWithin, sf_uudecode-ReturnsWithin}
use in_free_time.Email.Updates.{with_uu-IsEmail}
use in_free_time.Email.Dispatch.{safe_memcpy_ok, uu_finish_call, uu_end}
use in_free_time.Email.Dispatch.{uu_called, uu_ready, uu_admitted, uu_decode_part}

set_found-IsEmail :
    (room : ℕ) (b e : Bool) (ds : EmailState)
    → IsEmail room ds
    → IsEmail room (record ds { begin_found = b; end_found = e })
set_found-IsEmail room b e ds v = record {
  positive = v.positive;
  b64 = v.b64;
  qp = v.qp;
  uu = v.uu;
  bitenc_small = v.bitenc_small;
  bitenc = v.bitenc;
  enc = v.enc;
  dec = v.dec;
  prev = v.prev;
}

uu_end-OutcomeKeeps :
    (room act read decoded avail : ℕ) (r : Ret) (ds0 ds failed_ds : EmailState)
    → IsEmail room ds
    → IsEmail room failed_ds
    → act ≤ room
    → IsCode room (advance ds0.uu_state (read_of read act) decoded)
    → OutcomeKeeps room (uu_end r act read decoded avail ds0 ds failed_ds)
unfolding uu_end
uu_end-OutcomeKeeps room act read decoded avail failed ds0 ds failed_ds v w l h =
    reset-IsEmail room failed_ds w
uu_end-OutcomeKeeps room act read decoded avail ok ds0 ds failed_ds v w l h =
    elim (Bool-cases (decoded == 0 && avail == 0)) [
      | inl nothing ↦ rw nothing (reset-IsEmail room failed_ds w)
      | inr some_bytes ↦
          rw some_bytes
            (with_uu-IsEmail room decoded _ _ (keep_unread-IsEmail room read act ds v l) h)
    ]

uu_finish_call-OutcomeKeeps :
    (room act avail ea da : ℕ) (ds0 ds : EmailState) (enc0 dec0 enc : Bytes) (r : UuResult)
    (o : Option Bytes)
    → IsEmail room ds0
    → IsEmail room ds
    → IsReady room ds0.uu_state enc0 dec0 ea da
    → length enc ≡ room
    → Holds room o
    → act ≤ ea
    → length r.out ≤ da
    → OutcomeKeeps room (uu_finish_call act avail ds0 ds enc r o)
unfolding uu_finish_call
uu_finish_call-OutcomeKeeps room act avail ea da ds0 ds enc0 dec0 enc r none v0 v h le ld la lr = ld
uu_finish_call-OutcomeKeeps room act avail ea da ds0 ds enc0 dec0 enc r (some dec) v0 v h le ld la
      lr =
    let base = with_memory-IsEmail room ds enc dec v le ld in
    let held = set_found-IsEmail room r.begin_found r.end_found _ base in
    uu_end-OutcomeKeeps room act r.bytes_read (length r.out) avail r.ret ds0 _ _
      (by_end r.end_found held) held (omega (arith, h.in_buffer))
      (advance-IsCode room (read_of r.bytes_read act) (length r.out) ea da ds0.uu_state enc0 dec0
        v0.uu h (omega (arith, read_of-le r.bytes_read act)) lr)
  where
    by_end :
        (e : Bool) {t : EmailState}
        → IsEmail room t
        → IsEmail room (if e then record t { end_found = false; begin_found = false } else t)
    by_end true w = set_found-IsEmail room false false _ w
    by_end false w = w

-- The copy into the encode buffer passes the checks of `SafeMemcpy`.
copy_ok :
    (prev n avail : ℕ)
    → n ≤ avail
    → (ltb 0 avail && not (safe_memcpy_ok prev n (avail + prev))) ≡ false
unfolding safe_memcpy_ok
copy_ok prev n avail h = ground arith

copied-Holds :
    (b : Bool) (prev : ℕ) (bs m : Bytes)
    → prev + length bs ≤ length m
    → Holds (length m) (if b then write_at prev bs m else some m)
copied-Holds true prev bs m h = write_at-Holds prev bs m h
copied-Holds false prev bs m h = refl

module _ (strn_str : Bytes → ℕ → Bytes → Option ℕ) (within : StaysWithin strn_str) where
  uu_called-OutcomeKeeps :
      (room act avail ea da : ℕ) (ds0 ds : EmailState) (enc0 dec0 enc dec : Bytes) (call : UuCall)
      → IsEmail room ds0
      → IsEmail room ds
      → IsReady room ds0.uu_state enc0 dec0 ea da
      → length enc ≡ room
      → length dec ≡ room
      → act ≤ ea
      → ReturnsWithin act da call
      → OutcomeKeeps room (uu_called act avail ds0 ds enc dec call)
  uu_called-OutcomeKeeps room act avail ea da ds0 ds enc0 dec0 enc dec call v0 v h le ld la w =
      rw w.returns (
        unfold uu_called in
        uu_finish_call-OutcomeKeeps room act avail ea da ds0 ds enc0 dec0 enc w.result
          (overlay w.result.out dec) v0 v h le
          (rw ld at (overlay-Holds w.result.out dec (omega (arith, w.stored, ld, h.out_buffer)))) la
          w.stored)

  uu_decoded-OutcomeKeeps :
      (room ea da act : ℕ) (ds : EmailState) (c : Carried) (wants_name : Bool) (enc dec new : Bytes)
      (o : Option Bytes)
      → IsEmail room ds
      → IsReady room ds.uu_state enc dec ea da
      → IsCarried room ds ea c
      → act ≤ ea
      → length new ≡ room
      → Holds room o
      → OutcomeKeeps room (uu_decoded strn_str act ds c wants_name dec da new o)
  unfolding uu_decoded
  uu_decoded-OutcomeKeeps room ea da act ds c wants_name enc dec new none v h k l w s = s
  uu_decoded-OutcomeKeeps room ea da act ds c wants_name enc dec new (some found) v h k l w s =
      uu_called-OutcomeKeeps room act c.encode_avail ea da ds c.ds enc dec new dec _ v k.state h w
        h.dec_size l
        (sf_uudecode-ReturnsWithin strn_str within true (new ++ found) act da c.ds.begin_found
          c.ds.end_found wants_name
          (omega (arith, length-append new found, w, s, h.in_buffer, v.positive, l)))

  before_last-Holds :
      (act da : ℕ) (dec : Bytes) (call : UuCall)
      → da ≤ length dec
      → ReturnsWithin act da call
      → Holds (length dec) (before_last dec call)
  before_last-Holds act da dec call h w =
      let out = w.result.out in
      rw w.returns (
        unfold before_last in
        overlay-Holds (take (length out - 1) out) dec
          (omega (arith, w.stored, h, length-take (length out - 1) out)))

  uu_written-OutcomeKeeps :
      (room ea da act : ℕ) (ds : EmailState) (c : Carried) (wants_name : Bool) (enc dec : Bytes)
      (o : Option Bytes)
      → IsEmail room ds
      → IsReady room ds.uu_state enc dec ea da
      → IsCarried room ds ea c
      → act ≤ ea
      → Holds room o
      → OutcomeKeeps room (uu_written strn_str act ds c wants_name dec da o)
  unfolding uu_written
  uu_written-OutcomeKeeps room ea da act ds c wants_name enc dec none v h k l w = w
  uu_written-OutcomeKeeps room ea da act ds c wants_name enc dec (some new) v h k l w =
      uu_decoded-OutcomeKeeps room ea da act ds c wants_name enc dec new _ v h k l w (
        rw h.dec_size at (
          before_last-Holds act da dec _ (omega (arith, h.dec_size, h.out_buffer)) (
            sf_uudecode-ReturnsWithin strn_str within true (new ++ dec) act da c.ds.begin_found
              c.ds.end_found wants_name
              (omega (arith, length-append new dec, w, h.dec_size, h.in_buffer, v.positive, l)))))

  uu_ready-OutcomeKeeps :
      (room ea da : ℕ) (start : Bytes) (ds : EmailState) (wants_name : Bool) (enc dec : Bytes)
      (o : Option Carried)
      → IsEmail room ds
      → IsReady room ds.uu_state enc dec ea da
      → CopyIsCarried room ds ea o
      → OutcomeKeeps room (uu_ready strn_str start ds wants_name dec da o)
  unfolding uu_ready
  uu_ready-OutcomeKeeps room ea da start ds wants_name enc dec none v h k = k
  uu_ready-OutcomeKeeps room ea da start ds wants_name enc dec (some c) v h k =
      let n = if ltb c.encode_avail (length start) then c.encode_avail else length start in
      let n_fits : n ≤ c.encode_avail = ground arith in
      let in_room : c.prev_bytes + length (take n start) ≤ length c.mem =
        omega (arith, length-take n start, n_fits, k.shares, k.size, h.in_buffer) in
      rw (copy_ok c.prev_bytes n c.encode_avail n_fits) (
        uu_written-OutcomeKeeps room ea da (n + c.prev_bytes) ds c wants_name enc dec _ v h k
          (omega (arith, k.shares, n_fits))
          (rw k.size at
            (copied-Holds (ltb 0 c.encode_avail) c.prev_bytes (take n start) c.mem in_room)))

  uu_admitted-OutcomeKeeps :
      (room : ℕ) (start : Bytes) (ds : EmailState) (wants_name : Bool) (a : Admission)
      → IsEmail room ds
      → AdmissionIsReady room ds.uu_state a
      → OutcomeKeeps room (uu_admitted strn_str start ds wants_name a)
  unfolding uu_admitted
  uu_admitted-OutcomeKeeps room start ds wants_name negative_depth v r =
      set_found-IsEmail room false ds.end_found ds v
  uu_admitted-OutcomeKeeps room start ds wants_name used_up v r =
      reset-IsEmail room _ (set_found-IsEmail room false ds.end_found ds v)
  uu_admitted-OutcomeKeeps room start ds wants_name (ready enc dec ea da) v r =
      uu_ready-OutcomeKeeps room ea da start ds wants_name enc dec (carry ds enc ea) v r
        (carry-IsCarried room ea ds enc v r.enc_size)

  -- `UUDecode` returns on every path, and keeps the invariant.
  pub uu_decode_part-OutcomeKeeps :
      (room : ℕ) (start : Bytes) (ds : EmailState) (wants_name : Bool)
      → IsEmail room ds
      → OutcomeKeeps room (uu_decode_part strn_str start ds wants_name)
  unfolding uu_decode_part
  uu_decode_part-OutcomeKeeps room start ds wants_name v =
      uu_admitted-OutcomeKeeps room start ds wants_name _ v
        (admit-IsReady room ds.uu_state.encode_depth ds.uu_state ds refl v.uu v.enc v.dec)
