-- ===== src/Email/Invariant.antt =====
-- The invariant of the decoders' state: counters within their depths, buffers as large as the
-- depths ask for, and what is carried over within the encode buffer.
use in_free_time.Base.{
  ℕ, zero, suc, ◌+◌, ◌^◌, ◌≤◌, ◌<◌, ◌≡◌, refl, sym, ◌∙◌, ap, arith, Bytes, length,
}
use in_free_time.Base.{Option, none, some, ltb, ◌==◌, if◌then◌else◌, Bool-cases, inl, inr}
use in_free_time.Base.Int.{ℤ, pos, negsuc, pos_part}
use in_free_time.Email.State.{EmailState, CodeState, max_buf}
use in_free_time.Email.State.{reset_email_decode_state, clear_prev_encode_buf}
use in_free_time.Email.Admit.{Admission, negative_depth, used_up, ready, with_buffers, admit, carry}
use in_free_time.Email.Admit.{carry_from, Carried, depth_left}
use in_free_time.Email.Admit.{moved, copy_prev}
use in_free_time.Email.Buffers.{Holds, copy_prev-Holds}

-- The encode buffer that a depth asks for.
abbrev pub needed : ℤ → ℕ
needed (negsuc n) = 0
needed (pos zero) = max_buf
needed (pos (suc n)) = suc n

-- Where the depth is a limit (0 is none), no more than it was read and decoded.
pub record IsCode (room : ℕ) (c : CodeState) : Type 0 where
  pub same_depth : c.decode_depth ≡ c.encode_depth
  pub small : pos_part c.encode_depth < 2 ^ 31
  pub covered : needed c.encode_depth ≤ room
  pub encoded : 0 < pos_part c.encode_depth → c.encode_bytes_read ≤ pos_part c.encode_depth
  pub decoded : 0 < pos_part c.encode_depth → c.decode_bytes_read ≤ pos_part c.encode_depth

abbrev pub HasCap : ℕ → Option Bytes → Type 0
HasCap room none = Unit {0}
HasCap room (some m) = length m ≡ room

-- The bytes left over lie in the buffer.
abbrev pub PrevIn : ℕ → Option ℕ → ℕ → Type 0
PrevIn room none k = Unit {0}
PrevIn room (some prev) k = prev + k ≤ room

pub record IsEmail (room : ℕ) (ds : EmailState) : Type 0 where
  pub positive : 0 < room
  pub b64 : IsCode room ds.b64_state
  pub qp : IsCode room ds.qp_state
  pub uu : IsCode room ds.uu_state
  pub bitenc_small : pos_part ds.bitenc_state.depth < 2 ^ 31
  pub bitenc :
      0 < pos_part ds.bitenc_state.depth
      → ds.bitenc_state.bytes_read ≤ pos_part ds.bitenc_state.depth
  pub enc : HasCap room ds.encode_buf
  pub dec : HasCap room ds.decode_buf
  pub prev : PrevIn room ds.prev_encoded_buf ds.prev_encoded_bytes

pub reset-IsEmail :
    (room : ℕ) (ds : EmailState) → IsEmail room ds → IsEmail room (reset_email_decode_state ds)
unfolding reset_email_decode_state
reset-IsEmail room ds v = record {
  positive = v.positive;
  b64 = v.b64;
  qp = v.qp;
  uu = v.uu;
  bitenc_small = v.bitenc_small;
  bitenc = v.bitenc;
  enc = v.enc;
  dec = v.dec;
  prev = tt;
}

pub clear_prev-IsEmail :
    (room : ℕ) (ds : EmailState) → IsEmail room ds → IsEmail room (clear_prev_encode_buf ds)
unfolding clear_prev_encode_buf
clear_prev-IsEmail room ds v = record {
  positive = v.positive;
  b64 = v.b64;
  qp = v.qp;
  uu = v.uu;
  bitenc_small = v.bitenc_small;
  bitenc = v.bitenc;
  enc = v.enc;
  dec = v.dec;
  prev = tt;
}

-- What an admission hands to a decoder: buffers of the right size, and room that leads the
-- counters to their depths at most.
pub record IsReady (room : ℕ) (c : CodeState) (enc dec : Bytes) (ea da : ℕ) : Type 0 where
  pub enc_size : length enc ≡ room
  pub dec_size : length dec ≡ room
  pub some_room : 0 < ea
  pub some_output : 0 < da
  pub in_buffer : ea ≤ room
  pub out_buffer : da ≤ room
  pub encode_end : 0 < pos_part c.encode_depth → c.encode_bytes_read + ea ≡ pos_part c.encode_depth
  pub decode_end : 0 < pos_part c.encode_depth → c.decode_bytes_read + da ≡ pos_part c.encode_depth

abbrev pub AdmissionIsReady : ℕ → CodeState → Admission → Type 0
AdmissionIsReady room c negative_depth = Unit {0}
AdmissionIsReady room c used_up = Unit {0}
AdmissionIsReady room c (ready enc dec ea da) = IsReady room c enc dec ea da

with_buffers-IsReady :
    (room : ℕ) (c : CodeState) (ea da : ℕ) (enc dec : Option Bytes)
    → HasCap room enc
    → HasCap room dec
    → ea ≤ room
    → da ≤ room
    → (0 < pos_part c.encode_depth → c.encode_bytes_read + ea ≡ pos_part c.encode_depth)
    → (0 < pos_part c.encode_depth → c.decode_bytes_read + da ≡ pos_part c.encode_depth)
    → AdmissionIsReady room c (with_buffers ea da enc dec)
unfolding with_buffers
with_buffers-IsReady room c ea da none dec e d r r' x y = tt
with_buffers-IsReady room c ea da (some enc) none e d r r' x y = tt
with_buffers-IsReady room c ea da (some enc) (some dec) e d r r' x y = ground arith

-- An admission is ready with what the depth leaves.
pub admit-IsReady :
    (room : ℕ) (depth : ℤ) (c : CodeState) (ds : EmailState)
    → depth ≡ c.encode_depth
    → IsCode room c
    → HasCap room ds.encode_buf
    → HasCap room ds.decode_buf
    → AdmissionIsReady room c (admit depth c ds)
unfolding admit
admit-IsReady room (negsuc n) c ds e v he hd = tt
admit-IsReady room (pos zero) c ds e v he hd =
    let zero_depth : pos_part c.encode_depth ≡ 0 = sym (ap pos_part e) in
    with_buffers-IsReady room c max_buf max_buf ds.encode_buf ds.decode_buf he hd
      (omega (arith, ap needed e, v.covered)) (omega (arith, ap needed e, v.covered))
      (λ h. absurd (omega arith)) (λ h. absurd (omega arith))
admit-IsReady room (pos (suc n)) c ds e v he hd =
    let depth : pos_part c.encode_depth ≡ suc n = sym (ap pos_part e) in
    let in_depth = v.encoded (omega arith) in
    let out_depth = v.decoded (omega arith) in
    let same : c.decode_depth ≡ pos (suc n) = v.same_depth ∙ sym e in
    let left = ap (λ (d : ℤ). depth_left d c.decode_bytes_read) same in
    with_buffers-IsReady room c (depth_left (pos (suc n)) c.encode_bytes_read)
      (depth_left c.decode_depth c.decode_bytes_read) ds.encode_buf ds.decode_buf he hd
      (omega (arith, ap needed e, v.covered, v.small))
      (omega (arith, ap needed e, v.covered, v.small, left)) (λ h. omega (arith, v.small))
      (λ h. omega (arith, v.small, left))

-- Room for the bytes that are carried over is taken from the room for new ones.
pub record IsCarried (room : ℕ) (ds : EmailState) (ea : ℕ) (c : Carried) : Type 0 where
  pub state : IsEmail room c.ds
  pub size : length c.mem ≡ room
  pub shares : c.prev_bytes + c.encode_avail ≡ ea
  pub same_b64 : c.ds.b64_state ≡ ds.b64_state
  pub same_qp : c.ds.qp_state ≡ ds.qp_state
  pub same_uu : c.ds.uu_state ≡ ds.uu_state

-- The copy was within the buffer.
abbrev pub CopyIsCarried : ℕ → EmailState → ℕ → Option Carried → Type 0
CopyIsCarried room ds ea none = ⊥
CopyIsCarried room ds ea (some c) = IsCarried room ds ea c

set_prev-IsEmail :
    (room k : ℕ) (ds : EmailState)
    → IsEmail room ds
    → k ≤ ds.prev_encoded_bytes
    → IsEmail room (record ds { prev_encoded_bytes = k })
set_prev-IsEmail room k ds v h = record {
  positive = v.positive;
  b64 = v.b64;
  qp = v.qp;
  uu = v.uu;
  bitenc_small = v.bitenc_small;
  bitenc = v.bitenc;
  enc = v.enc;
  dec = v.dec;
  prev = fewer ds.prev_encoded_buf v.prev;
}
  where
    fewer : (o : Option ℕ) → PrevIn room o ds.prev_encoded_bytes → PrevIn room o k
    fewer none p = tt
    fewer (some prev) p = omega arith

moved-IsCarried :
    (room k ea : ℕ) (ds : EmailState) (o : Option Bytes)
    → IsEmail room ds
    → k ≤ ea
    → Holds room o
    → CopyIsCarried room ds ea (moved ds k ea o)
unfolding moved
moved-IsCarried room k ea ds none v g h = h
moved-IsCarried room k ea ds (some m) v g h = record {
  state = set_prev-IsEmail room 0 ds v (omega arith);
  size = h;
  shares = omega arith;
  same_b64 = refl;
  same_qp = refl;
  same_uu = refl;
}

carry_from-IsCarried :
    (room k ea : ℕ) (o : Option ℕ) (ds : EmailState) (m : Bytes)
    → IsEmail room ds
    → PrevIn room o ds.prev_encoded_bytes
    → length m ≡ room
    → k ≤ ds.prev_encoded_bytes
    → k ≤ ea
    → CopyIsCarried room ds ea (carry_from o ds m k ea)
unfolding carry_from
carry_from-IsCarried room k ea none ds m v p e h g = record {
  state = set_prev-IsEmail room k ds v h;
  size = e;
  shares = omega arith;
  same_b64 = refl;
  same_qp = refl;
  same_uu = refl;
}
carry_from-IsCarried room k ea (some prev) ds m v p e h g =
    moved-IsCarried room k ea ds (copy_prev k 0 prev m) v g
      (rw e at (copy_prev-Holds k 0 prev m (omega (arith, e, p, h))))

pub carry-IsCarried :
    (room ea : ℕ) (ds : EmailState) (m : Bytes)
    → IsEmail room ds
    → length m ≡ room
    → CopyIsCarried room ds ea (carry ds m ea)
unfolding carry
carry-IsCarried room ea ds m v e = elim (Bool-cases (ds.prev_encoded_bytes == 0)) [
  | inl none_left ↦ rw none_left (record {
    state = v;
    size = e;
    shares = omega arith;
    same_b64 = refl;
    same_qp = refl;
    same_uu = refl;
  })
  | inr left ↦ rw left (
      carry_from-IsCarried room (if ltb ea ds.prev_encoded_bytes then ea else ds.prev_encoded_bytes)
        ea ds.prev_encoded_buf ds m v v.prev e (ground arith) (ground arith))
]
