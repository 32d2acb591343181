-- ===== src/Email/Total.antt =====
-- The decoders together: `EmailDecode` keeps the invariant, from the state that
-- `SetEmailDecodeState` makes on.
use in_free_time.Base.{ℕ, zero, suc, ◌+◌, ◌^◌, ◌≤◌, ◌<◌, ◌≡◌, refl, ap, arith}
use in_free_time.Base.{Bool, true, Option, none, some, ltb, ◌==◌, if◌then◌else◌}
use in_free_time.Base.{Bytes, length, Bool-cases, inl, inr, u32}
use in_free_time.Base.Int.{ℤ, pos, negsuc, pos_part}
use in_free_time.Email.State.{EmailState, Code}
use in_free_time.Email.Invariant.{IsCode, IsEmail}
use in_free_time.Email.Invariant.{reset-IsEmail}
use in_free_time.Email.Updates.{Keeps}
use in_free_time.Uu.Bounds.{StaysWithin}
use in_free_time.Email.State.{
  BitEncState, DecodeType, decode_none, decode_b64, decode_qp, decode_uu,
}
use in_free_time.Email.State.{decode_bitenc, decode_all, at_start, clear_prev_encode_buf}
use in_free_time.Email.State.{get_code_depth, set_email_decode_state, update_max_depth, round_depth}
use in_free_time.Email.Dispatch.{
  bytes_avail, bit_enc_take, bit_enc_extract, decode_as, email_decode,
}
use in_free_time.Email.Dispatch.{returns}
use in_free_time.Email.Invariant.{clear_prev-IsEmail, needed}
use in_free_time.Email.KeepsBase64.{base64_decode-Keeps}
use in_free_time.Email.KeepsQuoted.{qp_decode-Keeps}
use in_free_time.Email.Updates.{OutcomeKeeps}
use in_free_time.Email.KeepsUu.{uu_decode_part-OutcomeKeeps}

with_bitenc-IsEmail :
    (room n : ℕ) (b : BitEncState) (ds : EmailState)
    → IsEmail room ds
    → b.depth ≡ ds.bitenc_state.depth
    → (0 < pos_part b.depth → b.bytes_read ≤ pos_part b.depth)
    → IsEmail room (record ds {
      decode_present = true;
      decode_ptr = at_start;
      decoded_bytes = n;
      bitenc_state = b;
    })
with_bitenc-IsEmail room n b ds v e h = record {
  positive = v.positive;
  b64 = v.b64;
  qp = v.qp;
  uu = v.uu;
  bitenc_small = omega (arith, ap pos_part e, v.bitenc_small);
  bitenc = h;
  enc = v.enc;
  dec = v.dec;
  prev = v.prev;
}

-- What is left leads the counter to its depth at most.
abbrev AvailLeads : ℤ → ℕ → Option ℕ → Type 0
AvailLeads depth read none = Unit {0}
AvailLeads depth read (some avail) = 0 < pos_part depth → read + avail ≡ pos_part depth

bytes_avail-AvailLeads :
    (depth : ℤ) (read : ℕ)
    → pos_part depth < 2 ^ 31
    → (0 < pos_part depth → read ≤ pos_part depth)
    → AvailLeads depth read (bytes_avail depth read)
unfolding bytes_avail
bytes_avail-AvailLeads (negsuc n) read s h = tt
bytes_avail-AvailLeads (pos zero) read s h = λ p. absurd (omega arith)
bytes_avail-AvailLeads (pos (suc n)) read s h = λ p. omega (arith, h p)

bit_enc_take-Keeps :
    (room : ℕ) (start : Bytes) (ds : EmailState) (o : Option ℕ)
    → IsEmail room ds
    → AvailLeads ds.bitenc_state.depth ds.bitenc_state.bytes_read o
    → Keeps room (bit_enc_take start ds o)
unfolding bit_enc_take
bit_enc_take-Keeps room start ds none v l = v
bit_enc_take-Keeps room start ds (some avail) v l = elim (Bool-cases (avail == 0)) [
  | inl nothing ↦ rw nothing (reset-IsEmail room ds v)
  | inr some_room ↦
      let act = if ltb (length start) avail then length start else avail in
      let act_fits : act ≤ avail = ground arith in
      rw some_room (
        with_bitenc-IsEmail room act
          (record (ds.bitenc_state) { bytes_read = u32 (ds.bitenc_state.bytes_read + act) }) ds v
          refl (λ p. omega (arith, l p, v.bitenc_small)))
]

-- `BitEncExtract` keeps the invariant.
bit_enc_extract-Keeps :
    (room : ℕ) (start : Bytes) (ds : EmailState)
    → IsEmail room ds
    → Keeps room (bit_enc_extract start ds)
unfolding bit_enc_extract
bit_enc_extract-Keeps room start ds v =
    let w = clear_prev-IsEmail room ds v in
    bit_enc_take-Keeps room start (clear_prev_encode_buf ds) _ w
      (bytes_avail-AvailLeads _ _ w.bitenc_small w.bitenc)

returns-OutcomeKeeps :
    (room : ℕ) (r : Code × EmailState) → Keeps room r → OutcomeKeeps room (returns r)
returns-OutcomeKeeps room (code, ds) v = v

module _ (strn_str : Bytes → ℕ → Bytes → Option ℕ) (within : StaysWithin strn_str) where
  decode_as-OutcomeKeeps :
      (room : ℕ) (t : DecodeType) (start : Bytes) (ds : EmailState) (wants_name : Bool)
      → IsEmail room ds
      → OutcomeKeeps room (decode_as strn_str t start ds wants_name)
  unfolding decode_as
  decode_as-OutcomeKeeps room decode_b64 start ds wants_name v = base64_decode-Keeps room start ds v
  decode_as-OutcomeKeeps room decode_qp start ds wants_name v = qp_decode-Keeps room start ds v
  decode_as-OutcomeKeeps room decode_uu start ds wants_name v =
      uu_decode_part-OutcomeKeeps strn_str within room start ds wants_name v
  decode_as-OutcomeKeeps room decode_bitenc start ds wants_name v =
      returns-OutcomeKeeps room (bit_enc_extract start ds) (bit_enc_extract-Keeps room start ds v)
  decode_as-OutcomeKeeps room decode_none start ds wants_name v = v
  decode_as-OutcomeKeeps room decode_all start ds wants_name v = v

  -- If `SnortStrnStr` finds words within what it searches: from a state whose counters are within
  -- their depths, with buffers as large as the depths ask for and the bytes left over within the
  -- encode buffer, `EmailDecode` returns for every input and decode type, stores nothing outside the
  -- encode and the decode buffer and reads nothing behind the memory of both, and the new state has
  -- all of this again.
  pub email_decode-OutcomeKeeps :
      (room : ℕ) (start : Bytes) (ds : EmailState) (wants_name : Bool)
      → IsEmail room ds
      → OutcomeKeeps room (email_decode strn_str start ds wants_name)
  unfolding email_decode
  email_decode-OutcomeKeeps room start ds wants_name v =
      decode_as-OutcomeKeeps room ds.decode_type start ds wants_name v

needed-get_code_depth :
    (max0 : ℕ) (depth file_depth : ℤ)
    → needed depth ≤ max0
    → needed (get_code_depth depth file_depth) ≤ pos_part (update_max_depth file_depth (pos max0))
unfolding get_code_depth update_max_depth
needed-get_code_depth max0 (pos zero) (pos f) h = ground arith
needed-get_code_depth max0 (pos (suc d)) (pos zero) h = ground arith
needed-get_code_depth max0 (pos (suc d)) (pos (suc f)) h = ground arith
needed-get_code_depth max0 (negsuc d) (pos zero) h = ground arith
needed-get_code_depth max0 (negsuc d) (pos (suc f)) h = ground arith
needed-get_code_depth max0 depth (negsuc f) h = ground arith

get_code_depth_small :
    (depth file_depth : ℤ)
    → pos_part depth < 2 ^ 31
    → pos_part (get_code_depth depth file_depth) < 2 ^ 31
unfolding get_code_depth
get_code_depth_small depth file_depth h = ground arith

round_depth-le : (n : ℕ) → n ≤ round_depth n
unfolding round_depth
round_depth-le n = ground arith

-- A configured depth that the buffers allow for.
abbrev pub IsAllowed : ℕ → ℤ → Type 0
IsAllowed max0 depth = (pos_part depth < 2 ^ 31) × (needed depth ≤ max0)

fresh-IsCode :
    (max0 size : ℕ) (depth file_depth : ℤ)
    → IsAllowed max0 depth
    → pos_part (update_max_depth file_depth (pos max0)) ≤ size
    → IsCode size (record {
      encode_bytes_read = 0;
      decode_bytes_read = 0;
      encode_depth = get_code_depth depth file_depth;
      decode_depth = get_code_depth depth file_depth;
    })
fresh-IsCode max0 size depth file_depth a h = record {
  same_depth = refl;
  small = get_code_depth_small depth file_depth a.0;
  covered = omega (arith, needed-get_code_depth max0 depth file_depth a.1, h);
  encoded = λ p. omega arith;
  decoded = λ p. omega arith;
}

-- `SetEmailDecodeState` makes a state with counters within their depths and buffers as large as
-- these ask for, if each half of its memory has the bytes of `updateMaxDepth`'s depth, rounded up to a multiple of 8, and that was called on a depth (not 0) that
-- allows for each configured depth.
pub set_email_decode_state-IsEmail :
    (enc dec : Bytes) (max0 : ℕ) (b64 qp uu bitenc file_depth : ℤ)
    → 0 < max0
    → IsAllowed max0 b64
    → IsAllowed max0 qp
    → IsAllowed max0 uu
    → IsAllowed max0 bitenc
    → length enc ≡ round_depth (pos_part (update_max_depth file_depth (pos max0)))
    → length dec ≡ length enc
    → IsEmail (length enc) (set_email_decode_state enc dec b64 qp uu bitenc file_depth)
unfolding set_email_decode_state
set_email_decode_state-IsEmail enc dec max0 b64 qp uu bitenc file_depth p ab aq au an he hd =
    let max = pos_part (update_max_depth file_depth (pos max0)) in
    let large : max ≤ length enc = omega (arith, he, round_depth-le max) in
    record {
      positive = omega (arith, large, update_max_depth_pos file_depth max0 p);
      b64 = fresh-IsCode max0 (length enc) b64 file_depth ab large;
      qp = fresh-IsCode max0 (length enc) qp file_depth aq large;
      uu = fresh-IsCode max0 (length enc) uu file_depth au large;
      bitenc_small = get_code_depth_small bitenc file_depth an.0;
      bitenc = λ h. omega arith;
      enc = refl;
      dec = hd;
      prev = tt;
    }
  where
    update_max_depth_pos : (f : ℤ) (m : ℕ) → 0 < m → 0 < pos_part (update_max_depth f (pos m))
    update_max_depth_pos f m h = unfold update_max_depth in ground arith
