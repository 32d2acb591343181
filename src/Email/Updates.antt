-- ===== src/Email/Updates.antt =====
-- Changes of the state that keep the invariant.
use in_free_time.Base.{ℕ, ◌+◌, ◌-◌, ◌≤◌, ◌≡◌, arith}
use in_free_time.Base.{some, ltb}
use in_free_time.Base.{Bytes, length, Bool-cases, inl, inr}
use in_free_time.Email.State.{EmailState, CodeState, Code}
use in_free_time.Email.Admit.{Outcome, outcome, memory_fault}
use in_free_time.Email.Admit.{with_memory, delivered, advance, keep_unread, read_of}
use in_free_time.Email.Invariant.{IsCode, IsEmail, IsReady}

-- A state of the same depths with new memory, and with new bytes carried over.
pub with_memory-IsEmail :
    (room : ℕ) (ds : EmailState) (enc dec : Bytes)
    → IsEmail room ds
    → length enc ≡ room
    → length dec ≡ room
    → IsEmail room (with_memory ds enc dec)
with_memory-IsEmail room ds enc dec v e d = record {
  positive = v.positive;
  b64 = v.b64;
  qp = v.qp;
  uu = v.uu;
  bitenc_small = v.bitenc_small;
  bitenc = v.bitenc;
  enc = e;
  dec = d;
  prev = v.prev;
}

pub with_prev-IsEmail :
    (room prev k : ℕ) (ds : EmailState)
    → IsEmail room ds
    → prev + k ≤ room
    → IsEmail room (record ds { prev_encoded_bytes = k; prev_encoded_buf = some prev })
with_prev-IsEmail room prev k ds v h = record {
  positive = v.positive;
  b64 = v.b64;
  qp = v.qp;
  uu = v.uu;
  bitenc_small = v.bitenc_small;
  bitenc = v.bitenc;
  enc = v.enc;
  dec = v.dec;
  prev = h;
}

-- What a decoder adds to the counters stays within their depths.
pub advance-IsCode :
    (room encoded decoded ea da : ℕ) (c : CodeState) (enc dec : Bytes)
    → IsCode room c
    → IsReady room c enc dec ea da
    → encoded ≤ ea
    → decoded ≤ da
    → IsCode room (advance c encoded decoded)
advance-IsCode room encoded decoded ea da c enc dec v r he hd = record {
  same_depth = v.same_depth;
  small = v.small;
  covered = v.covered;
  encoded = λ h. omega (arith, v.small, r.encode_end h);
  decoded = λ h. omega (arith, v.small, r.decode_end h);
}

-- The decoder returns, in a state that keeps the invariant.
abbrev pub OutcomeKeeps : ℕ → Outcome → Type 0
OutcomeKeeps room (outcome code ds) = IsEmail room ds
OutcomeKeeps room memory_fault = ⊥

abbrev pub Keeps : ℕ → Code × EmailState → Type 0
Keeps room (code, ds) = IsEmail room ds

pub with_b64-IsEmail :
    (room n : ℕ) (c : CodeState) (ds : EmailState)
    → IsEmail room ds
    → IsCode room c
    → IsEmail room (record (delivered ds n) { b64_state = c })
with_b64-IsEmail room n c ds v h = record {
  positive = v.positive;
  b64 = h;
  qp = v.qp;
  uu = v.uu;
  bitenc_small = v.bitenc_small;
  bitenc = v.bitenc;
  enc = v.enc;
  dec = v.dec;
  prev = v.prev;
}

pub with_qp-IsEmail :
    (room n : ℕ) (c : CodeState) (ds : EmailState)
    → IsEmail room ds
    → IsCode room c
    → IsEmail room (record (delivered ds n) { qp_state = c })
with_qp-IsEmail room n c ds v h = record {
  positive = v.positive;
  b64 = v.b64;
  qp = h;
  uu = v.uu;
  bitenc_small = v.bitenc_small;
  bitenc = v.bitenc;
  enc = v.enc;
  dec = v.dec;
  prev = v.prev;
}

pub with_uu-IsEmail :
    (room n : ℕ) (c : CodeState) (ds : EmailState)
    → IsEmail room ds
    → IsCode room c
    → IsEmail room (record (delivered ds n) { uu_state = c })
with_uu-IsEmail room n c ds v h = record {
  positive = v.positive;
  b64 = v.b64;
  qp = v.qp;
  uu = h;
  bitenc_small = v.bitenc_small;
  bitenc = v.bitenc;
  enc = v.enc;
  dec = v.dec;
  prev = v.prev;
}

-- What is unread stays in the buffer.
pub keep_unread-IsEmail :
    (room read act : ℕ) (ds : EmailState)
    → IsEmail room ds
    → act ≤ room
    → IsEmail room (keep_unread ds read act)
keep_unread-IsEmail room read act ds v h = elim (Bool-cases (ltb read act)) [
  | inl left ↦ rw left (with_prev-IsEmail room read (act - read) ds v (ground arith))
  | inr none_left ↦ rw none_left v
]

pub read_of-le : (read act : ℕ) → read_of read act ≤ act
read_of-le read act = ground arith
