-- ===== src/Email/Admit.antt =====
-- What the attachment decoders of sf_email_attach_decode.c share: the tests at their head, the
-- bytes that the call before left undecoded, and the buffers, as lists of what stands in them. A read
-- or a store outside a buffer is a fault.
use in_free_time.Base.{ℕ, zero, suc, ◌+◌, ◌-◌, ◌%◌, ◌^◌, true, ◌||◌}
use in_free_time.Base.{[], ◌∷◌, Bytes, set, get_or, ltb, ◌==◌, u32}
use in_free_time.Base.{if◌then◌else◌, Option, none, some}
use in_free_time.Base.Int.{ℤ, pos, negsuc}
use in_free_time.Base.{length, ◌&&◌}
use in_free_time.Email.State.{EmailState, Code, CodeState, at_decode_buf, max_buf}

-- An `int` as a `uint32_t`.
abbrev pub to_u32 : ℤ → ℕ
to_u32 (pos n) = n % 2 ^ 32
to_u32 (negsuc n) = (2 ^ 32 - 1) - n % 2 ^ 32

-- `depth - bytes_read` on `uint32_t`.
abbrev pub depth_left : ℤ → ℕ → ℕ
depth_left depth read = u32 (to_u32 depth + 2 ^ 32 - read % 2 ^ 32)

-- A decoder returns, or reads or stores outside its buffers.
pub data Outcome : Type 0 where
  outcome : Code → EmailState → Outcome
  memory_fault : Outcome

abbrev pub behind : ℕ → Option Bytes → Option Bytes
behind x none = none
behind x (some m) = some (x ∷ m)

-- `bs` stored over the front of a buffer, and from an offset on; `none` is a store outside it.
unfoldable pub overlay : Bytes → Bytes → Option Bytes
overlay [] m = some m
overlay (b ∷ bs) [] = none
overlay (b ∷ bs) (x ∷ m) = behind b (overlay bs m)

unfoldable pub write_at : ℕ → Bytes → Bytes → Option Bytes
unfolding overlay
write_at zero bs m = overlay bs m
write_at (suc i) bs [] = none
write_at (suc i) bs (x ∷ m) = behind x (write_at i bs m)

-- Whether a decoder may start, with its two buffers, `encode_avail` and `decode_avail`.
pub data Admission : Type 0 where
  negative_depth used_up : Admission
  ready : Bytes → Bytes → ℕ → ℕ → Admission

unfoldable pub with_buffers : ℕ → ℕ → Option Bytes → Option Bytes → Admission
with_buffers encode_avail decode_avail (some enc) (some dec) =
    if encode_avail == 0 || decode_avail == 0
    then used_up
    else ready enc dec encode_avail decode_avail
with_buffers encode_avail decode_avail none dec = used_up
with_buffers encode_avail decode_avail (some enc) none = used_up

-- The tests at the head of each decoder, by `encode_depth`.
unfoldable pub admit : ℤ → CodeState → EmailState → Admission
unfolding with_buffers
admit (negsuc n) c ds = negative_depth
admit (pos zero) c ds = with_buffers max_buf max_buf ds.encode_buf ds.decode_buf
admit (pos (suc n)) c ds =
    with_buffers (depth_left (pos (suc n)) c.encode_bytes_read)
      (depth_left c.decode_depth c.decode_bytes_read) ds.encode_buf ds.decode_buf

-- `while (prev_encoded_bytes) encode_buf[i] = prev_encoded_buf[i]`, from index `i` on; `none` is
-- a read or a store outside the buffer that both pointers are in.
unfoldable pub copy_prev : ℕ → ℕ → ℕ → Bytes → Option Bytes
copy_prev zero i prev m = some m
copy_prev (suc k) i prev m =
    let copied = copy_prev k (i + 1) prev (set m i (get_or m (prev + i) 0)) in
    if ltb (prev + i) (length m) && ltb i (length m) then copied else none

-- The state, the encode buffer, `prev_bytes` and `encode_avail` once the bytes left by the call
-- before are at the front of the buffer.
pub record Carried : Type 0 where
  pub ds : EmailState
  pub mem : Bytes
  pub prev_bytes : ℕ
  pub encode_avail : ℕ

unfoldable pub moved : EmailState → ℕ → ℕ → Option Bytes → Option Carried
moved ds k avail none = none
moved ds k avail (some m) = some (record {
  ds = record ds { prev_encoded_bytes = 0 };
  mem = m;
  prev_bytes = k;
  encode_avail = avail - k;
})

unfoldable pub carry_from : Option ℕ → EmailState → Bytes → ℕ → ℕ → Option Carried
unfolding copy_prev moved
carry_from none ds m k avail = some (record {
  ds = record ds { prev_encoded_bytes = k };
  mem = m;
  prev_bytes = 0;
  encode_avail = avail;
})
carry_from (some prev) ds m k avail = moved ds k avail (copy_prev k 0 prev m)

unfoldable pub carry : EmailState → Bytes → ℕ → Option Carried
unfolding carry_from
carry ds m avail =
    if ds.prev_encoded_bytes == 0
    then some (record { ds = ds; mem = m; prev_bytes = 0; encode_avail = avail })
    else carry_from ds.prev_encoded_buf ds m
        (if ltb avail ds.prev_encoded_bytes then avail else ds.prev_encoded_bytes) avail

abbrev pub advance : CodeState → ℕ → ℕ → CodeState
advance c encoded decoded = record c {
  encode_bytes_read = u32 (c.encode_bytes_read + encoded);
  decode_bytes_read = u32 (c.decode_bytes_read + decoded);
}

-- Both buffers as a decoder left them.
abbrev pub with_memory : EmailState → Bytes → Bytes → EmailState
with_memory ds enc dec = record ds { encode_buf = some enc; decode_buf = some dec }

abbrev pub delivered : EmailState → ℕ → EmailState
delivered ds n = record ds { decode_present = true; decode_ptr = at_decode_buf; decoded_bytes = n }

-- What is unread stays for the next call, with the count of what was read.
abbrev pub keep_unread : EmailState → ℕ → ℕ → EmailState
keep_unread ds bytes_read act =
    if ltb bytes_read act
    then record ds { prev_encoded_bytes = act - bytes_read; prev_encoded_buf = some bytes_read }
    else ds

abbrev pub read_of : ℕ → ℕ → ℕ
read_of bytes_read act = if ltb bytes_read act then bytes_read else act
