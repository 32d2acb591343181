-- ===== src/Ha/Files.antt =====
-- `Read` and `Write` of ssl_ha.c: loops over the system's calls until all bytes are through.
use in_free_time.Base.{
  ℕ, ◌-◌, ◌<◌, ◌≡◌, refl, Bool, true, false, List, [], ◌∷◌, ◌++◌, Bytes, length, take, ltb, ◌==◌,
  if◌then◌else◌, arith,
}

-- What one `write` does: that many bytes are taken, at most as many as were offered; or it fails,
-- with `EINTR` or otherwise.
pub data Call : Type 0 where
  wrote : ℕ → Call
  interrupted failing : Call

-- What the loop ends in: 0 or -1, with what stands in the file.
pub data Written : Type 0 where
  complete broken : Bytes → Written
  waiting : Bytes → Written

-- `Write`, over the calls that the system answers in this way; `written` is what is in the file, and
-- `waiting` stands for a loop that needs more calls. A call of 0 bytes asks `errno` as a failure
-- does, which is 0 unless an earlier call was interrupted (`eintr`).
unfoldable pub write_loop : Bool → List Call → Bytes → ℕ → Bytes → Written
write_loop eintr [] buf count written = waiting written
write_loop eintr (wrote n ∷ calls) buf count written =
    if ltb count n
    then broken written
    else if n == count
    then complete (written ++ take n buf)
    else if n == 0
    then (if eintr then write_loop eintr calls buf count written else broken written)
    else write_loop eintr calls buf (count - n) (written ++ take n buf)
write_loop eintr (interrupted ∷ calls) buf count written = write_loop true calls buf count written
write_loop eintr (failing ∷ calls) buf count written = broken written

unfoldable pub write_all : List Call → Bytes → Written
write_all calls buf = write_loop false calls buf (length buf) []

-- One call that takes all is enough. After one that takes a part, the next begins with the first byte
-- again, not with the first that is missing: the file is then complete for the loop, and holds the
-- beginning of the message twice.
write_all-partial :
    (buf : Bytes) (n : ℕ)
    → 0 < n
    → n < length buf
    → (write_all (wrote (length buf) ∷ []) buf ≡ complete (take (length buf) buf))
      × (write_all (wrote n ∷ wrote (length buf - n) ∷ []) buf
          ≡ complete (take n buf ++ take (length buf - n) buf))
unfolding write_all write_loop
write_all-partial buf n some_bytes not_all =
    let len = length buf in
    let fits : ltb len len ≡ false = ground arith in
    let all : (len == len) ≡ true = ground arith in
    let fits' : ltb len n ≡ false = ground (arith, not_all) in
    let part : (n == len) ≡ false = ground (arith, not_all) in
    let full : (n == 0) ≡ false = ground (arith, some_bytes) in
    let fits'' : ltb (len - n) (len - n) ≡ false = ground arith in
    let rest : (len - n == len - n) ≡ true = ground arith in
    (rw fits (rw all refl), rw fits' (rw part (rw full (rw fits'' (rw rest refl)))))
