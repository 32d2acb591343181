-- ===== src/Email/Buffers.antt =====
-- Where reads and stores lie in the buffers, they are no faults and the buffers keep their sizes.
use in_free_time.Base.{ℕ, zero, suc, ◌+◌, ◌≤◌, ◌≡◌, refl, ap, arith, [], ◌∷◌, Bytes, length}
use in_free_time.Base.{set, length-set, get_or, Option, none, some, ltb, ◌&&◌, true}
use in_free_time.Email.Admit.{behind, overlay, write_at, copy_prev}

-- There was no fault, and the buffer has its size.
abbrev pub Holds : ℕ → Option Bytes → Type 0
Holds room none = ⊥
Holds room (some m) = length m ≡ room

behind-Holds : (room x : ℕ) (o : Option Bytes) → Holds room o → Holds (suc room) (behind x o)
behind-Holds room x none h = h
behind-Holds room x (some m) h = ap suc h

pub overlay-Holds : (bs m : Bytes) → length bs ≤ length m → Holds (length m) (overlay bs m)
unfolding overlay
overlay-Holds [] m h = refl
overlay-Holds (b ∷ bs) [] h = absurd (omega arith)
overlay-Holds (b ∷ bs) (x ∷ m) h =
    behind-Holds (length m) b (overlay bs m) (overlay-Holds bs m (omega arith))

pub write_at-Holds :
    (i : ℕ) (bs m : Bytes) → i + length bs ≤ length m → Holds (length m) (write_at i bs m)
unfolding write_at
write_at-Holds zero bs m h = overlay-Holds bs m (omega arith)
write_at-Holds (suc i) bs [] h = absurd (omega arith)
write_at-Holds (suc i) bs (x ∷ m) h =
    behind-Holds (length m) x (write_at i bs m) (write_at-Holds i bs m (omega arith))

pub copy_prev-Holds :
    (k i prev : ℕ) (m : Bytes) → prev + i + k ≤ length m → Holds (length m) (copy_prev k i prev m)
unfolding copy_prev
copy_prev-Holds zero i prev m h = refl
copy_prev-Holds (suc k) i prev m h =
    let m' = set m i (get_or m (prev + i) 0) in
    let same : length m' ≡ length m = length-set m i (get_or m (prev + i) 0) in
    let inside : (ltb (prev + i) (length m) && ltb i (length m)) ≡ true = ground arith in
    rw inside (rw same at (copy_prev-Holds k (i + 1) prev m' (omega (arith, same))))
