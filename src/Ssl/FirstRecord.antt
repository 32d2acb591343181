-- ===== src/Ssl/FirstRecord.antt =====
-- `SSL_decode_v2` reads every length and type through a pointer to the first record.
use in_free_time.Base.{
  ℕ, suc, ◌+◌, ◌-◌, ◌*◌, ◌%◌, ◌^◌, ◌≤◌, ◌<◌, ◌≡◌, ◌∙◌, refl, ap, false, some, Bytes, arith, ltb,
  ◌==◌, if◌then◌else◌, true, zero, Bool-cases, inl, inr,
}
use in_free_time.Base.{drop, ◌∷◌, bit_or}
use in_free_time.Ssl.{
  ntohs_at, client_keyx_flag, cur_client_keyx_flag, truncated_flag, unknown_flag, ver_sslv2_flag,
}
use in_free_time.Ssl.Version2.{flagged, v2_message, v2_next, v2_round, v2_loop, ssl_decode_v2}

-- The flags of a client key exchange
abbrev pub key_exchange_flags : ℕ
key_exchange_flags = bit_or client_keyx_flag cur_client_keyx_flag

-- The flags of records that end with so many bytes of another one.
abbrev pub with_rest : ℕ → ℕ
with_rest rest =
    if rest == 0
    then key_exchange_flags
    else if ltb rest 5
    then bit_or key_exchange_flags (bit_or truncated_flag unknown_flag)
    else bit_or key_exchange_flags truncated_flag

module _ (high low pkt_flags : ℕ) (tail : Bytes) where
  abbrev stride : ℕ
  stride = (high * 2 ^ 8 + low) % 2 ^ 15 + 2

  v2_loop-round :
      (fuel size retval : ℕ) (pkt : Bytes)
      → 5 ≤ size
      → v2_loop (suc fuel) (high ∷ low ∷ 2 ∷ tail) pkt_flags pkt size retval
        ≡ v2_next
            (v2_loop fuel (high ∷ low ∷ 2 ∷ tail) pkt_flags)
            pkt
            size
            ((high * 2 ^ 8 + low) % 2 ^ 15)
            (flagged (bit_or retval key_exchange_flags))
  unfolding v2_loop v2_round v2_message ntohs_at
  v2_loop-round fuel zero retval pkt h = absurd (omega arith)
  v2_loop-round fuel (suc size) retval pkt h =
      let whole : ltb (suc size) 5 ≡ false = ground arith in rw whole refl

  v2_loop-on :
      (fuel size retval : ℕ) (pkt : Bytes)
      → 5 ≤ size
      → stride ≤ size
      → v2_loop (suc fuel) (high ∷ low ∷ 2 ∷ tail) pkt_flags pkt size retval
        ≡ v2_loop fuel
            (high ∷ low ∷ 2 ∷ tail)
            pkt_flags
            (drop stride pkt)
            (size - stride)
            (bit_or retval key_exchange_flags)
  unfolding v2_next
  v2_loop-on fuel size retval pkt h l =
      let on : ltb size stride ≡ false = ground arith in
      rw (v2_loop-round fuel size retval pkt h) (rw on refl)

  v2_loop-cut :
      (fuel size retval : ℕ) (pkt : Bytes)
      → 5 ≤ size
      → size < stride
      → v2_loop (suc fuel) (high ∷ low ∷ 2 ∷ tail) pkt_flags pkt size retval
        ≡ some (bit_or (bit_or (bit_or retval key_exchange_flags) truncated_flag) ver_sslv2_flag)
  unfolding v2_next
  v2_loop-cut fuel size retval pkt h l =
      let cut : ltb size stride ≡ true = ground arith in
      rw (v2_loop-round fuel size retval pkt h) (rw cut refl)

  v2_loop-short :
      (fuel size retval : ℕ) (pkt : Bytes)
      → suc size < 5
      → v2_loop (suc fuel) (high ∷ low ∷ 2 ∷ tail) pkt_flags pkt (suc size) retval
        ≡ some (bit_or (bit_or retval (bit_or truncated_flag unknown_flag)) ver_sslv2_flag)
  unfolding v2_loop v2_round
  v2_loop-short fuel size retval pkt h =
      let short : ltb (suc size) 5 ≡ true = ground arith in rw short refl

  v2_loop-rest :
      (fuel rest : ℕ) (pkt : Bytes)
      → rest < stride
      → rest ≤ fuel
      → v2_loop fuel (high ∷ low ∷ 2 ∷ tail) pkt_flags pkt rest key_exchange_flags
        ≡ some (bit_or (with_rest rest) ver_sslv2_flag)
  unfolding v2_loop
  v2_loop-rest fuel zero pkt l f = refl
  v2_loop-rest zero (suc rest) pkt l f = absurd (omega arith)
  v2_loop-rest (suc fuel) (suc rest) pkt l f =
      let some_rest : (suc rest == 0) ≡ false = ground arith in
      elim (Bool-cases (ltb (suc rest) 5)) [
        | inl short ↦
            let few : suc rest < 5 = ground (arith, short) in
            rw (some_rest, short) (v2_loop-short fuel rest key_exchange_flags pkt few)
        | inr whole ↦
            let many : 5 ≤ suc rest = ground (arith, whole) in
            rw (some_rest, whole) (v2_loop-cut fuel (suc rest) key_exchange_flags pkt many l)
      ]

  v2_loop-strides :
      (n fuel rest : ℕ) (pkt : Bytes)
      → 5 ≤ stride
      → rest < stride
      → n * stride + rest ≤ fuel
      → v2_loop fuel (high ∷ low ∷ 2 ∷ tail) pkt_flags pkt (n * stride + rest) key_exchange_flags
        ≡ some (bit_or (with_rest rest) ver_sslv2_flag)
  v2_loop-strides zero fuel rest pkt h l f =
      let last : 0 * stride + rest ≡ rest = omega arith in
      rw last (v2_loop-rest fuel rest pkt l (omega (arith, f)))
  v2_loop-strides (suc n) zero rest pkt h l f = absurd (omega arith)
  v2_loop-strides (suc n) (suc fuel) rest pkt h l f =
      let fewer : suc n * stride + rest - stride ≡ n * stride + rest = omega arith in
      rw
        (v2_loop-on fuel (suc n * stride + rest) key_exchange_flags pkt (omega arith) (omega arith))
        (rw fewer (v2_loop-strides n fuel rest (drop stride pkt) h l (omega (arith, f, h))))

-- Of a packet whose first record is a client key exchange (type 2) with a length of at least 3,
-- `SSL_decode_v2` goes through all bytes in steps of that length and the two bytes before it, and
-- finds no other type and no other length in them, whatever stands there: for `suc n` steps and a
-- rest that is shorter than a step, the flags are those of a client key exchange and of SSLv2, just
-- if there is a rest also that of a truncated packet, and just if that has less than 5 bytes also
-- that of unknown data.
pub ssl_decode_v2_first_record :
    (high low pkt_flags n rest : ℕ) (tail : Bytes)
    → 3 ≤ (high * 2 ^ 8 + low) % 2 ^ 15
    → rest < (high * 2 ^ 8 + low) % 2 ^ 15 + 2
    → ssl_decode_v2
        (high ∷ low ∷ 2 ∷ tail)
        (suc n * ((high * 2 ^ 8 + low) % 2 ^ 15 + 2) + rest)
        pkt_flags
      ≡ some (bit_or (with_rest rest) ver_sslv2_flag)
unfolding ssl_decode_v2
ssl_decode_v2_first_record high low pkt_flags n rest tail h l =
    let step = (high * 2 ^ 8 + low) % 2 ^ 15 + 2 in
    let fewer : suc n * step + rest - step ≡ n * step + rest = omega arith in
    let steps : suc n * step + rest ≡ suc ((n * step + rest) + (step - 1)) = omega arith in
    let first = high ∷ low ∷ 2 ∷ tail in
    ap (λ fuel. v2_loop fuel first pkt_flags first (suc n * step + rest) 0) steps
    ∙ (v2_loop-on high low pkt_flags tail ((n * step + rest) + (step - 1)) (suc n * step + rest) 0
          first (omega arith) (omega arith)
        ∙ rw fewer (
            v2_loop-strides high low pkt_flags tail n ((n * step + rest) + (step - 1)) rest
              (drop step first) (omega (arith, h)) l (omega arith)))
