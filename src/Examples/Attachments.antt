-- ===== src/Examples/Attachments.antt =====
-- The attachment decoders and the header functions at concrete inputs.
use in_free_time.Base.{
  ℕ, suc, ◌+◌, ◌-◌, ◌*◌, ◌≤◌, ◌<◌, ◌≡◌, refl, Bool, true, false, Option, none, some, List, [], ◌∷◌,
  ◌++◌,
}
use in_free_time.Base.{
  Bytes, arith, length, keep, take, ltb, leb, ◌==◌, if◌then◌else◌, ok, ◌&&◌, All, IsByte,
}
use in_free_time.Base.Int.{pos, negsuc}
use in_free_time.Base64.{sf_base64decode, table_value}
use in_free_time.Base64.Skips.{is_base64, sf_base64decode-keep}
use in_free_time.Base64.Bounds.{sf_base64decode_bounds}
use in_free_time.Base64.RoundTrip.{encode64, digit64, sf_base64decode-encode64}
use in_free_time.Quoted.{sf_qpdecode, is_plain}
use in_free_time.Quoted.Bounds.{IsWithin, sf_qpdecode_bounds}
use in_free_time.Quoted.RoundTrip.{
  Piece, text, quoted, break_crlf, written, meant, sf_qpdecode-written,
}
use in_free_time.Uu.Begin.{sf_uudecode, returned}
use in_free_time.Uu.Bounds.{StaysWithin, ReturnsWithin, sf_uudecode-ReturnsWithin}
use in_free_time.Uu.Overread.{overread_byte, sf_uudecode_overread}
use in_free_time.Unfold.{sf_strip_crlf, sf_strip_lws, sf_unfold_header}
use in_free_time.Unfold.StripCrlf.{is_text, sf_strip_crlf-keep}
use in_free_time.Unfold.StripLws.{without_lws, sf_strip_lws-without_lws}
use in_free_time.Unfold.Header.{
  sf_unfold_header_trimmed, sf_unfold_header_overrun, sf_unfold_header-joined,
}
use in_free_time.Unfold.Header.{continued, joined, is_stored, is_counted}
use in_free_time.Email.State.{
  EmailState, decode_b64, set_email_decode_state, round_depth, update_max_depth,
}
use in_free_time.Email.Invariant.{IsEmail}
use in_free_time.Email.Updates.{OutcomeKeeps}
use in_free_time.Email.Dispatch.{email_decode}
use in_free_time.Email.Total.{email_decode-OutcomeKeeps, set_email_decode_state-IsEmail}
use in_free_time.Base.{◌+◌, ◌<◌}
use in_free_time.Email.Detection.{limited, limited_past_int}

abbrev man : Bytes
man = b'M' ∷ b'a' ∷ b'n' ∷ b'!' ∷ []

abbrev man64 : Bytes
man64 = b'T' ∷ b'W' ∷ b'F' ∷ b'\n' ∷ b'u' ∷ b'I' ∷ b'Q' ∷ b'=' ∷ b'=' ∷ []

man64-keep : keep is_base64 man64 ≡ encode64 man
unfolding is_base64 encode64 digit64 table_value
man64-keep = refl

sf_base64decode-encode64_example :
    let d = sf_base64decode man64 8 in
    (d.ret ≡ ok) × (d.out ≡ take 8 man) × (d.bytes_written ≡ length (take 8 man))
sf_base64decode-encode64_example =
    sf_base64decode-encode64 man man64 8
      (omega arith, (omega arith, (omega arith, (omega arith, tt)))) (omega arith) man64-keep

sf_base64decode_bounds_example :
    let d = sf_base64decode man64 2 in
    (d.bytes_written ≡ length d.out)
    × (d.bytes_written ≤ 2)
    × All IsByte d.out
    × (4 * d.bytes_written ≤ 3 * length man64)
sf_base64decode_bounds_example = sf_base64decode_bounds man64 2

sf_base64decode-keep_example : sf_base64decode man64 3 ≡ sf_base64decode (keep is_base64 man64) 3
sf_base64decode-keep_example = sf_base64decode-keep man64 3

abbrev pieces : List Piece
pieces = text b'a' ∷ break_crlf ∷ quoted 200 ∷ []

sf_qpdecode-written_example :
    let r = sf_qpdecode true (written pieces) 5 in
    (r.ret ≡ ok)
    × (r.state.out ≡ take 5 (meant pieces))
    × (length (meant pieces) < 5 → r.state.bytes_read ≡ length (written pieces))
unfolding is_plain
sf_qpdecode-written_example =
    sf_qpdecode-written pieces 5 ((refl, λ e. ground (arith, e)), (tt, (omega arith, tt)))
      (λ e. ground (arith, e)) (omega arith)

sf_qpdecode_bounds_example :
    let r = sf_qpdecode true (written pieces) 2 in
    IsWithin 2 (length (written pieces)) r.state
    × (r.ret ≡ ok → r.state.bytes_copied < 2 → length (written pieces) ≤ r.state.bytes_read + 2)
sf_qpdecode_bounds_example = sf_qpdecode_bounds true (written pieces) 2

-- A search for a word among the first `n` bytes, as `SnortStrnStr` documents it.
abbrev starts : Bytes → Bytes → Bool
starts [] m = true
starts (w ∷ word) [] = false
starts (w ∷ word) (c ∷ m) = (w == c) && starts word m

search_found : Bool → Option ℕ → Option ℕ
search_found true rest = some 0
search_found false none = none
search_found false (some i) = some (suc i)

search : Bytes → ℕ → Bytes → Option ℕ
search [] n word = none
search (c ∷ m) n word =
    search_found (leb (length word) n && starts word (c ∷ m)) (search m (n - 1) word)

search_found-within :
    (b : Bool) (o : Option ℕ) (n k i : ℕ)
    → (b ≡ true → k ≤ n)
    → ((j : ℕ) → o ≡ some j → j + k ≤ n - 1)
    → 0 < k
    → search_found b o ≡ some i
    → i + k ≤ n
unfolding search_found
search_found-within true o n k i h rest some_word e = ground (arith, h refl, e)
search_found-within false none n k i h rest some_word e = absurd (ground (arith, e))
search_found-within false (some j) n k i h rest some_word e = ground (arith, rest j refl, e)

search-StaysWithin :
    (m : Bytes) (n : ℕ) (word : Bytes) (i : ℕ)
    → 0 < length word
    → search m n word ≡ some i
    → i + length word ≤ n
unfolding search
search-StaysWithin [] n word i some_word e = absurd (ground (arith, e))
search-StaysWithin (c ∷ m) n word i some_word e =
    search_found-within (leb (length word) n && starts word (c ∷ m)) (search m (n - 1) word) n
      (length word) i (λ h. ground (arith, h))
      (λ j f. search-StaysWithin m (n - 1) word j some_word f) some_word e

-- The search, which finds no empty word.
find_word : Bytes → ℕ → Bytes → Option ℕ
find_word m n word = if ltb 0 (length word) then search m n word else none

find_word-StaysWithin : StaysWithin find_word
unfolding find_word
find_word-StaysWithin m n [] i e = absurd (ground (arith, e))
find_word-StaysWithin m n (w ∷ word) i e =
    search-StaysWithin m n (w ∷ word) i (omega arith) (ground (arith, e))

-- `begin 644 f`, one line of data, and one byte behind the data.
abbrev uu_text : Bytes
uu_text =
    b'b' ∷ b'e' ∷ b'g' ∷ b'i' ∷ b'n' ∷ b' ' ∷ b'f' ∷ b'\n' ∷ b'#' ∷ b'0' ∷ b'V' ∷ b'%' ∷ b'T'
    ∷ b'\n' ∷ b'e' ∷ b'n' ∷ b'd' ∷ 0 ∷ []

sf_uudecode-ReturnsWithin_example :
    ReturnsWithin 17 20 (sf_uudecode find_word true uu_text 17 20 false false true)
sf_uudecode-ReturnsWithin_example =
    sf_uudecode-ReturnsWithin find_word find_word-StaysWithin true uu_text 17 20 false false true
      (omega arith)

sf_uudecode_overread_example :
    sf_uudecode find_word true (b'!' ∷ b'0' ∷ b'W' ∷ []) 2 9 true false false
    ≡ returned (record {
      ret = ok;
      bytes_read = 2;
      out = overread_byte b'0' b'W' ∷ [];
      begin_found = true;
      end_found = false;
      file_name = none;
    })
sf_uudecode_overread_example = sf_uudecode_overread find_word b'0' b'W' 9 false (omega arith)

abbrev folded : Bytes
folded = b'a' ∷ b' ' ∷ b'\r' ∷ b'\n' ∷ b' ' ∷ b'b' ∷ []

sf_strip_crlf-keep_example :
    let r = sf_strip_crlf (some folded) true 3 in
    (r.ret ≡ ok) × (r.out ≡ take 3 (keep is_text folded))
sf_strip_crlf-keep_example = sf_strip_crlf-keep folded 3

sf_strip_lws-without_lws_example :
    let r = sf_strip_lws (some folded) true 6 in (r.ret ≡ ok) × (r.out ≡ without_lws folded)
sf_strip_lws-without_lws_example = sf_strip_lws-without_lws folded 6 (omega arith)

sf_unfold_header_trimmed_example :
    let h = sf_unfold_header folded 2 true in (h.output_bytes ≤ 2) × (length h.text ≤ 2)
sf_unfold_header_trimmed_example = sf_unfold_header_trimmed folded 2 (omega arith)

abbrev blanks : Bytes
blanks = b' ' ∷ b'\t' ∷ b' ' ∷ []

sf_unfold_header_overrun_example :
    let h = sf_unfold_header blanks 1 false in
    (h.text ≡ blanks ++ (0 ∷ [])) × (h.output_bytes ≡ length blanks)
sf_unfold_header_overrun_example =
    sf_unfold_header_overrun blanks 1 (refl, (refl, (refl, tt))) (omega arith)

abbrev line1 : Bytes
line1 = b'a' ∷ b' ' ∷ []

abbrev line2 : Bytes
line2 = b'b' ∷ []

sf_unfold_header-joined_example :
    let h = sf_unfold_header (line1 ++ continued (line2 ∷ []) (b'x' ∷ [])) 9 false in
    let kept = keep (is_stored false) (joined (line1 ∷ line2 ∷ [])) in
    (h.text ≡ kept ++ (0 ∷ [])) × (h.output_bytes ≡ length kept)
unfolding is_counted joined
sf_unfold_header-joined_example =
    sf_unfold_header-joined false 9 b'x' line1 (line2 ∷ []) []
      ((refl, (refl, tt)), ((refl, tt), tt)) refl (omega arith)

limited_past_int_example :
    (limited (pos 10) 7 (0x80000000 + 7) ≡ pos 7) × (limited (pos 0) 7 (0x80000000 + 7) ≡ pos 7)
limited_past_int_example = limited_past_int 9 0x80000000 7 (omega arith) (omega arith) (omega arith)

-- Depths of 6 bytes for each encoding and none for files, with two buffers of 8 bytes.
abbrev buffer : Bytes
buffer = 0 ∷ 0 ∷ 0 ∷ 0 ∷ 0 ∷ 0 ∷ 0 ∷ 0 ∷ []

abbrev fresh_state : EmailState
fresh_state = set_email_decode_state buffer buffer (pos 6) (pos 6) (pos 6) (pos 6) (negsuc 0)

set_email_decode_state-IsEmail_example : IsEmail (length buffer) fresh_state
unfolding round_depth update_max_depth
set_email_decode_state-IsEmail_example =
    set_email_decode_state-IsEmail buffer buffer 6 (pos 6) (pos 6) (pos 6) (pos 6) (negsuc 0)
      (omega arith) (omega arith, omega arith) (omega arith, omega arith) (omega arith, omega arith)
      (omega arith, omega arith) refl refl

fresh-IsEmail : IsEmail 8 fresh_state
unfolding round_depth update_max_depth
fresh-IsEmail =
    set_email_decode_state-IsEmail buffer buffer 6 (pos 6) (pos 6) (pos 6) (pos 6) (negsuc 0)
      (omega arith) (omega arith, omega arith) (omega arith, omega arith) (omega arith, omega arith)
      (omega arith, omega arith) refl refl

in_base64-IsEmail :
    (room : ℕ) (ds : EmailState)
    → IsEmail room ds
    → IsEmail room (record ds { decode_type = decode_b64 })
in_base64-IsEmail room ds v = record {
  positive = v.positive;
  b64 = v.b64;
  qp = v.qp;
  uu = v.uu;
  bitenc_small = v.bitenc_small;
  bitenc = v.bitenc;
  enc = v.enc;
  dec = v.dec;
  prev = v.prev;
}

email_decode-OutcomeKeeps_example :
    OutcomeKeeps 8
      (email_decode find_word man64 (record fresh_state { decode_type = decode_b64 }) false)
email_decode-OutcomeKeeps_example =
    email_decode-OutcomeKeeps find_word find_word-StaysWithin 8 man64
      (record fresh_state { decode_type = decode_b64 }) false
      (in_base64-IsEmail 8 fresh_state fresh-IsEmail)
