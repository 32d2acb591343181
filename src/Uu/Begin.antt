-- ===== src/Uu/Begin.antt =====
-- The search for `begin mode name` in `sf_uudecode`, the file name, and the function as a whole.
use in_free_time.Base.{ℕ, suc, ◌+◌, ◌-◌, Bool, true, false, not, ◌||◌, [], ◌∷◌, Bytes, length, take}
use in_free_time.Base.{drop, ltb, leb, ◌==◌, if◌then◌else◌, Option, none, some, Ret, ok, failed}
use in_free_time.Uu.{Uu, UuEnd, done, bad_read, out_of_fuel, uu_loop}

abbrev pub uu_fuel : ℕ → ℕ
uu_fuel slen = slen

-- `memchr`: the offset of the first byte that is `c`.
unfoldable pub find_byte : ℕ → Bytes → Option ℕ
find_byte c [] = none
find_byte c (b ∷ m) =
    if b == c then some 0 else elim (find_byte c m) [ some i ↦ some (suc i) | none ↦ none ]

abbrev pub max_unicode_file_name : ℕ
max_unicode_file_name = 1024

-- The name in `begin mode name`, from the line that starts at `sod`; empty if there is none.
unfoldable pub name_in : Bytes → Bytes
name_in line = elim (find_byte b' ' line) [
  | none ↦ []
  | some i ↦
      let mode = drop (i + 1) line in
      elim (find_byte b' ' mode) [
        | none ↦ []
        | some j ↦
            let name = drop (j + 1) mode in
            if leb (length name) max_unicode_file_name then name else []
      ]
]

unfoldable pub uu_file_name : Bytes → Bytes
uu_file_name text = elim (find_byte b'\r' text) [
  | some i ↦ name_in (take i text)
  | none ↦ elim (find_byte b'\n' text) [ some i ↦ name_in (take i text) | none ↦ [] ]
]

-- What `sf_uudecode` leaves in the caller's variables; `file_name` is `none` where it was not
-- touched, and else what was copied, with `*fname_len` its length.
pub record UuResult : Type 0 where
  pub ret : Ret
  pub bytes_read : ℕ
  pub out : Bytes
  pub begin_found : Bool
  pub end_found : Bool
  pub file_name : Option Bytes

pub data UuCall : Type 0 where
  returned : UuResult → UuCall
  read_fault no_fuel : UuCall

-- The assignments behind the loop.
abbrev pub uu_finish : ℕ → Option Bytes → UuEnd → UuCall
uu_finish slen name (done s) = returned (record {
  ret = ok;
  bytes_read = if s.end_found then slen else slen - s.left;
  out = s.out;
  begin_found = true;
  end_found = s.end_found;
  file_name = name;
})
uu_finish slen name bad_read = read_fault
uu_finish slen name out_of_fuel = no_fuel

-- The loop from `ptr`, an offset, on.
abbrev pub uu_at : Bytes → ℕ → ℕ → Bool → Uu
uu_at m slen ptr end_found = record {
  ahead = drop ptr m;
  left = slen - ptr;
  out = [];
  sol = true;
  end_found = end_found;
}

unfoldable pub uu_body : Bytes → ℕ → ℕ → ℕ → Bool → Option Bytes → UuCall
uu_body m slen dlen ptr end_found name =
    uu_finish slen name (uu_loop (uu_fuel slen) dlen (uu_at m slen ptr end_found))

-- A return before the loop. Where `*bytes_read` is not set it is the caller's 0.
abbrev pub uu_early : Ret → ℕ → Bool → Bool → Option Bytes → UuCall
uu_early ret bytes_read begin_found end_found name = returned (record {
  ret = ret;
  bytes_read = bytes_read;
  out = [];
  begin_found = begin_found;
  end_found = end_found;
  file_name = name;
})

abbrev pub begin_word : Bytes
begin_word = b'b' ∷ b'e' ∷ b'g' ∷ b'i' ∷ b'n' ∷ []

-- `strn_str` is `_dpd.SnortStrnStr`, which the engine provides: the offset of the first place in
-- so many bytes where a word stands.
module _ (strn_str : Bytes → ℕ → Bytes → Option ℕ) where
  -- From the end of the line of the word, if it was found; `sod` is where the word is.
  unfoldable pub uu_past_line : Bytes → ℕ → ℕ → Bool → Option Bytes → ℕ → Option ℕ → UuCall
  uu_past_line m slen dlen end_found name sod none = uu_early ok slen true end_found name
  uu_past_line m slen dlen end_found name sod (some i) =
      uu_body m slen dlen (sod + i) end_found name

  -- From the word at the start, if it was found.
  unfoldable pub uu_past_begin : Bytes → ℕ → ℕ → Bool → Bool → Option ℕ → UuCall
  uu_past_begin m slen dlen end_found wants_name none = uu_early failed 0 false end_found none
  uu_past_begin m slen dlen end_found wants_name (some sod) =
      let text = take (slen - sod) (drop sod m) in
      let name = if wants_name then some (uu_file_name text) else none in
      uu_past_line m slen dlen end_found name sod (strn_str (drop sod m) (slen - sod) (b'\n' ∷ []))

  -- `pointers`: none of the tested pointers is NULL. `wants_name`: the file name is not known yet,
  -- and there is a place to put it.
  unfoldable pub sf_uudecode : Bool → Bytes → ℕ → ℕ → Bool → Bool → Bool → UuCall
  sf_uudecode pointers m slen dlen begin_found end_found wants_name =
      if not pointers || slen == 0 || dlen == 0
      then uu_early failed 0 begin_found end_found none
      else if begin_found
      then uu_body m slen dlen 0 end_found none
      else if ltb slen 5
      then uu_early ok 0 false end_found none
      else uu_past_begin m slen dlen end_found wants_name (strn_str m 5 begin_word)
