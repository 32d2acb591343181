-- ===== src/Ports/Parse.antt =====
-- `SFP_ports` of sfparser.c: a port list in braces into a port table.
use in_free_time.Base.{
  ℕ, ◌⊎◌, inl, inr, Bool, true, false, not, ◌||◌, Option, none, some, List, [], ◌∷◌, Bytes, ◌==◌,
  if◌then◌else◌,
}
use in_free_time.Base.Int.{pos, ltb_ℤ, pos_part}
use in_free_time.Base.Strings.{same, tokens}
use in_free_time.Base.Numerals.{strtol}
use in_free_time.Ports.{set_port}

-- The errors, by their messages.
pub data Error : Type 0 where
  invalid_pointer no_ports_specified no_leading_brace not_last unable_to_parse out_of_range
        no_end_brace :
      Error

-- The table as it is left, and the error, if any.
pub record Parsed : Type 0 where
  pub table : Bytes
  pub error : Option Error

abbrev pub failing : Error → Bytes → Parsed
failing e table = record { table = table; error = some e }

abbrev pub is_blank : ℕ → Bool
is_blank c = c == b' '

-- `*port_end && *port_end != '}'`
abbrev pub goes_on : Bytes → Bool
goes_on [] = false
goes_on (c ∷ s) = not (c == b'}')

-- What a token that is no `}` stands for
unfoldable pub port_of : Bytes → ℕ ⊎ Error
port_of tok =
    let r = strtol tok in
    if not r.parsed || goes_on r.end || r.erange
    then inr unable_to_parse
    else if ltb_ℤ r.value (pos 0) || ltb_ℤ (pos 65535) r.value
    then inr out_of_range
    else inl (pos_part r.value)

-- The tests behind the loop
unfoldable pub finish : Bool → Bool → Bytes → Parsed
finish false port_found table = failing no_end_brace table
finish true false table = failing no_ports_specified table
finish true true table = record { table = table; error = none }

-- The loop over the tokens behind the `{`
unfoldable pub sfp_loop : Bool → Bool → Bytes → List Bytes → Parsed
sfp_loop end_brace_found port_found table [] = finish end_brace_found port_found table
sfp_loop true port_found table (tok ∷ toks) = failing not_last table
sfp_loop false port_found table (tok ∷ toks) =
    if same tok (b'}' ∷ []) then sfp_loop true port_found table toks else elim (port_of tok) [
      | inl port ↦ sfp_loop false true (set_port table port) toks
      | inr e ↦ failing e table
    ]

unfoldable pub sfp_tokens : Bytes → List Bytes → Parsed
sfp_tokens table [] = failing no_ports_specified table
sfp_tokens table (tok ∷ toks) =
    if same tok (b'{' ∷ []) then sfp_loop false false table toks else failing no_leading_brace table

-- `SFP_ports`, with a place for the message
unfoldable pub sfp_ports : Bytes → Option Bytes → Parsed
sfp_ports table none = failing invalid_pointer table
sfp_ports table (some str) = sfp_tokens table (tokens is_blank str)
