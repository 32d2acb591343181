-- ===== src/Rule.antt =====
-- The rule options `ssl_state` and `ssl_version`: their parsers `SSLPP_state_init` and
-- `SSLPP_ver_init` of ssl_config.c, and `SSLPP_rule_eval` of ssl_inspect.c.
pub mod Laws
pub mod Options
pub mod Contradictions
use in_free_time.Base.{
  ℕ, Bool, true, false, not, ◌&&◌, ◌||◌, Option, none, some, List, [], ◌∷◌, Bytes, bit_or, bit_and,
  ◌==◌, if◌then◌else◌,
}
use in_free_time.Base.Xor.{differs}
use in_free_time.Base.Strings.{strcasecmp, tokens}
use in_free_time.Ssl.{
  ◌>>=◌, ver_sslv2_flag, ver_sslv3_flag, ver_tls10_flag, ver_tls11_flag, ver_tls12_flag,
}
use in_free_time.Ssl.{
  cur_client_hello_flag, cur_server_hello_flag, cur_client_keyx_flag, cur_server_keyx_flag,
  unknown_flag,
}
use in_free_time.Session.{SsnData}

-- `SslRuleOptData`
pub record RuleOptData : Type 0 where
  pub flags : ℕ
  pub mask : ℕ

-- The names that an option knows, in the order of the tests, with their flags.
abbrev pub Names : Type 0
Names = List (Bytes × ℕ)

abbrev pub state_names : Names
state_names =
    (
      b'c' ∷ b'l' ∷ b'i' ∷ b'e' ∷ b'n' ∷ b't' ∷ b'_' ∷ b'h' ∷ b'e' ∷ b'l' ∷ b'l' ∷ b'o' ∷ [],
      cur_client_hello_flag,
    )
    ∷ (
      b's' ∷ b'e' ∷ b'r' ∷ b'v' ∷ b'e' ∷ b'r' ∷ b'_' ∷ b'h' ∷ b'e' ∷ b'l' ∷ b'l' ∷ b'o' ∷ [],
      cur_server_hello_flag,
    )
    ∷ (
      b'c' ∷ b'l' ∷ b'i' ∷ b'e' ∷ b'n' ∷ b't' ∷ b'_' ∷ b'k' ∷ b'e' ∷ b'y' ∷ b'x' ∷ [],
      cur_client_keyx_flag,
    )
    ∷ (
      b's' ∷ b'e' ∷ b'r' ∷ b'v' ∷ b'e' ∷ b'r' ∷ b'_' ∷ b'k' ∷ b'e' ∷ b'y' ∷ b'x' ∷ [],
      cur_server_keyx_flag,
    )
    ∷ (b'u' ∷ b'n' ∷ b'k' ∷ b'n' ∷ b'o' ∷ b'w' ∷ b'n' ∷ [], unknown_flag)
    ∷ []

abbrev pub version_names : Names
version_names =
    (b's' ∷ b's' ∷ b'l' ∷ b'v' ∷ b'2' ∷ [], ver_sslv2_flag)
    ∷ (b's' ∷ b's' ∷ b'l' ∷ b'v' ∷ b'3' ∷ [], ver_sslv3_flag)
    ∷ (b't' ∷ b'l' ∷ b's' ∷ b'1' ∷ b'.' ∷ b'0' ∷ [], ver_tls10_flag)
    ∷ (b't' ∷ b'l' ∷ b's' ∷ b'1' ∷ b'.' ∷ b'1' ∷ [], ver_tls11_flag)
    ∷ (b't' ∷ b'l' ∷ b's' ∷ b'1' ∷ b'.' ∷ b'2' ∷ [], ver_tls12_flag)
    ∷ []

-- The chain of `strcasecmp`
unfoldable pub flag_of : Names → Bytes → Option ℕ
flag_of [] tok = none
flag_of ((name, flag) ∷ names) tok = if strcasecmp name tok then some flag else flag_of names tok

-- One argument: whether it is negated, and its flag; `none` is a fatal message.
pub record Literal : Type 0 where
  pub negated : Bool
  pub flag : ℕ

unfoldable pub literal_of : Names → Bytes → Option Literal
literal_of names [] = flag_of names [] >>= λ f. some (record { negated = false; flag = f })
literal_of names (c ∷ tok) =
    if c == b'!'
    then (flag_of names tok >>= λ f. some (record { negated = true; flag = f }))
    else (flag_of names (c ∷ tok) >>= λ f. some (record { negated = false; flag = f }))

-- `flags |= ...; if (negated) mask |= ...`
unfoldable pub with_literal : Literal → RuleOptData → RuleOptData
with_literal l d = record {
  flags = bit_or d.flags l.flag;
  mask = if l.negated then bit_or d.mask l.flag else d.mask;
}

-- The loop over the arguments
unfoldable pub parse_literals : Names → List Bytes → RuleOptData → Option RuleOptData
parse_literals names [] d = some d
parse_literals names (tok ∷ toks) d =
    literal_of names tok >>= λ l. parse_literals names toks (with_literal l d)

abbrev pub no_data : RuleOptData
no_data = record { flags = 0; mask = 0 }

-- An option without arguments is fatal; `allocates` is whether `calloc` gives memory.
unfoldable pub parse_option : Names → Bool → List Bytes → Option RuleOptData
parse_option names allocates [] = none
parse_option names allocates (tok ∷ toks) =
    parse_literals names (tok ∷ toks) no_data >>= λ d. if allocates then some d else none

abbrev pub is_comma : ℕ → Bool
is_comma c = c == b','

-- `SSLPP_state_init` and `SSLPP_ver_init`; `none` is where they end in a fatal message.
unfoldable pub sslpp_state_init : Bool → Bytes → Option RuleOptData
sslpp_state_init allocates params = parse_option state_names allocates (tokens is_comma params)

unfoldable pub sslpp_ver_init : Bool → Bytes → Option RuleOptData
sslpp_ver_init allocates params = parse_option version_names allocates (tokens is_comma params)

-- `SSLPP_rule_eval`; `valid` is its test of the packet and of the data.
unfoldable pub sslpp_rule_eval : Bool → Option SsnData → RuleOptData → Bool
sslpp_rule_eval false sd d = false
sslpp_rule_eval true none d = false
sslpp_rule_eval true (some sd) d = differs (bit_and d.flags sd.ssn_flags) d.mask
