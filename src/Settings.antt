-- ===== src/Settings.antt =====
-- `SSLPP_init_config`, `SSLPP_config` and `UpdatePathToDir` of ssl_config.c: a configuration with its
-- defaults, and the text of the preprocessor's arguments read into it. `ENABLE_HA` is defined.
pub mod Bounds
pub mod Shown
pub mod Text
pub mod Blank
use in_free_time.Base.{
  ℕ, zero, suc, ◌+◌, ◌-◌, ◌≡◌, Bool, true, false, not, ◌&&◌, ◌||◌, Option, none, some, List, [],
  ◌∷◌, ◌++◌, Bytes, take, length, ltb, ◌==◌, if◌then◌else◌, bit_or,
}
use in_free_time.Base.Flags.{has}
use in_free_time.Base.Int.{to_int, ℤ, pos, negsuc, ltb_ℤ}
use in_free_time.Base.{◌%◌, ◌^◌}
use in_free_time.Base.Strings.{strcasecmp, strtok, tokens}
use in_free_time.Ports.{no_ports, set_ports, default_ports}
use in_free_time.Ports.Parse.{sfp_ports, Parsed, is_blank}
use in_free_time.Rule.{is_comma}
use in_free_time.Session.{Config, sslpp_disable_flag, sslpp_trustserver_flag}

-- `SSLPP_init_config`: what it sets; the flags, and the ports that it does not set, stay.
unfoldable pub sslpp_init_config : Config → Config
sslpp_init_config c = record {
  ports = set_ports c.ports default_ports;
  flags = c.flags;
  ssl_rules_dir = none;
  pki_dir = none;
  memcap = pos 100000;
  decrypt_memcap = pos 100000;
  max_heartbeat_len = pos 0;
  enable_ssl_ha = false;
}

-- What `SnortStrtol` of the host process gives, with `errno == ERANGE` behind it.
pub record Number : Type 0 where
  pub value : ℤ
  pub end : Bytes
  pub erange : Bool

-- What the parser uses of its host process: `SnortStrtol` in base 10, `snort_conf_dir` (`none` if
-- null), and whether `strdup` gets memory.
pub record Environment : Type 0 where
  pub snort_strtol : Bytes → Number
  pub snort_conf_dir : Option Bytes
  pub duplicates : Bool

-- `PATH_MAX`
abbrev pub path_max : ℕ
path_max = 4096

-- `snprintf` into a buffer of that size
abbrev pub fitted : ℕ → Bytes → Bytes
fitted max_size s = take (max_size - 1) s

abbrev pub ends_in_slash : Bytes → Bool
ends_in_slash [] = false
ends_in_slash (c ∷ []) = c == b'/'
ends_in_slash (c ∷ d ∷ s) = ends_in_slash (d ∷ s)

abbrev pub is_absolute : Bytes → Bool
is_absolute [] = false
is_absolute (c ∷ s) = c == b'/'

-- `UpdatePathToDir`; `none` is a fatal message.
unfoldable pub update_path_to_dir : Option Bytes → ℕ → Bytes → Option Bytes
update_path_to_dir none max_size dirname = none
update_path_to_dir (some []) max_size dirname = none
update_path_to_dir (some (c ∷ conf)) max_size dirname =
    if ltb max_size (length dirname)
    then none
    else some (
        fitted max_size (
          if is_absolute dirname
          then dirname
          else if ends_in_slash (c ∷ conf)
          then (c ∷ conf) ++ dirname
          else (c ∷ conf) ++ (b'/' ∷ dirname)))

-- The options, by name.
pub data Keyword : Type 0 where
  kw_ports kw_noinspect_encrypted kw_trustservers kw_pki_dir kw_ssl_rules_dir kw_memcap
        kw_decrypt_memcap kw_enable_ssl_ha kw_max_heartbeat_length :
      Keyword

abbrev pub keywords : List (Bytes × Keyword)
keywords =
    (b'p' ∷ b'o' ∷ b'r' ∷ b't' ∷ b's' ∷ [], kw_ports)
    ∷ (
      b'n' ∷ b'o' ∷ b'i' ∷ b'n' ∷ b's' ∷ b'p' ∷ b'e' ∷ b'c' ∷ b't' ∷ b'_' ∷ b'e' ∷ b'n' ∷ b'c'
          ∷ b'r' ∷ b'y' ∷ b'p' ∷ b't' ∷ b'e' ∷ b'd' ∷ [],
      kw_noinspect_encrypted,
    )
    ∷ (
      b't' ∷ b'r' ∷ b'u' ∷ b's' ∷ b't' ∷ b's' ∷ b'e' ∷ b'r' ∷ b'v' ∷ b'e' ∷ b'r' ∷ b's' ∷ [],
      kw_trustservers,
    )
    ∷ (b'p' ∷ b'k' ∷ b'i' ∷ b'_' ∷ b'd' ∷ b'i' ∷ b'r' ∷ [], kw_pki_dir)
    ∷ (
      b's' ∷ b's' ∷ b'l' ∷ b'_' ∷ b'r' ∷ b'u' ∷ b'l' ∷ b'e' ∷ b's' ∷ b'_' ∷ b'd' ∷ b'i' ∷ b'r' ∷ [],
      kw_ssl_rules_dir,
    )
    ∷ (b'm' ∷ b'e' ∷ b'm' ∷ b'c' ∷ b'a' ∷ b'p' ∷ [], kw_memcap)
    ∷ (
      b'd' ∷ b'e' ∷ b'c' ∷ b'r' ∷ b'y' ∷ b'p' ∷ b't' ∷ b'_' ∷ b'm' ∷ b'e' ∷ b'm' ∷ b'c' ∷ b'a'
          ∷ b'p' ∷ [],
      kw_decrypt_memcap,
    )
    ∷ (
      b'e' ∷ b'n' ∷ b'a' ∷ b'b' ∷ b'l' ∷ b'e' ∷ b'_' ∷ b's' ∷ b's' ∷ b'l' ∷ b'_' ∷ b'h' ∷ b'a' ∷ [],
      kw_enable_ssl_ha,
    )
    ∷ (
      b'm' ∷ b'a' ∷ b'x' ∷ b'_' ∷ b'h' ∷ b'e' ∷ b'a' ∷ b'r' ∷ b't' ∷ b'b' ∷ b'e' ∷ b'a' ∷ b't'
          ∷ b'_' ∷ b'l' ∷ b'e' ∷ b'n' ∷ b'g' ∷ b't' ∷ b'h' ∷ [],
      kw_max_heartbeat_length,
    )
    ∷ []

-- The chain of `strcasecmp`
unfoldable pub keyword_of : List (Bytes × Keyword) → Bytes → Option Keyword
keyword_of [] tok = none
keyword_of ((name, k) ∷ names) tok = if strcasecmp tok name then some k else keyword_of names tok

-- What an item leads to: a fatal message, an early return, or the next item.
pub data Step : Type 0 where
  fatal returns : Step
  next : Config → Step

abbrev pub is_spacing : ℕ → Bool
is_spacing c = c == b' ' || c == 9 || c == 10

-- `strtok_r(NULL, " \t\n", &portptr)`
abbrev pub argument : Bytes → Option Bytes
argument left = elim (strtok is_spacing left) [ none ↦ none | some (tok, more) ↦ some tok ]

abbrev pub stop_at_end : Bytes → Bool
stop_at_end [] = false
stop_at_end (c ∷ s) = true

-- A directory, behind its keyword
unfoldable pub directory : Environment → Option Bytes → (Bytes → Config) → Step
directory env none store = fatal
directory env (some tok) store = elim (update_path_to_dir env.snort_conf_dir path_max tok) [
  | none ↦ fatal
  | some dir ↦ if env.duplicates then next (store dir) else fatal
]

-- A number, behind its keyword; `allowed` is its test.
unfoldable pub number : Environment → Option Bytes → (ℤ → Bool) → (ℤ → Config) → Step
number env none allowed store = fatal
number env (some tok) allowed store =
    let r = env.snort_strtol tok in
    if stop_at_end r.end || r.erange
    then fatal
    else if allowed (to_int r.value)
    then next (store (to_int r.value))
    else fatal

-- A keyword without argument
unfoldable pub alone : Option Bytes → Config → Step
alone none c = next c
alone (some tok) c = fatal

unfoldable pub yes_or_no : Option Bytes → Config → Step
yes_or_no none c = fatal
yes_or_no (some tok) c =
    if strcasecmp tok (b'y' ∷ b'e' ∷ b's' ∷ [])
    then next (record c { enable_ssl_ha = true })
    else if strcasecmp tok (b'n' ∷ b'o' ∷ [])
    then next (record c { enable_ssl_ha = false })
    else fatal

unfoldable pub port_list : Bytes → Config → Step
port_list left c =
    let r = sfp_ports no_ports (some left) in
    elim r.error [ none ↦ next (record c { ports = r.table }) | some e ↦ fatal ]

-- `value < MIN_HB_LEN || value > MAX_HB_LEN`, negated
abbrev pub is_heartbeat_len : ℤ → Bool
is_heartbeat_len v = not (ltb_ℤ v (pos 0) || ltb_ℤ (pos 65535) v)

unfoldable pub with_keyword : Environment → Keyword → Bytes → Config → Step
with_keyword env kw_ports left c = port_list left c
with_keyword env kw_noinspect_encrypted left c =
    alone (argument left) (record c { flags = bit_or c.flags sslpp_disable_flag })
with_keyword env kw_trustservers left c =
    alone (argument left) (record c { flags = bit_or c.flags sslpp_trustserver_flag })
with_keyword env kw_pki_dir left c =
    directory env (argument left) (λ dir. record c { pki_dir = some dir })
with_keyword env kw_ssl_rules_dir left c =
    directory env (argument left) (λ dir. record c { ssl_rules_dir = some dir })
with_keyword env kw_memcap left c =
    number env (argument left) (λ v. true) (λ v. record c { memcap = v })
with_keyword env kw_decrypt_memcap left c =
    number env (argument left) (λ v. true) (λ v. record c { decrypt_memcap = v })
with_keyword env kw_enable_ssl_ha left c = yes_or_no (argument left) c
with_keyword env kw_max_heartbeat_length left c =
    number env (argument left) is_heartbeat_len (λ v. record c { max_heartbeat_len = v })

-- One item between commas
unfoldable pub parse_item : Environment → Bytes → Config → Step
parse_item env item c = elim (strtok is_blank item) [
  | none ↦ returns
  | some (tok, left) ↦ elim (keyword_of keywords tok) [
    | none ↦ fatal
    | some k ↦ with_keyword env k left c
  ]
]

-- How the function ends: in a fatal message, by its early return, or behind its last test.
pub data Outcome : Type 0 where
  died : Outcome
  left_early configured : Config → Outcome

-- The test behind the loop
unfoldable pub verified : Config → Outcome
verified c =
    if has c.flags sslpp_trustserver_flag && not (has c.flags sslpp_disable_flag)
    then died
    else configured c

unfoldable pub parse_items : Environment → List Bytes → Config → Outcome
parse_items env [] c = verified c
parse_items env (item ∷ items) c = elim (parse_item env item c) [
  | fatal ↦ died
  | returns ↦ left_early c
  | next c' ↦ parse_items env items c'
]

-- `SSLPP_config`, for a configuration that is there
unfoldable pub sslpp_config : Environment → Config → Option Bytes → Outcome
sslpp_config env c none = left_early c
sslpp_config env c (some conf) = parse_items env (tokens is_comma conf) c
