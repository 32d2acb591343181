-- ===== src/Settings/Bounds.antt =====
-- What holds of a configuration behind `SSLPP_config`, whatever the text, and where it stops to read.
use in_free_time.Base.Int.{to_int}
use in_free_time.Base.{
  ℕ, ◌≡◌, refl, ◌∙◌, Bool, true, false, not, ◌&&◌, ◌||◌, Option, none, some, List, [], ◌∷◌, Bytes,
  length, length-replicate, if-elim, if◌then◌else◌,
}
use in_free_time.Base.Flags.{has}
use in_free_time.Base.Int.{ℤ}
use in_free_time.Base.Strings.{strtok, tokens, strcasecmp}
use in_free_time.Settings.{sslpp_init_config}
use in_free_time.Ports.{default_ports, table_size, no_ports, set_port, set_ports}
use in_free_time.Ports.Laws.{length-set_port}
use in_free_time.Ports.Parse.{sfp_ports, is_blank, Error}
use in_free_time.Ports.ParseLaws.{sfp_ports-gains}
use in_free_time.Rule.{is_comma}
use in_free_time.Session.{Config, sslpp_disable_flag, sslpp_trustserver_flag}
use in_free_time.Settings.{
  Environment, Step, fatal, returns, next, Outcome, died, left_early, configured, Keyword,
}
use in_free_time.Settings.{
  directory, number, alone, yes_or_no, port_list, with_keyword, argument, is_heartbeat_len,
  parse_item, parse_items, verified, sslpp_config, keyword_of, keywords, update_path_to_dir,
  path_max, stop_at_end,
}
use in_free_time.Settings.{
  kw_ports, kw_noinspect_encrypted, kw_trustservers, kw_pki_dir, kw_ssl_rules_dir, kw_memcap,
  kw_decrypt_memcap, kw_enable_ssl_ha, kw_max_heartbeat_length,
}

-- The port table has all its bytes, and the length of heartbeats is from 0 to 65535.
pub record IsSound (c : Config) : Type 0 where
  pub table : length c.ports ≡ table_size
  pub heartbeat : is_heartbeat_len c.max_heartbeat_len ≡ true

data SoundStep : Step → Type 0 where
  sound_fatal : SoundStep fatal
  sound_returns : SoundStep returns
  sound_next : {c : Config} → IsSound c → SoundStep (next c)

-- Of an outcome: the configuration is sound; and where the last test was reached, servers are not
-- trusted unless encrypted sessions are not inspected.
pub data SoundOutcome : Outcome → Type 0 where
  sound_died : SoundOutcome died
  sound_early : {c : Config} → IsSound c → SoundOutcome (left_early c)
  sound_configured :
      {c : Config}
      → IsSound c
      → (has c.flags sslpp_trustserver_flag && not (has c.flags sslpp_disable_flag)) ≡ false
      → SoundOutcome (configured c)

length-set_ports : (ports : Bytes) (more : List ℕ) → length (set_ports ports more) ≡ length ports
unfolding set_ports
length-set_ports ports [] = refl
length-set_ports ports (port ∷ more) =
    length-set_ports (set_port ports port) more ∙ length-set_port ports port

same_parts :
    {c d : Config}
    → c.ports ≡ d.ports
    → c.max_heartbeat_len ≡ d.max_heartbeat_len
    → IsSound c
    → IsSound d
same_parts p q s = record { table = rw p at s.table; heartbeat = rw q at s.heartbeat }

alone-Sound : (o : Option Bytes) (c : Config) → IsSound c → SoundStep (alone o c)
unfolding alone
alone-Sound none c s = sound_next s
alone-Sound (some tok) c s = sound_fatal

yes_or_no-Sound : (o : Option Bytes) (c : Config) → IsSound c → SoundStep (yes_or_no o c)
unfolding yes_or_no
yes_or_no-Sound none c s = sound_fatal
yes_or_no-Sound (some tok) c s =
    if-elim SoundStep (strcasecmp tok (b'y' ∷ b'e' ∷ b's' ∷ []))
      (λ _. sound_next (same_parts refl refl s))
      λ _.
        if-elim SoundStep (strcasecmp tok (b'n' ∷ b'o' ∷ []))
          (λ _. sound_next (same_parts refl refl s)) λ _. sound_fatal

number-Sound :
    (env : Environment) (o : Option Bytes) (allowed : ℤ → Bool) (store : ℤ → Config)
    → ((v : ℤ) → allowed v ≡ true → IsSound (store v))
    → SoundStep (number env o allowed store)
unfolding number
number-Sound env none allowed store h = sound_fatal
number-Sound env (some tok) allowed store h =
    let r = env.snort_strtol tok in
    if-elim SoundStep (stop_at_end r.end || r.erange) (λ _. sound_fatal)
      λ _.
        if-elim SoundStep (allowed (to_int r.value)) (λ a. sound_next (h (to_int r.value) a))
          λ _. sound_fatal

stored-Sound :
    (o : Option Bytes) (b : Bool) (store : Bytes → Config)
    → ((dir : Bytes) → IsSound (store dir))
    → SoundStep (elim o [ none ↦ fatal | some dir ↦ if b then next (store dir) else fatal ])
stored-Sound none b store h = sound_fatal
stored-Sound (some dir) true store h = sound_next (h dir)
stored-Sound (some dir) false store h = sound_fatal

directory-Sound :
    (env : Environment) (o : Option Bytes) (store : Bytes → Config)
    → ((dir : Bytes) → IsSound (store dir))
    → SoundStep (directory env o store)
unfolding directory
directory-Sound env none store h = sound_fatal
directory-Sound env (some tok) store h =
    stored-Sound (update_path_to_dir env.snort_conf_dir path_max tok) env.duplicates store h

port_list-Sound : (left : Bytes) (c : Config) → IsSound c → SoundStep (port_list left c)
unfolding port_list
port_list-Sound left c s =
    let (ports, all, e, full) = sfp_ports-gains no_ports (some left) in
    let r = sfp_ports no_ports (some left) in
    accepted r.error (record {
      table = rw e (length-set_ports no_ports ports ∙ length-replicate {A = ℕ} table_size 0);
      heartbeat = s.heartbeat;
    })
  where
    accepted :
        {c' : Config} (o : Option Error)
        → IsSound c'
        → SoundStep (elim o [ none ↦ next c' | some e ↦ fatal ])
    accepted none h = sound_next h
    accepted (some e) h = sound_fatal

with_keyword-Sound :
    (env : Environment) (k : Keyword) (left : Bytes) (c : Config)
    → IsSound c
    → SoundStep (with_keyword env k left c)
unfolding with_keyword
with_keyword-Sound env kw_ports left c s = port_list-Sound left c s
with_keyword-Sound env kw_noinspect_encrypted left c s =
    alone-Sound (argument left) _ (same_parts refl refl s)
with_keyword-Sound env kw_trustservers left c s =
    alone-Sound (argument left) _ (same_parts refl refl s)
with_keyword-Sound env kw_pki_dir left c s =
    directory-Sound env (argument left) _ λ dir. same_parts refl refl s
with_keyword-Sound env kw_ssl_rules_dir left c s =
    directory-Sound env (argument left) _ λ dir. same_parts refl refl s
with_keyword-Sound env kw_memcap left c s =
    number-Sound env (argument left) _ _ λ v a. same_parts refl refl s
with_keyword-Sound env kw_decrypt_memcap left c s =
    number-Sound env (argument left) _ _ λ v a. same_parts refl refl s
with_keyword-Sound env kw_enable_ssl_ha left c s = yes_or_no-Sound (argument left) c s
with_keyword-Sound env kw_max_heartbeat_length left c s =
    number-Sound env (argument left) _ _ λ v a. record { table = s.table; heartbeat = a }

parse_item-Sound :
    (env : Environment) (item : Bytes) (c : Config) → IsSound c → SoundStep (parse_item env item c)
unfolding parse_item
parse_item-Sound env item c s = read (strtok is_blank item)
  where
    known :
        (o : Option Keyword) (left : Bytes)
        → SoundStep (elim o [ none ↦ fatal | some k ↦ with_keyword env k left c ])
    known none left = sound_fatal
    known (some k) left = with_keyword-Sound env k left c s

    read :
        (o : Option (Bytes × Bytes))
        → SoundStep (elim o [
          | none ↦ returns
          | some (tok, left) ↦ elim (keyword_of keywords tok) [
            | none ↦ fatal
            | some k ↦ with_keyword env k left c
          ]
        ])
    read none = sound_returns
    read (some (tok, left)) = known (keyword_of keywords tok) left

verified-Sound : (c : Config) → IsSound c → SoundOutcome (verified c)
unfolding verified
verified-Sound c s =
    if-elim SoundOutcome
      (has c.flags sslpp_trustserver_flag && not (has c.flags sslpp_disable_flag)) (λ _. sound_died)
      λ h. sound_configured s h

parse_items-Sound :
    (env : Environment) (items : List Bytes) (c : Config)
    → IsSound c
    → SoundOutcome (parse_items env items c)
unfolding parse_items
parse_items-Sound env [] c s = verified-Sound c s
parse_items-Sound env (item ∷ items) c s =
    go (parse_item env item c) (parse_item-Sound env item c s)
      (λ c' s'. parse_items-Sound env items c' s')
  where
    go :
        (step : Step)
        → SoundStep step
        → ((c' : Config) → IsSound c' → SoundOutcome (parse_items env items c'))
        → SoundOutcome (elim step [
          | fatal ↦ died
          | returns ↦ left_early c
          | next c' ↦ parse_items env items c'
        ])
    go fatal h rest = sound_died
    go returns h rest = sound_early s
    go (next c') (sound_next s') rest = rest c' s'

-- Whatever the arguments of the preprocessor: from a configuration with a whole port table and
-- a length of heartbeats from 0 to 65535, a configuration that is not refused has such ones again;
-- and where the last test of the parser was reached, it trusts servers only if encrypted sessions
-- are not inspected.
pub sslpp_config-Sound :
    (env : Environment) (c : Config) (conf : Option Bytes)
    → IsSound c
    → SoundOutcome (sslpp_config env c conf)
unfolding sslpp_config
sslpp_config-Sound env c none s = sound_early s
sslpp_config-Sound env c (some conf) s = parse_items-Sound env (tokens is_comma conf) c s

-- The defaults go with a whole port table, as it is allocated.
sslpp_init_config-IsSound :
    (c : Config) → length c.ports ≡ table_size → IsSound (sslpp_init_config c)
unfolding sslpp_init_config
sslpp_init_config-IsSound c h = record {
  table = length-set_ports c.ports default_ports ∙ h;
  heartbeat = refl;
}
