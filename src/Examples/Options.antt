-- ===== src/Examples/Options.antt =====
-- Rule options, port lists and the preprocessor's arguments, at concrete inputs.
use in_free_time.Base.{
  ℕ, ◌≡◌, refl, ap, true, false, none, some, List, [], ◌∷◌, ◌++◌, Bytes, arith, length-replicate,
}
use in_free_time.Base.Int.{pos}
use in_free_time.Base.Strings.{IsWord, joined}
use in_free_time.Base.Numerals.{strtol, Strtol, strtol-decimal_to}
use in_free_time.Ports.{no_ports, table_size, set_ports}
use in_free_time.Ports.Parse.{sfp_ports}
use in_free_time.Ports.ParseLaws.{show_ports, sfp_ports-show_ports}
use in_free_time.Rule.{RuleOptData, Literal, is_comma, literal_of, flag_of, sslpp_rule_eval}
use in_free_time.Base.{not}
use in_free_time.Base.Flags.{has}
use in_free_time.Rule.Laws.{literals, any_alone_holds}
use in_free_time.Rule.Contradictions.{rule_option-contradicts, plain_first}
use in_free_time.Rule.Options.{ssl_state, names_of, init_of, rule_option-matches}
use in_free_time.Session.{Config, SsnData}
use in_free_time.Settings.{Environment, sslpp_config, verified}
use in_free_time.Settings.Bounds.{SoundOutcome, sslpp_config-Sound}
use in_free_time.Settings.Shown.{
  noinspect_encrypted, trustservers, max_heartbeat_length, ports, shown_setting, shown_settings,
  with_settings,
}
use in_free_time.Settings.Text.{ReadsNumbers, sslpp_config-settings}

abbrev no_client_hello : Bytes
no_client_hello =
    b'!' ∷ b'c' ∷ b'l' ∷ b'i' ∷ b'e' ∷ b'n' ∷ b't' ∷ b'_' ∷ b'h' ∷ b'e' ∷ b'l' ∷ b'l' ∷ b'o' ∷ []

abbrev unknown : Bytes
unknown = b'u' ∷ b'n' ∷ b'k' ∷ b'n' ∷ b'o' ∷ b'w' ∷ b'n' ∷ []

abbrev two_literals : List Literal
two_literals =
    record { negated = true; flag = 0x100000 } ∷ record { negated = false; flag = 0x1000000 } ∷ []

two_literals-read :
    literals (names_of ssl_state) (no_client_hello ∷ unknown ∷ []) ≡ some two_literals
unfolding names_of literal_of flag_of
two_literals-read = refl

no_client_hello-IsWord : IsWord is_comma no_client_hello
no_client_hello-IsWord = record {
  bytes = (
    refl,
    (
      refl,
      (refl, (refl, (refl, (refl, (refl, (refl, (refl, (refl, (refl, (refl, (refl, tt))))))))))),
    ),
  );
  full = λ e. absurd (cc e);
}

unknown-IsWord : IsWord is_comma unknown
unknown-IsWord = record {
  bytes = (refl, (refl, (refl, (refl, (refl, (refl, (refl, tt)))))));
  full = λ e. absurd (cc e);
}

rule_option-matches_example :
    (d : RuleOptData) × (init_of ssl_state true (no_client_hello ++ joined b',' (unknown ∷ []))
      ≡ some d)
    × ((sd : SsnData)
        → sslpp_rule_eval true (some sd) d ≡ any_alone_holds sd.ssn_flags two_literals)
rule_option-matches_example =
    rule_option-matches ssl_state no_client_hello (unknown ∷ []) two_literals no_client_hello-IsWord
      (unknown-IsWord, tt) two_literals-read (refl, (refl, tt))

abbrev no_unknown : Bytes
no_unknown = b'!' ∷ unknown

abbrev both_literals : List Literal
both_literals =
    record { negated = false; flag = 0x1000000 } ∷ record { negated = true; flag = 0x1000000 } ∷ []

both_literals-read : literals (names_of ssl_state) (unknown ∷ no_unknown ∷ []) ≡ some both_literals
unfolding names_of literal_of flag_of
both_literals-read = refl

no_unknown-IsWord : IsWord is_comma no_unknown
no_unknown-IsWord = record { bytes = (refl, unknown-IsWord.bytes); full = λ e. absurd (cc e) }

rule_option-contradicts_example :
    (d : RuleOptData) × (init_of ssl_state true (unknown ++ joined b',' (no_unknown ∷ [])) ≡ some d)
    × ((sd : SsnData) → sslpp_rule_eval true (some sd) d ≡ not (has sd.ssn_flags 0x1000000))
rule_option-contradicts_example =
    rule_option-contradicts ssl_state unknown no_unknown 0x1000000 both_literals unknown-IsWord
      no_unknown-IsWord both_literals-read plain_first

sfp_ports-show_ports_example :
    sfp_ports no_ports (some (show_ports (443 ∷ 65535 ∷ [])))
    ≡ record { table = set_ports no_ports (443 ∷ 65535 ∷ []); error = none }
sfp_ports-show_ports_example =
    sfp_ports-show_ports no_ports (443 ∷ 65535 ∷ []) (omega arith, (omega arith, tt))
      λ e. absurd (cc e)

-- `SnortStrtol` as `strtol`
abbrev environment : Environment
environment = record {
  snort_strtol =
      λ s. record { value = (strtol s).value; end = (strtol s).end; erange = (strtol s).erange };
  snort_conf_dir = some (b'/' ∷ []);
  duplicates = true;
}

abbrev empty_config : Config
empty_config = record {
  ports = no_ports;
  flags = 0;
  ssl_rules_dir = none;
  pki_dir = none;
  memcap = pos 100000;
  decrypt_memcap = pos 100000;
  max_heartbeat_len = pos 0;
  enable_ssl_ha = false;
}

sslpp_config-Sound_example :
    SoundOutcome (sslpp_config environment empty_config (some (shown_setting trustservers)))
sslpp_config-Sound_example =
    sslpp_config-Sound environment empty_config (some (shown_setting trustservers))
      (record { table = length-replicate {A = ℕ} table_size 0; heartbeat = refl })

environment-ReadsNumbers : ReadsNumbers environment
unfolding ReadsNumbers
environment-ReadsNumbers n h =
    ap (λ (r : Strtol). record { value = r.value; end = r.end; erange = r.erange })
      (strtol-decimal_to 9 n (omega (arith, h)) (omega (arith, h)))

sslpp_config-settings_example :
    sslpp_config environment empty_config (
      some (
        shown_setting noinspect_encrypted
        ++ joined b',' (shown_settings (max_heartbeat_length 100 ∷ ports (443 ∷ []) ∷ []))))
    ≡ verified (
        with_settings
          (noinspect_encrypted ∷ max_heartbeat_length 100 ∷ ports (443 ∷ []) ∷ [])
          empty_config)
sslpp_config-settings_example =
    sslpp_config-settings environment noinspect_encrypted
      (max_heartbeat_length 100 ∷ ports (443 ∷ []) ∷ []) empty_config environment-ReadsNumbers tt
      (omega arith, (((omega arith, tt), λ e. absurd (cc e)), tt))
