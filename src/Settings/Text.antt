-- ===== src/Settings/Text.antt =====
-- What `SSLPP_config` makes of printed options.
use in_free_time.Base.Int.{to_int}
use in_free_time.Base.{
  ℕ, ◌<◌, ◌^◌, ◌≡◌, ◌≢◌, refl, sym, ap, ◌∙◌, Bool, true, false, none, some, List, [], ◌∷◌, ◌++◌,
  Bytes, All, arith,
}
use mathlib.Core.List.{append-nil, append_assoc}
use in_free_time.Base.{ltb, ◌%◌, true}
use in_free_time.Base.Int.{ℤ, pos}
use in_free_time.Base.Strings.{strtok_from, joined, tokens-joined}
use in_free_time.Base.Numerals.{
  decimal_to, decimal_to-digits, starts-decimal_to, starts_with_digit, is_digit,
}
use in_free_time.Ports.{no_ports, set_ports, max_ports}
use in_free_time.Ports.Parse.{Parsed}
use in_free_time.Ports.ParseLaws.{show_ports, sfp_ports-show_ports}
use in_free_time.Rule.{is_comma}
use in_free_time.Session.{Config}
use in_free_time.Settings.{Environment, fatal, next, verified}
use in_free_time.Settings.{
  is_spacing, argument, number, alone, port_list, with_keyword, parse_item, parse_items,
  sslpp_config, keyword_of, is_heartbeat_len,
}
use in_free_time.Settings.Shown.{
  Setting, ports, noinspect_encrypted, trustservers, memcap, decrypt_memcap, max_heartbeat_length,
  shown_setting, shown_settings, with_setting, with_settings, IsFitting, shown_setting-IsWord,
  shown_settings-IsWord,
}

-- A word of digits is one token.
strtok_from-digits :
    (c : ℕ) (word s : Bytes)
    → All (λ c. is_digit c ≡ true) s
    → strtok_from is_spacing (c ∷ word) s ≡ some (c ∷ word ++ s, [])
strtok_from-digits c word [] all = ap (λ w. some (c ∷ w, [])) (sym (append-nil word))
strtok_from-digits c word (d ∷ s) (h, all) =
    let inside : is_spacing d ≡ false = ground (arith, h) in
    rw inside (
      strtok_from-digits c (word ++ (d ∷ [])) s all
      ∙ ap (λ w. some (c ∷ w, [])) (append_assoc word (d ∷ []) s))

argument-digits :
    (s : Bytes) → starts_with_digit s ≡ true → All (λ c. is_digit c ≡ true) s → argument s ≡ some s
argument-digits [] h all = absurd (cc h)
argument-digits (c ∷ s) h (d, all) =
    let inside : is_spacing c ≡ false = ground (arith, d) in
    rw (inside, argument) (rw (strtok_from-digits c [] s all) refl)

-- `SnortStrtol` reads a number below 2 ^ 31 as it is printed, to its end.
unfoldable pub ReadsNumbers : Environment → Type 0
ReadsNumbers env =
    (n : ℕ)
    → n < 2 ^ 31
    → env.snort_strtol (decimal_to 9 n) ≡ record { value = pos n; end = []; erange = false }

to_int-small : (n : ℕ) → n < 2 ^ 31 → to_int (pos n) ≡ pos n
to_int-small n h =
    let same : n % 2 ^ 32 ≡ n = omega (arith, h) in
    let natural : ltb n (2 ^ 31) ≡ true = ground (arith, h) in rw same (rw natural refl)

number-digits :
    (env : Environment) (n : ℕ) (allowed : ℤ → Bool) (store : ℤ → Config)
    → ReadsNumbers env
    → n < 2 ^ 31
    → allowed (pos n) ≡ true
    → number env (argument (decimal_to 9 n)) allowed store ≡ next (store (pos n))
unfolding number ReadsNumbers
number-digits env n allowed store reads h a =
    rw (argument-digits (decimal_to 9 n) (starts-decimal_to 9 n) (decimal_to-digits 9 n))
      (rw (reads n h) (rw (to_int-small n h) (rw a refl)))

port_list-show_ports :
    (ps : List ℕ) (c : Config)
    → All (λ port. port < max_ports) ps
    → ps ≢ []
    → port_list (show_ports ps) c ≡ next (record c { ports = set_ports no_ports ps })
unfolding port_list
port_list-show_ports ps c all full =
    ap
      (λ (r : Parsed). elim r.error [ none ↦ next (record c { ports = r.table }) | some e ↦ fatal ])
      (sfp_ports-show_ports no_ports ps all full)

parse_item-setting :
    (env : Environment) (s : Setting) (c : Config)
    → ReadsNumbers env
    → IsFitting s
    → parse_item env (shown_setting s) c ≡ next (with_setting s c)
unfolding parse_item keyword_of with_keyword alone
parse_item-setting env (ports ps) c reads (all, full) = port_list-show_ports ps c all full
parse_item-setting env noinspect_encrypted c reads h = refl
parse_item-setting env trustservers c reads h = refl
parse_item-setting env (memcap n) c reads h = number-digits env n _ _ reads h refl
parse_item-setting env (decrypt_memcap n) c reads h = number-digits env n _ _ reads h refl
parse_item-setting env (max_heartbeat_length n) c reads h =
    number-digits env n is_heartbeat_len _ reads (omega (arith, h)) (ground (arith, h))

parse_items-settings :
    (env : Environment) (settings : List Setting) (c : Config)
    → ReadsNumbers env
    → All IsFitting settings
    → parse_items env (shown_settings settings) c ≡ verified (with_settings settings c)
unfolding parse_items
parse_items-settings env [] c reads all = refl
parse_items-settings env (s ∷ settings) c reads (h, all) =
    rw (parse_item-setting env s c reads h, parse_items)
      (parse_items-settings env settings (with_setting s c) reads all)

-- Printed options in their ranges, with commas between them, are read back, each over those before
-- it, up to the last test of the parser; that is, if the host process reads the numbers.
pub sslpp_config-settings :
    (env : Environment) (s : Setting) (settings : List Setting) (c : Config)
    → ReadsNumbers env
    → IsFitting s
    → All IsFitting settings
    → sslpp_config env c (some (shown_setting s ++ joined b',' (shown_settings settings)))
      ≡ verified (with_settings (s ∷ settings) c)
unfolding sslpp_config
sslpp_config-settings env s settings c reads h all =
    ap (λ items. parse_items env items c)
      (tokens-joined is_comma b',' (shown_setting s) (shown_settings settings) refl
        (shown_setting-IsWord s) (shown_settings-IsWord settings))
    ∙ parse_items-settings env (s ∷ settings) c reads (h, all)
