-- ===== src/Settings/Shown.antt =====
-- Options of the preprocessor as they are written, in the words of `SSLPP_config`, and what they mean.
use in_free_time.Base.{
  ℕ, ◌<◌, ◌^◌, ◌≡◌, ◌≢◌, refl, Bool, true, false, ◌||◌, List, [], ◌∷◌, ◌++◌, Bytes, All, All-append,
  arith, bit_or,
}
use in_free_time.Base.Int.{pos}
use in_free_time.Base.Strings.{joined, IsWord}
use in_free_time.Base.Numerals.{decimal_to, decimal_to-digits, is_digit}
use in_free_time.Ports.{no_ports, set_ports, max_ports}
use in_free_time.Ports.ParseLaws.{shown, show_ports}
use in_free_time.Rule.{is_comma}
use in_free_time.Session.{Config, sslpp_disable_flag, sslpp_trustserver_flag}

-- Options that can be printed, in the preprocessor's own words
pub data Setting : Type 0 where
  ports : List ℕ → Setting
  noinspect_encrypted trustservers : Setting
  memcap decrypt_memcap max_heartbeat_length : ℕ → Setting

abbrev digits : ℕ → Bytes
digits n = decimal_to 9 n

abbrev pub word_of : Setting → Bytes
word_of (ports ps) = b'p' ∷ b'o' ∷ b'r' ∷ b't' ∷ b's' ∷ b' ' ∷ []
word_of noinspect_encrypted =
    b'n' ∷ b'o' ∷ b'i' ∷ b'n' ∷ b's' ∷ b'p' ∷ b'e' ∷ b'c' ∷ b't' ∷ b'_' ∷ b'e' ∷ b'n' ∷ b'c' ∷ b'r'
    ∷ b'y' ∷ b'p' ∷ b't' ∷ b'e' ∷ b'd' ∷ []
word_of trustservers =
    b't' ∷ b'r' ∷ b'u' ∷ b's' ∷ b't' ∷ b's' ∷ b'e' ∷ b'r' ∷ b'v' ∷ b'e' ∷ b'r' ∷ b's' ∷ []
word_of (memcap n) = b'm' ∷ b'e' ∷ b'm' ∷ b'c' ∷ b'a' ∷ b'p' ∷ b' ' ∷ []
word_of (decrypt_memcap n) =
    b'd' ∷ b'e' ∷ b'c' ∷ b'r' ∷ b'y' ∷ b'p' ∷ b't' ∷ b'_' ∷ b'm' ∷ b'e' ∷ b'm' ∷ b'c' ∷ b'a' ∷ b'p'
    ∷ b' ' ∷ []
word_of (max_heartbeat_length n) =
    b'm' ∷ b'a' ∷ b'x' ∷ b'_' ∷ b'h' ∷ b'e' ∷ b'a' ∷ b'r' ∷ b't' ∷ b'b' ∷ b'e' ∷ b'a' ∷ b't' ∷ b'_'
    ∷ b'l' ∷ b'e' ∷ b'n' ∷ b'g' ∷ b't' ∷ b'h' ∷ b' ' ∷ []

abbrev pub argument_of : Setting → Bytes
argument_of (ports ps) = show_ports ps
argument_of noinspect_encrypted = []
argument_of trustservers = []
argument_of (memcap n) = digits n
argument_of (decrypt_memcap n) = digits n
argument_of (max_heartbeat_length n) = digits n

abbrev pub shown_setting : Setting → Bytes
shown_setting s = word_of s ++ argument_of s

abbrev pub shown_settings : List Setting → List Bytes
shown_settings [] = []
shown_settings (s ∷ settings) = shown_setting s ∷ shown_settings settings

-- What a setting means
abbrev pub with_setting : Setting → Config → Config
with_setting (ports ps) c = record c { ports = set_ports no_ports ps }
with_setting noinspect_encrypted c = record c { flags = bit_or c.flags sslpp_disable_flag }
with_setting trustservers c = record c { flags = bit_or c.flags sslpp_trustserver_flag }
with_setting (memcap n) c = record c { memcap = pos n }
with_setting (decrypt_memcap n) c = record c { decrypt_memcap = pos n }
with_setting (max_heartbeat_length n) c = record c { max_heartbeat_len = pos n }

abbrev pub with_settings : List Setting → Config → Config
with_settings [] c = c
with_settings (s ∷ settings) c = with_settings settings (with_setting s c)

-- A setting in the ranges of the options
abbrev pub IsFitting : Setting → Type 0
IsFitting (ports ps) = All (λ port. port < max_ports) ps × (ps ≢ [])
IsFitting noinspect_encrypted = Unit
IsFitting trustservers = Unit
IsFitting (memcap n) = n < 2 ^ 31
IsFitting (decrypt_memcap n) = n < 2 ^ 31
IsFitting (max_heartbeat_length n) = n < 2 ^ 16

-- The text of an item has no comma.
not_comma : (s : Bytes) → All (λ c. is_digit c ≡ true) s → All (λ c. is_comma c ≡ false) s
not_comma [] all = tt
not_comma (c ∷ s) (h, all) = (ground (arith, h), not_comma s all)

digits-no_comma : (more n : ℕ) → All (λ c. is_comma c ≡ false) (decimal_to more n)
digits-no_comma more n = not_comma (decimal_to more n) (decimal_to-digits more n)

shown-no_comma : (ps : List ℕ) → All (λ c. is_comma c ≡ false) (joined b' ' (shown ps))
shown-no_comma [] = (refl, (refl, tt))
shown-no_comma (port ∷ ps) = (
  refl,
  All-append (λ c. is_comma c ≡ false) (decimal_to 4 port) (joined b' ' (shown ps))
      (digits-no_comma 4 port) (shown-no_comma ps),
)

commas : Bytes → Bool
commas [] = false
commas (c ∷ s) = is_comma c || commas s

without_commas : (s : Bytes) → commas s ≡ false → All (λ c. is_comma c ≡ false) s
unfolding commas
without_commas [] h = tt
without_commas (c ∷ s) h = (ground (arith, h), without_commas s (ground (arith, h)))

word_of-no_comma : (s : Setting) → (commas (word_of s) ≡ false) × (word_of s ≢ [])
unfolding commas
word_of-no_comma (ports ps) = (refl, λ e. absurd (cc e))
word_of-no_comma noinspect_encrypted = (refl, λ e. absurd (cc e))
word_of-no_comma trustservers = (refl, λ e. absurd (cc e))
word_of-no_comma (memcap n) = (refl, λ e. absurd (cc e))
word_of-no_comma (decrypt_memcap n) = (refl, λ e. absurd (cc e))
word_of-no_comma (max_heartbeat_length n) = (refl, λ e. absurd (cc e))

argument_of-no_comma : (s : Setting) → All (λ c. is_comma c ≡ false) (argument_of s)
argument_of-no_comma (ports ps) = (refl, shown-no_comma ps)
argument_of-no_comma noinspect_encrypted = tt
argument_of-no_comma trustservers = tt
argument_of-no_comma (memcap n) = digits-no_comma 9 n
argument_of-no_comma (decrypt_memcap n) = digits-no_comma 9 n
argument_of-no_comma (max_heartbeat_length n) = digits-no_comma 9 n

append-full : (s more : Bytes) → s ≢ [] → s ++ more ≢ []
append-full [] more full = absurd (full refl)
append-full (c ∷ s) more full = λ e. absurd (cc e)

pub shown_setting-IsWord : (s : Setting) → IsWord is_comma (shown_setting s)
shown_setting-IsWord s =
    let (commaless, full) = word_of-no_comma s in
    record {
      bytes =
          All-append (λ c. is_comma c ≡ false) (word_of s) (argument_of s)
            (without_commas (word_of s) commaless) (argument_of-no_comma s);
      full = append-full (word_of s) (argument_of s) full;
    }

pub shown_settings-IsWord :
    (settings : List Setting) → All (IsWord is_comma) (shown_settings settings)
shown_settings-IsWord [] = tt
shown_settings-IsWord (s ∷ settings) = (shown_setting-IsWord s, shown_settings-IsWord settings)
