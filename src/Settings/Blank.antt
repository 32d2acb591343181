-- ===== src/Settings/Blank.antt =====
-- Where `SSLPP_config` stops to read its text.
use in_free_time.Base.{◌≡◌, refl, none, List, [], ◌∷◌, ◌++◌, Bytes}
use in_free_time.Base.Strings.{strtok}
use in_free_time.Ports.Parse.{is_blank}
use in_free_time.Session.{Config}
use in_free_time.Settings.{Environment, Step, fatal, returns, next, died, left_early}
use in_free_time.Settings.{parse_item, parse_items}

parse_item-blank :
    (env : Environment) (item : Bytes) (c : Config)
    → strtok is_blank item ≡ none
    → parse_item env item c ≡ returns
unfolding parse_item
parse_item-blank env item c e = rw (e, parse_item) refl

-- What stands behind an item of blanks alone is never read: the function returns there, without its
-- last test.
parse_items-blank :
    (env : Environment) (before after : List Bytes) (item : Bytes) (c : Config)
    → strtok is_blank item ≡ none
    → parse_items env (before ++ (item ∷ after)) c ≡ parse_items env (before ++ (item ∷ [])) c
unfolding parse_items
parse_items-blank env [] after item c e = rw (parse_item-blank env item c e, parse_items) refl
parse_items-blank env (first ∷ before) after item c e =
    go (parse_item env first c) λ c'. parse_items-blank env before after item c' e
  where
    go :
        (step : Step)
        → ((c' : Config)
            → parse_items env (before ++ (item ∷ after)) c'
              ≡ parse_items env (before ++ (item ∷ [])) c')
        → elim step [
          | fatal ↦ died
          | returns ↦ left_early c
          | next c' ↦ parse_items env (before ++ (item ∷ after)) c'
        ]
          ≡ elim step [
            | fatal ↦ died
            | returns ↦ left_early c
            | next c' ↦ parse_items env (before ++ (item ∷ [])) c'
          ]
    go fatal rest = refl
    go returns rest = refl
    go (next c') rest = rest c'
