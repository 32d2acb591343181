-- ===== src/Ports/ParseLaws.antt =====
-- What `SFP_ports` leaves in the table for any text, and for a port list that is printed.
use in_free_time.Base.{
  ℕ, ◌<◌, ◌≡◌, ◌≢◌, ◌⊎◌, refl, inl, inr, Bool, true, false, not, ◌||◌, Option, none, some, List, [],
  ◌∷◌, ◌++◌, Bytes, All, arith, if-elim,
}
use in_free_time.Base.Int.{ℤ, pos, negsuc, ltb_ℤ, pos_part}
use in_free_time.Base.Strings.{same, tokens, joined, tokens-joined, IsWord}
use in_free_time.Base.Numerals.{
  strtol, decimal_to, strtol-decimal_to, decimal_to-digits, is_digit, starts-decimal_to,
  starts_with_digit,
}
use in_free_time.Ports.{set_port, set_ports, max_ports}
use in_free_time.Ports.Parse.{
  Error, Parsed, failing, is_blank, port_of, finish, sfp_loop, sfp_tokens, sfp_ports, goes_on,
}

-- A port in the range of the table, or no port
InRange : ℕ ⊎ Error → Type 0
InRange (inl port) = port < max_ports
InRange (inr e) = Unit

port_of-InRange : (tok : Bytes) → InRange (port_of tok)
unfolding port_of InRange
port_of-InRange tok =
    let r = strtol tok in
    if-elim InRange (not r.parsed || goes_on r.end || r.erange) (λ _. tt)
      λ _.
        if-elim InRange (ltb_ℤ r.value (pos 0) || ltb_ℤ (pos 65535) r.value) (λ _. tt)
          λ h. value r.value h
  where
    value : (z : ℤ) → (ltb_ℤ z (pos 0) || ltb_ℤ (pos 65535) z) ≡ false → pos_part z < max_ports
    value (pos n) h = ground (arith, h)
    value (negsuc n) h = ground (arith, h)

-- The table has gained some ports of its range; where there is no error there is one, unless one
-- was found before.
data Gained (found : Bool) (table : Bytes) (r : Parsed) : Type 0 where
  gained :
      (ports : List ℕ)
      → All (λ port. port < max_ports) ports
      → r.table ≡ set_ports table ports
      → (r.error ≡ none → (found ≡ true) ⊎ (ports ≢ []))
      → Gained found table r

finish-Gained : (end found : Bool) (table : Bytes) → Gained found table (finish end found table)
unfolding finish set_ports
finish-Gained false found table = gained [] tt refl (λ e. absurd (cc e))
finish-Gained true false table = gained [] tt refl (λ e. absurd (cc e))
finish-Gained true true table = gained [] tt refl (λ e. inl refl)

one_more :
    {found : Bool} {table : Bytes} {r : Parsed} (port : ℕ)
    → port < max_ports
    → Gained true (set_port table port) r
    → Gained found table r
unfolding set_ports
one_more port h (gained ports all e ok) =
    gained (port ∷ ports) (h, all) e (λ q. inr λ p. absurd (cc p))

sfp_loop-Gained :
    (end found : Bool) (table : Bytes) (toks : List Bytes)
    → Gained found table (sfp_loop end found table toks)
unfolding sfp_loop set_ports InRange
sfp_loop-Gained end found table [] = finish-Gained end found table
sfp_loop-Gained true found table (tok ∷ toks) = gained [] tt refl (λ e. absurd (cc e))
sfp_loop-Gained false found table (tok ∷ toks) =
    if-elim (Gained found table) (same tok (b'}' ∷ [])) (λ _. sfp_loop-Gained true found table toks)
      λ _.
        after_token (port_of tok) (port_of-InRange tok)
          (λ port. sfp_loop-Gained false true (set_port table port) toks)
  where
    after_token :
        (o : ℕ ⊎ Error)
        → InRange o
        → ((port : ℕ)
            → Gained true (set_port table port) (sfp_loop false true (set_port table port) toks))
        → Gained found table (elim o [
          | inl port ↦ sfp_loop false true (set_port table port) toks
          | inr e ↦ failing e table
        ])
    after_token (inl port) h rest = one_more port h (rest port)
    after_token (inr e) h rest = gained [] tt refl (λ q. absurd (cc q))

sfp_ports-Gained : (table : Bytes) (str : Option Bytes) → Gained false table (sfp_ports table str)
unfolding sfp_ports sfp_tokens set_ports
sfp_ports-Gained table none = gained [] tt refl (λ q. absurd (cc q))
sfp_ports-Gained table (some str) = listed (tokens is_blank str)
  where
    listed : (toks : List Bytes) → Gained false table (sfp_tokens table toks)
    listed [] = gained [] tt refl (λ q. absurd (cc q))
    listed (tok ∷ toks) =
        if-elim (Gained false table) (same tok (b'{' ∷ []))
          (λ _. sfp_loop-Gained false false table toks) λ _. gained [] tt refl (λ q. absurd (cc q))

-- Whatever the text, also where it is refused, the table has just gained some ports below 65536, so
-- that no write is outside its bytes; where the text is accepted, there is at least one of them.
pub sfp_ports-gains :
    (table : Bytes) (str : Option Bytes)
    → (ports : List ℕ) × All (λ port. port < max_ports) ports
      × ((sfp_ports table str).table ≡ set_ports table ports)
      × ((sfp_ports table str).error ≡ none → ports ≢ [])
sfp_ports-gains table str = elim (sfp_ports-Gained table str) [
  | gained ports all e ok ↦
      (ports, all, e, λ q. elim (ok q) [ inl f ↦ absurd (cc f) | inr full ↦ full ])
]

-- A port list as it is written
abbrev pub shown : List ℕ → List Bytes
shown [] = (b'}' ∷ []) ∷ []
shown (port ∷ ports) = decimal_to 4 port ∷ shown ports

abbrev pub show_ports : List ℕ → Bytes
show_ports ports = (b'{' ∷ []) ++ joined b' ' (shown ports)

not_blank : (s : Bytes) → All (λ c. is_digit c ≡ true) s → All (λ c. is_blank c ≡ false) s
not_blank [] all = tt
not_blank (c ∷ s) (h, all) = (ground (arith, h), not_blank s all)

starts-full : (s : Bytes) → starts_with_digit s ≡ true → (s ≢ []) × (same s (b'}' ∷ []) ≡ false)
starts-full [] h = absurd (cc h)
starts-full (c ∷ s) h = (λ e. absurd (cc e), ground (arith, h))

shown-IsWord : (ports : List ℕ) → All (IsWord is_blank) (shown ports)
shown-IsWord [] = (record { bytes = (refl, tt); full = λ e. absurd (cc e) }, tt)
shown-IsWord (port ∷ ports) = (
  record {
    bytes = not_blank (decimal_to 4 port) (decimal_to-digits 4 port);
    full = (starts-full (decimal_to 4 port) (starts-decimal_to 4 port)).0;
  },
  shown-IsWord ports,
)

port_of-decimal_to : (port : ℕ) → port < max_ports → port_of (decimal_to 4 port) ≡ inl port
unfolding port_of
port_of-decimal_to port h =
    let below : ltb_ℤ (pos 65535) (pos port) ≡ false = ground (arith, h) in
    let natural : ltb_ℤ (pos port) (pos 0) ≡ false = ground (arith, h) in
    rw (strtol-decimal_to 4 port (omega (arith, h)) (omega (arith, h))) (rw natural (rw below refl))

sfp_loop-shown :
    (found : Bool) (table : Bytes) (ports : List ℕ)
    → All (λ port. port < max_ports) ports
    → (found ≡ true) ⊎ (ports ≢ [])
    → sfp_loop false found table (shown ports)
      ≡ record { table = set_ports table ports; error = none }
unfolding sfp_loop set_ports finish
sfp_loop-shown true table [] all some_port = refl
sfp_loop-shown false table [] all (inl e) = absurd (cc e)
sfp_loop-shown false table [] all (inr full) = absurd (full refl)
sfp_loop-shown found table (port ∷ ports) (h, all) some_port =
    rw (starts-full (decimal_to 4 port) (starts-decimal_to 4 port)).1 (
      rw (port_of-decimal_to port h)
        (sfp_loop-shown true (set_port table port) ports all (inl refl)))

-- The text of a port list that is not empty, of ports below 65536, is accepted and adds just these
-- ports to the table.
pub sfp_ports-show_ports :
    (table : Bytes) (ports : List ℕ)
    → All (λ port. port < max_ports) ports
    → ports ≢ []
    → sfp_ports table (some (show_ports ports))
      ≡ record { table = set_ports table ports; error = none }
unfolding sfp_ports sfp_tokens
sfp_ports-show_ports table ports all full =
    rw
      (tokens-joined is_blank b' ' (b'{' ∷ []) (shown ports) refl
        (record { bytes = (refl, tt); full = λ e. absurd (cc e) }) (shown-IsWord ports))
      (sfp_loop-shown false table ports all (inr full))
