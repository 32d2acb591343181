-- ===== src/Ports/Laws.antt =====
-- A port table is a set of ports.
use in_free_time.Base.{
  ℕ, zero, suc, ◌+◌, ◌/◌, ◌%◌, ◌^◌, ◌<◌, ◌≡◌, refl, Bool, false, List, [], ◌∷◌, Bytes, get_or, set,
  bit_or, length, length-set, ◌||◌, All, inl, inr, ◌∙◌,
}
use in_free_time.Base.{if◌then◌else◌, ◌==◌, ==_iff, arith, ap, Bool-cases, leb, ltb, ◌&&◌}
use in_free_time.Base.Flags.{has, has-bit_at, bit_at-power}
use in_free_time.Base.Bits.{bit_at-bit_or, bit_at-le-one}
use in_free_time.Ports.{
  set_port, has_port, set_ports, registered_from, register_ports, max_ports, table_size,
}

get_or-set :
    (xs : Bytes) (i j v d : ℕ)
    → i < length xs
    → get_or (set xs i v) j d ≡ (if j == i then v else get_or xs j d)
get_or-set [] i j v d h = absurd (omega arith)
get_or-set (x ∷ xs) zero zero v d h = ground arith
get_or-set (x ∷ xs) zero (suc j) v d h = ground arith
get_or-set (x ∷ xs) (suc i) zero v d h = ground arith
get_or-set (x ∷ xs) (suc i) (suc j) v d h = ground (arith, get_or-set xs i j v d (omega arith))

pub length-set_port : (ports : Bytes) (port : ℕ) → length (set_port ports port) ≡ length ports
unfolding set_port
length-set_port ports port = length-set ports (port / 8) _

-- One byte of a table: setting bit `b` and reading bit `c`.
has-set_bit : (byte b c : ℕ) → has (bit_or byte (2 ^ b)) (2 ^ c) ≡ ((c == b) || has byte (2 ^ c))
has-set_bit byte b c = rw (has-bit_at c (bit_or byte (2 ^ b))) (
    rw (has-bit_at c byte)
      (ground (arith, bit_at-bit_or c byte (2 ^ b), bit_at-power c b, bit_at-le-one c byte)))

-- After a port is set, the table holds it, and of the others the same ones as before.
has_port-set_port :
    (ports : Bytes) (p q : ℕ)
    → length ports ≡ table_size
    → p < max_ports
    → has_port (set_port ports p) q ≡ ((q == p) || has_port ports q)
unfolding has_port set_port
has_port-set_port ports p q size inside =
    rw
      (get_or-set ports (p / 8) (q / 8) (bit_or (get_or ports (p / 8) 0) (2 ^ (p % 8))) 0
        (omega arith))
      (elim (Bool-cases (q / 8 == p / 8)) [
        | inl same ↦
            let byte : q / 8 ≡ p / 8 = (==_iff (q / 8) (p / 8)).0 same in
            rw same (
              has-set_bit (get_or ports (p / 8) 0) (p % 8) (q % 8) ∙ rw byte (ground (arith, byte)))
        | inr differs ↦ rw differs (ground (arith, differs))
      ])

-- Is `q` one of these ports?
unfoldable pub member : ℕ → List ℕ → Bool
member q [] = false
member q (p ∷ more) = (q == p) || member q more

abbrev pub AllPorts : List ℕ → Type 0
AllPorts = All (λ p. p < max_ports)

-- A table after any ports are set holds these and the ones it held.
has_port-set_ports :
    (more : List ℕ) (ports : Bytes) (q : ℕ)
    → length ports ≡ table_size
    → AllPorts more
    → has_port (set_ports ports more) q ≡ (member q more || has_port ports q)
unfolding set_ports member
has_port-set_ports [] ports q size h = refl
has_port-set_ports (p ∷ more) ports q size h = ground (
  arith,
  has_port-set_ports more (set_port ports p) q (length-set_port ports p ∙ size) h.1,
  has_port-set_port ports p q size h.0,
)

member-registered_from :
    (left port q : ℕ) (ports : Bytes)
    → member q (registered_from left port ports)
      ≡ (leb port q && ltb q (port + left) && has_port ports q)
unfolding member registered_from
member-registered_from zero port q ports = ground arith
member-registered_from (suc left) port q ports = elim (Bool-cases (q == port)) [
  | inl same ↦
      let here : q ≡ port = (==_iff q port).0 same in
      ground (arith, here, ap (has_port ports) here, member-registered_from left (port + 1) q ports)
  | inr differs ↦ ground (arith, differs, member-registered_from left (port + 1) q ports)
]

-- The loops over all ports call the host process for exactly the ports of the table.
member-register_ports :
    (ports : Bytes) (q : ℕ)
    → member q (register_ports ports) ≡ (ltb q max_ports && has_port ports q)
unfolding register_ports
member-register_ports ports q = ground (arith, member-registered_from max_ports 0 q ports)
