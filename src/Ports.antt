-- ===== src/Ports.antt =====
-- Port tables: the bit arrays of sfcommon.h (`ports_tbl_t`, `PORT_INDEX`, `CONV_PORT`), and how
-- ssl_config.c, ssl_inspect.c and sfparser.c read and write them.
pub mod Laws
pub mod Parse
pub mod ParseLaws
use in_free_time.Base.{
  ℕ, zero, suc, ◌+◌, ◌/◌, ◌%◌, ◌^◌, Bool, true, false, not, List, [], ◌∷◌, ◌++◌, Bytes, get_or, set,
  replicate, bit_or,
}
use in_free_time.Base.{if◌then◌else◌}
use in_free_time.Base.Flags.{has}

-- `MAXPORTS`, and the bytes of a table
abbrev pub max_ports : ℕ
max_ports = 65536

abbrev pub table_size : ℕ
table_size = 8192

-- `ports[PORT_INDEX(port)] |= CONV_PORT(port)`, the body of `SSLSetPort`
unfoldable pub set_port : Bytes → ℕ → Bytes
set_port ports port = set ports (port / 8) (bit_or (get_or ports (port / 8) 0) (2 ^ (port % 8)))

-- `ports[PORT_INDEX(port)] & CONV_PORT(port)` as a condition
unfoldable pub has_port : Bytes → ℕ → Bool
has_port ports port = has (get_or ports (port / 8) 0) (2 ^ (port % 8))

-- A table after `memset`
abbrev pub no_ports : Bytes
no_ports = replicate table_size 0

unfoldable pub set_ports : Bytes → List ℕ → Bytes
set_ports ports [] = ports
set_ports ports (port ∷ more) = set_ports (set_port ports port) more

-- The ports that `SSLPP_init_config` sets
abbrev pub default_ports : List ℕ
default_ports = 443 ∷ 465 ∷ 563 ∷ 636 ∷ 989 ∷ 992 ∷ 993 ∷ 994 ∷ 995 ∷ []

-- The loops of `registerPortsForDispatch`, `registerPortsForReassembly` and
-- `_addPortsToStream5Filter`: the ports from `port` on for which the host process is called, in
-- order.
unfoldable pub registered_from : ℕ → ℕ → Bytes → List ℕ
registered_from zero port ports = []
registered_from (suc left) port ports =
    let rest = registered_from left (port + 1) ports in
    if has_port ports port then port ∷ rest else rest

unfoldable pub register_ports : Bytes → List ℕ
register_ports ports = registered_from max_ports 0 ports
