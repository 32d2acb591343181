-- ===== src/Session/Events.antt =====
-- Packets in their order through `SSLPP_process`, and what an invariant of their processing is: the
-- interface between the proofs about the handlers and those about whole sequences of packets.
use in_free_time.Base.{ℕ, ◌≡◌, Bool, true, false, Option, none, some, List, [], ◌∷◌, length}
use in_free_time.Ssl.Direction.{Lacks}
use in_free_time.Ssl.Total.{IsReadable}
use in_free_time.Base.Flags.{has, without}
use in_free_time.Ssl.{◌>>=◌}
use in_free_time.Session.{
  Packet, Host, Config, SsnData, World, encrypted_flag, emit, response_flush_stream,
  session_initialize,
}
use in_free_time.Session.Process.{encrypted_turn, clear_turn, State}
use in_free_time.Session.Process.{state_flags, sslpp_process, heartbleed_alerts}

-- The packet's payload can be decoded without a read behind it.
abbrev pub IsDecodable : Packet → Type 0
IsDecodable packet = IsReadable packet.payload (length packet.payload)

-- Something that holds of the flags of a session (`Flags`) and of the world (`Holds`) and is kept,
-- under conditions on the configurations (`Configured`), the new flags (`New`) and whether
-- a session may be missing (`Missing`).
pub record Invariant : Type 1 where
  pub Configured : Config → Type 0
  pub New : ℕ → Type 0
  pub Missing : Type 0
  pub Flags : ℕ → Type 0
  pub Holds : World → Type 0
  pub decoded : (f : ℕ) → Lacks 26 f → New f
  pub fresh : Missing → Flags 0
  pub cleared : (f : ℕ) → Flags f → Flags (without f state_flags)
  pub alerted : (type : ℕ) (b : Bool) (w : World) → Holds w → Holds (heartbleed_alerts type b w)
  pub flushed : (w : World) → Holds w → Holds (emit response_flush_stream w)
  pub initialized : (w : World) → Holds w → Holds (emit session_initialize w)
  pub encrypted :
      (f new : ℕ) (w : World)
      → has f encrypted_flag ≡ true
      → Flags f
      → New new
      → Holds w
      → Flags (encrypted_turn f new w).flags × Holds (encrypted_turn f new w).world
  pub clear :
      (host : Host) (config : Config) (packet : Packet) (f new : ℕ) (w : World)
      → has f encrypted_flag ≡ false
      → Configured config
      → Flags f
      → New new
      → Holds w
      → Flags (clear_turn host config packet f new w).flags
        × Holds (clear_turn host config packet f new w).world

-- The invariant holds of the session and of the world; the four lengths are there.
pub data IsKept (I : Invariant) : State → Type 0 where
  missing : {w : World} → I.Missing → I.Holds w → IsKept I (record { session = none; world = w })
  kept :
      {sd : SsnData} {w : World}
      → I.Flags sd.ssn_flags
      → length sd.partial_rec_len ≡ 4
      → I.Holds w
      → IsKept I (record { session = some sd; world = w })

-- A packet, with what the host answers for it and the configuration that is current.
pub record Event : Type 0 where
  pub host : Host
  pub config : Option Config
  pub packet : Packet

-- The calls of `SSLPP_process` for packets in their order
unfoldable pub process_all : List Event → State → Option State
process_all [] s = some s
process_all (e ∷ events) s = sslpp_process e.host e.config e.packet s >>= λ t. process_all events t

pub record IsAllowed (I : Invariant) (e : Event) : Type 0 where
  pub decodable : IsDecodable e.packet
  pub configured : (config : Config) → e.config ≡ some config → I.Configured config
  pub offers : (f : ℕ) → e.host.flow_flags ≡ some f → I.New f
