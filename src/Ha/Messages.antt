-- ===== src/Ha/Messages.antt =====
-- The messages of ssl_ha.c: their size, how they are written (`GenerateSSLHAUpdateMessage`), and how
-- they are read (`ConsumeSSLHAMessage`, `DeserializeSSLPreprocData`).
use in_free_time.Base.{
  ℕ, zero, suc, ◌+◌, ◌*◌, ◌/◌, ◌%◌, ◌^◌, Bool, not, ◌||◌, none, some, List, [], ◌∷◌, ◌++◌, Bytes,
  length, take, drop, ltb, ◌==◌, get_elem?, if◌then◌else◌, u32,
}
use in_free_time.Ha.{Node, Slots, find_from, put_slot}

-- `HA_EVENT_UPDATE`, `HA_EVENT_DELETE`, and `HA_SSL_MESSAGE_VERSION`
abbrev pub ha_event_update : ℕ
ha_event_update = 0

abbrev pub ha_event_delete : ℕ
ha_event_delete = 1

abbrev pub ha_ssl_message_version : ℕ
ha_ssl_message_version = 0x82

-- What a consumer or a deletion function was called with.
pub record Delivery : Type 0 where
  pub event : ℕ
  pub node : ℕ
  pub payload : Bytes

-- `SSLHAStats`
pub record Stats : Type 0 where
  pub update_messages_received : ℕ
  pub delete_messages_received : ℕ
  pub update_messages_sent : ℕ
  pub delete_messages_sent : ℕ

-- The registry, the counters, and the calls of consumers and deletion functions, in order.
pub record Ha : Type 0 where
  pub slots : Slots
  pub stats : Stats
  pub delivered : List Delivery

-- The functions of the nodes, by their `id`: what `produce` writes for some data, and whether
-- `consume` and `deletion` return 0.
pub record Functions : Type 0 where
  pub produce : ℕ → Bytes → Bytes
  pub consume : ℕ → Bytes → Bool
  pub deletion : ℕ → Bytes → Bool

-- `++` on `uint32_t`
abbrev pub one_more : ℕ → ℕ
one_more n = u32 (n + 1)

abbrev pub le16 : ℕ → Bytes
le16 n = n % 256 ∷ n / 256 % 256 ∷ []

abbrev pub le32 : ℕ → Bytes
le32 n = n % 256 ∷ n / 256 % 256 ∷ n / 65536 % 256 ∷ n / 16777216 % 256 ∷ []

-- `WriteSSLHAMessageHeader`
unfoldable pub write_ssl_ha_message_header : ℕ → ℕ → Bytes
write_ssl_ha_message_header event msglen = event ∷ ha_ssl_message_version ∷ le16 msglen

-- `WriteSSLPreprocDataRecord`: the record for what was produced. `pad` is what the buffer had at the
-- three bytes behind the type, which are not written.
unfoldable pub write_ssl_preproc_data_record : Node → Bytes → Bytes → Bytes
write_ssl_preproc_data_record node pad payload =
    0 ∷ pad ++ (le32 (length payload) ++ (node.preproc_id ∷ node.subcode ∷ payload))

-- `CalculateSSLHAMessageSize`
unfoldable pub calculate_ssl_ha_message_size : ℕ → ℕ → ℕ → Slots → ℕ
calculate_ssl_ha_message_size event index ssl_size slots =
    if event == ha_event_update
    then elim (get_elem? slots index) [
      | none ↦ 4
      | some none ↦ 0
      | some (some node) ↦ u32 (4 + 8 + 2 + ssl_size)
    ]
    else 4

abbrev count_sent : ℕ → Stats → Stats
count_sent event stats =
    if event == ha_event_update
    then record stats { update_messages_sent = one_more stats.update_messages_sent }
    else record stats { delete_messages_sent = one_more stats.delete_messages_sent }

abbrev pub with_header : ℕ → Bytes → Bytes
with_header event body = write_ssl_ha_message_header event ((4 + length body) % 2 ^ 16) ++ body

-- `GenerateSSLHAUpdateMessage`: the message, empty where 0 is returned, and the state after it. The
-- length in the header is the one that is written last.
unfoldable pub generate_ssl_ha_update_message : Functions → ℕ → ℕ → Bytes → Bytes → Ha → Bytes × Ha
generate_ssl_ha_update_message fs index event pad given ha = elim (get_elem? ha.slots index) [
  | none ↦ (with_header event [], record ha { stats = count_sent event ha.stats })
  | some none ↦ ([], ha)
  | some (some node) ↦ (
    with_header event (write_ssl_preproc_data_record node pad (fs.produce node.id given)),
    record ha {
      stats = count_sent event ha.stats;
      slots = put_slot ha.slots index (record node { produced = one_more node.produced });
    },
  )
]

-- How reading ends: with an error code, with 0, or in a call of a null pointer.
pub data Reading : Type 0 where
  refused accepted : Ha → Reading
  crashed out_of_fuel : Reading

abbrev pub judged : Bool → Ha → Reading
judged b ha = if b then accepted ha else refused ha

abbrev pub after_update : ℕ → Node → Bytes → Ha → Ha
after_update i node payload ha = record {
  slots = put_slot ha.slots i (record node { consumed = one_more node.consumed });
  stats = record ha.stats { update_messages_received = one_more ha.stats.update_messages_received };
  delivered =
      ha.delivered ++ (record { event = ha_event_update; node = node.id; payload = payload } ∷ []);
}

unfoldable pub consume_update : Functions → ℕ → Node → Bytes → Ha → Reading
consume_update fs i node payload ha =
    judged (fs.consume node.id payload) (after_update i node payload ha)

unfoldable pub consume_delete : Functions → ℕ → Node → Bytes → Ha → Reading
consume_delete fs i node payload ha =
    if node.deletes
    then judged (fs.deletion node.id payload) (record {
      slots = put_slot ha.slots i (record node { deleted = one_more node.deleted });
      stats = record ha.stats {
        delete_messages_received = one_more ha.stats.delete_messages_received;
      };
      delivered =
          ha.delivered
          ++ (record { event = ha_event_delete; node = node.id; payload = payload } ∷ []);
    })
    else crashed

-- `DeserializeSSLPreprocData`
unfoldable pub deserialize_ssl_preproc_data : Functions → ℕ → ℕ → ℕ → Bytes → Ha → Reading
deserialize_ssl_preproc_data fs event p s payload ha = elim (find_from 0 p s ha.slots) [
  | none ↦ refused ha
  | some (i, node) ↦
      if ltb (length payload) node.size
      then refused ha
      else if event == ha_event_update
      then consume_update fs i node payload ha
      else consume_delete fs i node payload ha
]

abbrev pub from_le32 : ℕ → ℕ → ℕ → ℕ → ℕ
from_le32 a b c d = a + b * 256 + c * 65536 + d * 16777216

-- The loop over the records; `fuel` counts them. With fewer bytes than both headers have, reading
-- ends in an error, whatever their type.
unfoldable pub consume_records : ℕ → Functions → ℕ → Bytes → Ha → Reading
consume_records fuel fs event [] ha = accepted ha
consume_records zero fs event (c ∷ msg) ha = out_of_fuel
consume_records (suc fuel) fs event (type ∷ p0 ∷ p1 ∷ p2 ∷ l0 ∷ l1 ∷ l2 ∷ l3 ∷ p ∷ s ∷ body) ha =
    let len = from_le32 l0 l1 l2 l3 in
    if not (type == 0) || ltb (length body) len
    then refused ha
    else elim (deserialize_ssl_preproc_data fs event p s (take len body) ha) [
      | refused ha' ↦ refused ha'
      | accepted ha' ↦ consume_records fuel fs event (drop len body) ha'
      | crashed ↦ crashed
      | out_of_fuel ↦ out_of_fuel
    ]
consume_records (suc fuel) fs event msg ha = refused ha

-- `ConsumeSSLHAMessage`
unfoldable pub consume_ssl_ha_message : Functions → Bytes → Ha → Reading
consume_ssl_ha_message fs (event ∷ version ∷ low ∷ high ∷ records) ha =
    if not (low + high * 256 == 4 + length records)
      || not (event == ha_event_update || event == ha_event_delete)
    then refused ha
    else consume_records (length records) fs event records ha
consume_ssl_ha_message fs msg ha = refused ha
