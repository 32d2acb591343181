-- ===== src/Ha/RoundTrip.antt =====
-- What is written as a message is read again.
use in_free_time.Base.{
  ℕ, suc, ◌+◌, ◌*◌, ◌/◌, ◌%◌, ◌^◌, ◌≤◌, ◌<◌, ◌≡◌, refl, ap, ◌∙◌, Bool, true, false, not, ◌||◌, some,
  [], ◌∷◌, ◌++◌, Bytes, length, take, drop, take-all, ltb, ◌==◌, get_elem?, if◌then◌else◌, arith,
}
use in_free_time.Ha.{Node, find_from}
use in_free_time.Ha.Messages.{
  Ha, Functions, Reading, refused, accepted, crashed, out_of_fuel, with_header, judged, from_le32,
}
use in_free_time.Ha.Messages.{
  ha_event_update, write_ssl_ha_message_header, write_ssl_preproc_data_record,
  calculate_ssl_ha_message_size, generate_ssl_ha_update_message,
}
use in_free_time.Ha.Messages.{
  after_update, consume_update, deserialize_ssl_preproc_data, consume_records,
  consume_ssl_ha_message,
}

drop-all : (payload : Bytes) → drop (length payload) payload ≡ []
drop-all [] = refl
drop-all (c ∷ payload) = drop-all payload

judged-accepts : (b : Bool) (ha : Ha) → b ≡ true → judged b ha ≡ accepted ha
judged-accepts b ha h = rw h refl

-- One record, read as the only one of a message
one_record :
    (fs : Functions) (node : Node) (p0 p1 p2 fuel : ℕ) (payload : Bytes) (there there' : Ha)
    → length payload < 2 ^ 16
    → deserialize_ssl_preproc_data fs 0 node.preproc_id node.subcode payload there ≡ accepted there'
    → consume_records
        (suc fuel)
        fs
        0
        (write_ssl_preproc_data_record node (p0 ∷ p1 ∷ p2 ∷ []) payload)
        there
      ≡ accepted there'
unfolding consume_records write_ssl_preproc_data_record
one_record fs node p0 p1 p2 fuel payload there there' small h =
    let n = length payload in
    let value : from_le32 (n % 256) (n / 256 % 256) (n / 65536 % 256) (n / 16777216 % 256) ≡ n =
      omega (arith, small) in
    ap (λ len. onwards len (take len payload) (drop len payload)) value
    ∙ ap (λ m. onwards n m (drop n payload)) (take-all n payload (omega arith))
    ∙ ap (λ m. onwards n payload m) (drop-all payload)
    ∙ all_read
  where
    onwards : ℕ → Bytes → Bytes → Reading
    onwards len now later =
        if not (0 == 0) || ltb (length payload) len
        then refused there
        else elim (deserialize_ssl_preproc_data fs 0 node.preproc_id node.subcode now there) [
          | refused ha' ↦ refused ha'
          | accepted ha' ↦ consume_records fuel fs 0 later ha'
          | crashed ↦ crashed
          | out_of_fuel ↦ out_of_fuel
        ]

    all_read : onwards (length payload) payload [] ≡ accepted there'
    all_read =
        let enough : ltb (length payload) (length payload) ≡ false = ground arith in
        rw (enough, onwards) (rw h refl)

deserialize-update :
    (fs : Functions) (i p s : ℕ) (node : Node) (payload : Bytes) (there : Ha)
    → find_from 0 p s there.slots ≡ some (i, node)
    → node.size ≤ length payload
    → fs.consume node.id payload ≡ true
    → (there' : Ha) × (deserialize_ssl_preproc_data fs 0 p s payload there ≡ accepted there')
      × (there'.delivered
          ≡ there.delivered
            ++ (record { event = ha_event_update; node = node.id; payload = payload } ∷ []))
unfolding deserialize_ssl_preproc_data consume_update
deserialize-update fs i p s node payload there known large takes =
    let fits : ltb (length payload) node.size ≡ false = ground (arith, large) in
    (
      after_update i node payload there,
      rw (known, deserialize_ssl_preproc_data) (rw fits (rw takes refl)),
      refl,
    )

record_size :
    (node : Node) (p0 p1 p2 : ℕ) (payload : Bytes)
    → (length (write_ssl_preproc_data_record node (p0 ∷ p1 ∷ p2 ∷ []) payload)
        ≡ suc (9 + length payload))
      × (length (write_ssl_preproc_data_record node (p0 ∷ p1 ∷ p2 ∷ []) payload)
          ≡ 10 + length payload)
unfolding write_ssl_preproc_data_record
record_size node p0 p1 p2 payload = (omega arith, omega arith)

whole_message :
    (fs : Functions) (node : Node) (p0 p1 p2 : ℕ) (payload : Bytes) (there there' : Ha)
    → 14 + length payload < 2 ^ 16
    → deserialize_ssl_preproc_data fs 0 node.preproc_id node.subcode payload there ≡ accepted there'
    → consume_ssl_ha_message fs
        (with_header 0 (write_ssl_preproc_data_record node (p0 ∷ p1 ∷ p2 ∷ []) payload))
        there
      ≡ accepted there'
unfolding consume_ssl_ha_message write_ssl_ha_message_header
whole_message fs node p0 p1 p2 payload there there' short read =
    let body = write_ssl_preproc_data_record node (p0 ∷ p1 ∷ p2 ∷ []) payload in
    let n = (4 + length body) % 2 ^ 16 in
    let (k, size) = record_size node p0 p1 p2 payload in
    let whole : (n % 256 + n / 256 % 256 * 256 == 4 + length body) ≡ true =
      ground (arith, size, short) in
    rw whole (
      ap (λ fuel. consume_records fuel fs 0 body there) k
      ∙ one_record fs node p0 p1 p2 (9 + length payload) payload there there' (omega (arith, short))
          read)

generated :
    (fs : Functions) (index p0 p1 p2 : ℕ) (node : Node) (given : Bytes) (here : Ha)
    → get_elem? here.slots index ≡ some (some node)
    → (generate_ssl_ha_update_message fs index ha_event_update (p0 ∷ p1 ∷ p2 ∷ []) given here).0
      ≡ with_header 0
          (write_ssl_preproc_data_record node (p0 ∷ p1 ∷ p2 ∷ []) (fs.produce node.id given))
unfolding generate_ssl_ha_update_message
generated fs index p0 p1 p2 node given here has_node =
    rw (has_node, generate_ssl_ha_update_message) refl

-- An update that is generated for a node is consumed by one who knows a node of the same key, with
-- no larger size, whose consumer takes it: what was produced is delivered to that node as it is,
-- whatever the buffer held before, if the message is shorter than 2 ^ 16 bytes.
pub consume-generate :
    (sender receiver : Functions) (index i p0 p1 p2 : ℕ) (node node' : Node) (given : Bytes)
    (here there : Ha)
    → get_elem? here.slots index ≡ some (some node)
    → find_from 0 node.preproc_id node.subcode there.slots ≡ some (i, node')
    → node'.size ≤ length (sender.produce node.id given)
    → 14 + length (sender.produce node.id given) < 2 ^ 16
    → receiver.consume node'.id (sender.produce node.id given) ≡ true
    → (there' : Ha) × (consume_ssl_ha_message receiver
          (generate_ssl_ha_update_message sender index ha_event_update
            (p0 ∷ p1 ∷ p2 ∷ [])
            given
            here).0
          there
        ≡ accepted there')
      × (there'.delivered
          ≡ there.delivered
            ++ (record {
              event = ha_event_update;
              node = node'.id;
              payload = sender.produce node.id given;
            }
                ∷ []))
unfolding generate_ssl_ha_update_message
consume-generate sender receiver index i p0 p1 p2 node node' given here there has_node known large
      short takes =
    let payload = sender.produce node.id given in
    let (there', read, delivered) =
      deserialize-update receiver i node.preproc_id node.subcode node' payload there known large
        takes in
    (
      there',
      ap (λ msg. consume_ssl_ha_message receiver msg there)
            (generated sender index p0 p1 p2 node given here has_node)
          ∙ whole_message receiver node p0 p1 p2 payload there there' short read,
      delivered,
    )

-- The size that is computed before is that of an update whose payload has the length it is computed
-- for. A deletion is written with its record too, which its size leaves out.
generate-size :
    (fs : Functions) (index p0 p1 p2 event : ℕ) (node : Node) (given : Bytes) (ha : Ha)
    → get_elem? ha.slots index ≡ some (some node)
    → 14 + length (fs.produce node.id given) < 2 ^ 16
    → length (generate_ssl_ha_update_message fs index event (p0 ∷ p1 ∷ p2 ∷ []) given ha).0
      ≡ calculate_ssl_ha_message_size event index (length (fs.produce node.id given)) ha.slots
        + (if event == ha_event_update then 0 else 10 + length (fs.produce node.id given))
unfolding generate_ssl_ha_update_message calculate_ssl_ha_message_size write_ssl_preproc_data_record
    write_ssl_ha_message_header
generate-size fs index p0 p1 p2 event node given ha has_node short =
    rw has_node (ground (arith, short))
