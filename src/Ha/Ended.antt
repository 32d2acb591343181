-- ===== src/Ha/Ended.antt =====
-- Reading any bytes as a message comes to an end.
use in_free_time.Base.{
  ℕ, zero, suc, ◌+◌, ◌*◌, ◌≤◌, ◌≡◌, Bool, true, false, not, ◌||◌, Option, none, some, [], ◌∷◌,
  Bytes, length, take, drop, length-drop, ltb, ◌==◌, if◌then◌else◌, if-elim, arith,
}
use in_free_time.Ha.{Node, find_from}
use in_free_time.Ha.Messages.{
  Ha, Functions, Reading, refused, accepted, crashed, out_of_fuel, judged, from_le32,
}
use in_free_time.Ha.Messages.{ha_event_update, ha_event_delete}
use in_free_time.Ha.Messages.{
  consume_update, consume_delete, deserialize_ssl_preproc_data, consume_records,
  consume_ssl_ha_message,
}

-- Reading has ended in a code or, if the event is a deletion, in a call of a null pointer.
pub data Ended (event : ℕ) : Reading → Type 0 where
  ended_refused : {ha : Ha} → Ended event (refused ha)
  ended_accepted : {ha : Ha} → Ended event (accepted ha)
  ended_crashed : event ≡ ha_event_delete → Ended event crashed

-- The event has passed the test on it in `ConsumeSSLHAMessage`.
abbrev IsKnown : ℕ → Type 0
IsKnown event = (event == ha_event_update || event == ha_event_delete) ≡ true

judged-Ended : (event : ℕ) (b : Bool) (ha : Ha) → Ended event (judged b ha)
judged-Ended event true ha = ended_accepted
judged-Ended event false ha = ended_refused

deserialize-Ended :
    (fs : Functions) (event p s : ℕ) (payload : Bytes) (ha : Ha)
    → IsKnown event
    → Ended event (deserialize_ssl_preproc_data fs event p s payload ha)
unfolding deserialize_ssl_preproc_data consume_update consume_delete
deserialize-Ended fs event p s payload ha known = found (find_from 0 p s ha.slots)
  where
    found :
        (o : Option (ℕ × Node))
        → Ended event (elim o [
          | none ↦ refused ha
          | some (i, node) ↦
              if ltb (length payload) node.size
              then refused ha
              else if event == ha_event_update
              then consume_update fs i node payload ha
              else consume_delete fs i node payload ha
        ])
    found none = ended_refused
    found (some (i, node)) =
        if-elim (Ended event) (ltb (length payload) node.size) (λ _. ended_refused)
          λ _.
            if-elim (Ended event) (event == ha_event_update)
              (λ _. judged-Ended event (fs.consume node.id payload) _)
              λ other.
                if-elim (Ended event) node.deletes
                  (λ _. judged-Ended event (fs.deletion node.id payload) _)
                  λ _. ended_crashed (ground (arith, other, known))

consume_records-Ended :
    (fuel : ℕ) (fs : Functions) (event : ℕ) (msg : Bytes) (ha : Ha)
    → IsKnown event
    → length msg ≤ fuel
    → Ended event (consume_records fuel fs event msg ha)
unfolding consume_records
consume_records-Ended fuel fs event [] ha known h = ended_accepted
consume_records-Ended zero fs event (c ∷ msg) ha known h = absurd (omega arith)
consume_records-Ended (suc fuel) fs event (c0 ∷ []) ha known h = ended_refused
consume_records-Ended (suc fuel) fs event (c0 ∷ c1 ∷ []) ha known h = ended_refused
consume_records-Ended (suc fuel) fs event (c0 ∷ c1 ∷ c2 ∷ []) ha known h = ended_refused
consume_records-Ended (suc fuel) fs event (c0 ∷ c1 ∷ c2 ∷ c3 ∷ []) ha known h = ended_refused
consume_records-Ended (suc fuel) fs event (c0 ∷ c1 ∷ c2 ∷ c3 ∷ c4 ∷ []) ha known h = ended_refused
consume_records-Ended (suc fuel) fs event (c0 ∷ c1 ∷ c2 ∷ c3 ∷ c4 ∷ c5 ∷ []) ha known h =
    ended_refused
consume_records-Ended (suc fuel) fs event (c0 ∷ c1 ∷ c2 ∷ c3 ∷ c4 ∷ c5 ∷ c6 ∷ []) ha known h =
    ended_refused
consume_records-Ended (suc fuel) fs event (c0 ∷ c1 ∷ c2 ∷ c3 ∷ c4 ∷ c5 ∷ c6 ∷ c7 ∷ []) ha known h =
    ended_refused
consume_records-Ended (suc fuel) fs event (c0 ∷ c1 ∷ c2 ∷ c3 ∷ c4 ∷ c5 ∷ c6 ∷ c7 ∷ c8 ∷ []) ha known
      h =
    ended_refused
consume_records-Ended (suc fuel) fs event (type ∷ p0 ∷ p1 ∷ p2 ∷ l0 ∷ l1 ∷ l2 ∷ l3 ∷ p ∷ s ∷ body)
      ha known h =
    let len = from_le32 l0 l1 l2 l3 in
    let rest : length (drop len body) ≤ fuel = omega (arith, h, length-drop len body) in
    if-elim (Ended event) (not (type == 0) || ltb (length body) len) (λ _. ended_refused)
      λ _.
        onwards (deserialize_ssl_preproc_data fs event p s (take len body) ha)
          (deserialize-Ended fs event p s (take len body) ha known)
          (λ ha'. consume_records fuel fs event (drop len body) ha')
          (λ ha'. consume_records-Ended fuel fs event (drop len body) ha' known rest)
  where
    onwards :
        (r : Reading)
        → Ended event r
        → (next : Ha → Reading) → ((ha' : Ha) → Ended event (next ha'))
        → Ended event (elim r [
          | refused ha' ↦ refused ha'
          | accepted ha' ↦ next ha'
          | crashed ↦ crashed
          | out_of_fuel ↦ out_of_fuel
        ])
    onwards (refused ha') e next k = ended_refused
    onwards (accepted ha') e next k = k ha'
    onwards crashed (ended_crashed n) next k = ended_crashed n
    onwards out_of_fuel e next k = elim e [ ]

-- Reading any bytes as a message comes to an end with a code, and calls no null pointer unless the
-- event in the first byte is a deletion.
pub consume_ssl_ha_message-Ended :
    (fs : Functions) (event : ℕ) (msg : Bytes) (ha : Ha)
    → Ended event (consume_ssl_ha_message fs (event ∷ msg) ha)
unfolding consume_ssl_ha_message
consume_ssl_ha_message-Ended fs event [] ha = ended_refused
consume_ssl_ha_message-Ended fs event (version ∷ []) ha = ended_refused
consume_ssl_ha_message-Ended fs event (version ∷ low ∷ []) ha = ended_refused
consume_ssl_ha_message-Ended fs event (version ∷ low ∷ high ∷ records) ha =
    if-elim (Ended event)
      (not (low + high * 256 == 4 + length records)
        || not (event == ha_event_update || event == ha_event_delete))
      (λ _. ended_refused)
      λ passed.
        consume_records-Ended (length records) fs event records ha (known_event passed)
          (omega arith)
  where
    known_event :
        (not (low + high * 256 == 4 + length records)
            || not (event == ha_event_update || event == ha_event_delete))
          ≡ false
        → IsKnown event
    known_event passed = ground (arith, passed)
