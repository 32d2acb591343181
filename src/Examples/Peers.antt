-- ===== src/Examples/Peers.antt =====
-- The registry and the messages of SSL high availability, at concrete inputs.
use in_free_time.Base.{
  ℕ, ◌<◌, ◌≡◌, refl, true, false, none, some, [], ◌∷◌, ◌++◌, arith, ◌==◌, ◌&&◌, if◌then◌else◌,
}
use in_free_time.Ha.{
  Node, Slots, Registration, find_from, free_slot, new_node, register_ssl_ha_funcs,
  unregister_ssl_ha_funcs, max_ssl_ha_funcs,
}
use in_free_time.Ha.Registry.{IsRegistry, lookup, register-refines}
use in_free_time.Ha.Unregister.{unregister-refines}
use in_free_time.Ha.Messages.{
  Ha, Functions, accepted, consume_ssl_ha_message, generate_ssl_ha_update_message, ha_event_update,
}
use in_free_time.Ha.Ended.{Ended, consume_ssl_ha_message-Ended}
use in_free_time.Ha.RoundTrip.{consume-generate}

abbrev node_at : ℕ → ℕ → Node
node_at id mask = record {
  id = id;
  mask = mask;
  preproc_id = 30;
  subcode = id;
  size = 2;
  deletes = true;
  produced = 0;
  consumed = 0;
  deleted = 0;
}

abbrev slots : Slots
slots = some (node_at 0 1) ∷ none ∷ some (node_at 2 4) ∷ []

abbrev registration : Registration
registration = record {
  preproc_id = 30;
  subcode = 1;
  size = 2;
  produces = true;
  consumes = true;
  deletes = false;
}

slots-IsRegistry : IsRegistry slots
slots-IsRegistry = record {
  bounded = omega arith;
  distinct = (refl, (refl, tt));
  placed = (refl, refl, (refl, refl, tt));
}

register-refines_example :
    (slots' : Slots) × (register_ssl_ha_funcs true registration slots
      ≡ some (free_slot slots, slots'))
    × (free_slot slots < max_ssl_ha_funcs)
    × IsRegistry slots'
    × (lookup 30 2 slots' ≡ (
        if 30 == 30 && 2 == 1
        then some (new_node (free_slot slots) registration)
        else lookup 30 2 slots))
unfolding find_from free_slot
register-refines_example =
    register-refines registration slots 30 2 slots-IsRegistry refl refl (omega arith) refl
      (λ e. absurd (omega (arith, e)))

unregister-refines_example :
    IsRegistry (unregister_ssl_ha_funcs 30 0 slots)
    × (lookup 30 2 (unregister_ssl_ha_funcs 30 0 slots)
        ≡ (if 30 == 30 && 2 == 0 then none else lookup 30 2 slots))
unregister-refines_example = unregister-refines 30 0 30 2 slots slots-IsRegistry

-- A peer that produces what it is given, and takes everything
abbrev functions : Functions
functions = record {
  produce = λ id given. given;
  consume = λ id payload. true;
  deletion = λ id payload. true;
}

abbrev peer : Ha
peer = record {
  slots = slots;
  stats = record {
    update_messages_received = 0;
    delete_messages_received = 0;
    update_messages_sent = 0;
    delete_messages_sent = 0;
  };
  delivered = [];
}

consume-generate_example :
    (there' : Ha) × (consume_ssl_ha_message functions
        (generate_ssl_ha_update_message functions 2 ha_event_update
          (1 ∷ 2 ∷ 3 ∷ [])
          (7 ∷ 8 ∷ 9 ∷ [])
          peer).0
        peer
      ≡ accepted there')
    × (there'.delivered
        ≡ [] ++ (record { event = ha_event_update; node = 2; payload = 7 ∷ 8 ∷ 9 ∷ [] } ∷ []))
unfolding find_from
consume-generate_example =
    consume-generate functions functions 2 2 1 2 3 (node_at 2 4) (node_at 2 4) (7 ∷ 8 ∷ 9 ∷ []) peer
      peer refl refl (omega arith) (omega arith) refl

consume_ssl_ha_message-Ended_example :
    Ended 1 (consume_ssl_ha_message functions (1 ∷ 0x82 ∷ 6 ∷ 0 ∷ 9 ∷ 9 ∷ []) peer)
consume_ssl_ha_message-Ended_example =
    consume_ssl_ha_message-Ended functions 1 (0x82 ∷ 6 ∷ 0 ∷ 9 ∷ 9 ∷ []) peer
