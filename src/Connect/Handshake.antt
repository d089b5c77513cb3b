-- ===== src/Connect/Handshake.antt =====
-- src/actors/packets/connect.rs and src/actors/packets/connack.rs with the status actor of the
-- connection: how the handshake ends.
use actix_mqtt_client.Common.{ℕ, true, false, [], ◌∷◌, none, some, ◌≡◌, refl, ◌∙◌, inl, inr}
use actix_mqtt_client.Mqtt.{Mqtt, connect_packet}
use actix_mqtt_client.Message.{
  Letter, Address, PacketMessage, StatusOperationMessage, Connect, status_operation,
  set_packet_status, get_and_remove_packet_status, remove_packet_status, stop_message,
  variable_packet_message,
}
use actix_mqtt_client.Runtime.{
  Runtime, Trace, SendResult-cases, sent, response, effects, did, tried,
}
use actix_mqtt_client.Observe.{count, reports_error, tells_stop}
use actix_mqtt_client.Status.{operate}
use actix_mqtt_client.Status.Map.{StatusMap, HasDistinctKeys, get, get-remove}
use actix_mqtt_client.Status.Laws.{
  map_after, operate-get, operate-HasDistinctKeys, get-set_self, get-remove_self, take-result,
}
use actix_mqtt_client.Connect.{
  ConnectActor, ConnackActor, handle_connect, handle_connack, finish_connect_check,
  connection_status, connect_packet_of,
}

module _ (m : Mqtt) (r : Runtime m (Unit {0})) (n : ℕ) (map : StatusMap (Unit {0}))
    (d : HasDistinctKeys map) (actor : ConnackActor) (addr : Address)
    (msg : PacketMessage m.ConnackPacket) where
  abbrev pub removal : Letter m (Unit {0})
  removal = status_operation (remove_packet_status 0)

  abbrev pub marking : Letter m (Unit {0})
  marking = status_operation (set_packet_status 1 (connection_status 1))

  pub accepted-map :
      m.accepted msg.packet ≡ true
      → r [] actor.status_recipient removal ≡ sent
      → r (tried actor.status_recipient removal sent ∷ []) actor.status_recipient marking ≡ sent
      → map_after (effects r n (handle_connack m actor addr msg)) map
        ≡ (operate
            (operate map (remove_packet_status 0)).0
            (set_packet_status 1 (connection_status 1))).0
  unfolding handle_connack
  accepted-map yes_code removed marked = rw removed (rw yes_code (rw marked refl))

  accepted_quiet :
      m.accepted msg.packet ≡ true
      → r [] actor.status_recipient removal ≡ sent
      → count reports_error (effects r n (handle_connack m actor addr msg)) ≡ 0
  unfolding handle_connack
  accepted_quiet yes_code removed = rw removed (rw yes_code refl)

  -- If the status actor takes both messages of the handler, a CONNACK that accepts marks the client
  -- as connected and no longer connecting, without an error; should the connect timer still fire,
  -- it stops nothing but the connect actor.
  pub handle_connack-accepted :
      (error_recipient stop_recipient connect_addr : Address) (r' : Runtime m (Unit {0})) (n' : ℕ)
      → m.accepted msg.packet ≡ true
      → r [] actor.status_recipient removal ≡ sent
      → r (tried actor.status_recipient removal sent ∷ []) actor.status_recipient marking ≡ sent
      → let trace = effects r n (handle_connack m actor addr msg) in
        let map' = map_after trace map in
        (get 1 map' ≡ some (connection_status 1))
        × (get 0 map' ≡ none)
        × (count reports_error trace ≡ 0)
        × (effects r' n' (
              finish_connect_check m error_recipient stop_recipient connect_addr
                (response (operate map' (get_and_remove_packet_status 0)).1))
            ≡ did connect_addr stop_message (r' [] connect_addr stop_message) ∷ [])
  unfolding finish_connect_check
  handle_connack-accepted errors stop connect_addr r' n' yes_code removed marked =
      rw (accepted-map yes_code removed marked) (
        get-set_self cleared d' 1 _,
        unmarked,
        accepted_quiet yes_code removed,
        rw (take-result connected d'' 0 ∙ unmarked) refl,
      )
    where
      cleared : StatusMap (Unit {0})
      cleared = (operate map (remove_packet_status 0)).0

      d' : HasDistinctKeys cleared
      d' = operate-HasDistinctKeys map (remove_packet_status 0) d

      connected : StatusMap (Unit {0})
      connected = (operate cleared (set_packet_status 1 (connection_status 1))).0

      d'' : HasDistinctKeys connected
      d'' = operate-HasDistinctKeys cleared (set_packet_status 1 (connection_status 1)) d'

      unmarked : get 0 connected ≡ none
      unmarked =
          operate-get cleared (set_packet_status 1 (connection_status 1)) d' 0
          ∙ get-remove_self map d 0

  -- If the status actor takes the removal, a CONNACK that refuses does not mark the client as
  -- connected, is reported once, and tells the client to stop, once.
  pub handle_connack-refused :
      m.accepted msg.packet ≡ false
      → r [] actor.status_recipient removal ≡ sent
      → let trace = effects r n (handle_connack m actor addr msg) in
        (get 1 (map_after trace map) ≡ get 1 map)
        × (count reports_error trace ≡ 1)
        × (count tells_stop trace ≡ 1)
  unfolding handle_connack operate
  handle_connack-refused no_code removed =
      rw removed (rw no_code (get-remove 1 0 map d, refl, refl))

-- Connecting leaves its status in the map, whatever the sender's mailbox answers.
pub connecting-map :
    (m : Mqtt) (r : Runtime m (Unit {0})) (n : ℕ) (map : StatusMap (Unit {0}))
    (actor : ConnectActor) (addr : Address) (msg : Connect)
    → let connecting : StatusOperationMessage (Unit {0}) =
        set_packet_status 0 (connection_status 0) in
      r [] actor.status_recipient (status_operation connecting) ≡ sent
      → map_after (effects r n (handle_connect m actor addr msg)) map ≡ (operate map connecting).0
unfolding handle_connect
connecting-map m r n map actor addr msg stored =
    rw stored (elim (SendResult-cases (r earlier actor.send_recipient packet_letter)) [
      | inl e ↦ rw e refl
      | inr (inl e) ↦ rw e refl
      | inr (inr e) ↦ rw e refl
    ])
  where
    earlier : Trace m (Unit {0})
    earlier =
        did actor.status_recipient (status_operation (set_packet_status 0 (connection_status 0)))
          sent
        ∷ []

    packet_letter : Letter m (Unit {0})
    packet_letter = variable_packet_message (record {
      packet = connect_packet (connect_packet_of m actor.client_name msg);
      retry_count = 0;
    })
