-- ===== src/Client/Connected.antt =====
-- src/client.rs with src/actors/packets/connect.rs, src/actors/packets/connack.rs and the status actor
-- of the connection: what `is_connected` tells the user.
use actix_mqtt_client.Common.{
  ℕ, Bool, false, [], ◌∷◌, none, is_some, ◌≡◌, sym, ◌∙◌, ap, inl, inr, Bool-cases,
}
use actix_mqtt_client.Mqtt.{Mqtt}
use actix_mqtt_client.Message.{
  Address, PacketMessage, Connect, status_operation, status_existence, set_packet_status,
  remove_packet_status, connect_actor, connack_actor, connect_status_actor, stop_actor,
}
use actix_mqtt_client.Runtime.{Runtime, MailboxError, response, failed, sent, tried, effects}
use actix_mqtt_client.Status.{PacketStatusActor, handle_existence, operate}
use actix_mqtt_client.Status.Map.{StatusMap, HasDistinctKeys, get, insert, contains_key-get}
use actix_mqtt_client.Status.Laws.{map_after, map_after-HasDistinctKeys}
use actix_mqtt_client.Connect.{handle_connect, handle_connack, connection_status}
use actix_mqtt_client.Connect.Handshake.{
  connecting-map, handle_connack-accepted, handle_connack-refused,
}
use actix_mqtt_client.Client.{MqttClient, IoResult, Post, ok, is_connected}
use actix_mqtt_client.Client.Start.{Actors, wired, with_addresses}

-- The mailbox of the status actor of the connection answers a query with what the actor finds; the
-- other actors do not answer this one.
abbrev pub status_answers : {m : Mqtt} → PacketStatusActor (Unit {0}) → Post m Bool
status_answers actor connect_status_actor (status_existence id) =
    response (handle_existence actor id)
status_answers actor a l = failed MailboxError.closed

-- `is_connected` on a started client, where `map` is the map of that status actor.
abbrev pub connected_now :
    Mqtt → MqttClient → PacketStatusActor (Unit {0}) → StatusMap (Unit {0}) → IoResult Bool
connected_now m client actor map =
    is_connected m (status_answers (record actor { packet_status_map = map }))
      (with_addresses client).conn_status_addr

pub connected_now_lem :
    (m : Mqtt) (client : MqttClient) (actor : PacketStatusActor (Unit {0}))
    (map : StatusMap (Unit {0}))
    → connected_now m client actor map ≡ ok (is_some (get 1 map))
unfolding is_connected handle_existence
connected_now_lem m client actor map = ap ok (contains_key-get 1 map)

module _ (m : Mqtt) (client : MqttClient) (errors messages : Address) (r r' : Runtime m (Unit {0}))
    (n n' : ℕ) (msg : Connect) (answer : PacketMessage m.ConnackPacket) where
  abbrev actors : Actors
  actors = wired errors messages client.client_name

  -- The map after the handler of `Connect`, and after that of the CONNACK.
  abbrev pub connecting : StatusMap (Unit {0})
  connecting =
      map_after (effects r n (handle_connect m actors.connect connect_actor msg))
        actors.connect_status.packet_status_map

  abbrev pub connected : StatusMap (Unit {0})
  connected =
      map_after (effects r' n' (handle_connack m actors.connack connack_actor answer)) connecting

  -- On a client as `start_actors` wires it, where the status actor of the connection takes what the two
  -- handlers send it: after `connect`, the user is told that there is no connection; after the CONNACK,
  -- that there is one exactly if the server accepted.
  pub is_connected-accepted :
      r [] connect_status_actor (status_operation (set_packet_status 0 (connection_status 0)))
        ≡ sent
      → r' [] connect_status_actor (status_operation (remove_packet_status 0)) ≡ sent
      → r'
          (tried connect_status_actor (status_operation (remove_packet_status 0)) sent ∷ [])
          connect_status_actor
          (status_operation (set_packet_status 1 (connection_status 1)))
        ≡ sent
      → (connected_now m client actors.connect_status connecting ≡ ok false)
        × (connected_now m client actors.connect_status connected ≡ ok (m.accepted answer.packet))
  unfolding wired operate get insert
  is_connected-accepted stored removed marked = (
    connected_now_lem m client actors.connect_status connecting ∙ ap (λ o. ok (is_some o)) none_yet,
    connected_now_lem m client actors.connect_status connected ∙ answered,
  )
    where
      none_yet : get 1 connecting ≡ none
      none_yet = ap (get 1) (connecting-map m r n [] actors.connect connect_actor msg stored)

      d : HasDistinctKeys connecting
      d =
          map_after-HasDistinctKeys
            (effects r n (handle_connect m actors.connect connect_actor msg)) [] tt

      answered : ok (is_some (get 1 connected)) ≡ ok (m.accepted answer.packet)
      answered = elim (Bool-cases (m.accepted answer.packet)) [
        | inl taken ↦
            ap (λ o. ok (is_some o))
              (handle_connack-accepted m r' n' connecting d actors.connack connack_actor answer
                errors stop_actor connect_actor r' n' taken removed marked).0
            ∙ ap ok (sym taken)
        | inr refused_code ↦
            ap (λ o. ok (is_some o))
              ((handle_connack-refused m r' n' connecting d actors.connack connack_actor answer
                  refused_code removed).0
                ∙ none_yet)
            ∙ ap ok (sym refused_code)
      ]
