-- ===== src/Connect/Timeout.antt =====
-- src/actors/packets/connect.rs and src/actors/packets/connack.rs with the status actor of the
-- connection: what the timer does that the handler of `Connect` leaves behind.
use actix_mqtt_client.Common.{ℕ, true, [], ◌∷◌, none, ◌≡◌, refl, ◌∙◌}
use actix_mqtt_client.Mqtt.{Mqtt}
use actix_mqtt_client.Message.{
  Address, PacketMessage, Connect, stop_message, error_message, invalid_data, set_packet_status,
  remove_packet_status,
}
use actix_mqtt_client.Runtime.{effects, calm, did, tried, sent}
use actix_mqtt_client.Observe.{count, hands_packet, reports_error}
use actix_mqtt_client.Status.{operate}
use actix_mqtt_client.Status.Map.{StatusMap, HasDistinctKeys, get}
use actix_mqtt_client.Status.Laws.{
  map_after, operate-get, operate-HasDistinctKeys, get-set_self, get-remove_self, take-result,
}
use actix_mqtt_client.Connect.{
  ConnectActor, ConnackActor, handle_connect, handle_connack, finish_connect_check,
  connection_status,
}
use actix_mqtt_client.Connect.Handshake.{accepted-map}
use actix_mqtt_client.Control.{resume_control}
use actix_mqtt_client.Control.Marks.{T}
use actix_mqtt_client.Control.Rounds.{asks_of, answered}

-- Where the mailboxes take what is sent: connecting hands one packet over without an error. If no
-- CONNACK came when the handler's own timer asks, this is reported once, and then the client is told
-- to stop, once; if an accepting CONNACK was handled before, the timer reports nothing, and stops
-- nothing but the connect actor.
pub connect_timeout :
    (m : Mqtt) (actor : ConnectActor) (addr : Address) (msg : Connect) (acker : ConnackActor)
    (acker_addr : Address) (answer : PacketMessage m.ConnackPacket) (map : StatusMap T) (n n' : ℕ)
    → HasDistinctKeys map
    → m.accepted answer.packet ≡ true
    → let trace = effects calm n (handle_connect m actor addr msg) in
      let waiting = map_after trace map in
      let connected =
        map_after (effects calm n' (handle_connack m acker acker_addr answer)) waiting in
      (count hands_packet trace ≡ 1)
      × (count reports_error trace ≡ 0)
      × ((answered (asks_of trace) waiting).1
          ≡ did actor.stop_recipient stop_message sent
            ∷ tried actor.error_recipient (error_message invalid_data) sent
            ∷ [])
      × ((answered (asks_of trace) connected).1 ≡ did addr stop_message sent ∷ [])
unfolding handle_connect handle_connack finish_connect_check resume_control
connect_timeout m actor addr msg acker acker_addr answer map n n' d accepts = (
  refl,
  refl,
  rw (take-result waiting d' 0 ∙ get-set_self map d 0 (connection_status 0)) refl,
  rw (accepted-map m calm n' waiting d' acker acker_addr answer accepts refl refl)
      (rw (take-result connected d_connected 0 ∙ unmarked) refl),
)
  where
    waiting : StatusMap T
    waiting = (operate map (set_packet_status 0 (connection_status 0))).0

    d' : HasDistinctKeys waiting
    d' = operate-HasDistinctKeys map (set_packet_status 0 (connection_status 0)) d

    cleared : StatusMap T
    cleared = (operate waiting (remove_packet_status 0)).0

    d'' : HasDistinctKeys cleared
    d'' = operate-HasDistinctKeys waiting (remove_packet_status 0) d'

    connected : StatusMap T
    connected = (operate cleared (set_packet_status 1 (connection_status 1))).0

    d_connected : HasDistinctKeys connected
    d_connected = operate-HasDistinctKeys cleared (set_packet_status 1 (connection_status 1)) d''

    unmarked : get 0 connected ≡ none
    unmarked =
        operate-get cleared (set_packet_status 1 (connection_status 1)) d'' 0
        ∙ get-remove_self waiting d' 0
