-- ===== src/Examples/Exchanges.antt =====
-- The theorems on receiving and on whole exchanges, at concrete inputs.
use actix_mqtt_client.Common.{[], ◌∷◌, some, none, ◌≡◌, refl}
use actix_mqtt_client.Mqtt.{QoSWithPacketIdentifier}
use actix_mqtt_client.Message.{
  PacketMessage, PublishPacketStatus, pending_ack, pending_rel, recv_publish_actor,
  get_and_remove_packet_status,
}
use actix_mqtt_client.Runtime.{effects, response}
use actix_mqtt_client.Observe.{count, hands_message}
use actix_mqtt_client.Status.{operate}
use actix_mqtt_client.Status.Map.{StatusMap, get}
use actix_mqtt_client.Status.Laws.{map_after}
use actix_mqtt_client.Publish.Send.{publish_status}
use actix_mqtt_client.Publish.Receive.{finish_level2}
use actix_mqtt_client.Proofs.Level2.{level2-known}
use actix_mqtt_client.Client.Start.{Actors}
use actix_mqtt_client.Wiring.{actors_of}
use actix_mqtt_client.Flight.Full.{visits, arrived, visits-arrived}
use actix_mqtt_client.Examples.Data.{test_mqtt, accepting, receiver, incoming}

abbrev T : Type 0
T = PublishPacketStatus

abbrev actors : Actors
actors = actors_of "c"

abbrev at_level1 : PacketMessage test_mqtt.PublishPacket
at_level1 = incoming (QoSWithPacketIdentifier.level1 9)

abbrev at_level2 : PacketMessage test_mqtt.PublishPacket
at_level2 = incoming (QoSWithPacketIdentifier.level2 9)

abbrev empty : StatusMap T
empty = []

free : get 9 empty ≡ none
unfolding get
free = refl

visits-arrived_example :
    visits test_mqtt actors 20 (arrived test_mqtt actors empty at_level2.packet 9 refl free 0)
    ≡ some (arrived test_mqtt actors empty at_level2.packet 9 refl free 20)
visits-arrived_example = visits-arrived test_mqtt actors empty at_level2.packet 9 refl free 20

-- A publish packet of the client itself is in flight under identifier 9.
abbrev in_flight : StatusMap T
in_flight = (9, publish_status 9 0 pending_ack) ∷ []

level2-known_example :
    let (map', status) = operate in_flight (get_and_remove_packet_status 9) in
    let trace =
      effects
        (accepting T)
        0
        (finish_level2 test_mqtt receiver recv_publish_actor at_level2 9 (response status)) in
    (count hands_message trace ≡ 0)
    × (get 9 (map_after trace map') ≡ some (publish_status 9 0 pending_rel))
unfolding get
level2-known_example =
    level2-known test_mqtt (accepting T) 0 in_flight (refl, tt) receiver recv_publish_actor
      at_level2 9 (publish_status 9 0 pending_ack) refl refl

abbrev rec_packet : PacketMessage test_mqtt.PubrecPacket
rec_packet = record { packet = 9; retry_count = 0 }
