-- ===== src/Examples/Networks.antt =====
-- The theorems on systems of actors, at concrete inputs: a message at QoS 1 from
-- one client to the user of another, and its acknowledgement; one at QoS 2 of which two are lost; and a connection.
use actix_mqtt_client.Common.{
  ℕ, Bool, List, [], ◌∷◌, some, none, true, false, ◌≡◌, refl, String, arith,
}
use actix_mqtt_client.Mqtt.{
  puback_packet, VariablePacket, QualityOfService, QoSWithPacketIdentifier,
}
use actix_mqtt_client.Message.{
  send_actor, PublishPacketStatus, user_error_recipient, user_message_recipient,
}
use actix_mqtt_client.Runtime.{Trace, effects, sent}
use actix_mqtt_client.Ids.{next_id, id_of_counter}
use actix_mqtt_client.Sending.{store_and_send}
use actix_mqtt_client.Dispatch.{dispatch}
use actix_mqtt_client.Publish.Send.{handle_publish}
use actix_mqtt_client.Publish.Receive.{receive, handle_publish_packet, receive_level1}
use actix_mqtt_client.Client.Start.{Actors, wired}
use actix_mqtt_client.Flight.{to_publish, got_publish, run}
use actix_mqtt_client.Status.Map.{StatusMap, get}
use actix_mqtt_client.Flight.Exchange.{Peer}
use actix_mqtt_client.Flight.Settled.{Settles}
use actix_mqtt_client.Flight.Repeated.{Repeat, given, after_lost_answers, lost_answers-Settles}
use actix_mqtt_client.Connect.{handle_connack}
use actix_mqtt_client.Client.{ok}
use actix_mqtt_client.Client.Connected.{connected_now}
use actix_mqtt_client.Wiring.{actors_of}
use actix_mqtt_client.Control.{ControlRequest, to_connect, got_connack, run_control}
use actix_mqtt_client.Control.Marks.{map_at}
use actix_mqtt_client.Control.Connection.{Connection, run_trace}
use actix_mqtt_client.Control.Connected.{connected-accepted}
use actix_mqtt_client.Network.{Network}
use actix_mqtt_client.Network.Integrity.{received-published}
use actix_mqtt_client.Network.Acknowledged.{acknowledged-published}
use actix_mqtt_client.Network.Causes.{IsPublishedAt}
use actix_mqtt_client.Examples.Rounds.{lawful, not_level0}
use actix_mqtt_client.Examples.Data.{test_mqtt, client, accepting, reading, incoming}

abbrev T : Type 0
T = PublishPacketStatus

abbrev actors : Actors
actors = wired user_error_recipient user_message_recipient "c"

-- The user publishes the message of `reading`, and nothing else.
abbrev Published : String → List ℕ → Type 0
Published topic payload = (topic ≡ "t") × (payload ≡ 7 ∷ [])

abbrev published_trace : Trace test_mqtt T
published_trace =
    effects (accepting T) 4 (run test_mqtt actors (to_publish (reading QualityOfService.level1)))

abbrev dispatched_trace : Trace test_mqtt T
dispatched_trace = effects (accepting T) 4 (
    dispatch test_mqtt T actors.dispatch
      (VariablePacket.publish_packet ("t", QoSWithPacketIdentifier.level1 5, 7 ∷ [])))

abbrev received_trace : Trace test_mqtt T
received_trace =
    effects (accepting T) 4
      (run test_mqtt actors (got_publish (incoming (QoSWithPacketIdentifier.level1 5))))

published : Network test_mqtt Published published_trace
published = Network.publishes actors (accepting T) 4 (reading QualityOfService.level1) (refl, refl)

dispatched : Network test_mqtt Published dispatched_trace
unfolding run handle_publish store_and_send next_id id_of_counter
dispatched = Network.dispatches published (_ ∷ []) (_ ∷ []) _ _ refl refl actors (accepting T) 4

received : Network test_mqtt Published received_trace
unfolding dispatch
received =
    Network.handles dispatched [] [] _ (got_publish (incoming (QoSWithPacketIdentifier.level1 5)))
      refl refl actors (accepting T) 4

received-published_example : Published "t" (7 ∷ [])
unfolding run receive handle_publish_packet receive_level1 wired
received-published_example =
    received-published test_mqtt lawful Published [] _ user_message_recipient
      (record { id = 5; topic_name = "t"; payload = 7 ∷ [] }) sent received refl

acknowledged-published_example :
    IsPublishedAt test_mqtt Published (QoSWithPacketIdentifier.level1 5)
unfolding run receive handle_publish_packet receive_level1 wired
acknowledged-published_example =
    acknowledged-published test_mqtt lawful Published (_ ∷ []) _ send_actor (puback_packet 5) 0 sent
      (QoSWithPacketIdentifier.level1 5) received refl refl

abbrev other_client : Peer test_mqtt
other_client = record { map = []; messages = []; timers = [] }

lost_answers-Settles_example :
    (s : Repeat test_mqtt) × (after_lost_answers test_mqtt actors actors 2 (record {
      attempt = record { msg = reading QualityOfService.level2; id_counter = 5; map = [] };
      other = other_client;
    })
      ≡ some s)
    × (s.other.messages ≡ given 2 5 (reading QualityOfService.level2) [])
    × (s.attempt.msg.topic ≡ "t")
    × (s.attempt.msg.payload ≡ 7 ∷ [])
    × Settles test_mqtt actors actors s.attempt.id_counter s.attempt.msg s.attempt.map s.other.map
unfolding get
lost_answers-Settles_example =
    lost_answers-Settles test_mqtt lawful actors actors "t" 2 5 (reading QualityOfService.level2) []
      other_client tt tt refl (omega arith) not_level0 (omega arith) (λ i h. refl)

abbrev U : Type 0
U = Unit {0}

-- The user connects, the server accepts, and then refuses.
abbrev connecting : ControlRequest test_mqtt
connecting = to_connect (record { user_name = none; password = none; keep_alive = none })

abbrev connack : Bool → ControlRequest test_mqtt
connack code = got_connack (record { packet = code; retry_count = 0 })

abbrev connect_requests : List (ControlRequest test_mqtt)
connect_requests = connack false ∷ connack true ∷ connecting ∷ []

abbrev trace_of : ControlRequest test_mqtt → Trace test_mqtt U
trace_of request = run_trace test_mqtt "c" (accepting U) 0 request

abbrev maps : List (ControlRequest test_mqtt) → StatusMap U
maps [] = []
maps (request ∷ requests) = map_at (trace_of request) (maps requests)

abbrev traces : List (ControlRequest test_mqtt) → List (Trace test_mqtt U)
traces [] = []
traces (request ∷ requests) = trace_of request ∷ traces requests

connection : Connection test_mqtt "c" true (maps connect_requests) (traces connect_requests)
unfolding run_control handle_connack wired
connection =
    Connection.handles
      (Connection.handles (Connection.handles Connection.starts (accepting U) 0 connecting)
        (accepting U) 0 (connack true))
      (accepting U) 0 (connack false)

connected-accepted_example :
    connected_now test_mqtt client (actors_of "c").connect_status (maps connect_requests) ≡ ok true
connected-accepted_example = connected-accepted client connection
