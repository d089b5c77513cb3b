-- ===== src/Examples/Wiring.antt =====
-- The theorems on the connection and its wiring, at concrete inputs.
use actix_mqtt_client.Common.{
  ℕ, ◌+◌, Bool, true, false, List, [], ◌∷◌, Option, some, none, ◌≡◌, refl,
}
use actix_mqtt_client.Mqtt.{VariablePacket, puback_packet, pingresp_packet}
use actix_mqtt_client.Message.{
  Address-discrete, PacketMessage, Connect, connect_status_actor, connect_actor, dispatch_actor,
  stop_actor, send_actor, user_error_recipient, user_message_recipient, user_stop_recipient,
  connack_actor, stop_message, error_message, invalid_data,
}
use actix_mqtt_client.Runtime.{World, effects, calm, sent, did, tried}
use actix_mqtt_client.Observe.{count, hands_packet, reports_error, tells_stop, puts_one_back}
use actix_mqtt_client.Status.Map.{StatusMap}
use actix_mqtt_client.Status.Laws.{map_after}
use actix_mqtt_client.Stop.{handle_stop}
use actix_mqtt_client.Stop.Laws.{stops_to}
use actix_mqtt_client.Client.Start.{wired}
use actix_mqtt_client.Client.Shutdown.{started_stop_actor, start-stop}
use actix_mqtt_client.Dispatch.{dispatch}
use actix_mqtt_client.Dispatch.Routes.{attempts, optional, handler_of, dispatch-wired}
use actix_mqtt_client.Connect.{
  ConnectActor, ConnackActor, handle_connect, handle_connack, connection_status,
}
use actix_mqtt_client.Connect.Timeout.{connect_timeout}
use actix_mqtt_client.Control.Rounds.{asks_of, answered}
use actix_mqtt_client.Wiring.{actors_of}
use actix_mqtt_client.Stream.Writing.{output, send_all, send_all-output}
use actix_mqtt_client.Stream.{SendActor, RecvActor}
use actix_mqtt_client.Examples.Data.{Nothing, client, test_mqtt, accepting, crowded}

start-stop_example :
    stops_to user_stop_recipient (
      effects (accepting Nothing) 0 (
        handle_stop test_mqtt Nothing
          (started_stop_actor test_mqtt
            (accepting Nothing)
            0
            client
            user_message_recipient
            user_error_recipient
            (some user_stop_recipient))
          stop_actor))
    ≡ 1 + 0
unfolding Address-discrete
start-stop_example =
    start-stop test_mqtt client user_message_recipient user_error_recipient (accepting Nothing) 0
      (some user_stop_recipient) user_stop_recipient (accepting Nothing) 0

abbrev ping_answer : VariablePacket test_mqtt
ping_answer = pingresp_packet tt

dispatch-wired_example :
    let trace = effects (crowded Nothing) 0 (
      dispatch test_mqtt Nothing
        (wired user_error_recipient user_message_recipient "c").dispatch
        ping_answer) in
    (attempts trace ≡ optional (handler_of ping_answer)) × (count puts_one_back trace ≡ 0)
dispatch-wired_example =
    dispatch-wired test_mqtt Nothing user_error_recipient user_message_recipient "c"
      (crowded Nothing) 0 ping_answer

abbrev connack : ConnackActor
connack = record {
  status_recipient = connect_status_actor;
  error_recipient = user_error_recipient;
  connect_stop_recipient = connect_actor;
  stop_recipient = stop_actor;
}

abbrev connector : ConnectActor
connector = record {
  send_recipient = send_actor;
  status_recipient = connect_status_actor;
  stop_recipient = stop_actor;
  error_recipient = user_error_recipient;
  client_name = "c";
}

abbrev connecting : StatusMap Nothing
connecting = (0, connection_status 0) ∷ []

abbrev answer : Bool → PacketMessage test_mqtt.ConnackPacket
answer b = record { packet = b; retry_count = 0 }

abbrev request : Connect
request = record { user_name = none; password = none; keep_alive = some 30 }

abbrev connecter : ConnackActor
connecter = (actors_of "c").connack

abbrev accepting_answer : PacketMessage test_mqtt.ConnackPacket
accepting_answer = record { packet = true; retry_count = 0 }

connect_timeout_example :
    let trace = effects calm 0 (handle_connect test_mqtt connector connect_actor request) in
    let waiting = map_after trace [] in
    let connected =
      map_after
        (effects calm 0 (handle_connack test_mqtt connecter connack_actor accepting_answer))
        waiting in
    (count hands_packet trace ≡ 1)
    × (count reports_error trace ≡ 0)
    × ((answered (asks_of trace) waiting).1
        ≡ did stop_actor stop_message sent
          ∷ tried user_error_recipient (error_message invalid_data) sent
          ∷ [])
    × ((answered (asks_of trace) connected).1 ≡ did connect_actor stop_message sent ∷ [])
connect_timeout_example =
    connect_timeout test_mqtt connector connect_actor request connecter connack_actor
      accepting_answer [] 0 0 tt refl

abbrev reader : RecvActor
reader = record {
  has_stream = true;
  recipient = dispatch_actor;
  error_recipient = user_error_recipient;
  stop_recipient = stop_actor;
}

abbrev start_world : World test_mqtt Nothing
start_world = record { id_counter = 0; trace = [] }

abbrev items : List (Option (VariablePacket test_mqtt))
items = some (puback_packet 3) ∷ some ping_answer ∷ none ∷ some (puback_packet 4) ∷ []

abbrev writer : SendActor
writer = record {
  has_stream = false;
  has_writer = true;
  error_recipient = user_error_recipient;
  stop_recipient = stop_actor;
}

-- An encoder that fails on everything but a PUBACK, after one byte.
abbrev encoder : VariablePacket test_mqtt → List ℕ × Bool
encoder (puback_packet id) = (64 ∷ 2 ∷ 0 ∷ id ∷ [], true)
encoder _ = (1 ∷ [], false)

abbrev outgoing : VariablePacket test_mqtt → PacketMessage (VariablePacket test_mqtt)
outgoing packet = record { packet = packet; retry_count = 0 }

send_all-output_example :
    let trace =
      (send_all test_mqtt Nothing encoder writer
        (outgoing (puback_packet 3) ∷ outgoing ping_answer ∷ [])
        (accepting Nothing)
        start_world).1.trace in
    (output trace ≡ 64 ∷ 2 ∷ 0 ∷ 3 ∷ 1 ∷ [])
    × (count reports_error trace ≡ 1)
    × (count tells_stop trace ≡ 0)
send_all-output_example =
    send_all-output test_mqtt Nothing encoder writer (accepting Nothing)
      (outgoing (puback_packet 3) ∷ outgoing ping_answer ∷ []) start_world refl
