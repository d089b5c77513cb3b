-- ===== src/Examples/Failures.antt =====
-- The theorems on failures, on the bytes of the connection and on what is never answered, at concrete
-- inputs.
use actix_mqtt_client.Common.{
  ℕ, Bool, true, false, List, [], ◌∷◌, ◌++◌, Option, some, none, ◌≡◌, refl,
}
use actix_mqtt_client.Mqtt.{VariablePacket, puback_packet, QualityOfService}
use actix_mqtt_client.Message.{
  PacketMessage, user_error_recipient, stop_actor, dispatch_actor, PublishPacketStatus,
}
use actix_mqtt_client.Message.{BatchSubscribe, BatchUnsubscribe, subscribe_actor}
use actix_mqtt_client.Message.{puback_message, puback_actor}
use actix_mqtt_client.Retry.{Retrying, Chain}
use actix_mqtt_client.Proofs.Endless.{responding, handle_response-Chain}
use actix_mqtt_client.Runtime.{Trace, effects}
use actix_mqtt_client.Observe.{count, tells_stop}
use actix_mqtt_client.Stream.{SendActor, RecvActor, read_stream}
use actix_mqtt_client.Stream.Writing.{output, send_all}
use actix_mqtt_client.Stream.Reading.{forwarded}
use actix_mqtt_client.Stream.Wire.{parsed, calls, packets, written-read}
use actix_mqtt_client.Flight.{to_publish, run}
use actix_mqtt_client.Subscribe.{subscribe_impl, valid_subscriptions}
use actix_mqtt_client.Unsubscribe.{unsubscribe_impl, valid_topics}
use actix_mqtt_client.Control.Rounds.{rounds}
use actix_mqtt_client.Control.Unanswered.{
  EndsUnanswered, subscribe_laws, unsubscribe_laws, unanswered-EndsUnanswered,
}
use actix_mqtt_client.Control.{ControlRequest, to_connect, run_control}
use actix_mqtt_client.Wiring.{actors_of}
use actix_mqtt_client.Failure.Reported.{IsReported}
use actix_mqtt_client.Failure.Handlers.{handlers-IsReported}
use actix_mqtt_client.Examples.Data.{
  test_mqtt, acker, subscribe_sender, accepting, crowded, reading,
}

abbrev connecting : ControlRequest test_mqtt
connecting = to_connect (record { user_name = none; password = none; keep_alive = none })

handlers-IsReported_example :
    IsReported (
      effects
        (crowded PublishPacketStatus)
        5
        (run test_mqtt (actors_of "c") (to_publish (reading QualityOfService.level2))))
    × IsReported (effects (crowded (Unit {0})) 0 (run_control test_mqtt (actors_of "c") connecting))
handlers-IsReported_example =
    handlers-IsReported "c" (crowded PublishPacketStatus) 5
      (to_publish (reading QualityOfService.level2)) (crowded (Unit {0})) 0 connecting refl

abbrev Nothing : Type 0
Nothing = Unit {0}

-- An encoder and a parser of PUBACK packets only.
abbrev encoder : VariablePacket test_mqtt → List ℕ × Bool
encoder (puback_packet id) = (64 ∷ 2 ∷ 0 ∷ id ∷ [], true)
encoder _ = ([], false)

abbrev parser : List ℕ → Option (VariablePacket test_mqtt × List ℕ)
parser (a ∷ b ∷ c ∷ id ∷ bytes) = some (puback_packet id, bytes)
parser _ = none

parser-encoder :
    (packet : VariablePacket test_mqtt) (bytes : List ℕ)
    → (encoder packet).1 ≡ true
    → parser ((encoder packet).0 ++ bytes) ≡ some (packet, bytes)
parser-encoder (puback_packet id) bytes h = refl
parser-encoder _ bytes h = cc

abbrev writer : SendActor
writer = record {
  has_stream = false;
  has_writer = true;
  error_recipient = user_error_recipient;
  stop_recipient = stop_actor;
}

abbrev reader : RecvActor
reader = record {
  has_stream = true;
  recipient = dispatch_actor;
  error_recipient = user_error_recipient;
  stop_recipient = stop_actor;
}

abbrev outgoing : List (PacketMessage (VariablePacket test_mqtt))
outgoing =
    record { packet = puback_packet 3; retry_count = 0 }
    ∷ record { packet = puback_packet 9; retry_count = 0 }
    ∷ []

-- What the other client does after so many more calls of the parser.
abbrev read : ℕ → Trace test_mqtt Nothing
read more = effects (accepting Nothing) 0 (
    read_stream test_mqtt Nothing reader (
      parsed test_mqtt parser (calls outgoing more) (
        output
          (effects (accepting Nothing) 0 (send_all test_mqtt Nothing encoder writer outgoing)))))

written-read_example :
    (forwarded (read 0) ≡ packets outgoing)
    × (count tells_stop (read 0) ≡ 0)
    × (forwarded (read 1) ≡ packets outgoing)
    × (count tells_stop (read 1) ≡ 2)
written-read_example =
    written-read test_mqtt Nothing encoder parser parser-encoder writer reader (accepting Nothing)
      (accepting Nothing) 0 0 outgoing refl (λ trace p. refl) (refl, (refl, tt)) refl

abbrev sub : BatchSubscribe
sub = record {
  subscriptions = record { topic = "t"; qos = QualityOfService.level1 } ∷ [];
  retry_count = 0;
}

abbrev unsub : BatchUnsubscribe
unsub = record { topics = "t" ∷ "" ∷ []; retry_count = 0 }

unanswered-EndsUnanswered_example :
    EndsUnanswered
      (rounds
        (subscribe_impl test_mqtt)
        (subscribe_laws test_mqtt)
        subscribe_sender
        subscribe_actor
        7
        sub
        5
        [])
      0
      []
    × EndsUnanswered
        (rounds
          (unsubscribe_impl test_mqtt)
          (unsubscribe_laws test_mqtt)
          subscribe_sender
          subscribe_actor
          7
          unsub
          5
          [])
        0
        []
unfolding valid_subscriptions valid_topics
unanswered-EndsUnanswered_example =
    unanswered-EndsUnanswered test_mqtt 5 sub unsub subscribe_sender subscribe_actor [] tt (λ e. cc)
      (λ e. cc) refl refl

abbrev acknowledgement : PacketMessage test_mqtt.PubackPacket
acknowledgement = record { packet = 9; retry_count = 0 }

abbrev endless : Retrying test_mqtt PublishPacketStatus
endless = responding test_mqtt.puback_identifier puback_message acker puback_actor

handle_response-Chain_example :
    (msg : PacketMessage test_mqtt.PubackPacket) × Chain endless msg 7
    × (msg.packet ≡ 9)
    × (msg.retry_count ≡ 7)
handle_response-Chain_example =
    handle_response-Chain {m = test_mqtt} {T = PublishPacketStatus} test_mqtt.puback_identifier
      puback_message acker puback_actor 7 acknowledgement refl
