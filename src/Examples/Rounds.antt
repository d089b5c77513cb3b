-- ===== src/Examples/Rounds.antt =====
-- The theorems on pings, retries, the handshake and a message from client to client, at concrete inputs.
use actix_mqtt_client.Common.{
  is_some, ℕ, ◌+◌, true, false, [], ◌∷◌, some, none, ◌≡◌, ◌≢◌, refl, arith,
}
use actix_mqtt_client.Consts.{ping_interval}
use actix_mqtt_client.Ids.{next_id, id_of_counter, fetch_add}
use actix_mqtt_client.Mqtt.{IsLawful, QualityOfService}
use actix_mqtt_client.Message.{
  stop_actor, ping_status_actor, send_publish_actor, publish, Connect, PacketMessage,
  PublishPacketStatus, pending_rel, user_error_recipient, user_message_recipient,
  connect_status_actor, pingreq_actor,
}
use actix_mqtt_client.Runtime.{
  effects, response, failed, MailboxError, status_check, ping_connect_check,
}
use actix_mqtt_client.Status.{PacketStatusActor, handle_existence}
use actix_mqtt_client.Status.Map.{contains_key, StatusMap, get}
use actix_mqtt_client.Connect.{connection_status}
use actix_mqtt_client.Ping.{PingreqActor}
use actix_mqtt_client.Ping.Tick.{tick, tick-cases}
use actix_mqtt_client.Publish.Send.{publish_status, publish_id}
use actix_mqtt_client.Client.Start.{Actors, wired}
use actix_mqtt_client.Flight.{run, resume, to_publish}
use actix_mqtt_client.Control.{to_ping, run_control, resume_existence}
use actix_mqtt_client.Ping.{handle_pingreq}
use actix_mqtt_client.Sending.{store_and_send}
use actix_mqtt_client.Publish.Send.{handle_publish, retry_publish}
use actix_mqtt_client.Failure.Reported.{is_preceded, stops_client}
use actix_mqtt_client.Failure.Explained.{is_cause}
use actix_mqtt_client.Failure.Stops.{stopped-explained}
use actix_mqtt_client.Wiring.Activity.{Activity, ControlActivity}
use actix_mqtt_client.Flight.Rounds.{Outcome, rounds}
use actix_mqtt_client.Flight.Unanswered.{unanswered-rounds}
use actix_mqtt_client.Status.Kept.{IsKept}
use actix_mqtt_client.Flight.Settled.{Settles, publish-Settles}
use actix_mqtt_client.Flight.Lost.{Attempt, after_losses, lost-Settles}
use actix_mqtt_client.Flight.Loopback.{delivered, packets_of, publish-receive}
use actix_mqtt_client.Examples.Data.{test_mqtt, accepting, subscribe_sender, reading, Nothing}
use Prim.Native.String.{String}

abbrev actors : Actors
actors = wired user_error_recipient user_message_recipient "c"

abbrev user : Connect
user = record { user_name = none; password = none; keep_alive = some 30 }

-- The server refuses.
abbrev refusal : PacketMessage test_mqtt.ConnackPacket
refusal = record { packet = false; retry_count = 0 }

abbrev pinger : PingreqActor
pinger = record {
  sender = subscribe_sender;
  connect_status_recipient = connect_status_actor;
  interval = ping_interval;
}

abbrev connection : PacketStatusActor Nothing
connection = record {
  packet_status_map = (1, connection_status 1) ∷ [];
  packet_send_status_recipient_option = none;
}

-- The last ping is still in flight.
abbrev unanswered : StatusMap Nothing
unanswered = (0, connection_status 0) ∷ []

tick-cases_example :
    ((tick test_mqtt pinger pingreq_actor connection unanswered).1 ≡ 0)
    × (is_some (get 0 (tick test_mqtt pinger pingreq_actor connection unanswered).0) ≡ false)
unfolding handle_existence contains_key get
tick-cases_example = tick-cases test_mqtt pinger pingreq_actor connection unanswered (refl, tt)

abbrev nothing : StatusMap PublishPacketStatus
nothing = []

pub not_level0 : QualityOfService.level2 ≢ QualityOfService.level0
not_level0 e = cc

unanswered-rounds_example :
    (out : Outcome) × (rounds test_mqtt actors 7 (reading QualityOfService.level2) 5 nothing
      ≡ some out)
    × (out.packets + 0 ≡ 6)
    × (out.errors ≡ 0)
    × ((id : ℕ) → IsKept nothing out.map id)
unanswered-rounds_example =
    unanswered-rounds test_mqtt actors 7 5 (reading QualityOfService.level2) nothing "t" tt refl
      not_level0 (omega arith) (omega arith)

pub lawful : IsLawful test_mqtt
lawful = record {
  topic_name_packet = λ s topic q bytes e. same s topic e;
  qos_packet = λ topic q bytes. refl;
  payload_packet = λ topic q bytes. refl;
  level0_identifier = λ id. refl;
  level1_identifier = λ id. refl;
  level2_identifier = λ id. refl;
  identifier_puback = λ id. refl;
  identifier_pubrec = λ id. refl;
  identifier_pubrel = λ id. refl;
  identifier_pubcomp = λ id. refl;
}
  where
    same : (s topic : String) → test_mqtt.topic_name_new s ≡ some topic → topic ≡ s
    same String.[] topic e = cc
    same (String.◌∷◌ c s) topic e = cc

publish-receive_example :
    delivered test_mqtt actors ((3, publish_status 3 0 pending_rel) ∷ []) (
      packets_of (
        effects
          (accepting PublishPacketStatus)
          5
          (run test_mqtt actors (to_publish (reading QualityOfService.level2)))))
    ≡ record { id = 6; topic_name = "t"; payload = 7 ∷ [] } ∷ []
unfolding get publish_id next_id id_of_counter fetch_add
publish-receive_example =
    publish-receive test_mqtt lawful actors actors 5 (reading QualityOfService.level2) "t"
      ((3, publish_status 3 0 pending_rel) ∷ []) refl (omega arith) (λ e. refl)

-- A message is published, and the timer asks in vain.
publishing :
    (e : MailboxError)
    → Activity test_mqtt "c" (
        effects (accepting PublishPacketStatus) 0 (
          resume test_mqtt actors
            (status_check user_error_recipient stop_actor send_publish_actor
              (publish (retry_publish (reading QualityOfService.level1)))
              is_some)
            (failed e)))
unfolding run handle_publish store_and_send wired next_id id_of_counter fetch_add
publishing e =
    Activity.goes_on
      (Activity.handles (accepting PublishPacketStatus) 5
        (to_publish (reading QualityOfService.level1)))
      [] _ _ _ _ _ refl (accepting PublishPacketStatus) 0 (failed e)

-- A tick, and the connection is up.
pinging : ControlActivity test_mqtt "c" (
    effects (accepting Nothing) 0 (
      resume_existence test_mqtt
        (ping_connect_check ping_status_actor user_error_recipient stop_actor pingreq_actor 0)
        (response true)))
unfolding run_control handle_pingreq wired
pinging =
    ControlActivity.goes_on_existence (ControlActivity.handles (accepting Nothing) 0 (to_ping 0)) []
      _ _ _ _ _ refl (accepting Nothing) 0 (response true)

stopped-explained_example :
    (is_preceded stops_client is_cause (
        effects (accepting PublishPacketStatus) 0 (
          resume test_mqtt actors
            (status_check user_error_recipient stop_actor send_publish_actor
              (publish (retry_publish (reading QualityOfService.level1)))
              is_some)
            (failed MailboxError.closed)))
      ≡ true)
    × (is_preceded stops_client is_cause (
          effects (accepting Nothing) 0 (
            resume_existence test_mqtt
              (ping_connect_check ping_status_actor user_error_recipient stop_actor pingreq_actor 0)
              (response true)))
        ≡ true)
stopped-explained_example =
    stopped-explained test_mqtt "c" _ _ (publishing MailboxError.closed) pinging

publish-Settles_example :
    Settles test_mqtt actors actors 5
      (reading QualityOfService.level2)
      nothing
      ((3, publish_status 3 0 pending_rel) ∷ [])
unfolding get id_of_counter
publish-Settles_example =
    publish-Settles test_mqtt lawful actors actors 5 (reading QualityOfService.level2) "t" nothing
      ((3, publish_status 3 0 pending_rel) ∷ []) tt (refl, tt) refl (omega arith) not_level0 refl

-- Two packets are lost.
lost-Settles_example :
    (s : Attempt) × (after_losses test_mqtt actors 2
        (record { msg = reading QualityOfService.level2; id_counter = 5; map = nothing })
      ≡ some s)
    × (s.msg.topic ≡ "t")
    × (s.msg.payload ≡ 7 ∷ [])
    × (s.msg.retry_count ≡ 2 + 0)
    × Settles test_mqtt actors actors s.id_counter s.msg s.map []
lost-Settles_example =
    lost-Settles test_mqtt lawful actors actors "t" 2 5 (reading QualityOfService.level2) nothing tt
      refl (omega arith) not_level0
