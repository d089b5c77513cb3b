-- ===== src/Publish/Send.antt =====
-- src/actors/packets/publish.rs: `SendPublishActor`.
use actix_mqtt_client.Common.{
  ℕ, List, Option, none, some, ltb, if◌then◌else◌, incr_u16, is_some, String,
}
use actix_mqtt_client.Consts.{max_retry_count}
use actix_mqtt_client.Ids.{next_id}
use actix_mqtt_client.Mqtt.{Mqtt, VariablePacket, publish_packet, QualityOfService}
use actix_mqtt_client.Message.{
  Address, PacketStatus, PublishPacketStatus, pending_ack, pending_rec, Publish, publish,
  set_packet_status, variable_packet_message, invalid_input,
}
use actix_mqtt_client.Runtime.{Act, ◌>>=◌, ◌>>◌, give, skip, try_send}
use actix_mqtt_client.Failure.{send_error}
use actix_mqtt_client.Release.{waits_for_rec}
use actix_mqtt_client.Sending.{
  SendPacketActor, sent_or_report, drop_retry, with_counter, store_and_send,
}

-- `Publish::new`
abbrev pub publish_new : String → QualityOfService → List ℕ → Publish
publish_new topic qos payload = record {
  topic = topic;
  qos = qos;
  payload = payload;
  retry_count = 0;
}

-- `let mut resend_msg = msg.clone(); resend_msg.retry_count += 1;`
abbrev pub retry_publish : Publish → Publish
retry_publish msg = record msg { retry_count = incr_u16 msg.retry_count }

-- `SendPublishActor` has the four recipients of a `SendPacketActor`.
abbrev pub SendPublishActor : Type 0
SendPublishActor = SendPacketActor

-- `if msg.qos == QualityOfService::Level0 { 0 } else { utils::next_id() }`
unfoldable pub publish_id : QualityOfService → ℕ → ℕ × ℕ
publish_id QualityOfService.level0 counter = (0, counter)
publish_id QualityOfService.level1 counter = next_id counter
publish_id QualityOfService.level2 counter = next_id counter

-- The status of a publish packet that waits for `payload`.
abbrev pub publish_status : ℕ → ℕ → PublishPacketStatus → PacketStatus PublishPacketStatus
publish_status id retry_count payload = record {
  id = id;
  retry_count = retry_count;
  payload = payload;
}

module _ (m : Mqtt) where
  unfoldable pub packet_of_topic :
      Publish
      → Address
      → Option m.TopicName
      → Act m PublishPacketStatus (Option (VariablePacket m × ℕ))
  unfolding send_error with_counter publish_id
  packet_of_topic msg error_recipient none = do send_error error_recipient invalid_input; give none
  packet_of_topic msg error_recipient (some topic) = do
    id ← with_counter (publish_id msg.qos)
    give (
        some (
          publish_packet (
              m.publish_packet_new topic (m.qos_with_packet_identifier_new msg.qos id) msg.payload),
          id,
        ))

  unfoldable pub create_packet_and_id_from_message :
      Publish → Address → Act m PublishPacketStatus (Option (VariablePacket m × ℕ))
  unfolding packet_of_topic
  create_packet_and_id_from_message msg error_recipient =
      packet_of_topic msg error_recipient (m.topic_name_new msg.topic)

  -- The `match msg.qos`.
  unfoldable pub send_at_level :
      SendPublishActor
      → Address
      → Publish
      → VariablePacket m
      → ℕ
      → QualityOfService
      → Act m PublishPacketStatus (Unit {0})
  unfolding sent_or_report
  send_at_level actor addr msg packet id QualityOfService.level0 = do
    result ←
        try_send actor.send_recipient
          (variable_packet_message (record { packet = packet; retry_count = 0 }))
    sent_or_report result actor.error_recipient actor.stop_recipient
  send_at_level actor addr msg packet id QualityOfService.level1 =
      store_and_send actor addr
        (set_packet_status id (publish_status id msg.retry_count pending_ack)) packet id
        (publish (retry_publish msg)) is_some
  send_at_level actor addr msg packet id QualityOfService.level2 =
      store_and_send actor addr
        (set_packet_status id (publish_status id msg.retry_count pending_rec)) packet id
        (publish (retry_publish msg)) waits_for_rec

  unfoldable pub send_created :
      SendPublishActor
      → Address
      → Publish
      → Option (VariablePacket m × ℕ)
      → Act m PublishPacketStatus (Unit {0})
  unfolding send_at_level
  send_created actor addr msg none = skip
  send_created actor addr msg (some (packet, id)) = send_at_level actor addr msg packet id msg.qos

  unfoldable pub handle_publish :
      SendPublishActor → Address → Publish → Act m PublishPacketStatus (Unit {0})
  unfolding drop_retry create_packet_and_id_from_message send_created
  handle_publish actor addr msg =
      if ltb max_retry_count msg.retry_count
      then drop_retry actor.status_recipient actor.error_recipient actor.stop_recipient 0
      else (do
        packet_and_id_option ← create_packet_and_id_from_message msg actor.error_recipient
        send_created actor addr msg packet_and_id_option)
