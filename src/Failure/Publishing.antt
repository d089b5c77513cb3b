-- ===== src/Failure/Publishing.antt =====
-- src/actors/packets/{publish,puback,pubrec,pubrel,pubcomp}.rs on the actors of src/client.rs: their
-- handlers report what fails.
use actix_mqtt_client.Common.{
  refl, ℕ, Option, some, none, ltb, is_some, arith, inl, inr, Bool-cases, String,
}
use actix_mqtt_client.Consts.{max_retry_count}
use actix_mqtt_client.Mqtt.{Mqtt, VariablePacket, QualityOfService, QoSWithPacketIdentifier}
use actix_mqtt_client.Message.{
  Publish, PacketMessage, PublishPacketStatus, user_error_recipient, user_message_recipient,
  publish_status_actor, send_publish_actor, recv_publish_actor, puback_actor, pubrec_actor,
  pubrel_actor, pubcomp_actor, puback_message, pubcomp_message,
}
use actix_mqtt_client.Runtime.{Runtime, effects, ◌>>=◌}
use actix_mqtt_client.Release.{
  pubrec_impl, pubrel_impl, handle_pubrec, handle_pubrel, waits_for_rec,
}
use actix_mqtt_client.Acks.{handle_puback, handle_pubcomp}
use actix_mqtt_client.Publish.Send.{handle_publish, packet_of_topic, send_created, send_at_level}
use actix_mqtt_client.Publish.Receive.{receive, handle_publish_packet, receive_level1}
use actix_mqtt_client.Client.Start.{Actors, wired, send_packet_actor}
use actix_mqtt_client.Flight.{
  Request, to_publish, got_publish, got_puback, got_pubrec, got_pubrel, got_pubcomp, run,
}
use actix_mqtt_client.Failure.Reported.{IsReported}
use actix_mqtt_client.Failure.Sending.{
  store_and_send-IsReported, drop_retry-IsReported, handle-IsReported, handle_response-IsReported,
}

abbrev T : Type 0
T = PublishPacketStatus

module _ {m : Mqtt} (r : Runtime m T) where
  level-IsReported :
      (n : ℕ) (msg : Publish) (packet : VariablePacket m) (id : ℕ) (q : QualityOfService)
      → IsReported (
          effects r n (
            send_at_level m
              (send_packet_actor user_error_recipient publish_status_actor)
              send_publish_actor
              msg
              packet
              id
              q))
  unfolding send_at_level
  level-IsReported n msg packet id QualityOfService.level0 = ground arith
  level-IsReported n msg packet id QualityOfService.level1 =
      store_and_send-IsReported publish_status_actor send_publish_actor refl r n _ packet id _
        is_some
  level-IsReported n msg packet id QualityOfService.level2 =
      store_and_send-IsReported publish_status_actor send_publish_actor refl r n _ packet id _
        waits_for_rec

  topic-IsReported :
      (n : ℕ) (msg : Publish) (t : Option m.TopicName)
      → IsReported (
          effects r n (
            packet_of_topic m msg user_error_recipient t
            >>= send_created m
                (send_packet_actor user_error_recipient publish_status_actor)
                send_publish_actor
                msg))
  unfolding packet_of_topic send_created
  topic-IsReported n msg none = ground arith
  topic-IsReported n msg (some topic) = level-IsReported _ msg _ _ msg.qos

  handle_publish-IsReported :
      (n : ℕ) (msg : Publish)
      → IsReported (
          effects r n (
            handle_publish m
              (send_packet_actor user_error_recipient publish_status_actor)
              send_publish_actor
              msg))
  unfolding handle_publish
  handle_publish-IsReported n msg = elim (Bool-cases (ltb max_retry_count msg.retry_count)) [
    | inl over ↦ rw over (drop_retry-IsReported publish_status_actor send_publish_actor refl r n 0)
    | inr within ↦ rw within (topic-IsReported n msg (m.topic_name_new msg.topic))
  ]

module _ {m : Mqtt} (name : String) (r : Runtime m T) (n : ℕ) where
  abbrev actors : Actors
  actors = wired user_error_recipient user_message_recipient name

  packet-IsReported :
      (msg : PacketMessage m.PublishPacket) (q : QoSWithPacketIdentifier)
      → IsReported
          (effects r n (handle_publish_packet m actors.recv_publish recv_publish_actor msg q))
  unfolding handle_publish_packet receive_level1 wired
  packet-IsReported msg QoSWithPacketIdentifier.level0 = ground arith
  packet-IsReported msg (QoSWithPacketIdentifier.level1 id) = ground arith
  packet-IsReported msg (QoSWithPacketIdentifier.level2 id) = ground arith

  pub run-IsReported : (request : Request m) → IsReported (effects r n (run m actors request))
  unfolding run wired receive handle_puback handle_pubrec handle_pubrel handle_pubcomp
  run-IsReported (to_publish msg) = handle_publish-IsReported r n msg
  run-IsReported (got_publish msg) = packet-IsReported msg (m.qos msg.packet)
  run-IsReported (got_puback msg) =
      handle_response-IsReported publish_status_actor puback_actor refl r n _ puback_message msg
  run-IsReported (got_pubrec msg) =
      handle-IsReported publish_status_actor pubrec_actor refl (pubrec_impl m) r n msg
  run-IsReported (got_pubrel msg) =
      handle-IsReported publish_status_actor pubrel_actor refl (pubrel_impl m) r n msg
  run-IsReported (got_pubcomp msg) =
      handle_response-IsReported publish_status_actor pubcomp_actor refl r n _ pubcomp_message msg
