-- ===== src/Flight/Stored.antt =====
-- src/actors/packets/*.rs with src/actors/actions/status.rs: what is stored for a packet in flight.
use actix_mqtt_client.Common.{
  ℕ, ◌≤◌, Bool, false, List, [], Option, none, some, ◌≡◌, refl, arith, All, is_some, dec_le,
  ltb_of_le,
}
use actix_mqtt_client.Consts.{max_retry_count}
use actix_mqtt_client.Mqtt.{Mqtt, QualityOfService, QoSWithPacketIdentifier, VariablePacket}
use actix_mqtt_client.Message.{
  Letter, Address, PacketMessage, PacketStatus, PublishPacketStatus, Publish,
  StatusOperationMessage, puback_message, pubcomp_message, set_packet_status,
}
use actix_mqtt_client.Runtime.{
  Runtime, World, Trace, Effect, Continuation, Response, response, failed, MailboxError,
  recv_publish_level2, check_status_phase_2, status_check, effects, ◌>>=◌,
}
use actix_mqtt_client.Observe.{status_operation_of}
use actix_mqtt_client.Sending.{
  SendPacketActor, ResponsePacketActor, handle_response, store_and_send, finish_status_check,
  handle,
}
use actix_mqtt_client.Sending.Laws.{handle-run}
use actix_mqtt_client.Release.{
  pubrec_impl, pubrel_impl, waits_for_rec, waits_for_rel, handle_pubrec, handle_pubrel,
}
use actix_mqtt_client.Acks.{handle_puback, handle_pubcomp}
use actix_mqtt_client.Publish.Send.{
  handle_publish, send_at_level, send_created, packet_of_topic, SendPublishActor,
}
use actix_mqtt_client.Publish.Receive.{
  RecvPublishActor, receive, handle_publish_packet, finish_level2, finish_phase_2, acknowledge,
}
use actix_mqtt_client.Client.Start.{Actors}
use actix_mqtt_client.Flight.{
  Request, to_publish, got_publish, got_puback, got_pubrec, got_pubrel, got_pubcomp, run, resume,
  Question, question_of,
}
use actix_mqtt_client.Flight.Questions.{is_status_operation, received_by-plain}

-- A status stands under its own identifier, and its count is within the limit.
abbrev pub IsSound : ℕ → PacketStatus PublishPacketStatus → Type 0
IsSound id s = (s.id ≡ id) × (s.retry_count ≤ max_retry_count)

abbrev pub OperationIsSound : Option (StatusOperationMessage PublishPacketStatus) → Type 0
OperationIsSound (some (set_packet_status id s)) = IsSound id s
OperationIsSound _ = Unit {0}

module _ {m : Mqtt} where
  -- A message that a future still has to acknowledge is within the limit, and a message that a check
  -- may put back stores nothing.
  abbrev pub IsWithin : Continuation m PublishPacketStatus → Type 0
  IsWithin (status_check e s addr retry check) = is_status_operation retry ≡ false
  IsWithin (recv_publish_level2 id addr msg) = msg.retry_count ≤ max_retry_count
  IsWithin _ = Unit {0}

  abbrev pub AreWithin : List (Question m) → Type 0
  AreWithin qs = All (λ (q : Question m). IsWithin q.continuation) qs

  pub record EffectIsSound (e : Effect m PublishPacketStatus) : Type 0 where
    pub operation : OperationIsSound (status_operation_of e)
    pub question : AreWithin (question_of e)

abbrev pub TraceIsSound : {m : Mqtt} → Trace m PublishPacketStatus → Type 0
TraceIsSound trace = All EffectIsSound trace

module _ {m : Mqtt} (r : Runtime m PublishPacketStatus) (n : ℕ) where
  pub store_and_send-TraceIsSound :
      (actor : SendPacketActor) (addr : Address) (msg : StatusOperationMessage PublishPacketStatus)
      (packet : VariablePacket m) (id : ℕ) (retry : Letter m PublishPacketStatus)
      (check : Option (PacketStatus PublishPacketStatus) → Bool)
      → is_status_operation retry ≡ false
      → OperationIsSound (some msg)
      → TraceIsSound (effects r n (store_and_send actor addr msg packet id retry check))
  unfolding store_and_send
  store_and_send-TraceIsSound actor addr msg packet id retry check plain sound = ground arith

  level-TraceIsSound :
      (actor : SendPublishActor) (addr : Address) (msg : Publish) (packet : VariablePacket m)
      (id : ℕ) (q : QualityOfService)
      → msg.retry_count ≤ max_retry_count
      → TraceIsSound (effects r n (send_at_level m actor addr msg packet id q))
  unfolding send_at_level
  level-TraceIsSound actor addr msg packet id QualityOfService.level0 within = ground arith
  level-TraceIsSound actor addr msg packet id QualityOfService.level1 within =
      store_and_send-TraceIsSound actor addr _ packet id _ is_some refl (refl, within)
  level-TraceIsSound actor addr msg packet id QualityOfService.level2 within =
      store_and_send-TraceIsSound actor addr _ packet id _ waits_for_rec refl (refl, within)

module _ {m : Mqtt} (r : Runtime m PublishPacketStatus) (n : ℕ) where
  topic-TraceIsSound :
      (actor : SendPublishActor) (addr : Address) (msg : Publish) (t : Option m.TopicName)
      → msg.retry_count ≤ max_retry_count
      → TraceIsSound (
          effects r n
            (packet_of_topic m msg actor.error_recipient t >>= send_created m actor addr msg))
  unfolding packet_of_topic send_created
  topic-TraceIsSound actor addr msg none within = ground arith
  topic-TraceIsSound actor addr msg (some topic) within =
      level-TraceIsSound r _ actor addr msg _ _ msg.qos within

  handle_publish-TraceIsSound :
      (actor : SendPublishActor) (addr : Address) (msg : Publish)
      → TraceIsSound (effects r n (handle_publish m actor addr msg))
  unfolding handle_publish
  handle_publish-TraceIsSound actor addr msg = elim (dec_le msg.retry_count max_retry_count) [
    | no over ↦ ground arith
    | yes within ↦
        rw (ltb_of_le msg.retry_count max_retry_count within)
          (topic-TraceIsSound actor addr msg (m.topic_name_new msg.topic) within)
  ]

  packet-TraceIsSound :
      (actor : RecvPublishActor) (addr : Address) (msg : PacketMessage m.PublishPacket)
      (q : QoSWithPacketIdentifier)
      → TraceIsSound (effects r n (handle_publish_packet m actor addr msg q))
  unfolding handle_publish_packet
  packet-TraceIsSound actor addr msg QoSWithPacketIdentifier.level0 = ground arith
  packet-TraceIsSound actor addr msg (QoSWithPacketIdentifier.level1 id) = ground arith
  packet-TraceIsSound actor addr msg (QoSWithPacketIdentifier.level2 id) = ground arith

  receive-TraceIsSound :
      (actor : RecvPublishActor) (addr : Address) (msg : PacketMessage m.PublishPacket)
      → TraceIsSound (effects r n (receive m actor addr msg))
  unfolding receive
  receive-TraceIsSound actor addr msg = packet-TraceIsSound actor addr msg (m.qos msg.packet)

  handle_response-TraceIsSound :
      {P : Type 0} (get_id : P → ℕ) (letter : PacketMessage P → Letter m PublishPacketStatus)
      (actor : ResponsePacketActor) (addr : Address) (msg : PacketMessage P)
      → TraceIsSound (effects r n (handle_response get_id letter actor addr msg))
  unfolding handle_response
  handle_response-TraceIsSound get_id letter actor addr msg = ground arith

  handle_pubrec-TraceIsSound :
      (actor : SendPacketActor) (addr : Address) (msg : PacketMessage m.PubrecPacket)
      → TraceIsSound (effects r n (handle_pubrec m actor addr msg))
  unfolding handle_pubrec handle
  handle_pubrec-TraceIsSound actor addr msg = elim (dec_le msg.retry_count max_retry_count) [
    | yes within ↦
        rw (handle-run (pubrec_impl m) actor r addr msg _ _ n n refl within)
          (store_and_send-TraceIsSound r n actor addr _ _ _ _ waits_for_rec refl (refl, within))
    | no over ↦ ground arith
  ]

  handle_pubrel-TraceIsSound :
      (actor : SendPacketActor) (addr : Address) (msg : PacketMessage m.PubrelPacket)
      → TraceIsSound (effects r n (handle_pubrel m actor addr msg))
  unfolding handle_pubrel handle
  handle_pubrel-TraceIsSound actor addr msg = elim (dec_le msg.retry_count max_retry_count) [
    | yes within ↦
        rw (handle-run (pubrel_impl m) actor r addr msg _ _ n n refl within)
          (store_and_send-TraceIsSound r n actor addr _ _ _ _ waits_for_rel refl tt)
    | no over ↦ ground arith
  ]

  finish_status_check-TraceIsSound :
      (errors stop addr : Address) (retry : Letter m PublishPacketStatus)
      (check : Option (PacketStatus PublishPacketStatus) → Bool)
      (answer : Response (Option (PacketStatus PublishPacketStatus)))
      → is_status_operation retry ≡ false
      → TraceIsSound (effects r n (finish_status_check errors stop addr retry check answer))
  unfolding finish_status_check
  finish_status_check-TraceIsSound errors stop addr retry check (failed e) plain = ground arith
  finish_status_check-TraceIsSound errors stop addr retry check (response s) plain =
      ground (arith, received_by-plain retry (r [] addr retry) plain)

  acknowledge-TraceIsSound :
      (w : World m PublishPacketStatus) (actor : RecvPublishActor) (addr : Address)
      (msg : PacketMessage m.PublishPacket) (id : ℕ)
      → msg.retry_count ≤ max_retry_count
      → TraceIsSound w.trace
      → TraceIsSound (acknowledge m actor addr msg id r w).1.trace
  unfolding acknowledge
  acknowledge-TraceIsSound w actor addr msg id within before = ground arith

  finish_phase_2-TraceIsSound :
      (actor : RecvPublishActor) (addr : Address) (msg : PacketMessage m.PublishPacket)
      (answer : Response (Option (PacketStatus PublishPacketStatus)))
      → TraceIsSound (effects r n (finish_phase_2 m actor addr msg answer))
  unfolding finish_phase_2
  finish_phase_2-TraceIsSound actor addr msg (response s) = ground arith
  finish_phase_2-TraceIsSound actor addr msg (failed MailboxError.closed) = ground arith
  finish_phase_2-TraceIsSound actor addr msg (failed MailboxError.timeout) = ground arith

  finish_level2-TraceIsSound :
      (actor : RecvPublishActor) (addr : Address) (msg : PacketMessage m.PublishPacket) (id : ℕ)
      (answer : Response (Option (PacketStatus PublishPacketStatus)))
      → msg.retry_count ≤ max_retry_count
      → TraceIsSound (effects r n (finish_level2 m actor addr msg id answer))
  unfolding finish_level2 acknowledge
  finish_level2-TraceIsSound actor addr msg id (failed e) within = ground arith
  finish_level2-TraceIsSound actor addr msg id (response s) within = ground arith

module _ {m : Mqtt} (actors : Actors) (r : Runtime m PublishPacketStatus) (n : ℕ) where
  pub run-TraceIsSound : (request : Request m) → TraceIsSound (effects r n (run m actors request))
  unfolding run handle_puback handle_pubcomp
  run-TraceIsSound (to_publish msg) = handle_publish-TraceIsSound r n _ _ msg
  run-TraceIsSound (got_publish msg) = receive-TraceIsSound r n _ _ msg
  run-TraceIsSound (got_puback msg) =
      handle_response-TraceIsSound r n m.puback_identifier puback_message _ _ msg
  run-TraceIsSound (got_pubrec msg) = handle_pubrec-TraceIsSound r n _ _ msg
  run-TraceIsSound (got_pubrel msg) = handle_pubrel-TraceIsSound r n _ _ msg
  run-TraceIsSound (got_pubcomp msg) =
      handle_response-TraceIsSound r n m.pubcomp_identifier pubcomp_message _ _ msg

  pub resume-TraceIsSound :
      (c : Continuation m PublishPacketStatus)
      (answer : Response (Option (PacketStatus PublishPacketStatus)))
      → IsWithin c
      → TraceIsSound (effects r n (resume m actors c answer))
  unfolding resume
  resume-TraceIsSound (status_check errors stop addr retry check) answer plain =
      finish_status_check-TraceIsSound r n errors stop addr retry check answer plain
  resume-TraceIsSound (recv_publish_level2 id addr msg) answer within =
      finish_level2-TraceIsSound r n _ addr msg id answer within
  resume-TraceIsSound (check_status_phase_2 id addr msg) answer within =
      finish_phase_2-TraceIsSound r n _ addr msg answer
  resume-TraceIsSound _ answer within = tt
