-- ===== src/Network/Published.antt =====
-- src/actors/packets/publish.rs and src/actors/actions/dispatch.rs: where the messages for the users
-- come from.
use actix_mqtt_client.Common.{ℕ, List, Bool, Option, arith, All, String, is_some}
use actix_mqtt_client.Mqtt.{
  Mqtt, VariablePacket, publish_packet, QualityOfService, QoSWithPacketIdentifier,
}
use actix_mqtt_client.Message.{
  Letter, Address, PacketMessage, PacketStatus, PublishPacketStatus, Publish,
  StatusOperationMessage, publish, publish_message, publish_packet_message, variable_packet_message,
}
use actix_mqtt_client.Runtime.{
  Runtime, Trace, Effect, Continuation, Response, response, failed, MailboxError, tried, did,
  notified, resend_after, notify_every, ask_after, status_check, recv_publish_level2,
  check_status_phase_2, effects,
}
use actix_mqtt_client.Sending.{
  SendPacketActor, ResponsePacketActor, handle_response, store_and_send, finish_status_check,
  retry_packet_message,
}
use actix_mqtt_client.Release.{waits_for_rec}
use actix_mqtt_client.Publish.Send.{send_at_level, SendPublishActor}
use actix_mqtt_client.Publish.Receive.{
  RecvPublishActor, handle_publish_packet, finish_level2, finish_phase_2, acknowledge,
}

abbrev T : Type 0
T = PublishPacketStatus

module _ (m : Mqtt) (Published : String → List ℕ → Type 0) where
  abbrev pub IsPublished : m.PublishPacket → Type 0
  IsPublished packet = Published (m.topic_name packet) (m.payload packet)

  abbrev pub PacketIsPublished : VariablePacket m → Type 0
  PacketIsPublished (publish_packet packet) = IsPublished packet
  PacketIsPublished _ = Unit {0}

  -- The topic and the payload that a letter carries, if any, were published.
  abbrev pub LetterIsPublished : Letter m T → Type 0
  LetterIsPublished (publish msg) = Published msg.topic msg.payload
  LetterIsPublished (publish_message msg) = Published msg.topic_name msg.payload
  LetterIsPublished (publish_packet_message msg) = IsPublished msg.packet
  LetterIsPublished (variable_packet_message msg) = PacketIsPublished msg.packet
  LetterIsPublished _ = Unit {0}

  abbrev pub FutureIsPublished : Continuation m T → Type 0
  FutureIsPublished (status_check e s addr retry check) = LetterIsPublished retry
  FutureIsPublished (recv_publish_level2 id addr msg) = IsPublished msg.packet
  FutureIsPublished (check_status_phase_2 id addr msg) = IsPublished msg.packet
  FutureIsPublished _ = Unit {0}

  abbrev pub EffectIsPublished : Effect m T → Type 0
  EffectIsPublished (tried a l o) = LetterIsPublished l
  EffectIsPublished (did a l o) = LetterIsPublished l
  EffectIsPublished (notified a l) = LetterIsPublished l
  EffectIsPublished (resend_after delay a l) = LetterIsPublished l
  EffectIsPublished (notify_every delay a l) = LetterIsPublished l
  EffectIsPublished (ask_after delay a l c) = LetterIsPublished l × FutureIsPublished c
  EffectIsPublished _ = Unit {0}

  abbrev pub TraceIsPublished : Trace m T → Type 0
  TraceIsPublished trace = All EffectIsPublished trace

  module _ (r : Runtime m T) (n : ℕ) where
    pub store_and_send-TraceIsPublished :
        (actor : SendPacketActor) (addr : Address) (msg : StatusOperationMessage T)
        (packet : VariablePacket m) (id : ℕ) (retry : Letter m T)
        (check : Option (PacketStatus T) → Bool)
        → PacketIsPublished packet
        → LetterIsPublished retry
        → TraceIsPublished (effects r n (store_and_send actor addr msg packet id retry check))
    unfolding store_and_send
    store_and_send-TraceIsPublished actor addr msg packet id retry check p again = ground arith

    pub level-TraceIsPublished :
        (actor : SendPublishActor) (addr : Address) (msg : Publish) (packet : VariablePacket m)
        (id : ℕ) (q : QualityOfService)
        → PacketIsPublished packet
        → Published msg.topic msg.payload
        → TraceIsPublished (effects r n (send_at_level m actor addr msg packet id q))
    unfolding send_at_level
    level-TraceIsPublished actor addr msg packet id QualityOfService.level0 p h = ground arith
    level-TraceIsPublished actor addr msg packet id QualityOfService.level1 p h =
        store_and_send-TraceIsPublished actor addr _ packet id _ is_some p h
    level-TraceIsPublished actor addr msg packet id QualityOfService.level2 p h =
        store_and_send-TraceIsPublished actor addr _ packet id _ waits_for_rec p h

    pub finish_level2-TraceIsPublished :
        (actor : RecvPublishActor) (addr : Address) (msg : PacketMessage m.PublishPacket) (id : ℕ)
        (answer : Response (Option (PacketStatus T)))
        → IsPublished msg.packet
        → TraceIsPublished (effects r n (finish_level2 m actor addr msg id answer))
    unfolding finish_level2 acknowledge
    finish_level2-TraceIsPublished actor addr msg id (failed e) h = ground arith
    finish_level2-TraceIsPublished actor addr msg id (response s) h = ground arith

    pub finish_phase_2-TraceIsPublished :
        (actor : RecvPublishActor) (addr : Address) (msg : PacketMessage m.PublishPacket)
        (answer : Response (Option (PacketStatus T)))
        → IsPublished msg.packet
        → TraceIsPublished (effects r n (finish_phase_2 m actor addr msg answer))
    unfolding finish_phase_2
    finish_phase_2-TraceIsPublished actor addr msg (response s) h = ground arith
    finish_phase_2-TraceIsPublished actor addr msg (failed MailboxError.closed) h = ground arith
    finish_phase_2-TraceIsPublished actor addr msg (failed MailboxError.timeout) h = ground arith

    pub packet-TraceIsPublished :
        (actor : RecvPublishActor) (addr : Address) (msg : PacketMessage m.PublishPacket)
        (q : QoSWithPacketIdentifier)
        → IsPublished msg.packet
        → TraceIsPublished (effects r n (handle_publish_packet m actor addr msg q))
    unfolding handle_publish_packet
    packet-TraceIsPublished actor addr msg QoSWithPacketIdentifier.level0 h = ground arith
    packet-TraceIsPublished actor addr msg (QoSWithPacketIdentifier.level1 id) h = ground arith
    packet-TraceIsPublished actor addr msg (QoSWithPacketIdentifier.level2 id) h = ground arith

    pub handle_response-TraceIsPublished :
        {P : Type 0} (get_id : P → ℕ) (letter : PacketMessage P → Letter m T)
        (actor : ResponsePacketActor) (addr : Address) (msg : PacketMessage P)
        → LetterIsPublished (letter (retry_packet_message msg))
        → TraceIsPublished (effects r n (handle_response get_id letter actor addr msg))
    unfolding handle_response
    handle_response-TraceIsPublished get_id letter actor addr msg h = ground arith

    pub finish_status_check-TraceIsPublished :
        (errors stop addr : Address) (retry : Letter m T) (check : Option (PacketStatus T) → Bool)
        (answer : Response (Option (PacketStatus T)))
        → LetterIsPublished retry
        → TraceIsPublished (effects r n (finish_status_check errors stop addr retry check answer))
    unfolding finish_status_check
    finish_status_check-TraceIsPublished errors stop addr retry check (failed e) h = ground arith
    finish_status_check-TraceIsPublished errors stop addr retry check (response s) h = ground arith
