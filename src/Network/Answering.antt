-- ===== src/Network/Answering.antt =====
-- src/actors/packets/{publish,puback,pubrec,pubrel,pubcomp}.rs: which packet an acknowledgement
-- answers.
use actix_mqtt_client.Common.{ℕ, Bool, Option, none, some, arith, All, is_some}
use actix_mqtt_client.Mqtt.{
  Mqtt, IsLawful, VariablePacket, puback_packet, pubrec_packet, pubrel_packet, pubcomp_packet,
  QualityOfService, QoSWithPacketIdentifier,
}
use actix_mqtt_client.Message.{
  Letter, Address, PacketMessage, PacketStatus, PublishPacketStatus, Publish,
  StatusOperationMessage, publish_packet_message, puback_message, pubrec_message, pubrel_message,
  pubcomp_message, variable_packet_message,
}
use actix_mqtt_client.Runtime.{
  Runtime, Trace, Effect, Continuation, Response, response, failed, MailboxError, tried, did,
  notified, resend_after, notify_every, ask_after, status_check, recv_publish_level2,
  check_status_phase_2, effects,
}
use actix_mqtt_client.Sending.{
  SendPacketActor, ResponsePacketActor, handle_response, store_and_send, finish_status_check,
  retry_packet_message,
}
use actix_mqtt_client.Release.{waits_for_rec}
use actix_mqtt_client.Publish.Send.{send_at_level, SendPublishActor}
use actix_mqtt_client.Publish.Receive.{
  RecvPublishActor, handle_publish_packet, finish_level2, finish_phase_2, acknowledge,
}

abbrev T : Type 0
T = PublishPacketStatus

module _ (m : Mqtt) where
  -- The level and the identifier of the publish packet that a packet answers, if it answers one.
  abbrev pub answers : VariablePacket m → Option QoSWithPacketIdentifier
  answers (puback_packet p) = some (QoSWithPacketIdentifier.level1 (m.puback_identifier p))
  answers (pubrec_packet p) = some (QoSWithPacketIdentifier.level2 (m.pubrec_identifier p))
  answers (pubrel_packet p) = some (QoSWithPacketIdentifier.level2 (m.pubrel_identifier p))
  answers (pubcomp_packet p) = some (QoSWithPacketIdentifier.level2 (m.pubcomp_identifier p))
  answers _ = none

-- `Handed` holds of publish packets, and `Known` of their levels and identifiers.
module _ (m : Mqtt) (Handed : m.PublishPacket → Type 0)
    (Known : QoSWithPacketIdentifier → Type 0) where
  abbrev pub IsKnown : Option QoSWithPacketIdentifier → Type 0
  IsKnown none = Unit {0}
  IsKnown (some q) = Known q

  -- A packet answers a known one, and a received publish packet was handed over.
  abbrev pub LetterIsAnswer : Letter m T → Type 0
  LetterIsAnswer (publish_packet_message msg) = Handed msg.packet
  LetterIsAnswer (variable_packet_message msg) = IsKnown (answers m msg.packet)
  LetterIsAnswer (puback_message msg) = IsKnown (answers m (puback_packet msg.packet))
  LetterIsAnswer (pubrec_message msg) = IsKnown (answers m (pubrec_packet msg.packet))
  LetterIsAnswer (pubrel_message msg) = IsKnown (answers m (pubrel_packet msg.packet))
  LetterIsAnswer (pubcomp_message msg) = IsKnown (answers m (pubcomp_packet msg.packet))
  LetterIsAnswer _ = Unit {0}

  abbrev pub FutureIsAnswer : Continuation m T → Type 0
  FutureIsAnswer (status_check e s addr retry check) = LetterIsAnswer retry
  FutureIsAnswer (recv_publish_level2 id addr msg) =
      Handed msg.packet × Known (QoSWithPacketIdentifier.level2 id)
  FutureIsAnswer (check_status_phase_2 id addr msg) = Handed msg.packet
  FutureIsAnswer _ = Unit {0}

  abbrev pub EffectIsAnswer : Effect m T → Type 0
  EffectIsAnswer (tried a l o) = LetterIsAnswer l
  EffectIsAnswer (did a l o) = LetterIsAnswer l
  EffectIsAnswer (notified a l) = LetterIsAnswer l
  EffectIsAnswer (resend_after delay a l) = LetterIsAnswer l
  EffectIsAnswer (notify_every delay a l) = LetterIsAnswer l
  EffectIsAnswer (ask_after delay a l c) = LetterIsAnswer l × FutureIsAnswer c
  EffectIsAnswer _ = Unit {0}

  abbrev pub TraceIsAnswer : Trace m T → Type 0
  TraceIsAnswer trace = All EffectIsAnswer trace

  module _ (lawful : IsLawful m) (r : Runtime m T) (n : ℕ) where
    pub store_and_send-TraceIsAnswer :
        (actor : SendPacketActor) (addr : Address) (msg : StatusOperationMessage T)
        (packet : VariablePacket m) (id : ℕ) (retry : Letter m T)
        (check : Option (PacketStatus T) → Bool)
        → IsKnown (answers m packet)
        → LetterIsAnswer retry
        → TraceIsAnswer (effects r n (store_and_send actor addr msg packet id retry check))
    unfolding store_and_send
    store_and_send-TraceIsAnswer actor addr msg packet id retry check p again = ground arith

    pub level-TraceIsAnswer :
        (actor : SendPublishActor) (addr : Address) (msg : Publish) (packet : VariablePacket m)
        (id : ℕ) (q : QualityOfService)
        → IsKnown (answers m packet)
        → TraceIsAnswer (effects r n (send_at_level m actor addr msg packet id q))
    unfolding send_at_level
    level-TraceIsAnswer actor addr msg packet id QualityOfService.level0 p = ground arith
    level-TraceIsAnswer actor addr msg packet id QualityOfService.level1 p =
        store_and_send-TraceIsAnswer actor addr _ packet id _ is_some p tt
    level-TraceIsAnswer actor addr msg packet id QualityOfService.level2 p =
        store_and_send-TraceIsAnswer actor addr _ packet id _ waits_for_rec p tt

    pub finish_level2-TraceIsAnswer :
        (actor : RecvPublishActor) (addr : Address) (msg : PacketMessage m.PublishPacket) (id : ℕ)
        (answer : Response (Option (PacketStatus T)))
        → Handed msg.packet
        → Known (QoSWithPacketIdentifier.level2 id)
        → TraceIsAnswer (effects r n (finish_level2 m actor addr msg id answer))
    unfolding finish_level2 acknowledge
    finish_level2-TraceIsAnswer actor addr msg id (failed e) h k = ground arith
    finish_level2-TraceIsAnswer actor addr msg id (response s) h k =
        ground (arith, lawful.identifier_pubrec id)

    pub finish_phase_2-TraceIsAnswer :
        (actor : RecvPublishActor) (addr : Address) (msg : PacketMessage m.PublishPacket)
        (answer : Response (Option (PacketStatus T)))
        → Handed msg.packet
        → TraceIsAnswer (effects r n (finish_phase_2 m actor addr msg answer))
    unfolding finish_phase_2
    finish_phase_2-TraceIsAnswer actor addr msg (response s) h = ground arith
    finish_phase_2-TraceIsAnswer actor addr msg (failed MailboxError.closed) h = ground arith
    finish_phase_2-TraceIsAnswer actor addr msg (failed MailboxError.timeout) h = ground arith

    pub packet-TraceIsAnswer :
        (actor : RecvPublishActor) (addr : Address) (msg : PacketMessage m.PublishPacket)
        (q : QoSWithPacketIdentifier)
        → Handed msg.packet
        → Known q
        → TraceIsAnswer (effects r n (handle_publish_packet m actor addr msg q))
    unfolding handle_publish_packet
    packet-TraceIsAnswer actor addr msg QoSWithPacketIdentifier.level0 h k = ground arith
    packet-TraceIsAnswer actor addr msg (QoSWithPacketIdentifier.level1 id) h k =
        ground (arith, lawful.identifier_puback id)
    packet-TraceIsAnswer actor addr msg (QoSWithPacketIdentifier.level2 id) h k = ground arith

    pub handle_response-TraceIsAnswer :
        {P : Type 0} (get_id : P → ℕ) (letter : PacketMessage P → Letter m T)
        (actor : ResponsePacketActor) (addr : Address) (msg : PacketMessage P)
        → LetterIsAnswer (letter (retry_packet_message msg))
        → TraceIsAnswer (effects r n (handle_response get_id letter actor addr msg))
    unfolding handle_response
    handle_response-TraceIsAnswer get_id letter actor addr msg h = ground arith

    pub finish_status_check-TraceIsAnswer :
        (errors stop addr : Address) (retry : Letter m T) (check : Option (PacketStatus T) → Bool)
        (answer : Response (Option (PacketStatus T)))
        → LetterIsAnswer retry
        → TraceIsAnswer (effects r n (finish_status_check errors stop addr retry check answer))
    unfolding finish_status_check
    finish_status_check-TraceIsAnswer errors stop addr retry check (failed e) h = ground arith
    finish_status_check-TraceIsAnswer errors stop addr retry check (response s) h = ground arith
