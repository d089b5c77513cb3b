-- ===== src/Network/Causes.antt =====
-- src/actors/packets/{publish,pubrec,pubrel}.rs and src/actors/actions/dispatch.rs: what an acknowledgement comes from.
use actix_mqtt_client.Common.{
  ℕ, List, ◌∷◌, ◌++◌, Option, none, some, ◌≡◌, refl, arith, String, dec_le, ltb_of_le,
}
use actix_mqtt_client.Consts.{max_retry_count}
use actix_mqtt_client.Mqtt.{Mqtt, IsLawful, VariablePacket, publish_packet, QoSWithPacketIdentifier}
use actix_mqtt_client.Message.{
  Address, PacketMessage, PacketStatus, PublishPacketStatus, Publish, puback_message,
  pubcomp_message, variable_packet_message,
}
use actix_mqtt_client.Runtime.{
  Runtime, Trace, Effect, Continuation, Response, status_check, recv_publish_level2,
  check_status_phase_2, effects, ◌>>=◌,
}
use actix_mqtt_client.Sending.{SendPacketActor, handle}
use actix_mqtt_client.Sending.Laws.{handle-run}
use actix_mqtt_client.Release.{
  pubrec_impl, pubrel_impl, waits_for_rec, waits_for_rel, handle_pubrec, handle_pubrel,
}
use actix_mqtt_client.Acks.{handle_puback, handle_pubcomp}
use actix_mqtt_client.Publish.Send.{handle_publish, send_created, packet_of_topic, SendPublishActor}
use actix_mqtt_client.Publish.Receive.{receive}
use actix_mqtt_client.Dispatch.{DispatchActor, dispatch}
use actix_mqtt_client.Client.Start.{Actors}
use actix_mqtt_client.Flight.{
  Request, to_publish, got_publish, got_puback, got_pubrec, got_pubrel, got_pubcomp, run, resume,
}
use actix_mqtt_client.Network.{Network, letter_of, letter_in}
use actix_mqtt_client.Network.Answering.{
  answers, IsKnown, LetterIsAnswer, FutureIsAnswer, TraceIsAnswer, store_and_send-TraceIsAnswer,
  level-TraceIsAnswer, packet-TraceIsAnswer, finish_level2-TraceIsAnswer,
  finish_phase_2-TraceIsAnswer, handle_response-TraceIsAnswer, finish_status_check-TraceIsAnswer,
}

abbrev T : Type 0
T = PublishPacketStatus

module _ (m : Mqtt) (Published : String → List ℕ → Type 0) where
  -- Some client attempted to hand the publish packet to a sender.
  pub record WasHanded (packet : m.PublishPacket) : Type 0 where
    pub trace : Trace m T
    pub reached : Network m Published trace
    pub later : Trace m T
    pub earlier : Trace m T
    pub effect : Effect m T
    pub retry_count : ℕ
    pub at : trace ≡ later ++ (effect ∷ earlier)
    pub carries :
        letter_in effect
        ≡ some (
            variable_packet_message
              (record { packet = publish_packet packet; retry_count = retry_count }))

  -- Some such packet has this level and this identifier.
  pub record IsPublishedAt (q : QoSWithPacketIdentifier) : Type 0 where
    pub packet : m.PublishPacket
    pub handed : WasHanded packet
    pub level : m.qos packet ≡ q

  -- What a client dispatches answers a known packet, or is one that was handed over.
  abbrev pub DispatchIsAnswer : VariablePacket m → Type 0
  DispatchIsAnswer (publish_packet p) = WasHanded p
  DispatchIsAnswer packet = IsKnown m WasHanded IsPublishedAt (answers m packet)

module _ (m : Mqtt) (lawful : IsLawful m) (Published : String → List ℕ → Type 0) where
  module _ (r : Runtime m T) (n : ℕ) where
    abbrev pub Answers : Trace m T → Type 0
    Answers trace = TraceIsAnswer m (WasHanded m Published) (IsPublishedAt m Published) trace

    topic-TraceIsAnswer :
        (actor : SendPublishActor) (addr : Address) (msg : Publish) (t : Option m.TopicName)
        → Answers (
            effects r n
              (packet_of_topic m msg actor.error_recipient t >>= send_created m actor addr msg))
    unfolding packet_of_topic send_created
    topic-TraceIsAnswer actor addr msg none = ground arith
    topic-TraceIsAnswer actor addr msg (some topic) =
        level-TraceIsAnswer m _ _ lawful r _ actor addr msg _ _ msg.qos tt

    handle_publish-TraceIsAnswer :
        (actor : SendPublishActor) (addr : Address) (msg : Publish)
        → Answers (effects r n (handle_publish m actor addr msg))
    unfolding handle_publish
    handle_publish-TraceIsAnswer actor addr msg = elim (dec_le msg.retry_count max_retry_count) [
      | no over ↦ ground arith
      | yes within ↦
          rw (ltb_of_le msg.retry_count max_retry_count within)
            (topic-TraceIsAnswer actor addr msg (m.topic_name_new msg.topic))
    ]

    handle_pubrec-TraceIsAnswer :
        (actor : SendPacketActor) (addr : Address) (msg : PacketMessage m.PubrecPacket)
        → IsPublishedAt m Published
            (QoSWithPacketIdentifier.level2 (m.pubrec_identifier msg.packet))
        → Answers (effects r n (handle_pubrec m actor addr msg))
    unfolding handle_pubrec handle
    handle_pubrec-TraceIsAnswer actor addr msg h = elim (dec_le msg.retry_count max_retry_count) [
      | yes within ↦ rw (handle-run (pubrec_impl m) actor r addr msg _ _ n n refl within) (
          store_and_send-TraceIsAnswer m _ _ lawful r n actor addr _ _ _ _ waits_for_rec
            (rw (lawful.identifier_pubrel (m.pubrec_identifier msg.packet)) h) h)
      | no over ↦ ground arith
    ]

    handle_pubrel-TraceIsAnswer :
        (actor : SendPacketActor) (addr : Address) (msg : PacketMessage m.PubrelPacket)
        → IsPublishedAt m Published
            (QoSWithPacketIdentifier.level2 (m.pubrel_identifier msg.packet))
        → Answers (effects r n (handle_pubrel m actor addr msg))
    unfolding handle_pubrel handle
    handle_pubrel-TraceIsAnswer actor addr msg h = elim (dec_le msg.retry_count max_retry_count) [
      | yes within ↦ rw (handle-run (pubrel_impl m) actor r addr msg _ _ n n refl within) (
          store_and_send-TraceIsAnswer m _ _ lawful r n actor addr _ _ _ _ waits_for_rel
            (rw (lawful.identifier_pubcomp (m.pubrel_identifier msg.packet)) h) h)
      | no over ↦ ground arith
    ]

    pub run-TraceIsAnswer :
        (actors : Actors) (request : Request m)
        → LetterIsAnswer m (WasHanded m Published) (IsPublishedAt m Published) (letter_of request)
        → Answers (effects r n (run m actors request))
    unfolding run receive handle_puback handle_pubcomp
    run-TraceIsAnswer actors (to_publish msg) h = handle_publish-TraceIsAnswer _ _ msg
    run-TraceIsAnswer actors (got_publish msg) h =
        packet-TraceIsAnswer m _ _ lawful r n _ _ msg (m.qos msg.packet) h
          (record { packet = msg.packet; handed = h; level = refl })
    run-TraceIsAnswer actors (got_puback msg) h =
        handle_response-TraceIsAnswer m _ _ lawful r n m.puback_identifier puback_message _ _ msg h
    run-TraceIsAnswer actors (got_pubrec msg) h = handle_pubrec-TraceIsAnswer _ _ msg h
    run-TraceIsAnswer actors (got_pubrel msg) h = handle_pubrel-TraceIsAnswer _ _ msg h
    run-TraceIsAnswer actors (got_pubcomp msg) h =
        handle_response-TraceIsAnswer m _ _ lawful r n m.pubcomp_identifier pubcomp_message _ _ msg
          h

    pub resume-TraceIsAnswer :
        (actors : Actors) (c : Continuation m T) (answer : Response (Option (PacketStatus T)))
        → FutureIsAnswer m (WasHanded m Published) (IsPublishedAt m Published) c
        → Answers (effects r n (resume m actors c answer))
    unfolding resume
    resume-TraceIsAnswer actors (status_check errors stop addr retry check) answer h =
        finish_status_check-TraceIsAnswer m _ _ lawful r n errors stop addr retry check answer h
    resume-TraceIsAnswer actors (recv_publish_level2 id addr msg) answer h =
        finish_level2-TraceIsAnswer m _ _ lawful r n _ addr msg id answer h.0 h.1
    resume-TraceIsAnswer actors (check_status_phase_2 id addr msg) answer h =
        finish_phase_2-TraceIsAnswer m _ _ lawful r n _ addr msg answer h
    resume-TraceIsAnswer actors _ answer h = tt

    pub dispatch-TraceIsAnswer :
        (actor : DispatchActor) (packet : VariablePacket m)
        → DispatchIsAnswer m Published packet
        → Answers (effects r n (dispatch m T actor packet))
    unfolding dispatch
    dispatch-TraceIsAnswer actor packet h = ground arith
