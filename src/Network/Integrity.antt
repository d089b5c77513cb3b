-- ===== src/Network/Integrity.antt =====
-- src/actors/packets/publish.rs and src/actors/actions/dispatch.rs: where the messages for the users
-- come from.
use actix_mqtt_client.Common.{
  ℕ, List, ◌∷◌, ◌++◌, Option, none, some, ◌≡◌, refl, subst, arith, All-drop, String, dec_le,
  ltb_of_le,
}
use actix_mqtt_client.Consts.{max_retry_count}
use actix_mqtt_client.Mqtt.{Mqtt, IsLawful, VariablePacket}
use actix_mqtt_client.Message.{
  Letter, Address, PacketMessage, PacketStatus, PublishPacketStatus, Publish, PublishMessage,
  publish_message, puback_message, pubcomp_message, variable_packet_message,
}
use actix_mqtt_client.Runtime.{
  Runtime, Trace, Effect, Continuation, Response, tried, did, notified, resend_after, notify_every,
  ask_after, status_check, recv_publish_level2, check_status_phase_2, SendResult, effects, ◌>>=◌,
}
use actix_mqtt_client.Sending.{SendPacketActor, handle}
use actix_mqtt_client.Sending.Laws.{handle-run}
use actix_mqtt_client.Release.{
  pubrec_impl, pubrel_impl, waits_for_rec, waits_for_rel, handle_pubrec, handle_pubrel,
}
use actix_mqtt_client.Acks.{handle_puback, handle_pubcomp}
use actix_mqtt_client.Publish.Send.{handle_publish, send_created, packet_of_topic, SendPublishActor}
use actix_mqtt_client.Publish.Receive.{receive}
use actix_mqtt_client.Dispatch.{DispatchActor, dispatch}
use actix_mqtt_client.Client.Start.{Actors}
use actix_mqtt_client.Flight.{
  Request, to_publish, got_publish, got_puback, got_pubrec, got_pubrel, got_pubcomp, run, resume,
}
use actix_mqtt_client.Network.{Network, letter_of, letter_in}
use actix_mqtt_client.Network.Published.{
  PacketIsPublished, LetterIsPublished, FutureIsPublished, EffectIsPublished, TraceIsPublished,
  store_and_send-TraceIsPublished, level-TraceIsPublished, packet-TraceIsPublished,
  finish_level2-TraceIsPublished, finish_phase_2-TraceIsPublished, handle_response-TraceIsPublished,
  finish_status_check-TraceIsPublished,
}

abbrev T : Type 0
T = PublishPacketStatus

module _ (m : Mqtt) (lawful : IsLawful m) (Published : String → List ℕ → Type 0) where
  module _ (r : Runtime m T) (n : ℕ) where
    topic-TraceIsPublished :
        (actor : SendPublishActor) (addr : Address) (msg : Publish) (t : Option m.TopicName)
        → m.topic_name_new msg.topic ≡ t
        → Published msg.topic msg.payload
        → TraceIsPublished m Published (
            effects r n
              (packet_of_topic m msg actor.error_recipient t >>= send_created m actor addr msg))
    unfolding packet_of_topic send_created
    topic-TraceIsPublished actor addr msg none valid h = ground arith
    topic-TraceIsPublished actor addr msg (some topic) valid h =
        level-TraceIsPublished m Published r _ actor addr msg _ _ msg.qos
          (rw (lawful.topic_name_packet msg.topic topic _ msg.payload valid)
            (rw (lawful.payload_packet topic _ msg.payload) h))
          h

    handle_publish-TraceIsPublished :
        (actor : SendPublishActor) (addr : Address) (msg : Publish)
        → Published msg.topic msg.payload
        → TraceIsPublished m Published (effects r n (handle_publish m actor addr msg))
    unfolding handle_publish
    handle_publish-TraceIsPublished actor addr msg h =
        elim (dec_le msg.retry_count max_retry_count) [
          | no over ↦ ground arith
          | yes within ↦
              rw (ltb_of_le msg.retry_count max_retry_count within)
                (topic-TraceIsPublished actor addr msg (m.topic_name_new msg.topic) refl h)
        ]

    handle_pubrec-TraceIsPublished :
        (actor : SendPacketActor) (addr : Address) (msg : PacketMessage m.PubrecPacket)
        → TraceIsPublished m Published (effects r n (handle_pubrec m actor addr msg))
    unfolding handle_pubrec handle
    handle_pubrec-TraceIsPublished actor addr msg = elim (dec_le msg.retry_count max_retry_count) [
      | yes within ↦
          rw (handle-run (pubrec_impl m) actor r addr msg _ _ n n refl within)
            (store_and_send-TraceIsPublished m Published r n actor addr _ _ _ _ waits_for_rec tt tt)
      | no over ↦ ground arith
    ]

    handle_pubrel-TraceIsPublished :
        (actor : SendPacketActor) (addr : Address) (msg : PacketMessage m.PubrelPacket)
        → TraceIsPublished m Published (effects r n (handle_pubrel m actor addr msg))
    unfolding handle_pubrel handle
    handle_pubrel-TraceIsPublished actor addr msg = elim (dec_le msg.retry_count max_retry_count) [
      | yes within ↦
          rw (handle-run (pubrel_impl m) actor r addr msg _ _ n n refl within)
            (store_and_send-TraceIsPublished m Published r n actor addr _ _ _ _ waits_for_rel tt tt)
      | no over ↦ ground arith
    ]

    run-TraceIsPublished :
        (actors : Actors) (request : Request m)
        → LetterIsPublished m Published (letter_of request)
        → TraceIsPublished m Published (effects r n (run m actors request))
    unfolding run receive handle_puback handle_pubcomp
    run-TraceIsPublished actors (to_publish msg) h = handle_publish-TraceIsPublished _ _ msg h
    run-TraceIsPublished actors (got_publish msg) h =
        packet-TraceIsPublished m Published r n _ _ msg (m.qos msg.packet) h
    run-TraceIsPublished actors (got_puback msg) h =
        handle_response-TraceIsPublished m Published r n m.puback_identifier puback_message _ _ msg
          tt
    run-TraceIsPublished actors (got_pubrec msg) h = handle_pubrec-TraceIsPublished _ _ msg
    run-TraceIsPublished actors (got_pubrel msg) h = handle_pubrel-TraceIsPublished _ _ msg
    run-TraceIsPublished actors (got_pubcomp msg) h =
        handle_response-TraceIsPublished m Published r n m.pubcomp_identifier pubcomp_message _ _
          msg tt

    resume-TraceIsPublished :
        (actors : Actors) (c : Continuation m T) (answer : Response (Option (PacketStatus T)))
        → FutureIsPublished m Published c
        → TraceIsPublished m Published (effects r n (resume m actors c answer))
    unfolding resume
    resume-TraceIsPublished actors (status_check errors stop addr retry check) answer h =
        finish_status_check-TraceIsPublished m Published r n errors stop addr retry check answer h
    resume-TraceIsPublished actors (recv_publish_level2 id addr msg) answer h =
        finish_level2-TraceIsPublished m Published r n _ addr msg id answer h
    resume-TraceIsPublished actors (check_status_phase_2 id addr msg) answer h =
        finish_phase_2-TraceIsPublished m Published r n _ addr msg answer h
    resume-TraceIsPublished actors _ answer h = tt

    dispatch-TraceIsPublished :
        (actor : DispatchActor) (packet : VariablePacket m)
        → PacketIsPublished m Published packet
        → TraceIsPublished m Published (effects r n (dispatch m T actor packet))
    unfolding dispatch
    dispatch-TraceIsPublished actor packet h = ground arith

  -- The letter of an effect of such a trace.
  letter_in-LetterIsPublished :
      (e : Effect m T) (l : Letter m T)
      → letter_in e ≡ some l
      → EffectIsPublished m Published e
      → LetterIsPublished m Published l
  letter_in-LetterIsPublished (tried a l' o) l at h = grind arith
  letter_in-LetterIsPublished (did a l' o) l at h = grind arith
  letter_in-LetterIsPublished (notified a l') l at h = grind arith
  letter_in-LetterIsPublished (resend_after delay a l') l at h = grind arith
  letter_in-LetterIsPublished (notify_every delay a l') l at h = grind arith
  letter_in-LetterIsPublished (ask_after delay a l' c) l at h = grind arith
  letter_in-LetterIsPublished _ l at h = cc

  sent-LetterIsPublished :
      {trace : Trace m T} (later earlier : Trace m T) (e : Effect m T) (l : Letter m T)
      → trace ≡ later ++ (e ∷ earlier)
      → letter_in e ≡ some l
      → TraceIsPublished m Published trace
      → LetterIsPublished m Published l
  sent-LetterIsPublished later earlier e l at carries h =
      letter_in-LetterIsPublished e l carries
        (All-drop (EffectIsPublished m Published) later e earlier
          (subst (TraceIsPublished m Published) at h)).0

  Network-TraceIsPublished :
      {trace : Trace m T} → Network m Published trace → TraceIsPublished m Published trace
  Network-TraceIsPublished (Network.publishes actors r n msg h) =
      run-TraceIsPublished r n actors (to_publish msg) h
  Network-TraceIsPublished (Network.handles before later earlier e request at carries actors r n) =
      run-TraceIsPublished r n actors request (
        sent-LetterIsPublished later earlier e (letter_of request) at carries
          (Network-TraceIsPublished before))
  Network-TraceIsPublished (Network.dispatches before later earlier e sent at carries actors r n) =
      dispatch-TraceIsPublished r n actors.dispatch sent.packet (
        sent-LetterIsPublished later earlier e (variable_packet_message sent) at carries
          (Network-TraceIsPublished before))
  Network-TraceIsPublished (Network.goes_on before later earlier delay a l c at actors r n answer) =
      resume-TraceIsPublished r n actors c answer
        (All-drop (EffectIsPublished m Published) later (ask_after delay a l c) earlier
          (subst (TraceIsPublished m Published) at (Network-TraceIsPublished before))).0.1

  -- Among any number of clients, wired in any way, whose handlers and futures run in any order, with
  -- mailboxes that refuse what they like and letters and packets that come late, twice, out of order or
  -- never, and to any client: if the packets carry what they are made from, every message that some
  -- client attempts to hand to its user has a topic and a payload that some user published together.
  pub received-published :
      {trace : Trace m T} (later earlier : Trace m T) (user : Address) (msg : PublishMessage)
      (o : SendResult)
      → Network m Published trace
      → trace ≡ later ++ (tried user (publish_message msg) o ∷ earlier)
      → Published msg.topic_name msg.payload
  received-published later earlier user msg o reached at =
      sent-LetterIsPublished later earlier (tried user (publish_message msg) o)
        (publish_message msg) at refl (Network-TraceIsPublished reached)
