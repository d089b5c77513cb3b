-- ===== src/Network/Acknowledged.antt =====
-- src/actors/packets/{publish,puback,pubrec,pubrel,pubcomp}.rs and src/actors/actions/dispatch.rs: that
-- nothing is acknowledged which was not sent.
use actix_mqtt_client.Common.{ℕ, List, ◌∷◌, ◌++◌, some, ◌≡◌, refl, subst, arith, All-drop, String}
use actix_mqtt_client.Mqtt.{
  Mqtt, IsLawful, VariablePacket, QoSWithPacketIdentifier, connect_packet, connack_packet,
  publish_packet, puback_packet, pubrec_packet, pubrel_packet, pubcomp_packet, subscribe_packet,
  suback_packet, unsubscribe_packet, unsuback_packet, pingreq_packet, pingresp_packet,
  disconnect_packet,
}
use actix_mqtt_client.Message.{Letter, Address, PublishPacketStatus, variable_packet_message}
use actix_mqtt_client.Runtime.{
  Trace, Effect, tried, did, notified, resend_after, notify_every, ask_after, SendResult,
}
use actix_mqtt_client.Flight.{to_publish}
use actix_mqtt_client.Network.{Network, letter_of, letter_in}
use actix_mqtt_client.Network.Answering.{
  answers, IsKnown, LetterIsAnswer, EffectIsAnswer, TraceIsAnswer,
}
use actix_mqtt_client.Network.Causes.{
  WasHanded, IsPublishedAt, DispatchIsAnswer, run-TraceIsAnswer, resume-TraceIsAnswer,
  dispatch-TraceIsAnswer,
}

abbrev T : Type 0
T = PublishPacketStatus

module _ (m : Mqtt) (lawful : IsLawful m) (Published : String → List ℕ → Type 0) where
  -- The letter of an effect of such a trace.
  letter_in-LetterIsAnswer :
      (e : Effect m T) (l : Letter m T)
      → letter_in e ≡ some l
      → EffectIsAnswer m (WasHanded m Published) (IsPublishedAt m Published) e
      → LetterIsAnswer m (WasHanded m Published) (IsPublishedAt m Published) l
  letter_in-LetterIsAnswer (tried a l' o) l at h = grind arith
  letter_in-LetterIsAnswer (did a l' o) l at h = grind arith
  letter_in-LetterIsAnswer (notified a l') l at h = grind arith
  letter_in-LetterIsAnswer (resend_after delay a l') l at h = grind arith
  letter_in-LetterIsAnswer (notify_every delay a l') l at h = grind arith
  letter_in-LetterIsAnswer (ask_after delay a l' c) l at h = grind arith
  letter_in-LetterIsAnswer _ l at h = cc

  sent-LetterIsAnswer :
      {trace : Trace m T} (later earlier : Trace m T) (e : Effect m T) (l : Letter m T)
      → trace ≡ later ++ (e ∷ earlier)
      → letter_in e ≡ some l
      → TraceIsAnswer m (WasHanded m Published) (IsPublishedAt m Published) trace
      → LetterIsAnswer m (WasHanded m Published) (IsPublishedAt m Published) l
  sent-LetterIsAnswer later earlier e l at carries h =
      letter_in-LetterIsAnswer e l carries
        (All-drop (EffectIsAnswer m (WasHanded m Published) (IsPublishedAt m Published)) later e
          earlier
          (subst (TraceIsAnswer m (WasHanded m Published) (IsPublishedAt m Published)) at h)).0

  dispatched-IsAnswer :
      {trace : Trace m T}
      → Network m Published trace
      → (later earlier : Trace m T) (e : Effect m T) (packet : VariablePacket m) (k : ℕ)
      → trace ≡ later ++ (e ∷ earlier)
      → letter_in e ≡ some (variable_packet_message (record { packet = packet; retry_count = k }))
      → LetterIsAnswer m
          (WasHanded m Published)
          (IsPublishedAt m Published)
          (variable_packet_message (record { packet = packet; retry_count = k }))
      → DispatchIsAnswer m Published packet
  dispatched-IsAnswer {trace} before later earlier e (publish_packet p) k at carries h = record {
    trace = trace;
    reached = before;
    later = later;
    earlier = earlier;
    effect = e;
    retry_count = k;
    at = at;
    carries = carries;
  }
  dispatched-IsAnswer before later earlier e (connect_packet p) k at carries h = h
  dispatched-IsAnswer before later earlier e (connack_packet p) k at carries h = h
  dispatched-IsAnswer before later earlier e (puback_packet p) k at carries h = h
  dispatched-IsAnswer before later earlier e (pubrec_packet p) k at carries h = h
  dispatched-IsAnswer before later earlier e (pubrel_packet p) k at carries h = h
  dispatched-IsAnswer before later earlier e (pubcomp_packet p) k at carries h = h
  dispatched-IsAnswer before later earlier e (subscribe_packet p) k at carries h = h
  dispatched-IsAnswer before later earlier e (suback_packet p) k at carries h = h
  dispatched-IsAnswer before later earlier e (unsubscribe_packet p) k at carries h = h
  dispatched-IsAnswer before later earlier e (unsuback_packet p) k at carries h = h
  dispatched-IsAnswer before later earlier e (pingreq_packet p) k at carries h = h
  dispatched-IsAnswer before later earlier e (pingresp_packet p) k at carries h = h
  dispatched-IsAnswer before later earlier e (disconnect_packet p) k at carries h = h

  Network-TraceIsAnswer :
      {trace : Trace m T}
      → Network m Published trace
      → TraceIsAnswer m (WasHanded m Published) (IsPublishedAt m Published) trace
  Network-TraceIsAnswer (Network.publishes actors r n msg h) =
      run-TraceIsAnswer m lawful Published r n actors (to_publish msg) tt
  Network-TraceIsAnswer (Network.handles before later earlier e request at carries actors r n) =
      run-TraceIsAnswer m lawful Published r n actors request (
        sent-LetterIsAnswer later earlier e (letter_of request) at carries
          (Network-TraceIsAnswer before))
  Network-TraceIsAnswer (Network.dispatches before later earlier e sent at carries actors r n) =
      dispatch-TraceIsAnswer m lawful Published r n actors.dispatch sent.packet (
        dispatched-IsAnswer before later earlier e sent.packet sent.retry_count at carries (
          sent-LetterIsAnswer later earlier e (variable_packet_message sent) at carries
            (Network-TraceIsAnswer before)))
  Network-TraceIsAnswer (Network.goes_on before later earlier delay a l c at actors r n answer) =
      resume-TraceIsAnswer m lawful Published r n actors c answer
        (All-drop (EffectIsAnswer m (WasHanded m Published) (IsPublishedAt m Published)) later
          (ask_after delay a l c) earlier
          (subst (TraceIsAnswer m (WasHanded m Published) (IsPublishedAt m Published)) at
            (Network-TraceIsAnswer before))).0.1

  -- Among any number of clients, wired in any way, whose handlers and futures run in any order, with
  -- mailboxes that refuse what they like and letters and packets that come late, twice, out of order or
  -- never, and to any client: if the packets carry what they are made from, every PUBACK that some client
  -- attempts to send has the identifier of a publish packet at QoS 1 that some client attempted to hand
  -- to a sender, and every PUBREC, PUBREL and PUBCOMP has the identifier of such a packet at QoS 2.
  pub acknowledged-published :
      {trace : Trace m T} (later earlier : Trace m T) (sender : Address) (packet : VariablePacket m)
      (k : ℕ) (o : SendResult) (q : QoSWithPacketIdentifier)
      → Network m Published trace
      → trace
        ≡ later
          ++ (tried sender (variable_packet_message (record { packet = packet; retry_count = k })) o
              ∷ earlier)
      → answers m packet ≡ some q
      → IsPublishedAt m Published q
  acknowledged-published later earlier sender packet k o q reached at level =
      subst (IsKnown m (WasHanded m Published) (IsPublishedAt m Published)) level (
        sent-LetterIsAnswer later earlier
          (tried sender (variable_packet_message (record { packet = packet; retry_count = k })) o)
          (variable_packet_message (record { packet = packet; retry_count = k })) at refl
          (Network-TraceIsAnswer reached))
