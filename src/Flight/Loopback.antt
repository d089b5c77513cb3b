-- ===== src/Flight/Loopback.antt =====
-- src/actors/packets/publish.rs with src/actors/actions/dispatch.rs: a message from the handler of
-- `Publish` on one client to the recipient of messages on another, where the mailboxes take what is sent.
use actix_mqtt_client.Common.{
  ℕ, ◌≤◌, List, [], ◌∷◌, ◌++◌, none, some, ◌≡◌, refl, sym, ap, ◌∙◌, ltb_of_le,
}
use actix_mqtt_client.Consts.{max_retry_count}
use actix_mqtt_client.Ids.{next_id}
use actix_mqtt_client.Mqtt.{Mqtt, IsLawful, VariablePacket, QualityOfService}
use actix_mqtt_client.Message.{
  Publish, PublishMessage, PacketMessage, PublishPacketStatus, publish_message,
  publish_packet_message, variable_packet_message, get_and_remove_packet_status,
}
use actix_mqtt_client.Runtime.{Trace, Effect, tried, sent, effects, calm}
use actix_mqtt_client.Status.Map.{StatusMap, get}
use actix_mqtt_client.Status.Laws.{map_after, operate-result}
use actix_mqtt_client.Sending.{store_and_send}
use actix_mqtt_client.Dispatch.{dispatch}
use actix_mqtt_client.Publish.Send.{
  handle_publish, packet_of_topic, send_created, send_at_level, publish_id,
}
use actix_mqtt_client.Publish.Receive.{
  receive, receive_level0, receive_level1, receive_level2, finish_level2, acknowledge,
}
use actix_mqtt_client.Client.Start.{Actors}
use actix_mqtt_client.Flight.{questions_of, to_publish, got_publish, run, resume}
use actix_mqtt_client.Flight.Rounds.{futures}

abbrev pub T : Type 0
T = PublishPacketStatus

module _ {m : Mqtt} where
  abbrev packet_of_effect : Effect m T → List (VariablePacket m)
  packet_of_effect (tried a (variable_packet_message msg) sent) = msg.packet ∷ []
  packet_of_effect _ = []

  -- The packets that the mailbox of the sender took, the newest first.
  abbrev pub packets_of : Trace m T → List (VariablePacket m)
  packets_of [] = []
  packets_of (e ∷ trace) = packet_of_effect e ++ packets_of trace

  abbrev arrival_of_effect : Effect m T → List (PacketMessage m.PublishPacket)
  arrival_of_effect (tried a (publish_packet_message msg) sent) = msg ∷ []
  arrival_of_effect _ = []

  -- The publish packets that the dispatch actor passed on.
  abbrev pub arrivals_of : Trace m T → List (PacketMessage m.PublishPacket)
  arrivals_of [] = []
  arrivals_of (e ∷ trace) = arrival_of_effect e ++ arrivals_of trace

  abbrev message_of_effect : Effect m T → List PublishMessage
  message_of_effect (tried a (publish_message msg) sent) = msg ∷ []
  message_of_effect _ = []

  -- The messages that the user was given.
  abbrev pub messages_of : Trace m T → List PublishMessage
  messages_of [] = []
  messages_of (e ∷ trace) = message_of_effect e ++ messages_of trace

module _ (m : Mqtt) (actors : Actors) (map : StatusMap T) where
  -- A publish packet is received; the status actor, whose map is `map`, answers what the handler asks.
  abbrev pub received : PacketMessage m.PublishPacket → List PublishMessage
  received msg =
      let trace = effects calm 0 (run m actors (got_publish msg)) in
      messages_of ((futures m actors (questions_of trace) (map_after trace map)).1 ++ trace)

  abbrev pub all_received : List (PacketMessage m.PublishPacket) → List PublishMessage
  all_received [] = []
  all_received (msg ∷ msgs) = received msg ++ all_received msgs

  -- Packets arrive at the dispatch actor of a client, each as if it were the only one.
  abbrev pub delivered : List (VariablePacket m) → List PublishMessage
  delivered [] = []
  delivered (packet ∷ packets) =
      all_received (arrivals_of (effects calm 0 (dispatch m T actors.dispatch packet)))
      ++ delivered packets

module _ (m : Mqtt) (lawful : IsLawful m) (actors actors' : Actors) (n : ℕ) (msg : Publish)
    (topic : m.TopicName) (map : StatusMap T) where
  -- Where the mailboxes take what is sent, a message with a valid topic and within the retry limit is
  -- handed over by one client in packets that give the user of the client that receives them exactly
  -- this message: its topic, its payload, and its identifier, which is 0 at QoS 0. At QoS 2 the status
  -- actor of the receiver must not have a status under that identifier yet.
  pub publish-receive :
      m.topic_name_new msg.topic ≡ some topic
      → msg.retry_count ≤ max_retry_count
      → (msg.qos ≡ QualityOfService.level2 → get (publish_id msg.qos n).0 map ≡ none)
      → delivered m actors' map (packets_of (effects calm n (run m actors (to_publish msg))))
        ≡ record { id = (publish_id msg.qos n).0; topic_name = msg.topic; payload = msg.payload }
          ∷ []
  unfolding run resume handle_publish packet_of_topic send_created send_at_level publish_id next_id
      store_and_send dispatch receive receive_level0 receive_level1 receive_level2 finish_level2
      acknowledge
  publish-receive valid within fresh = at_level msg.qos refl
    where
      at_level :
          (q : QualityOfService)
          → msg.qos ≡ q
          → delivered m actors' map (packets_of (effects calm n (run m actors (to_publish msg))))
            ≡ record {
              id = (publish_id msg.qos n).0;
              topic_name = msg.topic;
              payload = msg.payload;
            }
              ∷ []
      at_level QualityOfService.level0 e =
          rw (ltb_of_le msg.retry_count max_retry_count within, valid, e)
            (rw (lawful.qos_packet topic _ msg.payload, lawful.level0_identifier)
              (rw
                (
                  lawful.topic_name_packet msg.topic topic _ msg.payload valid,
                  lawful.payload_packet topic _ msg.payload,
                )
                refl))
      at_level QualityOfService.level1 e =
          rw (ltb_of_le msg.retry_count max_retry_count within, valid, e)
            (rw (lawful.qos_packet topic _ msg.payload, lawful.level1_identifier)
              (rw
                (
                  lawful.topic_name_packet msg.topic topic _ msg.payload valid,
                  lawful.payload_packet topic _ msg.payload,
                )
                refl))
      at_level QualityOfService.level2 e =
          rw (ltb_of_le msg.retry_count max_retry_count within, valid, e)
            (rw (lawful.qos_packet topic _ msg.payload, lawful.level2_identifier)
              (rw
                (operate-result map (get_and_remove_packet_status (next_id n).0)
                  ∙ ap (λ q. get (publish_id q n).0 map) (sym e)
                  ∙ fresh e)
                (rw
                  (
                    lawful.topic_name_packet msg.topic topic _ msg.payload valid,
                    lawful.payload_packet topic _ msg.payload,
                  )
                  refl)))
