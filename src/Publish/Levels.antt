-- ===== src/Publish/Levels.antt =====
-- src/actors/packets/publish.rs: the three levels of quality of service of `SendPublishActor`.
use actix_mqtt_client.Common.{
  ℕ, ◌≤◌, Bool, [], ◌∷◌, Option, some, ◌≡◌, ◌≢◌, refl, arith, is_some, ltb_of_le, sym, subst, ◌∙◌,
}
use actix_mqtt_client.Consts.{max_retry_count, resend_delay}
use actix_mqtt_client.Ids.{id_of_counter, next_id}
use actix_mqtt_client.Mqtt.{Mqtt, VariablePacket, QualityOfService, publish_packet}
use actix_mqtt_client.Message.{
  Letter, Address, Publish, publish, PacketStatus, PublishPacketStatus, pending_ack, pending_rec,
  status_operation, set_packet_status, variable_packet_message, error_message, other,
}
use actix_mqtt_client.Runtime.{
  Runtime, Trace, SendError, SendResult, sent, refused, effects, tried, resend_after,
}
use actix_mqtt_client.Observe.{count, hands_packet, puts_one_back, has_status_operation, asks}
use actix_mqtt_client.Release.{waits_for_rec}
use actix_mqtt_client.Sending.Laws.{Ending, store_and_send-Ending, store_and_send_full}
use actix_mqtt_client.Status.Map.{StatusMap, get, get-insert}
use actix_mqtt_client.Status.{operate}
use actix_mqtt_client.Status.Laws.{map_after}
use actix_mqtt_client.Publish.Send.{
  SendPublishActor, handle_publish, send_at_level, retry_publish, publish_status, packet_of_topic,
  publish_id,
}

-- What the sender waits for at a level, and which status makes it send again.
abbrev pub awaited : QualityOfService → PublishPacketStatus
awaited QualityOfService.level2 = pending_rec
awaited _ = pending_ack

abbrev pub needs_retry : QualityOfService → Option (PacketStatus PublishPacketStatus) → Bool
needs_retry QualityOfService.level2 = waits_for_rec
needs_retry _ = is_some

module _ (m : Mqtt) (actor : SendPublishActor) (addr : Address) (r : Runtime m PublishPacketStatus)
    (n : ℕ) (msg : Publish) (topic : m.TopicName) where
  -- The packet of the message, under a fresh identifier.
  abbrev pub packet_of : ℕ → VariablePacket m
  packet_of id =
      publish_packet
        (m.publish_packet_new topic (m.qos_with_packet_identifier_new msg.qos id) msg.payload)

  abbrev pub stored_letter : ℕ → Letter m PublishPacketStatus
  stored_letter id =
      status_operation (set_packet_status id (publish_status id msg.retry_count (awaited msg.qos)))

  abbrev pub packet_letter : ℕ → Letter m PublishPacketStatus
  packet_letter id = variable_packet_message (record { packet = packet_of id; retry_count = 0 })

  created-Ending :
      (q : QualityOfService)
      → q ≢ QualityOfService.level0
      → (packet : VariablePacket m) (id n' : ℕ)
      → Ending actor addr
          (status_operation (set_packet_status id (publish_status id msg.retry_count (awaited q))))
          (variable_packet_message (record { packet = packet; retry_count = 0 }))
          (publish (retry_publish msg))
          id
          (needs_retry q)
          (effects r n' (send_at_level m actor addr msg packet id q))
  unfolding send_at_level
  created-Ending QualityOfService.level0 h packet id n' = absurd (h refl)
  created-Ending QualityOfService.level1 h packet id n' =
      store_and_send-Ending actor r addr _ packet id _ is_some n'
  created-Ending QualityOfService.level2 h packet id n' =
      store_and_send-Ending actor r addr _ packet id _ waits_for_rec n'

  publish_id-next_id :
      (q : QualityOfService) → q ≢ QualityOfService.level0 → publish_id q n ≡ next_id n
  unfolding publish_id
  publish_id-next_id QualityOfService.level0 h = absurd (h refl)
  publish_id-next_id QualityOfService.level1 h = refl
  publish_id-next_id QualityOfService.level2 h = refl

  -- The run on a valid topic, within the limit.
  handle_publish-run :
      m.topic_name_new msg.topic ≡ some topic
      → msg.retry_count ≤ max_retry_count
      → effects r n (handle_publish m actor addr msg)
        ≡ effects r (publish_id msg.qos n).1 (
            send_at_level m actor addr msg
              (packet_of (publish_id msg.qos n).0)
              (publish_id msg.qos n).0
              msg.qos)
  unfolding handle_publish
  handle_publish-run valid within = rw (ltb_of_le _ _ within) (rw (valid, packet_of_topic) refl)

  -- At QoS 1 and 2, with a valid topic and within the retry limit, the message is never dropped in
  -- silence: under a fresh identifier its status is stored, the packet handed over and the check
  -- scheduled; or an error is reported and it comes again with its count raised; or an error is
  -- reported and the client is told to stop.
  pub handle_publish-Ending :
      msg.qos ≢ QualityOfService.level0
      → m.topic_name_new msg.topic ≡ some topic
      → msg.retry_count ≤ max_retry_count
      → Ending actor addr
          (stored_letter (id_of_counter n))
          (packet_letter (id_of_counter n))
          (publish (retry_publish msg))
          (id_of_counter n)
          (needs_retry msg.qos)
          (effects r n (handle_publish m actor addr msg))
  unfolding next_id
  handle_publish-Ending h valid within =
      rw (handle_publish-run valid within, publish_id-next_id msg.qos h)
        (created-Ending msg.qos h _ _ _)

  level0_run :
      (packet : VariablePacket m) (id n' : ℕ)
      → let trace =
          effects r n' (send_at_level m actor addr msg packet id QualityOfService.level0) in
        (count hands_packet trace ≡ 1)
        × (count has_status_operation trace ≡ 0)
        × (count asks trace ≡ 0)
        × (count puts_one_back trace ≡ 0)
  unfolding send_at_level
  level0_run packet id n' = ground arith

  -- At QoS 0, with a valid topic and within the retry limit, the packet is handed over exactly
  -- once: no status is stored, nothing is asked for, and nothing comes again, whatever the
  -- mailboxes answer.
  pub handle_publish-level0 :
      msg.qos ≡ QualityOfService.level0
      → m.topic_name_new msg.topic ≡ some topic
      → msg.retry_count ≤ max_retry_count
      → let trace = effects r n (handle_publish m actor addr msg) in
        (count hands_packet trace ≡ 1)
        × (count has_status_operation trace ≡ 0)
        × (count asks trace ≡ 0)
        × (count puts_one_back trace ≡ 0)
  handle_publish-level0 zero_level valid within = rw (handle_publish-run valid within) (
      subst
        (λ q.
          let trace = effects r (publish_id msg.qos n).1 (
            send_at_level m actor addr msg (packet_of (publish_id msg.qos n).0)
              (publish_id msg.qos n).0 q) in
          (count hands_packet trace ≡ 1)
          × (count has_status_operation trace ≡ 0)
          × (count asks trace ≡ 0)
          × (count puts_one_back trace ≡ 0))
        (sym zero_level) (level0_run _ _ _))

  -- What the theorem below says of the map and the effects.
  abbrev pub LeftBehind :
      StatusMap PublishPacketStatus → ℕ → QualityOfService → Trace m PublishPacketStatus → Type 0
  LeftBehind map id q trace =
      (get id (map_after trace map) ≡ some (publish_status id msg.retry_count (awaited q)))
      × (count asks trace ≡ 0)
      × (count puts_one_back trace ≡ 1)

  full_run :
      (map : StatusMap PublishPacketStatus) (id : ℕ) (q : QualityOfService) (o : SendResult)
      → LeftBehind map id q (
          resend_after resend_delay addr (publish (retry_publish msg))
          ∷ tried actor.error_recipient (error_message other) o
          ∷ tried actor.send_recipient (packet_letter id) (refused SendError.full)
          ∷ tried actor.status_recipient
              (status_operation
                (set_packet_status id (publish_status id msg.retry_count (awaited q))))
              sent
          ∷ [])
  unfolding operate
  full_run map id q o = (get-insert id id _ map ∙ ground arith, omega arith, omega arith)

  level_full :
      (map : StatusMap PublishPacketStatus) (id n' : ℕ) (q : QualityOfService)
      → q ≢ QualityOfService.level0
      → let stored : Letter m PublishPacketStatus =
          status_operation (set_packet_status id (publish_status id msg.retry_count (awaited q))) in
        r [] actor.status_recipient stored ≡ sent
        → r (tried actor.status_recipient stored sent ∷ []) actor.send_recipient (packet_letter id)
          ≡ refused SendError.full
        → LeftBehind map id q (effects r n' (send_at_level m actor addr msg (packet_of id) id q))
  unfolding send_at_level
  level_full map id n' QualityOfService.level0 h stored full = absurd (h refl)
  level_full map id n' QualityOfService.level1 h stored full =
      let (o, e) =
        store_and_send_full actor r addr _ (packet_of id) id (publish (retry_publish msg)) is_some
          n' stored full in
      rw e (full_run map id QualityOfService.level1 o)
  level_full map id n' QualityOfService.level2 h stored full =
      let (o, e) =
        store_and_send_full actor r addr _ (packet_of id) id (publish (retry_publish msg))
          waits_for_rec n' stored full in
      rw e (full_run map id QualityOfService.level2 o)

  -- At QoS 1 and 2, with a valid topic and within the retry limit: if the status is stored and then
  -- the sender's mailbox is full, one message is put back, but the status stays in the map, and
  -- nothing asks for it.
  pub handle_publish_full :
      (map : StatusMap PublishPacketStatus)
      → msg.qos ≢ QualityOfService.level0
      → m.topic_name_new msg.topic ≡ some topic
      → msg.retry_count ≤ max_retry_count
      → r [] actor.status_recipient (stored_letter (id_of_counter n)) ≡ sent
      → r
          (tried actor.status_recipient (stored_letter (id_of_counter n)) sent ∷ [])
          actor.send_recipient
          (packet_letter (id_of_counter n))
        ≡ refused SendError.full
      → LeftBehind map (id_of_counter n) msg.qos (effects r n (handle_publish m actor addr msg))
  unfolding next_id
  handle_publish_full map h valid within stored full =
      rw (handle_publish-run valid within, publish_id-next_id msg.qos h)
        (level_full map _ _ msg.qos h stored full)
