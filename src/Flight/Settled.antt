-- ===== src/Flight/Settled.antt =====
-- src/actors/packets/{publish,puback,pubrec,pubrel,pubcomp}.rs with src/actors/actions/dispatch.rs and the
-- status actor: how the exchange for a message ends.
use actix_mqtt_client.Common.{ℕ, ◌≤◌, [], ◌∷◌, none, some, ◌≡◌, ◌≢◌, refl, ◌∙◌, ltb_of_le}
use actix_mqtt_client.Consts.{max_retry_count}
use actix_mqtt_client.Ids.{next_id, id_of_counter}
use actix_mqtt_client.Mqtt.{Mqtt, IsLawful, QualityOfService}
use actix_mqtt_client.Message.{
  Publish, pending_ack, pending_rec, pending_rel, pending_comp, set_packet_status,
  remove_packet_status, get_and_remove_packet_status,
}
use actix_mqtt_client.Status.{operate}
use actix_mqtt_client.Status.Map.{StatusMap, HasDistinctKeys, get}
use actix_mqtt_client.Status.Laws.{operate-result, operate-HasDistinctKeys, get-remove_self}
use actix_mqtt_client.Sending.{store_and_send, finish_status_check, handle, handle_response}
use actix_mqtt_client.Release.{handle_pubrec, handle_pubrel}
use actix_mqtt_client.Acks.{handle_puback, handle_pubcomp}
use actix_mqtt_client.Dispatch.{dispatch}
use actix_mqtt_client.Publish.Send.{
  handle_publish, packet_of_topic, send_created, send_at_level, publish_id, publish_status,
}
use actix_mqtt_client.Publish.Receive.{
  receive, receive_level1, receive_level2, finish_level2, finish_phase_2, acknowledge,
}
use actix_mqtt_client.Client.Start.{Actors}
use actix_mqtt_client.Flight.{to_publish, run, resume}
use actix_mqtt_client.Flight.Loopback.{T}
use actix_mqtt_client.Flight.Exchange.{handled, peer_of, exchange, EndsIn, IsSettled}

removed-take :
    (map : StatusMap T) (id : ℕ)
    → HasDistinctKeys map
    → (operate (operate map (remove_packet_status id)).0 (get_and_remove_packet_status id)).1 ≡ none
removed-take map id d =
    operate-result (operate map (remove_packet_status id)).0 (get_and_remove_packet_status id)
    ∙ get-remove_self map d id

module _ (m : Mqtt) (actors actors' : Actors) (n : ℕ) (msg : Publish) (map map' : StatusMap T) where
  -- From the message to the end of the exchange, in four turns at most.
  abbrev pub Settles : Type 0
  Settles =
      let (me, packets) = handled m actors n (to_publish msg) (peer_of map) in
      EndsIn
        (λ peers.
          (peers.0.messages ≡ [])
          × (peers.1.messages
              ≡ record { id = id_of_counter n; topic_name = msg.topic; payload = msg.payload } ∷ [])
          × IsSettled m actors (id_of_counter n) peers.0
          × IsSettled m actors' (id_of_counter n) peers.1)
        (exchange m 4 actors actors' packets me (peer_of map'))

module _ (m : Mqtt) (lawful : IsLawful m) (actors actors' : Actors) (n : ℕ) (msg : Publish)
    (topic : m.TopicName) (map map' : StatusMap T) (d : HasDistinctKeys map)
    (d' : HasDistinctKeys map') where
  level1-Settles :
      m.topic_name_new msg.topic ≡ some topic
      → msg.retry_count ≤ max_retry_count
      → msg.qos ≡ QualityOfService.level1
      → get (id_of_counter n) map' ≡ none
      → Settles m actors actors' n msg map map'
  unfolding exchange handled run resume handle_publish packet_of_topic send_created send_at_level
      publish_id next_id store_and_send dispatch receive receive_level1 receive_level2 finish_level2
      acknowledge handle_puback handle_response handle_pubrec handle_pubrel handle_pubcomp handle
      finish_status_check finish_phase_2
  level1-Settles valid within e fresh =
      rw (ltb_of_le msg.retry_count max_retry_count within, valid, e)
        (rw (lawful.qos_packet topic _ msg.payload, lawful.level1_identifier)
          (rw
            (
              lawful.topic_name_packet msg.topic topic _ msg.payload valid,
              lawful.payload_packet topic _ msg.payload,
              lawful.identifier_puback (id_of_counter n),
            )
            (rw
              (removed-take _ (id_of_counter n) (
                operate-HasDistinctKeys map
                  (set_packet_status (id_of_counter n)
                    (publish_status (id_of_counter n) msg.retry_count pending_ack))
                  d))
              (
                refl,
                refl,
                (
                  get-remove_self _ (operate-HasDistinctKeys map (set_packet_status _ _) d)
                      (id_of_counter n),
                  (refl, tt),
                ),
                (fresh, tt),
              ))))

  level2-Settles :
      m.topic_name_new msg.topic ≡ some topic
      → msg.retry_count ≤ max_retry_count
      → msg.qos ≡ QualityOfService.level2
      → get (id_of_counter n) map' ≡ none
      → Settles m actors actors' n msg map map'
  unfolding exchange handled run resume handle_publish packet_of_topic send_created send_at_level
      publish_id next_id store_and_send dispatch receive receive_level1 receive_level2 finish_level2
      acknowledge handle_puback handle_response handle_pubrec handle_pubrel handle_pubcomp handle
      finish_status_check finish_phase_2
  level2-Settles valid within e fresh =
      rw (ltb_of_le msg.retry_count max_retry_count within, valid, e)
        (rw (lawful.qos_packet topic _ msg.payload, lawful.level2_identifier)
          (rw (operate-result map' (get_and_remove_packet_status (id_of_counter n)) ∙ fresh) (
            rw
              (
                lawful.topic_name_packet msg.topic topic _ msg.payload valid,
                lawful.payload_packet topic _ msg.payload,
                lawful.identifier_pubrec (id_of_counter n),
                lawful.identifier_pubrel (id_of_counter n),
                lawful.identifier_pubcomp (id_of_counter n),
              )
              (
                refl,
                refl,
                (
                  get-remove_self mine mine-distinct id,
                  rw (removed-take mine id mine-distinct) (refl, (refl, tt)),
                ),
                (
                  get-remove_self theirs theirs-distinct id,
                  rw (removed-take theirs id theirs-distinct) (refl, (refl, tt)),
                ),
              ))))
    where
      id : ℕ
      id = id_of_counter n

      -- The statuses of the two clients before they are removed.
      mine : StatusMap T
      mine =
          (operate
            (operate map (set_packet_status id (publish_status id msg.retry_count pending_rec))).0
            (set_packet_status id (publish_status id 0 pending_comp))).0

      mine-distinct : HasDistinctKeys mine
      mine-distinct =
          operate-HasDistinctKeys _ (set_packet_status id (publish_status id 0 pending_comp)) (
            operate-HasDistinctKeys map
              (set_packet_status id (publish_status id msg.retry_count pending_rec)) d)

      theirs : StatusMap T
      theirs =
          (operate (operate map' (get_and_remove_packet_status id)).0
            (set_packet_status id (publish_status id 0 pending_rel))).0

      theirs-distinct : HasDistinctKeys theirs
      theirs-distinct =
          operate-HasDistinctKeys _ (set_packet_status id (publish_status id 0 pending_rel))
            (operate-HasDistinctKeys map' (get_and_remove_packet_status id) d')

  -- Two clients that are wired in any way and get each other's packets, where the mailboxes take what
  -- is sent, no packet is lost and no timer asks before the end: a message at QoS 1 or 2 with a valid
  -- topic, within the retry limit, whose identifier has no status at the receiver yet, makes an exchange
  -- of packets that ends after at most four turns. By then the other user was given exactly this message,
  -- and the sender's none; on neither side the identifier has a status; and the timers that were
  -- started send nothing again when they ask.
  pub publish-Settles :
      m.topic_name_new msg.topic ≡ some topic
      → msg.retry_count ≤ max_retry_count
      → msg.qos ≢ QualityOfService.level0
      → get (id_of_counter n) map' ≡ none
      → Settles m actors actors' n msg map map'
  publish-Settles valid within above fresh = at_level msg.qos refl
    where
      at_level : (q : QualityOfService) → msg.qos ≡ q → Settles m actors actors' n msg map map'
      at_level QualityOfService.level0 e = absurd (above e)
      at_level QualityOfService.level1 e = level1-Settles valid within e fresh
      at_level QualityOfService.level2 e = level2-Settles valid within e fresh
