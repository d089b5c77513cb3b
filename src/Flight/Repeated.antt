-- ===== src/Flight/Repeated.antt =====
-- src/actors/packets/publish.rs with its acknowledgements: a message of which the first answers are lost.
use actix_mqtt_client.Common.{
  ℕ, zero, suc, ◌+◌, ◌^◌, ◌≤◌, ◌<◌, List, ◌∷◌, Option, none, some, ◌≡◌, ◌≢◌, refl, sym, ◌∙◌, ap,
  arith, ltb_of_le,
}
use actix_mqtt_client.Consts.{max_retry_count}
use actix_mqtt_client.Ids.{next_id, id_of_counter, fetch_add}
use actix_mqtt_client.Ids.Window.{after_calls, id-distinct}
use actix_mqtt_client.Mqtt.{Mqtt, IsLawful, QualityOfService}
use actix_mqtt_client.Message.{
  Publish, PublishMessage, pending_rel, set_packet_status, get_and_remove_packet_status,
}
use actix_mqtt_client.Runtime.{effects, calm}
use actix_mqtt_client.Status.{operate}
use actix_mqtt_client.Status.Map.{StatusMap, HasDistinctKeys, get}
use actix_mqtt_client.Status.Laws.{operate-result, operate-get, operate-HasDistinctKeys}
use actix_mqtt_client.Sending.{store_and_send}
use actix_mqtt_client.Dispatch.{dispatch}
use actix_mqtt_client.Publish.Send.{
  handle_publish, packet_of_topic, send_created, send_at_level, publish_id, publish_status,
  retry_publish,
}
use actix_mqtt_client.Publish.Receive.{
  receive, receive_level1, receive_level2, finish_level2, acknowledge,
}
use actix_mqtt_client.Client.Start.{Actors}
use actix_mqtt_client.Flight.{to_publish, run, resume}
use actix_mqtt_client.Flight.Loopback.{T, packets_of}
use actix_mqtt_client.Flight.Exchange.{Peer, handled, arrive}
use actix_mqtt_client.Flight.Rounds.{round, round-within, expired}
use actix_mqtt_client.Flight.Unanswered.{expired-HasDistinctKeys}
use actix_mqtt_client.Flight.Settled.{Settles, publish-Settles}
use actix_mqtt_client.Flight.Lost.{Attempt, retry_of}

-- The message at its sender, and the other client.
pub record Repeat (m : Mqtt) : Type 0 where
  pub attempt : Attempt
  pub other : Peer m

-- The message as the other user gets it.
abbrev pub message_of : ℕ → Publish → PublishMessage
message_of n msg = record { id = id_of_counter n; topic_name = msg.topic; payload = msg.payload }

-- The message as often as said, each time under the next identifier.
abbrev pub given : ℕ → ℕ → Publish → List PublishMessage → List PublishMessage
given zero n msg before = before
given (suc k) n msg before = given k (fetch_add n) (retry_publish msg) (message_of n msg ∷ before)

module _ (m : Mqtt) (actors actors' : Actors) where
  abbrev then_repeat : Option Attempt → (Attempt → Option (Repeat m)) → Option (Repeat m)
  then_repeat none later = none
  then_repeat (some attempt) later = later attempt

  -- The packets arrive, but as often as said the answers are lost, so that the timer puts the message back.
  unfoldable pub after_lost_answers : ℕ → Repeat m → Option (Repeat m)
  after_lost_answers zero s = some s
  after_lost_answers (suc k) s =
      let a = s.attempt in
      let packets = packets_of (effects calm a.id_counter (run m actors (to_publish a.msg))) in
      let r = round m actors a.msg a.id_counter a.map in
      then_repeat (retry_of m actors r r.again) (λ attempt.
        after_lost_answers k
          (record { attempt = attempt; other = (arrive m actors' packets s.other).0 }))

fetch_add-short : (n k : ℕ) → n + suc k < 2 ^ 64 → fetch_add n + k < 2 ^ 64
unfolding fetch_add
fetch_add-short n k h = omega arith

-- The identifier of a later call.
identifier-apart :
    (n i : ℕ)
    → i ≤ max_retry_count
    → n + suc i < 2 ^ 64
    → id_of_counter n ≢ id_of_counter (after_calls (suc i) n)
identifier-apart n i few short same =
    id-distinct n (suc i) (omega arith) (omega arith) short (sym same)

-- What the receiver stores for a packet: nothing at QoS 1, and that it waits for PUBREL at QoS 2.
abbrev pub received_map : QualityOfService → ℕ → StatusMap T → StatusMap T
received_map QualityOfService.level2 id map =
    (operate (operate map (get_and_remove_packet_status id)).0
      (set_packet_status id (publish_status id 0 pending_rel))).0
received_map _ id map = map

received_map-HasDistinctKeys :
    (q : QualityOfService) (id : ℕ) (map : StatusMap T)
    → HasDistinctKeys map
    → HasDistinctKeys (received_map q id map)
received_map-HasDistinctKeys QualityOfService.level0 id map d = d
received_map-HasDistinctKeys QualityOfService.level1 id map d = d
received_map-HasDistinctKeys QualityOfService.level2 id map d =
    operate-HasDistinctKeys _ (set_packet_status id (publish_status id 0 pending_rel))
      (operate-HasDistinctKeys map (get_and_remove_packet_status id) d)

received_map-get :
    (q : QualityOfService) (id j : ℕ) (map : StatusMap T)
    → HasDistinctKeys map
    → id ≢ j
    → get j (received_map q id map) ≡ get j map
received_map-get QualityOfService.level0 id j map d apart = refl
received_map-get QualityOfService.level1 id j map d apart = refl
received_map-get QualityOfService.level2 id j map d apart = ground (
  arith,
  operate-get _ (set_packet_status id (publish_status id 0 pending_rel))
      (operate-HasDistinctKeys map (get_and_remove_packet_status id) d) j,
  operate-get map (get_and_remove_packet_status id) d j,
)

module _ (m : Mqtt) (lawful : IsLawful m) (actors actors' : Actors) (topic : m.TopicName) where
  module _ (n : ℕ) (msg : Publish) (other : Peer m) where
    abbrev Arrives : Type 0
    Arrives =
        let packets = packets_of (effects calm n (run m actors (to_publish msg))) in
        let (after, answers) = arrive m actors' packets other in
        (after.messages ≡ message_of n msg ∷ other.messages)
        × (after.map ≡ received_map msg.qos (id_of_counter n) other.map)

    publish-Arrives :
        m.topic_name_new msg.topic ≡ some topic
        → msg.retry_count ≤ max_retry_count
        → msg.qos ≢ QualityOfService.level0
        → get (id_of_counter n) other.map ≡ none
        → Arrives
    unfolding handled run resume handle_publish packet_of_topic send_created send_at_level
        publish_id next_id store_and_send dispatch receive receive_level1 receive_level2
        finish_level2 acknowledge
    publish-Arrives valid within above fresh = at_level msg.qos refl
      where
        at_level : (q : QualityOfService) → msg.qos ≡ q → Arrives
        at_level QualityOfService.level0 e = absurd (above e)
        at_level QualityOfService.level1 e =
            rw (ltb_of_le msg.retry_count max_retry_count within, valid, e)
              (rw (lawful.qos_packet topic _ msg.payload, lawful.level1_identifier)
                (rw
                  (
                    lawful.topic_name_packet msg.topic topic _ msg.payload valid,
                    lawful.payload_packet topic _ msg.payload,
                  )
                  (refl, refl)))
        at_level QualityOfService.level2 e =
            rw (ltb_of_le msg.retry_count max_retry_count within, valid, e)
              (rw (lawful.qos_packet topic _ msg.payload, lawful.level2_identifier)
                (rw
                  (operate-result other.map (get_and_remove_packet_status (id_of_counter n))
                    ∙ fresh)
                  (rw
                    (
                      lawful.topic_name_packet msg.topic topic _ msg.payload valid,
                      lawful.payload_packet topic _ msg.payload,
                    )
                    (refl, refl))))

  -- Two clients that are wired in any way and get each other's packets, where the mailboxes take what is
  -- sent, the topic is valid, the counter does not wrap, and the receiver has no status under the
  -- identifiers that the sender takes: whichever number of times the packets of a message at QoS 1 or 2
  -- arrive and the answers are lost, up to the retries that its count leaves, the other user was then given
  -- the message that many times, each time under the next identifier; the message is still in the
  -- mailbox of the actor, with its topic and its payload; and if from then on no packet is lost and no
  -- timer asks before the end, the exchange ends as it would have otherwise, with the message once more
  -- for the other user.
  pub lost_answers-Settles :
      (k n : ℕ) (msg : Publish) (map : StatusMap T) (other : Peer m)
      → HasDistinctKeys map
      → HasDistinctKeys other.map
      → m.topic_name_new msg.topic ≡ some topic
      → k + msg.retry_count ≤ max_retry_count
      → msg.qos ≢ QualityOfService.level0
      → n + k < 2 ^ 64
      → ((i : ℕ) → i ≤ k → get (id_of_counter (after_calls i n)) other.map ≡ none)
      → (s : Repeat m) × (after_lost_answers m actors actors' k
            (record { attempt = record { msg = msg; id_counter = n; map = map }; other = other })
          ≡ some s)
        × (s.other.messages ≡ given k n msg other.messages)
        × (s.attempt.msg.topic ≡ msg.topic)
        × (s.attempt.msg.payload ≡ msg.payload)
        × Settles m actors actors' s.attempt.id_counter s.attempt.msg s.attempt.map s.other.map
  unfolding after_lost_answers after_calls
  lost_answers-Settles zero n msg map other d d' valid within above short fresh = (
    record { attempt = record { msg = msg; id_counter = n; map = map }; other = other },
    refl,
    refl,
    refl,
    refl,
    publish-Settles m lawful actors actors' n msg topic map other.map d d' valid (omega arith) above
        (fresh 0 (omega arith)),
  )
  lost_answers-Settles (suc k) n msg map other d d' valid within above short fresh =
      let arrives = publish-Arrives n msg other valid (omega arith) above (fresh 0 (omega arith)) in
      let packets = packets_of (effects calm n (run m actors (to_publish msg))) in
      let other' = (arrive m actors' packets other).0 in
      let (s, ends, messages, topic_same, payload_same, settles) =
        lost_answers-Settles k (fetch_add n) (retry_publish msg) (expired m actors msg n map) other'
          (expired-HasDistinctKeys m actors msg n map d)
          (rw arrives.1 (received_map-HasDistinctKeys msg.qos (id_of_counter n) other.map d')) valid
          (omega arith) above (fetch_add-short n k short)
          (λ i h. rw arrives.1 (
            received_map-get msg.qos (id_of_counter n) (id_of_counter (after_calls (suc i) n))
              other.map d' (identifier-apart n i (omega arith) (omega arith))
            ∙ fresh (suc i) (omega arith))) in
      (
        s,
        rw (round-within m actors msg n map topic d valid above (omega arith)) ends,
        messages ∙ ap (given k (fetch_add n) (retry_publish msg)) arrives.0,
        topic_same,
        payload_same,
        settles,
      )
