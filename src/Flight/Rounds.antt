-- ===== src/Flight/Rounds.antt =====
-- src/actors/packets/publish.rs with src/actors/packets/mod.rs and the status actor: the rounds of a
-- message whose packets the server never answers, where the mailboxes take what is sent.
use actix_mqtt_client.Common.{
  ℕ, zero, suc, ◌+◌, ◌≤◌, ◌<◌, List, [], ◌∷◌, ◌++◌, Option, none, some, ◌≡◌, ◌≢◌, refl, ◌∙◌,
  ltb_of_le, ltb_of_lt,
}
use actix_mqtt_client.Consts.{max_retry_count}
use actix_mqtt_client.Ids.{next_id, id_of_counter, fetch_add}
use actix_mqtt_client.Mqtt.{Mqtt, QualityOfService}
use actix_mqtt_client.Message.{
  Publish, publish, PacketStatus, PublishPacketStatus, pending_ack, pending_rec, set_packet_status,
  get_and_remove_packet_status, remove_packet_status,
}
use actix_mqtt_client.Runtime.{Runtime, Trace, Effect, World, response, did, sent, effects, calm}
use actix_mqtt_client.Observe.{count, hands_packet, reports_error}
use actix_mqtt_client.Status.{operate}
use actix_mqtt_client.Status.Map.{StatusMap, HasDistinctKeys}
use actix_mqtt_client.Status.Laws.{map_after, operate-HasDistinctKeys, take-result, get-set_self}
use actix_mqtt_client.Sending.{store_and_send, finish_status_check}
use actix_mqtt_client.Publish.Send.{
  handle_publish, retry_publish, packet_of_topic, send_created, send_at_level, publish_id,
  publish_status,
}
use actix_mqtt_client.Publish.Levels.{awaited}
use actix_mqtt_client.Client.Start.{Actors}
use actix_mqtt_client.Flight.{Question, questions_of, to_publish, run, resume}

-- One handling of the message, up to the answer to the question that it leaves behind.
pub record Round : Type 0 where
  pub packets : ℕ
  pub errors : ℕ
  pub id_counter : ℕ
  pub map : StatusMap PublishPacketStatus
  pub again : Option Publish

-- All of them.
pub record Outcome : Type 0 where
  pub packets : ℕ
  pub errors : ℕ
  pub map : StatusMap PublishPacketStatus

module _ {m : Mqtt} where
  abbrev publish_of : Effect m PublishPacketStatus → Option Publish
  publish_of (did a (publish msg) sent) = some msg
  publish_of _ = none

  -- The message that a future puts back into the mailbox of the actor.
  abbrev reposted : Trace m PublishPacketStatus → Option Publish
  reposted [] = none
  reposted (e ∷ trace) = elim (publish_of e) [ some msg ↦ some msg | none ↦ reposted trace ]

module _ (m : Mqtt) (actors : Actors) where
  -- The questions are answered by the status actor, the oldest first.
  abbrev pub futures_on :
      Runtime m PublishPacketStatus
      → List (Question m)
      → StatusMap PublishPacketStatus
      → StatusMap PublishPacketStatus × Trace m PublishPacketStatus
  futures_on r [] map = (map, [])
  futures_on r (q ∷ questions) map =
      let (map', earlier) = futures_on r questions map in
      let (map'', status) = operate map' (get_and_remove_packet_status q.id) in
      (map'', effects r 0 (resume m actors q.continuation (response status)) ++ earlier)

  abbrev pub futures :
      List (Question m)
      → StatusMap PublishPacketStatus
      → StatusMap PublishPacketStatus × Trace m PublishPacketStatus
  futures = futures_on calm

  unfoldable pub round : Publish → ℕ → StatusMap PublishPacketStatus → Round
  round msg n map =
      let w : World m PublishPacketStatus =
        (run m actors (to_publish msg) calm (record { id_counter = n; trace = [] })).1 in
      let (map', trace) = futures (questions_of w.trace) (map_after w.trace map) in
      record {
        packets = count hands_packet w.trace;
        errors = count reports_error w.trace + count reports_error trace;
        id_counter = w.id_counter;
        map = map';
        again = reposted trace;
      }

  abbrev add_round : Round → Option Outcome → Option Outcome
  add_round r none = none
  add_round r (some out) =
      some (record out { packets = r.packets + out.packets; errors = r.errors + out.errors })

  abbrev next_round : Round → Option Publish → (Publish → Option Outcome) → Option Outcome
  next_round r none later = some (record { packets = r.packets; errors = r.errors; map = r.map })
  next_round r (some msg) later = add_round r (later msg)

  -- No PUBACK and no PUBREC ever comes. The result is `none` if the fuel is used up.
  unfoldable pub rounds : ℕ → Publish → ℕ → StatusMap PublishPacketStatus → Option Outcome
  rounds zero msg n map = none
  rounds (suc fuel) msg n map =
      let r = round msg n map in next_round r r.again (λ msg'. rounds fuel msg' r.id_counter r.map)

  abbrev pub status_of : Publish → ℕ → PacketStatus PublishPacketStatus
  status_of msg n = publish_status (id_of_counter n) msg.retry_count (awaited msg.qos)

  abbrev pub stored : Publish → ℕ → StatusMap PublishPacketStatus → StatusMap PublishPacketStatus
  stored msg n map = (operate map (set_packet_status (id_of_counter n) (status_of msg n))).0

  abbrev pub expired : Publish → ℕ → StatusMap PublishPacketStatus → StatusMap PublishPacketStatus
  expired msg n map =
      (operate (stored msg n map) (get_and_remove_packet_status (id_of_counter n))).0

  taken-status :
      (map : StatusMap PublishPacketStatus)
      → HasDistinctKeys map
      → (id : ℕ) (status : PacketStatus PublishPacketStatus)
      → (operate (operate map (set_packet_status id status)).0 (get_and_remove_packet_status id)).1
        ≡ some status
  taken-status map d id status =
      take-result _ (operate-HasDistinctKeys map (set_packet_status id status) d) id
      ∙ get-set_self map d id status

  pub round-over :
      (msg : Publish) (n : ℕ) (map : StatusMap PublishPacketStatus)
      → max_retry_count < msg.retry_count
      → round msg n map ≡ record {
        packets = 0;
        errors = 0;
        id_counter = n;
        map = (operate map (remove_packet_status 0)).0;
        again = none;
      }
  unfolding round run handle_publish
  round-over msg n map over = rw (ltb_of_lt max_retry_count msg.retry_count over) refl

  pub round-within :
      (msg : Publish) (n : ℕ) (map : StatusMap PublishPacketStatus) (topic : m.TopicName)
      → HasDistinctKeys map
      → m.topic_name_new msg.topic ≡ some topic
      → msg.qos ≢ QualityOfService.level0
      → msg.retry_count ≤ max_retry_count
      → round msg n map ≡ record {
        packets = 1;
        errors = 0;
        id_counter = fetch_add n;
        map = expired msg n map;
        again = some (retry_publish msg);
      }
  unfolding round run resume handle_publish packet_of_topic send_created send_at_level publish_id
      next_id store_and_send finish_status_check
  round-within msg n map topic d valid above within = at_level msg.qos refl
    where
      at_level :
          (q : QualityOfService)
          → msg.qos ≡ q
          → round msg n map ≡ record {
            packets = 1;
            errors = 0;
            id_counter = fetch_add n;
            map = expired msg n map;
            again = some (retry_publish msg);
          }
      at_level QualityOfService.level0 e = absurd (above e)
      at_level QualityOfService.level1 e =
          rw (ltb_of_le msg.retry_count max_retry_count within, valid, e)
            (rw
              (taken-status map d (id_of_counter n)
                (publish_status (id_of_counter n) msg.retry_count pending_ack))
              refl)
      at_level QualityOfService.level2 e =
          rw (ltb_of_le msg.retry_count max_retry_count within, valid, e)
            (rw
              (taken-status map d (id_of_counter n)
                (publish_status (id_of_counter n) msg.retry_count pending_rec))
              refl)
