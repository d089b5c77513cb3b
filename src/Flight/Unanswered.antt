-- ===== src/Flight/Unanswered.antt =====
-- src/actors/packets/publish.rs with src/actors/packets/mod.rs and the status actor: how often a message
-- is sent that the server never answers.
use actix_mqtt_client.Common.{ℕ, zero, suc, ◌+◌, ◌≤◌, ◌<◌, some, ◌≡◌, ◌≢◌, refl, arith, dec_le}
use actix_mqtt_client.Consts.{max_retry_count}
use actix_mqtt_client.Ids.{id_of_counter, fetch_add}
use actix_mqtt_client.Mqtt.{Mqtt, QualityOfService}
use actix_mqtt_client.Message.{Publish, PublishPacketStatus, remove_packet_status}
use actix_mqtt_client.Status.{operate}
use actix_mqtt_client.Status.Map.{StatusMap, HasDistinctKeys}
use actix_mqtt_client.Status.Kept.{
  IsKept, IsKept-trans, taken_again-IsKept, taken_again-HasDistinctKeys, removed-IsKept,
}
use actix_mqtt_client.Publish.Send.{retry_publish}
use actix_mqtt_client.Client.Start.{Actors}
use actix_mqtt_client.Flight.Rounds.{Outcome, rounds, status_of, expired, round-over, round-within}

module _ (m : Mqtt) (actors : Actors) where
  pub expired-HasDistinctKeys :
      (msg : Publish) (n : ℕ) (map : StatusMap PublishPacketStatus)
      → HasDistinctKeys map
      → HasDistinctKeys (expired m actors msg n map)
  expired-HasDistinctKeys msg n map d =
      taken_again-HasDistinctKeys map (id_of_counter n) (status_of m actors msg n) d

  -- What becomes of a message at QoS 1 or 2 whose packets the server never answers, where the mailboxes
  -- take what is sent and its topic is valid: with fuel for one round more than the retries that are
  -- left, the rounds end; by then a message that is new was handed to the sender in six packets, and one
  -- that was put back already in one less for each time; no error was ever reported; and every
  -- identifier has the status that it had before, or none.
  pub unanswered-rounds :
      (fuel n : ℕ) (msg : Publish) (map : StatusMap PublishPacketStatus) (topic : m.TopicName)
      → HasDistinctKeys map
      → m.topic_name_new msg.topic ≡ some topic
      → msg.qos ≢ QualityOfService.level0
      → msg.retry_count ≤ max_retry_count + 1
      → max_retry_count + 1 < fuel + msg.retry_count
      → (out : Outcome) × (rounds m actors fuel msg n map ≡ some out)
        × (out.packets + msg.retry_count ≡ max_retry_count + 1)
        × (out.errors ≡ 0)
        × ((id : ℕ) → IsKept map out.map id)
  unfolding rounds
  unanswered-rounds zero n msg map topic d valid above limit enough = absurd (omega arith)
  unanswered-rounds (suc fuel) n msg map topic d valid above limit enough =
      elim (dec_le msg.retry_count max_retry_count) [
        | no over ↦ (
          record { packets = 0; errors = 0; map = (operate map (remove_packet_status 0)).0 },
          rw (round-over m actors msg n map (omega arith)) refl,
          omega arith,
          refl,
          removed-IsKept map 0 d,
        )
        | yes within ↦
            let (out, ends, packets, errors, same) =
              unanswered-rounds fuel (fetch_add n) (retry_publish msg) (expired m actors msg n map)
                topic (expired-HasDistinctKeys msg n map d) valid above (omega arith)
                (omega arith) in
            (
              record out { packets = 1 + out.packets; errors = 0 + out.errors },
              rw (round-within m actors msg n map topic d valid above within, ends) refl,
              omega (arith, packets),
              omega (arith, errors),
              λ id.
                  IsKept-trans map (expired m actors msg n map) out.map id
                    (taken_again-IsKept map (id_of_counter n) (status_of m actors msg n) d id)
                    (same id),
            )
      ]
