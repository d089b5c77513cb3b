-- ===== src/Flight/Lost.antt =====
-- src/actors/packets/publish.rs with its acknowledgements: a message of which the first packets are lost.
use actix_mqtt_client.Common.{ℕ, zero, suc, ◌+◌, ◌≤◌, [], Option, none, some, ◌≡◌, ◌≢◌, refl, arith}
use actix_mqtt_client.Consts.{max_retry_count}
use actix_mqtt_client.Ids.{fetch_add}
use actix_mqtt_client.Mqtt.{Mqtt, IsLawful, QualityOfService}
use actix_mqtt_client.Message.{Publish, PublishPacketStatus}
use actix_mqtt_client.Status.Map.{StatusMap, HasDistinctKeys, get}
use actix_mqtt_client.Publish.Send.{retry_publish}
use actix_mqtt_client.Client.Start.{Actors}
use actix_mqtt_client.Flight.Rounds.{Round, round, round-within, expired}
use actix_mqtt_client.Flight.Unanswered.{expired-HasDistinctKeys}
use actix_mqtt_client.Flight.Settled.{Settles, publish-Settles}

-- The message as it is in the mailbox of the actor, the counter, and the statuses of the client.
pub record Attempt : Type 0 where
  pub msg : Publish
  pub id_counter : ℕ
  pub map : StatusMap PublishPacketStatus

module _ (m : Mqtt) (actors : Actors) where
  abbrev pub retry_of : Round → Option Publish → Option Attempt
  retry_of r none = none
  retry_of r (some msg) = some (record { msg = msg; id_counter = r.id_counter; map = r.map })

  abbrev then_retry : Option Attempt → (Attempt → Option Attempt) → Option Attempt
  then_retry none later = none
  then_retry (some s) later = later s

  -- As many packets are lost, each until its timer puts the message back. The result is `none` where the
  -- message is dropped before.
  unfoldable pub after_losses : ℕ → Attempt → Option Attempt
  after_losses zero s = some s
  after_losses (suc k) s =
      let r = round m actors s.msg s.id_counter s.map in
      then_retry (retry_of r r.again) (after_losses k)

module _ (m : Mqtt) (lawful : IsLawful m) (actors actors' : Actors) (topic : m.TopicName) where
  -- Two clients that are wired in any way and get each other's packets, where the mailboxes take what is
  -- sent, the topic is valid, and the receiver has no status: whichever number of packets of a message at QoS 1 or 2 is lost, up to the
  -- retries that its count leaves, the message then is still in the mailbox of the actor, with its
  -- topic and its payload; and if from then on no packet is lost and no timer asks before the end, the
  -- exchange ends as it would have without losses, with exactly this message for the other user.
  pub lost-Settles :
      (k n : ℕ) (msg : Publish) (map : StatusMap PublishPacketStatus)
      → HasDistinctKeys map
      → m.topic_name_new msg.topic ≡ some topic
      → k + msg.retry_count ≤ max_retry_count
      → msg.qos ≢ QualityOfService.level0
      → (s : Attempt) × (after_losses m actors k (record { msg = msg; id_counter = n; map = map })
          ≡ some s)
        × (s.msg.topic ≡ msg.topic)
        × (s.msg.payload ≡ msg.payload)
        × (s.msg.retry_count ≡ k + msg.retry_count)
        × Settles m actors actors' s.id_counter s.msg s.map []
  unfolding after_losses get
  lost-Settles zero n msg map d valid within above = (
    record { msg = msg; id_counter = n; map = map },
    refl,
    refl,
    refl,
    omega arith,
    publish-Settles m lawful actors actors' n msg topic map [] d tt valid (omega arith) above refl,
  )
  lost-Settles (suc k) n msg map d valid within above =
      let (s, ends, topic_same, payload_same, count, settles) =
        lost-Settles k (fetch_add n) (retry_publish msg) (expired m actors msg n map)
          (expired-HasDistinctKeys m actors msg n map d) valid (omega arith) above in
      (
        s,
        rw (round-within m actors msg n map topic d valid above (omega arith)) ends,
        topic_same,
        payload_same,
        omega (arith, count),
        settles,
      )
