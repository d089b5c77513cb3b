-- ===== src/Publish/Sender.antt =====
-- src/actors/packets/publish.rs: what `SendPublishActor` does with a message to publish.
use actix_mqtt_client.Common.{
  ℕ, ◌+◌, ◌≤◌, ◌<◌, Option, none, some, ltb, ◌≡◌, refl, arith, All, is_some, inl, inr, ap, incr_u16,
  Bool-cases,
}
use actix_mqtt_client.Consts.{max_retry_count}
use actix_mqtt_client.Mqtt.{Mqtt, VariablePacket, QualityOfService}
use actix_mqtt_client.Message.{Letter, Address, Publish, publish, PublishPacketStatus}
use actix_mqtt_client.Runtime.{Runtime, effects, ◌>>=◌}
use actix_mqtt_client.Observe.{
  IsQuiet, PutsBack, PutsBackOnly, PutsBack-PutsBackOnly, count, reports_error,
}
use actix_mqtt_client.Release.{waits_for_rec}
use actix_mqtt_client.Retry.{Retrying, Chain, Chain-bounded}
use actix_mqtt_client.Sending.Laws.{store_and_send-PutsBackOnly}
use actix_mqtt_client.Publish.Send.{
  SendPublishActor, handle_publish, send_created, send_at_level, retry_publish, packet_of_topic,
}

module _ (m : Mqtt) (actor : SendPublishActor) (addr : Address) where
  module _ (r : Runtime m PublishPacketStatus) (n : ℕ) (msg : Publish) where
    over_limit :
        max_retry_count < msg.retry_count
        → All IsQuiet (effects r n (handle_publish m actor addr msg))
    unfolding handle_publish
    over_limit over = ground arith

    level_only :
        (q : QualityOfService) (packet : VariablePacket m) (id n' : ℕ)
        → PutsBackOnly
            (publish (retry_publish msg))
            (effects r n' (send_at_level m actor addr msg packet id q))
    unfolding send_at_level
    level_only QualityOfService.level0 packet id n' = ground arith
    level_only QualityOfService.level1 packet id n' =
        store_and_send-PutsBackOnly actor r addr _ packet id _ is_some n'
    level_only QualityOfService.level2 packet id n' =
        store_and_send-PutsBackOnly actor r addr _ packet id _ waits_for_rec n'

    topic_only :
        (t : Option m.TopicName)
        → PutsBackOnly (publish (retry_publish msg)) (
            effects r n
              (packet_of_topic m msg actor.error_recipient t >>= send_created m actor addr msg))
    unfolding packet_of_topic send_created
    topic_only none = (inl refl, tt)
    topic_only (some topic) = level_only msg.qos _ _ _

    only_retry :
        PutsBackOnly (publish (retry_publish msg)) (effects r n (handle_publish m actor addr msg))
    unfolding handle_publish
    only_retry = elim (Bool-cases (ltb max_retry_count msg.retry_count)) [
      | inl over ↦ rw over (ground arith)
      | inr within ↦ rw within (topic_only (m.topic_name_new msg.topic))
    ]

    -- A topic that is not valid is reported once; nothing is handed over, stored or put back.
    pub handle_publish-bad_topic :
        m.topic_name_new msg.topic ≡ none
        → msg.retry_count ≤ max_retry_count
        → let trace = effects r n (handle_publish m actor addr msg) in
          (count reports_error trace ≡ 1) × All IsQuiet trace
    unfolding handle_publish
    handle_publish-bad_topic bad within = ground arith

  abbrev pub publish_retrying : Retrying m PublishPacketStatus
  publish_retrying = record {
    Msg = Publish;
    letter = publish;
    run = handle_publish m actor addr;
    retry_count = λ msg. msg.retry_count;
  }

  publish-raises :
      (r : Runtime m PublishPacketStatus) (n : ℕ) (msg msg' : Publish)
      → PutsBack (publish msg') (effects r n (handle_publish m actor addr msg))
      → msg'.retry_count ≡ incr_u16 msg.retry_count
  publish-raises r n msg msg' back =
      ap (λ (l : Letter m PublishPacketStatus). count_of l)
        (PutsBack-PutsBackOnly _ _ _ back (only_retry r n msg))
    where
      count_of : Letter m PublishPacketStatus → ℕ
      count_of (publish msg) = msg.retry_count
      count_of _ = 0

  -- A message to publish that started with the count 0 and that its handlers really put back `k`
  -- times, after an error or by the timer, carries the count `k`, and `k` is 6 at most, whatever the
  -- mailboxes answer.
  pub handle_publish-Chain :
      {msg : Publish} {k : ℕ}
      → Chain publish_retrying msg k
      → (msg.retry_count ≡ k) × (k ≤ max_retry_count + 1)
  handle_publish-Chain c =
      Chain-bounded publish_retrying (record { over_limit = over_limit; raises = publish-raises }) c
