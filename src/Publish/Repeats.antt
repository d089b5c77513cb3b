-- ===== src/Publish/Repeats.antt =====
-- src/actors/packets/publish.rs: how often `RecvPublishActor` puts a message at QoS 1 back.
use actix_mqtt_client.Common.{
  ℕ, ◌+◌, ◌≤◌, ◌<◌, ltb, ◌≡◌, arith, All, ap, incr_u16, inl, inr, Bool-cases,
}
use actix_mqtt_client.Consts.{max_retry_count}
use actix_mqtt_client.Mqtt.{Mqtt, QoSWithPacketIdentifier}
use actix_mqtt_client.Message.{
  Letter, Address, PacketMessage, publish_packet_message, PublishPacketStatus,
}
use actix_mqtt_client.Runtime.{Runtime, effects}
use actix_mqtt_client.Observe.{IsQuiet, PutsBack, PutsBackOnly, PutsBack-PutsBackOnly}
use actix_mqtt_client.Retry.{Retrying, Chain, Chain-bounded}
use actix_mqtt_client.Publish.Receive.{
  RecvPublishActor, receive, handle_publish_packet, resend_letter,
}

module _ (m : Mqtt) (actor : RecvPublishActor) (addr : Address) (id : ℕ) where
  -- The messages at QoS 1 under the identifier.
  abbrev pub Level1 : Type 0
  Level1 =
      (msg : PacketMessage m.PublishPacket) × (m.qos msg.packet ≡ QoSWithPacketIdentifier.level1 id)

  module _ (r : Runtime m PublishPacketStatus) (n : ℕ) (p : Level1) where
    over_limit :
        max_retry_count < p.0.retry_count → All IsQuiet (effects r n (receive m actor addr p.0))
    unfolding receive
    over_limit over = rw (p.1, handle_publish_packet) (ground arith)

    only_retry : PutsBackOnly (resend_letter m actor p.0) (effects r n (receive m actor addr p.0))
    unfolding receive
    only_retry =
        rw (p.1, handle_publish_packet)
          (elim (Bool-cases (ltb max_retry_count p.0.retry_count)) [
            | inl over ↦ rw over (ground arith)
            | inr within ↦ rw within (ground arith)
          ])

  abbrev pub receive_retrying : Retrying m PublishPacketStatus
  receive_retrying = record {
    Msg = Level1;
    letter = λ p. publish_packet_message p.0;
    run = λ p. receive m actor addr p.0;
    retry_count = λ p. p.0.retry_count;
  }

  receive-raises :
      (r : Runtime m PublishPacketStatus) (n : ℕ) (p p' : Level1)
      → PutsBack (publish_packet_message p'.0) (effects r n (receive m actor addr p.0))
      → p'.0.retry_count ≡ incr_u16 p.0.retry_count
  receive-raises r n p p' back =
      ap (λ (l : Letter m PublishPacketStatus). count_of l)
        (PutsBack-PutsBackOnly _ _ _ back (only_retry r n p))
    where
      count_of : Letter m PublishPacketStatus → ℕ
      count_of (publish_packet_message msg) = msg.retry_count
      count_of _ = 0

  -- A message received at QoS 1 under the identifier that started with the count 0 and that its handlers
  -- really put back `k` times carries the count `k`, and `k` is 6 at most, whatever the mailboxes
  -- answer.
  pub receive-Chain :
      {p : Level1} {k : ℕ}
      → Chain receive_retrying p k
      → (p.0.retry_count ≡ k) × (k ≤ max_retry_count + 1)
  receive-Chain c =
      Chain-bounded receive_retrying (record { over_limit = over_limit; raises = receive-raises }) c
