-- ===== src/Subscribe.antt =====
-- src/actors/packets/subscribe.rs: `SubscribeActor`.
pub mod Filters
use actix_mqtt_client.Common.{
  ℕ, Bool, true, false, List, [], ◌∷◌, Option, none, some, is_some, incr_u16, String,
}
use actix_mqtt_client.Ids.{next_id}
use actix_mqtt_client.Mqtt.{Mqtt, VariablePacket, subscribe_packet, QualityOfService}
use actix_mqtt_client.Message.{
  Letter, Address, Subscribe, BatchSubscribe, batch_subscribe, PacketStatus,
}
use actix_mqtt_client.Runtime.{Act, record_effect, notified}
use actix_mqtt_client.Sending.{SendPacketActor, SendPacketImpl, default_status, handle}

abbrev pub get_retry_count_from_message : BatchSubscribe → ℕ
get_retry_count_from_message msg = msg.retry_count

abbrev pub create_retry_message_from_message : BatchSubscribe → BatchSubscribe
create_retry_message_from_message msg = record msg { retry_count = incr_u16 msg.retry_count }

-- `BatchSubscribe::new`
abbrev pub batch_subscribe_new : List Subscribe → BatchSubscribe
batch_subscribe_new subscriptions = record { subscriptions = subscriptions; retry_count = 0 }

module _ (m : Mqtt) where
  -- The chain of `map`, `filter` and `map`: the topics that parse, in order, each with its QoS.
  unfoldable pub valid_subscriptions : List Subscribe → List (m.TopicFilter × QualityOfService)
  valid_subscriptions [] = []
  valid_subscriptions (s ∷ rest) = elim (m.topic_filter_new s.topic) [
    | none ↦ valid_subscriptions rest
    | some filter ↦ (filter, s.qos) ∷ valid_subscriptions rest
  ]

  -- `if subscriptions.is_empty() { return None; }`, and what follows it.
  unfoldable pub subscribe_packet_of :
      List (m.TopicFilter × QualityOfService) → ℕ → Option (VariablePacket m × ℕ) × ℕ
  subscribe_packet_of [] counter = (none, counter)
  subscribe_packet_of (s ∷ rest) counter =
      let (id, counter') = next_id counter in
      (some (subscribe_packet (m.subscribe_packet_new id (s ∷ rest)), id), counter')

  unfoldable pub create_packet_and_id_from_message :
      BatchSubscribe → ℕ → Option (VariablePacket m × ℕ) × ℕ
  unfolding subscribe_packet_of valid_subscriptions
  create_packet_and_id_from_message msg =
      subscribe_packet_of (valid_subscriptions msg.subscriptions)

  abbrev pub subscribe_impl : SendPacketImpl m (Unit {0})
  subscribe_impl = record {
    Msg = BatchSubscribe;
    letter = batch_subscribe;
    get_retry_count = get_retry_count_from_message;
    create_retry_message = create_retry_message_from_message;
    create_packet_and_id = create_packet_and_id_from_message;
    create_status = default_status;
    check = is_some;
  }

  unfoldable pub handle_batch_subscribe :
      SendPacketActor → Address → BatchSubscribe → Act m (Unit {0}) (Unit {0})
  handle_batch_subscribe = handle subscribe_impl

  unfoldable pub handle_subscribe : Address → Subscribe → Act m (Unit {0}) (Unit {0})
  handle_subscribe addr msg =
      record_effect (notified addr (batch_subscribe (batch_subscribe_new (msg ∷ []))))
