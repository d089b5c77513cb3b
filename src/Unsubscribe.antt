-- ===== src/Unsubscribe.antt =====
-- src/actors/packets/unsubscribe.rs: `UnsubscribeActor`.
pub mod Filters
use actix_mqtt_client.Common.{ℕ, List, [], ◌∷◌, Option, none, some, is_some, incr_u16, String}
use actix_mqtt_client.Ids.{next_id}
use actix_mqtt_client.Mqtt.{Mqtt, VariablePacket, unsubscribe_packet}
use actix_mqtt_client.Message.{Address, Unsubscribe, BatchUnsubscribe, batch_unsubscribe}
use actix_mqtt_client.Runtime.{Act, record_effect, notified}
use actix_mqtt_client.Sending.{SendPacketActor, SendPacketImpl, default_status, handle}

abbrev pub get_retry_count_from_message : BatchUnsubscribe → ℕ
get_retry_count_from_message msg = msg.retry_count

abbrev pub create_retry_message_from_message : BatchUnsubscribe → BatchUnsubscribe
create_retry_message_from_message msg = record msg { retry_count = incr_u16 msg.retry_count }

-- `BatchUnsubscribe::new`
abbrev pub batch_unsubscribe_new : List String → BatchUnsubscribe
batch_unsubscribe_new topics = record { topics = topics; retry_count = 0 }

module _ (m : Mqtt) where
  -- The chain of `map`, `filter` and `map`: the topics that parse, in order.
  unfoldable pub valid_topics : List String → List m.TopicFilter
  valid_topics [] = []
  valid_topics (topic ∷ rest) = elim (m.topic_filter_new topic) [
    | none ↦ valid_topics rest
    | some filter ↦ filter ∷ valid_topics rest
  ]

  -- `if subscriptions.is_empty() { return None; }`, and what follows it.
  unfoldable pub unsubscribe_packet_of : List m.TopicFilter → ℕ → Option (VariablePacket m × ℕ) × ℕ
  unsubscribe_packet_of [] counter = (none, counter)
  unsubscribe_packet_of (topic ∷ rest) counter =
      let (id, counter') = next_id counter in
      (some (unsubscribe_packet (m.unsubscribe_packet_new id (topic ∷ rest)), id), counter')

  unfoldable pub create_packet_and_id_from_message :
      BatchUnsubscribe → ℕ → Option (VariablePacket m × ℕ) × ℕ
  unfolding unsubscribe_packet_of valid_topics
  create_packet_and_id_from_message msg = unsubscribe_packet_of (valid_topics msg.topics)

  abbrev pub unsubscribe_impl : SendPacketImpl m (Unit {0})
  unsubscribe_impl = record {
    Msg = BatchUnsubscribe;
    letter = batch_unsubscribe;
    get_retry_count = get_retry_count_from_message;
    create_retry_message = create_retry_message_from_message;
    create_packet_and_id = create_packet_and_id_from_message;
    create_status = default_status;
    check = is_some;
  }

  unfoldable pub handle_batch_unsubscribe :
      SendPacketActor → Address → BatchUnsubscribe → Act m (Unit {0}) (Unit {0})
  handle_batch_unsubscribe = handle unsubscribe_impl

  unfoldable pub handle_unsubscribe : Address → Unsubscribe → Act m (Unit {0}) (Unit {0})
  handle_unsubscribe addr msg =
      record_effect (notified addr (batch_unsubscribe (batch_unsubscribe_new (msg.topic ∷ []))))
