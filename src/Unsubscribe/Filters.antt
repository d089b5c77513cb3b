-- ===== src/Unsubscribe/Filters.antt =====
-- src/actors/packets/unsubscribe.rs: what a batch of topics becomes.
use mathlib.Core.List.{filter_map}
use actix_mqtt_client.Common.{
  ℕ, ◌≤◌, List, [], ◌∷◌, none, some, ◌≡◌, ◌≢◌, ◌⊎◌, refl, ap, Option-cases, inl, inr, String,
}
use actix_mqtt_client.Ids.{u16_max, fetch_add, id_of_counter, next_id}
use actix_mqtt_client.Ids.Window.{id_of_counter_bounds}
use actix_mqtt_client.Mqtt.{Mqtt, unsubscribe_packet}
use actix_mqtt_client.Message.{BatchUnsubscribe}
use actix_mqtt_client.Unsubscribe.{
  valid_topics, unsubscribe_packet_of, create_packet_and_id_from_message,
}

module _ (m : Mqtt) where
  -- The topics that parse are kept, in their order, and the others are left out.
  pub valid_topics-filter_map :
      (topics : List String) → valid_topics m topics ≡ filter_map m.topic_filter_new topics
  unfolding valid_topics filter_map
  valid_topics-filter_map [] = refl
  valid_topics-filter_map (s ∷ rest) = elim (Option-cases (m.topic_filter_new s)) [
    | inl e ↦ rw (e, valid_topics, filter_map) (valid_topics-filter_map rest)
    | inr (f, e) ↦ rw (e, valid_topics, filter_map) (ap (◌∷◌ f) (valid_topics-filter_map rest))
  ]

  packet-cases :
      (valid : List m.TopicFilter) (n : ℕ)
      → ((valid ≡ []) × (unsubscribe_packet_of m valid n ≡ (none, n)))
        ⊎ ((id : ℕ) × (1 ≤ id)
            × (id ≤ u16_max)
            × (valid ≢ [])
            × (unsubscribe_packet_of m valid n
                ≡ (some (unsubscribe_packet (m.unsubscribe_packet_new id valid), id), fetch_add n)))
  unfolding unsubscribe_packet_of next_id
  packet-cases [] n = inl (refl, refl)
  packet-cases (s ∷ rest) n =
      let (low, high) = id_of_counter_bounds n in inr (id_of_counter n, low, high, (λ e. cc), refl)

  -- A batch without a valid topic gives no packet and takes no identifier; any other gives a packet
  -- with exactly the valid topics, in their order, under a fresh identifier from 1 to 65535.
  pub create_unsubscribe-cases :
      (msg : BatchUnsubscribe) (n : ℕ)
      → let valid = filter_map m.topic_filter_new msg.topics in
        ((valid ≡ []) × (create_packet_and_id_from_message m msg n ≡ (none, n)))
        ⊎ ((id : ℕ) × (1 ≤ id)
            × (id ≤ u16_max)
            × (valid ≢ [])
            × (create_packet_and_id_from_message m msg n
                ≡ (some (unsubscribe_packet (m.unsubscribe_packet_new id valid), id), fetch_add n)))
  unfolding create_packet_and_id_from_message
  create_unsubscribe-cases msg n =
      rw (← valid_topics-filter_map msg.topics) (packet-cases (valid_topics m msg.topics) n)
