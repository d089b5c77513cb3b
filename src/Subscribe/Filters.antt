-- ===== src/Subscribe/Filters.antt =====
-- src/actors/packets/subscribe.rs: what a batch of subscriptions becomes.
use mathlib.Core.List.{filter_map}
use actix_mqtt_client.Common.{
  ℕ, ◌≤◌, List, [], ◌∷◌, Option, none, some, ◌≡◌, ◌≢◌, ◌⊎◌, refl, ap, Option-cases, inl, inr,
}
use actix_mqtt_client.Ids.{u16_max, fetch_add, id_of_counter, next_id}
use actix_mqtt_client.Ids.Window.{id_of_counter_bounds}
use actix_mqtt_client.Mqtt.{Mqtt, subscribe_packet, QualityOfService}
use actix_mqtt_client.Message.{Subscribe, BatchSubscribe}
use actix_mqtt_client.Subscribe.{
  valid_subscriptions, subscribe_packet_of, create_packet_and_id_from_message,
}

module _ (m : Mqtt) where
  -- A subscription whose topic parses, with its QoS.
  abbrev pub parsed : Subscribe → Option (m.TopicFilter × QualityOfService)
  parsed s = elim (m.topic_filter_new s.topic) [ none ↦ none | some filter ↦ some (filter, s.qos) ]

  -- The topics that parse are kept with their QoS, in their order, and the others are left out.
  pub valid_subscriptions-filter_map :
      (subscriptions : List Subscribe)
      → valid_subscriptions m subscriptions ≡ filter_map parsed subscriptions
  unfolding valid_subscriptions filter_map
  valid_subscriptions-filter_map [] = refl
  valid_subscriptions-filter_map (s ∷ rest) = elim (Option-cases (m.topic_filter_new s.topic)) [
    | inl e ↦ rw (e, valid_subscriptions, filter_map, parsed) (valid_subscriptions-filter_map rest)
    | inr (f, e) ↦
        rw (e, valid_subscriptions, filter_map, parsed)
          (ap (◌∷◌ (f, s.qos)) (valid_subscriptions-filter_map rest))
  ]

  packet-cases :
      (valid : List (m.TopicFilter × QualityOfService)) (n : ℕ)
      → ((valid ≡ []) × (subscribe_packet_of m valid n ≡ (none, n)))
        ⊎ let id = id_of_counter n in
          ((1 ≤ id)
            × (id ≤ u16_max)
            × (valid ≢ [])
            × (subscribe_packet_of m valid n
                ≡ (some (subscribe_packet (m.subscribe_packet_new id valid), id), fetch_add n)))
  unfolding subscribe_packet_of next_id
  packet-cases [] n = inl (refl, refl)
  packet-cases (s ∷ rest) n =
      let (low, high) = id_of_counter_bounds n in inr (low, high, (λ e. cc), refl)

  -- A batch without a valid topic gives no packet and takes no identifier; any other gives a packet
  -- with exactly the valid topics, in their order, under the identifier that the counter stands for,
  -- which is from 1 to 65535, and the counter goes on.
  pub create_packet-cases :
      (msg : BatchSubscribe) (n : ℕ)
      → let valid = filter_map parsed msg.subscriptions in
        ((valid ≡ []) × (create_packet_and_id_from_message m msg n ≡ (none, n)))
        ⊎ let id = id_of_counter n in
          ((1 ≤ id)
            × (id ≤ u16_max)
            × (valid ≢ [])
            × (create_packet_and_id_from_message m msg n
                ≡ (some (subscribe_packet (m.subscribe_packet_new id valid), id), fetch_add n)))
  unfolding create_packet_and_id_from_message
  create_packet-cases msg n =
      rw (← valid_subscriptions-filter_map msg.subscriptions)
        (packet-cases (valid_subscriptions m msg.subscriptions) n)
