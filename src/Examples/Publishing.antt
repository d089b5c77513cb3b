-- ===== src/Examples/Publishing.antt =====
-- The theorems on publishing, sending and retrying, at concrete inputs.
use actix_mqtt_client.Common.{◌+◌, ◌≤◌, [], ◌∷◌, ◌≡◌, refl, arith, is_some, inl}
use actix_mqtt_client.Consts.{max_retry_count}
use actix_mqtt_client.Mqtt.{QualityOfService, subscribe_packet}
use actix_mqtt_client.Message.{
  BatchSubscribe, PublishPacketStatus, send_publish_actor, subscribe_actor, publish,
  batch_subscribe, status_operation, variable_packet_message,
}
use actix_mqtt_client.Runtime.{effects}
use actix_mqtt_client.Ids.{id_of_counter, next_id, fetch_add}
use actix_mqtt_client.Retry.{Chain}
use actix_mqtt_client.Sending.{handle, default_status, store_and_send}
use actix_mqtt_client.Sending.Laws.{Ending, handle-Ending}
use actix_mqtt_client.Subscribe.{
  subscribe_impl, create_packet_and_id_from_message, batch_subscribe_new,
}
use actix_mqtt_client.Proofs.Bounded.{retrying, handle-Chain, users-CountsRetries}
use actix_mqtt_client.Publish.Send.{handle_publish, retry_publish}
use actix_mqtt_client.Publish.Sender.{publish_retrying, handle_publish-Chain}
use actix_mqtt_client.Publish.Levels.{
  stored_letter, packet_letter, needs_retry, handle_publish-Ending, handle_publish_full, LeftBehind,
}
use actix_mqtt_client.Examples.Data.{
  test_mqtt, accepting, crowded, busy_sender, publish_sender, subscribe_sender, reading,
}

abbrev T : Type 0
T = PublishPacketStatus

abbrev at_least_once : QualityOfService
at_least_once = QualityOfService.level1

handle_publish-Ending_example :
    Ending publish_sender send_publish_actor
      (stored_letter test_mqtt publish_sender send_publish_actor
        (accepting T)
        5
        (reading at_least_once)
        "t"
        (id_of_counter 5))
      (packet_letter test_mqtt publish_sender send_publish_actor
        (accepting T)
        5
        (reading at_least_once)
        "t"
        (id_of_counter 5))
      (publish (retry_publish (reading at_least_once)))
      (id_of_counter 5)
      (needs_retry at_least_once)
      (effects
        (accepting T)
        5
        (handle_publish test_mqtt publish_sender send_publish_actor (reading at_least_once)))
handle_publish-Ending_example =
    handle_publish-Ending test_mqtt publish_sender send_publish_actor (accepting T) 5
      (reading at_least_once) "t" (λ e. cc) refl (omega arith)

handle_publish_full_example :
    LeftBehind test_mqtt publish_sender send_publish_actor
      (busy_sender T)
      5
      (reading at_least_once)
      "t"
      []
      (id_of_counter 5)
      at_least_once
      (effects
        (busy_sender T)
        5
        (handle_publish test_mqtt publish_sender send_publish_actor (reading at_least_once)))
handle_publish_full_example =
    handle_publish_full test_mqtt publish_sender send_publish_actor (busy_sender T) 5
      (reading at_least_once) "t" [] (λ e. cc) refl (omega arith) refl refl

-- A message that met full mailboxes twice.
twice :
    Chain
      (publish_retrying test_mqtt publish_sender send_publish_actor)
      (retry_publish (retry_publish (reading at_least_once)))
      2
unfolding handle_publish store_and_send
twice =
    Chain.again
      (Chain.again (Chain.first (reading at_least_once) refl) (crowded T) 5
        (retry_publish (reading at_least_once)) (inl refl))
      (crowded T) 6 (retry_publish (retry_publish (reading at_least_once))) (inl refl)

handle_publish-Chain_example :
    ((retry_publish (retry_publish (reading at_least_once))).retry_count ≡ 2)
    × (2 ≤ max_retry_count + 1)
handle_publish-Chain_example =
    handle_publish-Chain test_mqtt publish_sender send_publish_actor twice

abbrev two_topics : BatchSubscribe
two_topics =
    batch_subscribe_new (
      record { topic = ""; qos = at_least_once } ∷ record { topic = "a"; qos = at_least_once } ∷ [])

abbrev topic_a : test_mqtt.SubscribePacket
topic_a = (6, ("a", at_least_once) ∷ [])

handle-Ending_example :
    Ending subscribe_sender subscribe_actor
      (status_operation (default_status 6 0))
      (variable_packet_message (record { packet = subscribe_packet topic_a; retry_count = 0 }))
      (batch_subscribe (record two_topics { retry_count = 1 }))
      6
      is_some
      (effects
        (accepting (Unit {0}))
        5
        (handle (subscribe_impl test_mqtt) subscribe_sender subscribe_actor two_topics))
unfolding create_packet_and_id_from_message next_id id_of_counter fetch_add
handle-Ending_example =
    handle-Ending (subscribe_impl test_mqtt) subscribe_sender (accepting (Unit {0})) subscribe_actor
      two_topics (subscribe_packet topic_a) 6 5 6 refl (omega arith)

-- A subscription that met full mailboxes once.
once :
    Chain
      (retrying (subscribe_impl test_mqtt) subscribe_sender subscribe_actor)
      (record two_topics { retry_count = 1 })
      1
unfolding handle create_packet_and_id_from_message
once =
    Chain.again (Chain.first two_topics refl) (crowded (Unit {0})) 5
      (record two_topics { retry_count = 1 }) (inl refl)

handle-Chain_example :
    ((record two_topics { retry_count = 1 }).retry_count ≡ 1) × (1 ≤ max_retry_count + 1)
handle-Chain_example =
    handle-Chain (subscribe_impl test_mqtt) subscribe_sender subscribe_actor
      (users-CountsRetries test_mqtt).0 once
