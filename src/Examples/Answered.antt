-- ===== src/Examples/Answered.antt =====
-- The theorems on answers, duplicates and repeated messages, at concrete inputs.
use actix_mqtt_client.Common.{ℕ, ◌+◌, ◌≤◌, [], ◌∷◌, ◌≡◌, refl, arith, inl}
use actix_mqtt_client.Consts.{max_retry_count}
use actix_mqtt_client.Ids.{next_id, id_of_counter, fetch_add}
use actix_mqtt_client.Mqtt.{QualityOfService, QoSWithPacketIdentifier, subscribe_packet}
use actix_mqtt_client.Message.{
  PacketMessage, PublishPacketStatus, BatchSubscribe, batch_subscribe, subscribe_actor,
  suback_actor, recv_publish_actor,
}
use actix_mqtt_client.Runtime.{calm, effects}
use actix_mqtt_client.Status.Map.{StatusMap, get}
use actix_mqtt_client.Status.Laws.{map_after}
use actix_mqtt_client.Subscribe.{
  create_packet_and_id_from_message as create_subscribe, handle_batch_subscribe,
  batch_subscribe_new,
}
use actix_mqtt_client.Acks.{handle_suback}
use actix_mqtt_client.Retry.{Chain}
use actix_mqtt_client.Publish.Receive.{receive}
use actix_mqtt_client.Publish.Repeats.{Level1, receive_retrying, receive-Chain}
use actix_mqtt_client.Proofs.Answers.{EndsByAnswer, batch_subscribe-suback}
use actix_mqtt_client.Proofs.Duplicates.{arrivals, first_message, arrivals-once}
use actix_mqtt_client.Examples.Data.{
  test_mqtt, accepting, crowded, subscribe_sender, acker, receiver, incoming,
}

abbrev T : Type 0
T = PublishPacketStatus

abbrev topics : BatchSubscribe
topics = batch_subscribe_new (record { topic = "a"; qos = QualityOfService.level1 } ∷ [])

abbrev answer : PacketMessage ℕ
answer = record { packet = 6; retry_count = 0 }

batch_subscribe-suback_example :
    let trace =
      effects calm 5 (handle_batch_subscribe test_mqtt subscribe_sender subscribe_actor topics) in
    let waiting = map_after trace [] in
    EndsByAnswer subscribe_actor
      (batch_subscribe (record topics { retry_count = 1 }))
      trace
      waiting
      (map_after (effects calm 0 (handle_suback test_mqtt acker suback_actor answer)) waiting)
unfolding create_subscribe next_id id_of_counter fetch_add
batch_subscribe-suback_example =
    batch_subscribe-suback test_mqtt [] tt subscribe_actor acker suback_actor subscribe_sender
      topics answer (subscribe_packet (6, ("a", QualityOfService.level1) ∷ [])) 5 6 0 refl
      (omega arith)

abbrev at_level2 : test_mqtt.PublishPacket
at_level2 = (incoming (QoSWithPacketIdentifier.level2 9)).packet

abbrev nothing : StatusMap T
nothing = []

arrivals-once_example :
    arrivals test_mqtt receiver recv_publish_actor 9
      ((accepting T, 0, first_message test_mqtt receiver recv_publish_actor 9 at_level2)
        ∷ (accepting T, 0, incoming (QoSWithPacketIdentifier.level2 9))
        ∷ [])
      nothing
    ≡ 1
unfolding get
arrivals-once_example =
    arrivals-once test_mqtt receiver recv_publish_actor 9 (accepting T) 0 at_level2
      ((accepting T, 0, incoming (QoSWithPacketIdentifier.level2 9)) ∷ []) nothing tt refl refl refl
      (refl, tt)

abbrev at_level1 : Level1 test_mqtt receiver recv_publish_actor 9
at_level1 = (incoming (QoSWithPacketIdentifier.level1 9), refl)

-- A message whose answer met a full mailbox once.
once :
    Chain
      (receive_retrying test_mqtt receiver recv_publish_actor 9)
      (record at_level1.0 { retry_count = 1 }, refl)
      1
unfolding receive
once =
    Chain.again (Chain.first at_level1 refl) (crowded T) 0
      (record at_level1.0 { retry_count = 1 }, refl) (inl refl)

receive-Chain_example :
    ((record at_level1.0 { retry_count = 1 }).retry_count ≡ 1) × (1 ≤ max_retry_count + 1)
receive-Chain_example = receive-Chain test_mqtt receiver recv_publish_actor 9 once
