-- ===== src/Flight/Asking.antt =====
-- src/actors/packets/*.rs: the questions that each handler leaves behind, beside the statuses that it
-- stores.
use actix_mqtt_client.Common.{
  dec_le, subst, sym, is_some, ℕ, Bool, false, List, [], ◌∷◌, ◌++◌, Option, none, some, ltb, ◌≡◌,
  refl, arith, All, inl, inr, Bool-cases,
}
use actix_mqtt_client.Consts.{max_retry_count}
use actix_mqtt_client.Mqtt.{Mqtt, QualityOfService, QoSWithPacketIdentifier, VariablePacket}
use actix_mqtt_client.Message.{
  Letter, Address, PacketMessage, PacketStatus, PublishPacketStatus, Publish,
  StatusOperationMessage, status_operation, variable_packet_message,
}
use actix_mqtt_client.Runtime.{Runtime, Trace, effects, SendResult-cases, tried, sent, ◌>>=◌}
use actix_mqtt_client.Sending.{
  SendPacketActor, ResponsePacketActor, handle_response, store_and_send, handle,
}
use actix_mqtt_client.Sending.Laws.{handle-run}
use actix_mqtt_client.Release.{
  pubrec_impl, pubrel_impl, waits_for_rec, waits_for_rel, handle_pubrec, handle_pubrel,
}
use actix_mqtt_client.Publish.Send.{
  handle_publish, send_at_level, send_created, packet_of_topic, SendPublishActor,
}
use actix_mqtt_client.Publish.Receive.{RecvPublishActor, receive, handle_publish_packet}
use actix_mqtt_client.Flight.Questions.{Occurs, stored_ids, IsAsking, is_status_operation}

only_asked : (id : ℕ) (l : List ℕ) → All (λ k. id ≡ k) l → All (λ k. Occurs k (id ∷ [])) (l ++ [])
only_asked id [] only = tt
only_asked id (k ∷ rest) only = (inl only.0, only_asked id rest only.1)

module _ {m : Mqtt} (r : Runtime m PublishPacketStatus) (n : ℕ) where
  pub store_and_send-IsAsking :
      (actor : SendPacketActor) (addr : Address) (msg : StatusOperationMessage PublishPacketStatus)
      (packet : VariablePacket m) (id : ℕ) (retry : Letter m PublishPacketStatus)
      (check : Option (PacketStatus PublishPacketStatus) → Bool)
      → is_status_operation retry ≡ false
      → All (λ k. id ≡ k) (stored_ids (some msg))
      → IsAsking (effects r n (store_and_send actor addr msg packet id retry check))
  unfolding store_and_send
  store_and_send-IsAsking actor addr msg packet id retry check plain only =
      elim (SendResult-cases (r [] actor.status_recipient stored)) [
        | inr (inl e) ↦ rw e ((λ h. absurd (omega arith)), tt)
        | inr (inr e) ↦ rw e ((λ h. absurd (omega arith)), tt)
        | inl e ↦ rw e (elim (SendResult-cases (r later actor.send_recipient handed)) [
          | inl h ↦ rw h ((λ c. only_asked id _ only), (plain, tt))
          | inr (inl h) ↦ rw h ((λ c. absurd (omega arith)), tt)
          | inr (inr h) ↦ rw h ((λ c. absurd (omega arith)), tt)
        ])
      ]
    where
      stored : Letter m PublishPacketStatus
      stored = status_operation msg

      handed : Letter m PublishPacketStatus
      handed = variable_packet_message (record { packet = packet; retry_count = 0 })

      later : Trace m PublishPacketStatus
      later = tried actor.status_recipient stored sent ∷ []

  level-IsAsking :
      (actor : SendPublishActor) (addr : Address) (msg : Publish) (packet : VariablePacket m)
      (id : ℕ) (q : QualityOfService)
      → IsAsking (effects r n (send_at_level m actor addr msg packet id q))
  unfolding send_at_level
  level-IsAsking actor addr msg packet id QualityOfService.level0 =
      ((λ h. ground arith), ground arith)
  level-IsAsking actor addr msg packet id QualityOfService.level1 =
      store_and_send-IsAsking actor addr _ packet id _ is_some refl (refl, tt)
  level-IsAsking actor addr msg packet id QualityOfService.level2 =
      store_and_send-IsAsking actor addr _ packet id _ waits_for_rec refl (refl, tt)

module _ {m : Mqtt} (r : Runtime m PublishPacketStatus) where
  topic-IsAsking :
      (n : ℕ) (actor : SendPublishActor) (addr : Address) (msg : Publish) (t : Option m.TopicName)
      → IsAsking (
          effects r n
            (packet_of_topic m msg actor.error_recipient t >>= send_created m actor addr msg))
  unfolding packet_of_topic send_created
  topic-IsAsking n actor addr msg none = ((λ h. tt), tt)
  topic-IsAsking n actor addr msg (some topic) = level-IsAsking r _ actor addr msg _ _ msg.qos

  pub handle_publish-IsAsking :
      (n : ℕ) (actor : SendPublishActor) (addr : Address) (msg : Publish)
      → IsAsking (effects r n (handle_publish m actor addr msg))
  unfolding handle_publish
  handle_publish-IsAsking n actor addr msg =
      elim (Bool-cases (ltb max_retry_count msg.retry_count)) [
        | inl over ↦ rw over ((λ h. ground arith), ground arith)
        | inr within ↦ rw within (topic-IsAsking n actor addr msg (m.topic_name_new msg.topic))
      ]

  packet-IsAsking :
      (n : ℕ) (actor : RecvPublishActor) (addr : Address) (msg : PacketMessage m.PublishPacket)
      (q : QoSWithPacketIdentifier)
      → IsAsking (effects r n (handle_publish_packet m actor addr msg q))
  unfolding handle_publish_packet
  packet-IsAsking n actor addr msg QoSWithPacketIdentifier.level0 =
      ((λ h. ground arith), ground arith)
  packet-IsAsking n actor addr msg (QoSWithPacketIdentifier.level1 id) =
      ((λ h. ground arith), ground arith)
  packet-IsAsking n actor addr msg (QoSWithPacketIdentifier.level2 id) =
      ((λ h. ground arith), ground arith)

  pub receive-IsAsking :
      (n : ℕ) (actor : RecvPublishActor) (addr : Address) (msg : PacketMessage m.PublishPacket)
      → IsAsking (effects r n (receive m actor addr msg))
  unfolding receive
  receive-IsAsking n actor addr msg = packet-IsAsking n actor addr msg (m.qos msg.packet)

  pub handle_response-IsAsking :
      {P : Type 0} (get_id : P → ℕ) (letter : PacketMessage P → Letter m PublishPacketStatus)
      (n : ℕ) (actor : ResponsePacketActor) (addr : Address) (msg : PacketMessage P)
      → IsAsking (effects r n (handle_response get_id letter actor addr msg))
  unfolding handle_response
  handle_response-IsAsking get_id letter n actor addr msg = ((λ h. ground arith), ground arith)

  pub handle_pubrec-IsAsking :
      (n : ℕ) (actor : SendPacketActor) (addr : Address) (msg : PacketMessage m.PubrecPacket)
      → IsAsking (effects r n (handle_pubrec m actor addr msg))
  unfolding handle_pubrec handle
  handle_pubrec-IsAsking n actor addr msg = elim (dec_le msg.retry_count max_retry_count) [
    | yes within ↦
        subst IsAsking (sym (handle-run (pubrec_impl m) actor r addr msg _ _ n n refl within))
          (store_and_send-IsAsking r n actor addr _ _ _ _ waits_for_rec refl (refl, tt))
    | no over ↦ ((λ h. ground arith), ground arith)
  ]

  pub handle_pubrel-IsAsking :
      (n : ℕ) (actor : SendPacketActor) (addr : Address) (msg : PacketMessage m.PubrelPacket)
      → IsAsking (effects r n (handle_pubrel m actor addr msg))
  unfolding handle_pubrel handle
  handle_pubrel-IsAsking n actor addr msg = elim (dec_le msg.retry_count max_retry_count) [
    | yes within ↦
        subst IsAsking (sym (handle-run (pubrel_impl m) actor r addr msg _ _ n n refl within))
          (store_and_send-IsAsking r n actor addr _ _ _ _ waits_for_rel refl tt)
    | no over ↦ ((λ h. ground arith), ground arith)
  ]
