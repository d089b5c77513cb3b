-- ===== src/Proofs/Level2.antt =====
-- The receiver at QoS 2 of src/actors/packets/publish.rs with the status actor of
-- src/actors/actions/status.rs.
use actix_mqtt_client.Common.{ℕ, [], ◌∷◌, some, ◌≡◌, refl, ◌∙◌, inl, inr}
use actix_mqtt_client.Mqtt.{Mqtt, pubrec_packet}
use actix_mqtt_client.Message.{
  Letter, Address, PacketMessage, PacketStatus, PublishPacketStatus, pending_rel,
  StatusOperationMessage, set_packet_status, get_and_remove_packet_status, variable_packet_message,
}
use actix_mqtt_client.Runtime.{Runtime, SendResult-cases, sent, response, effects, tried}
use actix_mqtt_client.Observe.{count, hands_message}
use actix_mqtt_client.Status.{operate}
use actix_mqtt_client.Status.Map.{StatusMap, HasDistinctKeys, get}
use actix_mqtt_client.Status.Laws.{map_after, operate-HasDistinctKeys, get-set_self, take-result}
use actix_mqtt_client.Publish.Send.{publish_status}
use actix_mqtt_client.Publish.Receive.{RecvPublishActor, acknowledge, finish_level2}
use actix_mqtt_client.Publish.Receiver.{pending_rel_letter, acknowledge_hands}

module _ (m : Mqtt) (r : Runtime m PublishPacketStatus) (n : ℕ)
    (map : StatusMap PublishPacketStatus) (d : HasDistinctKeys map) (actor : RecvPublishActor)
    (addr : Address) (msg : PacketMessage m.PublishPacket) (id : ℕ) where
  acknowledge-map :
      (map' : StatusMap PublishPacketStatus)
      → r [] actor.status_recipient (pending_rel_letter m msg id) ≡ sent
      → map_after (effects r n (acknowledge m actor addr msg id)) map'
        ≡ (operate map' (set_packet_status id (publish_status id msg.retry_count pending_rel))).0
  unfolding acknowledge
  acknowledge-map map' taken =
      rw taken
        (elim (SendResult-cases (
          r (tried actor.status_recipient (pending_rel_letter m msg id) sent ∷ [])
            actor.send_recipient handed)) [
              | inl e ↦ rw e refl
              | inr (inl e) ↦ rw e refl
              | inr (inr e) ↦ rw e refl
            ])
    where
      handed : Letter m PublishPacketStatus
      handed =
          variable_packet_message
            (record { packet = pubrec_packet (m.pubrec_packet_new id); retry_count = 0 })

  -- If the status actor takes `PendingRel`, then a PUBLISH at QoS 2 under an identifier that has any
  -- status, of whatever kind, is not handed to the user, and `PendingRel` replaces the status.
  pub level2-known :
      (s : PacketStatus PublishPacketStatus)
      → get id map ≡ some s
      → r [] actor.status_recipient (pending_rel_letter m msg id) ≡ sent
      → let (map', status) = operate map (get_and_remove_packet_status id) in
        let trace = effects r n (finish_level2 m actor addr msg id (response status)) in
        (count hands_message trace ≡ 0)
        × (get id (map_after trace map') ≡ some (publish_status id msg.retry_count pending_rel))
  unfolding finish_level2
  level2-known s known taken =
      let ask : StatusOperationMessage PublishPacketStatus = get_and_remove_packet_status id in
      rw (take-result map d id ∙ known) (
        acknowledge_hands m actor addr r n msg id n,
        rw (acknowledge-map (operate map ask).0 taken)
            (get-set_self (operate map ask).0 (operate-HasDistinctKeys map ask d) id _),
      )
