-- ===== src/Proofs/Exchange.antt =====
-- Whole exchanges of src/actors/packets/{publish,puback,pubrec}.rs with the status actor of
-- src/actors/actions/status.rs: the status is stored, an answer may change it, and the timer asks.
use actix_mqtt_client.Common.{Option, Bool, inl, inr, ℕ, [], ◌∷◌, none, ◌≡◌, refl, is_some}
use actix_mqtt_client.Mqtt.{VariablePacket, Mqtt}
use actix_mqtt_client.Message.{
  variable_packet_message, StatusOperationMessage, Letter, Address, PacketMessage, PacketStatus,
  PublishPacketStatus, status_operation, set_packet_status, get_and_remove_packet_status,
  remove_packet_status, puback_message,
}
use actix_mqtt_client.Runtime.{SendResult-cases, tried, Runtime, sent, response, effects, did}
use actix_mqtt_client.Acks.{handle_puback}
use actix_mqtt_client.Sending.{
  SendPacketActor, store_and_send, ResponsePacketActor, finish_status_check, handle_response,
}
use actix_mqtt_client.Status.{operate}
use actix_mqtt_client.Status.Map.{StatusMap, HasDistinctKeys, get}
use actix_mqtt_client.Status.Laws.{
  map_after, operate-HasDistinctKeys, get-set_self, get-remove_self, get-take_self, take-result,
}

-- A status that was stored is in the map, whatever the sender's mailbox answers.
pub store_and_send-map :
    {m : Mqtt} {T : Type 0} (r : Runtime m T) (n : ℕ) (actor : SendPacketActor) (addr : Address)
    (status_msg : StatusOperationMessage T) (packet : VariablePacket m) (id : ℕ)
    (retry : Letter m T) (check : Option (PacketStatus T) → Bool) (map : StatusMap T)
    → r [] actor.status_recipient (status_operation status_msg) ≡ sent
    → map_after (effects r n (store_and_send actor addr status_msg packet id retry check)) map
      ≡ (operate map status_msg).0
unfolding store_and_send
store_and_send-map {m} {T} r n actor addr status_msg packet id retry check map taken =
    rw taken
      (elim (SendResult-cases (
        r (tried actor.status_recipient (status_operation status_msg) sent ∷ [])
          actor.send_recipient handed)) [
            | inl e ↦ rw e refl
            | inr (inl e) ↦ rw e refl
            | inr (inr e) ↦ rw e refl
          ])
  where
    handed : Letter m T
    handed = variable_packet_message (record { packet = packet; retry_count = 0 })

module _ {m : Mqtt} {T P : Type 0} (get_id : P → ℕ) (letter : PacketMessage P → Letter m T) where
  -- An answer whose removal the status actor takes removes the status of its identifier.
  pub handle_response-removes :
      (actor : ResponsePacketActor) (addr : Address) (msg : PacketMessage P) (r : Runtime m T)
      (n : ℕ) (map : StatusMap T)
      → r [] actor.status_recipient (status_operation (remove_packet_status (get_id msg.packet)))
        ≡ sent
      → map_after (effects r n (handle_response get_id letter actor addr msg)) map
        ≡ (operate map (remove_packet_status (get_id msg.packet))).0
  unfolding handle_response
  handle_response-removes actor addr msg r n map taken = rw taken refl

module _ (m : Mqtt) (r r' : Runtime m PublishPacketStatus) (n n' : ℕ)
    (map : StatusMap PublishPacketStatus) (d : HasDistinctKeys map)
    (error_recipient stop_recipient addr : Address) (retry : Letter m PublishPacketStatus) where
  -- QoS 1: if the PUBACK handler got its message through before the timer asks, nothing is sent
  -- again; if no PUBACK came, the message goes back to the actor once. Either way the identifier
  -- has no status afterwards.
  pub puback-retry :
      (acker : ResponsePacketActor) (acker_addr : Address) (msg : PacketMessage m.PubackPacket)
      (status : PacketStatus PublishPacketStatus)
      → let id = m.puback_identifier msg.packet in
        r' [] acker.status_recipient (status_operation (remove_packet_status id)) ≡ sent
        → let stored = (operate map (set_packet_status id status)).0 in
          let acknowledged =
            map_after (effects r' n' (handle_puback m acker acker_addr msg)) stored in
          let without = operate stored (get_and_remove_packet_status id) in
          let with_ack = operate acknowledged (get_and_remove_packet_status id) in
          (effects r n (
              finish_status_check error_recipient stop_recipient addr retry is_some
                (response without.1))
            ≡ did addr retry (r [] addr retry) ∷ [])
          × (effects r n (
                finish_status_check error_recipient stop_recipient addr retry is_some
                  (response with_ack.1))
              ≡ [])
          × (get id without.0 ≡ none)
          × (get id with_ack.0 ≡ none)
  unfolding handle_puback finish_status_check
  puback-retry acker acker_addr msg status taken =
      let id : ℕ = m.puback_identifier msg.packet in
      let stored : StatusMap PublishPacketStatus = (operate map (set_packet_status id status)).0 in
      let d' : HasDistinctKeys stored =
        operate-HasDistinctKeys map (set_packet_status id status) d in
      let removed : StatusMap PublishPacketStatus = (operate stored (remove_packet_status id)).0 in
      let d'' : HasDistinctKeys removed =
        operate-HasDistinctKeys stored (remove_packet_status id) d' in
      rw
        (handle_response-removes m.puback_identifier puback_message acker acker_addr msg r' n'
          stored taken)
        (
          rw (take-result stored d' id, get-set_self map d id status) refl,
          rw (take-result removed d'' id, get-remove_self stored d' id) refl,
          get-take_self stored d' id,
          get-take_self removed d'' id,
        )
