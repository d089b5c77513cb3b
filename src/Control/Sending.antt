-- ===== src/Control/Sending.antt =====
-- src/actors/packets/mod.rs and src/actors/packets/macros.rs: handlers that leave the connection's mark.
use actix_mqtt_client.Common.{
  ℕ, Bool, true, Option, some, none, ltb, ◌≡◌, arith, inl, inr, Bool-cases,
}
use actix_mqtt_client.Consts.{max_retry_count}
use actix_mqtt_client.Mqtt.{Mqtt, VariablePacket}
use actix_mqtt_client.Message.{
  Letter, Address, PacketMessage, PacketStatus, StatusOperationMessage, status_operation,
  get_and_remove_packet_status, remove_packet_status, user_error_recipient, stop_actor,
}
use actix_mqtt_client.Runtime.{Runtime, Response, response, failed, effects}
use actix_mqtt_client.Sending.{
  SendPacketImpl, store_and_send, handle_created, handle, handle_response, finish_status_check,
  drop_retry, retry_packet_message,
}
use actix_mqtt_client.Client.Start.{send_packet_actor, response_actor}
use actix_mqtt_client.Control.Marks.{T, keeps, TraceKeeps}

module _ {m : Mqtt} (status addr : Address)
    (stores : (msg : StatusOperationMessage T) → keeps {m = m} (status_operation msg) status ≡ true)
    (r : Runtime m T) (n : ℕ) where
  pub store_and_send-TraceKeeps :
      (msg : StatusOperationMessage T) (packet : VariablePacket m) (id : ℕ) (retry : Letter m T)
      (check : Option (PacketStatus T) → Bool)
      → keeps retry addr ≡ true
      → TraceKeeps (
          effects r n (
            store_and_send
              (send_packet_actor user_error_recipient status)
              addr
              msg
              packet
              id
              retry
              check))
  unfolding store_and_send
  store_and_send-TraceKeeps msg packet id retry check back =
      ground (arith, stores msg, stores (get_and_remove_packet_status id))

  pub handle_response-TraceKeeps :
      {P : Type 0} (get_id : P → ℕ) (letter : PacketMessage P → Letter m T)
      → ((msg : PacketMessage P) → keeps (letter msg) addr ≡ true)
      → (msg : PacketMessage P)
      → TraceKeeps (
          effects r n
            (handle_response get_id letter (response_actor user_error_recipient status) addr msg))
  unfolding handle_response
  handle_response-TraceKeeps get_id letter back msg =
      ground
        (arith, stores (remove_packet_status (get_id msg.packet)), back (retry_packet_message msg))

  pub drop_retry-TraceKeeps :
      (id : ℕ)
      → TraceKeeps
          (effects r n (drop_retry {m = m} {T = T} status user_error_recipient stop_actor id))
  unfolding drop_retry
  drop_retry-TraceKeeps id = ground (arith, stores (remove_packet_status id))

module _ {m : Mqtt} (status addr : Address)
    (stores : (msg : StatusOperationMessage T) → keeps {m = m} (status_operation msg) status ≡ true)
    (impl : SendPacketImpl m T) (back : (msg : impl.Msg) → keeps (impl.letter msg) addr ≡ true)
    (r : Runtime m T) where
  created-TraceKeeps :
      (n : ℕ) (msg : impl.Msg) (created : Option (VariablePacket m × ℕ))
      → TraceKeeps (
          effects r n
            (handle_created impl (send_packet_actor user_error_recipient status) addr msg created))
  unfolding handle_created
  created-TraceKeeps n msg none = tt
  created-TraceKeeps n msg (some (packet, id)) =
      elim (Bool-cases (ltb max_retry_count (impl.get_retry_count msg))) [
        | inl over ↦ rw over (drop_retry-TraceKeeps status addr stores r n id)
        | inr within ↦ rw within (
            store_and_send-TraceKeeps status addr stores r n _ packet id _ impl.check
              (back (impl.create_retry_message msg)))
      ]

  pub handle-TraceKeeps :
      (n : ℕ) (msg : impl.Msg)
      → TraceKeeps
          (effects r n (handle impl (send_packet_actor user_error_recipient status) addr msg))
  unfolding handle
  handle-TraceKeeps n msg = created-TraceKeeps _ msg _

pub finish_status_check-TraceKeeps :
    {m : Mqtt} (r : Runtime m T) (n : ℕ) (errors stop addr : Address) (retry : Letter m T)
    (check : Option (PacketStatus T) → Bool) (answer : Response (Option (PacketStatus T)))
    → keeps retry addr ≡ true
    → TraceKeeps (effects r n (finish_status_check errors stop addr retry check answer))
unfolding finish_status_check
finish_status_check-TraceKeeps r n errors stop addr retry check (response status) back =
    ground arith
finish_status_check-TraceKeeps r n errors stop addr retry check (failed e) back = ground arith
