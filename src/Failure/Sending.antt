-- ===== src/Failure/Sending.antt =====
-- src/actors/packets/mod.rs and src/actors/packets/macros.rs: the shared handlers report what fails.
use actix_mqtt_client.Common.{
  ◌≡◌, false, ℕ, Bool, Option, some, none, ltb, refl, arith, inl, inr, Bool-cases,
}
use actix_mqtt_client.Consts.{max_retry_count}
use actix_mqtt_client.Mqtt.{Mqtt, VariablePacket}
use actix_mqtt_client.Message.{
  Letter, Address, PacketMessage, PacketStatus, StatusOperationMessage, user_error_recipient,
  stop_actor,
}
use actix_mqtt_client.Runtime.{Runtime, effects}
use actix_mqtt_client.Sending.{
  SendPacketImpl, store_and_send, handle_created, handle, handle_response, drop_retry,
}
use actix_mqtt_client.Failure.Reported.{is_stop_actor, IsReported}
use actix_mqtt_client.Client.Start.{send_packet_actor, response_actor}

module _ {m : Mqtt} {T : Type 0} (status addr : Address) (other : is_stop_actor addr ≡ false)
    (r : Runtime m T) (n : ℕ) where
  pub store_and_send-IsReported :
      (msg : StatusOperationMessage T) (packet : VariablePacket m) (id : ℕ) (retry : Letter m T)
      (check : Option (PacketStatus T) → Bool)
      → IsReported (
          effects r n (
            store_and_send
              (send_packet_actor user_error_recipient status)
              addr
              msg
              packet
              id
              retry
              check))
  unfolding store_and_send
  store_and_send-IsReported msg packet id retry check = ground arith

  pub handle_response-IsReported :
      {P : Type 0} (get_id : P → ℕ) (letter : PacketMessage P → Letter m T) (msg : PacketMessage P)
      → IsReported (
          effects r n
            (handle_response get_id letter (response_actor user_error_recipient status) addr msg))
  unfolding handle_response
  handle_response-IsReported get_id letter msg = ground arith

  pub drop_retry-IsReported :
      (id : ℕ)
      → IsReported
          (effects r n (drop_retry {m = m} {T = T} status user_error_recipient stop_actor id))
  unfolding drop_retry
  drop_retry-IsReported id = ground arith

module _ {m : Mqtt} {T : Type 0} (status addr : Address) (other : is_stop_actor addr ≡ false)
    (impl : SendPacketImpl m T) (r : Runtime m T) where
  created-IsReported :
      (n : ℕ) (msg : impl.Msg) (created : Option (VariablePacket m × ℕ))
      → IsReported (
          effects r n
            (handle_created impl (send_packet_actor user_error_recipient status) addr msg created))
  unfolding handle_created
  created-IsReported n msg none = record {
    reported = refl;
    stopped = refl;
    explained = refl;
    plain = tt;
  }
  created-IsReported n msg (some (packet, id)) =
      elim (Bool-cases (ltb max_retry_count (impl.get_retry_count msg))) [
        | inl over ↦ rw over (drop_retry-IsReported status addr other r n id)
        | inr within ↦ rw within (
            store_and_send-IsReported status addr other r n _ packet id
              (impl.letter (impl.create_retry_message msg)) impl.check)
      ]

  pub handle-IsReported :
      (n : ℕ) (msg : impl.Msg)
      → IsReported
          (effects r n (handle impl (send_packet_actor user_error_recipient status) addr msg))
  unfolding handle
  handle-IsReported n msg = created-IsReported _ msg _
