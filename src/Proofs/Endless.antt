-- ===== src/Proofs/Endless.antt =====
-- src/actors/packets/{puback,pubcomp,suback,unsuback,pingresp}.rs: the retries of the actors that
-- `impl_response_packet_actor!` of src/actors/packets/macros.rs generates.
use actix_mqtt_client.Common.{ℕ, zero, suc, ◌%◌, ◌^◌, ◌≡◌, refl, inl, arith}
use actix_mqtt_client.Mqtt.{Mqtt}
use actix_mqtt_client.Message.{Letter, Address, PacketMessage}
use actix_mqtt_client.Runtime.{Runtime, SendError, refused}
use actix_mqtt_client.Retry.{Retrying, Chain, first, again}
use actix_mqtt_client.Sending.{ResponsePacketActor, handle_response, retry_packet_message}

-- Every mailbox is full.
abbrev all_full : {m : Mqtt} {T : Type 0} → Runtime m T
all_full trace a l = refused SendError.full

module _ {m : Mqtt} {T P : Type 0} (get_id : P → ℕ) (letter : PacketMessage P → Letter m T)
    (actor : ResponsePacketActor) (addr : Address) where
  abbrev pub responding : Retrying m T
  responding = record {
    Msg = PacketMessage P;
    letter = letter;
    run = handle_response get_id letter actor addr;
    retry_count = λ msg. msg.retry_count;
  }

  -- No limit ends the retries of an acknowledgement: for any number, the message of a packet with count 0
  -- can have been put back by its handler that many times with its packet the same, and its count is
  -- then the number modulo 2 ^ 16.
  pub handle_response-Chain :
      (k : ℕ) (msg : PacketMessage P)
      → msg.retry_count ≡ 0
      → (msg' : PacketMessage P) × Chain responding msg' k
        × (msg'.packet ≡ msg.packet)
        × (msg'.retry_count ≡ k % 2 ^ 16)
  unfolding handle_response
  handle_response-Chain zero msg new = (msg, first msg new, refl, omega (arith, new))
  handle_response-Chain (suc k) msg new =
      let (msg', chain, same, count) = handle_response-Chain k msg new in
      (
        retry_packet_message msg',
        again chain all_full 0 (retry_packet_message msg') (inl refl),
        same,
        omega (arith, count),
      )
