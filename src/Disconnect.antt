-- ===== src/Disconnect.antt =====
-- src/actors/packets/disconnect.rs: `DisconnectActor`, which waits for the packets in flight.
pub mod Graceful
pub mod Pending
use actix_mqtt_client.Common.{Bool, true, false, ◌&&◌, ◌||◌, if◌then◌else◌}
use actix_mqtt_client.Mqtt.{Mqtt, VariablePacket, disconnect_packet}
use actix_mqtt_client.Message.{Letter, Address, PublishPacketStatus, disconnect, stop_message}
use actix_mqtt_client.Runtime.{Act, ◌>>=◌, ◌>>◌, give, do_send_, record_effect, stopped}
use actix_mqtt_client.Sending.{send_packet}

pub record DisconnectActor : Type 0 where
  pub stop_recipient : Address
  pub error_recipient : Address
  pub send_recipient : Address
  pub packet_send_finished : Bool
  pub pending_disconnect : Bool

-- `DisconnectActor::new`
abbrev pub disconnect_actor_new : Address → Address → Address → DisconnectActor
disconnect_actor_new send_recipient error_recipient stop_recipient = record {
  stop_recipient = stop_recipient;
  error_recipient = error_recipient;
  send_recipient = send_recipient;
  packet_send_finished = true;
  pending_disconnect = false;
}

module _ (m : Mqtt) where
  unfoldable pub send_disconnect :
      DisconnectActor → Address → Bool → Act m PublishPacketStatus (Unit {0})
  unfolding send_packet
  send_disconnect actor addr force = do
    send_packet addr actor.send_recipient actor.error_recipient actor.stop_recipient
        (disconnect_packet m.disconnect_packet_new) (disconnect force)
    do_send_ actor.stop_recipient stop_message
    record_effect (stopped addr)

  -- `Disconnect { force }`
  unfoldable pub handle_disconnect :
      DisconnectActor → Address → Bool → Act m PublishPacketStatus DisconnectActor
  unfolding send_disconnect
  handle_disconnect actor addr force =
      if force || actor.packet_send_finished
      then (do send_disconnect actor addr force; give actor)
      else give (record actor { pending_disconnect = true })

  -- `PacketSendStatus { finished }`
  unfoldable pub handle_packet_send_status :
      DisconnectActor → Address → Bool → Act m PublishPacketStatus DisconnectActor
  handle_packet_send_status actor addr finished =
      if actor.pending_disconnect && finished
      then (do
        do_send_ addr (disconnect true)
        give (record actor { packet_send_finished = finished; pending_disconnect = false }))
      else give (record actor { packet_send_finished = finished })
