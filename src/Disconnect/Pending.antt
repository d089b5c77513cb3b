-- ===== src/Disconnect/Pending.antt =====
-- src/actors/packets/disconnect.rs with src/actors/actions/status.rs: what becomes of a request that
-- had to wait.
use actix_mqtt_client.Common.{Bool, List, [], ◌∷◌}
use actix_mqtt_client.Mqtt.{Mqtt}
use actix_mqtt_client.Message.{Address, PublishPacketStatus}
use actix_mqtt_client.Runtime.{Runtime, Act, ◌>>=◌, give}
use actix_mqtt_client.Disconnect.{DisconnectActor, handle_packet_send_status}

module _ (m : Mqtt) (addr : Address) where
  -- The reports of a mailbox, the oldest first.
  unfoldable pub deliver_reports :
      DisconnectActor → List Bool → Act m PublishPacketStatus DisconnectActor
  unfolding handle_packet_send_status
  deliver_reports actor [] = give actor
  deliver_reports actor (b ∷ rest) = do
    actor' ← handle_packet_send_status m actor addr b
    deliver_reports actor' rest

  -- The actor after a report.
  abbrev heard : DisconnectActor → Bool → Bool → DisconnectActor
  heard actor finished pending = record actor {
    packet_send_finished = finished;
    pending_disconnect = pending;
  }
