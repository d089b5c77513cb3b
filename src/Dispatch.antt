-- ===== src/Dispatch.antt =====
-- src/actors/actions/dispatch.rs: `DispatchActor`, which sends every packet from the server to the
-- actor that handles its kind.
pub mod Routes
use actix_mqtt_client.Common.{ℕ}
use actix_mqtt_client.Mqtt.{
  Mqtt, VariablePacket, connect_packet, connack_packet, publish_packet, puback_packet,
  pubrec_packet, pubrel_packet, pubcomp_packet, subscribe_packet, suback_packet, unsubscribe_packet,
  unsuback_packet, pingreq_packet, pingresp_packet, disconnect_packet,
}
use actix_mqtt_client.Message.{
  Letter, Address, PacketMessage, connack_message, pingresp_message, publish_packet_message,
  puback_message, pubrec_message, pubrel_message, pubcomp_message, suback_message, unsuback_message,
}
use actix_mqtt_client.Runtime.{Act, ◌>>=◌, skip, try_send}
use actix_mqtt_client.Sending.{sent_or_report}

pub record DispatchActor : Type 0 where
  pub error_recipient : Address
  pub stop_recipient : Address
  pub connack_recipient : Address
  pub pingresp_recipient : Address
  pub publish_recipient : Address
  pub puback_recipient : Address
  pub pubrec_recipient : Address
  pub pubrel_recipient : Address
  pub pubcomp_recipient : Address
  pub suback_recipient : Address
  pub unsuback_recipient : Address

-- `PacketMessage::new($msg, 0)`
abbrev pub fresh : {P : Type 0} → P → PacketMessage P
fresh packet = record { packet = packet; retry_count = 0 }

module _ (m : Mqtt) (T : Type 0) where
  -- `send_message!`
  unfoldable pub send_message : DispatchActor → Address → Letter m T → Act m T (Unit {0})
  unfolding sent_or_report
  send_message actor target letter = do
    result ← try_send target letter
    sent_or_report result actor.error_recipient actor.stop_recipient

  unfoldable pub dispatch : DispatchActor → VariablePacket m → Act m T (Unit {0})
  unfolding send_message
  dispatch actor (connack_packet p) =
      send_message actor actor.connack_recipient (connack_message (fresh p))
  dispatch actor (pingresp_packet p) =
      send_message actor actor.pingresp_recipient (pingresp_message (fresh p))
  dispatch actor (publish_packet p) =
      send_message actor actor.publish_recipient (publish_packet_message (fresh p))
  dispatch actor (puback_packet p) =
      send_message actor actor.puback_recipient (puback_message (fresh p))
  dispatch actor (pubrec_packet p) =
      send_message actor actor.pubrec_recipient (pubrec_message (fresh p))
  dispatch actor (pubrel_packet p) =
      send_message actor actor.pubrel_recipient (pubrel_message (fresh p))
  dispatch actor (pubcomp_packet p) =
      send_message actor actor.pubcomp_recipient (pubcomp_message (fresh p))
  dispatch actor (suback_packet p) =
      send_message actor actor.suback_recipient (suback_message (fresh p))
  dispatch actor (unsuback_packet p) =
      send_message actor actor.unsuback_recipient (unsuback_message (fresh p))
  dispatch actor (connect_packet p) = skip
  dispatch actor (subscribe_packet p) = skip
  dispatch actor (unsubscribe_packet p) = skip
  dispatch actor (pingreq_packet p) = skip
  dispatch actor (disconnect_packet p) = skip
