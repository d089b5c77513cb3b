-- ===== src/Acks.antt =====
-- src/actors/packets/{puback,pubcomp,suback,unsuback,pingresp}.rs: the actors that end an exchange.
use actix_mqtt_client.Mqtt.{Mqtt}
use actix_mqtt_client.Message.{
  Address, PacketMessage, PublishPacketStatus, puback_message, pubcomp_message, suback_message,
  unsuback_message, pingresp_message,
}
use actix_mqtt_client.Runtime.{Act}
use actix_mqtt_client.Sending.{ResponsePacketActor, handle_response}

module _ (m : Mqtt) where
  unfoldable pub handle_puback :
      ResponsePacketActor
      → Address
      → PacketMessage m.PubackPacket
      → Act m PublishPacketStatus (Unit {0})
  handle_puback = handle_response m.puback_identifier puback_message

  unfoldable pub handle_pubcomp :
      ResponsePacketActor
      → Address
      → PacketMessage m.PubcompPacket
      → Act m PublishPacketStatus (Unit {0})
  handle_pubcomp = handle_response m.pubcomp_identifier pubcomp_message

  unfoldable pub handle_suback :
      ResponsePacketActor → Address → PacketMessage m.SubackPacket → Act m (Unit {0}) (Unit {0})
  handle_suback = handle_response m.suback_identifier suback_message

  unfoldable pub handle_unsuback :
      ResponsePacketActor → Address → PacketMessage m.UnsubackPacket → Act m (Unit {0}) (Unit {0})
  handle_unsuback = handle_response m.unsuback_identifier unsuback_message

  unfoldable pub handle_pingresp :
      ResponsePacketActor → Address → PacketMessage m.PingrespPacket → Act m (Unit {0}) (Unit {0})
  handle_pingresp = handle_response (λ packet. 0) pingresp_message
