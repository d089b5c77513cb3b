-- ===== src/Release.antt =====
-- src/actors/packets/pubrec.rs and src/actors/packets/pubrel.rs: the second half of QoS 2, as sender
-- (PUBREC is answered by PUBREL) and as receiver (PUBREL is answered by PUBCOMP).
use actix_mqtt_client.Common.{Bool, true, false, Option, none, some}
use actix_mqtt_client.Mqtt.{Mqtt, pubrel_packet, pubcomp_packet}
use actix_mqtt_client.Message.{
  Address, PacketMessage, PacketStatus, PublishPacketStatus, pending_rec, pending_rel, pending_comp,
  set_packet_status, remove_packet_status, pubrec_message, pubrel_message,
}
use actix_mqtt_client.Runtime.{Act}
use actix_mqtt_client.Sending.{SendPacketActor, SendPacketImpl, retry_packet_message, handle}

-- `PartialEq` of `PublishPacketStatus`, as far as it is used.
abbrev pub is_pending_rec : PublishPacketStatus → Bool
is_pending_rec pending_rec = true
is_pending_rec _ = false

abbrev pub is_pending_rel : PublishPacketStatus → Bool
is_pending_rel pending_rel = true
is_pending_rel _ = false

-- `if let Some(s) = status { s.payload == PendingRec } else { false }`
abbrev pub waits_for_rec : Option (PacketStatus PublishPacketStatus) → Bool
waits_for_rec none = false
waits_for_rec (some s) = is_pending_rec s.payload

-- `if let Some(s) = status { s.payload == PendingRel } else { false }`
abbrev pub waits_for_rel : Option (PacketStatus PublishPacketStatus) → Bool
waits_for_rel none = false
waits_for_rel (some s) = is_pending_rel s.payload

-- The arguments of the macro in pubrec.rs.
abbrev pub pubrec_impl : (m : Mqtt) → SendPacketImpl m PublishPacketStatus
pubrec_impl m = record {
  Msg = PacketMessage m.PubrecPacket;
  letter = pubrec_message;
  get_retry_count = λ msg. msg.retry_count;
  create_retry_message = retry_packet_message;
  create_packet_and_id = λ msg counter. (
    some (
      pubrel_packet (m.pubrel_packet_new (m.pubrec_identifier msg.packet)),
      m.pubrec_identifier msg.packet,
    ),
    counter,
  );
  create_status = λ id retry_count.
      set_packet_status id (record { id = id; retry_count = retry_count; payload = pending_comp });
  check = waits_for_rec;
}

-- The arguments of the macro in pubrel.rs.
abbrev pub pubrel_impl : (m : Mqtt) → SendPacketImpl m PublishPacketStatus
pubrel_impl m = record {
  Msg = PacketMessage m.PubrelPacket;
  letter = pubrel_message;
  get_retry_count = λ msg. msg.retry_count;
  create_retry_message = retry_packet_message;
  create_packet_and_id = λ msg counter. (
    some (
      pubcomp_packet (m.pubcomp_packet_new (m.pubrel_identifier msg.packet)),
      m.pubrel_identifier msg.packet,
    ),
    counter,
  );
  create_status = λ id retry_count. remove_packet_status id;
  check = waits_for_rel;
}

module _ (m : Mqtt) where
  unfoldable pub handle_pubrec :
      SendPacketActor
      → Address
      → PacketMessage m.PubrecPacket
      → Act m PublishPacketStatus (Unit {0})
  handle_pubrec = handle (pubrec_impl m)

  unfoldable pub handle_pubrel :
      SendPacketActor
      → Address
      → PacketMessage m.PubrelPacket
      → Act m PublishPacketStatus (Unit {0})
  handle_pubrel = handle (pubrel_impl m)
