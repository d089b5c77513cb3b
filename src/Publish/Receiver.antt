-- ===== src/Publish/Receiver.antt =====
-- src/actors/packets/publish.rs: what `RecvPublishActor` hands to the user and answers to the server.
use actix_mqtt_client.Common.{
  ℕ, ◌≤◌, [], Option, ◌==◌, ◌&&◌, not, if◌then◌else◌, ◌≡◌, arith, is_some, ltb_of_le,
}
use actix_mqtt_client.Consts.{max_retry_count}
use actix_mqtt_client.Mqtt.{Mqtt, QoSWithPacketIdentifier, puback_packet}
use actix_mqtt_client.Message.{
  Letter, Address, PacketMessage, PacketStatus, PublishPacketStatus, pending_rel, status_operation,
  set_packet_status, variable_packet_message,
}
use actix_mqtt_client.Runtime.{Runtime, SendResult, sent, refused, response, effects}
use actix_mqtt_client.Observe.{count, hands_packet, hands_message, puts_one_back, PutsBackOnly}
use actix_mqtt_client.Publish.Send.{publish_status}
use actix_mqtt_client.Publish.Receive.{
  RecvPublishActor, handle_publish_packet, receive, acknowledge, finish_level2, resend_letter,
}

-- 1 if the answer is that the message was taken.
abbrev pub taken : SendResult → ℕ
taken sent = 1
taken (refused e) = 0

abbrev pub pending_rel_letter :
    (m : Mqtt) → PacketMessage m.PublishPacket → ℕ → Letter m PublishPacketStatus
pending_rel_letter m msg id =
    status_operation (set_packet_status id (publish_status id msg.retry_count pending_rel))

module _ (m : Mqtt) (actor : RecvPublishActor) (addr : Address) (r : Runtime m PublishPacketStatus)
    (n : ℕ) (msg : PacketMessage m.PublishPacket) (id : ℕ) where
  -- At QoS 0 the user is handed the message exactly once, nothing is answered, and nothing comes
  -- again.
  pub receive-level0 :
      m.qos msg.packet ≡ QoSWithPacketIdentifier.level0
      → msg.retry_count ≤ max_retry_count
      → let trace = effects r n (receive m actor addr msg) in
        (count hands_message trace ≡ 1)
        × (count hands_packet trace ≡ 0)
        × (count puts_one_back trace ≡ 0)
  unfolding receive
  receive-level0 q within = rw (q, handle_publish_packet) (rw (ltb_of_le _ _ within) (ground arith))

  -- At QoS 1, within the retry limit, the PUBACK is tried exactly once; the user is handed the
  -- message, once, exactly if the sender took the PUBACK; and what comes again is the message with
  -- its count raised.
  pub receive-level1 :
      m.qos msg.packet ≡ QoSWithPacketIdentifier.level1 id
      → msg.retry_count ≤ max_retry_count
      → let trace = effects r n (receive m actor addr msg) in
        let puback : Letter m PublishPacketStatus =
          variable_packet_message
            (record { packet = puback_packet (m.puback_packet_new id); retry_count = 0 }) in
        (count hands_packet trace ≡ 1)
        × (count hands_message trace ≡ taken (r [] actor.send_recipient puback))
        × PutsBackOnly (resend_letter m actor msg) trace
  unfolding receive
  receive-level1 q within = rw (q, handle_publish_packet) (rw (ltb_of_le _ _ within) (ground arith))

  pub acknowledge_hands :
      (n' : ℕ) → count hands_message (effects r n' (acknowledge m actor addr msg id)) ≡ 0
  unfolding acknowledge
  acknowledge_hands n' = ground arith

  -- At QoS 2 the user is handed the message, once, exactly if no status was stored under the
  -- identifier and the message has not come again; with a status, the message is answered only.
  pub finish_level2-hands :
      (status : Option (PacketStatus PublishPacketStatus))
      → count hands_message (effects r n (finish_level2 m actor addr msg id (response status)))
        ≡ (if not (is_some status) && (msg.retry_count == 0) then 1 else 0)
  unfolding finish_level2 acknowledge
  finish_level2-hands status = ground arith

  -- The PUBREC is tried exactly if the status actor took `PendingRel`, and at most once; what a
  -- refused send puts back is the message with its count raised, and nothing else.
  pub acknowledge_order :
      (count hands_packet (effects r n (acknowledge m actor addr msg id))
        ≡ taken (r [] actor.status_recipient (pending_rel_letter m msg id)))
      × PutsBackOnly (resend_letter m actor msg) (effects r n (acknowledge m actor addr msg id))
  unfolding acknowledge
  acknowledge_order = ground arith
