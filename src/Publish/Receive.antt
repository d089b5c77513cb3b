-- ===== src/Publish/Receive.antt =====
-- src/actors/packets/publish.rs: `RecvPublishActor`.
use actix_mqtt_client.Common.{
  ℕ, Option, ltb, ◌==◌, ◌&&◌, not, if◌then◌else◌, incr_u16, decr_u16, is_some,
}
use actix_mqtt_client.Consts.{max_retry_count, command_timeout}
use actix_mqtt_client.Mqtt.{Mqtt, puback_packet, pubrec_packet, QoSWithPacketIdentifier}
use actix_mqtt_client.Message.{
  Letter, Address, PacketMessage, PacketStatus, PublishPacketStatus, pending_rel, publish_message,
  publish_packet_message, status_operation, set_packet_status, get_and_remove_packet_status,
  remove_packet_status,
}
use actix_mqtt_client.Runtime.{
  Act, MailboxError, Response, response, failed, ◌>>=◌, ◌>>◌, skip, try_send, do_send, do_send_,
  record_effect, ask_after, recv_publish_level2, check_status_phase_2,
}
use actix_mqtt_client.Failure.{handle_mailbox_error_with_resend}
use actix_mqtt_client.Release.{waits_for_rec}
use actix_mqtt_client.Sending.{
  retry_packet_message, sent_or_report, sent_or_resend, drop_retry, set_status, send_packet,
}
use actix_mqtt_client.Publish.Send.{publish_status}

pub record RecvPublishActor : Type 0 where
  pub status_recipient : Address
  pub send_recipient : Address
  pub error_recipient : Address
  pub stop_recipient : Address
  pub remote_message_recipient : Address

module _ (m : Mqtt) (actor : RecvPublishActor) where
  open actor use {
    status_recipient, send_recipient, error_recipient, stop_recipient, remote_message_recipient,
  }

  -- The `PublishMessage` for the user.
  abbrev pub user_message : ℕ → m.PublishPacket → Letter m PublishPacketStatus
  user_message id packet =
      publish_message
        (record { id = id; topic_name = m.topic_name packet; payload = m.payload packet })

  abbrev pub resend_letter : PacketMessage m.PublishPacket → Letter m PublishPacketStatus
  resend_letter msg = publish_packet_message (retry_packet_message msg)

  -- `resend_msg_for_publish.retry_count -= 1`
  abbrev pub resend_letter_for_publish :
      PacketMessage m.PublishPacket → Letter m PublishPacketStatus
  resend_letter_for_publish msg =
      publish_packet_message (record msg { retry_count = decr_u16 (incr_u16 msg.retry_count) })

  unfoldable pub receive_level0 :
      PacketMessage m.PublishPacket → Act m PublishPacketStatus (Unit {0})
  unfolding sent_or_report
  receive_level0 msg = do
    removed ← do_send status_recipient (status_operation (remove_packet_status 0))
    sent_or_report removed error_recipient stop_recipient
    handed ← try_send remote_message_recipient (user_message 0 msg.packet)
    sent_or_report handed error_recipient stop_recipient

  unfoldable pub receive_level1 :
      Address → PacketMessage m.PublishPacket → ℕ → Act m PublishPacketStatus (Unit {0})
  unfolding send_packet sent_or_resend
  receive_level1 addr msg id = do
    acknowledged ←
        send_packet addr send_recipient error_recipient stop_recipient
          (puback_packet (m.puback_packet_new id)) (resend_letter msg)
    if acknowledged
        then (do
          handed ← try_send remote_message_recipient (user_message id msg.packet)
          sent_or_resend handed error_recipient stop_recipient addr (resend_letter msg)
          skip)
        else skip

  -- The future's question to the status actor; `finish_level2` goes on with the response.
  unfoldable pub receive_level2 :
      Address → PacketMessage m.PublishPacket → ℕ → Act m PublishPacketStatus (Unit {0})
  receive_level2 addr msg id = record_effect (
      ask_after 0 status_recipient (status_operation (get_and_remove_packet_status id))
        (recv_publish_level2 id addr msg))

  unfoldable pub handle_publish_packet :
      Address
      → PacketMessage m.PublishPacket
      → QoSWithPacketIdentifier
      → Act m PublishPacketStatus (Unit {0})
  unfolding receive_level0 receive_level1 receive_level2 drop_retry
  handle_publish_packet addr msg QoSWithPacketIdentifier.level0 =
      if ltb max_retry_count msg.retry_count
      then drop_retry status_recipient error_recipient stop_recipient 0
      else receive_level0 msg
  handle_publish_packet addr msg (QoSWithPacketIdentifier.level1 id) =
      if ltb max_retry_count msg.retry_count
      then drop_retry status_recipient error_recipient stop_recipient id
      else receive_level1 addr msg id
  handle_publish_packet addr msg (QoSWithPacketIdentifier.level2 id) =
      if ltb max_retry_count msg.retry_count
      then drop_retry status_recipient error_recipient stop_recipient id
      else receive_level2 addr msg id

  -- `match packet.qos()`
  unfoldable pub receive :
      Address → PacketMessage m.PublishPacket → Act m PublishPacketStatus (Unit {0})
  unfolding handle_publish_packet
  receive addr msg = handle_publish_packet addr msg (m.qos msg.packet)

  -- From `SetPacketStatus(PendingRel)` on: store the status, send PUBREC, and schedule phase 2.
  unfoldable pub acknowledge :
      Address → PacketMessage m.PublishPacket → ℕ → Act m PublishPacketStatus (Unit {0})
  unfolding set_status send_packet
  acknowledge addr msg id = do
    stored ←
        set_status addr status_recipient error_recipient stop_recipient (resend_letter msg)
          (set_packet_status id (publish_status id msg.retry_count pending_rel))
    if stored
        then (do
          handed ←
              send_packet addr send_recipient error_recipient stop_recipient
                (pubrec_packet (m.pubrec_packet_new id)) (resend_letter msg)
          if handed
              then record_effect (
                  ask_after command_timeout status_recipient
                    (status_operation (get_and_remove_packet_status id))
                    (check_status_phase_2 id addr (retry_packet_message msg)))
              else skip)
        else skip

  -- The future of QoS 2, once the status is there.
  unfoldable pub finish_level2 :
      Address
      → PacketMessage m.PublishPacket
      → ℕ
      → Response (Option (PacketStatus PublishPacketStatus))
      → Act m PublishPacketStatus (Unit {0})
  unfolding acknowledge sent_or_resend handle_mailbox_error_with_resend
  finish_level2 addr msg id (response status) =
      if not (is_some status) && (msg.retry_count == 0)
      then (do
        result ← try_send remote_message_recipient (user_message id msg.packet)
        handed ←
            sent_or_resend result error_recipient stop_recipient addr
              (resend_letter_for_publish msg)
        if handed then acknowledge addr msg id else skip)
      else acknowledge addr msg id
  finish_level2 addr msg id (failed e) =
      handle_mailbox_error_with_resend e error_recipient stop_recipient addr (resend_letter msg)

  -- `check_status_phase_2`, which `delayed_resend` spawns after the command timeout.
  unfoldable pub finish_phase_2 :
      Address
      → PacketMessage m.PublishPacket
      → Response (Option (PacketStatus PublishPacketStatus))
      → Act m PublishPacketStatus (Unit {0})
  unfolding handle_mailbox_error_with_resend
  finish_phase_2 addr resend_msg (response status) =
      if waits_for_rec status then do_send_ addr (publish_packet_message resend_msg) else skip
  finish_phase_2 addr resend_msg (failed MailboxError.closed) = skip
  finish_phase_2 addr resend_msg (failed MailboxError.timeout) =
      handle_mailbox_error_with_resend MailboxError.timeout error_recipient stop_recipient addr
        (publish_packet_message resend_msg)
