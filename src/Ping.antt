-- ===== src/Ping.antt =====
-- src/actors/packets/pingreq.rs: `PingreqActor`, which keeps the connection alive.
pub mod Tick
use actix_mqtt_client.Common.{
  ℕ, Bool, true, false, Option, some, is_some, ltb, if◌then◌else◌, incr_u16,
}
use actix_mqtt_client.Consts.{max_retry_count}
use actix_mqtt_client.Mqtt.{Mqtt, pingreq_packet}
use actix_mqtt_client.Message.{
  Address, PacketStatus, pingreq, send_ping, status_existence, status_operation,
  get_and_remove_packet_status,
}
use actix_mqtt_client.Runtime.{
  Act, Response, response, failed, ◌>>◌, skip, do_send_, record_effect, notified, notify_every,
  ask_after, ping_connect_check, ping_status_check,
}
use actix_mqtt_client.Failure.{handle_mailbox_error_with_resend}
use actix_mqtt_client.Sending.{SendPacketActor, SendPacketImpl, default_status, drop_retry, handle}

-- The four recipients of a `SendPacketActor`, the status of the connection, and the interval.
pub record PingreqActor : Type 0 where
  pub sender : SendPacketActor
  pub connect_status_recipient : Address
  pub interval : ℕ

module _ (m : Mqtt) where
  -- The arguments of the macro; the message is its retry count.
  abbrev pub ping_impl : SendPacketImpl m (Unit {0})
  ping_impl = record {
    Msg = ℕ;
    letter = send_ping;
    get_retry_count = λ msg. msg;
    create_retry_message = incr_u16;
    create_packet_and_id = λ msg counter. (some (pingreq_packet m.pingreq_packet_new, 0), counter);
    create_status = default_status;
    check = is_some;
  }

  unfoldable pub handle_send_ping : PingreqActor → Address → ℕ → Act m (Unit {0}) (Unit {0})
  handle_send_ping actor = handle ping_impl actor.sender

  unfoldable pub ping_started : PingreqActor → Address → Act m (Unit {0}) (Unit {0})
  ping_started actor addr = do
    record_effect (notified addr (pingreq 0))
    record_effect (notify_every actor.interval addr (pingreq 0))

  unfoldable pub handle_pingreq : PingreqActor → Address → ℕ → Act m (Unit {0}) (Unit {0})
  unfolding drop_retry
  handle_pingreq actor addr last_retry_count =
      if ltb max_retry_count last_retry_count
      then drop_retry actor.sender.status_recipient actor.sender.error_recipient
          actor.sender.stop_recipient 0
      else record_effect (
          ask_after 0 actor.connect_status_recipient (status_existence 1) (
            ping_connect_check actor.sender.status_recipient actor.sender.error_recipient
              actor.sender.stop_recipient addr last_retry_count))

  -- The future, once the status of the connection is there: without a connection nothing is done.
  unfoldable pub finish_ping_connect :
      Address → Address → Address → Address → ℕ → Response Bool → Act m (Unit {0}) (Unit {0})
  finish_ping_connect status_recipient error_recipient stop_recipient addr count (response false) =
      skip
  finish_ping_connect status_recipient error_recipient stop_recipient addr count (failed e) = skip
  finish_ping_connect status_recipient error_recipient stop_recipient addr count (response true) =
      record_effect (
        ask_after 0 status_recipient (status_operation (get_and_remove_packet_status 0))
          (ping_status_check error_recipient stop_recipient addr count))

  -- The future, once the status of the last ping is there.
  unfoldable pub finish_ping_status :
      Address
      → Address
      → Address
      → ℕ
      → Response (Option (PacketStatus (Unit {0})))
      → Act m (Unit {0}) (Unit {0})
  unfolding handle_mailbox_error_with_resend
  finish_ping_status error_recipient stop_recipient addr count (response status) =
      if is_some status then skip else do_send_ addr (send_ping 0)
  finish_ping_status error_recipient stop_recipient addr count (failed e) =
      handle_mailbox_error_with_resend e error_recipient stop_recipient addr
        (pingreq (incr_u16 count))
