-- ===== src/Failure.antt =====
-- src/actors/mod.rs: what an actor does when a mailbox refuses a message.
pub mod Laws
pub mod Reported
pub mod Sending
pub mod Publishing
pub mod Controlling
pub mod Handlers
pub mod Explained
pub mod Stops
use actix_mqtt_client.Common.{ℕ}
use actix_mqtt_client.Consts.{resend_delay}
use actix_mqtt_client.Mqtt.{Mqtt}
use actix_mqtt_client.Message.{
  Letter, Address, ErrorKind, error_message, stop_message, interrupted, other,
}
use actix_mqtt_client.Runtime.{
  SendError, MailboxError, Act, ◌>>◌, skip, try_send, do_send_, record_effect, resend_after,
}

module _ {m : Mqtt} {T : Type 0} where
  -- The result of the send is only logged.
  unfoldable pub send_error : Address → ErrorKind → Act m T (Unit {0})
  send_error error_recipient kind = try_send error_recipient (error_message kind) >> skip

  unfoldable pub resend : Address → Letter m T → Act m T (Unit {0})
  resend addr msg = record_effect (resend_after resend_delay addr msg)

  unfoldable pub handle_send_error : SendError → Address → Address → Act m T (Unit {0})
  unfolding send_error
  handle_send_error SendError.closed error_recipient stop_recipient = do
    send_error error_recipient interrupted
    do_send_ stop_recipient stop_message
  handle_send_error SendError.full error_recipient stop_recipient = send_error error_recipient other

  unfoldable pub handle_send_error_with_resend :
      SendError → Address → Address → Address → Letter m T → Act m T (Unit {0})
  unfolding send_error resend
  handle_send_error_with_resend SendError.closed error_recipient stop_recipient addr msg = do
    send_error error_recipient interrupted
    do_send_ stop_recipient stop_message
  handle_send_error_with_resend SendError.full error_recipient stop_recipient addr msg = do
    send_error error_recipient other
    resend addr msg

  unfoldable pub handle_mailbox_error_with_resend :
      MailboxError → Address → Address → Address → Letter m T → Act m T (Unit {0})
  unfolding send_error resend
  handle_mailbox_error_with_resend MailboxError.closed error_recipient stop_recipient addr msg = do
    send_error error_recipient interrupted
    do_send_ stop_recipient stop_message
  handle_mailbox_error_with_resend MailboxError.timeout error_recipient stop_recipient addr msg = do
    send_error error_recipient other
    resend addr msg
