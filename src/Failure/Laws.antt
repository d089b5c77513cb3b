-- ===== src/Failure/Laws.antt =====
-- What the error handlers of src/actors/mod.rs do to the effects.
use actix_mqtt_client.Common.{ℕ, ◌+◌, ◌≡◌, arith}
use actix_mqtt_client.Mqtt.{Mqtt}
use actix_mqtt_client.Message.{Letter, Address}
use actix_mqtt_client.Runtime.{SendError, MailboxError, Runtime, effects}
use actix_mqtt_client.Observe.{count, reports_error, tells_stop, puts_one_back, PutsBackOnly}
use actix_mqtt_client.Failure.{
  handle_send_error, handle_send_error_with_resend, handle_mailbox_error_with_resend,
}

abbrev pub is_closed : SendError → ℕ
is_closed SendError.closed = 1
is_closed SendError.full = 0

module _ {m : Mqtt} {T : Type 0} (r : Runtime m T) (n : ℕ)
    (error_recipient stop_recipient addr : Address) (msg : Letter m T) where
  -- A refused send is reported exactly once. It tells the client to stop exactly if the mailbox was
  -- closed; otherwise the variant with resend puts exactly that message back, and the other none.
  pub handle_send_error-effects :
      (e : SendError)
      → let plain = effects r n (handle_send_error e error_recipient stop_recipient) in
        let again =
          effects r n (handle_send_error_with_resend e error_recipient stop_recipient addr msg) in
        (count reports_error plain ≡ 1)
        × (count tells_stop plain ≡ is_closed e)
        × (count puts_one_back plain ≡ 0)
        × (count reports_error again ≡ 1)
        × (count tells_stop again ≡ is_closed e)
        × (count puts_one_back again + is_closed e ≡ 1)
        × PutsBackOnly msg again
  unfolding handle_send_error handle_send_error_with_resend
  handle_send_error-effects SendError.closed = ground arith
  handle_send_error-effects SendError.full = ground arith

  -- A failed question is reported exactly once, and then either the client is told to stop or exactly
  -- that message is put back, never both and never neither.
  pub handle_mailbox_error-effects :
      (e : MailboxError)
      → let trace =
          effects r n
            (handle_mailbox_error_with_resend e error_recipient stop_recipient addr msg) in
        (count reports_error trace ≡ 1)
        × (count tells_stop trace + count puts_one_back trace ≡ 1)
        × PutsBackOnly msg trace
  unfolding handle_mailbox_error_with_resend
  handle_mailbox_error-effects MailboxError.closed = ground arith
  handle_mailbox_error-effects MailboxError.timeout = ground arith
