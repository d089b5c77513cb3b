-- ===== src/Sending.antt =====
-- src/actors/packets/mod.rs and src/actors/packets/macros.rs: storing a status, handing a packet to
-- the sender, the check after the command timeout, and the two families of actors that the macros
-- generate. The macros' arguments are a record.
pub mod Laws
use actix_mqtt_client.Common.{
  ℕ, Bool, true, false, Option, none, some, ltb, if◌then◌else◌, incr_u16,
}
use actix_mqtt_client.Consts.{max_retry_count, command_timeout}
use actix_mqtt_client.Mqtt.{Mqtt, VariablePacket}
use actix_mqtt_client.Message.{
  Letter, Address, PacketStatus, PacketMessage, StatusOperationMessage, set_packet_status,
  get_and_remove_packet_status, remove_packet_status, status_operation, variable_packet_message,
}
use actix_mqtt_client.Runtime.{
  SendResult, SendError, sent, refused, Response, response, failed, Act, Continuation, World,
  status_check, ask_after, ◌>>=◌, ◌>>◌, give, skip, try_send, do_send, do_send_, record_effect,
}
use actix_mqtt_client.Failure.{
  handle_send_error, handle_send_error_with_resend, handle_mailbox_error_with_resend,
}

module _ {m : Mqtt} {T : Type 0} where
  -- `if let Err(e) = .. { handle_send_error_with_resend(..); false } else { true }`
  unfoldable pub sent_or_resend :
      SendResult → Address → Address → Address → Letter m T → Act m T Bool
  unfolding handle_send_error_with_resend
  sent_or_resend sent error_recipient stop_recipient addr resend_msg = give true
  sent_or_resend (refused e) error_recipient stop_recipient addr resend_msg = do
    handle_send_error_with_resend e error_recipient stop_recipient addr resend_msg
    give false

  -- `if let Err(e) = .. { handle_send_error(..) }`
  unfoldable pub sent_or_report : SendResult → Address → Address → Act m T (Unit {0})
  unfolding handle_send_error
  sent_or_report sent error_recipient stop_recipient = skip
  sent_or_report (refused e) error_recipient stop_recipient =
      handle_send_error e error_recipient stop_recipient

  -- `ctx.address()` is the argument `addr`.
  unfoldable pub set_status :
      Address → Address → Address → Address → Letter m T → StatusOperationMessage T → Act m T Bool
  unfolding sent_or_resend
  set_status addr status_recipient error_recipient stop_recipient resend_msg status_message = do
    result ← try_send status_recipient (status_operation status_message)
    sent_or_resend result error_recipient stop_recipient addr resend_msg

  unfoldable pub reset_packet_status :
      Address → Address → Address → Address → ℕ → Letter m T → Act m T Bool
  unfolding sent_or_resend
  reset_packet_status addr status_recipient error_recipient stop_recipient id resend_msg = do
    result ← try_send status_recipient (status_operation (remove_packet_status id))
    sent_or_resend result error_recipient stop_recipient addr resend_msg

  unfoldable pub send_packet :
      Address → Address → Address → Address → VariablePacket m → Letter m T → Act m T Bool
  unfolding sent_or_resend
  send_packet addr send_recipient error_recipient stop_recipient packet resend_msg = do
    result ←
        try_send send_recipient
          (variable_packet_message (record { packet = packet; retry_count = 0 }))
    sent_or_resend result error_recipient stop_recipient addr resend_msg

  -- The timer of `COMMAND_TIMEOUT`, and the question that it asks.
  unfoldable pub schedule_status_check :
      Address
      → Address
      → Address
      → Address
      → ℕ
      → Letter m T
      → (Option (PacketStatus T) → Bool)
      → Act m T (Unit {0})
  schedule_status_check addr status_recipient error_recipient stop_recipient id retry_msg check =
      record_effect (
        ask_after command_timeout status_recipient
          (status_operation (get_and_remove_packet_status id))
          (status_check error_recipient stop_recipient addr retry_msg check))

  -- The future of `schedule_status_check`, once the response is there.
  unfoldable pub finish_status_check :
      Address
      → Address
      → Address
      → Letter m T
      → (Option (PacketStatus T) → Bool)
      → Response (Option (PacketStatus T))
      → Act m T (Unit {0})
  unfolding handle_mailbox_error_with_resend
  finish_status_check error_recipient stop_recipient addr retry_msg check (response status) =
      if check status then do_send_ addr retry_msg else skip
  finish_status_check error_recipient stop_recipient addr retry_msg check (failed e) =
      handle_mailbox_error_with_resend e error_recipient stop_recipient addr retry_msg

  -- The body of `assert_valid_retry_count!` where the count is exceeded.
  unfoldable pub drop_retry : Address → Address → Address → ℕ → Act m T (Unit {0})
  unfolding sent_or_report
  drop_retry status_recipient error_recipient stop_recipient id = do
    result ← do_send status_recipient (status_operation (remove_packet_status id))
    sent_or_report result error_recipient stop_recipient

  -- A part of a handler that takes identifiers from the counter and sends nothing.
  unfoldable pub with_counter : {A : Type 0} → (ℕ → A × ℕ) → Act m T A
  with_counter f r w = ((f w.id_counter).0, record w { id_counter = (f w.id_counter).1 })

-- `define_send_packet_actor!`
pub record SendPacketActor : Type 0 where
  pub status_recipient : Address
  pub send_recipient : Address
  pub error_recipient : Address
  pub stop_recipient : Address

-- The arguments of `impl_send_packet_actor!`; `letter` is the message as its mailbox carries it, and
-- `create_packet_and_id` may take an identifier from the counter.
pub record SendPacketImpl (m : Mqtt) (T : Type 0) : Type 1 where
  pub Msg : Type 0
  pub letter : Msg → Letter m T
  pub get_retry_count : Msg → ℕ
  pub create_retry_message : Msg → Msg
  pub create_packet_and_id : Msg → ℕ → Option (VariablePacket m × ℕ) × ℕ
  pub create_status : ℕ → ℕ → StatusOperationMessage T
  pub check : Option (PacketStatus T) → Bool

-- The third and fourth macro arguments that are left out default to these.
abbrev pub default_status : ℕ → ℕ → StatusOperationMessage (Unit {0})
default_status id retry_count =
    set_packet_status id (record { id = id; retry_count = retry_count; payload = tt })

-- From `set_packet_status` on: store the status, hand the packet over, and schedule the check, each
-- only if the step before it succeeded. A step that fails puts `resend_msg` back, or stops the client.
unfoldable pub store_and_send :
    {m : Mqtt} {T : Type 0}
    → SendPacketActor
    → Address
    → StatusOperationMessage T
    → VariablePacket m
    → ℕ
    → Letter m T
    → (Option (PacketStatus T) → Bool)
    → Act m T (Unit {0})
unfolding set_status send_packet schedule_status_check
store_and_send actor addr status_msg packet id resend_msg check = do
  stored ← set_status addr status_recipient error_recipient stop_recipient resend_msg status_msg
  if stored
      then (do
        handed ← send_packet addr send_recipient error_recipient stop_recipient packet resend_msg
        if handed
            then schedule_status_check addr status_recipient error_recipient stop_recipient id
                resend_msg check
            else skip)
      else skip
  where
    open actor use {status_recipient, send_recipient, error_recipient, stop_recipient}

module _ {m : Mqtt} {T : Type 0} (impl : SendPacketImpl m T) (actor : SendPacketActor) where
  open impl use {Msg}
  open actor use {status_recipient, error_recipient, stop_recipient}

  unfoldable pub handle_created : Address → Msg → Option (VariablePacket m × ℕ) → Act m T (Unit {0})
  unfolding drop_retry store_and_send
  handle_created addr msg none = skip
  handle_created addr msg (some (packet, id)) =
      if ltb max_retry_count (impl.get_retry_count msg)
      then drop_retry status_recipient error_recipient stop_recipient id
      else store_and_send actor addr (impl.create_status id (impl.get_retry_count msg)) packet id
          (impl.letter (impl.create_retry_message msg)) impl.check

  unfoldable pub handle : Address → Msg → Act m T (Unit {0})
  unfolding handle_created with_counter
  handle addr msg = do
    packet_and_id_option ← with_counter (impl.create_packet_and_id msg)
    handle_created addr msg packet_and_id_option

-- `define_response_packet_actor!`
pub record ResponsePacketActor : Type 0 where
  pub status_recipient : Address
  pub error_recipient : Address
  pub stop_recipient : Address

-- `get_retry_msg_func!`
abbrev pub retry_packet_message : {P : Type 0} → PacketMessage P → PacketMessage P
retry_packet_message msg = record msg { retry_count = incr_u16 msg.retry_count }

-- `impl_response_packet_actor!`: `get_id` and `letter` are its arguments.
unfoldable pub handle_response :
    {m : Mqtt} {T P : Type 0}
    → (P → ℕ)
    → (PacketMessage P → Letter m T)
    → ResponsePacketActor
    → Address
    → PacketMessage P
    → Act m T (Unit {0})
unfolding reset_packet_status
handle_response get_id letter actor addr msg = do
  let id = get_id msg.packet
  reset_packet_status addr actor.status_recipient actor.error_recipient actor.stop_recipient id
      (letter (retry_packet_message msg))
  skip
