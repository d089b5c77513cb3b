-- ===== src/Stream.antt =====
-- src/actors/actions/send.rs and src/actors/actions/recv.rs: the two ends of the connection. Encoding
-- and parsing are the `mqtt` crate's: `encode` gives what a call leaves in the buffer and whether it
-- succeeded, and the parsed stream is a list of results, `none` for an error.
pub mod Reading
pub mod Writing
pub mod Wire
use actix_mqtt_client.Common.{
  ℕ, Bool, true, false, List, [], ◌∷◌, Option, none, some, if◌then◌else◌,
}
use actix_mqtt_client.Mqtt.{Mqtt, VariablePacket}
use actix_mqtt_client.Message.{
  Letter, Address, PacketMessage, variable_packet_message, stop_message, interrupted, not_found,
  recv_actor,
}
use actix_mqtt_client.Runtime.{
  Act, SendResult, sent, refused, ◌>>=◌, ◌>>◌, give, skip, try_send, do_send_, record_effect,
  written, stopped,
}
use actix_mqtt_client.Failure.{send_error}

-- Whether `writer` is there; `started` makes it from `stream`.
pub record SendActor : Type 0 where
  pub has_stream : Bool
  pub has_writer : Bool
  pub error_recipient : Address
  pub stop_recipient : Address

-- Whether `stream` is still there.
pub record RecvActor : Type 0 where
  pub has_stream : Bool
  pub recipient : Address
  pub error_recipient : Address
  pub stop_recipient : Address

module _ (m : Mqtt) (T : Type 0) where
  -- `SendActor::started`, where `stream` is there; it is `unwrap`ped.
  unfoldable pub send_actor_started : SendActor → SendActor
  send_actor_started actor = record actor { has_stream = false; has_writer = true }

  -- `WriteHandler::error`, which ends in `Running::Stop`.
  unfoldable pub write_error : SendActor → Act m T (Unit {0})
  unfolding send_error
  write_error actor = do
    send_error actor.error_recipient interrupted
    do_send_ actor.stop_recipient stop_message

  -- `WriteHandler::finished`
  unfoldable pub write_finished : Address → Act m T (Unit {0})
  write_finished addr = record_effect (stopped addr)

  unfoldable pub write_encoded : SendActor → List ℕ × Bool → Act m T (Unit {0})
  unfolding send_error
  write_encoded actor (buf, true) = record_effect (written buf)
  write_encoded actor (buf, false) = do
    send_error actor.error_recipient interrupted
    record_effect (written buf)

  unfoldable pub send_variable_packet :
      (VariablePacket m → List ℕ × Bool)
      → SendActor
      → PacketMessage (VariablePacket m)
      → Act m T (Unit {0})
  unfolding send_error write_encoded
  send_variable_packet encode actor msg =
      if actor.has_writer
      then write_encoded actor (encode msg.packet)
      else send_error actor.error_recipient not_found

  unfoldable pub after_forward : RecvActor → SendResult → Act m T (Unit {0})
  unfolding send_error
  after_forward actor sent = skip
  after_forward actor (refused e) = send_error actor.error_recipient interrupted

  -- `StreamHandler::handle`
  unfoldable pub forward : RecvActor → VariablePacket m → Act m T (Unit {0})
  unfolding after_forward
  forward actor item = do
    result ←
        try_send actor.recipient
          (variable_packet_message (record { packet = item; retry_count = 0 }))
    after_forward actor result

  -- `RecvActor::stopped`
  unfoldable pub recv_actor_stopped : RecvActor → Act m T (Unit {0})
  recv_actor_stopped actor = do_send_ actor.stop_recipient stop_message

  -- `StreamHandler::finished`, as actix has it by default: the end of the stream stops the actor, and
  -- `stopped` is called.
  unfoldable pub stream_finished : RecvActor → Act m T (Unit {0})
  unfolding recv_actor_stopped
  stream_finished actor = do record_effect (stopped recv_actor); recv_actor_stopped actor

  -- The stream that `unfold` makes, with the handler on each item: it ends at the first error. An
  -- empty list of items stands for a stream that is still open.
  unfoldable pub read_stream : RecvActor → List (Option (VariablePacket m)) → Act m T (Unit {0})
  unfolding send_error forward stream_finished
  read_stream actor [] = skip
  read_stream actor (some packet ∷ rest) = do forward actor packet; read_stream actor rest
  read_stream actor (none ∷ rest) = do
    send_error actor.error_recipient interrupted
    result ← try_send actor.stop_recipient stop_message
    stream_finished actor

  -- `RecvActor::started`
  unfoldable pub recv_actor_started :
      RecvActor → List (Option (VariablePacket m)) → Act m T RecvActor
  unfolding send_error read_stream
  recv_actor_started actor items =
      if actor.has_stream
      then (do read_stream actor items; give (record actor { has_stream = false }))
      else (do
        send_error actor.error_recipient not_found
        do_send_ actor.stop_recipient stop_message
        give actor)

  -- The handlers of `StopMessage` in send.rs and recv.rs.
  unfoldable pub send_handle_stop : SendActor → Address → Act m T (Unit {0})
  send_handle_stop actor addr = record_effect (stopped addr)

  unfoldable pub recv_handle_stop : RecvActor → Address → Act m T (Unit {0})
  recv_handle_stop actor addr = record_effect (stopped addr)
