-- ===== src/Connect.antt =====
-- src/actors/packets/connect.rs and src/actors/packets/connack.rs: the handshake. In the status
-- actor of the connection, identifier 0 stands for connecting and identifier 1 for connected.
pub mod Handshake
pub mod Timeout
use actix_mqtt_client.Common.{
  ℕ, Bool, true, false, Option, none, some, is_some, if◌then◌else◌, String,
}
use actix_mqtt_client.Consts.{command_timeout}
use actix_mqtt_client.Mqtt.{Mqtt, VariablePacket, connect_packet}
use actix_mqtt_client.Message.{
  Letter, Address, ErrorKind, PacketMessage, PacketStatus, Connect, status_operation,
  set_packet_status, get_and_remove_packet_status, remove_packet_status, variable_packet_message,
  stop_message, interrupted, invalid_data, not_connected,
}
use actix_mqtt_client.Runtime.{
  Act, SendResult, sent, refused, Response, response, failed, ◌>>=◌, ◌>>◌, skip, try_send, do_send,
  do_send_, record_effect, ask_after, connect_check, stopped,
}
use actix_mqtt_client.Failure.{send_error}

pub record ConnectActor : Type 0 where
  pub send_recipient : Address
  pub status_recipient : Address
  pub stop_recipient : Address
  pub error_recipient : Address
  pub client_name : String

pub record ConnackActor : Type 0 where
  pub status_recipient : Address
  pub error_recipient : Address
  pub connect_stop_recipient : Address
  pub stop_recipient : Address

-- The status messages of the handshake.
abbrev pub connection_status : ℕ → PacketStatus (Unit {0})
connection_status id = record { id = id; retry_count = 0; payload = tt }

module _ (m : Mqtt) where
  abbrev set_keep_alive_option : m.ConnectPacket → Option ℕ → m.ConnectPacket
  set_keep_alive_option packet none = packet
  set_keep_alive_option packet (some keep_alive) = m.set_keep_alive packet keep_alive

  unfoldable pub connect_packet_of : String → Connect → m.ConnectPacket
  connect_packet_of client_name msg =
      set_keep_alive_option
        (m.set_password (m.set_user_name (m.connect_packet_new client_name) msg.user_name)
          msg.password)
        msg.keep_alive

  -- `send_error(..); let _ = stop_recipient.do_send(StopMessage);`
  unfoldable pub give_up : Address → Address → ErrorKind → Act m (Unit {0}) (Unit {0})
  unfolding send_error
  give_up error_recipient stop_recipient kind = do
    send_error error_recipient kind
    do_send_ stop_recipient stop_message

  -- After the connect packet was handed over.
  unfoldable pub after_packet : ConnectActor → Address → SendResult → Act m (Unit {0}) (Unit {0})
  unfolding give_up
  after_packet actor addr (refused e) =
      give_up actor.error_recipient actor.stop_recipient interrupted
  after_packet actor addr sent = record_effect (
      ask_after command_timeout actor.status_recipient
        (status_operation (get_and_remove_packet_status 0))
        (connect_check actor.error_recipient actor.stop_recipient addr))

  -- After the connecting status was stored.
  unfoldable pub after_status :
      ConnectActor → Address → Connect → SendResult → Act m (Unit {0}) (Unit {0})
  unfolding give_up after_packet connect_packet_of
  after_status actor addr msg (refused e) =
      give_up actor.error_recipient actor.stop_recipient interrupted
  after_status actor addr msg sent = do
    result ← do_send actor.send_recipient (
        variable_packet_message (record {
          packet = connect_packet (connect_packet_of actor.client_name msg);
          retry_count = 0;
        }))
    after_packet actor addr result

  unfoldable pub handle_connect : ConnectActor → Address → Connect → Act m (Unit {0}) (Unit {0})
  unfolding after_status
  handle_connect actor addr msg = do
    result ←
        do_send actor.status_recipient
          (status_operation (set_packet_status 0 (connection_status 0)))
    after_status actor addr msg result

  -- The future of the timer, once the response is there.
  unfoldable pub finish_connect_check :
      Address
      → Address
      → Address
      → Response (Option (PacketStatus (Unit {0})))
      → Act m (Unit {0}) (Unit {0})
  unfolding give_up
  finish_connect_check error_recipient stop_recipient addr (response status) =
      if is_some status
      then give_up error_recipient stop_recipient invalid_data
      else do_send_ addr stop_message
  finish_connect_check error_recipient stop_recipient addr (failed e) =
      give_up error_recipient stop_recipient invalid_data

  unfoldable pub after_mark :
      ConnackActor → Address → m.ConnackPacket → SendResult → Act m (Unit {0}) (Unit {0})
  unfolding give_up
  after_mark actor addr packet (refused e) =
      give_up actor.error_recipient actor.stop_recipient not_connected
  after_mark actor addr packet sent =
      if m.accepted packet
      then (do
        do_send_ actor.status_recipient
            (status_operation (set_packet_status 1 (connection_status 1)))
        do_send_ actor.connect_stop_recipient stop_message
        record_effect (stopped addr))
      else give_up actor.error_recipient actor.stop_recipient not_connected

  unfoldable pub handle_connack :
      ConnackActor → Address → PacketMessage m.ConnackPacket → Act m (Unit {0}) (Unit {0})
  unfolding after_mark
  handle_connack actor addr msg = do
    result ← try_send actor.status_recipient (status_operation (remove_packet_status 0))
    after_mark actor addr msg.packet result
