-- ===== src/Control.antt =====
-- The messages that are not about publish packets, with the handlers of
-- src/actors/packets/{connect,connack,subscribe,suback,unsubscribe,unsuback,pingreq,pingresp}.rs on the
-- actors that src/client.rs starts, and their futures.
pub mod Rounds
pub mod Unanswered
pub mod Marks
pub mod Sending
pub mod Keeping
pub mod Connection
pub mod Connected
use actix_mqtt_client.Common.{ℕ, Bool, Option}
use actix_mqtt_client.Mqtt.{Mqtt}
use actix_mqtt_client.Message.{
  PacketMessage, PacketStatus, Connect, Subscribe, BatchSubscribe, Unsubscribe, BatchUnsubscribe,
  connect_actor, connack_actor, subscribe_actor, suback_actor, unsubscribe_actor, unsuback_actor,
  pingreq_actor, pingresp_actor,
}
use actix_mqtt_client.Runtime.{
  Act, Continuation, Response, status_check, connect_check, ping_connect_check, ping_status_check,
  skip,
}
use actix_mqtt_client.Sending.{finish_status_check}
use actix_mqtt_client.Connect.{handle_connect, handle_connack, finish_connect_check}
use actix_mqtt_client.Subscribe.{handle_subscribe, handle_batch_subscribe}
use actix_mqtt_client.Unsubscribe.{handle_unsubscribe, handle_batch_unsubscribe}
use actix_mqtt_client.Acks.{handle_suback, handle_unsuback, handle_pingresp}
use actix_mqtt_client.Ping.{
  handle_pingreq, handle_send_ping, finish_ping_connect, finish_ping_status,
}
use actix_mqtt_client.Client.Start.{Actors}

pub data ControlRequest (m : Mqtt) : Type 0 where
  to_connect : Connect → ControlRequest m
  to_subscribe : Subscribe → ControlRequest m
  to_batch_subscribe : BatchSubscribe → ControlRequest m
  to_unsubscribe : Unsubscribe → ControlRequest m
  to_batch_unsubscribe : BatchUnsubscribe → ControlRequest m
  to_ping : ℕ → ControlRequest m
  to_send_ping : ℕ → ControlRequest m
  got_connack : PacketMessage m.ConnackPacket → ControlRequest m
  got_suback : PacketMessage m.SubackPacket → ControlRequest m
  got_unsuback : PacketMessage m.UnsubackPacket → ControlRequest m
  got_pingresp : PacketMessage m.PingrespPacket → ControlRequest m

module _ (m : Mqtt) where
  module _ (actors : Actors) where
    -- The handler of a message.
    unfoldable pub run_control : ControlRequest m → Act m (Unit {0}) (Unit {0})
    run_control (to_connect msg) = handle_connect m actors.connect connect_actor msg
    run_control (to_subscribe msg) = handle_subscribe m subscribe_actor msg
    run_control (to_batch_subscribe msg) =
        handle_batch_subscribe m actors.subscribe subscribe_actor msg
    run_control (to_unsubscribe msg) = handle_unsubscribe m unsubscribe_actor msg
    run_control (to_batch_unsubscribe msg) =
        handle_batch_unsubscribe m actors.unsubscribe unsubscribe_actor msg
    run_control (to_ping last_retry_count) =
        handle_pingreq m actors.pingreq pingreq_actor last_retry_count
    run_control (to_send_ping retry_count) =
        handle_send_ping m actors.pingreq pingreq_actor retry_count
    run_control (got_connack msg) = handle_connack m actors.connack connack_actor msg
    run_control (got_suback msg) = handle_suback m actors.suback suback_actor msg
    run_control (got_unsuback msg) = handle_unsuback m actors.unsuback unsuback_actor msg
    run_control (got_pingresp msg) = handle_pingresp m actors.pingresp pingresp_actor msg

  -- A future goes on with the response of a status actor to an operation.
  unfoldable pub resume_control :
      Continuation m (Unit {0})
      → Response (Option (PacketStatus (Unit {0})))
      → Act m (Unit {0}) (Unit {0})
  resume_control (status_check error_recipient stop_recipient addr retry_msg check) =
      finish_status_check error_recipient stop_recipient addr retry_msg check
  resume_control (connect_check error_recipient stop_recipient addr) =
      finish_connect_check m error_recipient stop_recipient addr
  resume_control (ping_status_check error_recipient stop_recipient addr last_retry_count) =
      finish_ping_status m error_recipient stop_recipient addr last_retry_count
  resume_control _ = λ status. skip

  -- It goes on with the response to `StatusExistenceMessage`.
  unfoldable pub resume_existence :
      Continuation m (Unit {0}) → Response Bool → Act m (Unit {0}) (Unit {0})
  resume_existence
        (ping_connect_check status_recipient error_recipient stop_recipient addr last_retry_count) =
      finish_ping_connect m status_recipient error_recipient stop_recipient addr last_retry_count
  resume_existence _ = λ found. skip
