-- ===== src/Failure/Controlling.antt =====
-- src/actors/packets/*.rs on the actors of src/client.rs: the handlers that are not about publish packets
-- report what fails.
use actix_mqtt_client.Common.{refl, ℕ, Bool, true, false, ◌≡◌, arith, String}
use actix_mqtt_client.Mqtt.{Mqtt}
use actix_mqtt_client.Message.{
  user_error_recipient, user_message_recipient, subscribe_status_actor, subscribe_actor,
  unsubscribe_status_actor, unsubscribe_actor, ping_status_actor, pingreq_actor, suback_actor,
  unsuback_actor, pingresp_actor, suback_message, unsuback_message, pingresp_message,
}
use actix_mqtt_client.Runtime.{Runtime, effects}
use actix_mqtt_client.Connect.{handle_connect, handle_connack}
use actix_mqtt_client.Subscribe.{subscribe_impl, handle_subscribe, handle_batch_subscribe}
use actix_mqtt_client.Unsubscribe.{unsubscribe_impl, handle_unsubscribe, handle_batch_unsubscribe}
use actix_mqtt_client.Acks.{handle_suback, handle_unsuback, handle_pingresp}
use actix_mqtt_client.Ping.{ping_impl, handle_pingreq, handle_send_ping}
use actix_mqtt_client.Client.Start.{wired}
use actix_mqtt_client.Control.{
  ControlRequest, to_connect, to_subscribe, to_batch_subscribe, to_unsubscribe,
  to_batch_unsubscribe, to_ping, to_send_ping, got_connack, got_suback, got_unsuback, got_pingresp,
  run_control,
}
use actix_mqtt_client.Failure.Reported.{IsReported}
use actix_mqtt_client.Failure.Sending.{handle-IsReported, handle_response-IsReported}

abbrev pub is_connack : {m : Mqtt} → ControlRequest m → Bool
is_connack (got_connack msg) = true
is_connack _ = false

module _ {m : Mqtt} (name : String) (r : Runtime m (Unit {0})) (n : ℕ) where
  pub run_control-IsReported :
      (request : ControlRequest m)
      → is_connack request ≡ false
      → IsReported (
          effects r n
            (run_control m (wired user_error_recipient user_message_recipient name) request))
  unfolding run_control wired handle_connect handle_connack handle_subscribe handle_batch_subscribe
      handle_unsubscribe handle_batch_unsubscribe handle_pingreq handle_send_ping handle_suback
      handle_unsuback handle_pingresp
  run_control-IsReported (to_connect msg) h = ground arith
  run_control-IsReported (to_subscribe msg) h = ground arith
  run_control-IsReported (to_batch_subscribe msg) h =
      handle-IsReported subscribe_status_actor subscribe_actor refl (subscribe_impl m) r n msg
  run_control-IsReported (to_unsubscribe msg) h = ground arith
  run_control-IsReported (to_batch_unsubscribe msg) h =
      handle-IsReported unsubscribe_status_actor unsubscribe_actor refl (unsubscribe_impl m) r n msg
  run_control-IsReported (to_ping last_retry_count) h = ground arith
  run_control-IsReported (to_send_ping retry_count) h =
      handle-IsReported ping_status_actor pingreq_actor refl (ping_impl m) r n retry_count
  run_control-IsReported (got_connack msg) h = cc
  run_control-IsReported (got_suback msg) h =
      handle_response-IsReported subscribe_status_actor suback_actor refl r n _ suback_message msg
  run_control-IsReported (got_unsuback msg) h =
      handle_response-IsReported unsubscribe_status_actor unsuback_actor refl r n _ unsuback_message
        msg
  run_control-IsReported (got_pingresp msg) h =
      handle_response-IsReported ping_status_actor pingresp_actor refl r n _ pingresp_message msg
