-- ===== src/Control/Keeping.antt =====
-- src/actors/packets/*.rs on the actors of src/client.rs: the handlers and futures that leave the mark of
-- the connection as it is, which are all but that of CONNACK.
use actix_mqtt_client.Common.{ℕ, Bool, true, false, Option, ◌≡◌, refl, arith, String}
use actix_mqtt_client.Mqtt.{Mqtt}
use actix_mqtt_client.Message.{
  PacketStatus, user_error_recipient, user_message_recipient, subscribe_status_actor,
  subscribe_actor, unsubscribe_status_actor, unsubscribe_actor, ping_status_actor, pingreq_actor,
  suback_actor, unsuback_actor, pingresp_actor, suback_message, unsuback_message, pingresp_message,
}
use actix_mqtt_client.Runtime.{
  Runtime, effects, Response, response, failed, MailboxError, Continuation, status_check,
  connect_check, ping_connect_check, ping_status_check,
}
use actix_mqtt_client.Connect.{handle_connect, handle_connack, finish_connect_check}
use actix_mqtt_client.Subscribe.{subscribe_impl, handle_subscribe, handle_batch_subscribe}
use actix_mqtt_client.Unsubscribe.{unsubscribe_impl, handle_unsubscribe, handle_batch_unsubscribe}
use actix_mqtt_client.Acks.{handle_suback, handle_unsuback, handle_pingresp}
use actix_mqtt_client.Ping.{
  ping_impl, handle_pingreq, handle_send_ping, finish_ping_connect, finish_ping_status,
}
use actix_mqtt_client.Client.Start.{wired}
use actix_mqtt_client.Control.{
  ControlRequest, to_connect, to_subscribe, to_batch_subscribe, to_unsubscribe,
  to_batch_unsubscribe, to_ping, to_send_ping, got_connack, got_suback, got_unsuback, got_pingresp,
  run_control, resume_control, resume_existence,
}
use actix_mqtt_client.Control.Marks.{FutureKeeps, TraceKeeps}
use actix_mqtt_client.Control.Sending.{
  handle-TraceKeeps, handle_response-TraceKeeps, finish_status_check-TraceKeeps,
}

-- The message is a CONNACK that accepts.
abbrev pub accepting : {m : Mqtt} → ControlRequest m → Bool
accepting {m} (got_connack msg) = m.accepted msg.packet
accepting _ = false

module _ {m : Mqtt} (name : String) (r : Runtime m (Unit {0})) (n : ℕ) where
  pub run_control-TraceKeeps :
      (request : ControlRequest m)
      → accepting request ≡ false
      → TraceKeeps (
          effects r n
            (run_control m (wired user_error_recipient user_message_recipient name) request))
  unfolding run_control wired handle_connect handle_connack handle_subscribe handle_batch_subscribe
      handle_unsubscribe handle_batch_unsubscribe handle_pingreq handle_send_ping handle_suback
      handle_unsuback handle_pingresp
  run_control-TraceKeeps (to_connect msg) h = ground arith
  run_control-TraceKeeps (to_subscribe msg) h = ground arith
  run_control-TraceKeeps (to_batch_subscribe msg) h =
      handle-TraceKeeps subscribe_status_actor subscribe_actor (λ o. refl) (subscribe_impl m)
        (λ msg'. refl) r n msg
  run_control-TraceKeeps (to_unsubscribe msg) h = ground arith
  run_control-TraceKeeps (to_batch_unsubscribe msg) h =
      handle-TraceKeeps unsubscribe_status_actor unsubscribe_actor (λ o. refl) (unsubscribe_impl m)
        (λ msg'. refl) r n msg
  run_control-TraceKeeps (to_ping last_retry_count) h = ground arith
  run_control-TraceKeeps (to_send_ping retry_count) h =
      handle-TraceKeeps ping_status_actor pingreq_actor (λ o. refl) (ping_impl m) (λ msg'. refl) r n
        retry_count
  run_control-TraceKeeps (got_connack msg) h = ground arith
  run_control-TraceKeeps (got_suback msg) h =
      handle_response-TraceKeeps subscribe_status_actor suback_actor (λ o. refl) r n _
        suback_message (λ msg'. refl) msg
  run_control-TraceKeeps (got_unsuback msg) h =
      handle_response-TraceKeeps unsubscribe_status_actor unsuback_actor (λ o. refl) r n _
        unsuback_message (λ msg'. refl) msg
  run_control-TraceKeeps (got_pingresp msg) h =
      handle_response-TraceKeeps ping_status_actor pingresp_actor (λ o. refl) r n _ pingresp_message
        (λ msg'. refl) msg

  pub resume_control-TraceKeeps :
      (c : Continuation m (Unit {0})) (answer : Response (Option (PacketStatus (Unit {0}))))
      → FutureKeeps c
      → TraceKeeps (effects r n (resume_control m c answer))
  unfolding resume_control finish_connect_check finish_ping_status
  resume_control-TraceKeeps (status_check errors stop addr retry check) answer h =
      finish_status_check-TraceKeeps r n errors stop addr retry check answer h
  resume_control-TraceKeeps (connect_check errors stop addr) (response status) h = ground arith
  resume_control-TraceKeeps (connect_check errors stop addr) (failed k) h = ground arith
  resume_control-TraceKeeps (ping_status_check errors stop addr k) (response status) h =
      ground arith
  resume_control-TraceKeeps (ping_status_check errors stop addr k) (failed MailboxError.closed) h =
      ground arith
  resume_control-TraceKeeps (ping_status_check errors stop addr k) (failed MailboxError.timeout) h =
      ground arith
  resume_control-TraceKeeps _ answer h = tt

  pub resume_existence-TraceKeeps :
      (c : Continuation m (Unit {0})) (answer : Response Bool)
      → FutureKeeps c
      → TraceKeeps (effects r n (resume_existence m c answer))
  unfolding resume_existence finish_ping_connect
  resume_existence-TraceKeeps (ping_connect_check status errors stop addr k) (response true) h =
      rw h (ground arith)
  resume_existence-TraceKeeps (ping_connect_check status errors stop addr k) (response false) h = tt
  resume_existence-TraceKeeps (ping_connect_check status errors stop addr k) (failed e) h = tt
  resume_existence-TraceKeeps _ answer h = tt
