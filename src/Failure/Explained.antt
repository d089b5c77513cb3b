-- ===== src/Failure/Explained.antt =====
-- src/actors/packets/*.rs and src/actors/actions/*.rs on the actors of src/client.rs: why the client is told
-- to stop.
use actix_mqtt_client.Common.{ℕ, Bool, true, false, ◌||◌, Option, ◌≡◌, refl, arith, All, String}
use actix_mqtt_client.Mqtt.{Mqtt, disconnect_packet}
use actix_mqtt_client.Message.{
  Letter, PacketMessage, PacketStatus, PublishPacketStatus, variable_packet_message,
}
use actix_mqtt_client.Runtime.{
  Runtime, Trace, Effect, Continuation, Response, response, failed, MailboxError, tried,
  status_check, connect_check, ping_connect_check, ping_status_check, recv_publish_level2,
  check_status_phase_2, effects,
}
use actix_mqtt_client.Sending.{finish_status_check}
use actix_mqtt_client.Publish.Receive.{finish_level2, finish_phase_2, acknowledge}
use actix_mqtt_client.Connect.{handle_connack, finish_connect_check}
use actix_mqtt_client.Ping.{finish_ping_connect, finish_ping_status}
use actix_mqtt_client.Client.Start.{wired}
use actix_mqtt_client.Flight.{resume}
use actix_mqtt_client.Control.{got_connack, run_control, resume_control, resume_existence}
use actix_mqtt_client.Wiring.{actors_of}
use actix_mqtt_client.Failure.Reported.{
  tells_user, stops_client, is_preceded, is_preceded-weaken, FutureIsPlain, EffectIsPlain,
  IsReported,
}

module _ {m : Mqtt} {T : Type 0} where
  abbrev is_disconnect : Letter m T → Bool
  is_disconnect (variable_packet_message msg) = elim msg.packet [
    | disconnect_packet p ↦ true
    | _ ↦ false
  ]
  is_disconnect _ = false

  -- Why the client may be told to stop: the user was told of an error, or a DISCONNECT was sent.
  abbrev pub is_cause : Effect m T → Bool
  is_cause (tried a l o) = tells_user (tried a l o) || is_disconnect l
  is_cause e = false

  pub record IsExplained (trace : Trace m T) : Type 0 where
    pub explained : is_preceded stops_client is_cause trace ≡ true
    pub plain : All EffectIsPlain trace

  tells_user-is_cause : (e : Effect m T) → tells_user e ≡ true → is_cause e ≡ true
  tells_user-is_cause (tried a l o) h = rw h refl
  tells_user-is_cause _ h = cc

  pub IsReported-IsExplained : (trace : Trace m T) → IsReported trace → IsExplained trace
  IsReported-IsExplained trace h = record {
    explained =
        is_preceded-weaken stops_client tells_user is_cause tells_user-is_cause trace h.explained;
    plain = h.plain;
  }

module _ {m : Mqtt} (r : Runtime m PublishPacketStatus) (n : ℕ) where
  pub resume-IsExplained :
      (name : String) (c : Continuation m PublishPacketStatus)
      (answer : Response (Option (PacketStatus PublishPacketStatus)))
      → FutureIsPlain c
      → IsExplained (effects r n (resume m (actors_of name) c answer))
  unfolding resume wired finish_status_check finish_level2 finish_phase_2 acknowledge
  resume-IsExplained name (status_check e s addr retry check) (response status) (h, plain) =
      ground arith
  resume-IsExplained name (status_check e s addr retry check) (failed k) (h, plain) =
      rw h (ground arith)
  resume-IsExplained name (recv_publish_level2 id addr msg) (response status) plain = ground arith
  resume-IsExplained name (recv_publish_level2 id addr msg) (failed k) plain = ground arith
  resume-IsExplained name (check_status_phase_2 id addr msg) (response status) plain = ground arith
  resume-IsExplained name (check_status_phase_2 id addr msg) (failed MailboxError.closed) plain =
      ground arith
  resume-IsExplained name (check_status_phase_2 id addr msg) (failed MailboxError.timeout) plain =
      ground arith
  resume-IsExplained name _ answer h = record { explained = refl; plain = tt }

module _ {m : Mqtt} (name : String) (r : Runtime m (Unit {0})) (n : ℕ) where
  pub resume_control-IsExplained :
      (c : Continuation m (Unit {0})) (answer : Response (Option (PacketStatus (Unit {0}))))
      → FutureIsPlain c
      → IsExplained (effects r n (resume_control m c answer))
  unfolding resume_control finish_status_check finish_connect_check finish_ping_status
  resume_control-IsExplained (status_check e s addr retry check) (response status) (h, plain) =
      ground arith
  resume_control-IsExplained (status_check e s addr retry check) (failed k) (h, plain) =
      rw h (ground arith)
  resume_control-IsExplained (connect_check e s addr) (response status) (h, plain) =
      rw h (ground arith)
  resume_control-IsExplained (connect_check e s addr) (failed k) (h, plain) = rw h (ground arith)
  resume_control-IsExplained (ping_status_check e s addr k) (response status) (h, plain) =
      ground arith
  resume_control-IsExplained (ping_status_check e s addr k) (failed MailboxError.closed)
        (h, plain) =
      rw h (ground arith)
  resume_control-IsExplained (ping_status_check e s addr k) (failed MailboxError.timeout)
        (h, plain) =
      rw h (ground arith)
  resume_control-IsExplained _ answer h = record { explained = refl; plain = tt }

  pub resume_existence-IsExplained :
      (c : Continuation m (Unit {0})) (answer : Response Bool)
      → FutureIsPlain c
      → IsExplained (effects r n (resume_existence m c answer))
  unfolding resume_existence finish_ping_connect
  resume_existence-IsExplained (ping_connect_check p e s addr k) (response true) h = ground arith
  resume_existence-IsExplained (ping_connect_check p e s addr k) (response false) h = record {
    explained = refl;
    plain = tt;
  }
  resume_existence-IsExplained (ping_connect_check p e s addr k) (failed f) h = record {
    explained = refl;
    plain = tt;
  }
  resume_existence-IsExplained _ answer h = record { explained = refl; plain = tt }

  pub connack-IsExplained :
      (msg : PacketMessage m.ConnackPacket)
      → IsExplained (effects r n (run_control m (actors_of name) (got_connack msg)))
  unfolding run_control wired handle_connack
  connack-IsExplained msg = ground arith
