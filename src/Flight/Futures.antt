-- ===== src/Flight/Futures.antt =====
-- src/actors/packets/*.rs: the questions that the futures leave behind, beside the statuses that they
-- store, and with them those of every actor.
use actix_mqtt_client.Common.{
  not, ◌&&◌, ◌==◌, is_some, ℕ, Bool, false, [], ◌∷◌, Option, ◌≡◌, refl, arith, inl, inr, Bool-cases,
}
use actix_mqtt_client.Mqtt.{pubrec_packet, Mqtt}
use actix_mqtt_client.Message.{
  puback_message, pubcomp_message, Letter, Address, PacketMessage, PacketStatus,
  PublishPacketStatus, variable_packet_message,
}
use actix_mqtt_client.Runtime.{
  Runtime, World, Trace, Continuation, Response, response, failed, MailboxError,
  recv_publish_level2, check_status_phase_2, status_check, effects, SendResult-cases, tried, sent,
}
use actix_mqtt_client.Sending.{finish_status_check}
use actix_mqtt_client.Acks.{handle_puback, handle_pubcomp}
use actix_mqtt_client.Publish.Receive.{
  user_message, RecvPublishActor, finish_level2, finish_phase_2, acknowledge,
}
use actix_mqtt_client.Client.Start.{Actors}
use actix_mqtt_client.Publish.Receiver.{pending_rel_letter}
use actix_mqtt_client.Flight.{
  Request, to_publish, got_publish, got_puback, got_pubrec, got_pubrel, got_pubcomp, run, resume,
  questions_of,
}
use actix_mqtt_client.Flight.Questions.{
  set_ids, stored_ids, IsPlain, IsAsking, is_status_operation, received_by-plain,
}
use actix_mqtt_client.Flight.Asking.{
  handle_publish-IsAsking, receive-IsAsking, handle_response-IsAsking, handle_pubrec-IsAsking,
  handle_pubrel-IsAsking,
}

module _ {m : Mqtt} (r : Runtime m PublishPacketStatus) where
  finish_status_check-IsAsking :
      (n : ℕ) (errors stop addr : Address) (retry : Letter m PublishPacketStatus)
      (check : Option (PacketStatus PublishPacketStatus) → Bool)
      (answer : Response (Option (PacketStatus PublishPacketStatus)))
      → is_status_operation retry ≡ false
      → IsAsking (effects r n (finish_status_check errors stop addr retry check answer))
  unfolding finish_status_check
  finish_status_check-IsAsking n errors stop addr retry check (failed e) plain =
      ((λ h. ground arith), ground arith)
  finish_status_check-IsAsking n errors stop addr retry check (response s) plain =
      elim (Bool-cases (check s)) [
        | inr e ↦ rw e ((λ h. tt), tt)
        | inl e ↦
            rw e (rw (received_by-plain retry (r [] addr retry) plain, stored_ids) ((λ h. tt), tt))
      ]

  acknowledge-IsAsking :
      (w : World m PublishPacketStatus) (actor : RecvPublishActor) (addr : Address)
      (msg : PacketMessage m.PublishPacket) (id : ℕ)
      → set_ids w.trace ≡ []
      → questions_of w.trace ≡ []
      → IsAsking (acknowledge m actor addr msg id r w).1.trace
  unfolding acknowledge
  acknowledge-IsAsking w actor addr msg id none_set none_asked =
      elim (SendResult-cases (r w.trace actor.status_recipient (pending_rel_letter m msg id))) [
        | inr (inl e) ↦ rw e (rw (none_set, none_asked) ((λ h. absurd (omega arith)), tt))
        | inr (inr e) ↦ rw e (rw (none_set, none_asked) ((λ h. absurd (omega arith)), tt))
        | inl e ↦ rw e (elim (SendResult-cases (r later actor.send_recipient rec_letter)) [
          | inl h ↦ rw h (rw (none_set, none_asked) ((λ c. (inl refl, tt)), (tt, tt)))
          | inr (inl h) ↦ rw h (rw (none_set, none_asked) ((λ c. absurd (omega arith)), tt))
          | inr (inr h) ↦ rw h (rw (none_set, none_asked) ((λ c. absurd (omega arith)), tt))
        ])
      ]
    where
      rec_letter : Letter m PublishPacketStatus
      rec_letter =
          variable_packet_message
            (record { packet = pubrec_packet (m.pubrec_packet_new id); retry_count = 0 })

      later : Trace m PublishPacketStatus
      later = tried actor.status_recipient (pending_rel_letter m msg id) sent ∷ w.trace

  finish_phase_2-IsAsking :
      (n : ℕ) (actor : RecvPublishActor) (addr : Address) (msg : PacketMessage m.PublishPacket)
      (answer : Response (Option (PacketStatus PublishPacketStatus)))
      → IsAsking (effects r n (finish_phase_2 m actor addr msg answer))
  unfolding finish_phase_2
  finish_phase_2-IsAsking n actor addr msg (response s) = ((λ h. ground arith), ground arith)
  finish_phase_2-IsAsking n actor addr msg (failed MailboxError.closed) =
      ((λ h. ground arith), ground arith)
  finish_phase_2-IsAsking n actor addr msg (failed MailboxError.timeout) =
      ((λ h. ground arith), ground arith)

  finish_level2-IsAsking :
      (n : ℕ) (actor : RecvPublishActor) (addr : Address) (msg : PacketMessage m.PublishPacket)
      (id : ℕ) (answer : Response (Option (PacketStatus PublishPacketStatus)))
      → IsAsking (effects r n (finish_level2 m actor addr msg id answer))
  unfolding finish_level2
  finish_level2-IsAsking n actor addr msg id (failed e) = ((λ h. ground arith), ground arith)
  finish_level2-IsAsking n actor addr msg id (response s) =
      elim (Bool-cases (not (is_some s) && (msg.retry_count == 0))) [
        | inr e ↦ rw e (
            acknowledge-IsAsking (record { id_counter = n; trace = [] }) actor addr msg id refl
              refl)
        | inl e ↦ rw e (elim (SendResult-cases (r [] actor.remote_message_recipient user)) [
          | inl h ↦ rw h (
              acknowledge-IsAsking
                (record {
                  id_counter = n;
                  trace = tried actor.remote_message_recipient user sent ∷ [];
                })
                actor addr msg id refl refl)
          | inr (inl h) ↦ rw h ((λ c. absurd (omega arith)), tt)
          | inr (inr h) ↦ rw h ((λ c. absurd (omega arith)), tt)
        ])
      ]
    where
      user : Letter m PublishPacketStatus
      user = user_message m actor id msg.packet

module _ {m : Mqtt} (actors : Actors) (r : Runtime m PublishPacketStatus) (n : ℕ) where
  pub run-IsAsking : (request : Request m) → IsAsking (effects r n (run m actors request))
  unfolding run handle_puback handle_pubcomp
  run-IsAsking (to_publish msg) = handle_publish-IsAsking r n _ _ msg
  run-IsAsking (got_publish msg) = receive-IsAsking r n _ _ msg
  run-IsAsking (got_puback msg) =
      handle_response-IsAsking r m.puback_identifier puback_message n _ _ msg
  run-IsAsking (got_pubrec msg) = handle_pubrec-IsAsking r n _ _ msg
  run-IsAsking (got_pubrel msg) = handle_pubrel-IsAsking r n _ _ msg
  run-IsAsking (got_pubcomp msg) =
      handle_response-IsAsking r m.pubcomp_identifier pubcomp_message n _ _ msg

  pub resume-IsAsking :
      (c : Continuation m PublishPacketStatus)
      (answer : Response (Option (PacketStatus PublishPacketStatus)))
      → IsPlain c
      → IsAsking (effects r n (resume m actors c answer))
  unfolding resume
  resume-IsAsking (status_check errors stop addr retry check) answer plain =
      finish_status_check-IsAsking r n errors stop addr retry check answer plain
  resume-IsAsking (recv_publish_level2 id addr msg) answer plain =
      finish_level2-IsAsking r n _ addr msg id answer
  resume-IsAsking (check_status_phase_2 id addr msg) answer plain =
      finish_phase_2-IsAsking r n _ addr msg answer
  resume-IsAsking _ answer plain = ((λ h. tt), tt)
