-- ===== src/Flight.antt =====
-- The publish packets in flight, as one system: the actors of
-- src/actors/packets/{publish,puback,pubrec,pubrel,pubcomp}.rs with the status actor of
-- src/actors/actions/status.rs that they share, the questions that their futures have still to ask,
-- and the disconnect actor of src/actors/packets/disconnect.rs. All operations on the statuses pass
-- through the one mailbox of the status actor, in the order in which they were sent, so that a step
-- applies those of a handler at once; its reports wait for the disconnect actor.
pub mod Questions
pub mod Asking
pub mod Futures
pub mod Stored
pub mod Sound
pub mod Lookup
pub mod Tracked
pub mod Drained
pub mod Rounds
pub mod Unanswered
pub mod Phases
pub mod Full
pub mod Loopback
pub mod Exchange
pub mod Settled
pub mod Lost
pub mod Repeated
use actix_mqtt_client.Common.{
  ℕ, ◌+◌, Bool, true, false, List, [], ◌∷◌, ◌++◌, Option, none, some, ◌≡◌, String,
}
use actix_mqtt_client.Mqtt.{Mqtt}
use actix_mqtt_client.Message.{
  Letter, Address, PacketMessage, PacketStatus, PublishPacketStatus, Publish,
  StatusOperationMessage, get_and_remove_packet_status, status_operation, send_publish_actor,
  recv_publish_actor, puback_actor, pubrec_actor, pubrel_actor, pubcomp_actor, disconnect_actor,
}
use actix_mqtt_client.Runtime.{
  Runtime, Trace, Effect, Act, Continuation, SendResult, refused, Response, response, failed,
  MailboxError, tried, did, ask_after, status_check, recv_publish_level2, check_status_phase_2,
  skip, effects,
}
use actix_mqtt_client.Observe.{count, status_operation_of}
use actix_mqtt_client.Status.{PacketStatusActor, operate}
use actix_mqtt_client.Sending.{finish_status_check}
use actix_mqtt_client.Release.{handle_pubrec, handle_pubrel}
use actix_mqtt_client.Acks.{handle_puback, handle_pubcomp}
use actix_mqtt_client.Publish.Send.{handle_publish}
use actix_mqtt_client.Publish.Receive.{receive, finish_level2, finish_phase_2}
use actix_mqtt_client.Disconnect.{handle_disconnect, handle_packet_send_status}
use actix_mqtt_client.Disconnect.Graceful.{Session, handled, report_after}
use actix_mqtt_client.Client.Start.{Actors}

-- A message to one of the actors that share the status actor of the publish packets.
pub data Request (m : Mqtt) : Type 0 where
  to_publish : Publish → Request m
  got_publish : PacketMessage m.PublishPacket → Request m
  got_puback : PacketMessage m.PubackPacket → Request m
  got_pubrec : PacketMessage m.PubrecPacket → Request m
  got_pubrel : PacketMessage m.PubrelPacket → Request m
  got_pubcomp : PacketMessage m.PubcompPacket → Request m

-- A question for the status of a packet that a future will ask, and how the future goes on.
pub record Question (m : Mqtt) : Type 0 where
  pub id : ℕ
  pub continuation : Continuation m PublishPacketStatus

module _ (m : Mqtt) (actors : Actors) where
  -- The handler of a message.
  unfoldable pub run : Request m → Act m PublishPacketStatus (Unit {0})
  run (to_publish msg) = handle_publish m actors.send_publish send_publish_actor msg
  run (got_publish msg) = receive m actors.recv_publish recv_publish_actor msg
  run (got_puback msg) = handle_puback m actors.puback puback_actor msg
  run (got_pubrec msg) = handle_pubrec m actors.pubrec pubrec_actor msg
  run (got_pubrel msg) = handle_pubrel m actors.pubrel pubrel_actor msg
  run (got_pubcomp msg) = handle_pubcomp m actors.pubcomp pubcomp_actor msg

  -- A future goes on with the response. The other continuations belong to the connection and the
  -- ping, which have status actors of their own.
  unfoldable pub resume :
      Continuation m PublishPacketStatus
      → Response (Option (PacketStatus PublishPacketStatus))
      → Act m PublishPacketStatus (Unit {0})
  resume (status_check error_recipient stop_recipient addr retry_msg check) =
      finish_status_check error_recipient stop_recipient addr retry_msg check
  resume (recv_publish_level2 id addr msg) = finish_level2 m actors.recv_publish addr msg id
  resume (check_status_phase_2 id addr resend_msg) =
      finish_phase_2 m actors.recv_publish addr resend_msg
  resume _ = λ status. skip

module _ {m : Mqtt} where
  abbrev pub question_of : Effect m PublishPacketStatus → List (Question m)
  question_of (ask_after d a (status_operation (get_and_remove_packet_status id)) c) =
      record { id = id; continuation = c } ∷ []
  question_of _ = []

  -- The questions that a handler leaves behind.
  abbrev pub questions_of : Trace m PublishPacketStatus → List (Question m)
  questions_of [] = []
  questions_of (e ∷ trace) = question_of e ++ questions_of trace

  abbrev pub is_refused : Effect m PublishPacketStatus → Bool
  is_refused (tried a l (refused e)) = true
  is_refused (did a l (refused e)) = true
  is_refused _ = false

-- The system. `refusals` counts the attempts to send that failed, and the questions.
pub record Flight (m : Mqtt) : Type 0 where
  pub session : Session
  pub questions : List (Question m)
  pub refusals : ℕ

-- The status actor handles an operation, and its report joins the mailbox of the disconnect actor.
abbrev pub operated : Session → StatusOperationMessage PublishPacketStatus → Session
operated s msg = record s {
  status = record s.status { packet_status_map = (operate s.status.packet_status_map msg).0 };
  reports = s.reports ++ report_after s.status msg ∷ [];
}

abbrev pub operated_option : Option (StatusOperationMessage PublishPacketStatus) → Session → Session
operated_option none s = s
operated_option (some msg) s = operated s msg

module _ {m : Mqtt} where
  -- The status operations that a handler got through, the oldest first.
  abbrev pub session_after : Trace m PublishPacketStatus → Session → Session
  session_after [] s = s
  session_after (e ∷ trace) s = operated_option (status_operation_of e) (session_after trace s)

  abbrev pub absorb : Trace m PublishPacketStatus → Flight m → Flight m
  absorb trace f = record {
    session = session_after trace f.session;
    questions = questions_of trace ++ f.questions;
    refusals = count is_refused trace + f.refusals;
  }

module _ (m : Mqtt) (actors : Actors) (r : Runtime m PublishPacketStatus) (n : ℕ)
    (q : Question m) where
  -- The question between `earlier` and `later` is answered by the status actor.
  abbrev pub answered : List (Question m) → List (Question m) → Flight m → Flight m
  answered earlier later f =
      let ask = get_and_remove_packet_status q.id in
      let status = (operate f.session.status.packet_status_map ask).1 in
      absorb (effects r n (resume m actors q.continuation (response status)))
        (record f { session = operated f.session ask; questions = earlier ++ later })

  -- It fails.
  abbrev pub unanswered : MailboxError → List (Question m) → List (Question m) → Flight m → Flight m
  unanswered e earlier later f =
      absorb (effects r n (resume m actors q.continuation (failed e)))
        (record f { questions = earlier ++ later; refusals = f.refusals + 1 })

-- A message is handled; a question is answered, or fails; the oldest report is delivered; the user, or
-- the disconnect actor itself, asks to disconnect, forced or not. The disconnect actor takes part as
-- long as it runs.
pub data Step (m : Mqtt) (actors : Actors) (f g : Flight m) : Type 0 where
  handles :
      (r : Runtime m PublishPacketStatus) (n : ℕ) (request : Request m)
      → g ≡ absorb (effects r n (run m actors request)) f
      → Step m actors f g
  answers :
      (r : Runtime m PublishPacketStatus) (n : ℕ) (earlier : List (Question m)) (q : Question m)
      (later : List (Question m))
      → f.questions ≡ earlier ++ (q ∷ later)
      → g ≡ answered m actors r n q earlier later f
      → Step m actors f g
  fails :
      (r : Runtime m PublishPacketStatus) (n : ℕ) (earlier : List (Question m)) (q : Question m)
      (later : List (Question m)) (e : MailboxError)
      → f.questions ≡ earlier ++ (q ∷ later)
      → g ≡ unanswered m actors r n q e earlier later f
      → Step m actors f g
  delivers :
      (r : Runtime m PublishPacketStatus) (n : ℕ) (b : Bool) (rest : List Bool)
      → f.session.running ≡ true
      → f.session.reports ≡ b ∷ rest
      → g ≡ record f {
        session =
            handled r n
              (handle_packet_send_status m f.session.actor disconnect_actor b)
              (record f.session { reports = rest });
      }
      → Step m actors f g
  requests :
      (r : Runtime m PublishPacketStatus) (n : ℕ) (force : Bool)
      → f.session.running ≡ true
      → g ≡ record f {
        session =
            handled r n (handle_disconnect m f.session.actor disconnect_actor force) f.session;
      }
      → Step m actors f g

-- Any number of steps.
pub data Reach (m : Mqtt) (actors : Actors) (f : Flight m) : Flight m → Type 0 where
  here : Reach m actors f f
  next : {g h : Flight m} → Reach m actors f g → Step m actors g h → Reach m actors f h

-- The system as `start_actors` makes it.
abbrev pub flight_start : (m : Mqtt) → Actors → Flight m
flight_start m actors = record {
  session = record {
    actor = actors.disconnect;
    status = actors.publish_status;
    reports = [];
    running = true;
    attempts = 0;
  };
  questions = [];
  refusals = 0;
}
