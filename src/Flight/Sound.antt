-- ===== src/Flight/Sound.antt =====
-- src/actors/packets/*.rs with src/actors/actions/status.rs: the statuses of the packets in flight.
use actix_mqtt_client.Common.{
  ℕ, ◌≤◌, List, [], ◌∷◌, ◌++◌, Option, none, some, ◌==◌, ◌≡◌, subst, arith, All-append, All-drop,
  inl, inr, Bool-cases, String,
}
use actix_mqtt_client.Consts.{max_retry_count}
use actix_mqtt_client.Mqtt.{Mqtt}
use actix_mqtt_client.Message.{
  Address, PacketStatus, PublishPacketStatus, StatusOperationMessage, set_packet_status,
  get_and_remove_packet_status, remove_packet_status,
}
use actix_mqtt_client.Runtime.{Trace}
use actix_mqtt_client.Observe.{status_operation_of}
use actix_mqtt_client.Status.{operate}
use actix_mqtt_client.Status.Map.{StatusMap, HasDistinctKeys, get}
use actix_mqtt_client.Status.Laws.{
  map_after, operate_option, operate-get, operate-HasDistinctKeys, map_after-HasDistinctKeys,
}
use actix_mqtt_client.Client.Start.{Actors, wired}
use actix_mqtt_client.Flight.{
  Flight, Question, Step, operated, Reach, flight_start, absorb, questions_of, handles, answers,
  fails, delivers, requests, here, next,
}
use actix_mqtt_client.Flight.Lookup.{session_after-map}
use actix_mqtt_client.Flight.Stored.{
  IsSound, OperationIsSound, AreWithin, TraceIsSound, run-TraceIsSound, resume-TraceIsSound,
}

-- Every status of the map is sound.
abbrev AllSound : StatusMap PublishPacketStatus → Type 0
AllSound map = (id : ℕ) (s : PacketStatus PublishPacketStatus) → get id map ≡ some s → IsSound id s

operate-AllSound :
    (map : StatusMap PublishPacketStatus) (msg : StatusOperationMessage PublishPacketStatus)
    → HasDistinctKeys map
    → OperationIsSound (some msg)
    → AllSound map
    → AllSound (operate map msg).0
operate-AllSound map (set_packet_status k status) d sound all id s h = elim (Bool-cases (k == id)) [
  | inl e ↦ ground (arith, operate-get map (set_packet_status k status) d id)
  | inr e ↦ all id s (ground (arith, operate-get map (set_packet_status k status) d id))
]
operate-AllSound map (get_and_remove_packet_status k) d sound all id s h =
    all id s (ground (arith, operate-get map (get_and_remove_packet_status k) d id))
operate-AllSound map (remove_packet_status k) d sound all id s h =
    all id s (ground (arith, operate-get map (remove_packet_status k) d id))

option-AllSound :
    (o : Option (StatusOperationMessage PublishPacketStatus)) (map : StatusMap PublishPacketStatus)
    → HasDistinctKeys map
    → OperationIsSound o
    → AllSound map
    → AllSound (operate_option o map)
option-AllSound none map d sound all = all
option-AllSound (some msg) map d sound all = operate-AllSound map msg d sound all

module _ {m : Mqtt} where
  map_after-AllSound :
      (trace : Trace m PublishPacketStatus) (map : StatusMap PublishPacketStatus)
      → HasDistinctKeys map
      → TraceIsSound trace
      → AllSound map
      → AllSound (map_after trace map)
  map_after-AllSound [] map d sound all = all
  map_after-AllSound (e ∷ trace) map d sound all =
      option-AllSound (status_operation_of e) (map_after trace map)
        (map_after-HasDistinctKeys trace map d) sound.0.operation
        (map_after-AllSound trace map d sound.1 all)

  questions_of-AreWithin :
      (trace : Trace m PublishPacketStatus) → TraceIsSound trace → AreWithin (questions_of trace)
  questions_of-AreWithin [] sound = tt
  questions_of-AreWithin (e ∷ trace) sound =
      All-append _ _ _ sound.0.question (questions_of-AreWithin trace sound.1)

-- No key stands twice, every status is sound, and every message that waits for its acknowledgement is
-- within the limit.
pub record FlightIsSound {m : Mqtt} (f : Flight m) : Type 0 where
  pub distinct : HasDistinctKeys f.session.status.packet_status_map
  pub sound : AllSound f.session.status.packet_status_map
  pub within : AreWithin f.questions

module _ {m : Mqtt} where
  absorb-FlightIsSound :
      (trace : Trace m PublishPacketStatus) (f : Flight m)
      → TraceIsSound trace
      → FlightIsSound f
      → FlightIsSound (absorb trace f)
  absorb-FlightIsSound trace f sound v = record {
    distinct =
        rw (session_after-map trace f.session)
          (map_after-HasDistinctKeys trace f.session.status.packet_status_map v.distinct);
    sound =
        rw (session_after-map trace f.session)
          (map_after-AllSound trace f.session.status.packet_status_map v.distinct sound v.sound);
    within = All-append _ _ _ (questions_of-AreWithin trace sound) v.within;
  }

  taken-FlightIsSound :
      (f : Flight m) (q : Question m) (questions : List (Question m))
      → AreWithin questions
      → FlightIsSound f
      → FlightIsSound (record f {
        session = operated f.session (get_and_remove_packet_status q.id);
        questions = questions;
      })
  taken-FlightIsSound f q questions within v =
      let ask = get_and_remove_packet_status q.id in
      let map = f.session.status.packet_status_map in
      record {
        distinct = operate-HasDistinctKeys map ask v.distinct;
        sound = operate-AllSound map ask v.distinct tt v.sound;
        within = within;
      }

module _ {m : Mqtt} {actors : Actors} where
  Step-FlightIsSound : {f g : Flight m} → Step m actors f g → FlightIsSound f → FlightIsSound g
  Step-FlightIsSound {f} (handles r n request e) v =
      rw e (absorb-FlightIsSound _ f (run-TraceIsSound actors r n request) v)
  Step-FlightIsSound {f} (answers r n earlier q later at e) v =
      let (one, rest) = All-drop _ earlier q later (subst AreWithin at v.within) in
      rw e (
        absorb-FlightIsSound _ _ (resume-TraceIsSound actors r n q.continuation _ one)
          (taken-FlightIsSound f q (earlier ++ later) rest v))
  Step-FlightIsSound {f} (fails r n earlier q later k at e) v =
      let (one, rest) = All-drop _ earlier q later (subst AreWithin at v.within) in
      rw e (
        absorb-FlightIsSound _ _ (resume-TraceIsSound actors r n q.continuation _ one)
          (record { distinct = v.distinct; sound = v.sound; within = rest }))
  Step-FlightIsSound (delivers r n b rest on at e) v =
      rw e (record { distinct = v.distinct; sound = v.sound; within = v.within })
  Step-FlightIsSound (requests r n force on e) v =
      rw e (record { distinct = v.distinct; sound = v.sound; within = v.within })

  Reach-FlightIsSound : {f g : Flight m} → FlightIsSound f → Reach m actors f g → FlightIsSound g
  Reach-FlightIsSound v here = v
  Reach-FlightIsSound v (next path st) = Step-FlightIsSound st (Reach-FlightIsSound v path)

-- However the handlers of the publish packets, their futures, the reports and the requests to
-- disconnect interleave, and whatever the mailboxes answer and the server sends: a status that the
-- status actor holds stands under its own identifier, and its retry count is within the limit.
pub status-IsSound :
    (m : Mqtt) (errors messages : Address) (name : String) {f : Flight m}
    → Reach m (wired errors messages name) (flight_start m (wired errors messages name)) f
    → (id : ℕ) (s : PacketStatus PublishPacketStatus)
    → get id f.session.status.packet_status_map ≡ some s
    → (s.id ≡ id) × (s.retry_count ≤ max_retry_count)
unfolding wired get
status-IsSound m errors messages name reached =
    (Reach-FlightIsSound (record { distinct = tt; sound = λ id s h. cc; within = tt })
      reached).sound
