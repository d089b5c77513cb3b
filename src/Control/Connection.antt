-- ===== src/Control/Connection.antt =====
-- src/actors/packets/{connect,connack}.rs with the other actors of src/client.rs that are not about publish
-- packets, their futures, and the status actor of the connection, whatever the order in which they run.
use actix_mqtt_client.Common.{
  ℕ, Bool, false, ◌==◌, ◌&&◌, ◌||◌, List, [], ◌∷◌, ◌++◌, Option, ◌≡◌, String,
}
use actix_mqtt_client.Mqtt.{Mqtt}
use actix_mqtt_client.Message.{
  Letter, Address, PacketStatus, set_packet_status, status_operation, connect_status_actor,
}
use actix_mqtt_client.Runtime.{
  Runtime, Trace, Effect, Continuation, Response, SendResult, sent, did, ask_after, effects,
}
use actix_mqtt_client.Status.Map.{StatusMap}
use actix_mqtt_client.Status.Laws.{operate_option}
use actix_mqtt_client.Wiring.{actors_of}
use actix_mqtt_client.Control.{ControlRequest, run_control, resume_control, resume_existence}
use actix_mqtt_client.Control.Marks.{T, received_at, map_at}
use actix_mqtt_client.Control.Keeping.{accepting}

module _ {m : Mqtt} where
  -- The status actor of the connection takes the mark that the client is connected.
  abbrev is_mark : Effect m T → Bool
  is_mark (did connect_status_actor (status_operation (set_packet_status id s)) sent) = id == 1
  is_mark _ = false

  abbrev pub takes_mark : Trace m T → Bool
  takes_mark [] = false
  takes_mark (e ∷ trace) = is_mark e || takes_mark trace

module _ (m : Mqtt) (name : String) (r : Runtime m T) (n : ℕ) where
  abbrev pub run_trace : ControlRequest m → Trace m T
  run_trace request = effects r n (run_control m (actors_of name) request)

module _ (m : Mqtt) (r : Runtime m T) (n : ℕ) (c : Continuation m T) where
  abbrev pub resume_trace : Response (Option (PacketStatus T)) → Trace m T
  resume_trace answer = effects r n (resume_control m c answer)

  abbrev pub existence_trace : Response Bool → Trace m T
  existence_trace found = effects r n (resume_existence m c found)

-- What can happen: a message is handled, and a future that an earlier handler or future left behind asks
-- its question, which is lost or gets to the status actor, and goes on with any response. `accepted` tells
-- whether a CONNACK that accepts was among the messages, of which the status actor took the mark; `map` is
-- the map of the status actor of the connection, and `traces` what was done so far.
pub data Connection (m : Mqtt) (name : String)
    : (accepted : Bool) → (map : StatusMap T) → (traces : List (Trace m T)) → Type 0 where
  starts : Connection m name false [] []
  handles :
      {accepted : Bool} {map : StatusMap T} {traces : List (Trace m T)}
      → Connection m name accepted map traces
      → (r : Runtime m T) (n : ℕ) (request : ControlRequest m)
      → Connection m name
          (accepted || (accepting request && takes_mark (run_trace m name r n request)))
          (map_at (run_trace m name r n request) map)
          (run_trace m name r n request ∷ traces)
  goes_on :
      {accepted : Bool} {map : StatusMap T} {traces : List (Trace m T)}
      → Connection m name accepted map traces
      → (newer older : List (Trace m T)) (later earlier : Trace m T) (delay : ℕ) (a : Address)
        (l : Letter m T) (c : Continuation m T)
      → traces ≡ newer ++ ((later ++ (ask_after delay a l c ∷ earlier)) ∷ older)
      → (r : Runtime m T) (n : ℕ) (asked : SendResult) (answer : Response (Option (PacketStatus T)))
      → Connection m name accepted
          (map_at (resume_trace m r n c answer) (operate_option (received_at a l asked) map))
          (resume_trace m r n c answer ∷ traces)
  goes_on_existence :
      {accepted : Bool} {map : StatusMap T} {traces : List (Trace m T)}
      → Connection m name accepted map traces
      → (newer older : List (Trace m T)) (later earlier : Trace m T) (delay : ℕ) (a : Address)
        (l : Letter m T) (c : Continuation m T)
      → traces ≡ newer ++ ((later ++ (ask_after delay a l c ∷ earlier)) ∷ older)
      → (r : Runtime m T) (n : ℕ) (found : Response Bool)
      → Connection m name accepted
          (map_at (existence_trace m r n c found) map)
          (existence_trace m r n c found ∷ traces)
