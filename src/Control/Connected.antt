-- ===== src/Control/Connected.antt =====
-- src/client.rs with src/actors/packets/{connect,connack}.rs: what `is_connected` tells the user at any
-- time.
use actix_mqtt_client.Common.{
  ℕ, Bool, true, false, ◌&&◌, ◌||◌, List, ◌∷◌, ◌++◌, is_some, ◌≡◌, refl, subst, ap, ◌∙◌, arith, All,
  All-map, All-drop, String, Bool-cases, inl, inr,
}
use actix_mqtt_client.Mqtt.{Mqtt}
use actix_mqtt_client.Message.{PacketMessage, remove_packet_status}
use actix_mqtt_client.Runtime.{Runtime, Trace, Effect, ask_after}
use actix_mqtt_client.Status.{operate}
use actix_mqtt_client.Status.Map.{StatusMap, HasDistinctKeys, get}
use actix_mqtt_client.Status.Laws.{operate-HasDistinctKeys, get-set_self}
use actix_mqtt_client.Connect.{handle_connack, connection_status}
use actix_mqtt_client.Client.Start.{wired}
use actix_mqtt_client.Client.{MqttClient, ok}
use actix_mqtt_client.Client.Connected.{connected_now, connected_now_lem}
use actix_mqtt_client.Wiring.{actors_of}
use actix_mqtt_client.Control.{ControlRequest, got_connack, run_control}
use actix_mqtt_client.Control.Marks.{
  T, QuestionKeeps, EffectKeeps-QuestionKeeps, operation-get, letter-get, letter-HasDistinctKeys,
  map_at, map_at-get, map_at-HasDistinctKeys,
}
use actix_mqtt_client.Control.Keeping.{
  accepting, run_control-TraceKeeps, resume_control-TraceKeeps, resume_existence-TraceKeeps,
}
use actix_mqtt_client.Control.Connection.{
  Connection, starts, handles, goes_on, goes_on_existence, takes_mark, run_trace, resume_trace,
  existence_trace,
}

module _ {m : Mqtt} (name : String) (r : Runtime m T) (n : ℕ) (map : StatusMap T)
    (d : HasDistinctKeys map) where
  connack-marked :
      (msg : PacketMessage m.ConnackPacket)
      → m.accepted msg.packet ≡ true
      → is_some (get 1 (map_at (run_trace m name r n (got_connack msg)) map))
        ≡ is_some (get 1 map) || takes_mark (run_trace m name r n (got_connack msg))
  unfolding run_control wired handle_connack
  connack-marked msg h = ground (
    arith,
    operation-get (remove_packet_status 0) map d refl,
    get-set_self (operate map (remove_packet_status 0)).0
        (operate-HasDistinctKeys map (remove_packet_status 0) d) 1 (connection_status 1),
  )

  connack-QuestionKeeps :
      (msg : PacketMessage m.ConnackPacket)
      → All QuestionKeeps (run_trace m name r n (got_connack msg))
  unfolding run_control wired handle_connack
  connack-QuestionKeeps msg = ground arith

  unmarked :
      (request : ControlRequest m) (accepted : Bool)
      → accepting request ≡ false
      → is_some (get 1 map) ≡ accepted
      → is_some (get 1 (map_at (run_trace m name r n request) map))
        ≡ accepted || (accepting request && takes_mark (run_trace m name r n request))
  unmarked request accepted none_yet same =
      ap is_some (
        map_at-get (run_trace m name r n request) map d
          (run_control-TraceKeeps name r n request none_yet))
      ∙ ground (arith, same, none_yet)

  run-marked :
      (request : ControlRequest m) (accepted : Bool)
      → is_some (get 1 map) ≡ accepted
      → is_some (get 1 (map_at (run_trace m name r n request) map))
        ≡ accepted || (accepting request && takes_mark (run_trace m name r n request))
  run-marked (got_connack msg) accepted same = elim (Bool-cases (m.accepted msg.packet)) [
    | inl taken ↦ connack-marked msg taken ∙ rw taken (rw same refl)
    | inr refused ↦ unmarked (got_connack msg) accepted refused same
  ]
  run-marked _ accepted same = unmarked _ accepted refl same

  run-QuestionKeeps :
      (request : ControlRequest m) → All QuestionKeeps (run_trace m name r n request)
  run-QuestionKeeps (got_connack msg) = connack-QuestionKeeps msg
  run-QuestionKeeps _ = All-map EffectKeeps-QuestionKeeps _ (run_control-TraceKeeps name r n _ refl)

-- What holds throughout.
record IsKept {m : Mqtt} (accepted : Bool) (map : StatusMap T) (traces : List (Trace m T))
    : Type 0 where
  distinct : HasDistinctKeys map
  marked : is_some (get 1 map) ≡ accepted
  questions : All (λ (trace : Trace m T). All QuestionKeeps trace) traces

module _ {m : Mqtt} where
  -- The question that a future left behind asks.
  left-QuestionKeeps :
      {traces : List (Trace m T)} (newer older : List (Trace m T)) (later earlier : Trace m T)
      (e : Effect m T)
      → traces ≡ newer ++ ((later ++ (e ∷ earlier)) ∷ older)
      → All (λ (trace : Trace m T). All QuestionKeeps trace) traces
      → QuestionKeeps e
  left-QuestionKeeps newer older later earlier e at all =
      (All-drop QuestionKeeps later e earlier
        (All-drop (λ (trace : Trace m T). All QuestionKeeps trace) newer (later ++ (e ∷ earlier))
          older (subst (All (λ (trace : Trace m T). All QuestionKeeps trace)) at all)).0).0

module _ {m : Mqtt} {name : String} where
  Connection-IsKept :
      {accepted : Bool} {map : StatusMap T} {traces : List (Trace m T)}
      → Connection m name accepted map traces
      → IsKept accepted map traces
  unfolding get
  Connection-IsKept starts = record { distinct = tt; marked = refl; questions = tt }
  Connection-IsKept (handles {accepted} {map} {traces} before r n request) =
      let kept = Connection-IsKept before in
      record {
        distinct = map_at-HasDistinctKeys (run_trace m name r n request) map kept.distinct;
        marked = run-marked name r n map kept.distinct request accepted kept.marked;
        questions = (run-QuestionKeeps name r n map kept.distinct request, kept.questions);
      }
  Connection-IsKept
        (goes_on {accepted} {map} {traces} before newer older later earlier delay a l c at r n asked
          answer) =
      let kept = Connection-IsKept before in
      let question =
        left-QuestionKeeps newer older later earlier (ask_after delay a l c) at kept.questions in
      let d = letter-HasDistinctKeys a l asked map kept.distinct in
      let keeps = resume_control-TraceKeeps name r n c answer question.1 in
      record {
        distinct = map_at-HasDistinctKeys (resume_trace m r n c answer) _ d;
        marked =
            ap is_some (
              map_at-get (resume_trace m r n c answer) _ d keeps
              ∙ letter-get a l asked map kept.distinct question.0)
            ∙ kept.marked;
        questions = (All-map EffectKeeps-QuestionKeeps _ keeps, kept.questions);
      }
  Connection-IsKept
        (goes_on_existence {accepted} {map} {traces} before newer older later earlier delay a l c at
          r n found) =
      let kept = Connection-IsKept before in
      let question =
        left-QuestionKeeps newer older later earlier (ask_after delay a l c) at kept.questions in
      let keeps = resume_existence-TraceKeeps name r n c found question.1 in
      record {
        distinct = map_at-HasDistinctKeys (existence_trace m r n c found) map kept.distinct;
        marked =
            ap is_some (map_at-get (existence_trace m r n c found) map kept.distinct keeps)
            ∙ kept.marked;
        questions = (All-map EffectKeeps-QuestionKeeps _ keeps, kept.questions);
      }

  -- On a client as `start_actors` wires it, at any time and whatever the order of the messages and of the
  -- futures, the answers of the mailboxes and the responses that the futures get: the user is told
  -- that there is a connection exactly if a CONNACK that accepts was handled before and the status actor of
  -- the connection took its mark. So no timer, no later CONNACK and no other message ever takes it back.
  pub connected-accepted :
      {accepted : Bool} {map : StatusMap T} {traces : List (Trace m T)} (client : MqttClient)
      → Connection m name accepted map traces
      → connected_now m client (actors_of name).connect_status map ≡ ok accepted
  connected-accepted {map = map} client reached =
      connected_now_lem m client (actors_of name).connect_status map
      ∙ ap ok (Connection-IsKept reached).marked
