-- ===== src/Control/Marks.antt =====
-- src/actors/packets/{connect,connack}.rs and src/actors/actions/status.rs: the statuses of the connection,
-- of which that under identifier 1 says that the client is connected.
use actix_mqtt_client.Common.{
  ℕ, Bool, true, false, not, ◌||◌, ◌==◌, if◌then◌else◌, [], ◌∷◌, Option, none, ◌≡◌, refl, ◌∙◌,
  arith, All,
}
use actix_mqtt_client.Mqtt.{Mqtt}
use actix_mqtt_client.Message.{
  Letter, Address, StatusOperationMessage, set_packet_status, get_and_remove_packet_status,
  remove_packet_status, status_operation, connect_status_actor, ping_status_actor,
}
use actix_mqtt_client.Runtime.{
  Trace, Effect, Continuation, SendResult, tried, did, ask_after, status_check, ping_connect_check,
}
use actix_mqtt_client.Observe.{received_by}
use actix_mqtt_client.Status.{operate}
use actix_mqtt_client.Status.Map.{StatusMap, HasDistinctKeys, get}
use actix_mqtt_client.Status.Laws.{operate_option, operate-get, operate-HasDistinctKeys}

abbrev pub T : Type 0
T = Unit {0}

abbrev pub is_connect_status : Address → Bool
is_connect_status connect_status_actor = true
is_connect_status _ = false

abbrev pub identifier_of : StatusOperationMessage T → ℕ
identifier_of (set_packet_status id s) = id
identifier_of (get_and_remove_packet_status id) = id
identifier_of (remove_packet_status id) = id

pub operation-get :
    (msg : StatusOperationMessage T) (map : StatusMap T)
    → HasDistinctKeys map
    → (identifier_of msg == 0) ≡ true
    → get 1 (operate map msg).0 ≡ get 1 map
operation-get (set_packet_status id s) map d zeroth =
    ground (arith, operate-get map (set_packet_status id s) d 1)
operation-get (get_and_remove_packet_status id) map d zeroth =
    ground (arith, operate-get map (get_and_remove_packet_status id) d 1)
operation-get (remove_packet_status id) map d zeroth =
    ground (arith, operate-get map (remove_packet_status id) d 1)

module _ {m : Mqtt} where
  -- The letter leaves the status under identifier 1 of the connection as it is.
  abbrev pub keeps : Letter m T → Address → Bool
  keeps (status_operation msg) a = not (is_connect_status a) || (identifier_of msg == 0)
  keeps _ a = true

  abbrev pub FutureKeeps : Continuation m T → Type 0
  FutureKeeps (status_check e s addr retry check) = keeps retry addr ≡ true
  FutureKeeps (ping_connect_check status e s addr k) = status ≡ ping_status_actor
  FutureKeeps _ = Unit {0}

  -- Whatever is asked later does, and so does the future that goes on.
  abbrev pub QuestionKeeps : Effect m T → Type 0
  QuestionKeeps (ask_after delay a l c) = (keeps l a ≡ true) × FutureKeeps c
  QuestionKeeps _ = Unit {0}

  abbrev pub EffectKeeps : Effect m T → Type 0
  EffectKeeps (tried a l o) = keeps l a ≡ true
  EffectKeeps (did a l o) = keeps l a ≡ true
  EffectKeeps e = QuestionKeeps e

  abbrev pub TraceKeeps : Trace m T → Type 0
  TraceKeeps trace = All EffectKeeps trace

  pub EffectKeeps-QuestionKeeps : (e : Effect m T) → EffectKeeps e → QuestionKeeps e
  EffectKeeps-QuestionKeeps (tried a l o) h = tt
  EffectKeeps-QuestionKeeps (did a l o) h = tt
  EffectKeeps-QuestionKeeps (ask_after delay a l c) h = h
  EffectKeeps-QuestionKeeps _ h = tt

  -- The operation that the status actor of the connection takes by a letter.
  abbrev pub received_at : Address → Letter m T → SendResult → Option (StatusOperationMessage T)
  received_at a l o = if is_connect_status a then received_by l o else none

  abbrev pub operation_at : Effect m T → Option (StatusOperationMessage T)
  operation_at (tried a l o) = received_at a l o
  operation_at (did a l o) = received_at a l o
  operation_at _ = none

  -- Its map after the operations of a handler.
  abbrev pub map_at : Trace m T → StatusMap T → StatusMap T
  map_at [] map = map
  map_at (e ∷ trace) map = operate_option (operation_at e) (map_at trace map)

  pub letter-HasDistinctKeys :
      (a : Address) (l : Letter m T) (o : SendResult) (map : StatusMap T)
      → HasDistinctKeys map
      → HasDistinctKeys (operate_option (received_at a l o) map)
  letter-HasDistinctKeys a (status_operation msg) o map d =
      ground (arith, operate-HasDistinctKeys map msg d)
  letter-HasDistinctKeys a _ o map d = ground arith

  pub letter-get :
      (a : Address) (l : Letter m T) (o : SendResult) (map : StatusMap T)
      → HasDistinctKeys map
      → keeps l a ≡ true
      → get 1 (operate_option (received_at a l o) map) ≡ get 1 map
  letter-get a (status_operation msg) o map d h = ground (arith, operation-get msg map d)
  letter-get a _ o map d h = ground arith

  effect-HasDistinctKeys :
      (e : Effect m T) (map : StatusMap T)
      → HasDistinctKeys map
      → HasDistinctKeys (operate_option (operation_at e) map)
  effect-HasDistinctKeys (tried a l o) map d = letter-HasDistinctKeys a l o map d
  effect-HasDistinctKeys (did a l o) map d = letter-HasDistinctKeys a l o map d
  effect-HasDistinctKeys _ map d = d

  effect-get :
      (e : Effect m T) (map : StatusMap T)
      → HasDistinctKeys map
      → EffectKeeps e
      → get 1 (operate_option (operation_at e) map) ≡ get 1 map
  effect-get (tried a l o) map d h = letter-get a l o map d h
  effect-get (did a l o) map d h = letter-get a l o map d h
  effect-get _ map d h = refl

  pub map_at-HasDistinctKeys :
      (trace : Trace m T) (map : StatusMap T)
      → HasDistinctKeys map
      → HasDistinctKeys (map_at trace map)
  map_at-HasDistinctKeys [] map d = d
  map_at-HasDistinctKeys (e ∷ trace) map d =
      effect-HasDistinctKeys e (map_at trace map) (map_at-HasDistinctKeys trace map d)

  pub map_at-get :
      (trace : Trace m T) (map : StatusMap T)
      → HasDistinctKeys map
      → TraceKeeps trace
      → get 1 (map_at trace map) ≡ get 1 map
  map_at-get [] map d h = refl
  map_at-get (e ∷ trace) map d h =
      effect-get e (map_at trace map) (map_at-HasDistinctKeys trace map d) h.0
      ∙ map_at-get trace map d h.1
