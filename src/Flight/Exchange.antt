-- ===== src/Flight/Exchange.antt =====
-- src/actors/packets/{publish,puback,pubrec,pubrel,pubcomp}.rs with src/actors/actions/dispatch.rs and the
-- status actor: a message and all its acknowledgements between two clients, where the mailboxes take what
-- is sent and no packet is lost.
use actix_mqtt_client.Common.{
  ℕ, zero, suc, Bool, false, List, [], ◌∷◌, ◌++◌, Option, none, some, ◌==◌, if◌then◌else◌, ◌≡◌, All,
}
use actix_mqtt_client.Mqtt.{Mqtt, VariablePacket}
use actix_mqtt_client.Message.{
  Letter, PublishMessage, PublishPacketStatus, publish_packet_message, puback_message,
  pubrec_message, pubrel_message, pubcomp_message, get_and_remove_packet_status,
}
use actix_mqtt_client.Runtime.{Trace, Effect, tried, sent, ask_after, response, effects, calm}
use actix_mqtt_client.Status.{operate}
use actix_mqtt_client.Status.Map.{StatusMap, get}
use actix_mqtt_client.Status.Laws.{map_after}
use actix_mqtt_client.Dispatch.{dispatch}
use actix_mqtt_client.Client.Start.{Actors}
use actix_mqtt_client.Flight.{
  Request, Question, got_publish, got_puback, got_pubrec, got_pubrel, got_pubcomp, questions_of,
  run, resume,
}
use actix_mqtt_client.Flight.Loopback.{T, packets_of, messages_of}

-- What one of the two clients has: its statuses, the messages that its user was given, and its timers.
pub record Peer (m : Mqtt) : Type 0 where
  pub map : StatusMap PublishPacketStatus
  pub messages : List PublishMessage
  pub timers : List (Question m)

module _ {m : Mqtt} where
  -- The messages of the dispatch actor that are about publish packets.
  abbrev request_of : Letter m T → List (Request m)
  request_of (publish_packet_message msg) = got_publish msg ∷ []
  request_of (puback_message msg) = got_puback msg ∷ []
  request_of (pubrec_message msg) = got_pubrec msg ∷ []
  request_of (pubrel_message msg) = got_pubrel msg ∷ []
  request_of (pubcomp_message msg) = got_pubcomp msg ∷ []
  request_of l = []

  abbrev requests_of : Trace m T → List (Request m)
  requests_of [] = []
  requests_of (tried a l sent ∷ trace) = request_of l ++ requests_of trace
  requests_of (e ∷ trace) = requests_of trace

  -- The questions that are asked at once, and those that a timer asks.
  abbrev asked_now : Effect m T → Bool
  asked_now (ask_after delay a l c) = delay == 0
  asked_now e = false

  abbrev now_of : Trace m T → List (Question m)
  now_of [] = []
  now_of (e ∷ trace) = (if asked_now e then questions_of (e ∷ []) else []) ++ now_of trace

  abbrev timers_of : Trace m T → List (Question m)
  timers_of [] = []
  timers_of (e ∷ trace) = (if asked_now e then [] else questions_of (e ∷ [])) ++ timers_of trace

module _ (m : Mqtt) (actors : Actors) where
  -- Questions that are asked at once are answered, and the futures go on; the oldest first.
  abbrev answer_all : List (Question m) → StatusMap T → StatusMap T × Trace m T
  answer_all [] map = (map, [])
  answer_all (q ∷ questions) map =
      let (map', earlier) = answer_all questions map in
      let (map'', status) = operate map' (get_and_remove_packet_status q.id) in
      let trace = effects calm 0 (resume m actors q.continuation (response status)) in
      (map_after trace map'', trace ++ earlier)

  -- A message is handled: the client afterwards, and the packets that it hands over.
  unfoldable pub handled : ℕ → Request m → Peer m → Peer m × List (VariablePacket m)
  handled n request peer =
      let trace = effects calm n (run m actors request) in
      let (map', futures) = answer_all (now_of trace) (map_after trace peer.map) in
      let all = futures ++ trace in
      (
        record {
          map = map';
          messages = messages_of all ++ peer.messages;
          timers = timers_of all ++ peer.timers;
        },
        packets_of all,
      )

  abbrev all_handled : List (Request m) → Peer m → Peer m × List (VariablePacket m)
  all_handled [] peer = (peer, [])
  all_handled (request ∷ requests) peer =
      let (peer', packets) = handled 0 request peer in
      let (peer'', later) = all_handled requests peer' in (peer'', packets ++ later)

  -- Packets arrive at the dispatch actor, one after the other.
  abbrev pub arrive : List (VariablePacket m) → Peer m → Peer m × List (VariablePacket m)
  arrive [] peer = (peer, [])
  arrive (packet ∷ packets) peer =
      let (peer', answers) =
        all_handled (requests_of (effects calm 0 (dispatch m T actors.dispatch packet))) peer in
      let (peer'', later) = arrive packets peer' in (peer'', answers ++ later)

abbrev swap : {A B : Type 0} → Option (A × B) → Option (B × A)
swap none = none
swap (some (a, b)) = some (b, a)

-- The packets of `mine` arrive at the other client, whose answers come back, and so on until there is
-- nothing to answer. The result is `none` if the fuel is used up before.
unfoldable pub exchange :
    (m : Mqtt)
    → ℕ
    → Actors
    → Actors
    → List (VariablePacket m)
    → Peer m
    → Peer m
    → Option (Peer m × Peer m)
exchange m fuel actors actors' [] me other = some (me, other)
exchange m zero actors actors' (packet ∷ packets) me other = none
exchange m (suc fuel) actors actors' (packet ∷ packets) me other =
    let (other', answers) = arrive m actors' (packet ∷ packets) other in
    swap (exchange m fuel actors' actors answers other' me)

-- The exchange has ended, and its result is as said.
abbrev pub EndsIn : {A : Type 0} → (A → Type 0) → Option A → Type 0
EndsIn P none = ⊥
EndsIn P (some a) = P a

-- A client before the exchange.
abbrev pub peer_of : {m : Mqtt} → StatusMap T → Peer m
peer_of map = record { map = map; messages = []; timers = [] }

-- The client has no status under the identifier, and when its timers ask now, their futures do nothing.
abbrev pub IsSettled : (m : Mqtt) → Actors → ℕ → Peer m → Type 0
IsSettled m actors id peer =
    (get id peer.map ≡ none)
    × All
        (λ (q : Question m).
          let status = (operate peer.map (get_and_remove_packet_status q.id)).1 in
          effects calm 0 (resume m actors q.continuation (response status)) ≡ [])
        peer.timers
