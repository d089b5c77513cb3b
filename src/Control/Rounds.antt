-- ===== src/Control/Rounds.antt =====
-- src/actors/packets/macros.rs with src/actors/packets/mod.rs and a status actor: the rounds of a message
-- to one of the generated actors whose packets the server never answers, where the mailboxes take what is
-- sent.
use actix_mqtt_client.Common.{
  ℕ, zero, suc, ◌+◌, ◌≤◌, ◌<◌, true, List, [], ◌∷◌, ◌++◌, Option, none, some, ◌≡◌, refl, ◌∙◌,
  ltb_of_le, ltb_of_lt,
}
use actix_mqtt_client.Consts.{max_retry_count}
use actix_mqtt_client.Mqtt.{Mqtt, VariablePacket}
use actix_mqtt_client.Message.{
  Letter, Address, PacketStatus, status_operation, set_packet_status, get_and_remove_packet_status,
  remove_packet_status,
}
use actix_mqtt_client.Runtime.{
  Trace, Effect, World, Continuation, response, did, sent, ask_after, effects, calm,
}
use actix_mqtt_client.Observe.{count, hands_packet, reports_error}
use actix_mqtt_client.Status.{operate}
use actix_mqtt_client.Status.Map.{StatusMap, HasDistinctKeys}
use actix_mqtt_client.Status.Laws.{map_after, operate-HasDistinctKeys, take-result, get-set_self}
use actix_mqtt_client.Status.Kept.{taken_again}
use actix_mqtt_client.Sending.{
  SendPacketActor, SendPacketImpl, default_status, store_and_send, finish_status_check, handle,
}
use actix_mqtt_client.Proofs.Bounded.{CountsRetries}
use actix_mqtt_client.Control.{resume_control}
use actix_mqtt_client.Control.Marks.{T}

-- What a packet is made from: the packet, its identifier, and the counter afterwards.
pub record IsCreated {m : Mqtt} (impl : SendPacketImpl m T) (msg : impl.Msg) (n : ℕ) : Type 0 where
  pub packet : VariablePacket m
  pub id : ℕ
  pub counter : ℕ
  pub at : impl.create_packet_and_id msg n ≡ (some (packet, id), counter)

-- The arguments of the macro where messages that are valid give packets, and a status asks for a retry.
pub record Resending {m : Mqtt} (impl : SendPacketImpl m T) : Type 1 where
  pub opened : Letter m T → Option impl.Msg
  pub opened-letter : (msg : impl.Msg) → opened (impl.letter msg) ≡ some msg
  pub IsValid : impl.Msg → Type 0
  pub retry-IsValid : (msg : impl.Msg) → IsValid msg → IsValid (impl.create_retry_message msg)
  pub create : (msg : impl.Msg) → IsValid msg → (n : ℕ) → IsCreated impl msg n
  pub counts : CountsRetries impl
  pub status : (id k : ℕ) → impl.create_status id k ≡ default_status id k
  pub check : (s : PacketStatus T) → impl.check (some s) ≡ true

module _ {m : Mqtt} where
  abbrev ask_of : Effect m T → List (ℕ × Continuation m T)
  ask_of (ask_after d a (status_operation (get_and_remove_packet_status id)) c) = (id, c) ∷ []
  ask_of _ = []

  abbrev pub asks_of : Trace m T → List (ℕ × Continuation m T)
  asks_of [] = []
  asks_of (e ∷ trace) = ask_of e ++ asks_of trace

  -- The questions are answered by the status actor, the oldest first.
  abbrev pub answered : List (ℕ × Continuation m T) → StatusMap T → StatusMap T × Trace m T
  answered [] map = (map, [])
  answered ((id, c) ∷ questions) map =
      let (map', earlier) = answered questions map in
      let (map'', status) = operate map' (get_and_remove_packet_status id) in
      (map'', effects calm 0 (resume_control m c (response status)) ++ earlier)

-- One handling of the message, up to the answers to the questions that it leaves behind.
pub record Round (A : Type 0) : Type 0 where
  pub packets : ℕ
  pub errors : ℕ
  pub id_counter : ℕ
  pub map : StatusMap T
  pub again : Option A

-- All of them.
pub record Outcome : Type 0 where
  pub packets : ℕ
  pub errors : ℕ
  pub map : StatusMap T

module _ {m : Mqtt} (impl : SendPacketImpl m T) (laws : Resending impl) (actor : SendPacketActor)
    (addr : Address) where
  abbrev message_of : Effect m T → Option impl.Msg
  message_of (did a l sent) = laws.opened l
  message_of _ = none

  -- The message that a future puts back into the mailbox of the actor.
  abbrev reposted : Trace m T → Option impl.Msg
  reposted [] = none
  reposted (e ∷ trace) = elim (message_of e) [ some msg ↦ some msg | none ↦ reposted trace ]

  unfoldable pub round : impl.Msg → ℕ → StatusMap T → Round impl.Msg
  round msg n map =
      let w : World m T =
        (handle impl actor addr msg calm (record { id_counter = n; trace = [] })).1 in
      let (map', trace) = answered (asks_of w.trace) (map_after w.trace map) in
      record {
        packets = count hands_packet w.trace;
        errors = count reports_error w.trace + count reports_error trace;
        id_counter = w.id_counter;
        map = map';
        again = reposted trace;
      }

  abbrev add_round : Round impl.Msg → Option Outcome → Option Outcome
  add_round r none = none
  add_round r (some out) =
      some (record out { packets = r.packets + out.packets; errors = r.errors + out.errors })

  abbrev next_round :
      Round impl.Msg → Option impl.Msg → (impl.Msg → Option Outcome) → Option Outcome
  next_round r none later = some (record { packets = r.packets; errors = r.errors; map = r.map })
  next_round r (some msg) later = add_round r (later msg)

  -- No answer ever comes. The result is `none` if the fuel is used up.
  unfoldable pub rounds : ℕ → impl.Msg → ℕ → StatusMap T → Option Outcome
  rounds zero msg n map = none
  rounds (suc fuel) msg n map =
      let r = round msg n map in next_round r r.again (λ msg'. rounds fuel msg' r.id_counter r.map)

  abbrev pub status_of : ℕ → impl.Msg → PacketStatus T
  status_of id msg = record { id = id; retry_count = impl.get_retry_count msg; payload = tt }

  pub round-over :
      (msg : impl.Msg) (n : ℕ) (map : StatusMap T) (c : IsCreated impl msg n)
      → max_retry_count < impl.get_retry_count msg
      → round msg n map ≡ record {
        packets = 0;
        errors = 0;
        id_counter = c.counter;
        map = (operate map (remove_packet_status c.id)).0;
        again = none;
      }
  unfolding round handle
  round-over msg n map c over =
      rw c.at (rw (ltb_of_lt max_retry_count (impl.get_retry_count msg) over) refl)

  pub round-within :
      (msg : impl.Msg) (n : ℕ) (map : StatusMap T) (c : IsCreated impl msg n)
      → HasDistinctKeys map
      → impl.get_retry_count msg ≤ max_retry_count
      → round msg n map ≡ record {
        packets = 1;
        errors = 0;
        id_counter = c.counter;
        map = taken_again map c.id (status_of c.id msg);
        again = some (impl.create_retry_message msg);
      }
  unfolding round handle store_and_send resume_control finish_status_check
  round-within msg n map c d within =
      rw (c.at, ltb_of_le (impl.get_retry_count msg) max_retry_count within)
        (rw (laws.status c.id (impl.get_retry_count msg)) (
          rw
            (take-result _
                (operate-HasDistinctKeys map (set_packet_status c.id (status_of c.id msg)) d) c.id
              ∙ get-set_self map d c.id (status_of c.id msg))
            (rw (laws.check (status_of c.id msg))
              (rw (laws.opened-letter (impl.create_retry_message msg)) refl))))
