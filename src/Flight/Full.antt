-- ===== src/Flight/Full.antt =====
-- src/actors/packets/publish.rs with the status actor: a message received at QoS 2 while the mailbox of
-- the user is full and the others take what is sent.
use actix_mqtt_client.Common.{ℕ, zero, suc, ◌+◌, [], ◌∷◌, Option, none, some, ◌≡◌, refl, arith, ap}
use actix_mqtt_client.Mqtt.{Mqtt, QoSWithPacketIdentifier}
use actix_mqtt_client.Message.{
  PacketMessage, PublishPacketStatus, publish_message, publish_packet_message,
  get_and_remove_packet_status,
}
use actix_mqtt_client.Runtime.{
  Runtime, Trace, Effect, SendError, sent, refused, resend_after, effects,
}
use actix_mqtt_client.Observe.{count, hands_packet, hands_message}
use actix_mqtt_client.Status.{operate}
use actix_mqtt_client.Status.Map.{StatusMap, get, contains_key-get}
use actix_mqtt_client.Status.Laws.{map_after}
use actix_mqtt_client.Publish.Receive.{receive, handle_publish_packet, finish_level2}
use actix_mqtt_client.Client.Start.{Actors}
use actix_mqtt_client.Flight.{got_publish, run, resume, questions_of}
use actix_mqtt_client.Flight.Rounds.{futures_on}

-- Only the mailbox of the user is full.
abbrev pub user_full : {m : Mqtt} → Runtime m PublishPacketStatus
user_full trace a (publish_message p) = refused SendError.full
user_full trace a l = sent

-- The message after some visits of the actor, the map of the statuses, and how often the message was tried
-- on the user and a packet handed over.
pub record Visited (m : Mqtt) : Type 0 where
  pub message : PacketMessage m.PublishPacket
  pub map : StatusMap PublishPacketStatus
  pub attempts : ℕ
  pub packets : ℕ

module _ (m : Mqtt) (actors : Actors) where
  abbrev message_of : Effect m PublishPacketStatus → Option (PacketMessage m.PublishPacket)
  message_of (resend_after d a (publish_packet_message msg)) = some msg
  message_of _ = none

  -- The message that a future has put back with a delay.
  abbrev returned : Trace m PublishPacketStatus → Option (PacketMessage m.PublishPacket)
  returned [] = none
  returned (e ∷ trace) = elim (message_of e) [ some msg ↦ some msg | none ↦ returned trace ]

  abbrev with_message :
      Option (PacketMessage m.PublishPacket)
      → StatusMap PublishPacketStatus
      → ℕ
      → ℕ
      → Option (Visited m)
  with_message none map attempts packets = none
  with_message (some msg) map attempts packets =
      some (record { message = msg; map = map; attempts = attempts; packets = packets })

  -- The handler of the message and its futures; the result is `none` if no message comes again.
  unfoldable pub visit : Visited m → Option (Visited m)
  visit v =
      let trace = effects user_full 0 (run m actors (got_publish v.message)) in
      let (map', later) =
        futures_on m actors user_full (questions_of trace) (map_after trace v.map) in
      with_message (returned later) (map_after later map')
        (count hands_message trace + count hands_message later + v.attempts)
        (count hands_packet trace + count hands_packet later + v.packets)

  abbrev then_visit : Option (Visited m) → Option (Visited m)
  then_visit none = none
  then_visit (some v) = visit v

  unfoldable pub visits : ℕ → Visited m → Option (Visited m)
  visits zero v = some v
  visits (suc k) v = then_visit (visits k v)

  module _ (map : StatusMap PublishPacketStatus) (packet : m.PublishPacket) (id : ℕ)
      (at_level2 : m.qos packet ≡ QoSWithPacketIdentifier.level2 id)
      (free : get id map ≡ none) where
    -- The message as it arrives, tried so often.
    abbrev pub arrived : ℕ → Visited m
    arrived attempts = record {
      message = record { packet = packet; retry_count = 0 };
      map = map;
      attempts = attempts;
      packets = 0;
    }

    take-free : operate map (get_and_remove_packet_status id) ≡ (map, none)
    unfolding operate
    take-free = rw (contains_key-get id map, free) refl

    visit-arrived : (k : ℕ) → visit (arrived k) ≡ some (arrived (suc k))
    unfolding visit run resume receive handle_publish_packet finish_level2
    visit-arrived k = rw at_level2 (rw take-free (ap (λ a. some (arrived a)) (omega arith)))

    -- A new message at QoS 2 under an identifier without a status, while only the mailbox of the user is
    -- full: for any number of visits, each tries the message on the user once, hands no packet over,
    -- changes no status, and puts the very same message back, its count still 0. So no limit ends this.
    pub visits-arrived : (k : ℕ) → visits k (arrived 0) ≡ some (arrived k)
    unfolding visits
    visits-arrived zero = refl
    visits-arrived (suc k) = rw (visits-arrived k) (visit-arrived k)
