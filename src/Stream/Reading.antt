-- ===== src/Stream/Reading.antt =====
-- src/actors/actions/recv.rs: the packets that get through.
use actix_mqtt_client.Common.{
  ℕ, ◌+◌, ◌*◌, List, [], ◌∷◌, ◌++◌, Option, none, some, ◌≡◌, refl, sym, ◌∙◌, ap, arith,
}
use mathlib.Core.List.{append-nil, append_assoc}
use actix_mqtt_client.Mqtt.{Mqtt, VariablePacket}
use actix_mqtt_client.Message.{Letter, variable_packet_message}
use actix_mqtt_client.Runtime.{Trace, Runtime, World, SendResult, tried, sent}
use actix_mqtt_client.Observe.{count, tells_stop}
use actix_mqtt_client.Stream.{RecvActor, read_stream, forward}

-- The packets before the first error of the parser.
abbrev pub before_error {ℓ} : {A : Type ℓ} → List (Option A) → List A
before_error [] = []
before_error (some a ∷ rest) = a ∷ before_error rest
before_error (none ∷ rest) = []

abbrev pub has_error {ℓ} : {A : Type ℓ} → List (Option A) → ℕ
has_error [] = 0
has_error (some a ∷ rest) = has_error rest
has_error (none ∷ rest) = 1

module _ {m : Mqtt} {T : Type 0} where
  abbrev taken_packet : Letter m T → SendResult → List (VariablePacket m)
  taken_packet (variable_packet_message p) sent = p.packet ∷ []
  taken_packet l o = []

  -- The packets that a trace passes on: those that the mailbox took, the oldest first.
  abbrev pub forwarded : Trace m T → List (VariablePacket m)
  forwarded [] = []
  forwarded (tried a l o ∷ trace) = forwarded trace ++ taken_packet l o
  forwarded (e ∷ trace) = forwarded trace

module _ (m : Mqtt) (T : Type 0) (actor : RecvActor) (r : Runtime m T) where
  -- The mailbox takes every packet.
  abbrev pub TakesPackets : Type 0
  TakesPackets =
      (trace : Trace m T) (p : VariablePacket m)
      → r trace actor.recipient (variable_packet_message (record { packet = p; retry_count = 0 }))
        ≡ sent

  forward-forwarded :
      TakesPackets
      → (p : VariablePacket m) (w : World m T)
      → (forwarded (forward m T actor p r w).1.trace ≡ forwarded w.trace ++ p ∷ [])
        × (count tells_stop (forward m T actor p r w).1.trace ≡ count tells_stop w.trace)
  unfolding forward
  forward-forwarded takes p w = rw (takes w.trace p) (refl, omega arith)

  -- If the mailbox takes every packet, those that were parsed before the first error are passed on,
  -- each once and in their order, and nothing behind it; the client is told to stop exactly if there
  -- was an error, twice: by the parser, and by the actor, which the end of the stream stops.
  pub read_stream-forwarded :
      TakesPackets
      → (items : List (Option (VariablePacket m))) (w : World m T)
      → let trace = (read_stream m T actor items r w).1.trace in
        (forwarded trace ≡ forwarded w.trace ++ before_error items)
        × (count tells_stop trace ≡ count tells_stop w.trace + 2 * has_error items)
  unfolding read_stream
  read_stream-forwarded takes [] w = (sym (append-nil _), omega arith)
  read_stream-forwarded takes (none ∷ items) w =
      (ap (λ l. l ++ []) (append-nil (forwarded w.trace)), omega arith)
  read_stream-forwarded takes (some p ∷ items) w =
      let w' : World m T = (forward m T actor p r w).1 in
      let (passed, stops) = forward-forwarded takes p w in
      let (rest, rest_stops) = read_stream-forwarded takes items w' in
      (
        rest
            ∙ ap (λ l. l ++ before_error items) passed
            ∙ append_assoc (forwarded w.trace) (p ∷ []) (before_error items),
        omega (arith, stops, rest_stops),
      )
