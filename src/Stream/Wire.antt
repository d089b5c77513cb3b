-- ===== src/Stream/Wire.antt =====
-- src/actors/actions/send.rs with src/actors/actions/recv.rs: packets from the sender of one client to the
-- dispatch actor of another, as bytes. How the `mqtt` crate encodes and parses is a parameter.
use mathlib.Core.List.{append-nil}
use actix_mqtt_client.Common.{
  ℕ, ◌*◌, zero, suc, Bool, true, List, [], ◌∷◌, ◌++◌, Option, none, some, ◌≡◌, refl, ap, ◌∙◌, All,
  arith,
}
use actix_mqtt_client.Mqtt.{Mqtt, VariablePacket}
use actix_mqtt_client.Message.{PacketMessage}
use actix_mqtt_client.Runtime.{Runtime, World, Trace, effects}
use actix_mqtt_client.Observe.{count, tells_stop}
use actix_mqtt_client.Stream.{SendActor, RecvActor, read_stream}
use actix_mqtt_client.Stream.Writing.{output, send_all, encodings, send_all-output}
use actix_mqtt_client.Stream.Reading.{
  TakesPackets, forwarded, before_error, has_error, read_stream-forwarded,
}

module _ (m : Mqtt) (parse : List ℕ → Option (VariablePacket m × List ℕ)) where
  -- The stream of `unfold` on the bytes that come: so many calls of `VariablePacket::parse`, each on what
  -- the one before left, up to the first error.
  abbrev parsed_with :
      Option (VariablePacket m × List ℕ)
      → (List ℕ → List (Option (VariablePacket m)))
      → List (Option (VariablePacket m))
  parsed_with none later = none ∷ []
  parsed_with (some (packet, bytes)) later = some packet ∷ later bytes

  unfoldable pub parsed : ℕ → List ℕ → List (Option (VariablePacket m))
  parsed zero bytes = []
  parsed (suc k) bytes = parsed_with (parse bytes) (parsed k)

module _ {m : Mqtt} where
  abbrev pub packets : List (PacketMessage (VariablePacket m)) → List (VariablePacket m)
  packets [] = []
  packets (msg ∷ msgs) = msg.packet ∷ packets msgs

  -- One call for each packet, and `more` behind them.
  abbrev pub calls : List (PacketMessage (VariablePacket m)) → ℕ → ℕ
  calls [] more = more
  calls (msg ∷ msgs) more = suc (calls msgs more)

  -- These packets, and then `rest`.
  abbrev all_right :
      List (PacketMessage (VariablePacket m))
      → List (Option (VariablePacket m))
      → List (Option (VariablePacket m))
  all_right [] rest = rest
  all_right (msg ∷ msgs) rest = some msg.packet ∷ all_right msgs rest

  before_error-right :
      (msgs : List (PacketMessage (VariablePacket m))) (rest : List (Option (VariablePacket m)))
      → before_error (all_right msgs rest) ≡ packets msgs ++ before_error rest
  before_error-right [] rest = refl
  before_error-right (msg ∷ msgs) rest = ap (λ l. msg.packet ∷ l) (before_error-right msgs rest)

  has_error-right :
      (msgs : List (PacketMessage (VariablePacket m))) (rest : List (Option (VariablePacket m)))
      → has_error (all_right msgs rest) ≡ has_error rest
  has_error-right [] rest = refl
  has_error-right (msg ∷ msgs) rest = has_error-right msgs rest

module _ (m : Mqtt) (T : Type 0) (encode : VariablePacket m → List ℕ × Bool)
    (parse : List ℕ → Option (VariablePacket m × List ℕ))
    (parse-encode : (packet : VariablePacket m) (bytes : List ℕ)
      → (encode packet).1 ≡ true
      → parse ((encode packet).0 ++ bytes) ≡ some (packet, bytes)) where
  abbrev IsEncoded : PacketMessage (VariablePacket m) → Type 0
  IsEncoded msg = (encode msg.packet).1 ≡ true

  parsed-encodings :
      (actor : SendActor) (msgs : List (PacketMessage (VariablePacket m))) (more : ℕ)
      → All IsEncoded msgs
      → parsed m parse (calls msgs more) (encodings m T encode actor msgs)
        ≡ all_right msgs (parsed m parse more [])
  unfolding parsed
  parsed-encodings actor [] more h = refl
  parsed-encodings actor (msg ∷ msgs) more (one, rest) =
      rw (parse-encode msg.packet (encodings m T encode actor msgs) one)
        (ap (λ l. some msg.packet ∷ l) (parsed-encodings actor msgs more rest))

  module _ (sender : SendActor) (receiver : RecvActor) (r r' : Runtime m T) (n n' : ℕ)
      (msgs : List (PacketMessage (VariablePacket m))) where
    abbrev written : Trace m T
    written = effects r n (send_all m T encode sender msgs)

    -- What the receiver does with the bytes, if the parser is called once for each packet, and `more` times.
    abbrev read : ℕ → Trace m T
    read more =
        effects r' n' (read_stream m T receiver (parsed m parse (calls msgs more) (output written)))

    read_lem :
        (more : ℕ)
        → sender.has_writer ≡ true
        → TakesPackets m T receiver r'
        → All IsEncoded msgs
        → (forwarded (read more) ≡ packets msgs ++ before_error (parsed m parse more []))
          × (count tells_stop (read more) ≡ 2 * has_error (parsed m parse more []))
    read_lem more ready takes encoded =
        let w : World m T = record { id_counter = n; trace = [] } in
        let w' : World m T = record { id_counter = n'; trace = [] } in
        let items = parsed m parse (calls msgs more) (output written) in
        let same : items ≡ all_right msgs (parsed m parse more []) =
          ap (parsed m parse (calls msgs more)) (send_all-output m T encode sender r msgs w ready).0
          ∙ parsed-encodings sender msgs more encoded in
        let (passed, stops) = read_stream-forwarded m T receiver r' takes items w' in
        (
          passed ∙ ap before_error same ∙ before_error-right msgs (parsed m parse more []),
          omega (arith, stops, ap has_error same, has_error-right msgs (parsed m parse more [])),
        )

    -- If the parser gets back what the encoder writes for a packet, whatever comes behind it, and fails where
    -- the connection has ended, and the dispatch mailbox of the other client takes every packet, then the
    -- packets that one client with a writer sends, where the encoder does not fail on them, are passed on
    -- at the other end of the connection, each once and in their order, and that end tells its client
    -- nothing as long as the connection is open; when it ends, no more packets are passed on, and the
    -- client is told to stop twice, by the parser and by the receiving actor as it stops.
    pub written-read :
        sender.has_writer ≡ true
        → TakesPackets m T receiver r'
        → All IsEncoded msgs
        → parse [] ≡ none
        → (forwarded (read 0) ≡ packets msgs)
          × (count tells_stop (read 0) ≡ 0)
          × (forwarded (read 1) ≡ packets msgs)
          × (count tells_stop (read 1) ≡ 2)
    unfolding parsed
    written-read ready takes encoded ends =
        let (passed, running) = read_lem 0 ready takes encoded in
        let (closed, stopped) = read_lem 1 ready takes encoded in
        (passed ∙ append-nil _, running, closed ∙ rw ends (append-nil _), stopped ∙ rw ends refl)
