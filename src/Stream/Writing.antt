-- ===== src/Stream/Writing.antt =====
-- src/actors/actions/send.rs: what is written to the connection.
use mathlib.Core.List.{append-nil, append_assoc}
use actix_mqtt_client.Common.{
  ◌+◌, sym, ap, ◌∙◌, ℕ, Bool, true, List, [], ◌∷◌, ◌++◌, if◌then◌else◌, ◌≡◌, refl, arith,
}
use actix_mqtt_client.Mqtt.{Mqtt, VariablePacket}
use actix_mqtt_client.Message.{PacketMessage}
use actix_mqtt_client.Runtime.{World, Act, skip, ◌>>◌, Runtime, Trace, written}
use actix_mqtt_client.Observe.{count, reports_error, tells_stop}
use actix_mqtt_client.Stream.{SendActor, send_variable_packet}

module _ {m : Mqtt} {T : Type 0} where
  -- The bytes that a trace writes, in their order.
  abbrev pub output : Trace m T → List ℕ
  output [] = []
  output (written bytes ∷ trace) = output trace ++ bytes
  output (e ∷ trace) = output trace

module _ (m : Mqtt) (T : Type 0) (encode : VariablePacket m → List ℕ × Bool)
    (actor : SendActor) where
  -- The packets of a mailbox, the oldest first.
  unfoldable pub send_all : List (PacketMessage (VariablePacket m)) → Act m T (Unit {0})
  send_all [] = skip
  send_all (msg ∷ rest) = do send_variable_packet m T encode actor msg; send_all rest

  -- What `encode` leaves for each, one after the other.
  abbrev pub encodings : List (PacketMessage (VariablePacket m)) → List ℕ
  encodings [] = []
  encodings (msg ∷ rest) = (encode msg.packet).0 ++ encodings rest

  -- How many of them fail.
  abbrev pub failures : List (PacketMessage (VariablePacket m)) → ℕ
  failures [] = 0
  failures (msg ∷ rest) = (if (encode msg.packet).1 then 0 else 1) + failures rest

  module _ (r : Runtime m T) where
    one_written :
        (msg : PacketMessage (VariablePacket m)) (w : World m T)
        → actor.has_writer ≡ true
        → let trace = (send_variable_packet m T encode actor msg r w).1.trace in
          (output trace ≡ output w.trace ++ (encode msg.packet).0)
          × (count reports_error trace
              ≡ count reports_error w.trace + (if (encode msg.packet).1 then 0 else 1))
          × (count tells_stop trace ≡ count tells_stop w.trace)
    unfolding send_variable_packet
    one_written msg w ready = ground arith

    -- With a writer, the connection carries what `encode` leaves for each packet, in the order of the
    -- packets, also of those on which it fails; each failure is reported once, and none of them tells
    -- the client to stop.
    pub send_all-output :
        (msgs : List (PacketMessage (VariablePacket m))) (w : World m T)
        → actor.has_writer ≡ true
        → let trace = (send_all msgs r w).1.trace in
          (output trace ≡ output w.trace ++ encodings msgs)
          × (count reports_error trace ≡ count reports_error w.trace + failures msgs)
          × (count tells_stop trace ≡ count tells_stop w.trace)
    unfolding send_all
    send_all-output [] w ready = (sym (append-nil _), omega arith, refl)
    send_all-output (msg ∷ rest) w ready =
        let w' : World m T = (send_variable_packet m T encode actor msg r w).1 in
        let (out, reported, stops) = one_written msg w ready in
        let (rest_out, rest_reported, rest_stops) = send_all-output rest w' ready in
        (
          rest_out
              ∙ ap (λ l. l ++ encodings rest) out
              ∙ append_assoc (output w.trace) (encode msg.packet).0 (encodings rest),
          omega (arith, reported, rest_reported),
          rest_stops ∙ stops,
        )
