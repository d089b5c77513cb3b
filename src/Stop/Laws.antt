-- ===== src/Stop/Laws.antt =====
-- src/actors/actions/stop.rs: who is told to stop, and how often.
use actix_mqtt_client.Common.{ℕ, suc, ◌+◌, Bool, true, false, List, [], ◌∷◌, ◌≡◌, refl, arith, ite}
use actix_mqtt_client.Mqtt.{Mqtt}
use actix_mqtt_client.Message.{Letter, Address, Address-discrete, stop_message}
use actix_mqtt_client.Runtime.{Effect, Trace, Runtime, World, did, do_send_}
use actix_mqtt_client.Stop.{StopActor, handle_stop, send_stops}

-- How often `a` stands in a list.
abbrev pub occurrences : Address → List Address → ℕ
occurrences a [] = 0
occurrences a (b ∷ rest) = let n = occurrences a rest in ite (Address-discrete b a) (suc n) n

abbrev pub is_stop : {m : Mqtt} {T : Type 0} → Letter m T → Bool
is_stop stop_message = true
is_stop _ = false

module _ {m : Mqtt} {T : Type 0} where
  abbrev stops_now : Address → Effect m T → ℕ
  stops_now a (did b l o) = elim (is_stop l) [ true ↦ ite (Address-discrete b a) 1 0 | false ↦ 0 ]
  stops_now a _ = 0

  -- How often `a` is sent a stop message.
  abbrev pub stops_to : Address → Trace m T → ℕ
  stops_to a [] = 0
  stops_to a (e ∷ trace) = stops_now a e + stops_to a trace

  send_stops-stops :
      (a : Address) (recipients : List Address) (r : Runtime m T) (w : World m T)
      → stops_to a (send_stops m T recipients r w).1.trace
        ≡ occurrences a recipients + stops_to a w.trace
  unfolding send_stops
  send_stops-stops a [] r w = omega arith
  send_stops-stops a (b ∷ rest) r w =
      ground (arith, send_stops-stops a rest r (do_send_ {m = m} {T = T} b stop_message r w).1)

  -- An actor that is not stopping yet sends a stop message to each recipient, as often as it was
  -- added, and to nobody else; from then on it is stopping, and a further stop message does nothing.
  pub handle_stop-once :
      (actor : StopActor) (a addr : Address) (r : Runtime m T) (w : World m T)
      → actor.stopping ≡ false
      → let (actor', w') = handle_stop m T actor addr r w in
        (stops_to a w'.trace ≡ occurrences a actor.stop_recipients + stops_to a w.trace)
        × ((r' : Runtime m T) → handle_stop m T actor' addr r' w' ≡ (actor', w'))
  unfolding handle_stop
  handle_stop-once actor a addr r w h =
      rw h (omega (arith, send_stops-stops a actor.stop_recipients r w), λ r'. refl)
