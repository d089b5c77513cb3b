-- ===== src/Client/Shutdown.antt =====
-- src/client.rs with src/actors/actions/stop.rs: which actors a stop reaches after `start_actors`.
use actix_mqtt_client.Common.{
  ℕ, ◌+◌, false, [], ◌∷◌, Option, none, some, ◌≡◌, refl, ◌∙◌, arith, ite,
}
use actix_mqtt_client.Mqtt.{Mqtt}
use actix_mqtt_client.Message.{
  Letter, Address, Address-discrete, add_stop_recipient, stop_actor, disconnect_actor,
  connect_status_actor, connect_actor, connack_actor, dispatch_actor, user_message_recipient,
  user_error_recipient, user_stop_recipient,
}
use actix_mqtt_client.Runtime.{Trace, Runtime, did, effects}
use actix_mqtt_client.Stop.{StopActor, stop_actor_new, add_stop_recipient as add, handle_stop}
use actix_mqtt_client.Stop.Laws.{occurrences, stops_to, handle_stop-once}
use actix_mqtt_client.Client.{MqttClient}
use actix_mqtt_client.Client.Start.{start_actors}

module _ {m : Mqtt} {T : Type 0} where
  abbrev deliver_letter : Letter m T → StopActor → StopActor
  deliver_letter (add_stop_recipient a) actor = add actor a
  deliver_letter _ actor = actor

  -- The registrations among the effects arrive at the stop actor, the oldest first.
  abbrev pub deliver_registrations : Trace m T → StopActor → StopActor
  deliver_registrations [] actor = actor
  deliver_registrations (did a l o ∷ trace) actor =
      deliver_letter l (deliver_registrations trace actor)
  deliver_registrations (e ∷ trace) actor = deliver_registrations trace actor

-- The actors that a stop does not reach, and the recipients that are no actors of the client.
abbrev pub is_told : Address → ℕ
is_told stop_actor = 0
is_told disconnect_actor = 0
is_told connect_status_actor = 0
is_told connect_actor = 0
is_told connack_actor = 0
is_told dispatch_actor = 0
is_told user_message_recipient = 0
is_told user_error_recipient = 0
is_told user_stop_recipient = 0
is_told _ = 1

abbrev pub is_user_choice : Option Address → Address → ℕ
is_user_choice none a = 0
is_user_choice (some u) a = ite (Address-discrete u a) 1 0

-- The recipients of the stop actor once all registrations have arrived.
abbrev pub started_stop_actor :
    (m : Mqtt)
    → Runtime m (Unit {0})
    → ℕ
    → MqttClient
    → Address
    → Address
    → Option Address
    → StopActor
started_stop_actor m r n client message_recipient error_recipient stop_recipient =
    deliver_registrations
      (effects r n (start_actors m client message_recipient error_recipient stop_recipient))
      stop_actor_new

module _ (m : Mqtt) (client : MqttClient) (messages errors : Address) (r : Runtime m (Unit {0}))
    (n : ℕ) where
  told-occurrences :
      (a : Address)
      → occurrences a (started_stop_actor m r n client messages errors none).stop_recipients
        ≡ is_told a
  unfolding start_actors add Address-discrete
  told-occurrences stop_actor = refl
  told-occurrences _ = refl

  user-occurrences :
      (u a : Address)
      → occurrences a (started_stop_actor m r n client messages errors (some u)).stop_recipients
        ≡ is_user_choice (some u) a
          + occurrences a (started_stop_actor m r n client messages errors none).stop_recipients
  unfolding start_actors add
  user-occurrences u a = ground arith

  started-occurrences :
      (user : Option Address) (a : Address)
      → occurrences a (started_stop_actor m r n client messages errors user).stop_recipients
        ≡ is_user_choice user a + is_told a
  started-occurrences none a = omega (arith, told-occurrences a)
  started-occurrences (some u) a = omega (arith, user-occurrences u a, told-occurrences a)

  started_stopping :
      (user : Option Address)
      → (started_stop_actor m r n client messages errors user).stopping ≡ false
  unfolding start_actors add
  started_stopping none = refl
  started_stopping (some u) = refl

  -- After `start_actors`, when its registrations have arrived, the first stop message makes the stop
  -- actor send one to each of the actors that `is_told` counts, exactly once, and one more to the
  -- recipient that the user gave, if there is one, and none to the disconnect, connect, connack,
  -- dispatch and connection status actors.
  pub start-stop :
      (user : Option Address) (a : Address) (r' : Runtime m (Unit {0})) (n' : ℕ)
      → stops_to a (
          effects r' n' (
            handle_stop m
              (Unit {0})
              (started_stop_actor m r n client messages errors user)
              stop_actor))
        ≡ is_user_choice user a + is_told a
  start-stop user a r' n' =
      (handle_stop-once _ a stop_actor r' _ (started_stopping user)).0
      ∙ omega (arith, started-occurrences user a)
