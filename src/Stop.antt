-- ===== src/Stop.antt =====
-- src/actors/actions/stop.rs: `StopActor`, which passes a stop on to the recipients that were added to
-- it, and the other actors' handler of a stop.
pub mod Laws
use actix_mqtt_client.Common.{Bool, true, false, List, [], ◌∷◌, ◌++◌, if◌then◌else◌}
use actix_mqtt_client.Mqtt.{Mqtt}
use actix_mqtt_client.Message.{Address, stop_message}
use actix_mqtt_client.Runtime.{Act, ◌>>=◌, ◌>>◌, give, skip, do_send_, record_effect, stopped}

pub record StopActor : Type 0 where
  pub stop_recipients : List Address
  pub stopping : Bool

-- `StopActor::new`
abbrev pub stop_actor_new : StopActor
stop_actor_new = record { stop_recipients = []; stopping = false }

-- `AddStopRecipient`
unfoldable pub add_stop_recipient : StopActor → Address → StopActor
add_stop_recipient actor recipient = record actor {
  stop_recipients = actor.stop_recipients ++ recipient ∷ [];
}

module _ (m : Mqtt) (T : Type 0) where
  -- The `for` loop.
  unfoldable pub send_stops : List Address → Act m T (Unit {0})
  send_stops [] = skip
  send_stops (a ∷ rest) = do do_send_ a stop_message; send_stops rest

  unfoldable pub handle_stop : StopActor → Address → Act m T StopActor
  handle_stop actor addr = if actor.stopping then give actor else (do
    send_stops actor.stop_recipients
    record_effect (stopped addr)
    give (record actor { stopping = true }))

  -- `impl_stop_handler!` and `impl_generic_stop_handler!` of src/actors/macros.rs: the actor stops.
  unfoldable pub handle_stop_message : Address → Act m T (Unit {0})
  handle_stop_message addr = record_effect (stopped addr)
