-- ===== src/Wiring.antt =====
-- src/client.rs: the actors as `start_actors` wires them, for recipients of the user.
pub mod Activity
use actix_mqtt_client.Common.{String}
use actix_mqtt_client.Message.{user_error_recipient, user_message_recipient}
use actix_mqtt_client.Client.Start.{Actors, wired}

abbrev pub actors_of : String → Actors
actors_of name = wired user_error_recipient user_message_recipient name
