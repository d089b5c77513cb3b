-- ===== src/Failure/Handlers.antt =====
-- src/actors/packets/*.rs on the actors of src/client.rs: what the handlers of their messages do about
-- failures, but for those of connack.rs and disconnect.rs.
use actix_mqtt_client.Common.{ℕ, false, ◌≡◌, String}
use actix_mqtt_client.Mqtt.{Mqtt}
use actix_mqtt_client.Message.{PublishPacketStatus}
use actix_mqtt_client.Runtime.{Runtime, effects}
use actix_mqtt_client.Flight.{Request, run}
use actix_mqtt_client.Control.{ControlRequest, run_control}
use actix_mqtt_client.Wiring.{actors_of}
use actix_mqtt_client.Failure.Reported.{IsReported}
use actix_mqtt_client.Failure.Publishing.{run-IsReported}
use actix_mqtt_client.Failure.Controlling.{is_connack, run_control-IsReported}

-- On a client as `start_actors` wires it, whatever the mailboxes answer, the handlers of messages to
-- publish, connect, subscribe, unsubscribe and ping, and those of PUBLISH, PUBACK, PUBREC, PUBREL,
-- PUBCOMP, SUBACK, UNSUBACK and PINGRESP, which leaves out CONNACK and the disconnect actor, drop no
-- failure in silence: where an attempt to send fails that is not itself a
-- report or a stop, the handler then sends a report to the user, and if the mailbox is closed it then
-- tells the stop actor to stop the client; and it never does so without having sent a report before.
pub handlers-IsReported :
    {m : Mqtt} (name : String) (r : Runtime m PublishPacketStatus) (n : ℕ) (request : Request m)
    (r' : Runtime m (Unit {0})) (n' : ℕ) (control : ControlRequest m)
    → is_connack control ≡ false
    → IsReported (effects r n (run m (actors_of name) request))
      × IsReported (effects r' n' (run_control m (actors_of name) control))
handlers-IsReported name r n request r' n' control other =
    (run-IsReported name r n request, run_control-IsReported name r' n' control other)
