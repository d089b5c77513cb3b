-- ===== src/Wiring/Activity.antt =====
-- src/client.rs with src/actors/packets/*.rs: all that the actors and their futures do.
use actix_mqtt_client.Common.{List, ℕ, Bool, ◌∷◌, ◌++◌, Option, ◌≡◌, String}
use actix_mqtt_client.Mqtt.{Mqtt, VariablePacket}
use actix_mqtt_client.Message.{
  Letter, Address, PacketMessage, PacketStatus, PublishPacketStatus, StatusOperationMessage,
  disconnect_actor,
}
use actix_mqtt_client.Runtime.{Runtime, Trace, Continuation, Response, ask_after, effects}
use actix_mqtt_client.Flight.{Request, run, resume}
use actix_mqtt_client.Control.{ControlRequest, run_control, resume_control, resume_existence}
use actix_mqtt_client.Status.{handle}
use actix_mqtt_client.Status.Map.{StatusMap}
use actix_mqtt_client.Disconnect.{handle_disconnect, handle_packet_send_status}
use actix_mqtt_client.Dispatch.{dispatch}
use actix_mqtt_client.Stream.{send_variable_packet, write_error, recv_actor_started}
use actix_mqtt_client.Wiring.{actors_of}

-- What the actors of the publish packets, their status actor and the disconnect actor can do: handle a
-- message, and go on with a future that an earlier handler or future left behind.
pub data Activity (m : Mqtt) (name : String) : Trace m PublishPacketStatus → Type 0 where
  handles :
      (r : Runtime m PublishPacketStatus) (n : ℕ) (request : Request m)
      → Activity m name (effects r n (run m (actors_of name) request))
  goes_on :
      {trace : Trace m PublishPacketStatus}
      → Activity m name trace
      → (later earlier : Trace m PublishPacketStatus) (delay : ℕ) (a : Address)
        (l : Letter m PublishPacketStatus) (c : Continuation m PublishPacketStatus)
      → trace ≡ later ++ (ask_after delay a l c ∷ earlier)
      → (r : Runtime m PublishPacketStatus) (n : ℕ)
        (answer : Response (Option (PacketStatus PublishPacketStatus)))
      → Activity m name (effects r n (resume m (actors_of name) c answer))
  operates :
      (r : Runtime m PublishPacketStatus) (n : ℕ) (map : StatusMap PublishPacketStatus)
      (msg : StatusOperationMessage PublishPacketStatus)
      → Activity m name (
          effects r n
            (handle (record (actors_of name).publish_status { packet_status_map = map }) msg))
  disconnects :
      (r : Runtime m PublishPacketStatus) (n : ℕ) (b b' force : Bool)
      → Activity m name (
          effects r n (
            handle_disconnect m
              (record (actors_of name).disconnect {
                packet_send_finished = b;
                pending_disconnect = b';
              })
              disconnect_actor
              force))
  reports :
      (r : Runtime m PublishPacketStatus) (n : ℕ) (b b' finished : Bool)
      → Activity m name (
          effects r n (
            handle_packet_send_status m
              (record (actors_of name).disconnect {
                packet_send_finished = b;
                pending_disconnect = b';
              })
              disconnect_actor
              finished))

-- What the other actors can do: handle a message, and go on with a future; at both ends of the stream,
-- dispatch a packet, write one, fail to, and read the packets that come.
pub data ControlActivity (m : Mqtt) (name : String) : Trace m (Unit {0}) → Type 0 where
  handles :
      (r : Runtime m (Unit {0})) (n : ℕ) (request : ControlRequest m)
      → ControlActivity m name (effects r n (run_control m (actors_of name) request))
  goes_on :
      {trace : Trace m (Unit {0})}
      → ControlActivity m name trace
      → (later earlier : Trace m (Unit {0})) (delay : ℕ) (a : Address) (l : Letter m (Unit {0}))
        (c : Continuation m (Unit {0}))
      → trace ≡ later ++ (ask_after delay a l c ∷ earlier)
      → (r : Runtime m (Unit {0})) (n : ℕ) (answer : Response (Option (PacketStatus (Unit {0}))))
      → ControlActivity m name (effects r n (resume_control m c answer))
  goes_on_existence :
      {trace : Trace m (Unit {0})}
      → ControlActivity m name trace
      → (later earlier : Trace m (Unit {0})) (delay : ℕ) (a : Address) (l : Letter m (Unit {0}))
        (c : Continuation m (Unit {0}))
      → trace ≡ later ++ (ask_after delay a l c ∷ earlier)
      → (r : Runtime m (Unit {0})) (n : ℕ) (found : Response Bool)
      → ControlActivity m name (effects r n (resume_existence m c found))
  dispatches :
      (r : Runtime m (Unit {0})) (n : ℕ) (packet : VariablePacket m)
      → ControlActivity m name
          (effects r n (dispatch m (Unit {0}) (actors_of name).dispatch packet))
  writes :
      (r : Runtime m (Unit {0})) (n : ℕ) (encode : VariablePacket m → List ℕ × Bool) (b b' : Bool)
      (msg : PacketMessage (VariablePacket m))
      → ControlActivity m name (
          effects r n (
            send_variable_packet m
              (Unit {0})
              encode
              (record (actors_of name).send { has_stream = b; has_writer = b' })
              msg))
  write_fails :
      (r : Runtime m (Unit {0})) (n : ℕ)
      → ControlActivity m name (effects r n (write_error m (Unit {0}) (actors_of name).send))
  reads :
      (r : Runtime m (Unit {0})) (n : ℕ) (items : List (Option (VariablePacket m)))
      → ControlActivity m name
          (effects r n (recv_actor_started m (Unit {0}) (actors_of name).recv items))
