-- ===== src/Failure/Stops.antt =====
-- src/client.rs with all its actors: why the client is told to stop, whatever the order in which they run.
use actix_mqtt_client.Common.{
  ℕ, Bool, true, List, [], ◌∷◌, Option, some, none, ◌≡◌, refl, subst, arith, All, All-drop, String,
}
use actix_mqtt_client.Mqtt.{Mqtt, VariablePacket}
use actix_mqtt_client.Message.{
  PacketMessage, PublishPacketStatus, StatusOperationMessage, disconnect_actor,
}
use actix_mqtt_client.Runtime.{Runtime, World, Trace, ask_after, effects}
use actix_mqtt_client.Status.{handle}
use actix_mqtt_client.Status.Map.{StatusMap}
use actix_mqtt_client.Disconnect.{handle_disconnect, handle_packet_send_status}
use actix_mqtt_client.Dispatch.{dispatch}
use actix_mqtt_client.Stream.{
  send_variable_packet, write_error, recv_actor_started, read_stream, forward,
}
use actix_mqtt_client.Client.Start.{wired}
use actix_mqtt_client.Control.{ControlRequest, got_connack, run_control}
use actix_mqtt_client.Wiring.{actors_of}
use actix_mqtt_client.Wiring.Activity.{
  Activity, ControlActivity, operates, disconnects, reports, dispatches, writes, write_fails, reads,
}
use actix_mqtt_client.Failure.Reported.{stops_client, is_preceded, EffectIsPlain}
use actix_mqtt_client.Failure.Publishing.{run-IsReported}
use actix_mqtt_client.Failure.Controlling.{run_control-IsReported}
use actix_mqtt_client.Failure.Explained.{
  is_cause, IsExplained, IsReported-IsExplained, resume-IsExplained, resume_control-IsExplained,
  resume_existence-IsExplained, connack-IsExplained,
}

module _ {m : Mqtt} (name : String) where
  -- The dispatch actor, the sender and the receiver, for any payload of the statuses.
  module _ {T : Type 0} (r : Runtime m T) (n : ℕ) where
    pub dispatch-IsExplained :
        (packet : VariablePacket m)
        → IsExplained (effects r n (dispatch m T (actors_of name).dispatch packet))
    unfolding dispatch wired
    dispatch-IsExplained packet = ground arith

    pub send_variable_packet-IsExplained :
        (encode : VariablePacket m → List ℕ × Bool) (b b' : Bool)
        (msg : PacketMessage (VariablePacket m))
        → IsExplained (
            effects r n (
              send_variable_packet m T encode
                (record (actors_of name).send { has_stream = b; has_writer = b' })
                msg))
    unfolding send_variable_packet wired
    send_variable_packet-IsExplained encode b b' msg = ground arith

    pub write_error-IsExplained : IsExplained (effects r n (write_error m T (actors_of name).send))
    unfolding write_error wired
    write_error-IsExplained = ground arith

  module _ {T : Type 0} (r : Runtime m T) where
    forward-IsExplained :
        (w : World m T) (packet : VariablePacket m)
        → IsExplained w.trace
        → IsExplained (forward m T (actors_of name).recv packet r w).1.trace
    unfolding forward wired
    forward-IsExplained w packet before = ground arith

    read_stream-IsExplained :
        (items : List (Option (VariablePacket m))) (w : World m T)
        → IsExplained w.trace
        → IsExplained (read_stream m T (actors_of name).recv items r w).1.trace
    unfolding read_stream wired
    read_stream-IsExplained [] w before = before
    read_stream-IsExplained (some packet ∷ rest) w before =
        read_stream-IsExplained rest _ (forward-IsExplained w packet before)
    read_stream-IsExplained (none ∷ rest) w before = ground arith

    pub recv_actor_started-IsExplained :
        (n : ℕ) (items : List (Option (VariablePacket m)))
        → IsExplained (effects r n (recv_actor_started m T (actors_of name).recv items))
    unfolding recv_actor_started wired
    recv_actor_started-IsExplained n items =
        read_stream-IsExplained items _ (record { explained = refl; plain = tt })

  module _ (r : Runtime m PublishPacketStatus) (n : ℕ) (b b' : Bool) where
    pub handle_disconnect-IsExplained :
        (force : Bool)
        → IsExplained (
            effects r n (
              handle_disconnect m
                (record (actors_of name).disconnect {
                  packet_send_finished = b;
                  pending_disconnect = b';
                })
                disconnect_actor
                force))
    unfolding handle_disconnect wired
    handle_disconnect-IsExplained force = ground arith

    pub handle_packet_send_status-IsExplained :
        (finished : Bool)
        → IsExplained (
            effects r n (
              handle_packet_send_status m
                (record (actors_of name).disconnect {
                  packet_send_finished = b;
                  pending_disconnect = b';
                })
                disconnect_actor
                finished))
    unfolding handle_packet_send_status wired
    handle_packet_send_status-IsExplained finished = ground arith

  pub status-IsExplained :
      (r : Runtime m PublishPacketStatus) (n : ℕ) (map : StatusMap PublishPacketStatus)
      (msg : StatusOperationMessage PublishPacketStatus)
      → IsExplained (
          effects r n
            (handle (record (actors_of name).publish_status { packet_status_map = map }) msg))
  unfolding handle wired
  status-IsExplained r n map msg = ground arith

  run_control-IsExplained :
      (r : Runtime m (Unit {0})) (n : ℕ) (request : ControlRequest m)
      → IsExplained (effects r n (run_control m (actors_of name) request))
  run_control-IsExplained r n (got_connack msg) = connack-IsExplained name r n msg
  run_control-IsExplained r n _ = IsReported-IsExplained _ (run_control-IsReported name r n _ refl)

module _ {m : Mqtt} {name : String} where
  Activity-IsExplained :
      {trace : Trace m PublishPacketStatus} → Activity m name trace → IsExplained trace
  Activity-IsExplained (Activity.handles r n request) =
      IsReported-IsExplained _ (run-IsReported name r n request)
  Activity-IsExplained (Activity.goes_on before later earlier delay a l c at r n answer) =
      resume-IsExplained r n name c answer
        (All-drop EffectIsPlain later (ask_after delay a l c) earlier
          (subst (All EffectIsPlain) at (Activity-IsExplained before).plain)).0
  Activity-IsExplained (operates r n map msg) = status-IsExplained name r n map msg
  Activity-IsExplained (disconnects r n b b' force) =
      handle_disconnect-IsExplained name r n b b' force
  Activity-IsExplained (reports r n b b' finished) =
      handle_packet_send_status-IsExplained name r n b b' finished

  ControlActivity-IsExplained :
      {trace : Trace m (Unit {0})} → ControlActivity m name trace → IsExplained trace
  ControlActivity-IsExplained (ControlActivity.handles r n request) =
      run_control-IsExplained name r n request
  ControlActivity-IsExplained
        (ControlActivity.goes_on before later earlier delay a l c at r n answer) =
      resume_control-IsExplained name r n c answer
        (All-drop EffectIsPlain later (ask_after delay a l c) earlier
          (subst (All EffectIsPlain) at (ControlActivity-IsExplained before).plain)).0
  ControlActivity-IsExplained
        (ControlActivity.goes_on_existence before later earlier delay a l c at r n found) =
      resume_existence-IsExplained name r n c found
        (All-drop EffectIsPlain later (ask_after delay a l c) earlier
          (subst (All EffectIsPlain) at (ControlActivity-IsExplained before).plain)).0
  ControlActivity-IsExplained (dispatches r n packet) = dispatch-IsExplained name r n packet
  ControlActivity-IsExplained (writes r n encode b b' msg) =
      send_variable_packet-IsExplained name r n encode b b' msg
  ControlActivity-IsExplained (write_fails r n) = write_error-IsExplained name r n
  ControlActivity-IsExplained (reads r n items) = recv_actor_started-IsExplained name r n items

-- On a client as `start_actors` wires it, whatever its actors handle, other than messages to stop, however
-- their futures go on, in any order, and whatever the mailboxes answer: a handler or a future tells the
-- stop actor to stop the client only after it sent a report to the user's error recipient, or tried to
-- send a DISCONNECT.
pub stopped-explained :
    (m : Mqtt) (name : String) (trace : Trace m PublishPacketStatus) (trace' : Trace m (Unit {0}))
    → Activity m name trace
    → ControlActivity m name trace'
    → (is_preceded stops_client is_cause trace ≡ true)
      × (is_preceded stops_client is_cause trace' ≡ true)
stopped-explained m name trace trace' publishing controlling = (
  (Activity-IsExplained publishing).explained,
  (ControlActivity-IsExplained controlling).explained,
)
