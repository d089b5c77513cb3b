-- ===== src/Dispatch/Routes.antt =====
-- src/actors/actions/dispatch.rs with the wiring of src/client.rs: where each packet goes.
use actix_mqtt_client.Common.{ℕ, List, [], ◌∷◌, Option, none, some, ◌≡◌, arith, String}
use actix_mqtt_client.Mqtt.{
  Mqtt, VariablePacket, connack_packet, publish_packet, puback_packet, pubrec_packet, pubrel_packet,
  pubcomp_packet, suback_packet, unsuback_packet, pingresp_packet,
}
use actix_mqtt_client.Message.{
  Letter, Address, error_message, recv_publish_actor, puback_actor, pubrec_actor, pubrel_actor,
  pubcomp_actor, suback_actor, unsuback_actor, connack_actor, pingresp_actor,
}
use actix_mqtt_client.Runtime.{Trace, Runtime, effects, tried}
use actix_mqtt_client.Observe.{count, puts_one_back}
use actix_mqtt_client.Dispatch.{dispatch}
use actix_mqtt_client.Client.Start.{wired}

-- The actor that handles packets of a kind; packets that a server never sends have none.
abbrev pub handler_of : {m : Mqtt} → VariablePacket m → Option Address
handler_of (connack_packet p) = some connack_actor
handler_of (pingresp_packet p) = some pingresp_actor
handler_of (publish_packet p) = some recv_publish_actor
handler_of (puback_packet p) = some puback_actor
handler_of (pubrec_packet p) = some pubrec_actor
handler_of (pubrel_packet p) = some pubrel_actor
handler_of (pubcomp_packet p) = some pubcomp_actor
handler_of (suback_packet p) = some suback_actor
handler_of (unsuback_packet p) = some unsuback_actor
handler_of _ = none

abbrev pub optional {ℓ} : {A : Type ℓ} → Option A → List A
optional none = []
optional (some a) = a ∷ []

module _ {m : Mqtt} {T : Type 0} where
  abbrev address_unless_error : Address → Letter m T → List Address → List Address
  address_unless_error a (error_message k) rest = rest
  address_unless_error a l rest = a ∷ rest

  -- To whom a trace tries to send anything but an error.
  abbrev pub attempts : Trace m T → List Address
  attempts [] = []
  attempts (tried a l o ∷ trace) = address_unless_error a l (attempts trace)
  attempts (e ∷ trace) = attempts trace

-- The dispatch actor, as `start_actors` wires it, tries to send every packet exactly once, to the
-- actor that handles its kind, and drops the packets that a server never sends; it puts nothing
-- back, whatever the mailboxes answer.
pub dispatch-wired :
    (m : Mqtt) (T : Type 0) (errors messages : Address) (name : String) (r : Runtime m T) (n : ℕ)
    (packet : VariablePacket m)
    → let trace = effects r n (dispatch m T (wired errors messages name).dispatch packet) in
      (attempts trace ≡ optional (handler_of packet)) × (count puts_one_back trace ≡ 0)
unfolding dispatch wired
dispatch-wired m T errors messages name r n (connack_packet p) = ground arith
dispatch-wired m T errors messages name r n packet = ground arith
