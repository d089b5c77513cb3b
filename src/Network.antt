-- ===== src/Network.antt =====
-- Any number of clients and what lies between them: the publish actors and the dispatch actor of each
-- (src/actors/packets/{publish,puback,pubrec,pubrel,pubcomp}.rs, src/actors/actions/dispatch.rs), in
-- whatever order they run. A letter or a packet that has been sent may come late, twice or never, and
-- to any client, so that one relation covers loss, repetition and reordering.
pub mod Published
pub mod Integrity
pub mod Answering
pub mod Causes
pub mod Acknowledged
use actix_mqtt_client.Common.{ℕ, List, ◌∷◌, ◌++◌, Option, none, some, ◌≡◌, String}
use actix_mqtt_client.Mqtt.{Mqtt, VariablePacket}
use actix_mqtt_client.Message.{
  Letter, Address, PacketMessage, PacketStatus, PublishPacketStatus, Publish, publish,
  publish_packet_message, puback_message, pubrec_message, pubrel_message, pubcomp_message,
  variable_packet_message,
}
use actix_mqtt_client.Runtime.{
  Runtime, Trace, Effect, Continuation, Response, tried, did, notified, resend_after, notify_every,
  ask_after, effects,
}
use actix_mqtt_client.Dispatch.{dispatch}
use actix_mqtt_client.Client.Start.{Actors}
use actix_mqtt_client.Flight.{
  Request, to_publish, got_publish, got_puback, got_pubrec, got_pubrel, got_pubcomp, run, resume,
}

module _ {m : Mqtt} where
  -- The letter that brings a message to its actor.
  abbrev pub letter_of : Request m → Letter m PublishPacketStatus
  letter_of (to_publish msg) = publish msg
  letter_of (got_publish msg) = publish_packet_message msg
  letter_of (got_puback msg) = puback_message msg
  letter_of (got_pubrec msg) = pubrec_message msg
  letter_of (got_pubrel msg) = pubrel_message msg
  letter_of (got_pubcomp msg) = pubcomp_message msg

  -- The letter that an effect puts into a mailbox, now or later, whether the mailbox takes it or not.
  abbrev pub letter_in : Effect m PublishPacketStatus → Option (Letter m PublishPacketStatus)
  letter_in (tried a l o) = some l
  letter_in (did a l o) = some l
  letter_in (notified a l) = some l
  letter_in (resend_after delay a l) = some l
  letter_in (notify_every delay a l) = some l
  letter_in (ask_after delay a l c) = some l
  letter_in _ = none

-- What the clients can do, where `Published` holds of the topics and payloads that their users publish:
-- handle a message that a user publishes; handle a letter that was sent; dispatch a packet that was
-- handed to a sender; and go on with a future that was left behind.
pub data Network (m : Mqtt) (Published : String → List ℕ → Type 0)
    : Trace m PublishPacketStatus → Type 0 where
  publishes :
      (actors : Actors) (r : Runtime m PublishPacketStatus) (n : ℕ) (msg : Publish)
      → Published msg.topic msg.payload
      → Network m Published (effects r n (run m actors (to_publish msg)))
  handles :
      {trace : Trace m PublishPacketStatus}
      → Network m Published trace
      → (later earlier : Trace m PublishPacketStatus) (e : Effect m PublishPacketStatus)
        (request : Request m)
      → trace ≡ later ++ (e ∷ earlier)
      → letter_in e ≡ some (letter_of request)
      → (actors : Actors) (r : Runtime m PublishPacketStatus) (n : ℕ)
      → Network m Published (effects r n (run m actors request))
  dispatches :
      {trace : Trace m PublishPacketStatus}
      → Network m Published trace
      → (later earlier : Trace m PublishPacketStatus) (e : Effect m PublishPacketStatus)
        (sent : PacketMessage (VariablePacket m))
      → trace ≡ later ++ (e ∷ earlier)
      → letter_in e ≡ some (variable_packet_message sent)
      → (actors : Actors) (r : Runtime m PublishPacketStatus) (n : ℕ)
      → Network m Published
          (effects r n (dispatch m PublishPacketStatus actors.dispatch sent.packet))
  goes_on :
      {trace : Trace m PublishPacketStatus}
      → Network m Published trace
      → (later earlier : Trace m PublishPacketStatus) (delay : ℕ) (a : Address)
        (l : Letter m PublishPacketStatus) (c : Continuation m PublishPacketStatus)
      → trace ≡ later ++ (ask_after delay a l c ∷ earlier)
      → (actors : Actors) (r : Runtime m PublishPacketStatus) (n : ℕ)
        (answer : Response (Option (PacketStatus PublishPacketStatus)))
      → Network m Published (effects r n (resume m actors c answer))
