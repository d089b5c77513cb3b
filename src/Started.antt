-- ===== src/Started.antt =====
-- src/actors/macros.rs: what an actor does when it starts, without the log lines.
use actix_mqtt_client.Common.{ℕ, Option, none, some}
use actix_mqtt_client.Consts.{default_mailbox_capacity, mailbox_capacity_for_publish}
use actix_mqtt_client.Mqtt.{Mqtt}
use actix_mqtt_client.Message.{
  Address, send_actor, send_publish_actor, pingreq_actor, recv_actor, user_message_recipient,
  user_error_recipient, user_stop_recipient,
}
use actix_mqtt_client.Runtime.{Act, skip, record_effect, mailbox_capacity_set}

-- The second argument of `impl_empty_actor!` and `impl_generic_empty_actor!` for each actor that uses
-- them; `SendActor`, `PingreqActor` and `RecvActor` start in a way of their own, and the user's
-- recipients are not in this repository.
abbrev pub mailbox_capacity : Address → Option ℕ
mailbox_capacity send_publish_actor = some mailbox_capacity_for_publish
mailbox_capacity send_actor = none
mailbox_capacity pingreq_actor = none
mailbox_capacity recv_actor = none
mailbox_capacity user_message_recipient = none
mailbox_capacity user_error_recipient = none
mailbox_capacity user_stop_recipient = none
mailbox_capacity _ = some default_mailbox_capacity

module _ {m : Mqtt} {T : Type 0} where
  abbrev set_capacity : Option ℕ → Act m T (Unit {0})
  set_capacity none = skip
  set_capacity (some capacity) = record_effect (mailbox_capacity_set capacity)

  -- `started` of the two macros.
  unfoldable pub empty_actor_started : Address → Act m T (Unit {0})
  empty_actor_started addr = set_capacity (mailbox_capacity addr)
