-- ===== src/Status.antt =====
-- src/actors/actions/status.rs: `PacketStatusActor`, which keeps the packets in flight. The
-- `HashMap` is an association list by packet identifier.
pub mod Map
pub mod Laws
pub mod Kept
use actix_mqtt_client.Common.{ℕ, Bool, true, false, List, [], Option, none, some, if◌then◌else◌}
use actix_mqtt_client.Mqtt.{Mqtt}
use actix_mqtt_client.Message.{
  Letter, Address, PacketStatus, StatusOperationMessage, set_packet_status,
  get_and_remove_packet_status, remove_packet_status, packet_send_status,
}
use actix_mqtt_client.Runtime.{Act, ◌>>◌, give, skip, do_send_}
use Map.{StatusMap, get, insert, remove, contains_key, is_empty}

-- `name` only occurs in log lines.
pub record PacketStatusActor (T : Type 0) : Type 0 where
  pub packet_status_map : StatusMap T
  pub packet_send_status_recipient_option : Option Address

module _ {T : Type 0} where
  abbrev pub new : Option Address → PacketStatusActor T
  new recipient = record { packet_status_map = []; packet_send_status_recipient_option = recipient }

  -- `StatusExistenceMessage`
  unfoldable pub handle_existence : PacketStatusActor T → ℕ → Bool
  handle_existence actor id = contains_key id actor.packet_status_map

  -- The `match`: the map afterwards, and the result.
  unfoldable pub operate :
      StatusMap T → StatusOperationMessage T → StatusMap T × Option (PacketStatus T)
  operate map (set_packet_status id status) = (insert id status map, none)
  operate map (get_and_remove_packet_status id) =
      if contains_key id map then (remove id map, get id map) else (map, none)
  operate map (remove_packet_status id) = (remove id map, none)

  -- After every operation the recipient, if there is one, is told whether the map is empty.
  unfoldable pub report : {m : Mqtt} → Option Address → Bool → Act m T (Unit {0})
  report none finished = skip
  report (some recipient) finished = do_send_ recipient (packet_send_status finished)

  unfoldable pub handle :
      {m : Mqtt}
      → PacketStatusActor T
      → StatusOperationMessage T
      → Act m T (PacketStatusActor T × Option (PacketStatus T))
  unfolding operate report
  handle actor msg = do
    let (map', result) = operate actor.packet_status_map msg
    report actor.packet_send_status_recipient_option (is_empty map')
    give (record actor { packet_status_map = map' }, result)
