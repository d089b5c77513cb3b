-- ===== src/Examples/Control.antt =====
-- The theorems on the status actor, the connection, stopping and the client, at concrete inputs.
use actix_mqtt_client.Common.{ℕ, false, [], ◌∷◌, some, ◌≡◌, ◌≢◌, refl, arith}
use actix_mqtt_client.Message.{
  PacketStatus, PublishPacketStatus, pending_ack, connect_actor, disconnect_actor, send_actor,
  get_and_remove_packet_status, StatusOperationMessage,
}
use actix_mqtt_client.Runtime.{World}
use actix_mqtt_client.Ids.{id_of_counter}
use actix_mqtt_client.Ids.Window.{after_calls, id-distinct}
use actix_mqtt_client.Status.{PacketStatusActor, handle}
use actix_mqtt_client.Status.Map.{HasDistinctKeys, get}
use actix_mqtt_client.Status.Laws.{table, operate_table, handle-refines}
use actix_mqtt_client.Stop.{StopActor}
use actix_mqtt_client.Examples.Data.{test_mqtt, accepting}

abbrev T : Type 0
T = PublishPacketStatus

abbrev waiting : PacketStatus T
waiting = record { id = 9; retry_count = 0; payload = pending_ack }

abbrev status_actor : PacketStatusActor T
status_actor = record {
  packet_status_map = (9, waiting) ∷ [];
  packet_send_status_recipient_option = some disconnect_actor;
}

abbrev before : World test_mqtt T
before = record { id_counter = 0; trace = [] }

handle-refines_example :
    let msg : StatusOperationMessage T = get_and_remove_packet_status 9 in
    let (actor', result) = (handle status_actor msg (accepting T) before).0 in
    ((j : ℕ) → table actor' j ≡ (operate_table (table status_actor) msg).0 j)
    × (result ≡ (operate_table (table status_actor) msg).1)
    × HasDistinctKeys actor'.packet_status_map
unfolding get
handle-refines_example =
    handle-refines (accepting T) before status_actor (get_and_remove_packet_status 9) (refl, tt)

id-distinct_example : id_of_counter (after_calls 3 65534) ≢ id_of_counter 65534
id-distinct_example = id-distinct 65534 3 (omega arith) (omega arith) (omega arith)

abbrev two_recipients : StopActor
two_recipients = record { stop_recipients = send_actor ∷ connect_actor ∷ []; stopping = false }
