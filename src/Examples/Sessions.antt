-- ===== src/Examples/Sessions.antt =====
-- The theorems on the graceful disconnect, the filters and the client, at concrete inputs.
use mathlib.Core.List.{filter_map}
use actix_mqtt_client.Common.{◌≤◌, true, false, [], ◌∷◌, some, none, ◌≡◌, ◌≢◌, ◌⊎◌, refl}
use actix_mqtt_client.Mqtt.{QualityOfService, subscribe_packet}
use actix_mqtt_client.Message.{
  BatchSubscribe, BatchUnsubscribe, disconnect_actor, stop_actor, send_actor, user_error_recipient,
  not_found, already_exists, set_packet_status, remove_packet_status, pending_ack,
  StatusOperationMessage, PublishPacketStatus,
}
use actix_mqtt_client.Runtime.{Runtime, effects, response}
use actix_mqtt_client.Observe.{count, hands_packet}
use actix_mqtt_client.Ids.{u16_max, fetch_add}
use actix_mqtt_client.Status.{handle}
use actix_mqtt_client.Status.Map.{insert, is_empty}
use actix_mqtt_client.Client.{
  ok, err, client_connect, client_disconnect, client_publish, client_subscribe, client_unsubscribe,
  is_connected, is_disconnected,
}
use actix_mqtt_client.Client.Session.{client_disconnect-closes}
use actix_mqtt_client.Publish.Send.{publish_status}
use actix_mqtt_client.Disconnect.{handle_packet_send_status, handle_disconnect}
use actix_mqtt_client.Disconnect.Graceful.{
  Session, Reach, Step, session_start, handled, after, report_after, settled-disconnect, goes_on,
  hands_over,
}
use actix_mqtt_client.Ids.{id_of_counter}
use actix_mqtt_client.Subscribe.{create_packet_and_id_from_message}
use actix_mqtt_client.Subscribe.Filters.{parsed, create_packet-cases}
use actix_mqtt_client.Examples.Data.{client, test_mqtt, accepting}

abbrev fresh : Session
fresh = session_start send_actor user_error_recipient stop_actor disconnect_actor

abbrev quiet : Runtime test_mqtt PublishPacketStatus
quiet = accepting PublishPacketStatus

abbrev storing : StatusOperationMessage PublishPacketStatus
storing = set_packet_status 5 (publish_status 5 0 pending_ack)

abbrev removing : StatusOperationMessage PublishPacketStatus
removing = remove_packet_status 5

-- A packet is stored.
abbrev stored : Session
stored = record fresh {
  status = (after quiet 0 (handle fresh.status storing)).0;
  reports = report_after fresh.status storing ∷ [];
}

-- The report arrives.
abbrev reported : Session
reported =
    handled quiet 0 (handle_packet_send_status test_mqtt stored.actor disconnect_actor false)
      (record stored { reports = [] })

reported_steps : Reach test_mqtt disconnect_actor fresh reported
unfolding handle is_empty insert handle_packet_send_status
reported_steps =
    Reach.next (Reach.next Reach.here (Step.operates quiet 0 storing refl))
      (Step.delivers quiet 0 false [] refl refl refl)

settled-disconnect_example :
    let trace =
      effects quiet 0 (handle_disconnect test_mqtt reported.actor disconnect_actor false) in
    (reported.attempts ≡ 0)
    × (count hands_packet trace ≡ 0)
    × (goes_on trace ≡ true)
    × (count hands_over trace ≡ 0)
unfolding is_empty handle insert handle_packet_send_status
settled-disconnect_example =
    settled-disconnect test_mqtt disconnect_actor send_actor user_error_recipient stop_actor
      reported_steps quiet 0 refl refl

-- The user asks, and the packet is acknowledged.
abbrev asked : Session
asked = handled quiet 0 (handle_disconnect test_mqtt reported.actor disconnect_actor false) reported

abbrev acknowledged : Session
acknowledged = record asked {
  status = (after quiet 0 (handle asked.status removing)).0;
  reports = report_after asked.status removing ∷ [];
}

abbrev topics : BatchSubscribe
topics = record {
  subscriptions =
      record { topic = "a"; qos = QualityOfService.level1 }
      ∷ record { topic = ""; qos = QualityOfService.level0 }
      ∷ [];
  retry_count = 0;
}

create_packet-cases_example :
    let valid = filter_map (parsed test_mqtt) topics.subscriptions in
    ((valid ≡ []) × (create_packet_and_id_from_message test_mqtt topics 7 ≡ (none, 7)))
    ⊎ ((1 ≤ 8)
        × (8 ≤ u16_max)
        × (valid ≢ [])
        × (create_packet_and_id_from_message test_mqtt topics 7
            ≡ (some (subscribe_packet (8, valid), 8), fetch_add 7)))
unfolding id_of_counter
create_packet-cases_example = create_packet-cases test_mqtt topics 7

client_disconnect-closes_example :
    let client' = (client_disconnect test_mqtt (λ a l. response tt) client false).0 in
    (client_publish test_mqtt (λ a l. response tt) client' "t" QualityOfService.level2 (5 ∷ [])
      ≡ ([], err not_found))
    × (client_subscribe test_mqtt (λ a l. response tt) client' "t" QualityOfService.level2
        ≡ ([], err not_found))
    × (client_unsubscribe test_mqtt (λ a l. response tt) client' "t" ≡ ([], err not_found))
    × ((client_connect test_mqtt (λ a l. response tt) client').1 ≡ ([], err already_exists))
    × (is_connected test_mqtt (λ a l. response true) client'.conn_status_addr ≡ ok false)
    × (is_disconnected (λ a. true) client'.disconnect_addr ≡ false)
client_disconnect-closes_example =
    client_disconnect-closes test_mqtt (λ a l. response tt) (λ a l. response tt)
      (λ a l. response true) (λ a. true) client disconnect_actor false "t" QualityOfService.level2
      (5 ∷ []) refl

abbrev filters : BatchUnsubscribe
filters = record { topics = "" ∷ "b" ∷ []; retry_count = 0 }
