-- ===== src/Examples/Flights.antt =====
-- The theorems on the packets in flight, at concrete inputs.
use actix_mqtt_client.Common.{Bool, true, false, List, [], ◌∷◌, ◌≡◌, ◌≤◌, refl, is_some}
use actix_mqtt_client.Mqtt.{QualityOfService}
use actix_mqtt_client.Message.{
  PublishPacketStatus, pending_ack, publish, disconnect_actor, send_publish_actor,
  user_error_recipient, user_message_recipient, stop_actor,
}
use actix_mqtt_client.Runtime.{Runtime, effects, status_check}
use actix_mqtt_client.Observe.{count, hands_packet}
use actix_mqtt_client.Ids.{next_id, id_of_counter, fetch_add}
use actix_mqtt_client.Status.{operate}
use actix_mqtt_client.Status.Map.{get, insert, remove, contains_key, is_empty}
use actix_mqtt_client.Publish.Send.{publish_status, handle_publish, retry_publish}
use actix_mqtt_client.Acks.{handle_puback}
use actix_mqtt_client.Sending.{finish_status_check, handle_response, store_and_send}
use actix_mqtt_client.Disconnect.{handle_disconnect, handle_packet_send_status}
use actix_mqtt_client.Disconnect.Graceful.{handled, hands_over, goes_on}
use actix_mqtt_client.Client.Start.{Actors, wired}
use actix_mqtt_client.Flight.{
  Flight, Question, Reach, to_publish, got_puback, absorb, answered, run, resume, handles, answers,
  delivers, here, next, flight_start,
}
use actix_mqtt_client.Flight.Questions.{Occurs, ids}
use actix_mqtt_client.Flight.Tracked.{flight-tracked}
use actix_mqtt_client.Flight.Drained.{quiet-disconnect}
use actix_mqtt_client.Flight.Sound.{status-IsSound}
use actix_mqtt_client.Consts.{max_retry_count}
use actix_mqtt_client.Examples.Data.{test_mqtt, accepting, reading}

abbrev T : Type 0
T = PublishPacketStatus

abbrev actors : Actors
actors = wired user_error_recipient user_message_recipient "c"

abbrev quiet : Runtime test_mqtt T
quiet = accepting T

-- A message at QoS 1 is published.
abbrev published : Flight test_mqtt
published =
    absorb (effects quiet 5 (run test_mqtt actors (to_publish (reading QualityOfService.level1))))
      (flight_start test_mqtt actors)

published_steps : Reach test_mqtt actors (flight_start test_mqtt actors) published
published_steps = next here (handles quiet 5 (to_publish (reading QualityOfService.level1)) refl)

flight-tracked_example : Occurs 6 (ids published.questions)
unfolding run handle_publish store_and_send wired next_id id_of_counter fetch_add operate insert get
flight-tracked_example =
    flight-tracked test_mqtt user_error_recipient user_message_recipient "c" published_steps refl 6
      (publish_status 6 0 pending_ack) refl

status-IsSound_example :
    ((publish_status 6 0 pending_ack).id ≡ 6)
    × ((publish_status 6 0 pending_ack).retry_count ≤ max_retry_count)
unfolding run handle_publish store_and_send wired next_id id_of_counter fetch_add operate insert get
status-IsSound_example =
    status-IsSound test_mqtt user_error_recipient user_message_recipient "c" published_steps 6
      (publish_status 6 0 pending_ack) refl

-- Its PUBACK arrives, and the timer asks.
abbrev acknowledged : Flight test_mqtt
acknowledged =
    absorb
      (effects quiet 0 (run test_mqtt actors (got_puback (record { packet = 6; retry_count = 0 }))))
      published

abbrev question : Question test_mqtt
question = record {
  id = 6;
  continuation =
      status_check user_error_recipient stop_actor send_publish_actor
        (publish (retry_publish (reading QualityOfService.level1))) is_some;
}

abbrev asked : Flight test_mqtt
asked = answered test_mqtt actors quiet 0 question [] [] acknowledged

asked_steps : Reach test_mqtt actors (flight_start test_mqtt actors) asked
unfolding run handle_publish handle_puback wired next_id id_of_counter fetch_add handle_response
    store_and_send
asked_steps =
    next
      (next published_steps
        (handles quiet 0 (got_puback (record { packet = 6; retry_count = 0 })) refl))
      (answers quiet 0 [] question [] refl refl)

-- A report arrives.
abbrev delivered : Bool → List Bool → Flight test_mqtt → Flight test_mqtt
delivered b rest f = record f {
  session =
      handled quiet 0 (handle_packet_send_status test_mqtt f.session.actor disconnect_actor b)
        (record f.session { reports = rest });
}

abbrev rested : Flight test_mqtt
rested = delivered true [] (delivered true (true ∷ []) (delivered false (true ∷ true ∷ []) asked))

rested_steps : Reach test_mqtt actors (flight_start test_mqtt actors) rested
unfolding run resume handle_publish handle_puback wired next_id id_of_counter fetch_add
    handle_response store_and_send finish_status_check is_empty insert remove operate
    handle_packet_send_status contains_key
rested_steps =
    next
      (next (next asked_steps (delivers quiet 0 false (true ∷ true ∷ []) refl refl refl))
        (delivers quiet 0 true (true ∷ []) refl refl refl))
      (delivers quiet 0 true [] refl refl refl)

quiet-disconnect_example :
    let trace =
      effects quiet 0 (handle_disconnect test_mqtt rested.session.actor disconnect_actor false) in
    (rested.session.attempts ≡ 0)
    × (count hands_packet trace ≡ 1)
    × (count hands_over trace ≡ 1)
    × (goes_on trace ≡ false)
unfolding run resume handle_publish handle_puback wired next_id id_of_counter fetch_add
    handle_response store_and_send finish_status_check operate contains_key remove insert
    handle_packet_send_status
quiet-disconnect_example =
    quiet-disconnect test_mqtt user_error_recipient user_message_recipient "c" rested_steps refl
      refl quiet 0 refl refl refl
