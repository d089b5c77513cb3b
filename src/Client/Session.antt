-- ===== src/Client/Session.antt =====
-- src/client.rs: what a client can still do after `disconnect`.
use actix_mqtt_client.Common.{
  ℕ, Bool, true, false, List, [], some, not, if◌then◌else◌, ◌≡◌, arith, String,
}
use actix_mqtt_client.Mqtt.{Mqtt, QualityOfService}
use actix_mqtt_client.Message.{Address, not_found, already_exists}
use actix_mqtt_client.Client.{
  MqttClient, Post, ok, err, client_connect, client_subscribe, client_unsubscribe, client_publish,
  client_disconnect, is_connected, is_disconnected,
}

-- After `disconnect` on a client that has its disconnect actor, forced or not, and however it ends:
-- publishing, subscribing and unsubscribing send nothing and fail with `NotFound`, connecting sends
-- nothing and fails with `AlreadyExists`, the client is not connected, and it counts as
-- disconnected at once if it was forced, or else when the disconnect actor has stopped.
pub client_disconnect-closes :
    (m : Mqtt) (post post' : Post m (Unit {0})) (query : Post m Bool) (connected : Address → Bool)
    (client : MqttClient) (addr : Address) (force : Bool) (topic : String) (qos : QualityOfService)
    (payload : List ℕ)
    → client.disconnect_addr ≡ some addr
    → let client' = (client_disconnect m post client force).0 in
      (client_publish m post' client' topic qos payload ≡ ([], err not_found))
      × (client_subscribe m post' client' topic qos ≡ ([], err not_found))
      × (client_unsubscribe m post' client' topic ≡ ([], err not_found))
      × ((client_connect m post' client').1 ≡ ([], err already_exists))
      × (is_connected m query client'.conn_status_addr ≡ ok false)
      × (is_disconnected connected client'.disconnect_addr
          ≡ (if force then true else not (connected addr)))
unfolding client_publish client_subscribe client_unsubscribe client_connect client_disconnect
    is_connected is_disconnected
client_disconnect-closes m post post' query connected client addr force topic qos payload e =
    ground arith
