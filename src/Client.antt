-- ===== src/Client.antt =====
-- src/client.rs: `MqttClient`, the interface of the library. Whether an actor answers is the
-- runtime's: `Post` gives the outcome of `send(..).await` for each message.
pub mod Start
pub mod Shutdown
pub mod Session
pub mod Connected
use actix_mqtt_client.Common.{
  ℕ, Bool, true, false, List, [], ◌∷◌, Option, none, some, not, if◌then◌else◌, String,
}
use actix_mqtt_client.Mqtt.{Mqtt, QualityOfService}
use actix_mqtt_client.Message.{
  Letter, Address, ErrorKind, Connect, connect, subscribe, unsubscribe, publish, disconnect,
  status_existence, interrupted, not_found, already_exists, not_connected,
}
use actix_mqtt_client.Publish.Send.{publish_new}
use actix_mqtt_client.Runtime.{Response, response, failed}

-- `IoResult`, of whose error the kind is kept.
pub data IoResult (A : Type 0) : Type 0 where
  ok : A → IoResult A
  err : ErrorKind → IoResult A

pub record MqttOptions : Type 0 where
  pub user_name : Option String
  pub password : Option String
  pub keep_alive : Option ℕ

pub record MqttClient : Type 0 where
  pub conn_addr : Option Address
  pub pub_addr : Option Address
  pub sub_addr : Option Address
  pub unsub_addr : Option Address
  pub stop_addr : Option Address
  pub disconnect_addr : Option Address
  pub conn_status_addr : Option Address
  pub client_name : String
  pub options : Option MqttOptions

abbrev pub name : MqttClient → String
name client = client.client_name

abbrev pub Post : Mqtt → Type 0 → Type 0
Post m A = Address → Letter m (Unit {0}) → Response A

-- `.map_err(map_mailbox_error_to_io_error)`
abbrev pub map_mailbox_error : {A : Type 0} → Response A → IoResult A
map_mailbox_error (response a) = ok a
map_mailbox_error (failed e) = err interrupted

-- `address_not_found_error`, of which the kind is kept.
abbrev pub address_not_found_error : ErrorKind
address_not_found_error = not_found

-- What a call sends, and its result.
abbrev pub Sent : Mqtt → Type 0 → Type 0
Sent m A = List (Address × Letter m (Unit {0})) × IoResult A

abbrev pub connect_message : MqttOptions → Connect
connect_message options = record {
  user_name = options.user_name;
  password = options.password;
  keep_alive = options.keep_alive;
}

module _ (m : Mqtt) (post : Post m (Unit {0})) where
  -- `addr.send(letter).await.map_err(map_mailbox_error_to_io_error)`
  unfoldable pub post_to : Address → Letter m (Unit {0}) → Sent m (Unit {0})
  post_to addr letter = ((addr, letter) ∷ [], map_mailbox_error (post addr letter))

  -- `if let Some(ref addr) = .. { addr.send(..) } else { Err(address_not_found_error(..)) }`
  unfoldable pub post_if : Option Address → Letter m (Unit {0}) → Sent m (Unit {0})
  unfolding post_to
  post_if none letter = ([], err address_not_found_error)
  post_if (some addr) letter = post_to addr letter

  unfoldable pub connect_with : Option Address → Option MqttOptions → Sent m (Unit {0})
  unfolding post_to
  connect_with (some addr) (some options) = post_to addr (connect (connect_message options))
  connect_with (some addr) none = ([], err already_exists)
  connect_with none options = ([], err already_exists)

  -- Both `take`s happen before the match.
  unfoldable pub client_connect : MqttClient → MqttClient × Sent m (Unit {0})
  unfolding connect_with
  client_connect client = (
    record client { conn_addr = none; options = none },
    connect_with client.conn_addr client.options,
  )

  unfoldable pub client_subscribe : MqttClient → String → QualityOfService → Sent m (Unit {0})
  unfolding post_if
  client_subscribe client topic qos =
      post_if client.sub_addr (subscribe (record { topic = topic; qos = qos }))

  unfoldable pub client_unsubscribe : MqttClient → String → Sent m (Unit {0})
  unfolding post_if
  client_unsubscribe client topic =
      post_if client.unsub_addr (unsubscribe (record { topic = topic }))

  unfoldable pub client_publish :
      MqttClient → String → QualityOfService → List ℕ → Sent m (Unit {0})
  unfolding post_if
  client_publish client topic qos payload =
      post_if client.pub_addr (publish (publish_new topic qos payload))

  unfoldable pub clear_all_addrs : MqttClient → Bool → MqttClient
  clear_all_addrs client include_disconnect =
      let cleared : MqttClient = record client {
        pub_addr = none;
        sub_addr = none;
        unsub_addr = none;
        conn_addr = none;
        conn_status_addr = none;
      } in
      if include_disconnect then record cleared { disconnect_addr = none } else cleared

  unfoldable pub disconnect_with :
      MqttClient → Bool → Option Address → MqttClient × Sent m (Unit {0})
  unfolding post_to clear_all_addrs
  disconnect_with client force none = (client, ([], err address_not_found_error))
  disconnect_with client force (some addr) =
      (clear_all_addrs client force, post_to addr (disconnect force))

  unfoldable pub client_disconnect : MqttClient → Bool → MqttClient × Sent m (Unit {0})
  unfolding disconnect_with
  client_disconnect client force = disconnect_with client force client.disconnect_addr

-- `conn_status_addr`'s answer, or its mailbox error.
unfoldable pub connected_of : IoResult Bool → IoResult Bool
connected_of (ok connected) = ok connected
connected_of (err e) = err not_connected

unfoldable pub is_connected : (m : Mqtt) → Post m Bool → Option Address → IoResult Bool
unfolding connected_of
is_connected m post none = ok false
is_connected m post (some addr) = connected_of (map_mailbox_error (post addr (status_existence 1)))

-- `connected` tells whether the mailbox of an actor is still open.
unfoldable pub is_disconnected : (Address → Bool) → Option Address → Bool
is_disconnected connected none = true
is_disconnected connected (some addr) = not (connected addr)
