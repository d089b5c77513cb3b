-- ===== src/Examples/Data.antt =====
-- A concrete instance of the `mqtt` crate's interface, runtimes, actors and messages for the examples.
use Prim.Native.String.{String}
use actix_mqtt_client.Common.{ℕ, Bool, List, [], ◌∷◌, Option, none, some}
use actix_mqtt_client.Mqtt.{Mqtt, QualityOfService, QoSWithPacketIdentifier}
use actix_mqtt_client.Message.{
  connect_actor, send_publish_actor, subscribe_actor, unsubscribe_actor, disconnect_actor,
  connect_status_actor, Address, PacketMessage, Publish, publish_status_actor, send_actor,
  user_error_recipient, user_message_recipient, stop_actor, subscribe_status_actor,
}
use actix_mqtt_client.Runtime.{Runtime, SendResult, SendError, sent, refused}
use actix_mqtt_client.Sending.{SendPacketActor, ResponsePacketActor}
use actix_mqtt_client.Publish.Receive.{RecvPublishActor}
use actix_mqtt_client.Client.{MqttClient}

-- The empty topic is the invalid one.
abbrev topic_of : String → Option String
topic_of String.[] = none
topic_of (String.◌∷◌ c s) = some (String.◌∷◌ c s)

abbrev qos_of : QualityOfService → ℕ → QoSWithPacketIdentifier
qos_of QualityOfService.level0 id = QoSWithPacketIdentifier.level0
qos_of QualityOfService.level1 id = QoSWithPacketIdentifier.level1 id
qos_of QualityOfService.level2 id = QoSWithPacketIdentifier.level2 id

-- Packets that carry what they were made from.
abbrev pub test_mqtt : Mqtt
test_mqtt = record {
  TopicName = String;
  TopicFilter = String;
  ConnectPacket = String × Option String × Option String × Option ℕ;
  ConnackPacket = Bool;
  PublishPacket = String × QoSWithPacketIdentifier × List ℕ;
  PubackPacket = ℕ;
  PubrecPacket = ℕ;
  PubrelPacket = ℕ;
  PubcompPacket = ℕ;
  SubscribePacket = ℕ × List (String × QualityOfService);
  SubackPacket = ℕ;
  UnsubscribePacket = ℕ × List String;
  UnsubackPacket = ℕ;
  PingreqPacket = Unit {0};
  PingrespPacket = Unit {0};
  DisconnectPacket = Unit {0};
  topic_name_new = topic_of;
  topic_filter_new = topic_of;
  qos_with_packet_identifier_new = qos_of;
  connect_packet_new = λ name. (name, none, none, none);
  set_user_name = λ p user. (p.0, user, p.2, p.3);
  set_password = λ p password. (p.0, p.1, password, p.3);
  set_keep_alive = λ p seconds. (p.0, p.1, p.2, some seconds);
  accepted = λ p. p;
  publish_packet_new = λ topic qos payload. (topic, qos, payload);
  qos = λ p. p.1;
  topic_name = λ p. p.0;
  payload = λ p. p.2;
  puback_packet_new = λ id. id;
  pubrec_packet_new = λ id. id;
  pubrel_packet_new = λ id. id;
  pubcomp_packet_new = λ id. id;
  puback_identifier = λ id. id;
  pubrec_identifier = λ id. id;
  pubrel_identifier = λ id. id;
  pubcomp_identifier = λ id. id;
  suback_identifier = λ id. id;
  unsuback_identifier = λ id. id;
  subscribe_packet_new = λ id topics. (id, topics);
  unsubscribe_packet_new = λ id topics. (id, topics);
  pingreq_packet_new = tt;
  disconnect_packet_new = tt;
}

-- Every mailbox takes everything.
abbrev pub accepting : (T : Type 0) → Runtime test_mqtt T
accepting T trace a l = sent

-- Every mailbox is full.
abbrev pub crowded : (T : Type 0) → Runtime test_mqtt T
crowded T trace a l = refused SendError.full

-- The mailbox of the sender is full, and every other takes everything.
abbrev full_for : Address → SendResult
full_for send_actor = refused SendError.full
full_for _ = sent

abbrev pub busy_sender : (T : Type 0) → Runtime test_mqtt T
busy_sender T trace a l = full_for a

abbrev pub publish_sender : SendPacketActor
publish_sender = record {
  status_recipient = publish_status_actor;
  send_recipient = send_actor;
  error_recipient = user_error_recipient;
  stop_recipient = stop_actor;
}

abbrev pub subscribe_sender : SendPacketActor
subscribe_sender = record publish_sender { status_recipient = subscribe_status_actor }

abbrev pub acker : ResponsePacketActor
acker = record {
  status_recipient = publish_status_actor;
  error_recipient = user_error_recipient;
  stop_recipient = stop_actor;
}

abbrev pub receiver : RecvPublishActor
receiver = record {
  status_recipient = publish_status_actor;
  send_recipient = send_actor;
  error_recipient = user_error_recipient;
  stop_recipient = stop_actor;
  remote_message_recipient = user_message_recipient;
}

abbrev pub reading : QualityOfService → Publish
reading qos = record { topic = "t"; qos = qos; payload = 7 ∷ []; retry_count = 0 }

abbrev pub incoming : QoSWithPacketIdentifier → PacketMessage test_mqtt.PublishPacket
incoming qos = record { packet = ("t", qos, 7 ∷ []); retry_count = 0 }

abbrev pub Nothing : Type 0
Nothing = Unit {0}

abbrev pub client : MqttClient
client = record {
  conn_addr = some connect_actor;
  pub_addr = some send_publish_actor;
  sub_addr = some subscribe_actor;
  unsub_addr = some unsubscribe_actor;
  stop_addr = some stop_actor;
  disconnect_addr = some disconnect_actor;
  conn_status_addr = some connect_status_actor;
  client_name = "c";
  options = some (record { user_name = none; password = none; keep_alive = some 30 });
}
