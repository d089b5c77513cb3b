-- ===== src/Message.antt =====
-- The actix messages of src/actors/mod.rs, src/actors/packets/*.rs and
-- src/actors/actions/{status,stop}.rs, and the sum of all of them, which a mailbox carries.
use actix_mqtt_client.Common.{ℕ, Bool, String, List, Option}
use actix_mqtt_client.Mqtt.{Mqtt, VariablePacket, QualityOfService}

-- `std::io::ErrorKind`, the kinds that the client reports.
pub data ErrorKind : Type 0 where
  interrupted other not_found not_connected invalid_data invalid_input already_exists : ErrorKind

-- `PacketMessage<T>`
pub record PacketMessage (P : Type 0) : Type 0 where
  pub packet : P
  pub retry_count : ℕ

-- `PublishMessage`
pub record PublishMessage : Type 0 where
  pub id : ℕ
  pub topic_name : String
  pub payload : List ℕ

-- `PublishPacketStatus`
pub data PublishPacketStatus : Type 0 where
  pending_ack pending_rec pending_rel pending_comp : PublishPacketStatus

-- `PacketStatus<T>`
pub record PacketStatus (T : Type 0) : Type 0 where
  pub id : ℕ
  pub retry_count : ℕ
  pub payload : T

-- `StatusOperationMessage<T>`
pub data StatusOperationMessage (T : Type 0) : Type 0 where
  set_packet_status : ℕ → PacketStatus T → StatusOperationMessage T
  get_and_remove_packet_status : ℕ → StatusOperationMessage T
  remove_packet_status : ℕ → StatusOperationMessage T

-- `Publish`
pub record Publish : Type 0 where
  pub topic : String
  pub qos : QualityOfService
  pub payload : List ℕ
  pub retry_count : ℕ

-- `Subscribe`
pub record Subscribe : Type 0 where
  pub topic : String
  pub qos : QualityOfService

-- `BatchSubscribe`
pub record BatchSubscribe : Type 0 where
  pub subscriptions : List Subscribe
  pub retry_count : ℕ

-- `Unsubscribe`
pub record Unsubscribe : Type 0 where
  pub topic : String

-- `BatchUnsubscribe`
pub record BatchUnsubscribe : Type 0 where
  pub topics : List String
  pub retry_count : ℕ

-- `Connect`
pub record Connect : Type 0 where
  pub user_name : Option String
  pub password : Option String
  pub keep_alive : Option ℕ

-- The actors that `MqttClient::start_actors` starts, and the three recipients that the user gives.
pub data Address : Type 0 where
  stop_actor send_actor disconnect_actor publish_status_actor send_publish_actor : Address
  recv_publish_actor puback_actor pubrec_actor pubrel_actor pubcomp_actor : Address
  subscribe_status_actor subscribe_actor suback_actor unsubscribe_status_actor : Address
  unsubscribe_actor unsuback_actor connect_status_actor connect_actor connack_actor : Address
  ping_status_actor pingreq_actor pingresp_actor dispatch_actor recv_actor : Address
  user_message_recipient user_error_recipient user_stop_recipient : Address

unfoldable pub Address-discrete : Discrete Address
Address-discrete = hlevel

-- A message in a mailbox. `T` is the payload of the status operations. An `ErrorMessage` carries
-- the kind of its error; the text of it is left out.
pub data Letter (m : Mqtt) (T : Type 0) : Type 0 where
  error_message : ErrorKind → Letter m T
  stop_message : Letter m T
  add_stop_recipient : Address → Letter m T
  status_operation : StatusOperationMessage T → Letter m T
  status_existence : ℕ → Letter m T
  packet_send_status : Bool → Letter m T
  disconnect : Bool → Letter m T
  connect : Connect → Letter m T
  publish : Publish → Letter m T
  publish_message : PublishMessage → Letter m T
  subscribe : Subscribe → Letter m T
  batch_subscribe : BatchSubscribe → Letter m T
  unsubscribe : Unsubscribe → Letter m T
  batch_unsubscribe : BatchUnsubscribe → Letter m T
  pingreq : ℕ → Letter m T
  send_ping : ℕ → Letter m T
  variable_packet_message : PacketMessage (VariablePacket m) → Letter m T
  connack_message : PacketMessage m.ConnackPacket → Letter m T
  pingresp_message : PacketMessage m.PingrespPacket → Letter m T
  publish_packet_message : PacketMessage m.PublishPacket → Letter m T
  puback_message : PacketMessage m.PubackPacket → Letter m T
  pubrec_message : PacketMessage m.PubrecPacket → Letter m T
  pubrel_message : PacketMessage m.PubrelPacket → Letter m T
  pubcomp_message : PacketMessage m.PubcompPacket → Letter m T
  suback_message : PacketMessage m.SubackPacket → Letter m T
  unsuback_message : PacketMessage m.UnsubackPacket → Letter m T
