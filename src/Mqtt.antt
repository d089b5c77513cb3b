-- ===== src/Mqtt.antt =====
-- The `mqtt` crate (mqtt-protocol 0.11), which the client only calls: its packet types and the
-- functions used on them are a parameter. `QualityOfService`, `QoSWithPacketIdentifier`,
-- `ConnectReturnCode` and `VariablePacket` are the crate's enums, by the constructors that the
-- client names.
use actix_mqtt_client.Common.{ℕ, Bool, String, List, Option, some, ◌≡◌}

-- `mqtt::QualityOfService`
pub data QualityOfService : Type 0 where
  level0 level1 level2 : QualityOfService

-- `mqtt::packet::QoSWithPacketIdentifier`
pub data QoSWithPacketIdentifier : Type 0 where
  level0 : QoSWithPacketIdentifier
  level1 level2 : ℕ → QoSWithPacketIdentifier

-- `TopicName::new` and `TopicFilter::new` return a `Result`, of which the client uses the value.
-- `accepted` is the comparison `return_code == ConnectReturnCode::ConnectionAccepted`.
pub record Mqtt : Type 1 where
  pub TopicName : Type 0
  pub TopicFilter : Type 0
  pub ConnectPacket : Type 0
  pub ConnackPacket : Type 0
  pub PublishPacket : Type 0
  pub PubackPacket : Type 0
  pub PubrecPacket : Type 0
  pub PubrelPacket : Type 0
  pub PubcompPacket : Type 0
  pub SubscribePacket : Type 0
  pub SubackPacket : Type 0
  pub UnsubscribePacket : Type 0
  pub UnsubackPacket : Type 0
  pub PingreqPacket : Type 0
  pub PingrespPacket : Type 0
  pub DisconnectPacket : Type 0
  pub topic_name_new : String → Option TopicName
  pub topic_filter_new : String → Option TopicFilter
  pub qos_with_packet_identifier_new : QualityOfService → ℕ → QoSWithPacketIdentifier
  pub connect_packet_new : String → ConnectPacket
  pub set_user_name : ConnectPacket → Option String → ConnectPacket
  pub set_password : ConnectPacket → Option String → ConnectPacket
  pub set_keep_alive : ConnectPacket → ℕ → ConnectPacket
  pub accepted : ConnackPacket → Bool
  pub publish_packet_new : TopicName → QoSWithPacketIdentifier → List ℕ → PublishPacket
  pub qos : PublishPacket → QoSWithPacketIdentifier
  pub topic_name : PublishPacket → String
  pub payload : PublishPacket → List ℕ
  pub puback_packet_new : ℕ → PubackPacket
  pub pubrec_packet_new : ℕ → PubrecPacket
  pub pubrel_packet_new : ℕ → PubrelPacket
  pub pubcomp_packet_new : ℕ → PubcompPacket
  pub puback_identifier : PubackPacket → ℕ
  pub pubrec_identifier : PubrecPacket → ℕ
  pub pubrel_identifier : PubrelPacket → ℕ
  pub pubcomp_identifier : PubcompPacket → ℕ
  pub suback_identifier : SubackPacket → ℕ
  pub unsuback_identifier : UnsubackPacket → ℕ
  pub subscribe_packet_new : ℕ → List (TopicFilter × QualityOfService) → SubscribePacket
  pub unsubscribe_packet_new : ℕ → List TopicFilter → UnsubscribePacket
  pub pingreq_packet_new : PingreqPacket
  pub disconnect_packet_new : DisconnectPacket

-- `mqtt::packet::VariablePacket`
pub data VariablePacket (m : Mqtt) : Type 0 where
  connect_packet : m.ConnectPacket → VariablePacket m
  connack_packet : m.ConnackPacket → VariablePacket m
  publish_packet : m.PublishPacket → VariablePacket m
  puback_packet : m.PubackPacket → VariablePacket m
  pubrec_packet : m.PubrecPacket → VariablePacket m
  pubrel_packet : m.PubrelPacket → VariablePacket m
  pubcomp_packet : m.PubcompPacket → VariablePacket m
  subscribe_packet : m.SubscribePacket → VariablePacket m
  suback_packet : m.SubackPacket → VariablePacket m
  unsubscribe_packet : m.UnsubscribePacket → VariablePacket m
  unsuback_packet : m.UnsubackPacket → VariablePacket m
  pingreq_packet : m.PingreqPacket → VariablePacket m
  pingresp_packet : m.PingrespPacket → VariablePacket m
  disconnect_packet : m.DisconnectPacket → VariablePacket m

-- What the crate documents of the packets that a client makes: an accessor returns what the
-- constructor was given, a `TopicName` is the string it was made from, and
-- `QoSWithPacketIdentifier::new` pairs the level with the identifier, which level 0 has not.
pub record IsLawful (m : Mqtt) : Type 0 where
  pub topic_name_packet :
      (s : String) (topic : m.TopicName) (q : QoSWithPacketIdentifier) (bytes : List ℕ)
      → m.topic_name_new s ≡ some topic
      → m.topic_name (m.publish_packet_new topic q bytes) ≡ s
  pub qos_packet :
      (topic : m.TopicName) (q : QoSWithPacketIdentifier) (bytes : List ℕ)
      → m.qos (m.publish_packet_new topic q bytes) ≡ q
  pub payload_packet :
      (topic : m.TopicName) (q : QoSWithPacketIdentifier) (bytes : List ℕ)
      → m.payload (m.publish_packet_new topic q bytes) ≡ bytes
  pub level0_identifier :
      (id : ℕ)
      → m.qos_with_packet_identifier_new QualityOfService.level0 id ≡ QoSWithPacketIdentifier.level0
  pub level1_identifier :
      (id : ℕ)
      → m.qos_with_packet_identifier_new QualityOfService.level1 id
        ≡ QoSWithPacketIdentifier.level1 id
  pub level2_identifier :
      (id : ℕ)
      → m.qos_with_packet_identifier_new QualityOfService.level2 id
        ≡ QoSWithPacketIdentifier.level2 id
  pub identifier_puback : (id : ℕ) → m.puback_identifier (m.puback_packet_new id) ≡ id
  pub identifier_pubrec : (id : ℕ) → m.pubrec_identifier (m.pubrec_packet_new id) ≡ id
  pub identifier_pubrel : (id : ℕ) → m.pubrel_identifier (m.pubrel_packet_new id) ≡ id
  pub identifier_pubcomp : (id : ℕ) → m.pubcomp_identifier (m.pubcomp_packet_new id) ≡ id
