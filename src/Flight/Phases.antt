-- ===== src/Flight/Phases.antt =====
-- src/actors/packets/{publish,pubrec}.rs with the status actor: the second phase at QoS 2, where the
-- answer of the other side is lost and the mailboxes take what is sent.
use actix_mqtt_client.Mqtt.{Mqtt}
