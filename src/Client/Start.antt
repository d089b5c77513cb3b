-- ===== src/Client/Start.antt =====
-- src/client.rs: `start_actors`, which starts the actors, wires them, and registers them with
-- `StopActor`. Each `start()` gives its actor's own `Address`.
use actix_mqtt_client.Common.{true, false, Option, none, some, String}
use actix_mqtt_client.Consts.{ping_interval}
use actix_mqtt_client.Mqtt.{Mqtt}
use actix_mqtt_client.Message.{
  Address, PublishPacketStatus, add_stop_recipient, stop_actor, send_actor, disconnect_actor,
  publish_status_actor, send_publish_actor, recv_publish_actor, puback_actor, pubrec_actor,
  pubrel_actor, pubcomp_actor, subscribe_status_actor, subscribe_actor, suback_actor,
  unsubscribe_status_actor, unsubscribe_actor, unsuback_actor, connect_status_actor, connect_actor,
  connack_actor, ping_status_actor, pingreq_actor, pingresp_actor, dispatch_actor, recv_actor,
}
use actix_mqtt_client.Runtime.{Act, ◌>>◌, give, skip, do_send_}
use actix_mqtt_client.Status
use actix_mqtt_client.Status.{PacketStatusActor}
use actix_mqtt_client.Sending.{SendPacketActor, ResponsePacketActor}
use actix_mqtt_client.Publish.Receive.{RecvPublishActor}
use actix_mqtt_client.Connect.{ConnectActor, ConnackActor}
use actix_mqtt_client.Ping.{PingreqActor}
use actix_mqtt_client.Disconnect.{DisconnectActor, disconnect_actor_new}
use actix_mqtt_client.Stop.{StopActor, stop_actor_new}
use actix_mqtt_client.Dispatch.{DispatchActor}
use actix_mqtt_client.Stream.{SendActor, RecvActor}
use actix_mqtt_client.Client.{MqttClient, MqttOptions}

-- The actors as they start.
pub record Actors : Type 0 where
  pub stop : StopActor
  pub send : SendActor
  pub disconnect : DisconnectActor
  pub publish_status : PacketStatusActor PublishPacketStatus
  pub send_publish : SendPacketActor
  pub recv_publish : RecvPublishActor
  pub puback : ResponsePacketActor
  pub pubrec : SendPacketActor
  pub pubrel : SendPacketActor
  pub pubcomp : ResponsePacketActor
  pub subscribe_status : PacketStatusActor (Unit {0})
  pub subscribe : SendPacketActor
  pub suback : ResponsePacketActor
  pub unsubscribe_status : PacketStatusActor (Unit {0})
  pub unsubscribe : SendPacketActor
  pub unsuback : ResponsePacketActor
  pub connect_status : PacketStatusActor (Unit {0})
  pub connect : ConnectActor
  pub connack : ConnackActor
  pub ping_status : PacketStatusActor (Unit {0})
  pub pingreq : PingreqActor
  pub pingresp : ResponsePacketActor
  pub dispatch : DispatchActor
  pub recv : RecvActor

module _ (error_recipient : Address) where
  -- `start_send_actor!` and `start_response_actor!`, without the registration.
  abbrev pub send_packet_actor : Address → SendPacketActor
  send_packet_actor status_recipient = record {
    status_recipient = status_recipient;
    send_recipient = send_actor;
    error_recipient = error_recipient;
    stop_recipient = stop_actor;
  }

  abbrev pub response_actor : Address → ResponsePacketActor
  response_actor status_recipient = record {
    status_recipient = status_recipient;
    error_recipient = error_recipient;
    stop_recipient = stop_actor;
  }

  unfoldable pub wired : Address → String → Actors
  wired publish_message_recipient client_name = record {
    stop = stop_actor_new;
    send = record {
      has_stream = true;
      has_writer = false;
      error_recipient = error_recipient;
      stop_recipient = stop_actor;
    };
    disconnect = disconnect_actor_new send_actor error_recipient stop_actor;
    publish_status = Status.new (some disconnect_actor);
    send_publish = send_packet_actor publish_status_actor;
    recv_publish = record {
      status_recipient = publish_status_actor;
      send_recipient = send_actor;
      error_recipient = error_recipient;
      stop_recipient = stop_actor;
      remote_message_recipient = publish_message_recipient;
    };
    puback = response_actor publish_status_actor;
    pubrec = send_packet_actor publish_status_actor;
    pubrel = send_packet_actor publish_status_actor;
    pubcomp = response_actor publish_status_actor;
    subscribe_status = Status.new none;
    subscribe = send_packet_actor subscribe_status_actor;
    suback = response_actor subscribe_status_actor;
    unsubscribe_status = Status.new none;
    unsubscribe = send_packet_actor unsubscribe_status_actor;
    unsuback = response_actor unsubscribe_status_actor;
    connect_status = Status.new none;
    connect = record {
      send_recipient = send_actor;
      status_recipient = connect_status_actor;
      stop_recipient = stop_actor;
      error_recipient = error_recipient;
      client_name = client_name;
    };
    connack = record {
      status_recipient = connect_status_actor;
      error_recipient = error_recipient;
      connect_stop_recipient = connect_actor;
      stop_recipient = stop_actor;
    };
    ping_status = Status.new none;
    pingreq = record {
      sender = send_packet_actor ping_status_actor;
      connect_status_recipient = connect_status_actor;
      interval = ping_interval;
    };
    pingresp = response_actor ping_status_actor;
    dispatch = record {
      error_recipient = error_recipient;
      stop_recipient = stop_actor;
      connack_recipient = connack_actor;
      pingresp_recipient = pingresp_actor;
      publish_recipient = recv_publish_actor;
      puback_recipient = puback_actor;
      pubrec_recipient = pubrec_actor;
      pubrel_recipient = pubrel_actor;
      pubcomp_recipient = pubcomp_actor;
      suback_recipient = suback_actor;
      unsuback_recipient = unsuback_actor;
    };
    recv = record {
      has_stream = true;
      recipient = dispatch_actor;
      error_recipient = error_recipient;
      stop_recipient = stop_actor;
    };
  }

-- `let _ = stop_recipient_container.do_send(AddStopRecipient(..))`
unfoldable pub register : (m : Mqtt) → Address → Act m (Unit {0}) (Unit {0})
register m recipient = do_send_ stop_actor (add_stop_recipient recipient)

unfoldable pub register_option : (m : Mqtt) → Option Address → Act m (Unit {0}) (Unit {0})
unfolding register
register_option m none = skip
register_option m (some recipient) = register m recipient

-- The registrations, in the order of the source.
unfoldable pub register_actors : (m : Mqtt) → Option Address → Act m (Unit {0}) (Unit {0})
unfolding register register_option
register_actors m client_stop_recipient_option = do
  register_option m client_stop_recipient_option
  register m send_actor
  register m publish_status_actor
  register m send_publish_actor
  register m recv_publish_actor
  register m puback_actor
  register m pubrec_actor
  register m pubrel_actor
  register m pubcomp_actor
  register m subscribe_status_actor
  register m subscribe_actor
  register m suback_actor
  register m unsubscribe_status_actor
  register m unsubscribe_actor
  register m unsuback_actor
  register m ping_status_actor
  register m pingreq_actor
  register m pingresp_actor
  register m recv_actor

-- The addresses that the client keeps.
abbrev pub with_addresses : MqttClient → MqttClient
with_addresses client = record client {
  sub_addr = some subscribe_actor;
  unsub_addr = some unsubscribe_actor;
  pub_addr = some send_publish_actor;
  disconnect_addr = some disconnect_actor;
  conn_addr = some connect_actor;
  stop_addr = some stop_actor;
  conn_status_addr = some connect_status_actor;
}

unfoldable pub start_actors :
    (m : Mqtt)
    → MqttClient
    → Address
    → Address
    → Option Address
    → Act m (Unit {0}) (Actors × MqttClient)
unfolding register_actors wired
start_actors m client publish_message_recipient error_recipient client_stop_recipient_option = do
  register_actors m client_stop_recipient_option
  give (wired error_recipient publish_message_recipient client.client_name, with_addresses client)

-- `MqttClient::new`
unfoldable pub client_new :
    (m : Mqtt)
    → String
    → MqttOptions
    → Address
    → Address
    → Option Address
    → Act m (Unit {0}) (Actors × MqttClient)
unfolding start_actors
client_new m client_name options message_recipient error_recipient stop_recipient =
    start_actors m client message_recipient error_recipient stop_recipient
  where
    client : MqttClient
    client = record {
      conn_addr = none;
      pub_addr = none;
      sub_addr = none;
      unsub_addr = none;
      stop_addr = none;
      disconnect_addr = none;
      conn_status_addr = none;
      client_name = client_name;
      options = some options;
    }
