-- ===== src/Proofs/Answers.antt =====
-- The exchanges of the generated actors of src/actors/packets/{subscribe,unsubscribe,pingreq}.rs: the
-- status is stored, the answer removes it, and the timer asks.
use actix_mqtt_client.Common.{ℕ, ◌≤◌, true, false, [], ◌∷◌, none, some, ◌≡◌, refl, incr_u16, ◌∙◌}
use actix_mqtt_client.Consts.{max_retry_count}
use actix_mqtt_client.Mqtt.{Mqtt, VariablePacket}
use actix_mqtt_client.Message.{
  Letter, Address, PacketMessage, PacketStatus, BatchSubscribe, BatchUnsubscribe, set_packet_status,
  remove_packet_status, batch_subscribe, batch_unsubscribe, send_ping, suback_message,
  unsuback_message, pingresp_message,
}
use actix_mqtt_client.Runtime.{Trace, sent, effects, did, calm}
use actix_mqtt_client.Sending.{
  SendPacketActor, SendPacketImpl, ResponsePacketActor, default_status, finish_status_check, handle,
  handle_response, store_and_send,
}
use actix_mqtt_client.Sending.Laws.{handle-run}
use actix_mqtt_client.Status.{operate}
use actix_mqtt_client.Status.Map.{StatusMap, HasDistinctKeys}
use actix_mqtt_client.Status.Laws.{
  map_after, operate-HasDistinctKeys, get-set_self, get-remove_self, take-result,
}
use actix_mqtt_client.Subscribe.{
  create_packet_and_id_from_message as create_subscribe,
  create_retry_message_from_message as retry_subscribe, subscribe_impl, handle_batch_subscribe,
}
use actix_mqtt_client.Unsubscribe.{
  create_packet_and_id_from_message as create_unsubscribe,
  create_retry_message_from_message as retry_unsubscribe, unsubscribe_impl,
  handle_batch_unsubscribe,
}
use actix_mqtt_client.Ping.{PingreqActor, ping_impl, handle_send_ping}
use actix_mqtt_client.Acks.{handle_suback, handle_unsuback, handle_pingresp}
use actix_mqtt_client.Control.{resume_control}
use actix_mqtt_client.Control.Marks.{T}
use actix_mqtt_client.Control.Rounds.{asks_of, answered}

-- The timer that a handler leaves behind in `trace` puts `retry` back once where the map is `waiting`,
-- and does nothing where it is `done`.
abbrev pub EndsByAnswer :
    {m : Mqtt} → Address → Letter m T → Trace m T → StatusMap T → StatusMap T → Type 0
EndsByAnswer addr retry trace waiting done =
    ((answered (asks_of trace) waiting).1 ≡ did addr retry sent ∷ [])
    × ((answered (asks_of trace) done).1 ≡ [])

module _ {m : Mqtt} {P : Type 0} (impl : SendPacketImpl m T) (get_id : P → ℕ)
    (letter : PacketMessage P → Letter m T) (map : StatusMap T) (d : HasDistinctKeys map)
    (actor : SendPacketActor) (addr : Address) (acker : ResponsePacketActor)
    (acker_addr : Address) where
  -- An actor of the macro that stores the default status, and the actor of its answer.
  handle-EndsByAnswer :
      (msg : impl.Msg) (answer : PacketMessage P) (packet : VariablePacket m) (id n n' k : ℕ)
      → impl.create_packet_and_id msg n ≡ (some (packet, id), n')
      → impl.get_retry_count msg ≤ max_retry_count
      → impl.create_status id (impl.get_retry_count msg)
        ≡ default_status id (impl.get_retry_count msg)
      → ((s : PacketStatus T) → impl.check (some s) ≡ true)
      → impl.check none ≡ false
      → get_id answer.packet ≡ id
      → let trace = effects calm n (handle impl actor addr msg) in
        let waiting = map_after trace map in
        let done =
          map_after
            (effects calm k (handle_response get_id letter acker acker_addr answer))
            waiting in
        EndsByAnswer addr (impl.letter (impl.create_retry_message msg)) trace waiting done
  unfolding store_and_send handle_response finish_status_check resume_control
  handle-EndsByAnswer msg answer packet id n n' k created within default asks quiet same =
      rw (handle-run impl actor calm addr msg packet id n n' created within) (
        rw (default, same)
          (
            rw (take-result waiting d' id ∙ get-set_self map d id status) (rw (asks status) refl),
            rw (take-result done d'' id ∙ get-remove_self waiting d' id) (rw quiet refl),
          ))
    where
      status : PacketStatus T
      status = record { id = id; retry_count = impl.get_retry_count msg; payload = tt }

      waiting : StatusMap T
      waiting = (operate map (set_packet_status id status)).0

      d' : HasDistinctKeys waiting
      d' = operate-HasDistinctKeys map (set_packet_status id status) d

      done : StatusMap T
      done = (operate waiting (remove_packet_status id)).0

      d'' : HasDistinctKeys done
      d'' = operate-HasDistinctKeys waiting (remove_packet_status id) d'

module _ (m : Mqtt) (map : StatusMap T) (d : HasDistinctKeys map) (addr : Address)
    (acker : ResponsePacketActor) (acker_addr : Address) where
  -- A SUBSCRIBE within the retry limit, where the mailboxes take what is sent: if its SUBACK was handled
  -- before the handler's own timer asks, nothing is sent again; if none came, the batch goes back
  -- to the actor once, with its count raised.
  pub batch_subscribe-suback :
      (actor : SendPacketActor) (msg : BatchSubscribe) (answer : PacketMessage m.SubackPacket)
      (packet : VariablePacket m) (n n' k : ℕ)
      → create_subscribe m msg n ≡ (some (packet, m.suback_identifier answer.packet), n')
      → msg.retry_count ≤ max_retry_count
      → let trace = effects calm n (handle_batch_subscribe m actor addr msg) in
        let waiting = map_after trace map in
        let done = map_after (effects calm k (handle_suback m acker acker_addr answer)) waiting in
        EndsByAnswer addr (batch_subscribe (retry_subscribe msg)) trace waiting done
  unfolding handle_batch_subscribe handle_suback
  batch_subscribe-suback actor msg answer packet n n' k created within =
      handle-EndsByAnswer (subscribe_impl m) m.suback_identifier suback_message map d actor addr
        acker acker_addr msg answer packet _ n n' k created within refl (λ s. refl) refl refl

  -- An UNSUBSCRIBE within the retry limit, where the mailboxes take what is sent: if its UNSUBACK was
  -- handled before the handler's own timer asks, nothing is sent again; if none came, the batch goes
  -- back to the actor once, with its count raised.
  pub batch_unsubscribe-unsuback :
      (actor : SendPacketActor) (msg : BatchUnsubscribe) (answer : PacketMessage m.UnsubackPacket)
      (packet : VariablePacket m) (n n' k : ℕ)
      → create_unsubscribe m msg n ≡ (some (packet, m.unsuback_identifier answer.packet), n')
      → msg.retry_count ≤ max_retry_count
      → let trace = effects calm n (handle_batch_unsubscribe m actor addr msg) in
        let waiting = map_after trace map in
        let done = map_after (effects calm k (handle_unsuback m acker acker_addr answer)) waiting in
        EndsByAnswer addr (batch_unsubscribe (retry_unsubscribe msg)) trace waiting done
  unfolding handle_batch_unsubscribe handle_unsuback
  batch_unsubscribe-unsuback actor msg answer packet n n' k created within =
      handle-EndsByAnswer (unsubscribe_impl m) m.unsuback_identifier unsuback_message map d actor
        addr acker acker_addr msg answer packet _ n n' k created within refl (λ s. refl) refl refl

  -- A ping within the retry limit, where the mailboxes take what is sent and no tick comes between: if
  -- a PINGRESP was handled before the handler's own timer asks, nothing is sent again; if none came,
  -- the ping goes back to the actor once, with its count raised.
  pub send_ping-pingresp :
      (actor : PingreqActor) (count : ℕ) (answer : PacketMessage m.PingrespPacket) (n k : ℕ)
      → count ≤ max_retry_count
      → let trace = effects calm n (handle_send_ping m actor addr count) in
        let waiting = map_after trace map in
        let done = map_after (effects calm k (handle_pingresp m acker acker_addr answer)) waiting in
        EndsByAnswer addr (send_ping (incr_u16 count)) trace waiting done
  unfolding handle_send_ping handle_pingresp
  send_ping-pingresp actor count answer n k within =
      handle-EndsByAnswer (ping_impl m) (λ packet. 0) pingresp_message map d actor.sender addr acker
        acker_addr count answer _ 0 n n k refl within refl (λ s. refl) refl refl
