-- ===== src/Sending/Laws.antt =====
-- The laws of the actors that `impl_send_packet_actor!` of src/actors/packets/macros.rs generates.
use actix_mqtt_client.Common.{
  ℕ, ◌≤◌, ◌<◌, Bool, [], ◌∷◌, Option, some, ◌≡◌, refl, arith, All, inl, inr, ap, ◌∙◌, ltb_of_le,
}
use actix_mqtt_client.Consts.{max_retry_count, command_timeout, resend_delay}
use actix_mqtt_client.Mqtt.{Mqtt, VariablePacket}
use actix_mqtt_client.Message.{
  Letter, Address, PacketStatus, StatusOperationMessage, get_and_remove_packet_status,
  status_operation, variable_packet_message, stop_message, error_message, interrupted, other,
}
use actix_mqtt_client.Runtime.{
  Runtime, Trace, SendResult, SendError, sent, refused, tried, did, ask_after, resend_after,
  status_check, effects, SendResult-cases,
}
use actix_mqtt_client.Observe.{IsQuiet, PutsBackOnly}
use actix_mqtt_client.Sending.{
  SendPacketActor, SendPacketImpl, handle, handle_created, store_and_send,
}

-- How a run that stores a status, hands a packet over and schedules a check can end. `stored` and
-- `packet` are the two messages, `retry` the message with its count raised, `addr` the actor.
pub data Ending {m : Mqtt} {T : Type 0} (actor : SendPacketActor) (addr : Address)
    (stored packet retry : Letter m T) (id : ℕ) (check : Option (PacketStatus T) → Bool)
    (trace : Trace m T) : Type 0 where
  -- Both mailboxes took their message, and the status is asked for after the command timeout.
  delivered :
      trace
        ≡ ask_after command_timeout actor.status_recipient
            (status_operation (get_and_remove_packet_status id))
            (status_check actor.error_recipient actor.stop_recipient addr retry check)
          ∷ tried actor.send_recipient packet sent
          ∷ tried actor.status_recipient stored sent
          ∷ []
      → Ending actor addr stored packet retry id check trace
  -- A mailbox was full: the error is reported and the message comes again.
  retried :
      (o : SendResult) (earlier : Trace m T)
      → trace
        ≡ resend_after resend_delay addr retry
          ∷ tried actor.error_recipient (error_message other) o
          ∷ earlier
      → Ending actor addr stored packet retry id check trace
  -- A mailbox was closed: the error is reported and the client is told to stop.
  shut :
      (o o' : SendResult) (earlier : Trace m T)
      → trace
        ≡ did actor.stop_recipient stop_message o'
          ∷ tried actor.error_recipient (error_message interrupted) o
          ∷ earlier
      → Ending actor addr stored packet retry id check trace

module _ {m : Mqtt} {T : Type 0} (actor : SendPacketActor) (r : Runtime m T) (addr : Address)
    (status_msg : StatusOperationMessage T) (packet : VariablePacket m) (id : ℕ)
    (retry : Letter m T) (check : Option (PacketStatus T) → Bool) where
  pub store_and_send-Ending :
      (n : ℕ)
      → Ending actor addr
          (status_operation status_msg)
          (variable_packet_message (record { packet = packet; retry_count = 0 }))
          retry
          id
          check
          (effects r n (store_and_send actor addr status_msg packet id retry check))
  unfolding store_and_send
  store_and_send-Ending n = elim (SendResult-cases (r [] actor.status_recipient stored)) [
    | inr (inl e) ↦ rw e (shut _ _ _ refl)
    | inr (inr e) ↦ rw e (retried _ _ refl)
    | inl e ↦ rw e (elim (SendResult-cases (r later actor.send_recipient handed)) [
      | inl h ↦ rw h (delivered refl)
      | inr (inl h) ↦ rw h (shut _ _ _ refl)
      | inr (inr h) ↦ rw h (retried _ _ refl)
    ])
  ]
    where
      stored : Letter m T
      stored = status_operation status_msg

      handed : Letter m T
      handed = variable_packet_message (record { packet = packet; retry_count = 0 })

      later : Trace m T
      later = tried actor.status_recipient stored sent ∷ []

  -- The run in which the status is stored and the sender's mailbox is full.
  pub store_and_send_full :
      (n : ℕ)
      → let stored : Letter m T = status_operation status_msg in
        let handed : Letter m T =
          variable_packet_message (record { packet = packet; retry_count = 0 }) in
        r [] actor.status_recipient stored ≡ sent
        → r (tried actor.status_recipient stored sent ∷ []) actor.send_recipient handed
          ≡ refused SendError.full
        → (o : SendResult) × (effects r n
              (store_and_send actor addr status_msg packet id retry check)
            ≡ resend_after resend_delay addr retry
              ∷ tried actor.error_recipient (error_message other) o
              ∷ tried actor.send_recipient handed (refused SendError.full)
              ∷ tried actor.status_recipient stored sent
              ∷ [])
  unfolding store_and_send
  store_and_send_full n stored full = rw stored (rw full (_, refl))

  pub store_and_send-PutsBackOnly :
      (n : ℕ)
      → PutsBackOnly retry
          (effects r n (store_and_send actor addr status_msg packet id retry check))
  unfolding store_and_send
  store_and_send-PutsBackOnly n = ground arith

module _ {m : Mqtt} {T : Type 0} (impl : SendPacketImpl m T) (actor : SendPacketActor)
    (r : Runtime m T) (addr : Address) (msg : impl.Msg) (packet : VariablePacket m) (id : ℕ) where
  pub handle-run :
      (n n' : ℕ)
      → impl.create_packet_and_id msg n ≡ (some (packet, id), n')
      → impl.get_retry_count msg ≤ max_retry_count
      → effects r n (handle impl actor addr msg)
        ≡ effects r n' (
            store_and_send actor addr
              (impl.create_status id (impl.get_retry_count msg))
              packet
              id
              (impl.letter (impl.create_retry_message msg))
              impl.check)
  unfolding handle
  handle-run n n' created within =
      ap
        (λ p.
          (handle_created impl actor addr msg p.0 r
            (record { id_counter = p.1; trace = [] })).1.trace)
        created
      ∙ rw (ltb_of_le _ _ within) refl

  -- Within the retry limit, a message for which there is a packet is never dropped in silence: its
  -- status is stored, its packet handed over and the check scheduled, or an error is reported and it
  -- comes again with its count raised, or an error is reported and the client is told to stop.
  pub handle-Ending :
      (n n' : ℕ)
      → impl.create_packet_and_id msg n ≡ (some (packet, id), n')
      → impl.get_retry_count msg ≤ max_retry_count
      → Ending actor addr
          (status_operation (impl.create_status id (impl.get_retry_count msg)))
          (variable_packet_message (record { packet = packet; retry_count = 0 }))
          (impl.letter (impl.create_retry_message msg))
          id
          impl.check
          (effects r n (handle impl actor addr msg))
  handle-Ending n n' created within =
      rw (handle-run n n' created within)
        (store_and_send-Ending actor r addr _ packet id _ impl.check n')

module _ {m : Mqtt} {T : Type 0} (impl : SendPacketImpl m T) (actor : SendPacketActor)
    (r : Runtime m T) (n : ℕ) (addr : Address) (msg : impl.Msg) where
  -- Beyond the retry limit no packet is handed over and nothing comes again.
  pub handle_over_limit :
      max_retry_count < impl.get_retry_count msg
      → All IsQuiet (effects r n (handle impl actor addr msg))
  unfolding handle
  handle_over_limit over = ground arith

  -- Whatever a run puts back for later is the message with its count raised.
  pub handle-PutsBackOnly :
      PutsBackOnly
        (impl.letter (impl.create_retry_message msg))
        (effects r n (handle impl actor addr msg))
  unfolding handle
  handle-PutsBackOnly = ground arith
