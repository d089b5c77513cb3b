-- ===== src/Runtime.antt =====
-- What the actix and tokio runtimes do for an actor: mailboxes, timers and futures. Whether a
-- mailbox takes a message is not in this program, so a handler runs against a `Runtime` that
-- answers every attempt, in any way. A handler returns the
-- effects that it has asked for, newest first.
use actix_mqtt_client.Common.{ℕ, Bool, List, [], ◌∷◌, Option, ◌≡◌, refl, ◌⊎◌, inl, inr}
use actix_mqtt_client.Mqtt.{Mqtt}
use actix_mqtt_client.Message.{Letter, Address, PacketStatus, PacketMessage}

-- `actix::prelude::SendError`
pub data SendError : Type 0 where
  closed full : SendError

-- `actix::MailboxError`, which ends an awaited `send`.
pub data MailboxError : Type 0 where
  closed timeout : MailboxError

-- The result of `try_send` and `do_send`.
pub data SendResult : Type 0 where
  sent : SendResult
  refused : SendError → SendResult

-- To split on an answer.
pub SendResult-cases :
    (o : SendResult) → (o ≡ sent) ⊎ (o ≡ refused SendError.closed) ⊎ (o ≡ refused SendError.full)
SendResult-cases sent = inl refl
SendResult-cases (refused SendError.closed) = inr (inl refl)
SendResult-cases (refused SendError.full) = inr (inr refl)

-- The result of awaiting a response.
pub data Response (A : Type 0) : Type 0 where
  response : A → Response A
  failed : MailboxError → Response A

-- What a future holds on to while it waits for a response: what its closure captured. The functions
-- that go on from there stand with the handlers that make them.
pub data Continuation (m : Mqtt) (T : Type 0) : Type 0 where
  -- `schedule_status_check`: the error and stop recipients, the actor's address, the message to
  -- retry, and the test on the status.
  status_check :
      Address → Address → Address → Letter m T → (Option (PacketStatus T) → Bool) → Continuation m T
  -- `ConnectActor`: the error and stop recipients, and the actor's address.
  connect_check : Address → Address → Address → Continuation m T
  -- `PingreqActor`: the status, error and stop recipients, the actor's address, the retry count.
  ping_connect_check : Address → Address → Address → Address → ℕ → Continuation m T
  -- `PingreqActor`: the error and stop recipients, the actor's address, the retry count.
  ping_status_check : Address → Address → Address → ℕ → Continuation m T
  -- `RecvPublishActor` at QoS 2: the packet identifier, the actor's address, and the message.
  recv_publish_level2 : ℕ → Address → PacketMessage m.PublishPacket → Continuation m T
  -- `RecvPublishActor::check_status_phase_2`: the identifier, the address, the message to resend.
  check_status_phase_2 : ℕ → Address → PacketMessage m.PublishPacket → Continuation m T

-- What a handler asks of the runtime, with the answer.
pub data Effect (m : Mqtt) (T : Type 0) : Type 0 where
  tried : Address → Letter m T → SendResult → Effect m T  -- `try_send`
  did : Address → Letter m T → SendResult → Effect m T  -- `do_send`
  notified : Address → Letter m T → Effect m T  -- `ctx.notify`
  resend_after : ℕ → Address → Letter m T → Effect m T  -- sleep, then `do_send`
  notify_every : ℕ → Address → Letter m T → Effect m T  -- `ctx.run_interval` with `ctx.notify`
  -- sleep, then `send(..).await`, and go on with the response
  ask_after : ℕ → Address → Letter m T → Continuation m T → Effect m T
  written : List ℕ → Effect m T  -- `Writer::write`
  stopped : Address → Effect m T  -- `ctx.stop()`
  mailbox_capacity_set : ℕ → Effect m T  -- `ctx.set_mailbox_capacity`

abbrev pub Trace : Mqtt → Type 0 → Type 0
Trace m T = List (Effect m T)

-- The answer to a further attempt, after the effects so far.
abbrev pub Runtime : Mqtt → Type 0 → Type 0
Runtime m T = Trace m T → Address → Letter m T → SendResult

-- Every mailbox takes what it is sent.
abbrev pub calm : {m : Mqtt} {T : Type 0} → Runtime m T
calm trace a l = sent

-- The counter of src/actors/utils.rs, a static of the process, and the effects of the handler.
pub record World (m : Mqtt) (T : Type 0) : Type 0 where
  pub id_counter : ℕ
  pub trace : Trace m T

abbrev pub Reads : Type 0 → Type 0 → Type 0 → Type 0
Reads R W A = R → W → A × W

abbrev pub Act : Mqtt → Type 0 → Type 0 → Type 0
Act m T A = Reads (Runtime m T) (World m T) A

infixl 5 ◌>>=◌ ◌>>◌
abbrev pub ◌>>=◌ : {R W A B : Type 0} → Reads R W A → (A → Reads R W B) → Reads R W B
◌>>=◌ act f r w = f (act r w).0 r (act r w).1

abbrev pub ◌>>◌ : {R W A B : Type 0} → Reads R W A → Reads R W B → Reads R W B
◌>>◌ act next r w = next r (act r w).1

abbrev pub give : {R W A : Type 0} → A → Reads R W A
give a r w = (a, w)

abbrev pub skip : {R W : Type 0} → Reads R W (Unit {0})
skip r w = (tt, w)

module _ {m : Mqtt} {T : Type 0} where
  abbrev pub record_effect : Effect m T → Act m T (Unit {0})
  record_effect e r w = (tt, record w { trace = e ∷ w.trace })

  abbrev pub try_send : Address → Letter m T → Act m T SendResult
  try_send a l r w = (r w.trace a l, record w { trace = tried a l (r w.trace a l) ∷ w.trace })

  abbrev pub do_send : Address → Letter m T → Act m T SendResult
  do_send a l r w = (r w.trace a l, record w { trace = did a l (r w.trace a l) ∷ w.trace })

  -- `let _ = recipient.do_send(..)`
  abbrev pub do_send_ : Address → Letter m T → Act m T (Unit {0})
  do_send_ a l = do_send a l >> skip

  -- The effects of a handler run, and its result.
  abbrev pub effects : {A : Type 0} → Runtime m T → ℕ → Act m T A → Trace m T
  effects r n act = (act r (record { id_counter = n; trace = [] })).1.trace
