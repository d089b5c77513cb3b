-- ===== src/Observe.antt =====
-- What the theorems look for among the effects of a handler.
use actix_mqtt_client.Common.{
  ℕ, Bool, true, false, [], ◌∷◌, Option, none, some, ◌≡◌, ◌+◌, ◌⊎◌, inl, inr, is_some, All,
}
use actix_mqtt_client.Mqtt.{Mqtt}
use actix_mqtt_client.Message.{
  Letter, StatusOperationMessage, stop_message, error_message, status_operation,
  variable_packet_message, publish_message,
}
use actix_mqtt_client.Runtime.{
  Effect, Trace, SendResult, sent, tried, did, resend_after, ask_after, status_check,
}

module _ {m : Mqtt} {T : Type 0} where
  -- The message that an effect puts back into a mailbox later: after the resend delay, or after the
  -- command timeout if the status asks for it.
  abbrev pub put_back : Effect m T → Option (Letter m T)
  put_back (resend_after d a l) = some l
  put_back (ask_after d a l (status_check e s addr retry check)) = some retry
  put_back _ = none

  abbrev pub is_packet_message : Letter m T → Bool
  is_packet_message (variable_packet_message p) = true
  is_packet_message _ = false

  abbrev pub is_publish_message : Letter m T → Bool
  is_publish_message (publish_message p) = true
  is_publish_message _ = false

  -- An attempt to hand a packet to the sender.
  abbrev pub hands_packet : Effect m T → Bool
  hands_packet (tried a l o) = is_packet_message l
  hands_packet (did a l o) = is_packet_message l
  hands_packet _ = false

  -- An attempt to hand a published message to the user.
  abbrev pub hands_message : Effect m T → Bool
  hands_message (tried a l o) = is_publish_message l
  hands_message (did a l o) = is_publish_message l
  hands_message _ = false

  -- Neither hands a packet over nor puts a message back.
  pub record IsQuiet (e : Effect m T) : Type 0 where
    pub no_packet : hands_packet e ≡ false
    pub no_retry : put_back e ≡ none

  abbrev pub count : (Effect m T → Bool) → Trace m T → ℕ
  count p [] = 0
  count p (e ∷ trace) = elim (p e) [ true ↦ 1 | false ↦ 0 ] + count p trace

  -- A report to the error recipient.
  abbrev pub reports_error : Effect m T → Bool
  reports_error (tried a (error_message k) o) = true
  reports_error _ = false

  -- A stop message to some actor.
  abbrev pub tells_stop : Effect m T → Bool
  tells_stop (did a stop_message o) = true
  tells_stop (tried a stop_message o) = true
  tells_stop _ = false

  abbrev pub puts_one_back : Effect m T → Bool
  puts_one_back e = is_some (put_back e)

  -- A question to a status actor, now or later.
  abbrev pub asks : Effect m T → Bool
  asks (ask_after d a l c) = true
  asks _ = false

  abbrev pub has_status_operation : Effect m T → Bool
  has_status_operation (tried a (status_operation o) res) = true
  has_status_operation (did a (status_operation o) res) = true
  has_status_operation _ = false

  -- The operations that a status actor has received by a trace, the oldest first.
  abbrev pub received_by : Letter m T → SendResult → Option (StatusOperationMessage T)
  received_by (status_operation msg) sent = some msg
  received_by l o = none

  abbrev pub status_operation_of : Effect m T → Option (StatusOperationMessage T)
  status_operation_of (tried a l o) = received_by l o
  status_operation_of (did a l o) = received_by l o
  status_operation_of _ = none

  -- Whatever the trace puts back is `l`.
  abbrev pub PutsBackOnly : Letter m T → Trace m T → Type 0
  PutsBackOnly l [] = Unit {0}
  PutsBackOnly l (e ∷ trace) = ((put_back e ≡ none) ⊎ (put_back e ≡ some l)) × PutsBackOnly l trace

  -- The trace puts `l` back.
  abbrev pub PutsBack : Letter m T → Trace m T → Type 0
  PutsBack l [] = ⊥
  PutsBack l (e ∷ trace) = (put_back e ≡ some l) ⊎ PutsBack l trace

  pub PutsBack-IsQuiet :
      (l : Letter m T) (trace : Trace m T) → PutsBack l trace → All IsQuiet trace → ⊥
  PutsBack-IsQuiet l [] p q = p
  PutsBack-IsQuiet l (e ∷ trace) (inl here) (quiet, rest) = cc quiet.no_retry
  PutsBack-IsQuiet l (e ∷ trace) (inr there) (quiet, rest) = PutsBack-IsQuiet l trace there rest

  -- What is put back is the one letter that may be.
  pub PutsBack-PutsBackOnly :
      (l only : Letter m T) (trace : Trace m T)
      → PutsBack l trace
      → PutsBackOnly only trace
      → l ≡ only
  PutsBack-PutsBackOnly l only [] p q = absurd p
  PutsBack-PutsBackOnly l only (e ∷ trace) (inl here) (inl none_back, rest) = cc
  PutsBack-PutsBackOnly l only (e ∷ trace) (inl here) (inr same, rest) = cc
  PutsBack-PutsBackOnly l only (e ∷ trace) (inr there) (one, rest) =
      PutsBack-PutsBackOnly l only trace there rest
