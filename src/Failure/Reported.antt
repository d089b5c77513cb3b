-- ===== src/Failure/Reported.antt =====
-- src/actors/mod.rs with the handlers of src/actors/packets/*.rs: what follows a send that fails, and what
-- comes before a stop.
use actix_mqtt_client.Common.{Bool, true, false, not, ◌||◌, ◌&&◌, [], ◌∷◌, ◌≡◌, All, arith}
use actix_mqtt_client.Mqtt.{Mqtt}
use actix_mqtt_client.Message.{
  Letter, Address, error_message, stop_message, stop_actor, user_error_recipient,
}
use actix_mqtt_client.Runtime.{
  Trace, Effect, SendResult, SendError, refused, tried, did, ask_after, Continuation, status_check,
  connect_check, ping_connect_check, ping_status_check, recv_publish_level2, check_status_phase_2,
}

abbrev pub is_stop_actor : Address → Bool
is_stop_actor stop_actor = true
is_stop_actor _ = false

module _ {m : Mqtt} {T : Type 0} where
  -- The reports of errors and the stops are sent without a look at the result.
  abbrev is_watched : Letter m T → Bool
  is_watched (error_message k) = false
  is_watched stop_message = false
  is_watched _ = true

  abbrev fails_with : Letter m T → SendResult → Bool
  fails_with l (refused e) = is_watched l
  fails_with l _ = false

  abbrev closes_with : Letter m T → SendResult → Bool
  closes_with l (refused SendError.closed) = is_watched l
  closes_with l _ = false

  -- An attempt to send failed, or failed because the mailbox is closed.
  abbrev pub fails : Effect m T → Bool
  fails (tried a l o) = fails_with l o
  fails (did a l o) = fails_with l o
  fails _ = false

  abbrev pub closes : Effect m T → Bool
  closes (tried a l o) = closes_with l o
  closes (did a l o) = closes_with l o
  closes _ = false

  abbrev pub has : (Effect m T → Bool) → Trace m T → Bool
  has p [] = false
  has p (e ∷ trace) = p e || has p trace

  abbrev is_stop : Letter m T → Bool
  is_stop stop_message = true
  is_stop _ = false

  -- The stop actor is told to stop the client.
  abbrev pub stops_client : Effect m T → Bool
  stops_client (tried a l o) = is_stop_actor a && is_stop l
  stops_client (did a l o) = is_stop_actor a && is_stop l
  stops_client _ = false

  -- The user's error recipient is told of an error.
  abbrev pub tells_user : Effect m T → Bool
  tells_user (tried user_error_recipient (error_message k) o) = true
  tells_user _ = false

  -- Every effect of the first kind is followed by one of the second.
  abbrev pub is_followed : (Effect m T → Bool) → (Effect m T → Bool) → Trace m T → Trace m T → Bool
  is_followed p q newer [] = true
  is_followed p q newer (e ∷ earlier) =
      (not (p e) || has q newer) && is_followed p q (e ∷ newer) earlier

  -- Every effect of the first kind comes after one of the second.
  abbrev pub is_preceded : (Effect m T → Bool) → (Effect m T → Bool) → Trace m T → Bool
  is_preceded p q [] = true
  is_preceded p q (e ∷ earlier) = (not (p e) || has q earlier) && is_preceded p q earlier

  -- The future tells the user of its errors, and what it puts back does not go to the stop actor.
  abbrev pub FutureIsPlain : Continuation m T → Type 0
  FutureIsPlain (status_check e s addr retry check) =
      (e ≡ user_error_recipient) × (is_stop_actor addr ≡ false)
  FutureIsPlain (connect_check e s addr) = (e ≡ user_error_recipient) × (is_stop_actor addr ≡ false)
  FutureIsPlain (ping_status_check e s addr k) =
      (e ≡ user_error_recipient) × (is_stop_actor addr ≡ false)
  FutureIsPlain (ping_connect_check p e s addr k) =
      (e ≡ user_error_recipient) × (is_stop_actor addr ≡ false)
  FutureIsPlain (recv_publish_level2 id addr msg) = is_stop_actor addr ≡ false
  FutureIsPlain (check_status_phase_2 id addr msg) = is_stop_actor addr ≡ false

  abbrev pub EffectIsPlain : Effect m T → Type 0
  EffectIsPlain (ask_after delay a l c) = FutureIsPlain c
  EffectIsPlain _ = Unit {0}

  -- A send that fails is reported, and the client is told to stop if the mailbox is closed; and the client
  -- is told to stop only after an error was reported; the futures that are left behind tell the user, too, and put nothing back that stops the client.
  pub record IsReported (trace : Trace m T) : Type 0 where
    pub reported : is_followed fails tells_user [] trace ≡ true
    pub stopped : is_followed closes stops_client [] trace ≡ true
    pub explained : is_preceded stops_client tells_user trace ≡ true
    pub plain : All EffectIsPlain trace

module _ {m : Mqtt} {T : Type 0} (p q q' : Effect m T → Bool)
    (weaker : (e : Effect m T) → q e ≡ true → q' e ≡ true) where
  has-weaken : (trace : Trace m T) → has q trace ≡ true → has q' trace ≡ true
  has-weaken [] h = h
  has-weaken (e ∷ trace) h = ground (arith, weaker e, has-weaken trace)

  pub is_preceded-weaken :
      (trace : Trace m T) → is_preceded p q trace ≡ true → is_preceded p q' trace ≡ true
  is_preceded-weaken [] h = h
  is_preceded-weaken (e ∷ trace) h = ground (arith, has-weaken trace, is_preceded-weaken trace)
