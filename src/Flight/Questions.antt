-- ===== src/Flight/Questions.antt =====
-- The questions that a trace leaves behind, beside the statuses that it stores.
use actix_mqtt_client.Common.{
  ℕ, Bool, true, false, List, [], ◌∷◌, ◌++◌, Option, none, some, ◌≡◌, refl, All, ◌⊎◌,
}
use actix_mqtt_client.Mqtt.{Mqtt}
use actix_mqtt_client.Message.{
  Letter, PublishPacketStatus, StatusOperationMessage, set_packet_status, status_operation,
}
use actix_mqtt_client.Runtime.{Trace, Continuation, SendResult, status_check}
use actix_mqtt_client.Observe.{count, received_by, status_operation_of}
use actix_mqtt_client.Flight.{Question, questions_of, is_refused}

-- `id` stands in the list.
abbrev pub Occurs : ℕ → List ℕ → Type 0
Occurs id [] = ⊥
Occurs id (k ∷ rest) = (k ≡ id) ⊎ Occurs id rest

abbrev pub stored_ids : Option (StatusOperationMessage PublishPacketStatus) → List ℕ
stored_ids (some (set_packet_status id s)) = id ∷ []
stored_ids _ = []

module _ {m : Mqtt} where
  abbrev pub ids : List (Question m) → List ℕ
  ids [] = []
  ids (q ∷ rest) = q.id ∷ ids rest

  -- The identifiers under which a trace stores a status.
  abbrev pub set_ids : Trace m PublishPacketStatus → List ℕ
  set_ids [] = []
  set_ids (e ∷ trace) = stored_ids (status_operation_of e) ++ set_ids trace

  abbrev pub is_status_operation : Letter m PublishPacketStatus → Bool
  is_status_operation (status_operation msg) = true
  is_status_operation _ = false

  -- What a check may put back is no status operation.
  abbrev pub IsPlain : Continuation m PublishPacketStatus → Type 0
  IsPlain (status_check e s addr retry check) = is_status_operation retry ≡ false
  IsPlain _ = Unit {0}

  abbrev pub ArePlain : List (Question m) → Type 0
  ArePlain qs = All (λ (q : Question m). IsPlain q.continuation) qs

  pub received_by-plain :
      (l : Letter m PublishPacketStatus) (o : SendResult)
      → is_status_operation l ≡ false
      → received_by l o ≡ none
  received_by-plain (status_operation msg) o h = cc
  received_by-plain _ o h = refl

-- Where no attempt is refused, there is a question for each status that is stored; and every question
-- is plain.
abbrev pub IsAsking : {m : Mqtt} → Trace m PublishPacketStatus → Type 0
IsAsking trace =
    (count is_refused trace ≡ 0 → All (λ id. Occurs id (ids (questions_of trace))) (set_ids trace))
    × ArePlain (questions_of trace)
