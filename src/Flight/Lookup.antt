-- ===== src/Flight/Lookup.antt =====
-- Which identifiers have a status after a trace, and which have a question.
use actix_mqtt_client.Common.{
  ℕ, true, List, [], ◌∷◌, ◌++◌, Option, none, some, ◌==◌, ◌≡◌, ◌≢◌, refl, ap, subst, ◌∙◌, arith,
  All, inl, inr, ◌⊎◌, is_some, Bool-cases, Option-cases, ==_iff,
}
use actix_mqtt_client.Mqtt.{Mqtt}
use actix_mqtt_client.Message.{
  PublishPacketStatus, StatusOperationMessage, set_packet_status, get_and_remove_packet_status,
  remove_packet_status,
}
use actix_mqtt_client.Runtime.{Trace}
use actix_mqtt_client.Observe.{status_operation_of}
use actix_mqtt_client.Status.{operate}
use actix_mqtt_client.Status.Map.{StatusMap, HasDistinctKeys, get}
use actix_mqtt_client.Status.Laws.{
  map_after, operate_option, operate-get, map_after-HasDistinctKeys,
}
use actix_mqtt_client.Disconnect.Graceful.{Session}
use actix_mqtt_client.Flight.{Question, operated_option, session_after}
use actix_mqtt_client.Flight.Questions.{Occurs, ids, set_ids, stored_ids}

-- The identifier has a status.
abbrev pub Knows : StatusMap PublishPacketStatus → ℕ → Type 0
Knows map id = is_some (get id map) ≡ true

operate-Knows :
    (map : StatusMap PublishPacketStatus) (msg : StatusOperationMessage PublishPacketStatus)
    (id : ℕ)
    → HasDistinctKeys map
    → Knows (operate map msg).0 id
    → Knows map id ⊎ Occurs id (stored_ids (some msg))
operate-Knows map (set_packet_status k s) id d h = elim (Bool-cases (k == id)) [
  | inl e ↦ inr (inl ((==_iff k id).0 e))
  | inr e ↦ inl (ground (arith, operate-get map (set_packet_status k s) d id))
]
operate-Knows map (get_and_remove_packet_status k) id d h =
    inl (ground (arith, operate-get map (get_and_remove_packet_status k) d id))
operate-Knows map (remove_packet_status k) id d h =
    inl (ground (arith, operate-get map (remove_packet_status k) d id))

pub Occurs-append : (id : ℕ) (xs ys : List ℕ) → Occurs id xs ⊎ Occurs id ys → Occurs id (xs ++ ys)
Occurs-append id [] ys (inl h) = absurd h
Occurs-append id [] ys (inr h) = h
Occurs-append id (x ∷ xs) ys (inl (inl e)) = inl e
Occurs-append id (x ∷ xs) ys (inl (inr h)) = inr (Occurs-append id xs ys (inl h))
Occurs-append id (x ∷ xs) ys (inr h) = inr (Occurs-append id xs ys (inr h))

pub All-Occurs : (P : ℕ → Type 0) (id : ℕ) (xs : List ℕ) → All P xs → Occurs id xs → P id
All-Occurs P id [] all h = absurd h
All-Occurs P id (x ∷ xs) all (inl e) = subst P e all.0
All-Occurs P id (x ∷ xs) all (inr h) = All-Occurs P id xs all.1 h

operated_option-map :
    (o : Option (StatusOperationMessage PublishPacketStatus)) (s : Session)
    → (operated_option o s).status.packet_status_map ≡ operate_option o s.status.packet_status_map
operated_option-map none s = refl
operated_option-map (some msg) s = refl

module _ {m : Mqtt} where
  pub map_after-Knows :
      (trace : Trace m PublishPacketStatus) (map : StatusMap PublishPacketStatus) (id : ℕ)
      → HasDistinctKeys map
      → Knows (map_after trace map) id
      → Knows map id ⊎ Occurs id (set_ids trace)
  map_after-Knows [] map id d h = inl h
  map_after-Knows (e ∷ trace) map id d h = elim (Option-cases (status_operation_of e)) [
    | inl none_op ↦ rw none_op (
        map_after-Knows trace map id d
          (subst (λ o. Knows (operate_option o (map_after trace map)) id) none_op h))
    | inr (msg, op) ↦ rw op (
        later_or_now (stored_ids (some msg)) (set_ids trace)
          (operate-Knows (map_after trace map) msg id (map_after-HasDistinctKeys trace map d)
            (subst (λ o. Knows (operate_option o (map_after trace map)) id) op h))
          (map_after-Knows trace map id d))
  ]
    where
      later_or_now :
          (now later : List ℕ)
          → Knows (map_after trace map) id ⊎ Occurs id now
          → (Knows (map_after trace map) id → Knows map id ⊎ Occurs id later)
          → Knows map id ⊎ Occurs id (now ++ later)
      later_or_now now later (inr h') before = inr (Occurs-append id now later (inl h'))
      later_or_now now later (inl k) before = elim (before k) [
        | inl k' ↦ inl k'
        | inr h' ↦ inr (Occurs-append id now later (inr h'))
      ]

  pub ids-append : (xs ys : List (Question m)) → ids (xs ++ ys) ≡ ids xs ++ ids ys
  ids-append [] ys = refl
  ids-append (q ∷ xs) ys = ap (◌∷◌ q.id) (ids-append xs ys)

  -- An answered question is asked no more; the others still are.
  pub Occurs-drop :
      (id : ℕ) (earlier : List (Question m)) (q : Question m) (later : List (Question m))
      → q.id ≢ id
      → Occurs id (ids (earlier ++ (q ∷ later)))
      → Occurs id (ids (earlier ++ later))
  Occurs-drop id [] q later ne (inl e) = absurd (ne e)
  Occurs-drop id [] q later ne (inr h) = h
  Occurs-drop id (x ∷ earlier) q later ne (inl e) = inl e
  Occurs-drop id (x ∷ earlier) q later ne (inr h) = inr (Occurs-drop id earlier q later ne h)

  pub session_after-map :
      (trace : Trace m PublishPacketStatus) (s : Session)
      → (session_after trace s).status.packet_status_map
        ≡ map_after trace s.status.packet_status_map
  session_after-map [] s = refl
  session_after-map (e ∷ trace) s =
      operated_option-map (status_operation_of e) (session_after trace s)
      ∙ ap (operate_option (status_operation_of e)) (session_after-map trace s)
