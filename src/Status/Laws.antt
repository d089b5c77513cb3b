-- ===== src/Status/Laws.antt =====
-- src/actors/actions/status.rs: `PacketStatusActor` as a table from identifiers to statuses, and
-- its reports.
use actix_mqtt_client.Common.{
  Option-cases, inl, inr, ℕ, Bool, true, [], ◌∷◌, Option, none, some, ◌==◌, if◌then◌else◌, ◌≡◌, ◌∙◌,
  refl, arith, ◌↔◌, is_some_iff,
}
use actix_mqtt_client.Mqtt.{Mqtt}
use actix_mqtt_client.Message.{
  Address, PacketStatus, StatusOperationMessage, set_packet_status, get_and_remove_packet_status,
  remove_packet_status, packet_send_status,
}
use actix_mqtt_client.Runtime.{Effect, Runtime, World, did, Trace}
use actix_mqtt_client.Observe.{status_operation_of}
use actix_mqtt_client.Status.{PacketStatusActor, operate, report, handle, handle_existence}
use actix_mqtt_client.Status.Map.{
  StatusMap, HasDistinctKeys, get, is_empty, get-insert, get-remove, contains_key-get,
  insert-HasDistinctKeys, remove-HasDistinctKeys, is_empty→get, get→is_empty,
}

-- The abstract view: which identifier is in flight, and how.
abbrev pub Table : Type 0 → Type 0
Table T = ℕ → Option (PacketStatus T)

abbrev pub table : {T : Type 0} → PacketStatusActor T → Table T
table actor j = get j actor.packet_status_map

abbrev pub put : {T : Type 0} → ℕ → Option (PacketStatus T) → Table T → Table T
put id entry t j = if id == j then entry else t j

-- What an operation promises.
abbrev pub operate_table :
    {T : Type 0} → Table T → StatusOperationMessage T → Table T × Option (PacketStatus T)
operate_table t (set_packet_status id status) = (put id (some status) t, none)
operate_table t (get_and_remove_packet_status id) = (put id none t, t id)
operate_table t (remove_packet_status id) = (put id none t, none)

module _ {T : Type 0} where
  pub operate-get :
      (map : StatusMap T) (msg : StatusOperationMessage T)
      → HasDistinctKeys map
      → (j : ℕ) → get j (operate map msg).0 ≡ (operate_table (λ i. get i map) msg).0 j
  unfolding operate
  operate-get map (set_packet_status id status) d j = get-insert j id status map
  operate-get map (get_and_remove_packet_status id) d j =
      ground (arith, contains_key-get id map, get-remove j id map d)
  operate-get map (remove_packet_status id) d j = get-remove j id map d

  pub operate-result :
      (map : StatusMap T) (msg : StatusOperationMessage T)
      → (operate map msg).1 ≡ (operate_table (λ i. get i map) msg).1
  unfolding operate
  operate-result map (set_packet_status id status) = refl
  operate-result map (get_and_remove_packet_status id) = ground (arith, contains_key-get id map)
  operate-result map (remove_packet_status id) = refl

  pub operate-HasDistinctKeys :
      (map : StatusMap T) (msg : StatusOperationMessage T)
      → HasDistinctKeys map
      → HasDistinctKeys (operate map msg).0
  unfolding operate
  operate-HasDistinctKeys map (set_packet_status id status) d =
      insert-HasDistinctKeys id status map d
  operate-HasDistinctKeys map (get_and_remove_packet_status id) d =
      ground (arith, remove-HasDistinctKeys id map d)
  operate-HasDistinctKeys map (remove_packet_status id) d = remove-HasDistinctKeys id map d

module _ {m : Mqtt} {T : Type 0} (r : Runtime m T) (w : World m T)
    (actor : PacketStatusActor T) where
  -- On a map without double keys, a status operation changes the table of identifiers as the
  -- abstract operation does and returns the same result, and the map has no double keys afterwards.
  pub handle-refines :
      (msg : StatusOperationMessage T)
      → HasDistinctKeys actor.packet_status_map
      → let (actor', result) = (handle actor msg r w).0 in
        ((j : ℕ) → table actor' j ≡ (operate_table (table actor) msg).0 j)
        × (result ≡ (operate_table (table actor) msg).1)
        × HasDistinctKeys actor'.packet_status_map
  unfolding handle
  handle-refines msg d = (
    operate-get actor.packet_status_map msg d,
    operate-result actor.packet_status_map msg,
    operate-HasDistinctKeys actor.packet_status_map msg d,
  )

  -- With a recipient, every status operation sends it exactly one message, whose flag is true
  -- exactly if no identifier has a status after the operation.
  pub handle-reports :
      (msg : StatusOperationMessage T) (recipient : Address)
      → actor.packet_send_status_recipient_option ≡ some recipient
      → let after = handle actor msg r w in
        (finished : Bool) × (after.1.trace
          ≡ did recipient
              (packet_send_status finished)
              (r w.trace recipient (packet_send_status finished))
            ∷ w.trace)
        × ((finished ≡ true) ↔ ((j : ℕ) → table after.0.0 j ≡ none))
  unfolding handle
  handle-reports msg recipient e = (
    is_empty (operate actor.packet_status_map msg).0,
    rw (e, report) refl,
    (is_empty→get _, get→is_empty _),
  )

-- The existence query answers true exactly if the identifier has a status.
pub handle_existence-table :
    {T : Type 0} (actor : PacketStatusActor T) (id : ℕ)
    → (handle_existence actor id ≡ true) ↔ ((s : PacketStatus T) × (table actor id ≡ some s))
unfolding handle_existence
handle_existence-table actor id = rw (contains_key-get id _) (is_some_iff (table actor id))

-- The map after the status operations that a handler got through, in their order.
abbrev pub operate_option :
    {T : Type 0} → Option (StatusOperationMessage T) → StatusMap T → StatusMap T
operate_option none map = map
operate_option (some msg) map = (operate map msg).0

abbrev pub map_after : {m : Mqtt} {T : Type 0} → Trace m T → StatusMap T → StatusMap T
map_after [] map = map
map_after (e ∷ trace) map = operate_option (status_operation_of e) (map_after trace map)

module _ {m : Mqtt} {T : Type 0} where
  effect-HasDistinctKeys :
      (e : Effect m T) (map : StatusMap T)
      → HasDistinctKeys map
      → HasDistinctKeys (operate_option (status_operation_of e) map)
  effect-HasDistinctKeys e map d = elim (Option-cases (status_operation_of e)) [
    | inl h ↦ rw h d
    | inr (msg, h) ↦ rw h (operate-HasDistinctKeys map msg d)
  ]

  pub map_after-HasDistinctKeys :
      (trace : Trace m T) (map : StatusMap T)
      → HasDistinctKeys map
      → HasDistinctKeys (map_after trace map)
  map_after-HasDistinctKeys [] map d = d
  map_after-HasDistinctKeys (e ∷ trace) map d =
      effect-HasDistinctKeys e (map_after trace map) (map_after-HasDistinctKeys trace map d)

self_eq : (n : ℕ) → (n == n) ≡ true
self_eq n = ground arith

module _ {T : Type 0} (map : StatusMap T) (d : HasDistinctKeys map) (id : ℕ) where
  pub get-set_self : (s : PacketStatus T) → get id (operate map (set_packet_status id s)).0 ≡ some s
  get-set_self s = operate-get map (set_packet_status id s) d id ∙ rw (self_eq id) refl

  pub get-remove_self : get id (operate map (remove_packet_status id)).0 ≡ none
  get-remove_self = operate-get map (remove_packet_status id) d id ∙ rw (self_eq id) refl

  pub get-take_self : get id (operate map (get_and_remove_packet_status id)).0 ≡ none
  get-take_self = operate-get map (get_and_remove_packet_status id) d id ∙ rw (self_eq id) refl

  pub take-result : (operate map (get_and_remove_packet_status id)).1 ≡ get id map
  take-result = operate-result map (get_and_remove_packet_status id)
