-- ===== src/Status/Kept.antt =====
-- src/actors/actions/status.rs: what is left when a status was stored and taken again.
use actix_mqtt_client.Common.{ℕ, none, ◌==◌, ◌≡◌, ◌⊎◌, inl, inr, ◌∙◌, arith, Bool-cases}
use actix_mqtt_client.Message.{
  PacketStatus, set_packet_status, get_and_remove_packet_status, remove_packet_status,
}
use actix_mqtt_client.Status.{operate}
use actix_mqtt_client.Status.Map.{StatusMap, HasDistinctKeys, get}
use actix_mqtt_client.Status.Laws.{operate-get, operate-HasDistinctKeys}

-- The identifier has no status any more, or the one that it had.
abbrev pub IsKept : {T : Type 0} → StatusMap T → StatusMap T → ℕ → Type 0
IsKept map map' id = (get id map' ≡ none) ⊎ (get id map' ≡ get id map)

module _ {T : Type 0} where
  pub IsKept-trans :
      (map map' map'' : StatusMap T) (id : ℕ)
      → IsKept map map' id
      → IsKept map' map'' id
      → IsKept map map'' id
  IsKept-trans map map' map'' id first (inl gone) = inl gone
  IsKept-trans map map' map'' id (inl gone) (inr same) = inl (same ∙ gone)
  IsKept-trans map map' map'' id (inr before) (inr same) = inr (same ∙ before)

  -- The map after a status was stored and taken again.
  abbrev pub taken_again : StatusMap T → ℕ → PacketStatus T → StatusMap T
  taken_again map id status =
      (operate (operate map (set_packet_status id status)).0 (get_and_remove_packet_status id)).0

  pub taken_again-IsKept :
      (map : StatusMap T) (id : ℕ) (status : PacketStatus T)
      → HasDistinctKeys map
      → (j : ℕ) → IsKept map (taken_again map id status) j
  taken_again-IsKept map id status d j =
      let d' = operate-HasDistinctKeys map (set_packet_status id status) d in
      let taken = operate-get _ (get_and_remove_packet_status id) d' j in
      elim (Bool-cases (id == j)) [
        | inl same ↦ inl (ground (arith, taken))
        | inr other ↦ inr (ground (arith, taken, operate-get map (set_packet_status id status) d j))
      ]

  pub taken_again-HasDistinctKeys :
      (map : StatusMap T) (id : ℕ) (status : PacketStatus T)
      → HasDistinctKeys map
      → HasDistinctKeys (taken_again map id status)
  taken_again-HasDistinctKeys map id status d =
      operate-HasDistinctKeys _ (get_and_remove_packet_status id)
        (operate-HasDistinctKeys map (set_packet_status id status) d)

  pub removed-IsKept :
      (map : StatusMap T) (id : ℕ)
      → HasDistinctKeys map
      → (j : ℕ) → IsKept map (operate map (remove_packet_status id)).0 j
  removed-IsKept map id d j = elim (Bool-cases (id == j)) [
    | inl same ↦ inl (ground (arith, operate-get map (remove_packet_status id) d j))
    | inr other ↦ inr (ground (arith, operate-get map (remove_packet_status id) d j))
  ]
