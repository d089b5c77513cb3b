-- ===== src/Proofs/Duplicates.antt =====
-- Duplicates at QoS 2: src/actors/packets/publish.rs with the status actor of
-- src/actors/actions/status.rs.
use actix_mqtt_client.Common.{
  ℕ, ◌+◌, none, some, [], ◌∷◌, ◌≡◌, refl, ◌∙◌, arith, List, All, inl, inr,
}
use actix_mqtt_client.Mqtt.{Mqtt, pubrec_packet}
use actix_mqtt_client.Message.{
  Letter, Address, PacketMessage, PacketStatus, PublishPacketStatus, pending_rel,
  get_and_remove_packet_status, set_packet_status, variable_packet_message,
}
use actix_mqtt_client.Runtime.{SendResult-cases, Runtime, Trace, sent, response, effects, tried}
use actix_mqtt_client.Observe.{count, hands_message}
use actix_mqtt_client.Status.{operate}
use actix_mqtt_client.Status.Map.{StatusMap, HasDistinctKeys, get}
use actix_mqtt_client.Status.Laws.{
  map_after, map_after-HasDistinctKeys, operate-HasDistinctKeys, get-set_self, take-result,
}
use actix_mqtt_client.Publish.Send.{publish_status}
use actix_mqtt_client.Publish.Receive.{RecvPublishActor, acknowledge, finish_level2, user_message}
use actix_mqtt_client.Publish.Receiver.{pending_rel_letter, finish_level2-hands}
use actix_mqtt_client.Proofs.Level2.{level2-known}

module _ (m : Mqtt) (actor : RecvPublishActor) (addr : Address) (id : ℕ) where
  -- One arrival of a PUBLISH: its effects and the map afterwards.
  abbrev pub arrival :
      Runtime m PublishPacketStatus
      → ℕ
      → PacketMessage m.PublishPacket
      → StatusMap PublishPacketStatus
      → Trace m PublishPacketStatus × StatusMap PublishPacketStatus
  arrival r n msg map =
      let (map', status) = operate map (get_and_remove_packet_status id) in
      let trace = effects r n (finish_level2 m actor addr msg id (response status)) in
      (trace, map_after trace map')

  -- Further arrivals, each with its own runtime, counter and message.
  abbrev pub arrivals :
      List (Runtime m PublishPacketStatus × ℕ × PacketMessage m.PublishPacket)
      → StatusMap PublishPacketStatus
      → ℕ
  arrivals [] map = 0
  arrivals ((r, n, msg) ∷ rest) map =
      let (trace, map') = arrival r n msg map in count hands_message trace + arrivals rest map'

  -- What the arrivals meet: the status actor takes the status of each.
  abbrev pub IsTaken : Runtime m PublishPacketStatus × ℕ × PacketMessage m.PublishPacket → Type 0
  IsTaken (r, n, msg) = r [] actor.status_recipient (pending_rel_letter m msg id) ≡ sent

  arrival-HasDistinctKeys :
      (r : Runtime m PublishPacketStatus) (n : ℕ) (msg : PacketMessage m.PublishPacket)
      (map : StatusMap PublishPacketStatus)
      → HasDistinctKeys map
      → HasDistinctKeys (arrival r n msg map).1
  arrival-HasDistinctKeys r n msg map d =
      map_after-HasDistinctKeys (arrival r n msg map).0 _
        (operate-HasDistinctKeys map (get_and_remove_packet_status id) d)

  -- While a status is stored, no arrival is handed over.
  duplicates_none :
      (rest : List (Runtime m PublishPacketStatus × ℕ × PacketMessage m.PublishPacket))
      (map : StatusMap PublishPacketStatus) (s : PacketStatus PublishPacketStatus)
      → HasDistinctKeys map
      → get id map ≡ some s
      → All IsTaken rest
      → arrivals rest map ≡ 0
  duplicates_none [] map s d known all = refl
  duplicates_none ((r, n, msg) ∷ rest) map s d known all =
      let (none_now, known') = level2-known m r n map d actor addr msg id s known all.0 in
      omega (
        arith,
        none_now,
        duplicates_none rest (arrival r n msg map).1 _ (arrival-HasDistinctKeys r n msg map d)
            known' all.1,
      )

  -- A message that comes for the first time.
  abbrev pub first_message : m.PublishPacket → PacketMessage m.PublishPacket
  first_message packet = record { packet = packet; retry_count = 0 }

  abbrev pub handed_over : m.PublishPacket → Trace m PublishPacketStatus
  handed_over packet =
      tried actor.remote_message_recipient (user_message m actor id packet) sent ∷ []

  first-stored :
      (r : Runtime m PublishPacketStatus) (n : ℕ) (packet : m.PublishPacket)
      (map : StatusMap PublishPacketStatus)
      → HasDistinctKeys map
      → get id map ≡ none
      → r [] actor.remote_message_recipient (user_message m actor id packet) ≡ sent
      → r
          (handed_over packet)
          actor.status_recipient
          (pending_rel_letter m (first_message packet) id)
        ≡ sent
      → get id (arrival r n (first_message packet) map).1 ≡ some (publish_status id 0 pending_rel)
  unfolding finish_level2 acknowledge
  first-stored r n packet map d unknown handed taken = rw (take-result map d id ∙ unknown) (
      rw handed (
        rw taken (elim (SendResult-cases (r after_status actor.send_recipient rec_letter)) [
          | inl e ↦ rw e stored
          | inr (inl e) ↦ rw e stored
          | inr (inr e) ↦ rw e stored
        ])))
    where
      map' : StatusMap PublishPacketStatus
      map' = (operate map (get_and_remove_packet_status id)).0

      stored :
          get id (operate map' (set_packet_status id (publish_status id 0 pending_rel))).0
          ≡ some (publish_status id 0 pending_rel)
      stored =
          get-set_self map' (operate-HasDistinctKeys map (get_and_remove_packet_status id) d) id _

      after_status : Trace m PublishPacketStatus
      after_status =
          tried actor.status_recipient (pending_rel_letter m (first_message packet) id) sent
          ∷ handed_over packet

      rec_letter : Letter m PublishPacketStatus
      rec_letter =
          variable_packet_message
            (record { packet = pubrec_packet (m.pubrec_packet_new id); retry_count = 0 })

  first_hands :
      (r : Runtime m PublishPacketStatus) (n : ℕ) (packet : m.PublishPacket)
      (map : StatusMap PublishPacketStatus)
      → HasDistinctKeys map
      → get id map ≡ none
      → count hands_message (arrival r n (first_message packet) map).0 ≡ 1
  first_hands r n packet map d unknown =
      rw (take-result map d id ∙ unknown)
        (finish_level2-hands m actor addr r n (first_message packet) id none)

  -- A PUBLISH at QoS 2 under an identifier without a status, which the user's and the status actor's
  -- mailboxes take, and then any number of further PUBLISH packets under the same identifier, whose
  -- statuses the status actor takes too, each handled before the check of the second phase or a PUBREL
  -- removes the status: the user is handed one message in all, whatever else the mailboxes answer.
  pub arrivals-once :
      (r : Runtime m PublishPacketStatus) (n : ℕ) (packet : m.PublishPacket)
      (rest : List (Runtime m PublishPacketStatus × ℕ × PacketMessage m.PublishPacket))
      (map : StatusMap PublishPacketStatus)
      → HasDistinctKeys map
      → get id map ≡ none
      → r [] actor.remote_message_recipient (user_message m actor id packet) ≡ sent
      → r
          (handed_over packet)
          actor.status_recipient
          (pending_rel_letter m (first_message packet) id)
        ≡ sent
      → All IsTaken rest
      → arrivals ((r, n, first_message packet) ∷ rest) map ≡ 1
  arrivals-once r n packet rest map d unknown handed taken all = omega (
    arith,
    first_hands r n packet map d unknown,
    duplicates_none rest (arrival r n (first_message packet) map).1 _
        (arrival-HasDistinctKeys r n (first_message packet) map d)
        (first-stored r n packet map d unknown handed taken) all,
  )
