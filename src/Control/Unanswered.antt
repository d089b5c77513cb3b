-- ===== src/Control/Unanswered.antt =====
-- src/actors/packets/{subscribe,unsubscribe}.rs with a status actor: how often a SUBSCRIBE and an
-- UNSUBSCRIBE are sent that the server never answers.
use actix_mqtt_client.Common.{
  ℕ, zero, suc, ◌+◌, ◌≤◌, ◌<◌, List, [], ◌∷◌, Option, none, some, ◌≡◌, ◌≢◌, refl, arith, dec_le, ap,
  subst,
}
use actix_mqtt_client.Consts.{max_retry_count}
use actix_mqtt_client.Mqtt.{Mqtt, QualityOfService}
use actix_mqtt_client.Message.{
  Letter, Address, BatchSubscribe, BatchUnsubscribe, batch_subscribe, batch_unsubscribe,
}
use actix_mqtt_client.Status.Map.{StatusMap, HasDistinctKeys}
use actix_mqtt_client.Status.Kept.{
  IsKept, IsKept-trans, taken_again, taken_again-IsKept, taken_again-HasDistinctKeys,
  removed-IsKept,
}
use actix_mqtt_client.Sending.{SendPacketActor, SendPacketImpl}
use actix_mqtt_client.Subscribe.{subscribe_impl, valid_subscriptions, subscribe_packet_of}
use actix_mqtt_client.Unsubscribe.{unsubscribe_impl, valid_topics, unsubscribe_packet_of}
use actix_mqtt_client.Subscribe
use actix_mqtt_client.Unsubscribe
use actix_mqtt_client.Proofs.Bounded.{users-CountsRetries}
use actix_mqtt_client.Control.Marks.{T}
use actix_mqtt_client.Control.Rounds.{
  Resending, IsCreated, Outcome, rounds, status_of, round-over, round-within,
}

-- The rounds end; by then the message was handed to the sender once for each retry that was left, and
-- once more; no error was reported; and every identifier has the status that it had before, or none.
abbrev pub EndsUnanswered : Option Outcome → ℕ → StatusMap T → Type 0
EndsUnanswered ends count map =
    (out : Outcome) × (ends ≡ some out)
    × (out.packets + count ≡ max_retry_count + 1)
    × (out.errors ≡ 0)
    × ((id : ℕ) → IsKept map out.map id)

module _ {m : Mqtt} (impl : SendPacketImpl m T) (laws : Resending impl) (actor : SendPacketActor)
    (addr : Address) where
  rounds-EndsUnanswered :
      (fuel n : ℕ) (msg : impl.Msg) (map : StatusMap T)
      → HasDistinctKeys map
      → laws.IsValid msg
      → impl.get_retry_count msg ≤ max_retry_count + 1
      → max_retry_count + 1 < fuel + impl.get_retry_count msg
      → EndsUnanswered (rounds impl laws actor addr fuel msg n map) (impl.get_retry_count msg) map
  unfolding rounds
  rounds-EndsUnanswered zero n msg map d valid limit enough = absurd (omega arith)
  rounds-EndsUnanswered (suc fuel) n msg map d valid limit enough =
      let c = laws.create msg valid n in
      elim (dec_le (impl.get_retry_count msg) max_retry_count) [
        | no over ↦ (
          record { packets = 0; errors = 0; map = _ },
          rw (round-over impl laws actor addr msg n map c (omega arith)) refl,
          omega arith,
          refl,
          removed-IsKept map c.id d,
        )
        | yes within ↦
            let raised = laws.counts.raised msg in
            let map' = taken_again map c.id (status_of impl laws actor addr c.id msg) in
            let (out, ends, packets, errors, same) =
              rounds-EndsUnanswered fuel c.counter (impl.create_retry_message msg) map'
                (taken_again-HasDistinctKeys map c.id _ d) (laws.retry-IsValid msg valid)
                (omega (arith, raised)) (omega (arith, raised)) in
            (
              record out { packets = 1 + out.packets; errors = 0 + out.errors },
              rw (round-within impl laws actor addr msg n map c d within, ends) refl,
              omega (arith, packets, raised),
              omega (arith, errors),
              λ id. IsKept-trans map map' out.map id (taken_again-IsKept map c.id _ d id) (same id),
            )
      ]

module _ (m : Mqtt) where
  abbrev opened_subscribe : Letter m T → Option BatchSubscribe
  opened_subscribe (batch_subscribe msg) = some msg
  opened_subscribe _ = none

  abbrev opened_unsubscribe : Letter m T → Option BatchUnsubscribe
  opened_unsubscribe (batch_unsubscribe msg) = some msg
  opened_unsubscribe _ = none

  pub subscribe-IsCreated :
      (msg : BatchSubscribe) (valid : List (m.TopicFilter × QualityOfService))
      → valid_subscriptions m msg.subscriptions ≡ valid
      → valid ≢ []
      → (n : ℕ) → IsCreated (subscribe_impl m) msg n
  unfolding Subscribe.create_packet_and_id_from_message subscribe_packet_of
  subscribe-IsCreated msg [] e some_valid n = absurd (some_valid refl)
  subscribe-IsCreated msg (s ∷ rest) e some_valid n = record {
    packet = _;
    id = _;
    counter = _;
    at = ap (λ l. subscribe_packet_of m l n) e;
  }

  pub unsubscribe-IsCreated :
      (msg : BatchUnsubscribe) (valid : List m.TopicFilter)
      → valid_topics m msg.topics ≡ valid
      → valid ≢ []
      → (n : ℕ) → IsCreated (unsubscribe_impl m) msg n
  unfolding Unsubscribe.create_packet_and_id_from_message unsubscribe_packet_of
  unsubscribe-IsCreated msg [] e some_valid n = absurd (some_valid refl)
  unsubscribe-IsCreated msg (s ∷ rest) e some_valid n = record {
    packet = _;
    id = _;
    counter = _;
    at = ap (λ l. unsubscribe_packet_of m l n) e;
  }

  abbrev pub subscribe_laws : Resending (subscribe_impl m)
  subscribe_laws = record {
    opened = opened_subscribe;
    opened-letter = λ msg. refl;
    IsValid = λ msg. valid_subscriptions m msg.subscriptions ≢ [];
    retry-IsValid = λ msg h. h;
    create = λ msg h n. subscribe-IsCreated msg (valid_subscriptions m msg.subscriptions) refl h n;
    counts = (users-CountsRetries m).0;
    status = λ id k. refl;
    check = λ s. refl;
  }

  abbrev pub unsubscribe_laws : Resending (unsubscribe_impl m)
  unsubscribe_laws = record {
    opened = opened_unsubscribe;
    opened-letter = λ msg. refl;
    IsValid = λ msg. valid_topics m msg.topics ≢ [];
    retry-IsValid = λ msg h. h;
    create = λ msg h n. unsubscribe-IsCreated msg (valid_topics m msg.topics) refl h n;
    counts = (users-CountsRetries m).1;
    status = λ id k. refl;
    check = λ s. refl;
  }

  -- What becomes of a SUBSCRIBE and an UNSUBSCRIBE with a valid topic that the server never answers,
  -- where the mailboxes take what is sent: for a message that is new, within seven rounds, it was
  -- handed to the sender in six packets; no error was reported; and every identifier has
  -- the status that it had before, or none.
  pub unanswered-EndsUnanswered :
      (n : ℕ) (sub : BatchSubscribe) (unsub : BatchUnsubscribe) (actor : SendPacketActor)
      (addr : Address) (map : StatusMap T)
      → HasDistinctKeys map
      → valid_subscriptions m sub.subscriptions ≢ []
      → valid_topics m unsub.topics ≢ []
      → sub.retry_count ≡ 0
      → unsub.retry_count ≡ 0
      → EndsUnanswered (rounds (subscribe_impl m) subscribe_laws actor addr 7 sub n map) 0 map
        × EndsUnanswered
            (rounds (unsubscribe_impl m) unsubscribe_laws actor addr 7 unsub n map)
            0
            map
  unanswered-EndsUnanswered n sub unsub actor addr map d valid valid' new new' = (
    at_0 new (
        rounds-EndsUnanswered (subscribe_impl m) subscribe_laws actor addr 7 n sub map d valid
          (omega (arith, new)) (omega (arith, new))),
    at_0 new' (
        rounds-EndsUnanswered (unsubscribe_impl m) unsubscribe_laws actor addr 7 n unsub map d
          valid' (omega (arith, new')) (omega (arith, new'))),
  )
    where
      at_0 :
          {ends : Option Outcome} {k : ℕ}
          → k ≡ 0
          → EndsUnanswered ends k map
          → EndsUnanswered ends 0 map
      at_0 {ends} e h = subst (λ k. EndsUnanswered ends k map) e h
