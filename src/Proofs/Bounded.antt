-- ===== src/Proofs/Bounded.antt =====
-- The retries of the actors of `impl_send_packet_actor!` in src/actors/packets/macros.rs.
use actix_mqtt_client.Common.{ℕ, ◌+◌, ◌≤◌, ◌≡◌, refl, ap, ◌∙◌, incr_u16}
use actix_mqtt_client.Consts.{max_retry_count}
use actix_mqtt_client.Mqtt.{Mqtt}
use actix_mqtt_client.Message.{
  Letter, Address, PublishPacketStatus, batch_subscribe, batch_unsubscribe, pubrec_message,
  pubrel_message, send_ping,
}
use actix_mqtt_client.Retry.{Retrying, IsBounded, Chain, Chain-bounded}
use actix_mqtt_client.Observe.{PutsBack-PutsBackOnly}
use actix_mqtt_client.Sending.{SendPacketActor, SendPacketImpl, handle}
use actix_mqtt_client.Sending.Laws.{handle_over_limit, handle-PutsBackOnly}
use actix_mqtt_client.Subscribe.{subscribe_impl}
use actix_mqtt_client.Unsubscribe.{unsubscribe_impl}
use actix_mqtt_client.Release.{pubrec_impl, pubrel_impl}
use actix_mqtt_client.Ping.{ping_impl}

-- The retry message carries the count raised by one, and a letter carries one count only.
pub record CountsRetries {m : Mqtt} {T : Type 0} (impl : SendPacketImpl m T) : Type 0 where
  pub raised :
      (msg : impl.Msg)
      → impl.get_retry_count (impl.create_retry_message msg) ≡ incr_u16 (impl.get_retry_count msg)
  pub carried :
      (msg msg' : impl.Msg)
      → impl.letter msg ≡ impl.letter msg'
      → impl.get_retry_count msg ≡ impl.get_retry_count msg'

module _ {m : Mqtt} {T : Type 0} (impl : SendPacketImpl m T) (actor : SendPacketActor)
    (addr : Address) where
  abbrev pub retrying : Retrying m T
  retrying = record {
    Msg = impl.Msg;
    letter = impl.letter;
    run = handle impl actor addr;
    retry_count = impl.get_retry_count;
  }

  retrying-IsBounded : CountsRetries impl → IsBounded retrying
  retrying-IsBounded counts = record {
    over_limit = λ r n msg h. handle_over_limit impl actor r n addr msg h;
    raises = λ r n msg msg' back.
        counts.carried msg' _
          (PutsBack-PutsBackOnly _ _ _ back (handle-PutsBackOnly impl actor r n addr msg))
        ∙ counts.raised msg;
  }

  -- If the retry message of a generated actor carries the count raised by one, and a letter of the
  -- actor carries one count only, then a message with count 0 that its handlers really put back `k`
  -- times carries the count `k`, and `k` is 6 at most, whatever the mailboxes answer: the count never
  -- overflows its `u16`, and no message is retried for ever.
  pub handle-Chain :
      CountsRetries impl
      → {msg : impl.Msg} {k : ℕ} → Chain retrying msg k
      → (impl.get_retry_count msg ≡ k) × (k ≤ max_retry_count + 1)
  handle-Chain counts c = Chain-bounded retrying (retrying-IsBounded counts) c

-- The count that a letter of a user of the macro carries.
abbrev count_carried : {m : Mqtt} {T : Type 0} → Letter m T → ℕ
count_carried (batch_subscribe msg) = msg.retry_count
count_carried (batch_unsubscribe msg) = msg.retry_count
count_carried (pubrec_message msg) = msg.retry_count
count_carried (pubrel_message msg) = msg.retry_count
count_carried (send_ping retry_count) = retry_count
count_carried _ = 0

-- All five users of the macro raise the count.
pub users-CountsRetries :
    (m : Mqtt)
    → CountsRetries (subscribe_impl m)
      × CountsRetries (unsubscribe_impl m)
      × CountsRetries (pubrec_impl m)
      × CountsRetries (pubrel_impl m)
      × CountsRetries (ping_impl m)
users-CountsRetries m = (
  record {
    raised = λ msg. refl;
    carried = λ msg msg' e. ap (λ (l : Letter m (Unit {0})). count_carried l) e;
  },
  record {
    raised = λ msg. refl;
    carried = λ msg msg' e. ap (λ (l : Letter m (Unit {0})). count_carried l) e;
  },
  record {
    raised = λ msg. refl;
    carried = λ msg msg' e. ap (λ (l : Letter m PublishPacketStatus). count_carried l) e;
  },
  record {
    raised = λ msg. refl;
    carried = λ msg msg' e. ap (λ (l : Letter m PublishPacketStatus). count_carried l) e;
  },
  record {
    raised = λ msg. refl;
    carried = λ msg msg' e. ap (λ (l : Letter m (Unit {0})). count_carried l) e;
  },
)
