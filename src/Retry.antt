-- ===== src/Retry.antt =====
-- The retry discipline that the actors of src/actors/packets/*.rs share: a handler may put its message
-- back with the count raised, and a message whose count is over the limit ends the chain.
use actix_mqtt_client.Common.{ℕ, suc, ◌+◌, ◌≤◌, ◌<◌, ◌≡◌, arith, All, incr_u16, dec_le}
use actix_mqtt_client.Consts.{max_retry_count}
use actix_mqtt_client.Mqtt.{Mqtt}
use actix_mqtt_client.Message.{Letter}
use actix_mqtt_client.Runtime.{Act, Runtime, effects}
use actix_mqtt_client.Observe.{IsQuiet, PutsBack, PutsBack-IsQuiet}

-- What an actor with retries supplies: its handler, and the count of a message.
pub record Retrying (m : Mqtt) (T : Type 0) : Type 1 where
  pub Msg : Type 0
  pub letter : Msg → Letter m T
  pub run : Msg → Act m T (Unit {0})
  pub retry_count : Msg → ℕ

-- What it has to satisfy: over the limit nothing is put back, and otherwise nothing but a message
-- whose count is raised by one.
pub record IsBounded {m : Mqtt} {T : Type 0} (a : Retrying m T) : Type 0 where
  pub over_limit :
      (r : Runtime m T) (n : ℕ) (msg : a.Msg)
      → max_retry_count < a.retry_count msg
      → All IsQuiet (effects r n (a.run msg))
  pub raises :
      (r : Runtime m T) (n : ℕ) (msg msg' : a.Msg)
      → PutsBack (a.letter msg') (effects r n (a.run msg))
      → a.retry_count msg' ≡ incr_u16 (a.retry_count msg)

module _ {m : Mqtt} {T : Type 0} (a : Retrying m T) where
  -- `Chain msg k`: a message with count 0 was put back by its handler `k` times, as the message that
  -- the handler of the one before really puts back, and is `msg` now. Each time the runtime and the
  -- identifier counter may be others.
  pub data Chain : a.Msg → ℕ → Type 0 where
    first : (msg : a.Msg) → a.retry_count msg ≡ 0 → Chain msg 0
    again :
        {msg : a.Msg} {k : ℕ}
        → Chain msg k
        → (r : Runtime m T) (n : ℕ) (msg' : a.Msg)
        → PutsBack (a.letter msg') (effects r n (a.run msg))
        → Chain msg' (suc k)

  module _ (laws : IsBounded a) where
    within_limit :
        (r : Runtime m T) (n : ℕ) (msg msg' : a.Msg)
        → PutsBack (a.letter msg') (effects r n (a.run msg))
        → a.retry_count msg ≤ max_retry_count
    within_limit r n msg msg' back = elim (dec_le (a.retry_count msg) max_retry_count) [
      | yes h ↦ h
      | no h ↦ absurd (PutsBack-IsQuiet _ _ back (laws.over_limit r n msg (omega arith)))
    ]

    pub Chain-bounded :
        {msg : a.Msg} {k : ℕ} → Chain msg k → (a.retry_count msg ≡ k) × (k ≤ max_retry_count + 1)
    Chain-bounded (first msg h) = (h, omega arith)
    Chain-bounded (again {msg} c r n msg' back) =
        let (same, bound) = Chain-bounded c in
        omega (arith, within_limit r n msg msg' back, laws.raises r n msg msg' back)
