-- ===== src/Ids/Window.antt =====
-- src/actors/utils.rs: the identifiers that successive calls of `next_id` return.
use actix_mqtt_client.Common.{ℕ, zero, suc, ◌+◌, ◌-◌, ◌^◌, ◌≤◌, ◌<◌, ◌≡◌, ◌≢◌, subst, ◌∙◌, arith}
use actix_mqtt_client.Ids.{u16_max, fetch_add, id_of_counter}

-- The counter after `k` further calls.
unfoldable pub after_calls : ℕ → ℕ → ℕ
after_calls zero n = n
after_calls (suc k) n = after_calls k (fetch_add n)

-- Every identifier is a valid MQTT packet identifier: not 0, and a 16-bit number.
pub id_of_counter_bounds : (n : ℕ) → (1 ≤ id_of_counter n) × (id_of_counter n ≤ u16_max)
unfolding id_of_counter
id_of_counter_bounds n = omega arith

after_calls-eq-add : (k n : ℕ) → n + k < 2 ^ 64 → after_calls k n ≡ n + k
unfolding after_calls fetch_add
after_calls-eq-add zero n h = omega arith
after_calls-eq-add (suc k) n h =
    subst (λ c. after_calls k c ≡ n + suc k) (omega arith)
      (after_calls-eq-add k (n + 1) (omega arith) ∙ omega arith)

-- Two identifiers that are at least one and fewer than 65535 calls apart differ, unless the counter
-- wraps between them.
pub id-distinct :
    (n k : ℕ)
    → 0 < k
    → k < u16_max
    → n + k < 2 ^ 64
    → id_of_counter (after_calls k n) ≢ id_of_counter n
unfolding id_of_counter
id-distinct n k pos short h = rw (after_calls-eq-add k n h) (omega arith)

-- After exactly 65535 calls the identifier comes again.
pub id-repeats :
    (n : ℕ) → n + u16_max < 2 ^ 64 → id_of_counter (after_calls u16_max n) ≡ id_of_counter n
unfolding id_of_counter
id-repeats n h = rw (after_calls-eq-add u16_max n h) (omega arith)

-- Where the 64-bit counter wraps, two calls in a row return the same identifier.
pub id-wrap : (n : ℕ) → n ≡ 2 ^ 64 - 1 → id_of_counter (fetch_add n) ≡ id_of_counter n
unfolding id_of_counter fetch_add
id-wrap n h = omega arith
