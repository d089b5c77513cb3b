-- ===== src/Ids.antt =====
-- src/actors/utils.rs: packet identifiers from a counter. `usize` has 64 bits.
pub mod Window
use actix_mqtt_client.Common.{ℕ, ◌+◌, ◌%◌, ◌^◌}

abbrev pub u16_max : ℕ
u16_max = 65535

-- `fetch_add` wraps.
unfoldable pub fetch_add : ℕ → ℕ
fetch_add n = (n + 1) % 2 ^ 64

-- The identifier made from the counter's value.
unfoldable pub id_of_counter : ℕ → ℕ
id_of_counter n = (n % u16_max + 1) % 65536

-- The identifier, and the counter afterwards.
unfoldable pub next_id : ℕ → ℕ × ℕ
next_id n = (id_of_counter n, fetch_add n)
