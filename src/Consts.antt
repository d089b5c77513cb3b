-- ===== src/Consts.antt =====
-- src/consts.rs. Durations are in seconds.
use actix_mqtt_client.Common.{ℕ}

abbrev pub max_retry_count : ℕ
max_retry_count = 5

abbrev pub default_mailbox_capacity : ℕ
default_mailbox_capacity = 64

abbrev pub mailbox_capacity_for_publish : ℕ
mailbox_capacity_for_publish = 256

abbrev pub command_timeout : ℕ
command_timeout = 5

-- Nothing in the repository uses it.
abbrev pub delay_before_shutdown : ℕ
delay_before_shutdown = 5

abbrev pub resend_delay : ℕ
resend_delay = 1

abbrev pub ping_interval : ℕ
ping_interval = 10
