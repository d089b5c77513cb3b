-- ===== src/Ping/Tick.antt =====
-- src/actors/packets/pingreq.rs with the status actors of the connection and of the pings: what a tick of
-- the interval does, up to the packet, where the mailboxes take what is sent.
use actix_mqtt_client.Common.{
  not, ◌&&◌, ap, ◌∙◌, inl, inr, Bool-cases, Option-cases, is_some, if◌then◌else◌, ℕ, true, false,
  [], ◌∷◌, ◌++◌, none, some, ◌≡◌, refl,
}
use actix_mqtt_client.Mqtt.{Mqtt}
use actix_mqtt_client.Message.{
  Address, PacketStatus, get_and_remove_packet_status, set_packet_status, status_operation,
  status_existence, send_ping,
}
use actix_mqtt_client.Runtime.{calm, Trace, Effect, sent, response, ask_after, did, effects}
use actix_mqtt_client.Observe.{count, hands_packet}
use actix_mqtt_client.Status.{PacketStatusActor, operate, handle_existence}
use actix_mqtt_client.Status.Map.{HasDistinctKeys, get, StatusMap}
use actix_mqtt_client.Status.Laws.{
  operate-HasDistinctKeys, get-set_self, get-take_self, take-result, map_after,
}
use actix_mqtt_client.Sending.{handle}
use actix_mqtt_client.Control.{resume_control, resume_existence}
use actix_mqtt_client.Ping.{
  PingreqActor, handle_pingreq, handle_send_ping, finish_ping_connect, finish_ping_status,
}

abbrev pub Nothing : Type 0
Nothing = Unit {0}

module _ (m : Mqtt) where
  module _ (connection : PacketStatusActor Nothing) where
    abbrev existence_future : Effect m Nothing → Trace m Nothing
    existence_future (ask_after d a (status_existence id) c) =
        effects calm 0 (resume_existence m c (response (handle_existence connection id)))
    existence_future _ = []

    -- What the futures do that a trace leaves with a question for the connection.
    abbrev existence_futures : Trace m Nothing → Trace m Nothing
    existence_futures [] = []
    existence_futures (e ∷ trace) = existence_future e ++ existence_futures trace

  abbrev take_future : Effect m Nothing → StatusMap Nothing → StatusMap Nothing × Trace m Nothing
  take_future (ask_after d a (status_operation msg) c) pings =
      ((operate pings msg).0, effects calm 0 (resume_control m c (response (operate pings msg).1)))
  take_future _ pings = (pings, [])

  -- What the futures do that a trace leaves with a question for the pings, the oldest first.
  abbrev take_futures : Trace m Nothing → StatusMap Nothing → StatusMap Nothing × Trace m Nothing
  take_futures [] pings = (pings, [])
  take_futures (e ∷ trace) pings =
      let (pings', earlier) = take_futures trace pings in
      let (pings'', now) = take_future e pings' in (pings'', now ++ earlier)

  module _ (actor : PingreqActor) (addr : Address) where
    abbrev handled : Effect m Nothing → Trace m Nothing
    handled (did a (send_ping retries) sent) =
        effects calm 0 (handle_send_ping m actor addr retries)
    handled _ = []

    -- What the handler does with the `SendPing` messages of a trace.
    abbrev all_handled : Trace m Nothing → Trace m Nothing
    all_handled [] = []
    all_handled (e ∷ trace) = handled e ++ all_handled trace

    module _ (connection : PacketStatusActor Nothing) where
      -- One tick: the handler, its futures, and the `SendPing` that they post. The result is the map of
      -- the pings and how many packets were handed over.
      unfoldable pub tick : StatusMap Nothing → StatusMap Nothing × ℕ
      tick pings =
          let asked =
            existence_futures connection (effects calm 0 (handle_pingreq m actor addr 0)) in
          let (taken, posted) = take_futures asked pings in
          let trace = all_handled posted in (map_after trace taken, count hands_packet trace)

-- The map after the status was taken, and after the next one was stored.
abbrev pub taken : StatusMap Nothing → StatusMap Nothing
taken pings = (operate pings (get_and_remove_packet_status 0)).0

abbrev pub stored : StatusMap Nothing → StatusMap Nothing
stored pings =
    (operate (taken pings)
      (set_packet_status 0 (record { id = 0; retry_count = 0; payload = tt }))).0

module _ (m : Mqtt) (actor : PingreqActor) (addr : Address)
    (connection : PacketStatusActor Nothing) where
  tick-unconnected :
      (pings : StatusMap Nothing)
      → handle_existence connection 1 ≡ false
      → tick m actor addr connection pings ≡ (pings, 0)
  unfolding tick resume_existence resume_control handle_pingreq finish_ping_connect
  tick-unconnected pings off = rw off refl

  tick-pending :
      (pings : StatusMap Nothing) (status : PacketStatus Nothing)
      → handle_existence connection 1 ≡ true
      → (operate pings (get_and_remove_packet_status 0)).1 ≡ some status
      → tick m actor addr connection pings ≡ (taken pings, 0)
  unfolding tick resume_existence resume_control handle_pingreq finish_ping_connect
      finish_ping_status
  tick-pending pings status on pending = rw on (rw pending refl)

  tick-free :
      (pings : StatusMap Nothing)
      → handle_existence connection 1 ≡ true
      → (operate pings (get_and_remove_packet_status 0)).1 ≡ none
      → tick m actor addr connection pings ≡ (stored pings, 1)
  unfolding tick resume_existence resume_control handle_pingreq finish_ping_connect
      finish_ping_status handle_send_ping handle
  tick-free pings on free = rw on (rw free refl)

  -- Where the mailboxes take what is sent: a tick hands exactly one packet over if the connection is up
  -- and no ping is in flight, and this ping is in flight afterwards; a ping that is in flight at a
  -- tick is given up, and no packet is handed over; and without a connection nothing happens.
  pub tick-cases :
      (pings : StatusMap Nothing)
      → HasDistinctKeys pings
      → let (pings', handed) = tick m actor addr connection pings in
        let up = handle_existence connection 1 in
        let pending = is_some (get 0 pings) in
        (handed ≡ (if up && not pending then 1 else 0))
        × (is_some (get 0 pings') ≡ (if up then not pending else pending))
  tick-cases pings d = elim (Bool-cases (handle_existence connection 1)) [
    | inr off ↦ rw (tick-unconnected pings off, off) (refl, refl)
    | inl on ↦ elim (Option-cases (get 0 pings)) [
      | inl free ↦
          rw (tick-free pings on (take-result pings d 0 ∙ free), on, free)
            (refl, ap is_some (get-set_self (taken pings) d' 0 _))
      | inr (status, pending) ↦
          rw (tick-pending pings status on (take-result pings d 0 ∙ pending), on, pending)
            (refl, ap is_some (get-take_self pings d 0))
    ]
  ]
    where
      d' : HasDistinctKeys (taken pings)
      d' = operate-HasDistinctKeys pings (get_and_remove_packet_status 0) d
