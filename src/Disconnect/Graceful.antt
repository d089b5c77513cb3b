-- ===== src/Disconnect/Graceful.antt =====
-- src/actors/packets/disconnect.rs with src/actors/actions/status.rs: a graceful disconnect waits for
-- the packets in flight. The reports of the status actor wait in the mailbox of the disconnect
-- actor, in their order, so that the two actors may interleave in any way.
use actix_mqtt_client.Common.{
  ℕ, ◌+◌, Bool, true, false, not, ◌||◌, List, [], ◌∷◌, ◌++◌, some, if◌then◌else◌, ◌≡◌, refl, sym,
  ap, ◌∙◌, arith,
}
use actix_mqtt_client.Mqtt.{Mqtt, disconnect_packet}
use actix_mqtt_client.Message.{
  Letter, Address, PublishPacketStatus, StatusOperationMessage, disconnect, variable_packet_message,
}
use actix_mqtt_client.Runtime.{
  Runtime, Trace, Effect, SendResult, sent, Act, tried, did, stopped, effects,
}
use actix_mqtt_client.Observe.{count, hands_packet}
use actix_mqtt_client.Status
use actix_mqtt_client.Status.{PacketStatusActor, operate, report, handle}
use actix_mqtt_client.Status.Map.{is_empty}
use actix_mqtt_client.Publish.Receiver.{taken}
use actix_mqtt_client.Disconnect.{
  DisconnectActor, handle_disconnect, handle_packet_send_status, disconnect_actor_new,
}

abbrev pub sends_forced : {m : Mqtt} {T : Type 0} → Effect m T → Bool
sends_forced (did a (disconnect true) o) = true
sends_forced _ = false

-- A packet that the mailbox took.
abbrev packet_taken : {m : Mqtt} {T : Type 0} → Letter m T → SendResult → Bool
packet_taken (variable_packet_message p) sent = true
packet_taken l o = false

abbrev pub hands_over : {m : Mqtt} {T : Type 0} → Effect m T → Bool
hands_over (tried a l o) = packet_taken l o
hands_over (did a l o) = packet_taken l o
hands_over _ = false

-- The handler does not stop its own actor.
abbrev pub goes_on : {m : Mqtt} {T : Type 0} → Trace m T → Bool
goes_on [] = true
goes_on (stopped a ∷ trace) = false
goes_on (e ∷ trace) = goes_on trace

abbrev pub disconnect_letter : (m : Mqtt) → Letter m PublishPacketStatus
disconnect_letter m =
    variable_packet_message
      (record { packet = disconnect_packet m.disconnect_packet_new; retry_count = 0 })

-- The actor after a handler, and its effects.
abbrev pub after :
    {m : Mqtt} {A : Type 0} → Runtime m PublishPacketStatus → ℕ → Act m PublishPacketStatus A → A
after r n act = (act r (record { id_counter = n; trace = [] })).0

module _ (m : Mqtt) (addr : Address) (r : Runtime m PublishPacketStatus) (n : ℕ) where
  -- A request tries to hand the DISCONNECT over, exactly once, and stops the actor, if it is forced or
  -- the last report was that nothing is in flight; the DISCONNECT is then handed over exactly if the
  -- sender's mailbox takes it. Otherwise the request tries nothing, and is remembered. The last report
  -- stays.
  pub handle_disconnect-when :
      (actor : DisconnectActor) (force : Bool)
      → let trace = effects r n (handle_disconnect m actor addr force) in
        let actor' = after r n (handle_disconnect m actor addr force) in
        let now = force || actor.packet_send_finished in
        (count hands_packet trace ≡ (if now then 1 else 0))
        × (count hands_over trace
            ≡ (if now then taken (r [] actor.send_recipient (disconnect_letter m)) else 0))
        × (goes_on trace ≡ not now)
        × (actor'.pending_disconnect ≡ (if now then actor.pending_disconnect else true))
        × (actor'.packet_send_finished ≡ actor.packet_send_finished)
  unfolding handle_disconnect
  handle_disconnect-when actor force = ground arith

-- The two actors, the reports that are on their way, whether the disconnect actor still runs, and how
-- often it has tried to hand the DISCONNECT over. Once it has stopped it handles nothing more; what is
-- sent to it then is lost.
pub record Session : Type 0 where
  pub actor : DisconnectActor
  pub status : PacketStatusActor PublishPacketStatus
  pub reports : List Bool
  pub running : Bool
  pub attempts : ℕ

-- The session after a handler of the disconnect actor.
abbrev pub handled :
    {m : Mqtt}
    → Runtime m PublishPacketStatus
    → ℕ
    → Act m PublishPacketStatus DisconnectActor
    → Session
    → Session
handled r n act s = record s {
  actor = after r n act;
  running = goes_on (effects r n act);
  attempts = count hands_packet (effects r n act) + s.attempts;
}

-- The report that follows an operation.
abbrev pub report_after :
    PacketStatusActor PublishPacketStatus → StatusOperationMessage PublishPacketStatus → Bool
report_after status msg = is_empty (operate status.packet_status_map msg).0

-- A status operation, whose report joins the mailbox; the delivery of the oldest report; and a
-- request, of the user or of the actor itself, forced or not. The actor takes part as long as it runs.
pub data Step (m : Mqtt) (addr : Address) (s t : Session) : Type 0 where
  operates :
      (r : Runtime m PublishPacketStatus) (n : ℕ) (msg : StatusOperationMessage PublishPacketStatus)
      → t ≡ record s {
        status = (after r n (handle s.status msg)).0;
        reports = s.reports ++ report_after s.status msg ∷ [];
      }
      → Step m addr s t
  delivers :
      (r : Runtime m PublishPacketStatus) (n : ℕ) (b : Bool) (rest : List Bool)
      → s.running ≡ true
      → s.reports ≡ b ∷ rest
      → t ≡ handled r n (handle_packet_send_status m s.actor addr b) (record s { reports = rest })
      → Step m addr s t
  requests :
      (r : Runtime m PublishPacketStatus) (n : ℕ) (force : Bool)
      → s.running ≡ true
      → t ≡ handled r n (handle_disconnect m s.actor addr force) s
      → Step m addr s t

-- Any number of steps.
pub data Reach (m : Mqtt) (addr : Address) (s : Session) : Session → Type 0 where
  here : Reach m addr s s
  next : {t u : Session} → Reach m addr s t → Step m addr t u → Reach m addr s u

-- The last report of those delivered and those on their way.
abbrev pub newest : Bool → List Bool → Bool
newest b [] = b
newest b (c ∷ rest) = newest c rest

newest-append : (b c : Bool) (bs : List Bool) → newest b (bs ++ c ∷ []) ≡ c
newest-append b c [] = refl
newest-append b c (x ∷ bs) = newest-append x c bs

pub record IsConsistent (s : Session) : Type 0 where
  pub newest_report :
      newest s.actor.packet_send_finished s.reports ≡ is_empty s.status.packet_status_map
  pub waits : s.actor.pending_disconnect ≡ true → s.actor.packet_send_finished ≡ false
  pub once : s.attempts ≡ (if s.running then 0 else 1)

module _ (m : Mqtt) (addr : Address) where
  requests-waits :
      (r : Runtime m PublishPacketStatus) (n : ℕ) (actor : DisconnectActor) (force : Bool)
      → (actor.pending_disconnect ≡ true → actor.packet_send_finished ≡ false)
      → let actor' = after r n (handle_disconnect m actor addr force) in
        actor'.pending_disconnect ≡ true → actor'.packet_send_finished ≡ false
  requests-waits r n actor force waits =
      ground (arith, handle_disconnect-when m addr r n actor force)

  requests-once :
      (r : Runtime m PublishPacketStatus) (n : ℕ) (actor : DisconnectActor) (force : Bool)
      → let trace = effects r n (handle_disconnect m actor addr force) in
        count hands_packet trace ≡ (if goes_on trace then 0 else 1)
  requests-once r n actor force = ground (arith, handle_disconnect-when m addr r n actor force)

  pub Step-IsConsistent : {s t : Session} → Step m addr s t → IsConsistent s → IsConsistent t
  unfolding handle handle_packet_send_status handle_disconnect
  Step-IsConsistent {s} (operates r n msg e) v =
      rw e (record { newest_report = newest-append _ _ s.reports; waits = v.waits; once = v.once })
  Step-IsConsistent {s} (delivers r n b rest on w e) v =
      rw e (record { newest_report = ground arith; waits = ground arith; once = ground arith })
  Step-IsConsistent {s} (requests r n force on e) v = rw e (record {
    newest_report = rw ((handle_disconnect-when m addr r n s.actor force).4) v.newest_report;
    waits = requests-waits r n s.actor force v.waits;
    once = ground (arith, requests-once r n s.actor force, v.once, on);
  })

  pub Reach-IsConsistent : {s t : Session} → IsConsistent s → Reach m addr s t → IsConsistent t
  Reach-IsConsistent v here = v
  Reach-IsConsistent v (next r st) = Step-IsConsistent st (Reach-IsConsistent v r)

-- The two actors as `start_actors` makes them.
abbrev pub session_start : Address → Address → Address → Address → Session
session_start send_recipient error_recipient stop_recipient recipient = record {
  actor = disconnect_actor_new send_recipient error_recipient stop_recipient;
  status = Status.new (some recipient);
  reports = [];
  running = true;
  attempts = 0;
}

module _ (m : Mqtt) (addr send errors stop : Address) {t : Session}
    (reached : Reach m addr (session_start send errors stop addr) t) where
  pub started-IsConsistent : IsConsistent t
  unfolding is_empty
  started-IsConsistent =
      Reach-IsConsistent m addr (record { newest_report = refl; waits = λ h. cc; once = refl })
        reached

  -- However the status operations, the reports and the requests, forced or not, interleave, and whatever
  -- the mailboxes answer: a disconnect actor that still runs has never tried to hand the DISCONNECT
  -- over. If it runs and all reports have arrived, a request that is not forced tries it, once, and
  -- stops the actor, exactly if no packet is in flight; and the DISCONNECT is handed over exactly if
  -- it is tried and the sender's mailbox takes it.
  pub settled-disconnect :
      (r : Runtime m PublishPacketStatus) (n : ℕ)
      → t.running ≡ true
      → t.reports ≡ []
      → let trace = effects r n (handle_disconnect m t.actor addr false) in
        let settled = is_empty t.status.packet_status_map in
        (t.attempts ≡ 0)
        × (count hands_packet trace ≡ (if settled then 1 else 0))
        × (goes_on trace ≡ not settled)
        × (count hands_over trace
            ≡ (if settled then taken (r [] t.actor.send_recipient (disconnect_letter m)) else 0))
  settled-disconnect r n runs arrived =
      let (tries, hands, stops, pending, finished) =
        handle_disconnect-when m addr r n t.actor false in
      let same : is_empty t.status.packet_status_map ≡ t.actor.packet_send_finished = sym (
        sym (ap (newest t.actor.packet_send_finished) arrived)
        ∙ started-IsConsistent.newest_report) in
      rw same (
        started-IsConsistent.once ∙ ap (λ (b : Bool). if b then 0 else 1) runs,
        tries,
        stops,
        hands,
      )
