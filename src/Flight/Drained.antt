-- ===== src/Flight/Drained.antt =====
-- src/actors/packets/*.rs with src/actors/actions/status.rs and src/actors/packets/disconnect.rs: how a
-- client comes to rest.
use actix_mqtt_client.Common.{
  ℕ, Bool, true, false, not, [], ◌∷◌, Option, none, some, if◌then◌else◌, ◌≡◌, refl, ap, ◌∙◌, inl,
  inr, is_some, Option-cases, String, subst,
}
use actix_mqtt_client.Mqtt.{Mqtt}
use actix_mqtt_client.Message.{
  Address, PublishPacketStatus, StatusOperationMessage, disconnect_actor, send_actor, stop_actor,
  get_and_remove_packet_status,
}
use actix_mqtt_client.Runtime.{Runtime, Trace, effects, sent, response, failed}
use actix_mqtt_client.Observe.{count, hands_packet, status_operation_of}
use actix_mqtt_client.Status.{handle, operate}
use actix_mqtt_client.Status.Map.{get, is_empty, get→is_empty}
use actix_mqtt_client.Disconnect.{handle_disconnect}
use actix_mqtt_client.Disconnect.Graceful
use actix_mqtt_client.Disconnect.Graceful.{
  Session, session_start, settled-disconnect, hands_over, goes_on, disconnect_letter,
}
use actix_mqtt_client.Publish.Receiver.{taken}
use actix_mqtt_client.Client.Start.{Actors, wired}
use actix_mqtt_client.Flight.{
  Flight, Step, Reach, flight_start, run, resume, operated, operated_option, session_after, handles,
  answers, fails, delivers, requests, here, next,
}
use actix_mqtt_client.Flight.Questions.{Occurs, ids}
use actix_mqtt_client.Flight.Tracked.{started-IsTracked}

-- The steps of the status actor and the disconnect actor, as they are seen by these two alone.
module _ {m : Mqtt} {s₀ : Session} where
  operated-Reach :
      (msg : StatusOperationMessage PublishPacketStatus) {s : Session}
      → Graceful.Reach m disconnect_actor s₀ s
      → Graceful.Reach m disconnect_actor s₀ (operated s msg)
  unfolding handle
  operated-Reach msg path =
      Graceful.Reach.next path (Graceful.Step.operates (λ trace a l. sent) 0 msg refl)

  session_after-Reach :
      (trace : Trace m PublishPacketStatus) {s : Session}
      → Graceful.Reach m disconnect_actor s₀ s
      → Graceful.Reach m disconnect_actor s₀ (session_after trace s)
  session_after-Reach [] path = path
  session_after-Reach (e ∷ trace) {s} path =
      option_Reach (status_operation_of e) (session_after-Reach trace path)
    where
      option_Reach :
          (o : Option (StatusOperationMessage PublishPacketStatus)) {u : Session}
          → Graceful.Reach m disconnect_actor s₀ u
          → Graceful.Reach m disconnect_actor s₀ (operated_option o u)
      option_Reach none p = p
      option_Reach (some msg) p = operated-Reach msg p

  Step-session :
      {actors : Actors} {f g : Flight m}
      → Step m actors f g
      → Graceful.Reach m disconnect_actor s₀ f.session
      → Graceful.Reach m disconnect_actor s₀ g.session
  Step-session {actors} (handles r n request e) path =
      rw e (session_after-Reach (effects r n (run m actors request)) path)
  Step-session {actors} {f} (answers r n earlier q later at e) path =
      let ask = get_and_remove_packet_status q.id in
      let status = (operate f.session.status.packet_status_map ask).1 in
      rw e (
        session_after-Reach (effects r n (resume m actors q.continuation (response status)))
          (operated-Reach ask path))
  Step-session {actors} (fails r n earlier q later k at e) path =
      rw e (session_after-Reach (effects r n (resume m actors q.continuation (failed k))) path)
  Step-session (delivers r n b rest on at e) path =
      rw e (Graceful.Reach.next path (Graceful.Step.delivers r n b rest on at refl))
  Step-session (requests r n force on e) path =
      rw e (Graceful.Reach.next path (Graceful.Step.requests r n force on refl))

Reach-session :
    {m : Mqtt} {actors : Actors} {f g : Flight m}
    → Reach m actors f g
    → Graceful.Reach m disconnect_actor f.session g.session
Reach-session here = Graceful.Reach.here
Reach-session (next path st) = Step-session st (Reach-session path)

module _ (m : Mqtt) (errors messages : Address) (name : String) {f : Flight m}
    (reached : Reach m (wired errors messages name) (flight_start m (wired errors messages name)) f)
    (calm : f.refusals ≡ 0) (quiet : f.questions ≡ []) where
  -- A client on which no send was refused and no question failed comes to rest: once no question is on
  -- its way, no packet is in flight.
  pub quiet-is_empty : is_empty f.session.status.packet_status_map ≡ true
  quiet-is_empty = get→is_empty f.session.status.packet_status_map none_left
    where
      none_left : (id : ℕ) → get id f.session.status.packet_status_map ≡ none
      none_left id = elim (Option-cases (get id f.session.status.packet_status_map)) [
        | inl e ↦ e
        | inr (s, e) ↦ absurd (
            subst (λ qs. Occurs id (ids qs)) quiet
              ((started-IsTracked m errors messages name reached).tracked calm id (ap is_some e)))
      ]

  -- On a started client on which no send of the publish packets' actors was refused and no question
  -- failed, once no question is on its way and all reports have arrived, and while the disconnect actor
  -- still runs, a request to disconnect that is not forced hands the DISCONNECT over exactly once, if the
  -- sender's mailbox takes it then, and stops the actor; it had never been tried before.
  pub quiet-disconnect :
      (r : Runtime m PublishPacketStatus) (n : ℕ)
      → f.session.running ≡ true
      → f.session.reports ≡ []
      → r [] f.session.actor.send_recipient (disconnect_letter m) ≡ sent
      → let trace = effects r n (handle_disconnect m f.session.actor disconnect_actor false) in
        (f.session.attempts ≡ 0)
        × (count hands_packet trace ≡ 1)
        × (count hands_over trace ≡ 1)
        × (goes_on trace ≡ false)
  unfolding wired
  quiet-disconnect r n runs arrived takes =
      let (none_before, tries, stops, hands) =
        settled-disconnect m disconnect_actor send_actor errors stop_actor (Reach-session reached) r
          n runs arrived in
      (
        none_before,
        tries ∙ ap (λ (b : Bool). if b then 1 else 0) quiet-is_empty,
        hands
            ∙ ap
                (λ (b : Bool).
                  if b
                  then taken (r [] f.session.actor.send_recipient (disconnect_letter m))
                  else 0)
                quiet-is_empty
            ∙ ap taken takes,
        stops ∙ ap not quiet-is_empty,
      )
