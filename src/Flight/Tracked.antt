-- ===== src/Flight/Tracked.antt =====
-- src/actors/packets/*.rs with src/actors/actions/status.rs and src/actors/packets/disconnect.rs: every
-- status in flight has a question that will take it.
use actix_mqtt_client.Common.{
  some, ap, All-append, All-drop, String, ℕ, ◌+◌, List, ◌∷◌, ◌++◌, ◌==◌, ◌≡◌, ◌≢◌, subst, arith,
  inl, inr, is_some, Bool-cases,
}
use actix_mqtt_client.Mqtt.{Mqtt}
use actix_mqtt_client.Message.{
  PacketStatus, Address, PublishPacketStatus, get_and_remove_packet_status,
}
use actix_mqtt_client.Runtime.{Trace}
use actix_mqtt_client.Status.{operate}
use actix_mqtt_client.Status.Map.{HasDistinctKeys, get}
use actix_mqtt_client.Status.Laws.{operate-get, operate-HasDistinctKeys, map_after-HasDistinctKeys}
use actix_mqtt_client.Client.Start.{Actors, wired}
use actix_mqtt_client.Flight.{
  handles, answers, fails, delivers, requests, here, next, Flight, Question, Step, Reach,
  flight_start, absorb, operated, questions_of,
}
use actix_mqtt_client.Flight.Questions.{Occurs, ids, set_ids, IsPlain, ArePlain, IsAsking}
use actix_mqtt_client.Flight.Futures.{run-IsAsking, resume-IsAsking}
use actix_mqtt_client.Flight.Lookup.{
  Knows, Occurs-append, All-Occurs, map_after-Knows, ids-append, Occurs-drop, session_after-map,
}

-- No key stands twice, what a check may put back is no status operation, and unless an attempt was
-- refused or a question failed, every status has a question that will take it.
pub record IsTracked {m : Mqtt} (f : Flight m) : Type 0 where
  pub distinct : HasDistinctKeys f.session.status.packet_status_map
  pub plain : ArePlain f.questions
  pub tracked :
      f.refusals ≡ 0
      → (id : ℕ) → Knows f.session.status.packet_status_map id
      → Occurs id (ids f.questions)

module _ {m : Mqtt} where
  absorb-IsTracked :
      (trace : Trace m PublishPacketStatus) (f : Flight m)
      → IsAsking trace
      → IsTracked f
      → IsTracked (absorb trace f)
  absorb-IsTracked trace f asking v = record {
    distinct =
        rw (session_after-map trace f.session)
          (map_after-HasDistinctKeys trace f.session.status.packet_status_map v.distinct);
    plain = All-append _ (questions_of trace) f.questions asking.1 v.plain;
    tracked = λ calm id known. rw (ids-append (questions_of trace) f.questions) (
        Occurs-append id (ids (questions_of trace)) (ids f.questions)
          (elim (map_after-Knows trace f.session.status.packet_status_map id v.distinct
            (rw (session_after-map trace f.session) at known)) [
              | inl old ↦ inr (v.tracked (omega arith) id old)
              | inr new ↦ inl (All-Occurs _ id (set_ids trace) (asking.0 (omega arith)) new)
            ]));
  }

  taken-IsTracked :
      (f : Flight m) (earlier : List (Question m)) (q : Question m) (later : List (Question m))
      → f.questions ≡ earlier ++ (q ∷ later)
      → IsTracked f
      → IsTracked (record f {
        session = operated f.session (get_and_remove_packet_status q.id);
        questions = earlier ++ later;
      })
  taken-IsTracked f earlier q later e v = record {
    distinct = operate-HasDistinctKeys _ (get_and_remove_packet_status q.id) v.distinct;
    plain = (All-drop _ earlier q later (subst ArePlain e v.plain)).1;
    tracked = λ calm id known.
        let (ne, old) = taken-Knows q.id id known in
        Occurs-drop id earlier q later ne
          (subst (λ qs. Occurs id (ids qs)) e (v.tracked calm id old));
  }
    where
      taken-Knows :
          (k id : ℕ)
          → Knows (operate f.session.status.packet_status_map (get_and_remove_packet_status k)).0 id
          → (k ≢ id) × Knows f.session.status.packet_status_map id
      taken-Knows k id known = elim (Bool-cases (k == id)) [
        | inl same ↦ absurd (
            ground (
              arith,
              operate-get f.session.status.packet_status_map (get_and_remove_packet_status k)
                  v.distinct id,
            ))
        | inr other ↦ (
          (λ e'. ground arith),
          ground (
            arith,
            operate-get f.session.status.packet_status_map (get_and_remove_packet_status k)
                v.distinct id,
          ),
        )
      ]

  failed-IsTracked :
      (f : Flight m) (earlier : List (Question m)) (q : Question m) (later : List (Question m))
      → f.questions ≡ earlier ++ (q ∷ later)
      → IsTracked f
      → IsTracked (record f { questions = earlier ++ later; refusals = f.refusals + 1 })
  failed-IsTracked f earlier q later e v = record {
    distinct = v.distinct;
    plain = (All-drop _ earlier q later (subst ArePlain e v.plain)).1;
    tracked = λ calm id known. absurd (omega arith);
  }

module _ {m : Mqtt} {actors : Actors} where
  pub Step-IsTracked : {f g : Flight m} → Step m actors f g → IsTracked f → IsTracked g
  Step-IsTracked {f} (handles r n request e) v =
      rw e (absorb-IsTracked _ f (run-IsAsking actors r n request) v)
  Step-IsTracked {f} (answers r n earlier q later at e) v =
      let plain : IsPlain q.continuation =
        (All-drop _ earlier q later (subst ArePlain at v.plain)).0 in
      rw e (
        absorb-IsTracked _ _ (resume-IsAsking actors r n q.continuation _ plain)
          (taken-IsTracked f earlier q later at v))
  Step-IsTracked {f} (fails r n earlier q later k at e) v =
      let plain : IsPlain q.continuation =
        (All-drop _ earlier q later (subst ArePlain at v.plain)).0 in
      rw e (
        absorb-IsTracked _ _ (resume-IsAsking actors r n q.continuation _ plain)
          (failed-IsTracked f earlier q later at v))
  Step-IsTracked {f} (delivers r n b rest on at e) v =
      rw e (record { distinct = v.distinct; plain = v.plain; tracked = v.tracked })
  Step-IsTracked {f} (requests r n force on e) v =
      rw e (record { distinct = v.distinct; plain = v.plain; tracked = v.tracked })

  pub Reach-IsTracked : {f g : Flight m} → IsTracked f → Reach m actors f g → IsTracked g
  Reach-IsTracked v here = v
  Reach-IsTracked v (next path st) = Step-IsTracked st (Reach-IsTracked v path)

module _ (m : Mqtt) (errors messages : Address) (name : String) {f : Flight m}
    (reached : Reach m
      (wired errors messages name)
      (flight_start m (wired errors messages name))
      f) where
  pub started-IsTracked : IsTracked f
  unfolding wired get
  started-IsTracked =
      Reach-IsTracked (record { distinct = tt; plain = tt; tracked = λ calm id known. cc }) reached

  -- However the handlers of the publish packets, their futures, the reports and the requests to
  -- disconnect interleave, as long as no attempt to send was refused and no question failed: every
  -- identifier that has a status also has a question on its way that will take this status.
  pub flight-tracked :
      f.refusals ≡ 0
      → (id : ℕ) (s : PacketStatus PublishPacketStatus)
      → get id f.session.status.packet_status_map ≡ some s
      → Occurs id (ids f.questions)
  flight-tracked calm id s known = started-IsTracked.tracked calm id (ap is_some known)
