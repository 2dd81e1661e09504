-- ===== src/Convert/Bodies.antt =====
-- The events that `events_to_mjai` of src/majsoul/convert.rs answers, with the clock forgotten.
use majsoulmanager.Prelude.{
  ℕ, ◌≡◌, refl, ap, ◌∙◌, List, [], ◌∷◌, ◌++◌, Option, none, some, length, map, arith,
}
use majsoulmanager.Proto.Game.{GameRecord}
use majsoulmanager.Events.Types.{GameEvent}
use majsoulmanager.Convert.Types.{GameMetadata, Body, Mjai}
use majsoulmanager.Convert.Events.{Tracker, no_tracker, translate}
use majsoulmanager.Convert.Stream.{
  timeless, after, stamp, tick, timed_events, start_game, end_game, events_to_mjai,
}

abbrev pub bodies_of : List Mjai → List Body
bodies_of events = map (λ (event : Mjai). event.body) events

bodies_of-append : (xs ys : List Mjai) → bodies_of (xs ++ ys) ≡ bodies_of xs ++ bodies_of ys
bodies_of-append [] ys = refl
bodies_of-append (x ∷ xs) ys = ap (λ bodies. x.body ∷ bodies) (bodies_of-append xs ys)

bodies_of-map :
    (f : Body → Mjai) (bodies : List Body)
    → ((body : Body) → (f body).body ≡ body)
    → bodies_of (map f bodies) ≡ bodies
bodies_of-map f [] h = refl
bodies_of-map f (body ∷ bodies) h = ground (arith, h body, bodies_of-map f bodies h)

bodies_of-stamp :
    (passed_ms : Option ℕ) (previous_ms : ℕ) (bodies : List Body)
    → bodies_of (stamp passed_ms previous_ms bodies) ≡ bodies
unfolding stamp
bodies_of-stamp none previous_ms bodies = bodies_of-map timeless bodies (λ b. refl)
bodies_of-stamp (some passed_ms) previous_ms [] = refl
bodies_of-stamp (some passed_ms) previous_ms (body ∷ bodies) =
    ap (λ rest. body ∷ rest) (bodies_of-map (after 0) bodies (λ b. refl))

-- The bodies of the loop, with the clock forgotten.
unfoldable pub bodies_from : ℕ → Tracker → List (Option ℕ × GameEvent) → List Body
bodies_from n t [] = []
bodies_from n t ((passed_ms, e) ∷ events) =
    (translate n t e).0 ++ bodies_from n (translate n t e).1 events

bodies_of-timed_events :
    (n : ℕ) (t : Tracker) (previous_ms : ℕ) (events : List (Option ℕ × GameEvent))
    → bodies_of (timed_events n t previous_ms events) ≡ bodies_from n t events
unfolding timed_events bodies_from
bodies_of-timed_events n t previous_ms [] = refl
bodies_of-timed_events n t previous_ms ((passed_ms, e) ∷ events) = ground (
  arith,
  bodies_of-append (stamp passed_ms previous_ms (translate n t e).0)
      (timed_events n (translate n t e).1 (tick passed_ms previous_ms) events),
  bodies_of-stamp passed_ms previous_ms (translate n t e).0,
  bodies_of-timed_events n (translate n t e).1 (tick passed_ms previous_ms) events,
)

pub bodies_of-events_to_mjai :
    (r : GameRecord) (events : List (Option ℕ × GameEvent)) (metadata : Option GameMetadata)
    → bodies_of (events_to_mjai r events metadata)
      ≡ start_game r metadata ∷ bodies_from (length r.player_names) no_tracker events
        ++ end_game r.result ∷ []
unfolding events_to_mjai
bodies_of-events_to_mjai r events metadata =
    ap (λ bodies. start_game r metadata ∷ bodies)
      (bodies_of-append (timed_events (length r.player_names) no_tracker 0 events) _
        ∙ ap (λ bodies. bodies ++ end_game r.result ∷ [])
            (bodies_of-timed_events (length r.player_names) no_tracker 0 events))
