-- ===== src/Convert/Clock.antt =====
-- The clock of the stream that `events_to_mjai` of src/majsoul/convert.rs answers.
use majsoulmanager.Prelude.{
  ℕ, ◌+◌, ◌-◌, ◌≤◌, ◌≡◌, ◌≢◌, refl, List, [], ◌∷◌, ◌++◌, Option, none, some, length, map, arith,
}
use majsoulmanager.Proto.Game.{GameRecord}
use majsoulmanager.Events.Types.{GameEvent}
use majsoulmanager.Convert.Types.{GameMetadata, Body, Mjai}
use majsoulmanager.Convert.Events.{
  Tracker, no_tracker, accept, new_round, deal_tile, discard_tile, chi_peng_gang, an_gang_add_gang,
  hora, hule, no_tile, liu_ju, ba_bei, translate,
}
use majsoulmanager.Convert.Stream.{
  timeless, after, stamp, tick, timed_events, end_game, events_to_mjai,
}

-- The time of an event: the gaps of the events up to it, and those without a gap took none.
unfoldable pub gap : Option ℕ → ℕ
gap none = 0
gap (some ms) = ms

unfoldable pub total_ms : List Mjai → ℕ
unfolding gap
total_ms [] = 0
total_ms (event ∷ events) = gap event.dt_ms + total_ms events

-- No record is timed before the one that was timed last.
unfoldable pub NeverBack : ℕ → List (Option ℕ × GameEvent) → Type 0
NeverBack previous_ms [] = Unit
NeverBack previous_ms ((passed_ms, event) ∷ events) =
    (previous_ms ≤ tick passed_ms previous_ms) × NeverBack (tick passed_ms previous_ms) events

-- The time of the last record that has one.
unfoldable pub last_ms : ℕ → List (Option ℕ × GameEvent) → ℕ
last_ms previous_ms [] = previous_ms
last_ms previous_ms ((passed_ms, event) ∷ events) = last_ms (tick passed_ms previous_ms) events

total_ms-append : (xs ys : List Mjai) → total_ms (xs ++ ys) ≡ total_ms xs + total_ms ys
unfolding total_ms
total_ms-append [] ys = ground arith
total_ms-append (x ∷ xs) ys = ground (arith, total_ms-append xs ys)

total_ms-timeless : (bodies : List Body) → total_ms (map timeless bodies) ≡ 0
unfolding total_ms
total_ms-timeless [] = refl
total_ms-timeless (body ∷ bodies) = ground (arith, total_ms-timeless bodies)

total_ms-after : (bodies : List Body) → total_ms (map (after 0) bodies) ≡ 0
unfolding total_ms
total_ms-after [] = refl
total_ms-after (body ∷ bodies) = ground (arith, total_ms-after bodies)

append-ne-nil : (xs : List Body) (y : Body) (ys : List Body) → xs ++ y ∷ ys ≢ []
append-ne-nil [] y ys h = ground arith
append-ne-nil (x ∷ xs) y ys h = ground arith

translate-ne-nil : (n : ℕ) (t : Tracker) (e : GameEvent) → (translate n t e).0 ≢ []
unfolding translate new_round deal_tile discard_tile chi_peng_gang an_gang_add_gang hule no_tile
    liu_ju ba_bei
translate-ne-nil n t (GameEvent.new_round nr) h = ground arith
translate-ne-nil n t (GameEvent.deal_tile dt) h = append-ne-nil (accept t.pending_reach) _ _ h
translate-ne-nil n t (GameEvent.discard_tile dt) h = ground arith
translate-ne-nil n t (GameEvent.chi_peng_gang cpg) h = append-ne-nil (accept t.pending_reach) _ _ h
translate-ne-nil n t (GameEvent.an_gang_add_gang ag) h = ground arith
translate-ne-nil n t (GameEvent.hule hu) h = append-ne-nil (map (hora t hu) hu.hules) _ _ h
translate-ne-nil n t (GameEvent.no_tile nt) h = append-ne-nil (accept t.pending_reach) _ _ h
translate-ne-nil n t (GameEvent.liu_ju lj) h = append-ne-nil (accept t.pending_reach) _ _ h
translate-ne-nil n t (GameEvent.ba_bei bb) h = ground arith

total_ms-stamp :
    (passed_ms : Option ℕ) (previous_ms : ℕ) (bodies : List Body)
    → bodies ≢ []
    → total_ms (stamp passed_ms previous_ms bodies) ≡ tick passed_ms previous_ms - previous_ms
unfolding stamp total_ms
total_ms-stamp none previous_ms bodies h = ground (arith, total_ms-timeless bodies)
total_ms-stamp (some passed_ms) previous_ms [] h = ground arith
total_ms-stamp (some passed_ms) previous_ms (body ∷ bodies) h =
    ground (arith, total_ms-after bodies)

total_ms-timed_events :
    (n : ℕ) (t : Tracker) (previous_ms : ℕ) (events : List (Option ℕ × GameEvent))
    → NeverBack previous_ms events
    → previous_ms + total_ms (timed_events n t previous_ms events) ≡ last_ms previous_ms events
unfolding timed_events total_ms last_ms NeverBack
total_ms-timed_events n t previous_ms [] h = ground arith
total_ms-timed_events n t previous_ms ((passed_ms, e) ∷ events) (step, h) = ground (
  arith,
  total_ms-append (stamp passed_ms previous_ms (translate n t e).0)
      (timed_events n (translate n t e).1 (tick passed_ms previous_ms) events),
  total_ms-stamp passed_ms previous_ms (translate n t e).0 (translate-ne-nil n t e),
  total_ms-timed_events n (translate n t e).1 (tick passed_ms previous_ms) events h,
)

-- When no record is timed before the last one that was timed before it, the gaps `dt_ms` of the
-- events that events_to_mjai answers sum to the time of the last timed record, and to 0 when no
-- record is timed.
pub total_ms-events_to_mjai :
    (r : GameRecord) (events : List (Option ℕ × GameEvent)) (metadata : Option GameMetadata)
    → NeverBack 0 events
    → total_ms (events_to_mjai r events metadata) ≡ last_ms 0 events
unfolding events_to_mjai total_ms gap
total_ms-events_to_mjai r events metadata h = ground (
  arith,
  total_ms-append (timed_events (length r.player_names) no_tracker 0 events)
      (timeless (end_game r.result) ∷ []),
  total_ms-timed_events (length r.player_names) no_tracker 0 events h,
)
