-- ===== src/Replay/Game/Started.antt =====
-- When `replay` of src/replay.rs answers statistics.
use majsoulmanager.Prelude.{
  ℕ, ◌≡◌, Bool, true, false, ◌&&◌, ◌||◌, List, [], ◌∷◌, Option, none, some, arith, leb, ltb,
  Bool-cases, Option-cases, inl, inr, length,
}
use majsoulmanager.Prelude.Text.{codes}
use majsoulmanager.Json.{Json}
use majsoulmanager.Replay.Stats.{EventKind, GameStats, State}
use majsoulmanager.Replay.Reading.{value, >>=-value}
use majsoulmanager.Replay.Hands.{
  is_some, start_kyoku, tsumo, dahai, reach_accepted, call, ryukyoku, end_kyoku,
}
use majsoulmanager.Replay.Wins.{hora, end_game}
use majsoulmanager.Replay.Game.{
  event_kind, is_kind, arm, step, run, seated, first_state, finish, is_detailed, start_names,
  replay,
}

is_deal : EventKind → Bool
is_deal EventKind.start_kyoku = true
is_deal _ = false

-- Some event deals a hand.
unfoldable pub deals : (j : Json) → List j.Value → Bool
deals j [] = false
deals j (event ∷ events) = is_kind j event (codes "start_kyoku") || deals j events

-- The events name two seats at least in their first `start_game`, and deal a hand.
unfoldable pub is_game : (j : Json) → List j.Value → Bool
unfolding deals
is_game j events = elim (start_names j events) [
  | none ↦ false
  | some (start, names) ↦ leb 2 (length names) && deals j events
]

module _ (j : Json) (seats : ℕ) (st : State) (event : j.Value) where
  tsumo-started : (tsumo j seats st event).started ≡ st.started
  unfolding tsumo
  tsumo-started = ground arith

  dahai-started : (dahai j seats st event).started ≡ st.started
  unfolding dahai
  dahai-started = ground arith

  reach_accepted-started : (reach_accepted j seats st event).started ≡ st.started
  unfolding reach_accepted
  reach_accepted-started = ground arith

  end_kyoku-started : (end_kyoku j seats st event).started ≡ st.started
  unfolding end_kyoku
  end_kyoku-started = ground arith

  hora-started : (st' : State) → hora j seats st event ≡ value st' → st'.started ≡ st.started
  unfolding hora
  hora-started st' e = ground (arith, e)

  end_game-started :
      (st' : State) → end_game j seats st event ≡ value st' → st'.started ≡ st.started
  unfolding end_game
  end_game-started st' e = ground (arith, e)

module _ (j : Json) where
  arm-started :
      (k : EventKind) (seats : ℕ) (st : State) (event : j.Value) (st' : State)
      → arm j k seats st event ≡ value st'
      → st'.started ≡ (is_deal k || st.started)
  unfolding arm is_deal
  arm-started EventKind.start_kyoku seats st event st' e = unfold start_kyoku in ground (arith, e)
  arm-started EventKind.tsumo seats st event st' e =
      ground (arith, e, tsumo-started j seats st event)
  arm-started EventKind.dahai seats st event st' e =
      ground (arith, e, dahai-started j seats st event)
  arm-started EventKind.reach_accepted seats st event st' e =
      ground (arith, e, reach_accepted-started j seats st event)
  arm-started EventKind.call seats st event st' e = unfold call in ground (arith, e)
  arm-started EventKind.hora seats st event st' e = hora-started j seats st event st' e
  arm-started EventKind.ryukyoku seats st event st' e = unfold ryukyoku in ground (arith, e)
  arm-started EventKind.end_kyoku seats st event st' e =
      ground (arith, e, end_kyoku-started j seats st event)
  arm-started EventKind.end_game seats st event st' e = end_game-started j seats st event st' e
  arm-started EventKind.other seats st event st' e = ground (arith, e)

  is_deal-event_kind :
      (event : j.Value) → is_deal (event_kind j event) ≡ is_kind j event (codes "start_kyoku")
  unfolding is_deal event_kind
  is_deal-event_kind event = elim (Bool-cases (is_kind j event (codes "start_kyoku"))) [
    | inl deal ↦ ground (arith, deal)
    | inr other ↦ ground (arith, other)
  ]

  run-started :
      (seats : ℕ) (events : List j.Value) (st st' : State)
      → run j seats st events ≡ value st'
      → st'.started ≡ (deals j events || st.started)
  unfolding run deals step
  run-started seats [] st st' e = ground (arith, e)
  run-started seats (event ∷ events) st st' e =
      let (st1, first, rest) = >>=-value (step j seats st event) e in
      let ih = run-started seats events st1 st' rest in
      let one = arm-started (event_kind j event) seats st event st1 first in
      let kind = is_deal-event_kind event in ground (arith, ih, one, kind)

  finish-started : (detailed : Bool) (st : State) → is_some (finish j detailed st) ≡ st.started
  unfolding finish
  finish-started detailed st = elim (Bool-cases st.started) [
    | inl on ↦ ground (arith, on)
    | inr off ↦ ground (arith, off)
  ]

  -- Where replay does not panic, it answers statistics exactly of events whose first start_game has a
  -- list of two names at least and that hold a start_kyoku.
  pub replay-is_game :
      (events : List j.Value) (answer : Option GameStats)
      → replay j events ≡ value answer
      → is_some answer ≡ is_game j events
  unfolding replay is_game
  replay-is_game events answer e = elim (Option-cases (start_names j events)) [
    | inl absent ↦ let e' = rw (absent, replay) at e in rw (absent, is_game) (ground (arith, e'))
    | inr ((start, names), found) ↦
        let e1 = rw (found, replay) at e in
        rw (found, is_game)
          (elim (Bool-cases (ltb (length names) 2)) [
            | inl few ↦ let e2 = rw few at e1 in ground (arith, few, e2)
            | inr enough ↦
                let e2 = rw enough at e1 in
                let (st, ran, ended) =
                  >>=-value (run j (length names) (first_state j (seated j start names)) events)
                    e2 in
                ground (
                  arith,
                  enough,
                  ended,
                  run-started (length names) events (first_state j (seated j start names)) st ran,
                  finish-started (is_detailed j events) st,
                )
          ])
  ]
