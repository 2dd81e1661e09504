-- ===== src/Replay/Game.antt =====
-- `replay` of src/replay.rs: the loop over the events of a game, and the placements. The order of the
-- seats is `sort_by_key` with the key (-score, seat), written as one number.
pub mod Ranks
pub mod Placement
pub mod Counters
pub mod Answers
pub mod Started
pub mod Examples
use majsoulmanager.Prelude.{
  ℕ, zero, suc, ◌+◌, ◌-◌, ◌*◌, ◌%◌, ◌^◌, Bool, true, false, not, ◌&&◌, ◌||◌, List, [], ◌∷◌, Option,
  none, some, ltb, leb, ◌==◌, if◌then◌else◌, get_elem?, get_or, length, map, replicate,
}
use majsoulmanager.Prelude.Int.{ℤ, pos, pos_part, neg_part, ltb_ℤ, wrapping_sub}
use majsoulmanager.Prelude.Sort.{sort_by_key}
use majsoulmanager.Prelude.Text.{Text, codes, text_eq}
use majsoulmanager.Json.{Json}
use majsoulmanager.Replay.Stats.{
  EventKind, SeatStats, new_seat, GameStats, new_hand, State, modify, map_from,
}
use majsoulmanager.Replay.Reading.{Outcome, panic, value, ◌>>=◌, and_then, unwrap_or, kind, levels}
use majsoulmanager.Replay.Hands.{
  is_some, start_kyoku, tsumo, dahai, reach_accepted, call, ryukyoku, end_kyoku,
}
use majsoulmanager.Replay.Wins.{hora, end_game}

-- A number below 2 ^ 32 in the order of the `i32`.
abbrev pub ordinal : ℤ → ℕ
ordinal a = 2 ^ 31 + pos_part a - neg_part a

-- The keys of the order: `-final_score`, then the seat.
unfoldable pub seat_key : ℤ → ℕ → ℕ
seat_key score seat = ordinal (wrapping_sub (pos 0) score) * 2 ^ 64 + seat

unfoldable pub score_of : List SeatStats → ℕ → ℤ
score_of [] seat = pos 0
score_of (s ∷ players) zero = s.final_score
score_of (s ∷ players) (suc seat) = score_of players seat

-- `0..seats`, from an index.
unfoldable pub indices : ℕ → ℕ → List ℕ
indices from zero = []
indices from (suc count) = from ∷ indices (from + 1) count

abbrev pub set_placement : ℕ → SeatStats → SeatStats
set_placement rank s = record s { placement = (rank % 2 ^ 8 + 1) % 2 ^ 8 }

-- `players[seat].placement = rank as u8 + 1` along the order.
unfoldable pub place : ℕ → List ℕ → List SeatStats → List SeatStats
unfolding modify
place rank [] players = players
place rank (seat ∷ order) players =
    place (rank + 1) order (modify seat (set_placement rank) players)

unfoldable pub place_all : List SeatStats → List SeatStats
unfolding place seat_key score_of indices
place_all players =
    place 0
      (sort_by_key (λ seat. seat_key (score_of players seat) seat) (indices 0 (length players)))
      players

abbrev set_score : List ℤ → ℕ → SeatStats → SeatStats
set_score scores seat s = record s {
  final_score = get_or scores seat (pos 0);
  busted = ltb_ℤ (get_or scores seat (pos 0)) (pos 0);
}

unfoldable pub set_scores : List ℤ → List SeatStats → List SeatStats
unfolding map_from
set_scores scores players = map_from 0 (set_score scores) players

unfoldable pub set_level : List ℕ → ℕ → SeatStats → SeatStats
set_level ids seat s = elim (get_elem? ids seat) [
  | none ↦ s
  | some level ↦ record s { level_id = level }
]

module _ (j : Json) where
  open j use {Value, get, as_str, as_array}

  unfoldable pub is_kind : Value → Text → Bool
  unfolding kind
  is_kind event name = elim (kind j event) [ none ↦ false | some k ↦ text_eq k name ]

  unfoldable pub find_start : List Value → Option Value
  unfolding is_kind
  find_start [] = none
  find_start (event ∷ events) =
      let rest = find_start events in
      if is_kind event (codes "start_game") then some event else rest

  unfoldable pub is_detailed : List Value → Bool
  unfolding is_kind
  is_detailed [] = false
  is_detailed (event ∷ events) =
      (if is_kind event (codes "hora")
        then is_some (get event (codes "yaku_ids"))
        else if is_kind event (codes "ryukyoku")
        then is_some (get event (codes "tenpais"))
        else if is_kind event (codes "end_game")
        then is_some (get event (codes "majsoul_result"))
        else false)
      || is_detailed events

  -- The patterns of `match name`; an event without a kind is passed over.
  unfoldable pub event_kind : Value → EventKind
  unfolding is_kind
  event_kind event =
      if is_kind event (codes "start_kyoku")
      then EventKind.start_kyoku
      else if is_kind event (codes "tsumo")
      then EventKind.tsumo
      else if is_kind event (codes "dahai")
      then EventKind.dahai
      else if is_kind event (codes "reach_accepted")
      then EventKind.reach_accepted
      else if is_kind event (codes "pon")
          || is_kind event (codes "chi")
          || is_kind event (codes "daiminkan")
          || is_kind event (codes "kakan")
          || is_kind event (codes "ankan")
      then EventKind.call
      else if is_kind event (codes "hora")
      then EventKind.hora
      else if is_kind event (codes "ryukyoku")
      then EventKind.ryukyoku
      else if is_kind event (codes "end_kyoku")
      then EventKind.end_kyoku
      else if is_kind event (codes "end_game")
      then EventKind.end_game
      else EventKind.other

  unfoldable pub arm : EventKind → ℕ → State → Value → Outcome State
  arm EventKind.start_kyoku seats st event = value (start_kyoku j seats st event)
  arm EventKind.tsumo seats st event = value (tsumo j seats st event)
  arm EventKind.dahai seats st event = value (dahai j seats st event)
  arm EventKind.reach_accepted seats st event = value (reach_accepted j seats st event)
  arm EventKind.call seats st event = value (call j seats st event)
  arm EventKind.hora seats st event = hora j seats st event
  arm EventKind.ryukyoku seats st event = value (ryukyoku j seats st event)
  arm EventKind.end_kyoku seats st event = value (end_kyoku j seats st event)
  arm EventKind.end_game seats st event = end_game j seats st event
  arm EventKind.other seats st event = value st

  unfoldable pub step : ℕ → State → Value → Outcome State
  unfolding event_kind arm
  step seats st event = arm (event_kind event) seats st event

  unfoldable pub run : ℕ → State → List Value → Outcome State
  unfolding step
  run seats st [] = value st
  run seats st (event ∷ events) = do st' ← step seats st event; run seats st' events

  -- The seats of `start_game`, with their names and levels.
  unfoldable pub seated : Value → List Value → List SeatStats
  unfolding map_from levels set_level
  seated start names =
      map_from 0 (set_level (levels j start))
        (map_from 0 (λ seat name. new_seat (seat % 2 ^ 8) (unwrap_or (as_str name) [])) names)

  abbrev pub first_state : List SeatStats → State
  first_state players = record {
    players = players;
    hand = new_hand (length players);
    started = false;
    streak = replicate (length players) 0;
    last_scores = none;
  }

  -- What follows the loop.
  unfoldable pub finish : Bool → State → Option GameStats
  unfolding set_scores place_all
  finish detailed st =
      if st.started
      then some (record {
        seats = length st.players % 2 ^ 8;
        detailed = detailed;
        players = place_all (
            set_scores (unwrap_or st.last_scores (replicate (length st.players) (pos 0)))
              st.players);
      })
      else none

  -- `start.get("names")?.as_array()?` of the first `start_game`.
  unfoldable pub start_names : List Value → Option (Value × List Value)
  unfolding find_start
  start_names events = and_then (find_start events) (λ start.
      and_then (and_then (get start (codes "names")) as_array) (λ names. some (start, names)))

  unfoldable pub replay : List Value → Outcome (Option GameStats)
  unfolding start_names seated run finish is_detailed
  replay events = elim (start_names events) [
    | none ↦ value none
    | some (start, names) ↦ if ltb (length names) 2 then value none else (do
      st ← run (length names) (first_state (seated start names)) events
      value (finish (is_detailed events) st))
  ]
