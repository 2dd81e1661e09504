-- ===== src/Replay/Wins.antt =====
-- The arms of the loop in `replay` of src/replay.rs for a win and for the end of the game.
use majsoulmanager.Prelude.{
  ℕ, ◌-◌, ◌^◌, Bool, true, false, not, ◌&&◌, List, Option, none, some, ltb, ◌==◌, if◌then◌else◌,
  get_elem?, get_or, length,
}
use majsoulmanager.Prelude.Int.{ℤ, pos, wrapping_add, wrapping_sub, wrapping_mul, wrap_i32}
use majsoulmanager.Prelude.Text.{codes}
use majsoulmanager.Json.{Json}
use majsoulmanager.Proto.Record.{is_empty}
use majsoulmanager.Replay.Stats.{SeatStats, State, inc_u16, add_u32, modify, map_from}
use majsoulmanager.Replay.Reading.{
  Outcome, value, ◌>>=◌, and_then, unwrap_or, or_else, seat_of, array, int_array, settlement,
}
use majsoulmanager.Replay.Dora.{ura_hit, ippatsu}
use majsoulmanager.Replay.Hands.{is_some, count_some}

-- The counters of the winner: its turn, whether it drew the tile itself, and whether it called.
unfoldable pub count_win : ℕ → Bool → Bool → SeatStats → SeatStats
count_win turn drawn called s = record s {
  wins = inc_u16 s.wins;
  win_turns = add_u32 s.win_turns turn;
  wins_tsumo = if drawn then inc_u16 s.wins_tsumo else s.wins_tsumo;
  called_wins = if called then inc_u16 s.called_wins else s.called_wins;
}

-- What a winner that declared adds: whether it was ippatsu, and whether an ura dora hit.
unfoldable pub count_riichi_win : Bool → Bool → SeatStats → SeatStats
count_riichi_win ippatsu ura s = record s {
  riichi_wins = inc_u16 s.riichi_wins;
  riichi_ippatsu = if ippatsu then inc_u16 s.riichi_ippatsu else s.riichi_ippatsu;
  riichi_ura_hits = if ura then inc_u16 s.riichi_ura_hits else s.riichi_ura_hits;
}

-- The winner's delta, less a thousand for each stick.
unfoldable pub count_gain : Option ℤ → ℤ → SeatStats → SeatStats
count_gain none sticks s = s
count_gain (some gain) sticks s = record s {
  win_points = wrapping_add s.win_points (wrapping_sub gain (wrapping_mul (pos 1000) sticks));
}

unfoldable pub count_deal_in : Bool → Option ℤ → SeatStats → SeatStats
count_deal_in declared loss s = record s {
  deal_ins = inc_u16 s.deal_ins;
  riichi_deal_ins = if declared then inc_u16 s.riichi_deal_ins else s.riichi_deal_ins;
  deal_in_points = elim loss [
    | none ↦ s.deal_in_points
    | some l ↦ wrapping_add s.deal_in_points (wrapping_sub (pos 0) l)
  ];
}

-- The value of the hand: `fan`, as a `u16`, and whether it is a yakuman.
unfoldable pub count_fan : Option ℕ → Bool → SeatStats → SeatStats
count_fan none yakuman s = s
count_fan (some fan) yakuman s =
    let han = if ltb fan (2 ^ 16) then fan else 2 ^ 16 - 1 in
    if yakuman
    then record s { yakuman = inc_u16 s.yakuman }
    else record s { max_han = if ltb s.max_han han then han else s.max_han }

unfoldable pub count_settlement : Option (ℤ × ℤ) → SeatStats → SeatStats
count_settlement none s = s
count_settlement (some (point, grading)) s = record s {
  settled_point = point;
  grading_score = grading;
}

-- The scores count only where there is one for each seat.
unfoldable pub end_scores : ℕ → Option (List ℤ) → Option (List ℤ) → Option (List ℤ)
end_scores seats none last = last
end_scores seats (some scores) last = if length scores == seats then some scores else last

module _ (j : Json) (seats : ℕ) (st : State) (event : j.Value) where
  open j use {Value, get, as_u64, as_bool, as_array}

  -- The winner's counters, with what `ura_hit` found.
  unfoldable pub win : ℕ → ℕ → Option (List ℤ) → Bool → Bool → SeatStats → SeatStats
  unfolding count_win count_riichi_win count_gain ippatsu
  win actor target deltas declared ura s =
      let won =
        count_win (get_or st.hand.turns actor 0) (target == actor)
          (get_or st.hand.called actor false) s in
      let scored =
        if declared
        then count_riichi_win (ippatsu j event (get_or st.hand.ippatsu actor false)) ura won
        else won in
      count_gain (and_then deltas (λ d. get_elem? d actor))
        (wrapping_add st.hand.kyotaku (wrap_i32 (pos (count_some st.hand.riichi_turn)))) scored

  -- The loss of the seat that dealt in, and then the winner's hand.
  unfoldable pub settle_win : ℕ → ℕ → Option (List ℤ) → List SeatStats → List SeatStats
  unfolding modify count_deal_in count_fan
  settle_win actor target deltas players =
      let paid =
        if target == actor
        then players
        else modify target
            (count_deal_in (is_some (get_or st.hand.riichi_turn target none))
              (and_then deltas (λ d. get_elem? d target)))
            players in
      modify actor
        (count_fan (and_then (get event (codes "fan")) as_u64)
          (unwrap_or (and_then (get event (codes "yakuman")) as_bool) false))
        paid

  -- The markers are looked at only where the winner declared and there are some.
  unfoldable pub look : Bool → Outcome Bool
  unfolding array ura_hit
  look declared =
      elim (declared && not (is_empty (array j (get event (codes "uradora_markers"))))) [
        | false ↦ value false
        | true ↦ ura_hit j event
      ]

  unfoldable pub hora : Outcome State
  unfolding seat_of int_array modify win settle_win look
  hora = elim (seat_of j event (codes "actor") seats) [
    | none ↦ value st
    | some actor ↦ (do
      let target = unwrap_or (seat_of j event (codes "target") seats) actor
      let deltas = or_else (int_array j (get event (codes "deltas"))) st.hand.deltas
      let declared = is_some (get_or st.hand.riichi_turn actor none)
      ura ← look declared
      value (record st {
        hand = record st.hand { deltas = deltas };
        last_scores = or_else (int_array j (get event (codes "scores"))) st.last_scores;
        players =
            settle_win actor target deltas
              (modify actor (win actor target deltas declared ura) st.players);
      }))
  ]

  unfoldable pub end_game : Outcome State
  unfolding settlement int_array map_from end_scores count_settlement
  end_game = do
    results ← settlement j event
    value (record st {
      last_scores = end_scores seats (int_array j (get event (codes "scores"))) st.last_scores;
      players = map_from 0 (λ seat. count_settlement (get_elem? results seat)) st.players;
    })
