-- ===== src/Replay/Hands.antt =====
-- The arms of the loop in `replay` of src/replay.rs for the deal, the turns, the calls and a draw.
use majsoulmanager.Prelude.{
  ℕ, ◌+◌, Bool, true, false, not, ◌&&◌, List, [], ◌∷◌, Option, none, some, ltb, ◌==◌, if◌then◌else◌,
  get_elem?, get_or, set, map,
}
use majsoulmanager.Prelude.Int.{ℤ, pos, wrapping_add, wrapping_sub}
use majsoulmanager.Prelude.Text.{codes}
use majsoulmanager.Json.{Json}
use majsoulmanager.Replay.Stats.{SeatStats, new_hand, State, inc_u16, add_u32, modify, map_from}
use majsoulmanager.Replay.Reading.{and_then, unwrap_or, or_else, i32_or_zero, seat_of, int_array}

abbrev pub is_some {ℓ} : {A : Type ℓ} → Option A → Bool
is_some none = false
is_some (some a) = true

abbrev max_of : ℕ → ℕ → ℕ
max_of a b = if ltb a b then b else a

-- The counters of a seat at the deal: whether it is the dealer, and its streak.
unfoldable pub count_deal : Bool → ℕ → SeatStats → SeatStats
count_deal false streak s = record s { hands = inc_u16 s.hands }
count_deal true streak s = record s {
  hands = inc_u16 s.hands;
  hands_as_dealer = inc_u16 s.hands_as_dealer;
  max_dealer_streak = max_of s.max_dealer_streak streak;
}

unfoldable pub count_some {ℓ} : {A : Type ℓ} → List (Option A) → ℕ
count_some [] = 0
count_some (none ∷ xs) = count_some xs
count_some (some a ∷ xs) = count_some xs + 1

-- The counters of the seat that declares: how many declared before it, and its turn.
unfoldable pub count_riichi : ℕ → ℕ → SeatStats → SeatStats
count_riichi earlier turn s =
    if earlier == 0
    then record s {
      riichi = inc_u16 s.riichi;
      riichi_turns = add_u32 s.riichi_turns turn;
      riichi_first = inc_u16 s.riichi_first;
    }
    else record s {
      riichi = inc_u16 s.riichi;
      riichi_turns = add_u32 s.riichi_turns turn;
      riichi_chasing = inc_u16 s.riichi_chasing;
    }

unfoldable pub count_chased : Bool → SeatStats → SeatStats
count_chased false s = s
count_chased true s = record s { riichi_chased = inc_u16 s.riichi_chased }

unfoldable pub count_draw : Bool → SeatStats → SeatStats
count_draw false s = record s { draws = inc_u16 s.draws }
count_draw true s = record s { draws = inc_u16 s.draws; draws_tenpai = inc_u16 s.draws_tenpai }

-- The counters of a seat at the end of a hand: its delta, and whether it declared and called.
unfoldable pub count_hand : ℤ → Bool → Bool → SeatStats → SeatStats
count_hand delta declared called s =
    let movement = wrapping_sub delta (if declared then pos 1000 else pos 0) in
    record s {
      net_points = wrapping_add s.net_points movement;
      riichi_net = if declared then wrapping_add s.riichi_net movement else s.riichi_net;
      called = if called then inc_u16 s.called else s.called;
    }

-- Whether the `seat`th of `tenpais` is `true`.
unfoldable pub is_tenpai : (j : Json) → Option (List j.Value) → ℕ → Bool
is_tenpai j tenpais seat =
    unwrap_or (and_then (and_then tenpais (λ list. get_elem? list seat)) j.as_bool) false

module _ (j : Json) (seats : ℕ) (st : State) (event : j.Value) where
  open j use {Value, get, as_u64, as_i64, as_bool, as_array}

  unfoldable pub start_kyoku : State
  unfolding int_array count_deal map_from
  start_kyoku =
      let dealer = unwrap_or (and_then (get event (codes "oya")) as_u64) 0 in
      let streak = map_from 0 (λ seat n. if seat == dealer then inc_u16 n else 0) st.streak in
      record {
        players =
            map_from 0 (λ seat. count_deal (seat == dealer) (get_or streak seat 0)) st.players;
        hand = record (new_hand seats) {
          dealer = dealer;
          kyotaku = i32_or_zero (and_then (get event (codes "kyotaku")) as_i64);
        };
        started = true;
        streak = streak;
        last_scores = or_else (int_array j (get event (codes "scores"))) st.last_scores;
      }

  unfoldable pub tsumo : State
  unfolding modify seat_of
  tsumo = elim (seat_of j event (codes "actor") seats) [
    | none ↦ st
    | some seat ↦ record st { hand = record st.hand { turns = modify seat inc_u16 st.hand.turns } }
  ]

  unfoldable pub dahai : State
  unfolding modify seat_of
  dahai = elim (seat_of j event (codes "actor") seats) [
    | none ↦ st
    | some seat ↦
        if is_some (get_or st.hand.riichi_turn seat none)
        then record st { hand = record st.hand { ippatsu = set st.hand.ippatsu seat false } }
        else st
  ]

  unfoldable pub reach_accepted : State
  unfolding modify map_from seat_of count_some count_riichi count_chased
  reach_accepted = elim (seat_of j event (codes "actor") seats) [
    | none ↦ st
    | some seat ↦
        let turn = get_or st.hand.turns seat 0 in
        let earlier = count_some st.hand.riichi_turn in
        let declared = set st.hand.riichi_turn seat (some turn) in
        let players = modify seat (count_riichi earlier turn) st.players in
        if is_some (get_or st.hand.riichi_turn seat none) then st else record st {
          hand = record st.hand { riichi_turn = declared; ippatsu = set st.hand.ippatsu seat true };
          players =
              if earlier == 0
              then players
              else map_from 0
                  (λ other.
                    count_chased (not (other == seat) && is_some (get_or declared other none)))
                  players;
        }
  ]

  -- "pon", "chi", "daiminkan", "kakan" and "ankan".
  unfoldable pub call : State
  unfolding seat_of
  call =
      let called : List Bool = elim (seat_of j event (codes "actor") seats) [
        | none ↦ st.hand.called
        | some seat ↦ set st.hand.called seat true
      ] in
      record st {
        hand = record st.hand { called = called; ippatsu = map (λ alive. false) st.hand.ippatsu };
      }

  unfoldable pub ryukyoku : State
  unfolding int_array count_draw map_from is_tenpai
  ryukyoku =
      let tenpais = and_then (get event (codes "tenpais")) as_array in
      record st {
        hand = record st.hand {
          deltas = or_else (int_array j (get event (codes "deltas"))) st.hand.deltas;
        };
        last_scores = or_else (int_array j (get event (codes "scores"))) st.last_scores;
        players = map_from 0 (λ seat. count_draw (is_tenpai j tenpais seat)) st.players;
      }

  unfoldable pub end_kyoku : State
  unfolding count_hand map_from
  end_kyoku =
      let deltas = unwrap_or st.hand.deltas [] in
      if st.started
      then record st {
        hand = record st.hand { deltas = none };
        players =
            map_from 0
              (λ seat.
                count_hand (get_or deltas seat (pos 0))
                  (is_some (get_or st.hand.riichi_turn seat none))
                  (get_or st.hand.called seat false))
              st.players;
      }
      else st
