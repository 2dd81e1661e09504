-- ===== src/Replay/Game/Counters.antt =====
-- The counters of a seat agree with one another, as long as none can wrap.
pub mod Events
pub mod Whole
use majsoulmanager.Prelude.{
  ℕ, zero, suc, ◌+◌, ◌^◌, ◌≤◌, ◌<◌, ◌≡◌, refl, Bool, true, false, ◌||◌, ◌&&◌, not, List, [], ◌∷◌,
  Option, none, some, arith, ltb, ◌==◌, if◌then◌else◌, Bool-cases, Option-cases, inl, inr, All,
  length,
}
use majsoulmanager.Prelude.Int.{ℤ}
use majsoulmanager.Prelude.Text.{Text, codes}
use majsoulmanager.Json.{Json}
use majsoulmanager.Replay.Stats.{SeatStats, new_seat, GameStats, State, modify, map_from}
use majsoulmanager.Replay.Reading.{Outcome, value, ◌>>=◌, >>=-value, unwrap_or, seat_of, settlement}
use majsoulmanager.Replay.Hands.{
  count_deal, count_riichi, count_chased, count_draw, count_hand, start_kyoku, tsumo, dahai,
  reach_accepted, call, ryukyoku, end_kyoku,
}
use majsoulmanager.Replay.Wins.{
  count_win, count_riichi_win, count_gain, count_deal_in, count_fan, count_settlement, win,
  settle_win, hora, end_game,
}
use majsoulmanager.Replay.Game.{
  is_kind, step, run, set_level, set_score, set_scores, set_placement, place, place_all, seated,
  first_state, finish, is_detailed, replay,
}
use majsoulmanager.Replay.Game.Answers.{replay_inv}

-- The counters of a seat after `n` events, and `d` that may be a deal-in.
pub record IsCounted (n d : ℕ) (s : SeatStats) : Type 0 where
  pub hands : s.hands ≤ n
  pub dealt : s.hands_as_dealer ≤ s.hands
  pub wins : s.wins ≤ n
  pub tsumo : s.wins_tsumo ≤ s.wins
  pub called_wins : s.called_wins ≤ s.wins
  pub riichi_wins : s.riichi_wins ≤ s.wins
  pub ippatsu : s.riichi_ippatsu ≤ s.riichi_wins
  pub ura : s.riichi_ura_hits ≤ s.riichi_wins
  pub deal_ins : s.deal_ins ≤ d
  pub riichi_deal_ins : s.riichi_deal_ins ≤ s.deal_ins
  pub declared : s.riichi ≤ n
  pub first_or_chasing : s.riichi_first + s.riichi_chasing ≡ s.riichi
  pub draws : s.draws ≤ n
  pub tenpai : s.draws_tenpai ≤ s.draws

module _ {A : Type 0} (P Q : A → Type 0) where
  pub All-modify :
      (i : ℕ) (f : A → A) (xs : List A)
      → ((x : A) → P x → Q x)
      → ((x : A) → P x → Q (f x))
      → All P xs
      → All Q (modify i f xs)
  unfolding modify
  All-modify i f [] weak change ps = tt
  All-modify zero f (x ∷ xs) weak change (p, ps) = (change x p, All-weaken xs ps)
    where
      All-weaken : (xs : List A) → All P xs → All Q xs
      All-weaken [] ps = tt
      All-weaken (x ∷ xs) (p, ps) = (weak x p, All-weaken xs ps)
  All-modify (suc i) f (x ∷ xs) weak change (p, ps) = (weak x p, All-modify i f xs weak change ps)

  pub All-map_from :
      (i : ℕ) (f : ℕ → A → A) (xs : List A)
      → ((k : ℕ) (x : A) → P x → Q (f k x))
      → All P xs
      → All Q (map_from i f xs)
  unfolding map_from
  All-map_from i f [] change ps = tt
  All-map_from i f (x ∷ xs) change (p, ps) = (change i x p, All-map_from (i + 1) f xs change ps)

  pub All-mono : (xs : List A) → ((x : A) → P x → Q x) → All P xs → All Q xs
  All-mono [] weak ps = tt
  All-mono (x ∷ xs) weak (p, ps) = (weak x p, All-mono xs weak ps)

module _ {n d : ℕ} {s : SeatStats} (c : IsCounted n d s) where
  pub grown : IsCounted (n + 1) (d + 1) s
  grown = ground arith

  pub grown_wins : IsCounted (n + 1) d s
  grown_wins = ground arith

  pub grown_deal_ins : IsCounted n (d + 1) s
  grown_deal_ins = ground arith

  pub count_chased_lem : (b : Bool) → IsCounted n d (count_chased b s)
  unfolding count_chased
  count_chased_lem true = ground arith
  count_chased_lem false = c

  pub count_hand_lem :
      (delta : ℤ) (declared called : Bool) → IsCounted n d (count_hand delta declared called s)
  unfolding count_hand
  count_hand_lem delta declared called = ground arith

  pub count_riichi_win_le :
      (ippatsu ura : Bool)
      → s.riichi_wins + 1 ≤ s.wins
      → n < 2 ^ 16
      → IsCounted n d (count_riichi_win ippatsu ura s)
  unfolding count_riichi_win
  count_riichi_win_le ippatsu ura room small = ground arith

  pub count_gain_lem : (gain : Option ℤ) (sticks : ℤ) → IsCounted n d (count_gain gain sticks s)
  unfolding count_gain
  count_gain_lem none sticks = c
  count_gain_lem (some gain) sticks = ground arith

  pub count_fan_lem : (fan : Option ℕ) (yakuman : Bool) → IsCounted n d (count_fan fan yakuman s)
  unfolding count_fan
  count_fan_lem none yakuman = c
  count_fan_lem (some fan) yakuman = ground arith

  pub count_settlement_lem : (r : Option (ℤ × ℤ)) → IsCounted n d (count_settlement r s)
  unfolding count_settlement
  count_settlement_lem none = c
  count_settlement_lem (some (a, b)) = ground arith

  module _ (small : n + 1 < 2 ^ 16) where
    pub count_deal_lem : (b : Bool) (streak : ℕ) → IsCounted (n + 1) d (count_deal b streak s)
    unfolding count_deal
    count_deal_lem true streak = ground arith
    count_deal_lem false streak = ground arith

    pub count_riichi_lem : (earlier turn : ℕ) → IsCounted (n + 1) d (count_riichi earlier turn s)
    unfolding count_riichi
    count_riichi_lem earlier turn = ground arith

    pub count_draw_lem : (b : Bool) → IsCounted (n + 1) d (count_draw b s)
    unfolding count_draw
    count_draw_lem true = ground arith
    count_draw_lem false = ground arith

    pub count_win_lem :
        (turn : ℕ) (drawn called : Bool) → IsCounted (n + 1) d (count_win turn drawn called s)
    unfolding count_win
    count_win_lem turn drawn called = ground arith

    pub count_win_room :
        (turn : ℕ) (drawn called : Bool)
        → (count_win turn drawn called s).riichi_wins + 1 ≤ (count_win turn drawn called s).wins
    unfolding count_win
    count_win_room turn drawn called = ground arith

  pub count_deal_in_lem :
      (b : Bool) (loss : Option ℤ) → d + 1 < 2 ^ 16 → IsCounted n (d + 1) (count_deal_in b loss s)
  unfolding count_deal_in
  count_deal_in_lem b loss small = ground arith
