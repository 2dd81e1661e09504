-- ===== src/Replay/Stats.antt =====
-- The state of src/replay.rs: the counters of a seat, the game, and the hand that is played. A
-- counter of 16 or 32 bits wraps, as in a release build.
use majsoulmanager.Prelude.{
  ℕ, zero, suc, ◌+◌, ◌%◌, ◌^◌, Bool, false, List, [], ◌∷◌, Option, none, replicate,
}
use majsoulmanager.Prelude.Int.{ℤ, pos}
use majsoulmanager.Prelude.Text.{Text}

pub record SeatStats : Type 0 where
  pub seat : ℕ
  pub player : Text
  pub placement : ℕ
  pub final_score : ℤ
  pub settled_point : ℤ
  pub grading_score : ℤ
  pub level_id : ℕ
  pub busted : Bool
  pub hands : ℕ
  pub hands_as_dealer : ℕ
  pub max_dealer_streak : ℕ
  pub net_points : ℤ
  pub wins : ℕ
  pub wins_tsumo : ℕ
  pub win_points : ℤ
  pub win_turns : ℕ
  pub deal_ins : ℕ
  pub deal_in_points : ℤ
  pub riichi : ℕ
  pub riichi_wins : ℕ
  pub riichi_deal_ins : ℕ
  pub riichi_turns : ℕ
  pub riichi_first : ℕ
  pub riichi_chasing : ℕ
  pub riichi_chased : ℕ
  pub riichi_net : ℤ
  pub called : ℕ
  pub called_wins : ℕ
  pub draws : ℕ
  pub draws_tenpai : ℕ
  pub riichi_ippatsu : ℕ
  pub riichi_ura_hits : ℕ
  pub yakuman : ℕ
  pub max_han : ℕ

-- `SeatStats::default()` with a seat and a name.
abbrev pub new_seat : ℕ → Text → SeatStats
new_seat seat player = record {
  seat = seat;
  player = player;
  placement = 0;
  final_score = pos 0;
  settled_point = pos 0;
  grading_score = pos 0;
  level_id = 0;
  busted = false;
  hands = 0;
  hands_as_dealer = 0;
  max_dealer_streak = 0;
  net_points = pos 0;
  wins = 0;
  wins_tsumo = 0;
  win_points = pos 0;
  win_turns = 0;
  deal_ins = 0;
  deal_in_points = pos 0;
  riichi = 0;
  riichi_wins = 0;
  riichi_deal_ins = 0;
  riichi_turns = 0;
  riichi_first = 0;
  riichi_chasing = 0;
  riichi_chased = 0;
  riichi_net = pos 0;
  called = 0;
  called_wins = 0;
  draws = 0;
  draws_tenpai = 0;
  riichi_ippatsu = 0;
  riichi_ura_hits = 0;
  yakuman = 0;
  max_han = 0;
}

pub record GameStats : Type 0 where
  pub seats : ℕ
  pub detailed : Bool
  pub players : List SeatStats

pub record Hand : Type 0 where
  pub dealer : ℕ
  pub kyotaku : ℤ
  pub turns : List ℕ
  pub riichi_turn : List (Option ℕ)
  pub ippatsu : List Bool
  pub called : List Bool
  pub deltas : Option (List ℤ)

abbrev pub new_hand : ℕ → Hand
new_hand seats = record {
  dealer = 0;
  kyotaku = pos 0;
  turns = replicate seats 0;
  riichi_turn = replicate seats none;
  ippatsu = replicate seats false;
  called = replicate seats false;
  deltas = none;
}

-- The names of events that `replay` tells apart; `call` is any of five.
pub data EventKind : Type 0 where
  start_kyoku tsumo dahai reach_accepted call hora ryukyoku end_kyoku end_game other : EventKind

-- The variables of the loop in `replay`.
pub record State : Type 0 where
  pub players : List SeatStats
  pub hand : Hand
  pub started : Bool
  pub streak : List ℕ
  pub last_scores : Option (List ℤ)

-- `+= 1` on a `u16`, and `+=` on a `u32`.
abbrev pub inc_u16 : ℕ → ℕ
inc_u16 n = (n + 1) % 2 ^ 16

abbrev pub add_u32 : ℕ → ℕ → ℕ
add_u32 a b = (a + b) % 2 ^ 32

-- `players[seat]` changed; the seats are in range wherever the code indexes.
unfoldable pub modify {ℓ} : {A : Type ℓ} → ℕ → (A → A) → List A → List A
modify i f [] = []
modify zero f (x ∷ xs) = f x ∷ xs
modify (suc i) f (x ∷ xs) = x ∷ modify i f xs

-- `iter_mut().enumerate()`, from an index.
unfoldable pub map_from {ℓ κ} : {A : Type ℓ} {B : Type κ} → ℕ → (ℕ → A → B) → List A → List B
map_from i f [] = []
map_from i f (x ∷ xs) = f i x ∷ map_from (i + 1) f xs
