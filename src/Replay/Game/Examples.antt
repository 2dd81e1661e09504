-- ===== src/Replay/Game/Examples.antt =====
-- A two-player game of one riichi and one win, on a small type of values, and the theorems at it.
use majsoulmanager.Prelude.{
  ℕ, ◌+◌, ◌<◌, ◌^◌, ◌≡◌, ◌≢◌, ◌↔◌, refl, true, false, List, [], ◌∷◌, Option, none, some, arith, All,
  map, ltb, if◌then◌else◌,
}
use majsoulmanager.Prelude.Int.{
  ℤ, pos, negsuc, ◌+ℤ◌, ◌-ℤ◌, ◌*ℤ◌, wrapping_add, wrapping_sub, wrapping_mul,
}
use majsoulmanager.Prelude.Text.{Text, codes, text_eq}
use majsoulmanager.Json.{Json}
use majsoulmanager.Replay.Stats.{new_seat, GameStats, SeatStats}
use majsoulmanager.Replay.Reading.{value, panic}
use majsoulmanager.Replay.Dora.{dora_from}
use majsoulmanager.Replay.Dora.Panics.{HasNoFirst, dora_from-panic_iff, dora_from-next}
use majsoulmanager.Replay.Game.Started.{is_game, replay-is_game}
use majsoulmanager.Replay.Hands.{is_some, start_kyoku, tsumo, reach_accepted, end_kyoku}
use majsoulmanager.Replay.Wins.{hora}
use majsoulmanager.Prelude.Sort.{sort_by_key}
use majsoulmanager.Replay.Game.{replay}
use majsoulmanager.Replay.Game.Placement.{placement_of, ahead}
use majsoulmanager.Replay.Game.Answers.{replay-placement}
use majsoulmanager.Replay.Game.Counters.{IsCounted}
use majsoulmanager.Replay.Game.Counters.Whole.{replay-IsCounted}

-- A text, a number, a list of texts or numbers, or an object of such.
data Scalar : Type 0 where
  text : Text → Scalar
  num : ℤ → Scalar
  list : List ℤ → Scalar
  names : List Text → Scalar
  object : List (Text × ℤ) → Scalar

data Small : Type 0 where
  scalar : Scalar → Small
  event : List (Text × Scalar) → Small

find_field : Text → List (Text × Scalar) → Option Small
find_field k [] = none
find_field k ((f, v) ∷ fs) =
    let rest = find_field k fs in if text_eq f k then some (scalar v) else rest

get_small : Small → Text → Option Small
unfolding find_field
get_small (event fields) k = find_field k fields
get_small (scalar s) k = none

as_u64_small : Small → Option ℕ
as_u64_small (scalar (num (pos n))) = if ltb n (2 ^ 64) then some n else none
as_u64_small _ = none

as_i64_small : Small → Option ℤ
as_i64_small (scalar (num n)) = some n
as_i64_small _ = none

as_str_small : Small → Option Text
as_str_small (scalar (text t)) = some t
as_str_small _ = none

as_array_small : Small → Option (List Small)
as_array_small (scalar (list ns)) = some (map (λ n. scalar (num n)) ns)
as_array_small (scalar (names ts)) = some (map (λ t. scalar (text t)) ts)
as_array_small _ = none

as_u64_small-lt : (v : Small) (n : ℕ) → as_u64_small v ≡ some n → n < 2 ^ 64
unfolding as_u64_small
as_u64_small-lt (scalar (num (pos k))) n h = ground (arith, h)
as_u64_small-lt (scalar (num (negsuc k))) n h = absurd (ground (arith, h))
as_u64_small-lt (scalar (text t)) n h = absurd (ground (arith, h))
as_u64_small-lt (scalar (list t)) n h = absurd (ground (arith, h))
as_u64_small-lt (scalar (names t)) n h = absurd (ground (arith, h))
as_u64_small-lt (scalar (object t)) n h = absurd (ground (arith, h))
as_u64_small-lt (event fs) n h = absurd (ground (arith, h))

abbrev small : Json
small = record {
  Value = Small;
  get = get_small;
  as_str = as_str_small;
  as_u64 = as_u64_small;
  as_i64 = as_i64_small;
  as_bool = λ v. none;
  as_array = as_array_small;
  is_object = λ v. true;
  to_string = λ v. [];
  as_u64-lt = as_u64_small-lt;
}

abbrev named : Text → List (Text × Scalar) → Small
named kind fields = event ((codes "type", text kind) ∷ fields)

abbrev seat_1 : Text × Scalar
seat_1 = (codes "actor", num (pos 1))

abbrev game : List Small
game =
    named (codes "start_game") ((codes "names", names (codes "a" ∷ codes "b" ∷ [])) ∷ [])
    ∷ named (codes "start_kyoku") ((codes "oya", num (pos 0)) ∷ [])
    ∷ named (codes "tsumo") (seat_1 ∷ [])
    ∷ named (codes "reach_accepted") (seat_1 ∷ [])
    ∷ named (codes "hora") (
        seat_1
        ∷ (codes "target", num (pos 0))
        ∷ (codes "deltas", list (negsuc 999 ∷ pos 2000 ∷ []))
        ∷ (codes "scores", list (pos 24000 ∷ pos 26000 ∷ []))
        ∷ [])
    ∷ named (codes "end_kyoku") []
    ∷ []

abbrev loser : SeatStats
loser = record (new_seat 0 (codes "a")) {
  placement = 2;
  final_score = pos 24000;
  hands = 1;
  hands_as_dealer = 1;
  max_dealer_streak = 1;
  net_points = negsuc 999;
  deal_ins = 1;
  deal_in_points = pos 1000;
}

-- The winner's two thousand are its own stick and a thousand won.
abbrev winner : SeatStats
winner = record (new_seat 1 (codes "b")) {
  placement = 1;
  final_score = pos 26000;
  hands = 1;
  net_points = pos 1000;
  wins = 1;
  win_points = pos 1000;
  win_turns = 1;
  riichi = 1;
  riichi_wins = 1;
  riichi_turns = 1;
  riichi_first = 1;
  riichi_net = pos 1000;
  riichi_ippatsu = 1;
}

abbrev stats : GameStats
stats = record { seats = 2; detailed = false; players = loser ∷ winner ∷ [] }

two_player_run : replay small game ≡ value (some stats)
unfolding replay start_kyoku tsumo reach_accepted hora end_kyoku get_small as_str_small as_u64_small
    as_i64_small as_array_small text_eq sort_by_key ◌+ℤ◌ ◌-ℤ◌ ◌*ℤ◌ wrapping_add wrapping_sub
    wrapping_mul
two_player_run = refl

replay-placement_example : placement_of stats.players 1 ≡ ahead stats.players 1 + 1
replay-placement_example =
    replay-placement small game stats 1 two_player_run (omega arith) (omega arith) (omega arith)

replay-IsCounted_example : All (IsCounted 6 6) stats.players
replay-IsCounted_example = replay-IsCounted small game stats two_player_run (omega arith)

replay-is_game_example : is_some (some stats) ≡ is_game small game
replay-is_game_example = replay-is_game small game (some stats) two_player_run

-- The marker "rr" has nothing left to read a number of.
dora_from-panic_iff_example : (dora_from (codes "rr") ≡ panic) ↔ HasNoFirst (codes "rr")
dora_from-panic_iff_example = dora_from-panic_iff (codes "rr")

abbrev five : ℕ
five = b'5'

abbrev nine : ℕ
nine = b'9'

abbrev red : ℕ
red = b'r'

suit_m : b'm' ≢ red
suit_m = omega arith

-- A red five of the first suit.
dora_from-next_example :
    (five ≢ nine → dora_from (codes "5mr") ≡ value (some (codes "6m")))
    × (five ≡ nine → dora_from (codes "5mr") ≡ value (some (codes "1m")))
    × (map dora_from
          (codes "E" ∷ codes "S" ∷ codes "W" ∷ codes "N" ∷ codes "P" ∷ codes "F" ∷ codes "C" ∷ [])
        ≡ map
            (λ tile. value (some tile))
            (codes "S"
              ∷ codes "W"
              ∷ codes "N"
              ∷ codes "E"
              ∷ codes "F"
              ∷ codes "C"
              ∷ codes "P"
              ∷ []))
dora_from-next_example = dora_from-next b'5' b'm' 1 (omega arith) (omega arith) (omega arith) suit_m

rr_panics : dora_from (codes "rr") ≡ panic
unfolding dora_from text_eq
rr_panics = refl
