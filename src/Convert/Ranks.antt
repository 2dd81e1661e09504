-- ===== src/Convert/Ranks.antt =====
-- `get_dan_name` and `GameMetadata::of` of src/majsoul/convert.rs.
use majsoulmanager.Prelude.{
  ℕ, zero, suc, ◌+◌, ◌-◌, ◌/◌, ◌%◌, ◌≡◌, refl, ◌&&◌, List, [], ◌∷◌, ◌++◌, Option, none, some,
  String, ltb, leb, ◌==◌, if◌then◌else◌,
}
use majsoulmanager.Prelude.Text.{Text, codes}
use majsoulmanager.Modes.{mode_metadata, uuid_year}
use majsoulmanager.Proto.Game.{GameRecord}
use majsoulmanager.Convert.Types.{GameMetadata}

-- A number in decimal, of `fuel` digits at most.
unfoldable pub digits : ℕ → ℕ → Text
digits zero n = []
digits (suc fuel) n =
    let rest = digits fuel (n / 10) in
    if ltb n 10 then (b'0' + n) ∷ [] else rest ++ (b'0' + n % 10) ∷ []

-- A `u32` has ten digits at most.
decimal : ℕ → Text
unfolding digits
decimal n = digits 10 n

-- The three stars of the first five ranks, in either ladder.
abbrev star_names : List (ℕ × String)
star_names =
    (101, "初心★")
    ∷ (102, "雀士★")
    ∷ (103, "雀傑★")
    ∷ (104, "雀豪★")
    ∷ (105, "雀聖★")
    ∷ (201, "初心★")
    ∷ (202, "雀士★")
    ∷ (203, "雀傑★")
    ∷ (204, "雀豪★")
    ∷ (205, "雀聖★")
    ∷ []

find_name : ℕ → List (ℕ × String) → Option Text
find_name n [] = none
find_name n ((m, name) ∷ rest) = if m == n then some (codes name) else find_name n rest

-- The arms in groups, since no level has two: the celestial ranks, their levels, the starred ranks.
unfoldable pub get_dan_name : ℕ → Text
unfolding decimal find_name
get_dan_name level_id =
    if level_id == 10601
    then codes "魂天"
    else if level_id == 20601
    then codes "魂天"
    else if leb 10602 level_id && leb level_id 10620
    then codes "魂天Lv" ++ decimal (level_id - 10600)
    else if leb 10701 level_id && leb level_id 10720
    then codes "魂天Lv" ++ decimal (level_id - 10700)
    else if leb 20602 level_id && leb level_id 20620
    then codes "魂天Lv" ++ decimal (level_id - 20600)
    else if leb 20701 level_id && leb level_id 20720
    then codes "魂天Lv" ++ decimal (level_id - 20700)
    else if leb 1 (level_id % 100) && leb (level_id % 100) 3
    then elim (find_name (level_id / 100) star_names) [
      | some name ↦ name ++ decimal (level_id % 100)
      | none ↦ codes "Rank " ++ decimal level_id
    ]
    else codes "Rank " ++ decimal level_id

third_star : get_dan_name 20303 ≡ codes "雀傑★3"
unfolding get_dan_name
third_star = refl

no_rank : get_dan_name 4294967295 ≡ codes "Rank 4294967295"
unfolding get_dan_name
no_rank = refl

unfoldable pub metadata_of : GameRecord → Option GameMetadata
metadata_of r = elim (mode_metadata r.mode_id) [
  | none ↦ none
  | some (room, (game_length, players)) ↦ elim (uuid_year r.uuid) [
    | none ↦ none
    | some year ↦ some (record {
      mode_id = r.mode_id;
      room = room;
      game_length = game_length;
      players = players;
      year = year;
    })
  ]
]
