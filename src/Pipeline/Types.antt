-- ===== src/Pipeline/Types.antt =====
-- What the worker of src/indexer.rs writes: the rows of src/catalog.rs. What is no code of the
-- repository is one parameter.
use majsoulmanager.Prelude.{ℕ, Bool, List, [], ◌∷◌, Option, if◌then◌else◌}
use majsoulmanager.Prelude.Int.{ℤ}
use majsoulmanager.Prelude.Text.{Text}
use majsoulmanager.Json.{Json}
use majsoulmanager.Mjai.{DateTime}
use majsoulmanager.Kafka.Message.{Writing}
use majsoulmanager.Pack.Format.{Zstd, Uuid, PackLocation}
use majsoulmanager.Proto.Record.{is_empty}
use majsoulmanager.Replay.Stats.{SeatStats, GameStats}
use majsoulmanager.Replay.Reading.{unwrap_or}

-- `sha256_hex` is the digest in hexadecimal digits.
pub record Outside : Type 1 where
  pub json : Json
  pub from_str : Text → Option (json.Value)
  pub from_timestamp : ℤ → Option DateTime
  pub writing : Writing
  pub zstd : Zstd
  pub sha256_hex : List ℕ → Text

pub record PbLocation : Type 0 where
  pub offset : ℕ
  pub compressed_size : ℕ
  pub raw_size : ℕ

pub record Record : Type 0 where
  pub id : Uuid
  pub source : Text
  pub sha256 : Text
  pub received_at : DateTime
  pub played_at : Option DateTime
  pub players : List Text
  pub rule : Option Text
  pub event_count : ℕ
  pub storage : PackLocation
  pub majsoul_pb : Option PbLocation

pub record PlayerGame : Type 0 where
  pub record_id : Uuid
  pub played_at : DateTime
  pub rule : Option Text
  pub seats : ℕ
  pub detailed : Bool
  pub stats : SeatStats

-- `PlayerGame::of`: a seat with no name is dropped. A time is in milliseconds already.
unfoldable pub seat_games : Record → GameStats → List SeatStats → List PlayerGame
seat_games row game [] = []
seat_games row game (stats ∷ rest) =
    let games = seat_games row game rest in
    if is_empty stats.player
    then games
    else record {
      record_id = row.id;
      played_at = unwrap_or row.played_at row.received_at;
      rule = row.rule;
      seats = game.seats;
      detailed = game.detailed;
      stats = stats;
    }
      ∷ games

unfoldable pub player_games_of : Record → GameStats → List PlayerGame
unfolding seat_games
player_games_of row game = seat_games row game game.players
