-- ===== src/Pipeline/Packing.antt =====
-- `append_batch` of src/indexer.rs: the records of a batch, each into the pack and as a row.
pub mod Batch
pub mod Rows
pub mod Stored
use majsoulmanager.Prelude.{ℕ, List, [], ◌∷◌, ◌++◌, Option, none, some}
use majsoulmanager.Prelude.Text.{Text}
use majsoulmanager.Mjai.{Metadata, Parsed, events, parse_metadata}
use majsoulmanager.Kafka.Message.{IngestMessage}
use majsoulmanager.Pack.Format.{PackError, Result, Uuid, PackWriter, PackLocation, append}
use majsoulmanager.Replay.Reading.{Outcome, or_else}
use majsoulmanager.Replay.Stats.{GameStats}
use majsoulmanager.Replay.Game.{replay}
use majsoulmanager.Pipeline.Types.{Outside, Record, PbLocation, PlayerGame, player_games_of}

-- What a batch comes to; `panic` is a Rust panic, in the statistics.
pub data Packed {ℓ} (A : Type ℓ) : Type ℓ where
  panic : Packed A
  err : PackError → Packed A
  ok : A → Packed A

infixl 5 ◌>>=◌
abbrev pub ◌>>=◌ {ℓ κ} : {B : Type κ} {A : Type ℓ} → Packed A → (A → Packed B) → Packed B
panic >>= next = panic
err e >>= next = err e
ok a >>= next = next a

-- `append` is never stuck.
abbrev pub of_pack {ℓ} : {A : Type ℓ} → Result A → Packed A
of_pack Result.stuck = panic
of_pack (Result.err e) = err e
of_pack (Result.ok a) = ok a

-- The pack that is being filled, with its rows.
pub record Open : Type 0 where
  pub writer : PackWriter
  pub rows : List Record
  pub player_games : List PlayerGame

abbrev pb_location : PackLocation → PbLocation
pb_location stored = record {
  offset = stored.offset;
  compressed_size = stored.compressed_size;
  raw_size = stored.raw_size;
}

module _ (x : Outside) where
  unfoldable pub metadata_for : List ℕ → Parsed Metadata
  metadata_for raw = parse_metadata x.json x.from_str x.from_timestamp raw

  unfoldable pub append_pb :
      PackWriter → Uuid → Option (List ℕ) → Packed (PackWriter × Option PbLocation)
  append_pb writer id none = ok (writer, none)
  append_pb writer id (some pb) = do
    (writer', stored) ← of_pack (append x.zstd writer id pb)
    ok (writer', some (pb_location stored))

  -- `mjai::events(..).unwrap_or_default()`
  abbrev or_default : Parsed (List (x.json.Value)) → List (x.json.Value)
  or_default (Parsed.err e) = []
  or_default (Parsed.ok values) = values

  abbrev games_of : Record → Outcome (Option GameStats) → Packed (List PlayerGame)
  games_of row Outcome.panic = panic
  games_of row (Outcome.value none) = ok []
  games_of row (Outcome.value (some game)) = ok (player_games_of row game)

  unfoldable pub score : Record → List ℕ → Packed (List PlayerGame)
  score row raw =
      games_of row (replay x.json (or_default (events x.json x.from_str x.from_timestamp raw)))

  unfoldable pub row_of : IngestMessage → Metadata → PackLocation → Option PbLocation → Record
  row_of m metadata location pb = record {
    id = m.record_id;
    source = m.source;
    sha256 = x.sha256_hex m.raw;
    received_at = m.received_at;
    played_at = or_else m.played_at metadata.played_at;
    players = metadata.players;
    rule = metadata.rule;
    event_count = metadata.event_count;
    storage = location;
    majsoul_pb = pb;
  }

  unfoldable pub append_parsed : Open → IngestMessage → Metadata → Packed Open
  unfolding append_pb score row_of
  append_parsed o m metadata = do
    (writer, location) ← of_pack (append x.zstd o.writer m.record_id m.raw)
    (writer', pb) ← append_pb writer m.record_id m.majsoul_pb
    let row = row_of m metadata location pb
    games ← score row m.raw
    ok (record {
      writer = writer';
      rows = o.rows ++ row ∷ [];
      player_games = o.player_games ++ games;
    })

  -- A message that does not parse is skipped.
  unfoldable pub append_read : Open → IngestMessage → Parsed Metadata → Packed Open
  unfolding append_parsed
  append_read o m (Parsed.err e) = ok o
  append_read o m (Parsed.ok metadata) = append_parsed o m metadata

  unfoldable pub append_batch : Open → List IngestMessage → Packed Open
  unfolding append_read metadata_for
  append_batch o [] = ok o
  append_batch o (m ∷ messages) = do
    o' ← append_read o m (metadata_for m.raw)
    append_batch o' messages
