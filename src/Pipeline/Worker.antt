-- ===== src/Pipeline/Worker.antt =====
-- `PackWorker` of src/indexer.rs. What the surroundings answer in a turn of its loop is an argument
-- of the turn; the pauses between turns are left out.
use majsoulmanager.Prelude.{
  ℕ, ◌-◌, ◌*◌, ◌^◌, Bool, false, ◌&&◌, ◌||◌, List, [], ◌∷◌, Option, none, some, ltb, leb,
  if◌then◌else◌,
}
use majsoulmanager.Prelude.Text.{Text}
use majsoulmanager.Kafka.{Fetched}
use majsoulmanager.Kafka.Message.{IngestMessage, TopicRecord, Received, from_record}
use majsoulmanager.Pack.Format.{PackError, PackWriter, create}
use majsoulmanager.Replay.Reading.{unwrap_or}
use majsoulmanager.Pipeline.Types.{Outside, Record, PlayerGame}
use majsoulmanager.Pipeline.Packing.{Packed, panic, Open, append_batch}
use majsoulmanager.Pipeline.World.{Call}

-- `pack` is the open pack, a word that is taken here.
pub record Worker : Type 0 where
  pub cursor : ℕ
  pub committed : ℕ
  pub at_end_of_log : Bool
  pub seal_failures : ℕ
  pub pack : Option PackWriter
  pub rows : List Record
  pub player_games : List PlayerGame

-- `start`, with the stored offset.
unfoldable pub start : Option ℕ → Worker
start stored = record {
  cursor = unwrap_or stored 0;
  committed = unwrap_or stored 0;
  at_end_of_log = false;
  seal_failures = 0;
  pack = none;
  rows = [];
  player_games = [];
}

pub data Fetching : Type 0 where
  interrupted failed : Fetching
  brought : Fetched TopicRecord → Fetching

-- The sizes and times of the configuration, in bytes and milliseconds.
pub record Config : Type 0 where
  pub pack_target_bytes : ℕ
  pub pack_max_age : ℕ
  pub pack_idle : ℕ

-- `put` says how many bytes are kept, and whether it is answered.
pub record Answers : Type 0 where
  pub seals : Bool
  pub reads_back : Bool
  pub keeps : Option ℕ
  pub puts : Bool
  pub heads : Bool
  pub inserts : Call
  pub inserts_games : Call
  pub commits : Call

-- `created` is the key of a new staging pack; `elapsed` is the time since its first append.
pub record Turn : Type 0 where
  pub stopping_before : Bool
  pub fetching : Fetching
  pub created : Option Text
  pub stopping : Bool
  pub elapsed : ℕ
  pub answers : Answers

-- What a fetched batch comes to: the task panics, the loop starts anew, or it goes on to the seal.
pub data Taken : Type 0 where
  panics : Taken
  continues goes : Worker → Taken

unfoldable pub discard : Worker → Worker
discard w = record w { pack = none; rows = []; player_games = []; cursor = w.committed }

unfoldable pub should_seal : ℕ → ℕ → ℕ → ℕ → ℕ → Bool → Bool
should_seal size target age max_age idle_age at_end_of_log =
    leb target size || leb max_age age || (at_end_of_log && leb idle_age age)

unfoldable pub pack_is_ready : Config → ℕ → Worker → Bool
unfolding should_seal
pack_is_ready config elapsed w = elim w.pack [
  | none ↦ false
  | some writer ↦
      writer.first_append
      && should_seal writer.size config.pack_target_bytes elapsed config.pack_max_age
          config.pack_idle w.at_end_of_log
]

-- In milliseconds.
unfoldable pub seal_backoff : ℕ → ℕ
seal_backoff failures =
    let doublings = if ltb (failures - 1) 16 then failures - 1 else 16 in
    if ltb (2000 * 2 ^ doublings) 64000 then 2000 * 2 ^ doublings else 64000

abbrev pub of_received : Received IngestMessage → List IngestMessage → List IngestMessage
of_received (Received.err e) messages = messages
of_received (Received.ok m) messages = m ∷ messages

abbrev pub staged : Option PackWriter → Option Text → Packed PackWriter
staged (some writer) created = Packed.ok writer
staged none none = Packed.err PackError.io
staged none (some key) = Packed.ok (create key)

module _ (x : Outside) where
  unfoldable pub decode : List (ℕ × TopicRecord) → List IngestMessage
  decode [] = []
  decode ((offset, r) ∷ records) = of_received (from_record x.writing r) (decode records)

  abbrev pub keep_pack : Worker → Packed Open → Packed Worker
  keep_pack w panic = panic
  keep_pack w (Packed.err e) = Packed.err e
  keep_pack w (Packed.ok o) =
      Packed.ok (record w { pack = some o.writer; rows = o.rows; player_games = o.player_games })

  abbrev pub fill : Worker → List IngestMessage → Packed PackWriter → Packed Worker
  fill w messages panic = panic
  fill w messages (Packed.err e) = Packed.err e
  fill w messages (Packed.ok writer) = keep_pack w (
      append_batch x (record { writer = writer; rows = w.rows; player_games = w.player_games })
        messages)

  unfoldable pub append : Worker → Option Text → List IngestMessage → Packed Worker
  unfolding append_batch create
  append w created [] = Packed.ok w
  append w created (m ∷ messages) = fill w (m ∷ messages) (staged w.pack created)
