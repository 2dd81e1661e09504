-- ===== src/Ingest.antt =====
-- The ingest half of src/indexer.rs: a record is claimed in the catalog, produced to the topic, and
-- its claim released where that fails. A claim is found by its key, which stands for the key's digest.
pub mod Table
pub mod Topic
pub mod Delivery
pub mod Requests
pub mod Released
pub mod Claims
pub mod Backed
pub mod Single
pub mod Promises
mod Examples
use majsoulmanager.Prelude.{
  ℕ, Bool, true, false, List, [], ◌∷◌, ◌++◌, Option, none, some, leb, if◌then◌else◌, take, drop,
}
use majsoulmanager.Prelude.Text.{Text, codes}
use majsoulmanager.Proto.Record.{is_empty}
use majsoulmanager.Mjai.{DateTime, Metadata, ParseError, Parsed, parse_metadata}
use majsoulmanager.Kafka.Message.{IngestMessage, TopicRecord, KafkaError, Received}
use majsoulmanager.Pack.Format.{Uuid}
use majsoulmanager.Pipeline.Types.{Outside, Record}
use majsoulmanager.Ingest.Table.{
  Claim, KeyScope, CatalogError, IdempotencyClaim, Reply, Statement, Statements, claim_key,
  abandon_claim,
}
use majsoulmanager.Ingest.Topic.{TopicRecords, Production, produce_batch}

pub data IngestError : Type 0 where
  malformed : ParseError → IngestError
  catalog : CatalogError → IngestError
  produce : KafkaError → IngestError
  backlogged : ℕ → IngestError

pub data Ingested (A : Type 0) : Type 0 where
  err : IngestError → Ingested A
  ok : A → Ingested A

pub record Claimed : Type 0 where
  pub id : Uuid
  pub sha256 : Text
  pub key : Text
  pub message : Option IngestMessage

unfoldable pub game_scope_key : Text → Text
game_scope_key majsoul_uuid = codes "majsoul-watch" ++ 0 ∷ majsoul_uuid

-- What a caller hands over, with the id and the time that the process draws.
pub record Submission : Type 0 where
  pub source : Text
  pub idempotency_key : Text
  pub played_at : Option DateTime
  pub raw : List ℕ
  pub majsoul_pb : Option (List ℕ)
  pub new_v4 : Uuid
  pub now : DateTime

unfoldable pub key_of : Submission → Option Text → Text × KeyScope
unfolding game_scope_key
key_of s none = (s.source ++ 0 ∷ s.idempotency_key, KeyScope.caller)
key_of s (some uuid) = (game_scope_key uuid, KeyScope.game)

-- `IngestMessage::new`; a time is in milliseconds.
unfoldable pub new_message : Submission → IngestMessage
new_message s = record {
  record_id = s.new_v4;
  source = s.source;
  played_at = s.played_at;
  raw = s.raw;
  majsoul_pb = s.majsoul_pb;
  received_at = s.now;
}

module _ (x : Outside) where
  abbrev pub claimed_as : Submission → Text → Reply IdempotencyClaim → Ingested Claimed
  claimed_as s key (Reply.err e) = err (IngestError.catalog e)
  claimed_as s key (Reply.ok (IdempotencyClaim.existing id)) =
      ok (record { id = id; sha256 = x.sha256_hex s.raw; key = key; message = none })
  claimed_as s key (Reply.ok IdempotencyClaim.new) = ok (record {
    id = s.new_v4;
    sha256 = x.sha256_hex s.raw;
    key = key;
    message = some (new_message s);
  })

  unfoldable pub claim_parsed :
      Statements → Submission → Parsed Metadata → List Claim → Ingested Claimed × List Claim
  unfolding claim_key key_of new_message
  claim_parsed sql s (Parsed.err e) table = (err (IngestError.malformed e), table)
  claim_parsed sql s (Parsed.ok metadata) table =
      let scoped = key_of s metadata.majsoul_uuid in
      let answer = claim_key sql scoped.0 s.new_v4 (x.sha256_hex s.raw) scoped.1 table in
      (claimed_as s scoped.0 answer.0, answer.1)

  unfoldable pub claim :
      ℕ → ℕ → Statements → Submission → List Claim → Ingested Claimed × List Claim
  unfolding claim_parsed parse_metadata
  claim lag max_lag sql s table =
      let claimed =
        claim_parsed sql s (parse_metadata x.json x.from_str x.from_timestamp s.raw) table in
      if leb max_lag lag then (err (IngestError.backlogged lag), table) else claimed

-- The keys and the messages of those that are no duplicates.
unfoldable pub messages_of : List Claimed → List IngestMessage
messages_of [] = []
messages_of (c ∷ claimed) = elim c.message [
  | none ↦ messages_of claimed
  | some m ↦ m ∷ messages_of claimed
]

unfoldable pub keys_of : List Claimed → List (Text × Uuid)
keys_of [] = []
keys_of (c ∷ claimed) = elim c.message [
  | none ↦ keys_of claimed
  | some m ↦ (c.key, m.record_id) ∷ keys_of claimed
]

-- An error of a release is only reported.
unfoldable pub abandon_all : (Text → Statement) → List (Text × Uuid) → List Claim → List Claim
unfolding abandon_claim
abandon_all sql [] table = table
abandon_all sql ((key, id) ∷ keys) table =
    abandon_all sql keys (abandon_claim (sql key) key id table)

-- `abandon_claimed`: the id of a claim is that of its message.
unfoldable pub abandon_claimed : (Text → Statement) → List Claimed → List Claim → List Claim
unfolding abandon_all keys_of
abandon_claimed sql claimed table = abandon_all sql (keys_of claimed) table

abbrev pub after_produce :
    (Text → Statement)
    → List Claimed
    → List Claim
    → Received (Unit {0}) × TopicRecords
    → Ingested (Unit {0}) × List Claim × TopicRecords
after_produce sql claimed table (Received.ok done, topic) = (ok done, table, topic)
after_produce sql claimed table (Received.err e, topic) =
    (err (IngestError.produce e), abandon_all sql (keys_of claimed) table, topic)

module _ (x : Outside) (partitions : ℕ) (approximate_size : TopicRecord → ℕ) where
  unfoldable pub produce_claimed :
      List Production
      → (Text → Statement)
      → List Claimed
      → List Claim
      → TopicRecords
      → Ingested (Unit {0}) × List Claim × TopicRecords
  unfolding produce_batch messages_of abandon_all keys_of
  produce_claimed broker sql claimed table topic =
      let messages = messages_of claimed in
      let produced =
        after_produce sql claimed table
          (produce_batch x.writing partitions approximate_size broker messages topic) in
      if is_empty messages then (ok tt, table, topic) else produced
