-- ===== src/Ingest/Topic.antt =====
-- `Kafka::produce_batch` of src/kafka.rs. What the broker answers to the requests is a list.
use majsoulmanager.Prelude.{ℕ, zero, suc, ◌+◌, List, [], ◌∷◌, ◌++◌, map, ◌==◌, if◌then◌else◌, take}
use majsoulmanager.Kafka.{partition_for, produce_chunks}
use majsoulmanager.Kafka.Message.{
  IngestMessage, TopicRecord, KafkaError, Received, Writing, into_record,
}

-- The records of the topic, each with its partition.
abbrev pub TopicRecords : Type 0
TopicRecords = List (ℕ × TopicRecord)

-- A request is acknowledged, or fails where so many of its records landed.
pub data Production : Type 0 where
  acknowledged : Production
  refused : ℕ → Production

abbrev pub in_partition : ℕ → List TopicRecord → TopicRecords
in_partition partition records = map (λ r. (partition, r)) records

-- The requests go out one after another, up to the first that fails.
unfoldable pub send :
    List Production
    → List (ℕ × List TopicRecord)
    → TopicRecords
    → Received (Unit {0}) × TopicRecords
send broker [] topic = (Received.ok tt, topic)
send [] (request ∷ requests) topic = (Received.err KafkaError.timeout, topic)
send (Production.refused n ∷ broker) ((partition, chunk) ∷ requests) topic =
    (Received.err KafkaError.broker, topic ++ in_partition partition (take n chunk))
send (Production.acknowledged ∷ broker) ((partition, chunk) ∷ requests) topic =
    send broker requests (topic ++ in_partition partition chunk)

module _ (w : Writing) (partitions : ℕ) (approximate_size : TopicRecord → ℕ) where
  unfoldable pub routed : ℕ → List IngestMessage → List TopicRecord
  unfolding partition_for into_record
  routed partition [] = []
  routed partition (m ∷ messages) =
      let rest = routed partition messages in
      if partition_for partitions m.record_id == partition then into_record w m ∷ rest else rest

  -- The requests of so many partitions, from one on.
  unfoldable pub requests : ℕ → ℕ → List IngestMessage → List (ℕ × List TopicRecord)
  unfolding routed produce_chunks
  requests partition zero messages = []
  requests partition (suc n) messages =
      map (λ chunk. (partition, chunk))
        (produce_chunks approximate_size (routed partition messages))
      ++ requests (partition + 1) n messages

  unfoldable pub produce_batch :
      List Production → List IngestMessage → TopicRecords → Received (Unit {0}) × TopicRecords
  unfolding send requests
  produce_batch broker messages topic = send broker (requests 0 partitions messages) topic
