-- ===== src/Ingest/Single.antt =====
-- `ingest_one` and `reindex_one` of src/indexer.rs, and what their answers promise.
use majsoulmanager.Prelude.{
  ℕ, ◌<◌, ◌≡◌, inl, inr, refl, sym, subst, ap, ◌∙◌, Bool, true, false, List, [], ◌∷◌, Option, none,
  some, leb, Any, Bool-cases, arith,
}
use majsoulmanager.Prelude.Text.{Text}
use majsoulmanager.Proto.Record.{is_empty}
use majsoulmanager.Mjai.{Metadata, Parsed, parse_metadata}
use majsoulmanager.Kafka.Message.{IngestMessage, TopicRecord, Received, into_record}
use majsoulmanager.Pack.Format.{Uuid}
use majsoulmanager.Pipeline.Types.{Outside, Record}
use majsoulmanager.Ingest.Table.{Claim, IdempotencyClaim, Reply, Statement, Statements}
use majsoulmanager.Ingest.Topic.{TopicRecords, Production, produce_batch}
use majsoulmanager.Ingest.{
  IngestError, Ingested, err, ok, Submission, Claimed, new_message, claimed_as, claim_parsed, claim,
  messages_of, after_produce, produce_claimed,
}
use majsoulmanager.Ingest.Requests.{IsRecordOf, InTopic}
use majsoulmanager.Ingest.Delivery.{produce_batch-ok}

pub record Accepted : Type 0 where
  pub id : Uuid
  pub sha256 : Text
  pub duplicate : Bool

abbrev pub is_duplicate : Claimed → Bool
is_duplicate c = elim c.message [ none ↦ true | some m ↦ false ]

abbrev pub accepted_as :
    Claimed
    → Ingested (Unit {0}) × List Claim × TopicRecords
    → Ingested Accepted × List Claim × TopicRecords
accepted_as c (err e, table, topic) = (err e, table, topic)
accepted_as c (ok u, table, topic) =
    (ok (record { id = c.id; sha256 = c.sha256; duplicate = is_duplicate c }), table, topic)

module _ (x : Outside) (partitions : ℕ) (size : TopicRecord → ℕ) where
  abbrev pub then_produce :
      List Production
      → (Text → Statement)
      → Ingested Claimed × List Claim
      → TopicRecords
      → Ingested Accepted × List Claim × TopicRecords
  then_produce broker release (err e, table) topic = (err e, table, topic)
  then_produce broker release (ok c, table) topic =
      accepted_as c (produce_claimed x partitions size broker release (c ∷ []) table topic)

  unfoldable pub ingest_one :
      ℕ
      → ℕ
      → Statements
      → List Production
      → (Text → Statement)
      → Submission
      → List Claim
      → TopicRecords
      → Ingested Accepted × List Claim × TopicRecords
  unfolding claim produce_claimed
  ingest_one lag max_lag sql broker release s table topic =
      then_produce broker release (claim x lag max_lag sql s table) topic

  -- `IngestMessage::reindex`, of a row with its time.
  unfoldable pub reindexed : Record → List ℕ → Option (List ℕ) → IngestMessage
  reindexed row raw pb = record {
    record_id = row.id;
    source = row.source;
    played_at = row.played_at;
    raw = raw;
    majsoul_pb = pb;
    received_at = row.received_at;
  }

  abbrev of_produce : Received (Unit {0}) × TopicRecords → Ingested (Unit {0}) × TopicRecords
  of_produce (Received.err e, topic) = (err (IngestError.produce e), topic)
  of_produce (Received.ok u, topic) = (ok u, topic)

  abbrev reindex_parsed :
      List Production
      → IngestMessage
      → Parsed Metadata
      → TopicRecords
      → Ingested (Unit {0}) × TopicRecords
  reindex_parsed broker m (Parsed.err e) topic = (err (IngestError.malformed e), topic)
  reindex_parsed broker m (Parsed.ok metadata) topic =
      of_produce (produce_batch x.writing partitions size broker (m ∷ []) topic)

  unfoldable pub reindex_one :
      List Production
      → Record
      → List ℕ
      → Option (List ℕ)
      → TopicRecords
      → Ingested (Unit {0}) × TopicRecords
  unfolding reindexed produce_batch parse_metadata
  reindex_one broker row raw pb topic =
      reindex_parsed broker (reindexed row raw pb)
        (parse_metadata x.json x.from_str x.from_timestamp raw) topic

  after_produce-ok :
      (release : Text → Statement) (claimed : List Claimed) (table : List Claim)
      (r : Received (Unit {0}) × TopicRecords) (u : Unit {0})
      → (after_produce release claimed table r).0 ≡ ok u
      → (r.0 ≡ Received.ok u) × ((after_produce release claimed table r).2 ≡ r.1)
  after_produce-ok release claimed table (Received.ok v, topic) u h = (refl, refl)
  after_produce-ok release claimed table (Received.err e, topic) u h = absurd (ground (arith, h))

  produce_claimed-some :
      (broker : List Production) (release : Text → Statement) (claimed : List Claimed)
      (table : List Claim) (topic : TopicRecords)
      → is_empty (messages_of claimed) ≡ false
      → produce_claimed x partitions size broker release claimed table topic
        ≡ after_produce release claimed table
            (produce_batch x.writing partitions size broker (messages_of claimed) topic)
  unfolding produce_claimed
  produce_claimed-some broker release claimed table topic h = rw h refl

  messages_of-one :
      (c : Claimed) (m : IngestMessage) → c.message ≡ some m → messages_of (c ∷ []) ≡ m ∷ []
  unfolding messages_of
  messages_of-one c m has = rw has refl

  -- A produce that is answered has its message in the topic.
  pub produce_one :
      (broker : List Production) (release : Text → Statement) (c : Claimed) (m : IngestMessage)
      (table : List Claim) (topic : TopicRecords) (u : Unit {0})
      → 0 < partitions
      → c.message ≡ some m
      → (produce_claimed x partitions size broker release (c ∷ []) table topic).0 ≡ ok u
      → InTopic x partitions size
          (produce_claimed x partitions size broker release (c ∷ []) table topic).2
          m.record_id
  produce_one broker release c m table topic u some_partition has done =
      let one : messages_of (c ∷ []) ≡ m ∷ [] = messages_of-one c m has in
      let runs = produce_claimed-some broker release (c ∷ []) table topic (ap is_empty one) in
      let sent : Received (Unit {0}) × TopicRecords =
        produce_batch x.writing partitions size broker (messages_of (c ∷ [])) topic in
      let (answered, same) =
        after_produce-ok release (c ∷ []) table sent u (ap (λ p. p.0) (sym runs) ∙ done) in
      let Q : TopicRecord → Type 0 = IsRecordOf x partitions size m.record_id in
      subst (λ t. InTopic x partitions size t m.record_id) (sym (ap (λ p. p.2) runs ∙ same))
        (produce_batch-ok x.writing partitions size Q broker (messages_of (c ∷ [])) topic u
          some_partition answered
          (subst (λ l. Any (λ m. Q (into_record x.writing m)) l) (sym one) (inl (m, refl, refl))))

  claimed_as-id :
      (s : Submission) (key : Text) (r : Reply IdempotencyClaim) (c : Claimed) (m : IngestMessage)
      → claimed_as x s key r ≡ ok c
      → c.message ≡ some m
      → m.record_id ≡ c.id
  unfolding new_message
  claimed_as-id s key (Reply.err e) c m h has = absurd (ground (arith, h))
  claimed_as-id s key (Reply.ok (IdempotencyClaim.existing id)) c m h has =
      absurd (ground (arith, h, has))
  claimed_as-id s key (Reply.ok IdempotencyClaim.new) c m h has = ground (arith, h, has)

  pub claim-id :
      (lag max_lag : ℕ) (sql : Statements) (s : Submission) (table : List Claim) (c : Claimed)
      (m : IngestMessage)
      → (claim x lag max_lag sql s table).0 ≡ ok c
      → c.message ≡ some m
      → m.record_id ≡ c.id
  unfolding claim claim_parsed
  claim-id lag max_lag sql s table c m h has = elim (Bool-cases (leb max_lag lag)) [
    | inl behind ↦ absurd (ground (arith, behind, h))
    | inr room ↦ parsed (parse_metadata x.json x.from_str x.from_timestamp s.raw) (rw room at h)
  ]
    where
      parsed : (p : Parsed Metadata) → (claim_parsed x sql s p table).0 ≡ ok c → m.record_id ≡ c.id
      parsed (Parsed.err e) h = absurd (ground (arith, h))
      parsed (Parsed.ok metadata) h = claimed_as-id s _ _ c m h has
