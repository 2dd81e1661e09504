-- ===== src/Ingest/Claims.antt =====
-- A claim of src/catalog.rs that outlives its request has its record in the topic.
use majsoulmanager.Prelude.{
  ℕ, ◌<◌, ◌≡◌, ◌≢◌, ◌⊎◌, inl, inr, refl, sym, ap, true, List, [], ◌∷◌, leb, All, All-map, All-both,
  Any, Any-map, Bool-cases, Option-cases, arith,
}
use majsoulmanager.Prelude.Text.{Text}
use majsoulmanager.Proto.Record.{is_empty}
use majsoulmanager.Mjai.{Metadata, Parsed, parse_metadata}
use majsoulmanager.Kafka.Message.{TopicRecord, Received, into_record}
use majsoulmanager.Pack.Format.{Uuid}
use majsoulmanager.Pipeline.Types.{Outside}
use majsoulmanager.Ingest.Table.{Claim, Statement, Statements}
use majsoulmanager.Ingest.Topic.{TopicRecords, Production, produce_batch}
use majsoulmanager.Ingest.{
  Submission, Claimed, ok, key_of, new_message, claimed_as, claim_parsed, claim, messages_of,
  keys_of, abandon_all, after_produce, produce_claimed,
}
use majsoulmanager.Ingest.Delivery.{produce_batch-grows, produce_batch-ok}
use majsoulmanager.Ingest.Requests.{IsRecordOf, InTopic, IsPending}
use majsoulmanager.Ingest.Released.{abandon_all-All, abandon_all-apart, claim_key-All}

module _ (x : Outside) (partitions : ℕ) (size : TopicRecord → ℕ) where
  -- The claim has its record in the topic, or a request that is still at it.
  abbrev pub IsBacked : TopicRecords → List Claimed → Claim → Type 0
  IsBacked topic pending c = InTopic x partitions size topic c.record_id ⊎ Any (IsPending c) pending

  -- A claimed message is pending; whatever fails adds no claim.
  claim_parsed-All :
      (P : Claim → Type 0) (sql : Statements) (s : Submission) (p : Parsed Metadata)
      (table : List Claim)
      → sql.insert ≢ Statement.unanswered
      → ((d : Claimed) (c : Claim) → (claim_parsed x sql s p table).0 ≡ ok d → IsPending c d → P c)
      → All P table
      → All P (claim_parsed x sql s p table).1
  unfolding claim_parsed new_message
  claim_parsed-All P sql s (Parsed.err e) table reliable added h = h
  claim_parsed-All P sql s (Parsed.ok metadata) table reliable added h =
      let scoped = key_of s metadata.majsoul_uuid in
      claim_key-All P sql scoped.0 s.new_v4 (x.sha256_hex s.raw) scoped.1 table reliable
        (λ fresh. added _ _ (ap (claimed_as x s scoped.0) fresh) (new_message s, refl, refl, refl))
        h

  pub claim-All :
      (P : Claim → Type 0) (lag max_lag : ℕ) (sql : Statements) (s : Submission)
      (table : List Claim)
      → sql.insert ≢ Statement.unanswered
      → ((d : Claimed) (c : Claim)
          → (claim x lag max_lag sql s table).0 ≡ ok d
          → IsPending c d
          → P c)
      → All P table
      → All P (claim x lag max_lag sql s table).1
  unfolding claim
  claim-All P lag max_lag sql s table reliable added h = elim (Bool-cases (leb max_lag lag)) [
    | inl behind ↦ rw behind h
    | inr room ↦ rw room (
        claim_parsed-All P sql s (parse_metadata x.json x.from_str x.from_timestamp s.raw) table
          reliable (λ d c e. added d c (rw room e)) h)
  ]

  -- What is pending is a message of the batch, and its key is released where that fails.
  pub pending_message :
      (c : Claim) (claimed : List Claimed)
      → Any (IsPending c) claimed
      → Any (λ m. m.record_id ≡ c.record_id) (messages_of claimed)
        × Any (λ (key, id). (c.key ≡ key) × (c.record_id ≡ id)) (keys_of claimed)
  unfolding messages_of keys_of
  pending_message c [] h = elim h [ ]
  pending_message c (d ∷ claimed) (inl (m, e, keyed, named)) =
      rw e (inl named, inl (sym keyed, sym named))
  pending_message c (d ∷ claimed) (inr h) =
      let (message, key) = pending_message c claimed h in
      elim (Option-cases d.message) [
        | inl nothing ↦ rw nothing (message, key)
        | inr (m, e) ↦ rw e (inr message, inr key)
      ]

  abbrev pub Split : TopicRecords → List Claimed → List Claimed → Claim → Type 0
  Split topic claimed rest c = IsBacked topic claimed c ⊎ Any (IsPending c) rest

  not_empty : {A : Type 0} (P : A → Type 0) (xs : List A) → is_empty xs ≡ true → Any P xs → ⊥
  not_empty P [] e h = h
  not_empty P (a ∷ xs) e h = absurd (ground (arith, e))

  after_produce-All :
      (sql : Text → Statement) (claimed rest : List Claimed) (table : List Claim)
      (topic : TopicRecords) (r : Received (Unit {0}) × TopicRecords)
      → ((key : Text) → sql key ≢ Statement.fails)
      → ((id : Uuid) → InTopic x partitions size topic id → InTopic x partitions size r.1 id)
      → ((u : Unit {0}) (id : Uuid)
          → r.0 ≡ Received.ok u
          → Any (λ m. m.record_id ≡ id) (messages_of claimed)
          → InTopic x partitions size r.1 id)
      → All (Split topic claimed rest) table
      → All
          (IsBacked (after_produce sql claimed table r).2 rest)
          (after_produce sql claimed table r).1
  after_produce-All sql claimed rest table topic (Received.ok u, topic') works grows delivers h =
      All-map (Split topic claimed rest) (IsBacked topic' rest) table
        (λ c split. elim split [
          | inl (inl there) ↦ inl (grows c.record_id there)
          | inl (inr pending) ↦
              inl (delivers u c.record_id refl (pending_message c claimed pending).0)
          | inr later ↦ inr later
        ])
        h
  after_produce-All sql claimed rest table topic (Received.err e, topic') works grows delivers h =
      All-both (Split topic claimed rest)
        (λ c. ¬ Any (λ (key, id). (c.key ≡ key) × (c.record_id ≡ id)) (keys_of claimed))
        (IsBacked topic' rest) (abandon_all sql (keys_of claimed) table)
        (λ c split released. elim split [
          | inl (inl there) ↦ inl (grows c.record_id there)
          | inl (inr pending) ↦ absurd (released (pending_message c claimed pending).1)
          | inr later ↦ inr later
        ])
        (abandon_all-All (Split topic claimed rest) sql (keys_of claimed) table h)
        (abandon_all-apart sql (keys_of claimed) table works)

  pub produce_claimed-All :
      (broker : List Production) (sql : Text → Statement) (claimed rest : List Claimed)
      (table : List Claim) (topic : TopicRecords)
      → 0 < partitions
      → ((key : Text) → sql key ≢ Statement.fails)
      → All (Split topic claimed rest) table
      → All
          (IsBacked (produce_claimed x partitions size broker sql claimed table topic).2 rest)
          (produce_claimed x partitions size broker sql claimed table topic).1
  unfolding produce_claimed
  produce_claimed-All broker sql claimed rest table topic some_partition works h =
      elim (Bool-cases (is_empty (messages_of claimed))) [
        | inl nothing ↦ rw nothing (
            All-map (Split topic claimed rest) (IsBacked topic rest) table
              (λ c split. elim split [
                | inl (inl there) ↦ inl there
                | inl (inr pending) ↦ absurd (
                    not_empty (λ m. m.record_id ≡ c.record_id) (messages_of claimed) nothing
                      (pending_message c claimed pending).0)
                | inr later ↦ inr later
              ])
              h)
        | inr some_message ↦ rw some_message (
            after_produce-All sql claimed rest table topic
              (produce_batch x.writing partitions size broker (messages_of claimed) topic) works
              (λ id there.
                produce_batch-grows x.writing partitions size (IsRecordOf x partitions size id)
                  broker (messages_of claimed) topic there)
              (λ u id done named.
                produce_batch-ok x.writing partitions size (IsRecordOf x partitions size id) broker
                  (messages_of claimed) topic u some_partition done
                  (Any-map (λ m. m.record_id ≡ id)
                    (λ m. IsRecordOf x partitions size id (into_record x.writing m))
                    (messages_of claimed) (λ m e. (m, refl, e)) named))
              h)
      ]
