-- ===== src/Ingest/Requests.antt =====
-- Requests that claim and produce records, as src/indexer.rs has them, one step after another.
use majsoulmanager.Prelude.{ℕ, ◌≡◌, ◌≢◌, Bool, true, false, List, [], ◌∷◌, ◌++◌, some, Any}
use majsoulmanager.Prelude.Text.{Text}
use majsoulmanager.Kafka.Message.{IngestMessage, TopicRecord, into_record}
use majsoulmanager.Pack.Format.{Uuid}
use majsoulmanager.Pipeline.Types.{Outside}
use majsoulmanager.Ingest.Table.{Claim, Statement, Statements}
use majsoulmanager.Ingest.Topic.{TopicRecords, Production}
use majsoulmanager.Ingest.{
  Ingested, Submission, Claimed, err, ok, claim, abandon_claimed, produce_claimed,
}

-- The claims, the requests' records that are claimed and not yet produced, and the topic.
pub record State : Type 0 where
  pub claims : List Claim
  pub pending : List Claimed
  pub topic : TopicRecords

-- A request claims a record, or produces some of the pending ones, or gives them up: `true` stands for
-- a pending record of the request, and a record past the end of the list is of another.
pub data Event : Type 0 where
  claims_one : ℕ → ℕ → Statements → Submission → Event
  produces : List Bool → List Production → (Text → Statement) → Event
  gives_up : List Bool → (Text → Statement) → Event

-- No insert of a claim loses its answer, and no release fails.
abbrev pub IsReliable : Event → Type 0
IsReliable (Event.claims_one lag max_lag sql s) = sql.insert ≢ Statement.unanswered
IsReliable (Event.produces mine broker sql) = (key : Text) → sql key ≢ Statement.fails
IsReliable (Event.gives_up mine sql) = (key : Text) → sql key ≢ Statement.fails

abbrev pub admit : List Claimed → Ingested Claimed → List Claimed
admit pending (err e) = pending
admit pending (ok claimed) = pending ++ claimed ∷ []

-- The pending records of a request, in their order.
unfoldable pub picked : List Bool → List Claimed → List Claimed
picked mine [] = []
picked [] (c ∷ pending) = []
picked (true ∷ mine) (c ∷ pending) = c ∷ picked mine pending
picked (false ∷ mine) (c ∷ pending) = picked mine pending

-- The others.
unfoldable pub left : List Bool → List Claimed → List Claimed
left mine [] = []
left [] (c ∷ pending) = c ∷ pending
left (true ∷ mine) (c ∷ pending) = left mine pending
left (false ∷ mine) (c ∷ pending) = c ∷ left mine pending

module _ (x : Outside) (partitions : ℕ) (size : TopicRecord → ℕ) where
  unfoldable pub happen : Event → State → State
  unfolding claim produce_claimed abandon_claimed picked left
  happen (Event.claims_one lag max_lag sql s) state =
      let claimed = claim x lag max_lag sql s state.claims in
      record { claims = claimed.1; pending = admit state.pending claimed.0; topic = state.topic }
  happen (Event.produces mine broker sql) state =
      let produced =
        produce_claimed x partitions size broker sql (picked mine state.pending) state.claims
          state.topic in
      record { claims = produced.1; pending = left mine state.pending; topic = produced.2 }
  happen (Event.gives_up mine sql) state = record {
    claims = abandon_claimed sql (picked mine state.pending) state.claims;
    pending = left mine state.pending;
    topic = state.topic;
  }

  unfoldable pub run : List Event → State → State
  unfolding happen
  run [] state = state
  run (e ∷ events) state = run events (happen e state)

  -- The topic has a record of the id.
  abbrev pub IsRecordOf : Uuid → TopicRecord → Type 0
  IsRecordOf id r = (m : IngestMessage) × (r ≡ into_record x.writing m) × (m.record_id ≡ id)

  abbrev pub InTopic : TopicRecords → Uuid → Type 0
  InTopic topic id = Any (λ (at, r). IsRecordOf id r) topic

-- The message that was claimed under the key, with the claim's id, is yet to be produced.
abbrev pub IsPending : Claim → Claimed → Type 0
IsPending c d =
    (m : IngestMessage) × (d.message ≡ some m) × (d.key ≡ c.key) × (m.record_id ≡ c.record_id)
