-- ===== src/Ingest/Delivery.antt =====
-- What `Kafka::produce_batch` of src/kafka.rs brings to the topic.
use majsoulmanager.Prelude.{
  ℕ, zero, suc, ◌+◌, ◌≤◌, ◌<◌, ◌≡◌, inl, inr, refl, sym, subst, List, [], ◌∷◌, ◌++◌, map, ◌==◌,
  ==_iff, take, Any, Any-front, Any-back, Any-split, Bool-cases, arith,
}
use native.Mathlib.Nat.{mod-lt}
use majsoulmanager.Kafka.{as_u128, partition_for, produce_chunks}
use majsoulmanager.Kafka.Message.{IngestMessage, TopicRecord, Received, Writing, into_record}
use majsoulmanager.Kafka.Chunks.{flatten, produce_chunks-IsChunk}
use majsoulmanager.Ingest.Topic.{
  TopicRecords, Production, in_partition, send, routed, requests, produce_batch,
}

Any-flatten :
    (size : TopicRecord → ℕ) (Q : TopicRecord → Type 0) (chunks : List (List TopicRecord))
    → Any Q (flatten size chunks)
    → Any (Any Q) chunks
Any-flatten size Q [] h = elim h [ ]
Any-flatten size Q (chunk ∷ chunks) h = elim (Any-split Q chunk (flatten size chunks) h) [
  | inl here ↦ inl here
  | inr later ↦ inr (Any-flatten size Q chunks later)
]

Any-in_partition :
    (Q : TopicRecord → Type 0) (partition : ℕ) (chunk : List TopicRecord)
    → Any Q chunk
    → Any (λ (at, r). Q r) (in_partition partition chunk)
Any-in_partition Q partition [] h = elim h [ ]
Any-in_partition Q partition (r ∷ chunk) (inl h) = inl h
Any-in_partition Q partition (r ∷ chunk) (inr h) = inr (Any-in_partition Q partition chunk h)

module _ (Q : TopicRecord → Type 0) where
  -- Nothing leaves the topic.
  send-grows :
      (broker : List Production) (rs : List (ℕ × List TopicRecord)) (topic : TopicRecords)
      → Any (λ (at, r). Q r) topic
      → Any (λ (at, r). Q r) (send broker rs topic).1
  unfolding send
  send-grows broker [] topic h = h
  send-grows [] (r ∷ rs) topic h = h
  send-grows (Production.refused n ∷ broker) ((p, chunk) ∷ rs) topic h =
      Any-front (λ (at, r). Q r) topic (in_partition p (take n chunk)) h
  send-grows (Production.acknowledged ∷ broker) ((p, chunk) ∷ rs) topic h =
      send-grows broker rs (topic ++ in_partition p chunk)
        (Any-front (λ (at, r). Q r) topic (in_partition p chunk) h)

  -- A run of requests that is acknowledged brings all of them.
  send-ok :
      (broker : List Production) (rs : List (ℕ × List TopicRecord)) (topic : TopicRecords)
      (u : Unit {0})
      → (send broker rs topic).0 ≡ Received.ok u
      → Any (λ (at, chunk). Any Q chunk) rs
      → Any (λ (at, r). Q r) (send broker rs topic).1
  unfolding send
  send-ok broker [] topic u done h = elim h [ ]
  send-ok [] (r ∷ rs) topic u done h = absurd (ground (arith, done))
  send-ok (Production.refused n ∷ broker) ((p, chunk) ∷ rs) topic u done h =
      absurd (ground (arith, done))
  send-ok (Production.acknowledged ∷ broker) ((p, chunk) ∷ rs) topic u done (inl h) =
      send-grows broker rs (topic ++ in_partition p chunk)
        (Any-back (λ (at, r). Q r) topic (in_partition p chunk) (Any-in_partition Q p chunk h))
  send-ok (Production.acknowledged ∷ broker) ((p, chunk) ∷ rs) topic u done (inr h) =
      send-ok broker rs (topic ++ in_partition p chunk) u done h

module _ (w : Writing) (partitions : ℕ) (size : TopicRecord → ℕ) (Q : TopicRecord → Type 0) where
  abbrev IsRouted : ℕ → IngestMessage → Type 0
  IsRouted p m = (partition_for partitions m.record_id ≡ p) × Q (into_record w m)

  routed-Any :
      (p : ℕ) (messages : List IngestMessage)
      → Any (IsRouted p) messages
      → Any Q (routed w partitions size p messages)
  unfolding routed
  routed-Any p [] h = elim h [ ]
  routed-Any p (m ∷ messages) (inl (here, q)) =
      rw ((==_iff (partition_for partitions m.record_id) p).1 here) (inl q)
  routed-Any p (m ∷ messages) (inr h) =
      elim (Bool-cases (partition_for partitions m.record_id == p)) [
        | inl here ↦ rw here (inr (routed-Any p messages h))
        | inr apart ↦ rw apart (routed-Any p messages h)
      ]

  -- The partition of a message that is there.
  route :
      (messages : List IngestMessage)
      → 0 < partitions
      → Any (λ m. Q (into_record w m)) messages
      → (p : ℕ) × (p < partitions) × Any (IsRouted p) messages
  unfolding partition_for
  route [] some_partition h = elim h [ ]
  route (m ∷ messages) some_partition (inl q) = (
    partition_for partitions m.record_id,
    mod-lt (as_u128 m.record_id) some_partition,
    inl (refl, q),
  )
  route (m ∷ messages) some_partition (inr h) =
      let (p, below, there) = route messages some_partition h in (p, below, inr there)

  Any-at :
      (p : ℕ) (chunks : List (List TopicRecord))
      → Any (Any Q) chunks
      → Any (λ (at, chunk). Any Q chunk) (map (λ chunk. (p, chunk)) chunks)
  Any-at p [] h = elim h [ ]
  Any-at p (chunk ∷ chunks) (inl h) = inl h
  Any-at p (chunk ∷ chunks) (inr h) = inr (Any-at p chunks h)

  requests-Any :
      (start n p : ℕ) (messages : List IngestMessage)
      → start ≤ p
      → p < start + n
      → Any (IsRouted p) messages
      → Any (λ (at, chunk). Any Q chunk) (requests w partitions size start n messages)
  unfolding requests
  requests-Any start zero p messages from below h = absurd (omega (arith, from, below))
  requests-Any start (suc n) p messages from below h =
      let chunks : List (List TopicRecord) =
        produce_chunks size (routed w partitions size start messages) in
      elim (Bool-cases (p == start)) [
        | inl here ↦
            let same : p ≡ start = (==_iff p start).0 here in
            let whole = (produce_chunks-IsChunk size (routed w partitions size start messages)).0 in
            Any-front (λ (at, chunk). Any Q chunk) (map (λ chunk. (start, chunk)) chunks)
              (requests w partitions size (start + 1) n messages)
              (Any-at start chunks (
                Any-flatten size Q chunks (
                  subst (λ l. Any Q l) (sym whole)
                    (routed-Any start messages (subst (λ q. Any (IsRouted q) messages) same h)))))
        | inr apart ↦
            Any-back (λ (at, chunk). Any Q chunk) (map (λ chunk. (start, chunk)) chunks)
              (requests w partitions size (start + 1) n messages)
              (requests-Any (start + 1) n p messages (ground (arith, from, apart))
                (omega (arith, below)) h)
      ]

  pub produce_batch-grows :
      (broker : List Production) (messages : List IngestMessage) (topic : TopicRecords)
      → Any (λ (at, r). Q r) topic
      → Any (λ (at, r). Q r) (produce_batch w partitions size broker messages topic).1
  unfolding produce_batch
  produce_batch-grows broker messages topic h =
      send-grows Q broker (requests w partitions size 0 partitions messages) topic h

  -- A batch that is acknowledged is in the topic.
  pub produce_batch-ok :
      (broker : List Production) (messages : List IngestMessage) (topic : TopicRecords)
      (u : Unit {0})
      → 0 < partitions
      → (produce_batch w partitions size broker messages topic).0 ≡ Received.ok u
      → Any (λ m. Q (into_record w m)) messages
      → Any (λ (at, r). Q r) (produce_batch w partitions size broker messages topic).1
  unfolding produce_batch
  produce_batch-ok broker messages topic u some_partition done h =
      let (p, below, there) = route messages some_partition h in
      send-ok Q broker (requests w partitions size 0 partitions messages) topic u done
        (requests-Any 0 partitions p messages (omega arith) (omega (arith, below)) there)
