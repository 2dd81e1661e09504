-- ===== src/Ingest/Promises.antt =====
-- What an ingest of src/indexer.rs promises the caller: an accepted record is in the topic, and the
-- same key is a duplicate.
use majsoulmanager.Prelude.{
  ℕ, ◌<◌, ◌≡◌, ◌≢◌, inl, inr, refl, sym, subst, ◌∙◌, Bool, true, false, not, ◌&&◌, List, [], ◌∷◌,
  Option, none, some, if◌then◌else◌, Bool-cases, Option-cases, arith,
}
use majsoulmanager.Prelude.Text.{Text, text_eq, text_eq_iff}
use majsoulmanager.Kafka.Message.{IngestMessage, TopicRecord}
use majsoulmanager.Pack.Format.{Uuid}
use majsoulmanager.Pipeline.Types.{Outside}
use majsoulmanager.Ingest.Table.{
  Claim, KeyScope, content_must_match, expires, CatalogError, IdempotencyClaim, Reply, Statement,
  Statements, find_claim, insert_new, insert_held, select_held, held_by, claim_found, claim_key,
}
use majsoulmanager.Ingest.Topic.{TopicRecords, Production}
use majsoulmanager.Ingest.{Ingested, err, ok, Submission, Claimed, claim, produce_claimed}
use majsoulmanager.Ingest.Requests.{InTopic}
use majsoulmanager.Ingest.Single.{
  Accepted, is_duplicate, accepted_as, then_produce, ingest_one, produce_one, claim-id,
}

-- The accepted answer of a produce that was answered.
record IsAccepted (c : Claimed) (p : Ingested (Unit {0}) × List Claim × TopicRecords) (a : Accepted)
    : Type 0 where
  done : Unit {0}
  produced : p.0 ≡ ok done
  id : a.id ≡ c.id
  duplicate : a.duplicate ≡ is_duplicate c
  topic : (accepted_as c p).2 ≡ p.2

accepted_as-IsAccepted :
    (c : Claimed) (p : Ingested (Unit {0}) × List Claim × TopicRecords) (a : Accepted)
    → (accepted_as c p).0 ≡ ok a
    → IsAccepted c p a
accepted_as-IsAccepted c (err e, table, topic) a h = absurd (ground (arith, h))
accepted_as-IsAccepted c (ok u, table, topic) a h = record {
  done = u;
  produced = refl;
  id = ground (arith, h);
  duplicate = ground (arith, h);
  topic = refl;
}

module _ (x : Outside) (partitions : ℕ) (size : TopicRecord → ℕ) where
  then_produce-InTopic :
      (broker : List Production) (release : Text → Statement) (r : Ingested Claimed × List Claim)
      (topic : TopicRecords) (a : Accepted)
      → 0 < partitions
      → ((c : Claimed) (m : IngestMessage) → r.0 ≡ ok c → c.message ≡ some m → m.record_id ≡ c.id)
      → (then_produce x partitions size broker release r topic).0 ≡ ok a
      → a.duplicate ≡ false
      → InTopic x partitions size (then_produce x partitions size broker release r topic).2 a.id
  then_produce-InTopic broker release (err e, table) topic a some_partition named h fresh =
      absurd (ground (arith, h))
  then_produce-InTopic broker release (ok c, table) topic a some_partition named h fresh =
      let p : Ingested (Unit {0}) × List Claim × TopicRecords =
        produce_claimed x partitions size broker release (c ∷ []) table topic in
      let i = accepted_as-IsAccepted c p a h in
      elim (Option-cases c.message) [
        | inl nothing ↦ absurd (ground (arith, nothing, i.duplicate, fresh))
        | inr (m, has) ↦
            subst (λ t. InTopic x partitions size t a.id) (sym i.topic)
              (subst (λ id. InTopic x partitions size p.2 id) (named c m refl has ∙ sym i.id)
                (produce_one x partitions size broker release c m table topic i.done some_partition
                  has i.produced))
      ]

  -- With some partition, where ingest_one accepts a record that is no duplicate, the topic has a
  -- record of the accepted id.
  pub ingest_one-InTopic :
      (lag max_lag : ℕ) (sql : Statements) (broker : List Production) (release : Text → Statement)
      (s : Submission) (table : List Claim) (topic : TopicRecords) (a : Accepted)
      → 0 < partitions
      → (ingest_one x partitions size lag max_lag sql broker release s table topic).0 ≡ ok a
      → a.duplicate ≡ false
      → InTopic x partitions size
          (ingest_one x partitions size lag max_lag sql broker release s table topic).2
          a.id
  unfolding ingest_one
  ingest_one-InTopic lag max_lag sql broker release s table topic a some_partition h fresh =
      then_produce-InTopic broker release (claim x lag max_lag sql s table) topic a some_partition
        (λ c m. claim-id x partitions size lag max_lag sql s table c m) h fresh

-- The statements of a claim run, and nobody abandons the key between them.
abbrev pub plain : Statements
plain = record { insert = Statement.runs; select = Statement.runs; abandoned = false }

find_claim-cons : (c : Claim) (table : List Claim) → find_claim c.key (c ∷ table) ≡ some c
unfolding find_claim
find_claim-cons c table = rw ((text_eq_iff c.key c.key).1 refl) refl

held_by-old :
    (sha256 : Text) (scope : KeyScope) (row : Claim)
    → held_by sha256 scope row ≢ Reply.ok IdempotencyClaim.new
held_by-old sha256 scope row h =
    elim (Bool-cases (content_must_match scope && not (text_eq row.content_sha256 sha256))) [
      | inl other ↦ absurd (ground (arith, other, h))
      | inr same ↦ absurd (ground (arith, same, h))
    ]

select_held-old :
    (s : Statement) (abandoned : Bool) (sha256 : Text) (scope : KeyScope) (row : Claim)
    (table : List Claim)
    → (select_held s abandoned sha256 scope row table).0 ≢ Reply.ok IdempotencyClaim.new
select_held-old Statement.runs true sha256 scope row table h = absurd (ground (arith, h))
select_held-old Statement.runs false sha256 scope row table h = held_by-old sha256 scope row h
select_held-old Statement.fails abandoned sha256 scope row table h = absurd (ground (arith, h))
select_held-old Statement.unanswered abandoned sha256 scope row table h = absurd (ground (arith, h))

insert_held-old :
    (s : Statement) (sql : Statements) (sha256 : Text) (scope : KeyScope) (row : Claim)
    (table : List Claim)
    → (insert_held s sql sha256 scope row table).0 ≢ Reply.ok IdempotencyClaim.new
insert_held-old Statement.runs sql sha256 scope row table h =
    select_held-old sql.select sql.abandoned sha256 scope row table h
insert_held-old Statement.fails sql sha256 scope row table h = absurd (ground (arith, h))
insert_held-old Statement.unanswered sql sha256 scope row table h = absurd (ground (arith, h))

insert_new-new :
    (s : Statement) (c : Claim) (table : List Claim)
    → (insert_new s c table).0 ≡ Reply.ok IdempotencyClaim.new
    → (insert_new s c table).1 ≡ c ∷ table
insert_new-new Statement.runs c table h = refl
insert_new-new Statement.fails c table h = absurd (ground (arith, h))
insert_new-new Statement.unanswered c table h = absurd (ground (arith, h))

-- An answer that the key is new comes with its row.
claim_found-new :
    (sql : Statements) (c : Claim) (scope : KeyScope) (o : Option Claim) (table : List Claim)
    → (claim_found sql c scope o table).0 ≡ Reply.ok IdempotencyClaim.new
    → (claim_found sql c scope o table).1 ≡ c ∷ table
claim_found-new sql c scope none table h = insert_new-new sql.insert c table h
claim_found-new sql c scope (some row) table h =
    absurd (insert_held-old sql.insert sql c.content_sha256 scope row table h)

-- Another claim of the key, by whatever scope.
claim_key-held :
    (sql : Statements) (key : Text) (id id' : Uuid) (sha256 sha256' : Text)
    (scope scope' : KeyScope) (table : List Claim)
    → (claim_key sql key id sha256 scope table).0 ≡ Reply.ok IdempotencyClaim.new
    → claim_key plain key id' sha256' scope' (claim_key sql key id sha256 scope table).1 ≡ (
      if content_must_match scope' && not (text_eq sha256 sha256')
          then Reply.err CatalogError.conflict
          else Reply.ok (IdempotencyClaim.existing id),
      (claim_key sql key id sha256 scope table).1,
    )
unfolding claim_key
claim_key-held sql key id id' sha256 sha256' scope scope' table h =
    let c : Claim = record {
      key = key;
      record_id = id;
      content_sha256 = sha256;
      expires_later = expires scope;
    } in
    rw (claim_found-new sql c scope (find_claim key table) table h, find_claim-cons c table) refl

differs : (a b : Text) → a ≢ b → text_eq a b ≡ false
differs a b apart = elim (Bool-cases (text_eq a b)) [
  | inl same ↦ absurd (apart ((text_eq_iff a b).0 same))
  | inr other ↦ other
]

-- After an answer that a key was new, another claim of it whose statements run, and which nobody
-- releases between them, leaves the claims as they are. Under the key of a game it answers the first
-- id, whatever the content; under a caller's key it answers the first id for the same content and a
-- conflict for another.
pub claim_key-again :
    (sql : Statements) (key : Text) (id id' : Uuid) (sha256 sha256' : Text) (scope : KeyScope)
    (table : List Claim)
    → (claim_key sql key id sha256 scope table).0 ≡ Reply.ok IdempotencyClaim.new
    → (claim_key plain key id' sha256' KeyScope.game (claim_key sql key id sha256 scope table).1
        ≡ (Reply.ok (IdempotencyClaim.existing id), (claim_key sql key id sha256 scope table).1))
      × (sha256 ≡ sha256'
          → claim_key plain key id' sha256' KeyScope.caller
              (claim_key sql key id sha256 scope table).1
            ≡ (
              Reply.ok (IdempotencyClaim.existing id),
              (claim_key sql key id sha256 scope table).1,
            ))
      × (sha256 ≢ sha256'
          → claim_key plain key id' sha256' KeyScope.caller
              (claim_key sql key id sha256 scope table).1
            ≡ (Reply.err CatalogError.conflict, (claim_key sql key id sha256 scope table).1))
claim_key-again sql key id id' sha256 sha256' scope table h = (
  claim_key-held sql key id id' sha256 sha256' scope KeyScope.game table h,
  λ same.
      claim_key-held sql key id id' sha256 sha256' scope KeyScope.caller table h
      ∙ rw ((text_eq_iff sha256 sha256').1 same) refl,
  λ apart.
      claim_key-held sql key id id' sha256 sha256' scope KeyScope.caller table h
      ∙ rw (differs sha256 sha256' apart) refl,
)
