-- ===== src/Ingest/Backed.antt =====
-- The claims of src/catalog.rs over any run of the ingest's requests in src/indexer.rs.
use majsoulmanager.Prelude.{
  ℕ, ◌<◌, ◌≡◌, ◌⊎◌, inl, inr, sym, subst, Bool, true, false, List, [], ◌∷◌, All, All-map, All-both,
  Any, Any-front, Any-back,
}
use majsoulmanager.Prelude.Text.{Text}
use majsoulmanager.Kafka.Message.{TopicRecord}
use majsoulmanager.Pipeline.Types.{Outside}
use majsoulmanager.Ingest.Table.{Claim, Statement}
use majsoulmanager.Ingest.Topic.{TopicRecords}
use majsoulmanager.Ingest.{Ingested, Claimed, err, ok, keys_of, abandon_all, abandon_claimed, claim}
use majsoulmanager.Ingest.Requests.{
  State, Event, IsReliable, picked, left, admit, happen, run, IsPending,
}
use majsoulmanager.Ingest.Released.{abandon_all-All, abandon_all-apart}
use majsoulmanager.Ingest.Claims.{IsBacked, Split, claim-All, pending_message, produce_claimed-All}

abbrev pub no_state : State
no_state = record { claims = []; pending = []; topic = [] }

Any-admit :
    (P : Claimed → Type 0) (pending : List Claimed) (r : Ingested Claimed)
    → Any P pending
    → Any P (admit pending r)
Any-admit P pending (err e) h = h
Any-admit P pending (ok d) h = Any-front P pending (d ∷ []) h

picked-left :
    (P : Claimed → Type 0) (mine : List Bool) (pending : List Claimed)
    → Any P pending
    → Any P (picked mine pending) ⊎ Any P (left mine pending)
unfolding picked left
picked-left P mine [] h = inr h
picked-left P [] (c ∷ pending) h = inr h
picked-left P (true ∷ mine) (c ∷ pending) (inl here) = inl (inl here)
picked-left P (true ∷ mine) (c ∷ pending) (inr there) = elim (picked-left P mine pending there) [
  | inl now ↦ inl (inr now)
  | inr later ↦ inr later
]
picked-left P (false ∷ mine) (c ∷ pending) (inl here) = inr (inl here)
picked-left P (false ∷ mine) (c ∷ pending) (inr there) = elim (picked-left P mine pending there) [
  | inl now ↦ inl now
  | inr later ↦ inr (inr later)
]

module _ (x : Outside) (partitions : ℕ) (size : TopicRecord → ℕ) where
  abbrev AreBacked : State → Type 0
  AreBacked state = All (IsBacked x partitions size state.topic state.pending) state.claims

  -- What a request has pending, and the rest.
  IsBacked-Split :
      (mine : List Bool) (topic : TopicRecords) (pending : List Claimed) (c : Claim)
      → IsBacked x partitions size topic pending c
      → Split x partitions size topic (picked mine pending) (left mine pending) c
  IsBacked-Split mine topic pending c (inl there) = inl (inl there)
  IsBacked-Split mine topic pending c (inr h) = elim (picked-left (IsPending c) mine pending h) [
    | inl now ↦ inl (inr now)
    | inr later ↦ inr later
  ]

  claims_one-AreBacked :
      (lag max_lag : ℕ) (sql : _) (s : _) (state : State)
      → IsReliable (Event.claims_one lag max_lag sql s)
      → AreBacked state
      → AreBacked (happen x partitions size (Event.claims_one lag max_lag sql s) state)
  unfolding happen
  claims_one-AreBacked lag max_lag sql s state reliable h =
      let r : Ingested Claimed = (claim x lag max_lag sql s state.claims).0 in
      let B : Claim → Type 0 = IsBacked x partitions size state.topic (admit state.pending r) in
      claim-All x partitions size B lag max_lag sql s state.claims reliable
        (λ d c answered pending. inr (
          subst (λ a. Any (IsPending c) (admit state.pending a)) (sym answered)
            (Any-back (IsPending c) state.pending (d ∷ []) (inl pending))))
        (All-map (IsBacked x partitions size state.topic state.pending) B state.claims
          (λ c backed. elim backed [
            | inl there ↦ inl there
            | inr pending ↦ inr (Any-admit (IsPending c) state.pending r pending)
          ])
          h)

  gives_up-AreBacked :
      (mine : List Bool) (sql : Text → Statement) (state : State)
      → IsReliable (Event.gives_up mine sql)
      → AreBacked state
      → AreBacked (happen x partitions size (Event.gives_up mine sql) state)
  unfolding happen abandon_claimed
  gives_up-AreBacked mine sql state works h =
      let given : List Claimed = picked mine state.pending in
      let kept : List Claimed = left mine state.pending in
      All-both (Split x partitions size state.topic given kept)
        (λ c. ¬ Any (λ (key, id). (c.key ≡ key) × (c.record_id ≡ id)) (keys_of given))
        (IsBacked x partitions size state.topic kept) (abandon_all sql (keys_of given) state.claims)
        (λ c split released. elim split [
          | inl (inl there) ↦ inl there
          | inl (inr pending) ↦
              absurd (released (pending_message x partitions size c given pending).1)
          | inr later ↦ inr later
        ])
        (abandon_all-All (Split x partitions size state.topic given kept) sql (keys_of given)
          state.claims
          (All-map (IsBacked x partitions size state.topic state.pending)
            (Split x partitions size state.topic given kept) state.claims
            (IsBacked-Split mine state.topic state.pending) h))
        (abandon_all-apart sql (keys_of given) state.claims works)

  happen-AreBacked :
      (e : Event) (state : State)
      → 0 < partitions
      → IsReliable e
      → AreBacked state
      → AreBacked (happen x partitions size e state)
  unfolding happen
  happen-AreBacked (Event.claims_one lag max_lag sql s) state some_partition reliable h =
      claims_one-AreBacked lag max_lag sql s state reliable h
  happen-AreBacked (Event.produces mine broker sql) state some_partition works h =
      produce_claimed-All x partitions size broker sql (picked mine state.pending)
        (left mine state.pending) state.claims state.topic some_partition works
        (All-map (IsBacked x partitions size state.topic state.pending)
          (Split x partitions size state.topic (picked mine state.pending)
            (left mine state.pending))
          state.claims (IsBacked-Split mine state.topic state.pending) h)
  happen-AreBacked (Event.gives_up mine sql) state some_partition works h =
      gives_up-AreBacked mine sql state works h

  run-AreBacked :
      (events : List Event) (state : State)
      → 0 < partitions
      → All IsReliable events
      → AreBacked state
      → AreBacked (run x partitions size events state)
  unfolding run
  run-AreBacked [] state some_partition reliable h = h
  run-AreBacked (e ∷ events) state some_partition (one, more) h =
      run-AreBacked events (happen x partitions size e state) some_partition more
        (happen-AreBacked e state some_partition one h)

-- From no claims and an empty topic with some partition, through any requests that claim, and
-- produce or give up any of what is pending, in any order, and whatever the broker answers: where no insert of a claim loses its answer and no release of
-- one fails, every claim has a record of its id in the topic, or its message is still pending.
pub run-IsBacked :
    (x : Outside) (partitions : ℕ) (size : TopicRecord → ℕ) (events : List Event)
    → 0 < partitions
    → All IsReliable events
    → All
        (IsBacked x partitions size
          (run x partitions size events no_state).topic
          (run x partitions size events no_state).pending)
        (run x partitions size events no_state).claims
run-IsBacked x partitions size events some_partition reliable =
    run-AreBacked x partitions size events no_state some_partition reliable tt
