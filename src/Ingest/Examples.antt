-- ===== src/Ingest/Examples.antt =====
-- A game that the broker takes at its second attempt, and the theorems at it.
use majsoulmanager.Prelude.{◌≡◌, ◌≢◌, refl, true, false, List, [], ◌∷◌, none, All, arith, length}
use majsoulmanager.Prelude.Int.{pos}
use majsoulmanager.Prelude.Text.{Text, codes}
use majsoulmanager.Kafka.Examples.{sixteen}
use majsoulmanager.Pipeline.Examples.{outside}
use majsoulmanager.Ingest.Table.{
  Claim, KeyScope, CatalogError, IdempotencyClaim, Reply, Statement, Statements, claim_key,
}
use majsoulmanager.Ingest.Topic.{Production}
use majsoulmanager.Ingest.{Submission}
use majsoulmanager.Ingest.Requests.{State, Event, IsReliable, InTopic, run}
use majsoulmanager.Ingest.Claims.{IsBacked}
use majsoulmanager.Ingest.Single.{Accepted, ingest_one}
use majsoulmanager.Ingest.Promises.{plain, claim_key-again, ingest_one-InTopic}
use majsoulmanager.Ingest.Backed.{no_state, run-IsBacked}

abbrev game : Submission
game = record {
  source = codes "archive";
  idempotency_key = codes "1";
  played_at = none;
  raw = codes "ab\ncd";
  majsoul_pb = none;
  new_v4 = sixteen;
  now = pos 7;
}

abbrev statements : Statements
statements = record { insert = Statement.runs; select = Statement.runs; abandoned = false }

abbrev released : Text → Statement
released key = Statement.runs

abbrev claims_game : Event
claims_game = Event.claims_one 0 10 statements game

abbrev attempts : List Event
attempts =
    claims_game
    ∷ Event.produces (true ∷ []) (Production.refused 0 ∷ []) released
    ∷ claims_game
    ∷ Event.produces (true ∷ []) (Production.acknowledged ∷ []) released
    ∷ claims_game
    ∷ Event.produces (true ∷ []) [] released
    ∷ []

abbrev behind : State
behind = run outside 8 (λ r. 100) attempts no_state

one_record : length behind.topic ≡ 1
unfolding run
one_record = refl

answered : Statement.runs ≢ Statement.unanswered
answered e = absurd (ground (arith, e))

works : (key : Text) → released key ≢ Statement.fails
works key e = absurd (ground (arith, e))

reliable : All IsReliable attempts
reliable = (answered, (works, (answered, (works, (answered, (works, tt))))))

run-IsBacked_example : All (IsBacked outside 8 (λ r. 100) behind.topic behind.pending) behind.claims
run-IsBacked_example = run-IsBacked outside 8 (λ r. 100) attempts (omega arith) reliable

abbrev claimed_once : List Claim
claimed_once = (claim_key statements (codes "k") sixteen (codes "y") KeyScope.caller []).1

claim_key-again_example :
    (claim_key plain (codes "k") (1 ∷ []) (codes "x") KeyScope.game claimed_once
      ≡ (Reply.ok (IdempotencyClaim.existing sixteen), claimed_once))
    × (codes "y" ≡ codes "x"
        → claim_key plain (codes "k") (1 ∷ []) (codes "x") KeyScope.caller claimed_once
          ≡ (Reply.ok (IdempotencyClaim.existing sixteen), claimed_once))
    × (codes "y" ≢ codes "x"
        → claim_key plain (codes "k") (1 ∷ []) (codes "x") KeyScope.caller claimed_once
          ≡ (Reply.err CatalogError.conflict, claimed_once))
unfolding claim_key
claim_key-again_example =
    claim_key-again statements (codes "k") sixteen (1 ∷ []) (codes "y") (codes "x") KeyScope.caller
      [] refl

abbrev accepted : Accepted
accepted = record { id = sixteen; sha256 = codes "ab\ncd"; duplicate = false }

ingest_one-InTopic_example :
    InTopic outside 8
      (λ r. 100)
      (ingest_one outside 8
        (λ r. 100)
        0
        10
        statements
        (Production.acknowledged ∷ [])
        released
        game
        []
        []).2
      sixteen
unfolding ingest_one
ingest_one-InTopic_example =
    ingest_one-InTopic outside 8 (λ r. 100) 0 10 statements (Production.acknowledged ∷ []) released
      game [] [] accepted (omega arith) refl refl
