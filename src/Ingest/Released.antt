-- ===== src/Ingest/Released.antt =====
-- What `claim` and `abandon_claim` of src/catalog.rs leave of the claims.
use majsoulmanager.Prelude.{
  ◌≡◌, ◌≢◌, inl, inr, refl, Bool, true, false, ◌&&◌, List, [], ◌∷◌, Option, none, some, All,
  All-both, All-every, Any, Bool-cases, arith,
}
use majsoulmanager.Prelude.Text.{Text, text_eq, text_eq_iff}
use majsoulmanager.Pack.Format.{Uuid}
use majsoulmanager.Ingest.Table.{
  Claim, KeyScope, IdempotencyClaim, Reply, Statement, Statements, expires, find_claim,
  delete_claim, insert_new, select_held, insert_held, claim_found, claim_key, abandon_claim,
}
use majsoulmanager.Ingest.{abandon_all}

delete_claim-All :
    (P : Claim → Type 0) (key : Text) (id : Uuid) (table : List Claim)
    → All P table
    → All P (delete_claim key id table)
unfolding delete_claim
delete_claim-All P key id [] h = tt
delete_claim-All P key id (c ∷ table) (h, hs) =
    elim (Bool-cases (text_eq c.key key && text_eq c.record_id id)) [
      | inl same ↦ rw same (delete_claim-All P key id table hs)
      | inr apart ↦ rw apart (h, delete_claim-All P key id table hs)
    ]

-- What remains was not claimed under the key with the id.
delete_claim-apart :
    (key : Text) (id : Uuid) (table : List Claim)
    → All (λ c. ¬ ((c.key ≡ key) × (c.record_id ≡ id))) (delete_claim key id table)
unfolding delete_claim
delete_claim-apart key id [] = tt
delete_claim-apart key id (c ∷ table) =
    elim (Bool-cases (text_eq c.key key && text_eq c.record_id id)) [
      | inl same ↦ rw same (delete_claim-apart key id table)
      | inr apart ↦ rw apart (
        λ (keyed, named).
            ground
              (arith, apart, (text_eq_iff c.key key).1 keyed, (text_eq_iff c.record_id id).1 named),
        delete_claim-apart key id table,
      )
    ]

abandon_claim-All :
    (P : Claim → Type 0) (s : Statement) (key : Text) (id : Uuid) (table : List Claim)
    → All P table
    → All P (abandon_claim s key id table)
unfolding abandon_claim
abandon_claim-All P Statement.runs key id table h = delete_claim-All P key id table h
abandon_claim-All P Statement.fails key id table h = h
abandon_claim-All P Statement.unanswered key id table h = delete_claim-All P key id table h

abandon_claim-apart :
    (s : Statement) (key : Text) (id : Uuid) (table : List Claim)
    → s ≢ Statement.fails
    → All (λ c. ¬ ((c.key ≡ key) × (c.record_id ≡ id))) (abandon_claim s key id table)
unfolding abandon_claim
abandon_claim-apart Statement.runs key id table works = delete_claim-apart key id table
abandon_claim-apart Statement.fails key id table works = absurd (works refl)
abandon_claim-apart Statement.unanswered key id table works = delete_claim-apart key id table

pub abandon_all-All :
    (P : Claim → Type 0) (sql : Text → Statement) (keys : List (Text × Uuid)) (table : List Claim)
    → All P table
    → All P (abandon_all sql keys table)
unfolding abandon_all
abandon_all-All P sql [] table h = h
abandon_all-All P sql ((key, id) ∷ keys) table h =
    abandon_all-All P sql keys (abandon_claim (sql key) key id table)
      (abandon_claim-All P (sql key) key id table h)

-- No claim of one of the keys remains.
pub abandon_all-apart :
    (sql : Text → Statement) (keys : List (Text × Uuid)) (table : List Claim)
    → ((key : Text) → sql key ≢ Statement.fails)
    → All
        (λ c. ¬ Any (λ (key, id). (c.key ≡ key) × (c.record_id ≡ id)) keys)
        (abandon_all sql keys table)
unfolding abandon_all
abandon_all-apart sql [] table works =
    All-every (λ c. ¬ Any (λ (key, id). (c.key ≡ key) × (c.record_id ≡ id)) []) table
      (λ c found. elim found [ ])
abandon_all-apart sql ((key, id) ∷ keys) table works =
    All-both (λ c. ¬ ((c.key ≡ key) × (c.record_id ≡ id)))
      (λ c. ¬ Any (λ (key, id). (c.key ≡ key) × (c.record_id ≡ id)) keys)
      (λ c. ¬ Any (λ (key, id). (c.key ≡ key) × (c.record_id ≡ id)) ((key, id) ∷ keys))
      (abandon_all sql keys (abandon_claim (sql key) key id table))
      (λ c here later found. elim found [ inl same ↦ here same | inr more ↦ later more ])
      (abandon_all-All (λ c. ¬ ((c.key ≡ key) × (c.record_id ≡ id))) sql keys
        (abandon_claim (sql key) key id table)
        (abandon_claim-apart (sql key) key id table (works key)))
      (abandon_all-apart sql keys (abandon_claim (sql key) key id table) works)

insert_new-All :
    (P : Claim → Type 0) (s : Statement) (c : Claim) (table : List Claim)
    → s ≢ Statement.unanswered
    → ((insert_new s c table).0 ≡ Reply.ok IdempotencyClaim.new → P c)
    → All P table
    → All P (insert_new s c table).1
insert_new-All P Statement.runs c table reliable added h = (added refl, h)
insert_new-All P Statement.fails c table reliable added h = h
insert_new-All P Statement.unanswered c table reliable added h = absurd (reliable refl)

select_held-All :
    (P : Claim → Type 0) (s : Statement) (abandoned : Bool) (sha256 : Text) (scope : KeyScope)
    (row : Claim) (table : List Claim)
    → All P table
    → All P (select_held s abandoned sha256 scope row table).1
select_held-All P Statement.runs true sha256 scope row table h =
    delete_claim-All P row.key row.record_id table h
select_held-All P Statement.runs false sha256 scope row table h = h
select_held-All P Statement.fails abandoned sha256 scope row table h = h
select_held-All P Statement.unanswered abandoned sha256 scope row table h = h

insert_held-All :
    (P : Claim → Type 0) (s : Statement) (sql : Statements) (sha256 : Text) (scope : KeyScope)
    (row : Claim) (table : List Claim)
    → All P table
    → All P (insert_held s sql sha256 scope row table).1
insert_held-All P Statement.runs sql sha256 scope row table h =
    select_held-All P sql.select sql.abandoned sha256 scope row table h
insert_held-All P Statement.fails sql sha256 scope row table h = h
insert_held-All P Statement.unanswered sql sha256 scope row table h = h

-- A claim adds a row where it answers that the key is new, and loses rows at most otherwise.
claim_found-All :
    (P : Claim → Type 0) (sql : Statements) (c : Claim) (scope : KeyScope) (o : Option Claim)
    (table : List Claim)
    → sql.insert ≢ Statement.unanswered
    → ((claim_found sql c scope o table).0 ≡ Reply.ok IdempotencyClaim.new → P c)
    → All P table
    → All P (claim_found sql c scope o table).1
claim_found-All P sql c scope none table reliable added h =
    insert_new-All P sql.insert c table reliable added h
claim_found-All P sql c scope (some row) table reliable added h =
    insert_held-All P sql.insert sql c.content_sha256 scope row table h

pub claim_key-All :
    (P : Claim → Type 0) (sql : Statements) (key : Text) (id : Uuid) (sha256 : Text)
    (scope : KeyScope) (table : List Claim)
    → sql.insert ≢ Statement.unanswered
    → ((claim_key sql key id sha256 scope table).0 ≡ Reply.ok IdempotencyClaim.new
        → P (record {
          key = key;
          record_id = id;
          content_sha256 = sha256;
          expires_later = expires scope;
        }))
    → All P table
    → All P (claim_key sql key id sha256 scope table).1
unfolding claim_key
claim_key-All P sql key id sha256 scope table reliable added h =
    claim_found-All P sql _ scope (find_claim key table) table reliable added h
