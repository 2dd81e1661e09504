-- ===== src/Ingest/Table.antt =====
-- The idempotency claims of src/catalog.rs: `claim` and `abandon_claim`. Rows of the table are found
-- by their key, which stands for its digest.
use majsoulmanager.Prelude.{
  Bool, true, false, not, ◌&&◌, List, [], ◌∷◌, Option, none, some, if◌then◌else◌,
}
use majsoulmanager.Prelude.Text.{Text, text_eq}
use majsoulmanager.Pack.Format.{Uuid}

pub data KeyScope : Type 0 where
  game caller : KeyScope

abbrev pub content_must_match : KeyScope → Bool
content_must_match KeyScope.game = false
content_must_match KeyScope.caller = true

abbrev pub expires : KeyScope → Bool
expires KeyScope.game = false
expires KeyScope.caller = true

-- A row of `ingest_idempotency`.
pub record Claim : Type 0 where
  pub key : Text
  pub record_id : Uuid
  pub content_sha256 : Text
  pub expires_later : Bool

-- `Pending`, `Conflict` and `Store` of `CatalogError`.
pub data CatalogError : Type 0 where
  pending conflict store : CatalogError

pub data IdempotencyClaim : Type 0 where
  new : IdempotencyClaim
  existing : Uuid → IdempotencyClaim

pub data Reply (A : Type 0) : Type 0 where
  err : CatalogError → Reply A
  ok : A → Reply A

-- A statement runs, fails without an effect, or runs and its answer is lost.
pub data Statement : Type 0 where
  runs fails unanswered : Statement

-- The two statements of a claim, and whether the holder of the key abandons it between them.
pub record Statements : Type 0 where
  pub insert : Statement
  pub select : Statement
  pub abandoned : Bool

unfoldable pub find_claim : Text → List Claim → Option Claim
unfolding text_eq
find_claim key [] = none
find_claim key (c ∷ table) = if text_eq c.key key then some c else find_claim key table

unfoldable pub delete_claim : Text → Uuid → List Claim → List Claim
unfolding text_eq
delete_claim key id [] = []
delete_claim key id (c ∷ table) =
    let rest = delete_claim key id table in
    if text_eq c.key key && text_eq c.record_id id then rest else c ∷ rest

unfoldable pub abandon_claim : Statement → Text → Uuid → List Claim → List Claim
unfolding delete_claim
abandon_claim Statement.runs key id table = delete_claim key id table
abandon_claim Statement.fails key id table = table
abandon_claim Statement.unanswered key id table = delete_claim key id table

-- The key was not claimed.
abbrev pub insert_new : Statement → Claim → List Claim → Reply IdempotencyClaim × List Claim
insert_new Statement.runs c table = (Reply.ok IdempotencyClaim.new, c ∷ table)
insert_new Statement.fails c table = (Reply.err CatalogError.store, table)
insert_new Statement.unanswered c table = (Reply.err CatalogError.store, c ∷ table)

abbrev pub held_by : Text → KeyScope → Claim → Reply IdempotencyClaim
held_by sha256 scope row =
    if content_must_match scope && not (text_eq row.content_sha256 sha256)
    then Reply.err CatalogError.conflict
    else Reply.ok (IdempotencyClaim.existing row.record_id)

-- It was, by this row.
abbrev pub select_held :
    Statement → Bool → Text → KeyScope → Claim → List Claim → Reply IdempotencyClaim × List Claim
select_held Statement.runs false sha256 scope row table = (held_by sha256 scope row, table)
select_held Statement.runs true sha256 scope row table =
    (Reply.err CatalogError.pending, delete_claim row.key row.record_id table)
select_held Statement.fails abandoned sha256 scope row table = (Reply.err CatalogError.store, table)
select_held Statement.unanswered abandoned sha256 scope row table =
    (Reply.err CatalogError.store, table)

-- The insert that finds it does nothing.
abbrev pub insert_held :
    Statement
    → Statements
    → Text
    → KeyScope
    → Claim
    → List Claim
    → Reply IdempotencyClaim × List Claim
insert_held Statement.runs sql sha256 scope row table =
    select_held sql.select sql.abandoned sha256 scope row table
insert_held Statement.fails sql sha256 scope row table = (Reply.err CatalogError.store, table)
insert_held Statement.unanswered sql sha256 scope row table = (Reply.err CatalogError.store, table)

abbrev pub claim_found :
    Statements → Claim → KeyScope → Option Claim → List Claim → Reply IdempotencyClaim × List Claim
claim_found sql c scope none table = insert_new sql.insert c table
claim_found sql c scope (some row) table =
    insert_held sql.insert sql c.content_sha256 scope row table

-- `Catalog::claim`.
unfoldable pub claim_key :
    Statements → Text → Uuid → Text → KeyScope → List Claim → Reply IdempotencyClaim × List Claim
unfolding find_claim delete_claim text_eq
claim_key sql key id sha256 scope table =
    claim_found sql
      (record { key = key; record_id = id; content_sha256 = sha256; expires_later = expires scope })
      scope (find_claim key table) table
