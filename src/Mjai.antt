-- ===== src/Mjai.antt =====
-- src/mjai.rs: the events of a record, and what the index keeps of them. A text is its UTF-8 bytes.
-- serde_json is a parameter, as is what chrono makes of a unix time; an error text is left out.
pub mod Chars
pub mod Bounds
pub mod Examples
use majsoulmanager.Prelude.{
  ℕ, ◌-◌, ◌^◌, Bool, true, false, not, ◌&&◌, ◌||◌, List, [], ◌∷◌, ◌++◌, Option, none, some, ltb,
  leb, ◌==◌, if◌then◌else◌, length, take, map,
}
use majsoulmanager.Prelude.Int.{ℤ}
use majsoulmanager.Prelude.Text.{Text, codes, text_eq}
use majsoulmanager.Json.{Json}
use majsoulmanager.Proto.Text.{from_utf8_lossy}
use majsoulmanager.Proto.Record.{is_empty}
use majsoulmanager.Replay.Reading.{and_then}
use majsoulmanager.Convert.Ranks.{digits}
use majsoulmanager.Mjai.Chars.{trim, lines, take_chars, starts_with}

-- Milliseconds since 1970.
abbrev pub DateTime : Type 0
DateTime = ℤ

pub record Metadata : Type 0 where
  pub players : List Text
  pub rule : Option Text
  pub event_count : ℕ
  pub played_at : Option DateTime
  pub majsoul_uuid : Option Text

pub data ParseError : Type 0 where
  utf8 empty json not_events : ParseError

pub data Parsed {ℓ} (A : Type ℓ) : Type ℓ where
  err : ParseError → Parsed A
  ok : A → Parsed A

infixl 5 ◌>>=◌
abbrev pub ◌>>=◌ {ℓ κ} : {B : Type κ} {A : Type ℓ} → Parsed A → (A → Parsed B) → Parsed B
err e >>= next = err e
ok a >>= next = next a

abbrev pub or_err {ℓ} : {A : Type ℓ} → Option A → ParseError → Parsed A
or_err none e = err e
or_err (some a) e = ok a

-- `str::from_utf8`: nothing would be replaced.
unfoldable pub from_utf8 : List ℕ → Parsed Text
unfolding from_utf8_lossy text_eq
from_utf8 payload =
    if text_eq (from_utf8_lossy payload) payload then ok payload else err ParseError.utf8

unfoldable pub is_blank : Text → Bool
unfolding trim
is_blank line = is_empty (trim line)

-- `filter(..)` of the uuid.
unfoldable pub is_identity : Text → Bool
is_identity uuid = not (is_empty uuid) && leb (length uuid) 128

abbrev pub keep_identity : Text → Option Text
keep_identity uuid = if is_identity uuid then some uuid else none

-- `try_into().unwrap_or(u32::MAX)`
unfoldable pub count_of : ℕ → ℕ
count_of n = if ltb n (2 ^ 32) then n else 2 ^ 32 - 1

module _ (j : Json) (from_str : Text → Option (j.Value))
    (from_timestamp : ℤ → Option DateTime) where
  open j use {Value, get, as_str, as_u64, as_i64, as_array, is_object, to_string}

  -- The lines in `events`.
  unfoldable pub event_lines : List Text → Parsed (List Value)
  event_lines [] = ok []
  event_lines (line ∷ rest) =
      let parsed = event_lines rest in
      if is_blank line
      then parsed
      else (do value ← or_err (from_str line) ParseError.json; values ← parsed; ok (value ∷ values))

  unfoldable pub any_other : List Value → Bool
  any_other [] = false
  any_other (event ∷ rest) = not (is_object event) || any_other rest

  -- Both shapes of a payload, in `events`.
  unfoldable pub parse_events : Text → Parsed (List Value)
  unfolding event_lines trim lines starts_with
  parse_events text =
      if starts_with (trim text) b'['
      then or_err (and_then (from_str (trim text)) as_array) ParseError.json
      else event_lines (lines text)

  unfoldable pub events : List ℕ → Parsed (List Value)
  unfolding from_utf8 is_blank parse_events any_other
  events payload = do
    text ← from_utf8 payload
    if is_blank text then err ParseError.empty else (do
      values ← parse_events text
      if is_empty values || any_other values then err ParseError.not_events else ok values)

  -- The lines in `parse_metadata`.
  unfoldable pub metadata_lines : List Text → Parsed (List Value)
  metadata_lines [] = ok []
  metadata_lines (line ∷ rest) =
      let parsed = metadata_lines rest in
      if is_blank line
      then parsed
      else (do value ← or_err (from_str line) ParseError.json; values ← parsed; ok (value ∷ values))

  -- Both shapes of a payload, in `parse_metadata`.
  unfoldable pub metadata_events : Text → Parsed (List Value)
  unfolding metadata_lines trim lines starts_with
  metadata_events text =
      if starts_with (trim text) b'['
      then or_err (and_then (from_str (trim text)) as_array) ParseError.json
      else metadata_lines (lines text)

  -- The objects that `parse_metadata` asks for.
  unfoldable pub metadata_other : List Value → Bool
  metadata_other [] = false
  metadata_other (event ∷ rest) = not (is_object event) || metadata_other rest

  unfoldable pub is_start_game : Value → Bool
  unfolding text_eq
  is_start_game event = elim (and_then (get event (codes "type")) as_str) [
    | none ↦ false
    | some kind ↦ text_eq kind (codes "start_game")
  ]

  -- The first `start_game`, or the event that stands in for it.
  unfoldable pub find_start : Value → List Value → Value
  unfolding is_start_game
  find_start first [] = first
  find_start first (event ∷ rest) = if is_start_game event then event else find_start first rest

  unfoldable pub names_of : List Value → List Text
  unfolding take_chars
  names_of [] = []
  names_of (name ∷ rest) = elim (as_str name) [
    | none ↦ names_of rest
    | some text ↦ take_chars 128 text ∷ names_of rest
  ]

  abbrev or_none : Option (List Value) → List Value
  or_none none = []
  or_none (some values) = values

  unfoldable pub players_of : Value → List Text
  unfolding names_of
  players_of start = names_of (or_none (and_then (get start (codes "names")) as_array))

  unfoldable pub rule_text : Value → Text
  rule_text rule = elim (as_str rule) [ none ↦ to_string rule | some value ↦ take_chars 256 value ]

  -- `{players}p-{room}-{length}`
  unfoldable pub header_rule : Value → Option Text
  unfolding digits
  header_rule header = and_then (and_then (get header (codes "players")) as_u64) λ players.
      and_then (and_then (get header (codes "room")) as_str) λ room.
        and_then (and_then (get header (codes "game_length")) as_str) λ game_length.
          some (digits 20 players ++ (codes "p-" ++ (room ++ (codes "-" ++ game_length))))

  unfoldable pub rule_of : Value → Option Text
  unfolding rule_text header_rule
  rule_of start = elim (get start (codes "rule")) [
    | none ↦ and_then (get start (codes "majsoul")) header_rule
    | some rule ↦ some (rule_text rule)
  ]

  unfoldable pub played_at_of : Value → Option DateTime
  played_at_of start =
      and_then (get start (codes "majsoul"))
        λ majsoul. and_then (and_then (get majsoul (codes "start_time")) as_i64) from_timestamp

  unfoldable pub majsoul_uuid_of : Value → Option Text
  unfolding trim is_identity
  majsoul_uuid_of start = and_then (get start (codes "majsoul")) λ majsoul.
      and_then (and_then (get majsoul (codes "uuid")) as_str) λ uuid. keep_identity (trim uuid)

  unfoldable pub metadata_of : List Value → Value → Metadata
  unfolding players_of rule_of played_at_of majsoul_uuid_of count_of
  metadata_of values start = record {
    players = players_of start;
    rule = rule_of start;
    event_count = count_of (length values);
    played_at = played_at_of start;
    majsoul_uuid = majsoul_uuid_of start;
  }

  abbrev first_metadata : List Value → Parsed Metadata
  first_metadata [] = err ParseError.not_events
  first_metadata (first ∷ rest) =
      if metadata_other (first ∷ rest)
      then err ParseError.not_events
      else ok (metadata_of (first ∷ rest) (find_start first (first ∷ rest)))

  unfoldable pub parse_metadata : List ℕ → Parsed Metadata
  unfolding from_utf8 is_blank metadata_events metadata_other metadata_of find_start
  parse_metadata payload = do
    text ← from_utf8 payload
    if is_blank text
        then err ParseError.empty
        else (do values ← metadata_events text; first_metadata values)
