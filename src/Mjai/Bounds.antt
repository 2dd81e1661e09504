-- ===== src/Mjai/Bounds.antt =====
-- `events` against `parse_metadata` of src/mjai.rs, and what the metadata keeps to.
use majsoulmanager.Prelude.{
  ℕ, ◌-◌, ◌^◌, ◌≤◌, ◌<◌, ◌≡◌, ◌⊎◌, inl, inr, refl, false, List, [], ◌∷◌, Option, none, some, length,
  arith, Bool-cases,
}
use majsoulmanager.Prelude.Int.{ℤ}
use majsoulmanager.Prelude.Text.{Text, codes}
use majsoulmanager.Json.{Json}
use majsoulmanager.Replay.Reading.{and_then}
use majsoulmanager.Mjai.Chars.{trim, lines}
use majsoulmanager.Mjai.{
  DateTime, Metadata, ParseError, Parsed, ok, err, from_utf8, is_blank, is_identity, keep_identity,
  count_of, any_other, event_lines, parse_events, events, metadata_lines, metadata_events,
  find_start, majsoul_uuid_of, metadata_of, first_metadata, parse_metadata,
}

-- A uuid that names a game: 128 bytes at most, and not empty.
abbrev pub IsIdentity : Option Text → Type 0
IsIdentity none = Unit
IsIdentity (some uuid) = (1 ≤ length uuid) × (length uuid ≤ 128)

keep_identity-IsIdentity : (uuid : Text) → IsIdentity (keep_identity uuid)
unfolding is_identity
keep_identity-IsIdentity [] = ground arith
keep_identity-IsIdentity (b ∷ uuid) = elim (Bool-cases (is_identity (b ∷ uuid))) [
  | inl kept ↦ rw kept (ground arith)
  | inr dropped ↦ rw dropped tt
]

and_then-IsIdentity :
    {A : Type 0} (o : Option A) (f : A → Option Text)
    → ((a : A) → IsIdentity (f a))
    → IsIdentity (and_then o f)
and_then-IsIdentity none f h = tt
and_then-IsIdentity (some a) f h = h a

count_of-fits : (n : ℕ) → n < 2 ^ 32 → count_of n ≡ n
unfolding count_of
count_of-fits n fits = ground arith

count_of-over : (n : ℕ) → 2 ^ 32 ≤ n → count_of n ≡ 2 ^ 32 - 1
unfolding count_of
count_of-over n over = ground arith

Parsed-cases :
    {A : Type 0} (r : Parsed A) → ((e : ParseError) × (r ≡ err e)) ⊎ ((a : A) × (r ≡ ok a))
Parsed-cases (err e) = inl (e, refl)
Parsed-cases (ok a) = inr (a, refl)

module _ (j : Json) (from_str : Text → Option (j.Value))
    (from_timestamp : ℤ → Option DateTime) where
  open j use {Value, get, as_str}

  majsoul_uuid_of-IsIdentity :
      (start : Value) → IsIdentity (majsoul_uuid_of j from_str from_timestamp start)
  unfolding majsoul_uuid_of
  majsoul_uuid_of-IsIdentity start = and_then-IsIdentity (get start (codes "majsoul")) _ λ majsoul.
      and_then-IsIdentity (and_then (get majsoul (codes "uuid")) as_str) _
        λ uuid. keep_identity-IsIdentity (trim uuid)

  metadata_lines-event_lines :
      (ls : List Text)
      → metadata_lines j from_str from_timestamp ls ≡ event_lines j from_str from_timestamp ls
  unfolding metadata_lines event_lines
  metadata_lines-event_lines [] = refl
  metadata_lines-event_lines (line ∷ rest) = rw (metadata_lines-event_lines rest) refl

  -- The two copies of the parsing agree.
  metadata_events-parse_events :
      (text : Text)
      → metadata_events j from_str from_timestamp text ≡ parse_events j from_str from_timestamp text
  unfolding metadata_events parse_events
  metadata_events-parse_events text = rw (metadata_lines-event_lines (lines text)) refl

  -- What both readers make of a payload.
  pub data Read (payload : List ℕ) : Type 0 where
    refused :
        (e : ParseError)
        → events j from_str from_timestamp payload ≡ err e
        → parse_metadata j from_str from_timestamp payload ≡ err e
        → Read payload
    taken :
        (values : List Value) (m : Metadata)
        → events j from_str from_timestamp payload ≡ ok values
        → parse_metadata j from_str from_timestamp payload ≡ ok m
        → 1 ≤ length values
        → (length values < 2 ^ 32 → m.event_count ≡ length values)
        → (2 ^ 32 ≤ length values → m.event_count ≡ 2 ^ 32 - 1)
        → IsIdentity m.majsoul_uuid
        → Read payload

  Read-values :
      (payload : List ℕ) (text : Text) (values : List Value)
      → from_utf8 payload ≡ ok text
      → is_blank text ≡ false
      → parse_events j from_str from_timestamp text ≡ ok values
      → Read payload
  unfolding events parse_metadata metadata_of
  Read-values payload text [] utf full parsed =
      Read.refused ParseError.not_events (rw (utf, events, full, parsed) refl)
        (rw (utf, parse_metadata, full, metadata_events-parse_events text, parsed) refl)
  Read-values payload text (first ∷ rest) utf full parsed =
      elim (Bool-cases (any_other j from_str from_timestamp (first ∷ rest))) [
        | inl other ↦
            Read.refused ParseError.not_events (rw (utf, events, full, parsed, other) refl) (
              rw
                (
                  utf,
                  parse_metadata,
                  full,
                  metadata_events-parse_events text,
                  parsed,
                  first_metadata,
                  other,
                )
                refl)
        | inr objects ↦
            Read.taken (first ∷ rest)
              (metadata_of j from_str from_timestamp (first ∷ rest)
                (find_start j from_str from_timestamp first (first ∷ rest)))
              (rw (utf, events, full, parsed, objects) refl)
              (rw
                (
                  utf,
                  parse_metadata,
                  full,
                  metadata_events-parse_events text,
                  parsed,
                  first_metadata,
                  objects,
                )
                refl)
              (omega arith) (λ fits. count_of-fits (length (first ∷ rest)) fits)
              (λ over. count_of-over (length (first ∷ rest)) over)
              (majsoul_uuid_of-IsIdentity
                (find_start j from_str from_timestamp first (first ∷ rest)))
      ]

  -- `events` and `parse_metadata` refuse the same payloads with the same error; where they take one,
  -- it has an event at least, the metadata counts the events, or has the largest u32 where they are
  -- more than that, and a uuid in it has 1 to 128 bytes.
  pub events-parse_metadata : (payload : List ℕ) → Read payload
  unfolding events parse_metadata
  events-parse_metadata payload = elim (Parsed-cases (from_utf8 payload)) [
    | inl (e, ill) ↦ Read.refused e (rw (ill, events) refl) (rw (ill, parse_metadata) refl)
    | inr (text, utf) ↦ elim (Bool-cases (is_blank text)) [
      | inl blank ↦
          Read.refused ParseError.empty (rw (utf, events, blank) refl)
            (rw (utf, parse_metadata, blank) refl)
      | inr full ↦ elim (Parsed-cases (parse_events j from_str from_timestamp text)) [
        | inl (e, bad) ↦
            Read.refused e (rw (utf, events, full, bad) refl)
              (rw (utf, parse_metadata, full, metadata_events-parse_events text, bad) refl)
        | inr (values, parsed) ↦ Read-values payload text values utf full parsed
      ]
    ]
  ]
