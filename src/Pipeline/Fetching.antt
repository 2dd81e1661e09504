-- ===== src/Pipeline/Fetching.antt =====
-- What a fetch of the worker of src/indexer.rs may leave out, and what the worker holds behind it.
use majsoulmanager.Prelude.{
  ℕ, ◌≤◌, ◌<◌, ◌≡◌, ◌⊎◌, inl, inr, refl, sym, subst, ap, ◌∙◌, List, [], ◌∷◌, Option, none, some,
  leb, leb→le, All, All-both, Any, Bool-cases, arith,
}
use majsoulmanager.Prelude.Text.{Text}
use majsoulmanager.Mjai.{Metadata, Parsed}
use majsoulmanager.Kafka.{Fetched, next_offset, is_end_of_log}
use majsoulmanager.Kafka.Message.{IngestMessage, TopicRecord, Received, from_record}
use majsoulmanager.Pack.Format.Recovery.{IsRecord}
use majsoulmanager.Pipeline.Types.{Outside}
use majsoulmanager.Pipeline.World.{World, lookup}
use majsoulmanager.Pipeline.Worker.{Worker, Taken, Fetching, Config, of_received, decode, append}
use majsoulmanager.Pipeline.Run.{after_append, take_fetched}
use majsoulmanager.Pipeline.Packing.{Packed, metadata_for}
use majsoulmanager.Pipeline.Packing.Batch.{IsRowOf}
use majsoulmanager.Pipeline.Filling.{IsIn, Filled, append-Filled}
use majsoulmanager.Pipeline.Held.{Below, IsIndexed, IsHeld, WorkerKeeps, discard-WorkerKeeps}

ok-injective : (a b : IngestMessage) → Received.ok a ≡ Received.ok b → a ≡ b
ok-injective a b h = ground (arith, h)

le_or_lt : (a b : ℕ) → (a ≤ b) ⊎ (b < a)
le_or_lt a b = elim (Bool-cases (leb a b)) [
  | inl small ↦ inl (leb→le a b small)
  | inr large ↦ inr (ground (arith, large))
]

module _ (x : Outside) where
  -- An id in a message has sixteen bytes and is not nil.
  abbrev pub HasId : TopicRecord → Type 0
  HasId r =
      (m : IngestMessage) → from_record x.writing r ≡ Received.ok m → IsRecord (m.record_id, [])

  -- The fetch brings every record of the topic between the cursor and the offset that follows.
  abbrev pub IsWhole : List (ℕ × TopicRecord) → ℕ → Fetching → Type 0
  IsWhole log cursor Fetching.interrupted = Unit
  IsWhole log cursor Fetching.failed = Unit
  IsWhole log cursor (Fetching.brought fetched) =
      All
        (λ (offset, r).
          cursor ≤ offset
          → offset < next_offset fetched
          → Any (λ (at, brought). (at ≡ offset) × (brought ≡ r)) fetched.records)
        log
      × All (λ (at, r). HasId r) fetched.records

  decode-HasId :
      (records : List (ℕ × TopicRecord))
      → All (λ (at, r). HasId r) records
      → All (λ m. IsRecord (m.record_id, [])) (decode x records)
  unfolding decode
  decode-HasId [] h = tt
  decode-HasId ((at, r) ∷ records) (h, hs) =
      received (from_record x.writing r) refl (decode-HasId records hs)
    where
      received :
          (e : Received IngestMessage)
          → from_record x.writing r ≡ e
          → All (λ m. IsRecord (m.record_id, [])) (decode x records)
          → All (λ m. IsRecord (m.record_id, [])) (of_received e (decode x records))
      received (Received.err e) read rest = rest
      received (Received.ok m) read rest = (h m read, rest)

  decode-finds :
      (P : IngestMessage → Type 0) (records : List (ℕ × TopicRecord)) (offset : ℕ) (r : TopicRecord)
      (m : IngestMessage)
      → from_record x.writing r ≡ Received.ok m
      → Any (λ (at, brought). (at ≡ offset) × (brought ≡ r)) records
      → All P (decode x records)
      → P m
  unfolding decode
  decode-finds P [] offset r m read found h = elim found [ ]
  decode-finds P ((at, brought) ∷ records) offset r m read (inl (here, same)) h =
      let now : from_record x.writing brought ≡ Received.ok m =
        ap (λ t. from_record x.writing t) same ∙ read in
      (subst (λ e. All P (of_received e (decode x records))) now h).0
  decode-finds P ((at, brought) ∷ records) offset r m read (inr found) h =
      decode-finds P records offset r m read found (rest (from_record x.writing brought) h)
    where
      rest :
          (e : Received IngestMessage)
          → All P (of_received e (decode x records))
          → All P (decode x records)
      rest (Received.err e) h = h
      rest (Received.ok m) (h, hs) = hs

  module _ (world : World) (log : List (ℕ × TopicRecord)) where
    abbrev pub TakenKeeps : Taken → Type 0
    TakenKeeps Taken.panics = Unit
    TakenKeeps (Taken.continues w) = WorkerKeeps x log world w
    TakenKeeps (Taken.goes w) = WorkerKeeps x log world w

    -- A record whose message, if it has one, is in the open pack is held.
    IsIn-IsHeld :
        (w : Worker) (r : TopicRecord)
        → ((m : IngestMessage) → from_record x.writing r ≡ Received.ok m → IsIn x world w m)
        → IsHeld x world w r
    IsIn-IsHeld w r h = received (from_record x.writing r) refl
      where
        parsed_as :
            (m : IngestMessage) (p : Parsed Metadata)
            → from_record x.writing r ≡ Received.ok m
            → metadata_for x m.raw ≡ p
            → IsHeld x world w r
        parsed_as m (Parsed.err e) read failed =
            inl λ m' metadata read' parsed. absurd (cc (read, read', failed, parsed))
        parsed_as m (Parsed.ok metadata) read parsed =
            let (writer, packed, row) = h m read metadata parsed in
            inr (
              writer,
              packed,
              λ m' metadata' read' parsed'.
                  subst (λ t. Any (IsRowOf x writer.key writer.file t) w.rows)
                    (ok-injective m m' (sym read ∙ read')) row,
            )

        received : (e : Received IngestMessage) → from_record x.writing r ≡ e → IsHeld x world w r
        received (Received.err e) read = inl λ m metadata read' parsed. absurd (cc (read, read'))
        received (Received.ok m) read = parsed_as m (metadata_for x m.raw) read refl

    module _ (config : Config) (w : Worker) (created : Option Text)
        (worker : WorkerKeeps x log world w)
        (new : (key : Text) → created ≡ some key → lookup key world.bucket ≡ none) where
      Filled-IsHeld :
          (fetched : Fetched TopicRecord) (seen w' : Worker)
          → IsWhole log w.cursor (Fetching.brought fetched)
          → ((r : TopicRecord) → IsHeld x world w r → IsHeld x world seen r)
          → Filled x world seen w' (decode x fetched.records)
          → Below (IsHeld x world w') (next_offset fetched) log
      Filled-IsHeld fetched seen w' (whole, ids) same f =
          All-both (λ (offset, r). offset < w.cursor → IsHeld x world w r)
            (λ (offset, r).
              w.cursor ≤ offset
              → offset < next_offset fetched
              → Any (λ (at, brought). (at ≡ offset) × (brought ≡ r)) fetched.records)
            (λ (offset, r). offset < next_offset fetched → IsHeld x world w' r) log
            (λ (offset, r) held brings below. elim (le_or_lt w.cursor offset) [
              | inl ahead ↦ IsIn-IsHeld w' r λ m read.
                  decode-finds (IsIn x world w') fetched.records offset r m read
                    (brings ahead below) f.new
              | inr behind ↦ f.held r (same r (held behind))
            ])
            worker.held whole

      pub after_append-Keeps :
          (fetched : Fetched TopicRecord) (seen : Worker) (p : Packed Worker)
          → IsWhole log w.cursor (Fetching.brought fetched)
          → WorkerKeeps x log world seen
          → ((r : TopicRecord) → IsHeld x world w r → IsHeld x world seen r)
          → append x seen created (decode x fetched.records) ≡ p
          → TakenKeeps (after_append x config (next_offset fetched) seen p)
      after_append-Keeps fetched seen Packed.panic whole keeps same e = tt
      after_append-Keeps fetched seen (Packed.err f) whole keeps same e =
          discard-WorkerKeeps x log world seen keeps.committed
      after_append-Keeps fetched seen (Packed.ok w') (whole, ids) keeps same e =
          let f =
            append-Filled x world seen w' created (decode x fetched.records) keeps.pack new
              (decode-HasId fetched.records ids) e in
          record {
            committed =
                subst (λ n. Below (IsIndexed x world) n log) (sym f.committed) keeps.committed;
            held = Filled-IsHeld fetched seen w' (whole, ids) same f;
            pack = f.pack;
          }

      pub take_fetched-Keeps :
          (fetching : Fetching)
          → IsWhole log w.cursor fetching
          → TakenKeeps (take_fetched x config w created fetching)
      unfolding take_fetched
      take_fetched-Keeps Fetching.interrupted whole = worker
      take_fetched-Keeps Fetching.failed whole = worker
      take_fetched-Keeps (Fetching.brought fetched) whole =
          let seen : Worker = record w { at_end_of_log = is_end_of_log fetched } in
          after_append-Keeps fetched seen (append x seen created (decode x fetched.records)) whole
            (record { committed = worker.committed; held = worker.held; pack = worker.pack })
            (λ r h. h) refl
