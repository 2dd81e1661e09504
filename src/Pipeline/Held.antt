-- ===== src/Pipeline/Held.antt =====
-- Which records of the topic the worker of src/indexer.rs has indexed or holds in its open pack.
use majsoulmanager.Prelude.{
  ℕ, ◌<◌, ◌≡◌, ◌⊎◌, inl, refl, sym, subst, ap, ◌∙◌, List, [], ◌∷◌, ◌++◌, Option, none, some, length,
  take, drop, All, All-map, Any, Any-map, Any-back, arith,
}
use majsoulmanager.Prelude.Text.{Text}
use majsoulmanager.Replay.Reading.{unwrap_or}
use majsoulmanager.Mjai.{Metadata, Parsed}
use majsoulmanager.Kafka.Message.{IngestMessage, TopicRecord, Received, from_record}
use majsoulmanager.Pack.Format.{Result, PackWriter}
use majsoulmanager.Pack.Store.{read_object}
use majsoulmanager.Pipeline.Types.{Outside, Record}
use majsoulmanager.Pipeline.World.{World, lookup}
use majsoulmanager.Pipeline.Worker.{Worker, discard}
use majsoulmanager.Pipeline.Packing.{metadata_for}
use majsoulmanager.Pipeline.Packing.Stored.{Ranges, Serves, Reads}
use majsoulmanager.Pipeline.Packing.Batch.{IsRowOf, IsSound}

-- A ranged request to the bucket.
abbrev pub range_of : Option (List ℕ) → ℕ → ℕ → Option (List ℕ)
range_of none position n = none
range_of (some file) position n = some (take n (drop position file))

abbrev pub bucket_range : List (Text × List ℕ) → Ranges
bucket_range bucket key position n = range_of (lookup key bucket) position n

bucket_range-Serves :
    (bucket : List (Text × List ℕ)) (key : Text) (file : List ℕ)
    → lookup key bucket ≡ some file
    → Serves (bucket_range bucket) key file
bucket_range-Serves bucket key file found position n fits = rw found refl

-- The records below an offset.
abbrev pub Below : (TopicRecord → Type 0) → ℕ → List (ℕ × TopicRecord) → Type 0
Below P n log = All (λ (offset, r). offset < n → P r) log

pub Below-map :
    (P Q : TopicRecord → Type 0) (n : ℕ) (log : List (ℕ × TopicRecord))
    → ((r : TopicRecord) → P r → Q r)
    → Below P n log
    → Below Q n log
Below-map P Q n log f =
    All-map (λ (offset, r). offset < n → P r) (λ (offset, r). offset < n → Q r) log
      (λ (offset, r) h below. f r (h below))

pub Below-zero : (P : TopicRecord → Type 0) (log : List (ℕ × TopicRecord)) → Below P 0 log
Below-zero P [] = tt
Below-zero P ((offset, r) ∷ log) = (λ below. absurd (omega (arith, below)), Below-zero P log)

-- A world that comes after another.
pub record Later (world world' : World) : Type 0 where
  pub keeps :
      (k : Text) (file : List ℕ)
      → lookup k world.bucket ≡ some file
      → lookup k world'.bucket ≡ some file
  pub new : List Record
  pub index : world'.index ≡ new ++ world.index

module _ (x : Outside) where
  -- The bytes are in the bucket, at the row's location.
  abbrev pub Finds : List (Text × List ℕ) → List ℕ → Record → Type 0
  Finds bucket raw row =
      (file : List ℕ) × (lookup row.storage.pack_key bucket ≡ some file)
      × Reads x.zstd row.storage.pack_key file row.storage raw

  pub Finds-read_object :
      (bucket : List (Text × List ℕ)) (raw : List ℕ) (row : Record)
      → Finds bucket raw row
      → read_object x.zstd (bucket_range bucket) row.storage ≡ Result.ok raw
  Finds-read_object bucket raw row (file, found, reads) =
      reads.1 (bucket_range bucket) (bucket_range-Serves bucket row.storage.pack_key file found)

  Finds-Later :
      (world world' : World) (raw : List ℕ) (row : Record)
      → Later world world'
      → Finds world.bucket raw row
      → Finds world'.bucket raw row
  Finds-Later world world' raw row l (file, found, reads) =
      (file, l.keeps row.storage.pack_key file found, reads)

  pub Finds-sent :
      (bucket : List (Text × List ℕ)) (key : Text) (file raw : List ℕ) (row : Record)
      → lookup key bucket ≡ some file
      → Reads x.zstd key file row.storage raw
      → Finds bucket raw row
  Finds-sent bucket key file raw row there (keyed, reads) = (
    file,
    ap (λ k. lookup k bucket) keyed ∙ there,
    (
      refl,
      subst (λ k. (r : Ranges) → Serves r k file → read_object x.zstd r row.storage ≡ Result.ok raw)
          (sym keyed) reads,
    ),
  )

  -- What holds of the message in a record, if there is one that parses.
  abbrev pub ForMessage : (IngestMessage → Type 0) → TopicRecord → Type 0
  ForMessage P r =
      (m : IngestMessage) (metadata : Metadata)
      → from_record x.writing r ≡ Received.ok m
      → metadata_for x m.raw ≡ Parsed.ok metadata
      → P m

  abbrev pub IsIndexed : World → TopicRecord → Type 0
  IsIndexed world =
      ForMessage λ m. Any (λ row. (row.id ≡ m.record_id) × Finds world.bucket m.raw row) world.index

  pub IsIndexed-Later :
      (world world' : World) (r : TopicRecord)
      → Later world world'
      → IsIndexed world r
      → IsIndexed world' r
  IsIndexed-Later world world' r l h m metadata read parsed =
      let P : Record → Type 0 = λ row. (row.id ≡ m.record_id) × Finds world'.bucket m.raw row in
      subst (λ index. Any P index) (sym l.index)
        (Any-back P l.new world.index (
          Any-map (λ row. (row.id ≡ m.record_id) × Finds world.bucket m.raw row) P world.index
            (λ row (same, finds). (same, Finds-Later world world' m.raw row l finds))
            (h m metadata read parsed)))

  -- The open pack has a row for it.
  abbrev pub IsPacked : PackWriter → List Record → TopicRecord → Type 0
  IsPacked writer rows = ForMessage λ m. Any (IsRowOf x writer.key writer.file m) rows

  abbrev pub IsHeld : World → Worker → TopicRecord → Type 0
  IsHeld world w r =
      IsIndexed world r
      ⊎ ((writer : PackWriter) × (w.pack ≡ some writer) × IsPacked writer w.rows r)

  -- A row whose bytes can be read, with their digest.
  abbrev pub IsReadable : List (Text × List ℕ) → Record → Type 0
  IsReadable bucket row = (raw : List ℕ) × (row.sha256 ≡ x.sha256_hex raw) × Finds bucket raw row

  pub record WorldKeeps (log : List (ℕ × TopicRecord)) (world : World) : Type 0 where
    pub indexed : Below (IsIndexed world) (unwrap_or world.stored 0) log
    pub readable : All (IsReadable world.bucket) world.index

  -- The open pack is new to the bucket, and its rows are of it.
  pub record IsOpen (world : World) (rows : List Record) (writer : PackWriter) : Type 0 where
    pub new : lookup writer.key world.bucket ≡ none
    pub sized : writer.size ≡ length writer.file
    pub sound : All (IsSound x writer.key writer.file) rows

  abbrev pub PackKeeps : World → List Record → Option PackWriter → Type 0
  PackKeeps world rows none = rows ≡ []
  PackKeeps world rows (some writer) = IsOpen world rows writer

  pub record WorkerKeeps (log : List (ℕ × TopicRecord)) (world : World) (w : Worker) : Type 0 where
    pub committed : Below (IsIndexed world) w.committed log
    pub held : Below (IsHeld world w) w.cursor log
    pub pack : PackKeeps world w.rows w.pack

  pub IsReadable-Later :
      (world world' : World)
      → Later world world'
      → All (IsReadable world.bucket) world.index
      → All (IsReadable world'.bucket) world.index
  IsReadable-Later world world' l =
      All-map (IsReadable world.bucket) (IsReadable world'.bucket) world.index
        (λ row (raw, digest, finds). (raw, digest, Finds-Later world world' raw row l finds))

  pub discard-WorkerKeeps :
      (log : List (ℕ × TopicRecord)) (world : World) (w : Worker)
      → Below (IsIndexed world) w.committed log
      → WorkerKeeps log world (discard w)
  unfolding discard
  discard-WorkerKeeps log world w h = record {
    committed = h;
    held = Below-map (IsIndexed world) (IsHeld world (discard w)) w.committed log (λ r i. inl i) h;
    pack = refl;
  }
