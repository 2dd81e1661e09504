-- ===== src/Pipeline/Safety.antt =====
-- The worker of src/indexer.rs never commits past a record that is not indexed, whatever fails and
-- whenever the process starts anew.
use majsoulmanager.Prelude.{
  ℕ, ◌≡◌, inl, inr, refl, Bool, true, false, ◌&&◌, ◌||◌, List, [], ◌∷◌, Option, none, some, All,
  All-map, Any, Any-map, Bool-cases,
}
use majsoulmanager.Prelude.Text.{Text}
use majsoulmanager.Replay.Reading.{unwrap_or}
use majsoulmanager.Replay.Hands.{is_some}
use majsoulmanager.Kafka.Message.{TopicRecord}
use majsoulmanager.Pack.Format.{Result}
use majsoulmanager.Pack.Store.{read_object}
use majsoulmanager.Pipeline.Types.{Outside, Record}
use majsoulmanager.Pipeline.World.{World, lookup}
use majsoulmanager.Pipeline.Worker.{Worker, Turn, Taken, Config, start, pack_is_ready}
use majsoulmanager.Pipeline.Run.{
  Event, stop_or, after_fetch, fetch_step, seal, seal_step, turn, happen, run,
}
use majsoulmanager.Pipeline.Held.{
  bucket_range, Below, Below-map, Below-zero, ForMessage, Finds, Finds-read_object, IsIndexed,
  IsHeld, IsReadable, WorldKeeps, WorkerKeeps,
}
use majsoulmanager.Pipeline.Sealing.{seal-Keeps}
use majsoulmanager.Pipeline.Fetching.{IsWhole, TakenKeeps, take_fetched-Keeps}

-- A bucket that holds something, and nothing indexed or committed.
abbrev pub new_world : List (Text × List ℕ) → World
new_world bucket = record { bucket = bucket; index = []; games = []; stored = none }

module _ (x : Outside) where
  -- The record, if it has a message that parses, has a row by which the bucket reads its bytes.
  abbrev pub IsServed : World → TopicRecord → Type 0
  IsServed world = ForMessage x λ m.
      Any
        (λ row.
          (row.id ≡ m.record_id)
          × (read_object x.zstd (bucket_range world.bucket) row.storage ≡ Result.ok m.raw))
        world.index

  abbrev pub ReadsBack : World → Record → Type 0
  ReadsBack world row =
      (raw : List ℕ) × (row.sha256 ≡ x.sha256_hex raw)
      × (read_object x.zstd (bucket_range world.bucket) row.storage ≡ Result.ok raw)

  pub IsIndexed-IsServed :
      (world : World) (r : TopicRecord) → IsIndexed x world r → IsServed world r
  IsIndexed-IsServed world r h m metadata read parsed =
      Any-map (λ row. (row.id ≡ m.record_id) × Finds x world.bucket m.raw row)
        (λ row.
          (row.id ≡ m.record_id)
          × (read_object x.zstd (bucket_range world.bucket) row.storage ≡ Result.ok m.raw))
        world.index (λ row (same, finds). (same, Finds-read_object x world.bucket m.raw row finds))
        (h m metadata read parsed)

module _ (x : Outside) (config : Config) (log : List (ℕ × TopicRecord)) where
  abbrev WorkerKept : World → Option Worker → Type 0
  WorkerKept world none = Unit
  WorkerKept world (some w) = WorkerKeeps x log world w

  abbrev Kept : World × Option Worker → Type 0
  Kept (world, w) = WorldKeeps x log world × WorkerKept world w

  -- A turn's fetch leaves nothing of the topic out, and a new pack's key is not in the bucket.
  abbrev pub IsFaithful : Event x config → World × Option Worker → Type 0
  IsFaithful (Event.turns t) (world, some w) =
      IsWhole x log w.cursor t.fetching
      × ((key : Text) → t.created ≡ some key → lookup key world.bucket ≡ none)
  IsFaithful _ _ = Unit

  abbrev pub AreFaithful : List (Event x config) → World × Option Worker → Type 0
  AreFaithful [] state = Unit
  AreFaithful (e ∷ events) state = IsFaithful e state × AreFaithful events (happen x config e state)

  stop_or-Kept :
      (stopping : Bool) (s : World × Worker)
      → WorldKeeps x log s.0
      → WorkerKeeps x log s.0 s.1
      → Kept (stop_or x config stopping s)
  stop_or-Kept true s keeps worker = (keeps, tt)
  stop_or-Kept false s keeps worker = (keeps, worker)

  seal_step-Kept :
      (t : Turn) (world : World) (w : Worker)
      → WorldKeeps x log world
      → WorkerKeeps x log world w
      → Kept (seal_step x config t world w)
  unfolding seal_step
  seal_step-Kept t world w keeps worker =
      elim (Bool-cases ((t.stopping || pack_is_ready config t.elapsed w) && is_some w.pack)) [
        | inl seals ↦
            let (keeps', worker') = seal-Keeps x log t.answers world w w.pack refl keeps worker in
            rw seals (stop_or-Kept t.stopping (seal t.answers w w.pack world) keeps' worker')
        | inr goes_on ↦ rw goes_on (stop_or-Kept t.stopping (world, w) keeps worker)
      ]

  after_fetch-Kept :
      (t : Turn) (world : World) (taken : Taken)
      → WorldKeeps x log world
      → TakenKeeps x world log taken
      → Kept (after_fetch x config t world taken)
  after_fetch-Kept t world Taken.panics keeps worker = (keeps, tt)
  after_fetch-Kept t world (Taken.continues w) keeps worker = (keeps, worker)
  after_fetch-Kept t world (Taken.goes w) keeps worker = seal_step-Kept t world w keeps worker

  fetch_step-TakenKeeps :
      (t : Turn) (world : World) (w : Worker)
      → WorkerKeeps x log world w
      → IsFaithful (Event.turns t) (world, some w)
      → TakenKeeps x world log (fetch_step x config t w)
  unfolding fetch_step
  fetch_step-TakenKeeps t world w worker (whole, new) = elim (Bool-cases t.stopping_before) [
    | inl stopping ↦ rw stopping worker
    | inr going ↦
        rw going (take_fetched-Keeps x world log config w t.created worker new t.fetching whole)
  ]

  happen-Kept :
      (e : Event x config) (state : World × Option Worker)
      → IsFaithful e state
      → Kept state
      → Kept (happen x config e state)
  unfolding happen turn start
  happen-Kept (Event.turns t) (world, none) faithful kept = kept
  happen-Kept (Event.turns t) (world, some w) faithful (keeps, worker) =
      after_fetch-Kept t world (fetch_step x config t w) keeps
        (fetch_step-TakenKeeps t world w worker faithful)
  happen-Kept (Event.starts true) (world, w) faithful (keeps, worker) = (
    keeps,
    record {
      committed = keeps.indexed;
      held =
          Below-map (IsIndexed x world) (IsHeld x world (start world.stored))
            (unwrap_or world.stored 0) log (λ r i. inl i) keeps.indexed;
      pack = refl;
    },
  )
  happen-Kept (Event.starts false) (world, w) faithful (keeps, worker) = (keeps, tt)

  run-Kept :
      (events : List (Event x config)) (state : World × Option Worker)
      → AreFaithful events state
      → Kept state
      → Kept (run x config events state)
  unfolding run
  run-Kept [] state faithful kept = kept
  run-Kept (e ∷ events) state (one, more) kept =
      run-Kept events (happen x config e state) more (happen-Kept e state one kept)

-- From a bucket of any content, an empty index and no stored offset, through any turns of the worker
-- and any starts of the process: where each fetch brings every record of the topic between the cursor
-- and the offset behind it, with ids of sixteen bytes that are not nil, and the key of a new pack is
-- not in the bucket, every record of the topic below the stored offset whose message parses has a row
-- of its id, by which its bytes are read from the bucket; and by every row of the index bytes of the
-- row's digest are read. A turn may have any call fail, also after it took effect.
pub run-IsServed :
    (x : Outside) (config : Config) (log : List (ℕ × TopicRecord)) (bucket : List (Text × List ℕ))
    (events : List (Event x config))
    → AreFaithful x config log events (new_world bucket, none)
    → Below
        (IsServed x (run x config events (new_world bucket, none)).0)
        (unwrap_or ((run x config events (new_world bucket, none)).0).stored 0)
        log
      × All
          (ReadsBack x (run x config events (new_world bucket, none)).0)
          ((run x config events (new_world bucket, none)).0).index
run-IsServed x config log bucket events faithful =
    let world : World = (run x config events (new_world bucket, none)).0 in
    let (keeps, worker) =
      run-Kept x config log events (new_world bucket, none) faithful
        (record { indexed = Below-zero (IsIndexed x (new_world bucket)) log; readable = tt }, tt) in
    (
      Below-map (IsIndexed x world) (IsServed x world) (unwrap_or world.stored 0) log
          (IsIndexed-IsServed x world) keeps.indexed,
      All-map (IsReadable x world.bucket) (ReadsBack x world) world.index
          (λ row (raw, digest, finds).
            (raw, digest, Finds-read_object x world.bucket raw row finds))
          keeps.readable,
    )
