-- ===== src/Pipeline/Drain.antt =====
-- `drain` of the worker in src/indexer.rs: fetches to the end of the log, then a seal.
use majsoulmanager.Prelude.{
  ℕ, ◌≡◌, ◌⊎◌, inl, inr, refl, subst, true, false, List, [], ◌∷◌, Option, none, some, length,
  Bool-cases, arith,
}
use majsoulmanager.Prelude.Text.{Text}
use majsoulmanager.Kafka.{Fetched, next_offset, is_end_of_log}
use majsoulmanager.Kafka.Message.{TopicRecord}
use majsoulmanager.Pack.Format.{PackError, PackWriter}
use majsoulmanager.Pipeline.Types.{Outside}
use majsoulmanager.Pipeline.World.{World, Tried, lookup}
use majsoulmanager.Pipeline.Worker.{Worker, Answers, Config, Fetching, start, decode, append}
use majsoulmanager.Pipeline.Run.{upload_and_index, after_commit}
use majsoulmanager.Pipeline.Packing.{Packed}
use majsoulmanager.Pipeline.Held.{
  Below, Below-map, Below-zero, IsIndexed, IsHeld, IsOpen, PackKeeps, WorldKeeps, WorkerKeeps,
}
use majsoulmanager.Pipeline.Outcome.{Outcome, upload_and_index-Outcome}
use majsoulmanager.Pipeline.Sealing.{all-IsIndexed}
use majsoulmanager.Pipeline.Fetching.{IsWhole, after_append-Keeps}
use majsoulmanager.Pipeline.Safety.{new_world, IsServed, IsIndexed-IsServed}

Packed-cases :
    {A : Type 0} (p : Packed A)
    → (p ≡ Packed.panic) ⊎ ((e : PackError) × (p ≡ Packed.err e)) ⊎ ((v : A) × (p ≡ Packed.ok v))
Packed-cases Packed.panic = inl refl
Packed-cases (Packed.err e) = inr (inl (e, refl))
Packed-cases (Packed.ok v) = inr (inr (v, refl))

-- `unfinished`: the log has not ended within the fetches.
pub data Drained : Type 0 where
  unfinished panics fails : Drained
  drained : ℕ → World → Worker → Drained

abbrev sealed_as : Worker → Tried Unit × World → Drained
sealed_as w (Tried.err e, world) = Drained.fails
sealed_as w (Tried.ok u, world) = Drained.drained (length w.rows) world (after_commit w)

abbrev pub last_seal : Answers → World → Worker → Option PackWriter → Drained
last_seal a world w none = Drained.drained (length w.rows) world w
last_seal a world w (some writer) = sealed_as w (upload_and_index a w writer world)

-- A fetch with the key of a new pack, or an error of the broker.
abbrev pub Fetches : Type 0
Fetches = List (Option Text × Option (Fetched TopicRecord))

module _ (x : Outside) (a : Answers) where
  unfoldable pub drain : World → Worker → Fetches → Drained
  unfolding decode append next_offset is_end_of_log upload_and_index
  drain world w [] = Drained.unfinished
  drain world w ((created, none) ∷ fetches) = Drained.fails
  drain world w ((created, some fetched) ∷ fetches) = elim (is_end_of_log fetched) [
    | true ↦ last_seal a world w w.pack
    | false ↦ elim (append x w created (decode x fetched.records)) [
      | Packed.panic ↦ Drained.panics
      | Packed.err e ↦ Drained.fails
      | Packed.ok w' ↦ drain world (record w' { cursor = next_offset fetched }) fetches
    ]
  ]

  module _ (config : Config) (log : List (ℕ × TopicRecord)) where
    -- Each fetch from a cursor leaves nothing of the topic out, and a new key is not in the bucket.
    abbrev pub AreWhole : World → ℕ → Fetches → Type 0
    AreWhole world cursor [] = Unit
    AreWhole world cursor ((created, none) ∷ fetches) = Unit
    AreWhole world cursor ((created, some fetched) ∷ fetches) =
        IsWhole x log cursor (Fetching.brought fetched)
        × ((key : Text) → created ≡ some key → lookup key world.bucket ≡ none)
        × AreWhole world (next_offset fetched) fetches

    last_seal-IsIndexed :
        (world : World) (w : Worker) (p : Option PackWriter) (n : ℕ) (world' : World) (w' : Worker)
        → w.pack ≡ p
        → WorldKeeps x log world
        → WorkerKeeps x log world w
        → last_seal a world w p ≡ Drained.drained n world' w'
        → Below (IsIndexed x world') w'.cursor log
    last_seal-IsIndexed world w none n world' w' packed keeps worker h =
        let same : world ≡ world' = ground (arith, h) in
        let cursor : w.cursor ≡ w'.cursor = ground (arith, h) in
        subst (λ v. Below (IsIndexed x v) w'.cursor log) same
          (subst (λ c. Below (IsIndexed x world) c log) cursor
            (Below-map (IsHeld x world w) (IsIndexed x world) w.cursor log
              (λ r held. elim held [
                | inl indexed ↦ indexed
                | inr (writer, has, pending) ↦ absurd (ground (arith, has, packed))
              ])
              worker.held))
    last_seal-IsIndexed world w (some writer) n world' w' packed keeps worker h =
        sealed (upload_and_index a w writer world)
          (upload_and_index-Outcome w writer world a isopen.new) h
      where
        isopen : IsOpen x world w.rows writer
        isopen = subst (λ p. PackKeeps x world w.rows p) packed worker.pack

        sealed :
            (r : Tried Unit × World)
            → Outcome w writer world r
            → sealed_as w r ≡ Drained.drained n world' w'
            → Below (IsIndexed x world') w'.cursor log
        sealed (Tried.err e, after) o h = absurd (ground (arith, h))
        sealed (Tried.ok u, after) o h =
            let (stored, whole, there) = o.answered u refl in
            let same : after ≡ world' = ground (arith, h) in
            let cursor : w.cursor ≡ w'.cursor = ground (arith, h) in
            subst (λ v. Below (IsIndexed x v) w'.cursor log) same
              (subst (λ c. Below (IsIndexed x after) c log) cursor
                (all-IsIndexed x log world w writer packed isopen keeps worker (Tried.ok u, after) o
                  whole there))

    drain-IsIndexed :
        (world : World) (w : Worker) (fetches : Fetches) (n : ℕ) (world' : World) (w' : Worker)
        → AreWhole world w.cursor fetches
        → WorldKeeps x log world
        → WorkerKeeps x log world w
        → drain world w fetches ≡ Drained.drained n world' w'
        → Below (IsIndexed x world') w'.cursor log
    unfolding drain
    drain-IsIndexed world w [] n world' w' whole keeps worker h = absurd (ground (arith, h))
    drain-IsIndexed world w ((created, none) ∷ fetches) n world' w' whole keeps worker h =
        absurd (ground (arith, h))
    drain-IsIndexed world w ((created, some fetched) ∷ fetches) n world' w' (whole, new, more) keeps
          worker h =
        elim (Bool-cases (is_end_of_log fetched)) [
          | inl ends ↦
              last_seal-IsIndexed world w w.pack n world' w' refl keeps worker
                (rw (ends, drain) at h)
          | inr goes_on ↦ elim (Packed-cases (append x w created (decode x fetched.records))) [
            | inl e ↦ absurd (ground (arith, rw (goes_on, e, drain) at h))
            | inr (inl (f, e)) ↦ absurd (ground (arith, rw (goes_on, e, drain) at h))
            | inr (inr (v, e)) ↦
                drain-IsIndexed world (record v { cursor = next_offset fetched }) fetches n world'
                  w' more keeps
                  (after_append-Keeps x world log config w created worker new fetched w
                    (Packed.ok v) whole worker (λ r held. held) e)
                  (rw (goes_on, e, drain) at h)
          ]
        ]

-- From a bucket of any content, an empty index and no stored offset: where each fetch brings every
-- record of the topic between the cursor and the offset behind it, with ids of sixteen bytes that are
-- not nil, the key of a new pack is not in the bucket, and drain answers, every record of the topic
-- below the cursor that it reached has, if its message parses, a row of its id by which its bytes are
-- read from the bucket.
pub drain-IsServed :
    (x : Outside) (a : Answers) (config : Config) (log : List (ℕ × TopicRecord))
    (bucket : List (Text × List ℕ)) (fetches : Fetches) (n : ℕ) (world : World) (w : Worker)
    → AreWhole x a config log (new_world bucket) 0 fetches
    → drain x a (new_world bucket) (start none) fetches ≡ Drained.drained n world w
    → Below (IsServed x world) w.cursor log
unfolding start
drain-IsServed x a config log bucket fetches n world w whole h =
    let before : World = new_world bucket in
    Below-map (IsIndexed x world) (IsServed x world) w.cursor log (IsIndexed-IsServed x world) (
      drain-IsIndexed x a config log before (start none) fetches n world w whole
        (record { indexed = Below-zero (IsIndexed x before) log; readable = tt })
        (record {
          committed = Below-zero (IsIndexed x before) log;
          held = Below-zero (IsHeld x before (start none)) log;
          pack = refl;
        })
        h)
