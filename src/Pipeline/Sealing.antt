-- ===== src/Pipeline/Sealing.antt =====
-- A seal of the worker of src/indexer.rs, successful or not, keeps what is indexed and held.
use majsoulmanager.Prelude.{
  ℕ, ◌≡◌, inl, inr, refl, sym, subst, ◌∙◌, List, Option, none, some, take, All, All-map, All-append,
  All-take, Any, Any-map, Any-front, arith,
}
use majsoulmanager.Replay.Reading.{unwrap_or}
use majsoulmanager.Kafka.Message.{TopicRecord}
use majsoulmanager.Pack.Format.{PackWriter}
use majsoulmanager.Pipeline.Types.{Outside, Record}
use majsoulmanager.Pipeline.World.{World, Tried, err, ok, lookup}
use majsoulmanager.Pipeline.Worker.{Worker, Answers, discard}
use majsoulmanager.Pipeline.Run.{seal, settle, after_commit, one_more}
use majsoulmanager.Pipeline.Packing.Batch.{IsRowOf, IsSound}
use majsoulmanager.Pipeline.Outcome.{Outcome, upload_and_index-Outcome}
use majsoulmanager.Pipeline.Held.{
  Below, Below-map, Later, Finds, Finds-sent, IsIndexed, IsIndexed-Later, IsPacked, IsHeld,
  IsReadable, IsReadable-Later, WorldKeeps, IsOpen, PackKeeps, WorkerKeeps, discard-WorkerKeeps,
}

some-injective : {A : Type 0} (a b : A) → some a ≡ some b → a ≡ b
some-injective a b h = ground (arith, h)

module _ (x : Outside) (log : List (ℕ × TopicRecord)) (world : World) (w : Worker)
    (writer : PackWriter) (packed : w.pack ≡ some writer) (isopen : IsOpen x world w.rows writer)
    (keeps : WorldKeeps x log world) (worker : WorkerKeeps x log world w) (r : Tried Unit × World)
    (o : Outcome w writer world r) where
  later : Later world r.1
  later = record { keeps = o.keeps; new = take o.count w.rows; index = o.index }

  -- With the rows in and the object there, what the pack held is indexed.
  packed-IsIndexed :
      (entry : TopicRecord)
      → take o.count w.rows ≡ w.rows
      → lookup writer.key r.1.bucket ≡ some writer.file
      → IsPacked x writer w.rows entry
      → IsIndexed x r.1 entry
  packed-IsIndexed entry whole there h m metadata read parsed =
      let P : Record → Type 0 = λ row. (row.id ≡ m.record_id) × Finds x r.1.bucket m.raw row in
      subst (λ index. Any P index) (sym o.index)
        (Any-front P (take o.count w.rows) world.index (
          subst (λ rows. Any P rows) (sym whole)
            (Any-map (IsRowOf x writer.key writer.file m) P w.rows
              (λ row (same, reads).
                (same, Finds-sent x r.1.bucket writer.key writer.file m.raw row there reads))
              (h m metadata read parsed))))

  held-IsIndexed :
      take o.count w.rows ≡ w.rows
      → lookup writer.key r.1.bucket ≡ some writer.file
      → (entry : TopicRecord) → IsHeld x world w entry
      → IsIndexed x r.1 entry
  held-IsIndexed whole there entry (inl indexed) = IsIndexed-Later x world r.1 entry later indexed
  held-IsIndexed whole there entry (inr (writer', same, h)) =
      packed-IsIndexed entry whole there (
        subst (λ v. IsPacked x v w.rows entry) (some-injective writer' writer (sym same ∙ packed))
          h)

  pub all-IsIndexed :
      take o.count w.rows ≡ w.rows
      → lookup writer.key r.1.bucket ≡ some writer.file
      → Below (IsIndexed x r.1) w.cursor log
  all-IsIndexed whole there =
      Below-map (IsHeld x world w) (IsIndexed x r.1) w.cursor log (held-IsIndexed whole there)
        worker.held

  stored-IsIndexed : Below (IsIndexed x r.1) (unwrap_or r.1.stored 0) log
  stored-IsIndexed = elim o.stored [
    | inl same ↦
        subst (λ n. Below (IsIndexed x r.1) (unwrap_or n 0) log) (sym same)
          (Below-map (IsIndexed x world) (IsIndexed x r.1) (unwrap_or world.stored 0) log
            (λ entry. IsIndexed-Later x world r.1 entry later) keeps.indexed)
    | inr (same, whole, there) ↦
        subst (λ n. Below (IsIndexed x r.1) (unwrap_or n 0) log) (sym same)
          (all-IsIndexed whole there)
  ]

  new-IsReadable : All (IsReadable x r.1.bucket) (take o.count w.rows)
  new-IsReadable = elim o.sent [
    | inl nothing ↦ subst (λ rows. All (IsReadable x r.1.bucket) rows) (sym nothing) tt
    | inr there ↦ All-take (IsReadable x r.1.bucket) o.count w.rows (
        All-map (IsSound x writer.key writer.file) (IsReadable x r.1.bucket) w.rows
          (λ row (raw, digest, reads).
            (raw, digest, Finds-sent x r.1.bucket writer.key writer.file raw row there reads))
          isopen.sound)
  ]

  outcome-WorldKeeps : WorldKeeps x log r.1
  outcome-WorldKeeps = record {
    indexed = stored-IsIndexed;
    readable =
        subst (λ index. All (IsReadable x r.1.bucket) index) (sym o.index)
          (All-append (IsReadable x r.1.bucket) (take o.count w.rows) world.index new-IsReadable
            (IsReadable-Later x world r.1 later keeps.readable));
  }

  outcome-committed : Below (IsIndexed x r.1) w.committed log
  outcome-committed =
      Below-map (IsIndexed x world) (IsIndexed x r.1) w.committed log
        (λ entry. IsIndexed-Later x world r.1 entry later) worker.committed

module _ (x : Outside) (log : List (ℕ × TopicRecord)) where
  settle-Keeps :
      (world : World) (w : Worker) (writer : PackWriter) (r : Tried Unit × World)
      → w.pack ≡ some writer
      → IsOpen x world w.rows writer
      → WorldKeeps x log world
      → WorkerKeeps x log world w
      → Outcome w writer world r
      → WorldKeeps x log (settle w r).0 × WorkerKeeps x log (settle w r).0 (settle w r).1
  unfolding discard
  settle-Keeps world w writer (err e, world') packed isopen keeps worker o = (
    outcome-WorldKeeps x log world w writer packed isopen keeps worker (err e, world') o,
    discard-WorkerKeeps x log world' (record w { seal_failures = one_more w.seal_failures })
        (outcome-committed x log world w writer packed isopen keeps worker (err e, world') o),
  )
  settle-Keeps world w writer (ok u, world') packed isopen keeps worker o =
      let (stored, whole, there) = o.answered u refl in
      let indexed : Below (IsIndexed x world') w.cursor log =
        all-IsIndexed x log world w writer packed isopen keeps worker (ok u, world') o whole
          there in
      (
        outcome-WorldKeeps x log world w writer packed isopen keeps worker (ok u, world') o,
        record {
          committed = indexed;
          held =
              Below-map (IsIndexed x world')
                (IsHeld x world' (record (after_commit w) { seal_failures = 0 })) w.cursor log
                (λ entry i. inl i) indexed;
          pack = refl;
        },
      )

  pub seal-Keeps :
      (a : Answers) (world : World) (w : Worker) (open_pack : Option PackWriter)
      → w.pack ≡ open_pack
      → WorldKeeps x log world
      → WorkerKeeps x log world w
      → WorldKeeps x log (seal a w open_pack world).0
        × WorkerKeeps x log (seal a w open_pack world).0 (seal a w open_pack world).1
  unfolding seal
  seal-Keeps a world w none packed keeps worker =
      (keeps, record { committed = worker.committed; held = worker.held; pack = worker.pack })
  seal-Keeps a world w (some writer) packed keeps worker =
      let isopen : IsOpen x world w.rows writer =
        subst (λ p. PackKeeps x world w.rows p) packed worker.pack in
      settle-Keeps world w writer _ packed isopen keeps worker
        (upload_and_index-Outcome w writer world a isopen.new)
