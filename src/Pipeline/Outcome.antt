-- ===== src/Pipeline/Outcome.antt =====
-- `upload_and_index` of src/indexer.rs as a whole: what holds of its answer and of the world behind it.
use majsoulmanager.Prelude.{
  ℕ, zero, suc, ◌≡◌, ◌⊎◌, inl, inr, refl, ap, ◌∙◌, List, [], ◌++◌, none, some, length, take, arith,
}
use majsoulmanager.Prelude.Text.{Text}
use majsoulmanager.Pack.Format.{PackWriter}
use majsoulmanager.Pipeline.World.{
  IndexError, World, Call, Tried, err, ok, continue, lookup, put, insert_batch, insert_player_games,
  commit_offset,
}
use majsoulmanager.Pipeline.Worker.{Worker, Answers}
use majsoulmanager.Pipeline.Run.{upload_and_index}
use majsoulmanager.Pipeline.Inserted.{Inserted, insert_batch-Inserted, insert_player_games-rest}
use majsoulmanager.Pipeline.Upload.{
  continue-rule, ensure-rule, confirm_size-rule, lookup-put, put-whole, put-rest,
}

-- The outcome of an upload of a pack whose key was new to the bucket.
pub record Outcome (w : Worker) (writer : PackWriter) (world : World) (r : Tried Unit × World)
    : Type 0 where
  pub keeps :
      (k : Text) (file : List ℕ)
      → lookup k world.bucket ≡ some file
      → lookup k r.1.bucket ≡ some file
  pub count : ℕ
  pub index : r.1.index ≡ take count w.rows ++ world.index
  pub sent : (take count w.rows ≡ []) ⊎ (lookup writer.key r.1.bucket ≡ some writer.file)
  pub stored :
      (r.1.stored ≡ world.stored)
      ⊎ ((r.1.stored ≡ some w.cursor)
          × (take count w.rows ≡ w.rows)
          × (lookup writer.key r.1.bucket ≡ some writer.file))
  pub answered :
      (a : Unit)
      → r.0 ≡ ok a
      → (r.1.stored ≡ some w.cursor)
        × (take count w.rows ≡ w.rows)
        × (lookup writer.key r.1.bucket ≡ some writer.file)

Outcome-unchanged :
    (w : Worker) (writer : PackWriter) (world : World) (e : IndexError)
    → Outcome w writer world (err e, world)
Outcome-unchanged w writer world e = record {
  keeps = λ k file h. h;
  count = 0;
  index = refl;
  sent = inl refl;
  stored = inl refl;
  answered = λ a h. absurd (ground (arith, h));
}

-- A world in which the object is there and some rows are in, and nothing is committed.
record Ready (w : Worker) (writer : PackWriter) (before world : World) (count : ℕ) : Type 0 where
  keeps :
      (k : Text) (file : List ℕ)
      → lookup k before.bucket ≡ some file
      → lookup k world.bucket ≡ some file
  index : world.index ≡ take count w.rows ++ before.index
  there : lookup writer.key world.bucket ≡ some writer.file
  stored : world.stored ≡ before.stored

module _ (w : Worker) (writer : PackWriter) (before : World) where
  Ready-Outcome :
      (world : World) (count : ℕ) (e : IndexError)
      → Ready w writer before world count
      → Outcome w writer before (err e, world)
  Ready-Outcome world count e r = record {
    keeps = r.keeps;
    count = count;
    index = r.index;
    sent = inr r.there;
    stored = inl r.stored;
    answered = λ a h. absurd (ground (arith, h));
  }

  commit_offset-Outcome :
      (call : Call) (world : World) (count : ℕ)
      → take count w.rows ≡ w.rows
      → Ready w writer before world count
      → Outcome w writer before (commit_offset call w.cursor world)
  unfolding commit_offset
  commit_offset-Outcome Call.done world count whole r = record {
    keeps = r.keeps;
    count = count;
    index = r.index;
    sent = inr r.there;
    stored = inr (refl, whole, r.there);
    answered = λ a h. (refl, whole, r.there);
  }
  commit_offset-Outcome (Call.failed zero) world count whole r = record {
    keeps = r.keeps;
    count = count;
    index = r.index;
    sent = inr r.there;
    stored = inl r.stored;
    answered = λ a h. absurd (ground (arith, h));
  }
  commit_offset-Outcome (Call.failed (suc n)) world count whole r = record {
    keeps = r.keeps;
    count = count;
    index = r.index;
    sent = inr r.there;
    stored = inr (refl, whole, r.there);
    answered = λ a h. absurd (ground (arith, h));
  }

  put-Ready :
      (a : Answers) (bytes : List ℕ)
      → lookup writer.key before.bucket ≡ none
      → lookup writer.key ((put a.keeps a.puts writer.key writer.file before).1).bucket ≡ some bytes
      → length bytes ≡ length writer.file
      → Ready w writer before (put a.keeps a.puts writer.key writer.file before).1 0
  put-Ready a bytes new found size =
      let (index, stored) = put-rest a.keeps a.puts writer.key writer.file before in
      record {
        keeps = λ k file h. lookup-put a.keeps a.puts writer.key k writer.file file before new h;
        index = index;
        there =
            found
            ∙ ap some (put-whole a.keeps a.puts writer.key writer.file bytes before new found size);
        stored = stored;
      }

  insert-Ready :
      (call : Call) (world : World) (i : Inserted w.rows world (insert_batch call w.rows world))
      → Ready w writer before world 0
      → Ready w writer before (insert_batch call w.rows world).1 i.count
  insert-Ready call world i r = record {
    keeps = λ k file h. ap (λ b. lookup k b) i.bucket ∙ r.keeps k file h;
    index = i.index ∙ ap (λ l. take i.count w.rows ++ l) r.index;
    there = ap (λ b. lookup writer.key b) i.bucket ∙ r.there;
    stored = i.stored ∙ r.stored;
  }

  games-Ready :
      (call : Call) (world : World) (count : ℕ)
      → Ready w writer before world count
      → Ready w writer before (insert_player_games call w.player_games world).1 count
  games-Ready call world count r =
      let (index, bucket, stored) = insert_player_games-rest call w.player_games world in
      record {
        keeps = λ k file h. ap (λ b. lookup k b) bucket ∙ r.keeps k file h;
        index = index ∙ r.index;
        there = ap (λ b. lookup writer.key b) bucket ∙ r.there;
        stored = stored ∙ r.stored;
      }

  put-Outcome :
      (a : Answers) (e : IndexError)
      → lookup writer.key before.bucket ≡ none
      → Outcome w writer before (err e, (put a.keeps a.puts writer.key writer.file before).1)
  put-Outcome a e new =
      let (index, stored) = put-rest a.keeps a.puts writer.key writer.file before in
      record {
        keeps = λ k file h. lookup-put a.keeps a.puts writer.key k writer.file file before new h;
        count = 0;
        index = index;
        sent = inl refl;
        stored = inl stored;
        answered = λ u h. absurd (ground (arith, h));
      }

  -- From the inserts on.
  abbrev last_calls : Answers → World → Tried Unit × World
  last_calls a world = continue (insert_batch a.inserts w.rows world) λ rows world'.
      continue (insert_player_games a.inserts_games w.player_games world')
        λ games. commit_offset a.commits w.cursor

  last_calls-Outcome :
      (a : Answers) (world : World)
      → Ready w writer before world 0
      → Outcome w writer before (last_calls a world)
  last_calls-Outcome a world r =
      let i = insert_batch-Inserted a.inserts w.rows world in
      let r' = insert-Ready a.inserts world i r in
      let world' : World = (insert_batch a.inserts w.rows world).1 in
      let r'' = games-Ready a.inserts_games world' i.count r' in
      let world'' : World = (insert_player_games a.inserts_games w.player_games world').1 in
      continue-rule (Outcome w writer before) (insert_batch a.inserts w.rows world) _
        (λ e. Ready-Outcome world' i.count e r')
        (λ u done.
          continue-rule (Outcome w writer before)
            (insert_player_games a.inserts_games w.player_games world') _
            (λ e. Ready-Outcome world'' i.count e r'')
            (λ v scored. commit_offset-Outcome a.commits world'' i.count (i.whole u done) r''))

  pub upload_and_index-Outcome :
      (a : Answers)
      → lookup writer.key before.bucket ≡ none
      → Outcome w writer before (upload_and_index a w writer before)
  unfolding upload_and_index
  upload_and_index-Outcome a new =
      ensure-rule (Outcome w writer before) a.seals IndexError.pack before _ unchanged (
        ensure-rule (Outcome w writer before) a.reads_back IndexError.io before _ unchanged (
          continue-rule (Outcome w writer before) (put a.keeps a.puts writer.key writer.file before)
            _ (λ e. put-Outcome a e new)
            (λ u answered.
              confirm_size-rule (Outcome w writer before) a.heads writer.key (length writer.file)
                (put a.keeps a.puts writer.key writer.file before).1 _ (λ e. put-Outcome a e new)
                (λ bytes found size. last_calls-Outcome a _ (put-Ready a bytes new found size)))))
    where
      unchanged : (e : IndexError) → Outcome w writer before (err e, before)
      unchanged e = Outcome-unchanged w writer before e
