-- ===== src/Pipeline/Progress.antt =====
-- When the worker of src/indexer.rs commits, and how long it waits before it seals again.
use native.Mathlib.Nat.{pow-le-pow_right}
use majsoulmanager.Prelude.{
  ℕ, zero, suc, ◌-◌, ◌*◌, ◌^◌, ◌≤◌, ◌<◌, ◌≡◌, ◌⊎◌, inl, inr, refl, ap, ◌∙◌, Bool, true, false, ◌&&◌,
  ◌||◌, if◌then◌else◌, List, [], ◌∷◌, ◌++◌, none, some, ltb, length, take, ==_iff, Bool-cases,
  arith,
}
use majsoulmanager.Replay.Hands.{is_some}
use majsoulmanager.Pack.Format.{PackWriter}
use majsoulmanager.Pipeline.Types.{Outside, Record, PlayerGame}
use majsoulmanager.Pipeline.World.{
  World, Call, ok, put, confirm_size, insert_batch, insert_player_games, commit_offset,
}
use majsoulmanager.Pipeline.Worker.{
  Worker, Turn, Taken, Config, Answers, pack_is_ready, seal_backoff,
}
use majsoulmanager.Pipeline.Run.{upload_and_index, seal, stop_or, fetch_step, seal_step, turn}
use majsoulmanager.Pipeline.Upload.{lookup-same}

-- Every call of the seal is answered, and the bucket keeps the whole file.
pub record IsHealthy (a : Answers) (writer : PackWriter) : Type 0 where
  pub seals : a.seals ≡ true
  pub reads_back : a.reads_back ≡ true
  pub room : ℕ
  pub keeps : a.keeps ≡ some room
  pub whole : length writer.file ≤ room
  pub puts : a.puts ≡ true
  pub heads : a.heads ≡ true
  pub inserts : a.inserts ≡ Call.done
  pub inserts_games : a.inserts_games ≡ Call.done
  pub commits : a.commits ≡ Call.done

take-long : {A : Type 0} (n : ℕ) (xs : List A) → length xs ≤ n → take n xs ≡ xs
take-long zero [] h = refl
take-long zero (x ∷ xs) h = absurd (omega (arith, h))
take-long (suc n) [] h = refl
take-long (suc n) (x ∷ xs) h = ap (λ t. x ∷ t) (take-long n xs (omega (arith, h)))

insert_batch-done :
    (rows : List Record) (world : World)
    → insert_batch Call.done rows world ≡ (ok tt, record world { index = rows ++ world.index })
unfolding insert_batch
insert_batch-done [] world = refl
insert_batch-done (row ∷ rows) world = refl

insert_player_games-done :
    (games : List PlayerGame) (world : World)
    → insert_player_games Call.done games world
      ≡ (ok tt, record world { games = games ++ world.games })
unfolding insert_player_games
insert_player_games-done [] world = refl
insert_player_games-done (game ∷ games) world = refl

-- The world behind a seal that nothing kept from its end.
abbrev pub committed_world : Worker → PackWriter → World → World
committed_world w writer world = record {
  bucket = (writer.key, writer.file) ∷ world.bucket;
  index = w.rows ++ world.index;
  games = w.player_games ++ world.games;
  stored = some w.cursor;
}

upload_and_index-IsHealthy :
    (a : Answers) (w : Worker) (writer : PackWriter) (world : World)
    → IsHealthy a writer
    → upload_and_index a w writer world ≡ (ok tt, committed_world w writer world)
unfolding upload_and_index put confirm_size commit_offset
upload_and_index-IsHealthy a w writer world h =
    let stored : World = record world { bucket = (writer.key, writer.file) ∷ world.bucket } in
    rw
      (
        h.seals,
        h.reads_back,
        h.keeps,
        h.puts,
        h.heads,
        take-long h.room writer.file h.whole,
        lookup-same writer.key writer.file world.bucket,
        (==_iff (length writer.file) (length writer.file)).1 refl,
        h.inserts,
        insert_batch-done w.rows stored,
        h.inserts_games,
        insert_player_games-done w.player_games (record stored { index = w.rows ++ stored.index }),
        h.commits,
      )
      refl

-- The worker after that seal, and after the turn.
abbrev pub committed_worker : Worker → Worker
committed_worker w = record {
  cursor = w.cursor;
  committed = w.cursor;
  at_end_of_log = w.at_end_of_log;
  seal_failures = 0;
  pack = none;
  rows = [];
  player_games = [];
}

stop_or-if :
    (x : Outside) (config : Config) (stopping : Bool) (world : World) (w : Worker)
    → stop_or x config stopping (world, w) ≡ (world, if stopping then none else some w)
stop_or-if x config true world w = refl
stop_or-if x config false world w = refl

seal-IsHealthy :
    (a : Answers) (w : Worker) (writer : PackWriter) (world : World)
    → IsHealthy a writer
    → seal a w (some writer) world ≡ (committed_world w writer world, committed_worker w)
unfolding seal
seal-IsHealthy a w writer world h = rw (upload_and_index-IsHealthy a w writer world h) refl

seals_now :
    (stopping ready opened : Bool)
    → (stopping ≡ true) ⊎ (ready ≡ true)
    → opened ≡ true
    → ((stopping || ready) && opened) ≡ true
seals_now true ready true h e = refl
seals_now false true true h e = refl
seals_now false false true (inl h) e = absurd (ground (arith, h))
seals_now false false true (inr h) e = absurd (ground (arith, h))
seals_now stopping ready false h e = absurd (ground (arith, e))

seal_step-IsHealthy :
    (x : Outside) (config : Config) (t : Turn) (world : World) (w : Worker) (writer : PackWriter)
    → w.pack ≡ some writer
    → (t.stopping ≡ true) ⊎ (pack_is_ready config t.elapsed w ≡ true)
    → IsHealthy t.answers writer
    → seal_step x config t world w
      ≡ stop_or x config t.stopping (committed_world w writer world, committed_worker w)
unfolding seal_step
seal_step-IsHealthy x config t world w writer packed due healthy =
    rw
      (seals_now t.stopping (pack_is_ready config t.elapsed w) (is_some w.pack) due
        (ap is_some packed))
      (ap (stop_or x config t.stopping) (
        ap (λ p. seal t.answers w p world) packed
        ∙ seal-IsHealthy t.answers w writer world healthy))

-- Where a turn's fetch leaves the worker an open pack, which is ready or the process is stopping, and
-- every call of the seal is answered and kept whole: the turn stores the worker's offset, the bucket
-- has the pack's file, the index every row of it, the table of games every game of it, and the worker
-- goes on from there, committed up to its cursor, with no pack, no rows, no games and no failures, or
-- it stops.
pub turn-IsHealthy :
    (x : Outside) (config : Config) (t : Turn) (world : World) (w w' : Worker) (writer : PackWriter)
    → fetch_step x config t w ≡ Taken.goes w'
    → w'.pack ≡ some writer
    → (t.stopping ≡ true) ⊎ (pack_is_ready config t.elapsed w' ≡ true)
    → IsHealthy t.answers writer
    → turn x config t (world, some w)
      ≡ (committed_world w' writer world, if t.stopping then none else some (committed_worker w'))
unfolding turn
turn-IsHealthy x config t world w w' writer fetched packed due healthy = rw fetched (
    seal_step-IsHealthy x config t world w' writer packed due healthy
    ∙ stop_or-if x config t.stopping (committed_world w' writer world) (committed_worker w'))

backoff_low : (n : ℕ) → n < 6 → seal_backoff (suc n) ≡ 2000 * 2 ^ n
unfolding seal_backoff
backoff_low zero h = refl
backoff_low (suc zero) h = refl
backoff_low (suc (suc zero)) h = refl
backoff_low (suc (suc (suc zero))) h = refl
backoff_low (suc (suc (suc (suc zero)))) h = refl
backoff_low (suc (suc (suc (suc (suc zero))))) h = refl
backoff_low (suc (suc (suc (suc (suc (suc n)))))) h = absurd (omega (arith, h))

capped : (d : ℕ) → 5 ≤ d → (if ltb (2000 * 2 ^ d) 64000 then 2000 * 2 ^ d else 64000) ≡ 64000
capped d h =
    let large : 32 ≤ 2 ^ d = pow-le-pow_right {n = 2} (omega arith) {i = 5} {j = d} h in
    ground (arith, large)

backoff_high : (n : ℕ) → 5 ≤ n → seal_backoff (suc n) ≡ 64000
unfolding seal_backoff
backoff_high n h = elim (Bool-cases (ltb (suc n - 1) 16)) [
  | inl small ↦ rw small (capped (suc n - 1) (omega (arith, h)))
  | inr large ↦ rw large refl
]

-- The pause after a failed seal is two seconds, each of five more failures in a row doubles it, and
-- from the sixth on it is 64 seconds.
pub seal_backoff_lem :
    (n : ℕ) → (n < 6 → seal_backoff (suc n) ≡ 2000 * 2 ^ n) × (5 ≤ n → seal_backoff (suc n) ≡ 64000)
seal_backoff_lem n = (backoff_low n, backoff_high n)
