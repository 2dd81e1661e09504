-- ===== src/Pipeline/Run.antt =====
-- The loop of `PackWorker` in src/indexer.rs, and the seal with its upload. A turn says what the
-- surroundings answer; a worker that panicked or stopped is none.
use majsoulmanager.Prelude.{
  ℕ, ◌+◌, ◌-◌, ◌^◌, Bool, true, false, ◌&&◌, ◌||◌, List, [], ◌∷◌, Option, none, some, ltb,
  if◌then◌else◌, length,
}
use majsoulmanager.Prelude.Text.{Text}
use majsoulmanager.Kafka.{next_offset, is_end_of_log}
use majsoulmanager.Pack.Format.{PackWriter}
use majsoulmanager.Replay.Hands.{is_some}
use majsoulmanager.Pipeline.Types.{Outside}
use majsoulmanager.Pipeline.Packing.{Packed}
use majsoulmanager.Pipeline.World.{
  IndexError, World, Tried, Step, ◌>>=◌, ensure, put, confirm_size, insert_batch,
  insert_player_games, commit_offset,
}
use majsoulmanager.Pipeline.Worker.{
  Worker, Answers, Turn, Taken, Fetching, Config, start, discard, pack_is_ready, decode, append,
}

-- The writer's file is what is read back.
unfoldable pub upload_and_index : Answers → Worker → PackWriter → Step Unit
unfolding put confirm_size insert_batch insert_player_games commit_offset
upload_and_index a w writer = do
  sealed ← ensure a.seals IndexError.pack
  read ← ensure a.reads_back IndexError.io
  kept ← put a.keeps a.puts writer.key writer.file
  confirmed ← confirm_size a.heads writer.key (length writer.file)
  rows ← insert_batch a.inserts w.rows
  games ← insert_player_games a.inserts_games w.player_games
  commit_offset a.commits w.cursor

-- What stands behind the last await of `upload_and_index`.
abbrev pub after_commit : Worker → Worker
after_commit w = record w { committed = w.cursor; pack = none; rows = []; player_games = [] }

-- `saturating_add(1)` of a u32.
abbrev pub one_more : ℕ → ℕ
one_more n = if ltb (n + 1) (2 ^ 32) then n + 1 else 2 ^ 32 - 1

-- The outcome of a seal in `run`.
abbrev pub settle : Worker → Tried Unit × World → World × Worker
settle w (Tried.ok done, world) = (world, record (after_commit w) { seal_failures = 0 })
settle w (Tried.err e, world) =
    (world, record (discard w) { seal_failures = one_more w.seal_failures })

-- `seal` with what `run` makes of its answer.
unfoldable pub seal : Answers → Worker → Option PackWriter → World → World × Worker
unfolding upload_and_index discard
seal a w none world = (world, record w { seal_failures = 0 })
seal a w (some writer) world = settle w (upload_and_index a w writer world)

module _ (x : Outside) (config : Config) where
  abbrev pub after_append : ℕ → Worker → Packed Worker → Taken
  after_append next w Packed.panic = Taken.panics
  after_append next w (Packed.err e) = Taken.continues (discard w)
  after_append next w (Packed.ok w') = Taken.goes (record w' { cursor = next })

  unfoldable pub take_fetched : Worker → Option Text → Fetching → Taken
  unfolding append decode next_offset is_end_of_log
  take_fetched w created Fetching.interrupted = Taken.goes w
  take_fetched w created Fetching.failed = Taken.goes w
  take_fetched w created (Fetching.brought fetched) =
      let seen = record w { at_end_of_log = is_end_of_log fetched } in
      after_append (next_offset fetched) seen (append x seen created (decode x fetched.records))

  unfoldable pub fetch_step : Turn → Worker → Taken
  unfolding take_fetched
  fetch_step t w =
      let taken = take_fetched w t.created t.fetching in
      if t.stopping_before then Taken.goes w else taken

  abbrev pub stop_or : Bool → World × Worker → World × Option Worker
  stop_or true (world, w) = (world, none)
  stop_or false (world, w) = (world, some w)

  unfoldable pub seal_step : Turn → World → Worker → World × Option Worker
  unfolding seal pack_is_ready
  seal_step t world w =
      let sealed = seal t.answers w w.pack world in
      stop_or t.stopping (
        if (t.stopping || pack_is_ready config t.elapsed w) && is_some w.pack
        then sealed
        else (world, w))

  abbrev pub after_fetch : Turn → World → Taken → World × Option Worker
  after_fetch t world Taken.panics = (world, none)
  after_fetch t world (Taken.continues w) = (world, some w)
  after_fetch t world (Taken.goes w) = seal_step t world w

  -- One turn of `run`.
  unfoldable pub turn : Turn → World × Option Worker → World × Option Worker
  unfolding fetch_step seal_step
  turn t (world, none) = (world, none)
  turn t (world, some w) = after_fetch t world (fetch_step t w)

  -- A turn, or the process starts anew, where the stored offset is read or is not.
  pub data Event : Type 0 where
    turns : Turn → Event
    starts : Bool → Event

  unfoldable pub happen : Event → World × Option Worker → World × Option Worker
  unfolding turn start
  happen (Event.turns t) state = turn t state
  happen (Event.starts true) (world, w) = (world, some (start world.stored))
  happen (Event.starts false) (world, w) = (world, none)

  unfoldable pub run : List Event → World × Option Worker → World × Option Worker
  unfolding happen
  run [] state = state
  run (e ∷ events) state = run events (happen e state)
