-- ===== src/Pipeline/Examples.antt =====
-- One record on its way through the worker, and the theorems at it.
use majsoulmanager.Prelude.{
  ℕ, ◌*◌, ◌^◌, ◌<◌, ◌≤◌, ◌≡◌, refl, sym, subst, ◌∙◌, inl, inr, true, false, List, [], ◌∷◌, Option,
  none, some, All, arith,
}
use majsoulmanager.Prelude.Text.{Text, codes}
use majsoulmanager.Proto.Text.{from_utf8_lossy, from_utf8_lossy_ascii}
use majsoulmanager.Replay.Reading.{unwrap_or}
use majsoulmanager.Mjai.{parse_metadata}
use majsoulmanager.Replay.Game.{replay}
use majsoulmanager.Mjai.Examples.{line_json, line_value, no_time}
use majsoulmanager.Kafka.{next_offset}
use majsoulmanager.Kafka.Message.{
  IngestMessage, TopicRecord, Received, into_record, from_record, from_record-into_record,
}
use majsoulmanager.Kafka.Examples.{by_counting, message, counted, read_counts}
use majsoulmanager.Pack.Examples.{codec}
use majsoulmanager.Pack.Format.{PackWriter, create, is_nil, append}
use majsoulmanager.Pack.Format.Recovery.{IsRecord}
use majsoulmanager.Pipeline.Types.{Outside}
use majsoulmanager.Pipeline.World.{World, Call, lookup}
use majsoulmanager.Pipeline.Worker.{
  Worker, Turn, Taken, Config, Answers, Fetching, start, pack_is_ready, seal_backoff,
}
use majsoulmanager.Pipeline.Run.{Event, run, turn, fetch_step}
use majsoulmanager.Pipeline.Held.{Below}
use majsoulmanager.Pipeline.Fetching.{HasId, IsWhole}
use majsoulmanager.Pipeline.Safety.{new_world, AreFaithful, IsServed, ReadsBack, run-IsServed}
use majsoulmanager.Pipeline.Drain.{Drained, Fetches, AreWhole, drain, drain-IsServed}
use majsoulmanager.Pipeline.Progress.{
  IsHealthy, committed_world, committed_worker, turn-IsHealthy, seal_backoff_lem,
}

abbrev pub outside : Outside
outside = record {
  json = line_json;
  from_str = line_value;
  from_timestamp = no_time;
  writing = by_counting;
  zstd = codec;
  sha256_hex = λ raw. raw;
}

abbrev config : Config
config = record { pack_target_bytes = 0; pack_max_age = 1000; pack_idle = 1000 }

abbrev log : List (ℕ × TopicRecord)
log = (0, into_record by_counting message) ∷ []

-- The bucket keeps too little of the first pack.
abbrev answers : ℕ → Answers
answers n = record {
  seals = true;
  reads_back = true;
  keeps = some n;
  puts = true;
  heads = true;
  inserts = Call.done;
  inserts_games = Call.done;
  commits = Call.done;
}

abbrev fetched : Fetching
fetched = Fetching.brought (record { records = log; start_offset = 0 })

abbrev one_turn : Text → ℕ → Turn
one_turn key n = record {
  stopping_before = false;
  fetching = fetched;
  created = some key;
  stopping = false;
  elapsed = 0;
  answers = answers n;
}

abbrev all_events : List (Event outside config)
all_events =
    Event.starts true
    ∷ Event.turns (one_turn (codes "a") 3)
    ∷ Event.turns (one_turn (codes "b") 1000)
    ∷ []

abbrev behind : World
behind = (run outside config all_events (new_world [], none)).0

stored_one : behind.stored ≡ some 1
unfolding run from_record into_record from_utf8_lossy counted parse_metadata append replay
    majsoulmanager.Mjai.events read_counts
stored_one = refl

ids : HasId outside (into_record by_counting message)
unfolding is_nil
ids m read =
    let same : Received.ok message ≡ Received.ok m =
      sym (
        from_record-into_record by_counting message refl
          (from_utf8_lossy_ascii (codes "a") (omega arith, tt)) (omega arith))
      ∙ read in
    let equal : message ≡ m = ground (arith, same) in
    subst (λ (t : IngestMessage). IsRecord (t.record_id, [])) equal (refl, refl)

whole : IsWhole outside log 0 fetched
whole = ((λ above below. inl (refl, refl), tt), (ids, tt))

key_b_is_new :
    (bytes : List ℕ) (key : Text)
    → some (codes "b") ≡ some key
    → lookup key ((codes "a", bytes) ∷ []) ≡ none
unfolding lookup
key_b_is_new bytes key e =
    let same : codes "b" ≡ key = ground (arith, e) in
    subst (λ k. lookup k ((codes "a", bytes) ∷ []) ≡ none) same refl

faithful : AreFaithful outside config log all_events (new_world [], none)
unfolding run from_record into_record from_utf8_lossy counted parse_metadata append replay
    majsoulmanager.Mjai.events read_counts
faithful = (tt, ((whole, λ key e. refl), ((whole, key_b_is_new _), tt)))

run-IsServed_example :
    Below (IsServed outside behind) (unwrap_or behind.stored 0) log
    × All (ReadsBack outside behind) behind.index
run-IsServed_example = run-IsServed outside config log [] all_events faithful

seal_backoff_lem_example :
    (4 < 6 → seal_backoff 5 ≡ 2000 * 2 ^ 4) × (5 ≤ 4 → seal_backoff 5 ≡ 64000)
seal_backoff_lem_example = seal_backoff_lem 4

-- What the second turn's fetch leaves.
abbrev worker_of : Taken → Worker
worker_of Taken.panics = start none
worker_of (Taken.continues w) = w
worker_of (Taken.goes w) = w

abbrev writer_of : Option PackWriter → PackWriter
writer_of none = create (codes "none")
writer_of (some writer) = writer

abbrev filled : Worker
filled = worker_of (fetch_step outside config (one_turn (codes "b") 1000) (start none))

abbrev filled_writer : PackWriter
filled_writer = writer_of filled.pack

is_filled :
    (fetch_step outside config (one_turn (codes "b") 1000) (start none) ≡ Taken.goes filled)
    × (filled.pack ≡ some filled_writer)
    × (pack_is_ready config 0 filled ≡ true)
    × IsHealthy (answers 1000) filled_writer
unfolding fetch_step create pack_is_ready start from_record into_record from_utf8_lossy counted
    parse_metadata append replay majsoulmanager.Mjai.events read_counts
is_filled = (
  refl,
  refl,
  refl,
  record {
    seals = refl;
    reads_back = refl;
    room = 1000;
    keeps = refl;
    whole = omega arith;
    puts = refl;
    heads = refl;
    inserts = refl;
    inserts_games = refl;
    commits = refl;
  },
)

turn-IsHealthy_example :
    turn outside config (one_turn (codes "b") 1000) (new_world [], some (start none))
    ≡ (committed_world filled filled_writer (new_world []), some (committed_worker filled))
turn-IsHealthy_example =
    turn-IsHealthy outside config (one_turn (codes "b") 1000) (new_world []) (start none) filled
      filled_writer is_filled.0 is_filled.1 (inr is_filled.2) is_filled.3

-- The one record is drained in two fetches, the second of which is empty.
abbrev fetches : Fetches
fetches =
    (some (codes "b"), some (record { records = log; start_offset = 0 }))
    ∷ (none, some (record { records = []; start_offset = 1 }))
    ∷ []

abbrev drained_world : Drained → World
drained_world (Drained.drained n world w) = world
drained_world _ = new_world []

abbrev drained_worker : Drained → Worker
drained_worker (Drained.drained n world w) = w
drained_worker _ = start none

abbrev outcome : Drained
outcome = drain outside (answers 1000) (new_world []) (start none) fetches

is_drained : outcome ≡ Drained.drained 1 (drained_world outcome) (drained_worker outcome)
unfolding drain start from_record into_record from_utf8_lossy counted parse_metadata append replay
    majsoulmanager.Mjai.events read_counts
is_drained = refl

below_one : 1 ≤ 0 → 0 < 1 → ⊥
below_one above below = absurd (omega (arith, above))

fetches_whole : AreWhole outside (answers 1000) config log (new_world []) 0 fetches
unfolding next_offset lookup
fetches_whole = (whole, (λ key e. refl), (((below_one, tt), tt), (λ key e. refl), tt))

drain-IsServed_example :
    Below (IsServed outside (drained_world outcome)) (drained_worker outcome).cursor log
drain-IsServed_example =
    drain-IsServed outside (answers 1000) config log [] fetches 1 (drained_world outcome)
      (drained_worker outcome) fetches_whole is_drained
