-- ===== src/Lib.antt =====
-- majsoulmanager collects the game records of Mahjong Soul, converts them to mjai logs, keeps the
-- logs in pack files of an object store and an index of them in a catalog.
--
-- The parts, and how they meet. A collector watches games and reports each one's state to the watch
-- registry (src/watch.rs), and what it says is kept in a log (src/watch_log.rs). A game's record
-- arrives as protobuf, which the decoder reads (src/majsoul/proto.rs), and its actions become
-- events (src/majsoul/events.rs), which are translated to mjai (src/majsoul/convert.rs). Converted
-- logs are claimed in the catalog, a game by its uuid, and produced to a topic
-- (src/indexer.rs, src/catalog.rs, src/kafka.rs), from which one worker for each partition fetches
-- them: it reads each one's metadata (src/mjai.rs), appends it to a pack (src/pack.rs), uploads the
-- pack, inserts its rows and commits its offset, in that order (src/indexer.rs). A pack that a
-- process which died left behind is scanned and uploaded; an uploaded pack that no row of the
-- catalog names is an orphan, which the collection deletes (src/gc.rs). The statistics of each seat
-- are read off the events of a log (src/replay.rs). A record that has to be fetched again is asked
-- for at the broker (src/refetch.rs), where the collectors claim requests.
--
--   Prelude   the modules' shared names: Boolean tests, lists, bit arithmetic, 32-bit signed
--             numbers, sorting and text
--   Proto     src/majsoul/proto.rs. Varint is decode_varint, Fields is FieldIterator and the
--             loops over it, Record the player and config messages, Game decode_game_record, with
--             both formats of actions
--   Events    src/majsoul/events.rs and tiles.rs. Types are the events, Turns, Ends and Draw their
--             decoders, Action is parse_record_action, Written an encoder of draws and discards.
--             Their arms stand in groups, since no two have the same number and wire type
--   Modes     src/majsoul/modes.rs
--   Convert   src/majsoul/convert.rs. Types are the mjai events, Ranks get_dan_name and
--             GameMetadata::of, Events the arms of events_to_mjai's loop, Stream its header, clock
--             and settlement, Record is convert_record_bytes
--   Pack      src/pack.rs. Format is PackWriter's create and append, decompress and scan_pack;
--             Store is PackStore's read and upload_legacy_packs
--   Watch     src/watch.rs. Registry is WatchRegistry::apply, Summary is WatchRegistry::summary.
--             Log is src/watch_log.rs, with its secrets and the numbers of its entries
--   Refetch   src/refetch.rs. Broker is RefetchBroker; Queue is what it promises
--   Json      serde_json's Value, as a parameter of those that read it
--   Replay    src/replay.rs. Stats are its records, Reading and Dora its readers, Hands and Wins the
--             arms of its loop, Game is replay
--   Mjai      src/mjai.rs. Chars are the standard library's string functions
--   Kafka     src/kafka.rs. Message is IngestMessage on its way through a record of the topic, Chunks
--             are the batches of a produce
--   Ingest    the ingest of src/indexer.rs. Table are the claims of src/catalog.rs, Topic is
--             Kafka::produce_batch; Requests are the steps of concurrent requests
--   Pipeline  the pack worker of src/indexer.rs, with the rows of src/catalog.rs. Packing is
--             append_batch, World what the worker writes to, Worker, Run and Drain are PackWorker.
--             Upload to Safety follow a record from the fetch to its row, Progress is when the
--             worker commits
--   Gc        src/gc.rs. Orphans is orphans and collect
--
-- Conventions. A byte is a number, a slice a list of numbers. The text of a record is the list of
-- its UTF-8 bytes; Proto.Text is String::from_utf8_lossy. Numbers of the source that wrap have their
-- wrap-around written out, as a release build has it. An error is a value of the component's Result,
-- which has panic (in Proto) and stuck (out of fuel) apart from the errors. A time is a number.
--
-- Fuel. The loops over a protobuf message and over a pack file run on the length of the buffer and
-- one more, since each turn takes a byte at least.
--
-- A turn of the pack worker takes what its surroundings answer as an argument; a process that dies in
-- the midst of an upload is a turn whose next call fails, and a start.
--
-- Not modelled: the listing and discarding of pack files, the conversion of whole
-- directories, the tar import, and all input and output (HTTP, SQL, S3, processes).
-- rskafka, uuid, chrono and serde_json are parameters.
-- What writes JSON lines into a gzip stream is a parameter.
-- Zstandard is a parameter, by its compression, its decompression and their documented round trip.
pub mod Convert
pub mod Events
pub mod Gc
pub mod Ingest
pub mod Json
pub mod Kafka
pub mod Mjai
pub mod Modes
pub mod Pack
pub mod Pipeline
pub mod Prelude
pub mod Proto
pub mod Refetch
pub mod Replay
pub mod Watch
