-- ===== src/Kafka.antt =====
-- src/kafka.rs: the messages of the topic, the batches they are produced in, and what a fetch means
-- for the offset. rskafka, uuid and chrono are parameters.
pub mod Message
pub mod Chunks
pub mod Examples
use majsoulmanager.Prelude.{
  ℕ, ◌+◌, ◌-◌, ◌*◌, ◌%◌, ◌^◌, Bool, true, false, not, ◌&&◌, List, [], ◌∷◌, ◌++◌, Option, none, some,
  ltb, leb, ◌==◌, if◌then◌else◌, length,
}
use majsoulmanager.Prelude.Int.{ℤ, pos, ◌-ℤ◌, ltb_ℤ}
use majsoulmanager.Proto.Record.{is_empty}

-- 768 KiB
abbrev pub max_produce_batch_bytes : ℕ
max_produce_batch_bytes = 786432

module _ {A : Type 0} (approximate_size : A → ℕ) where
  -- The loop of `produce_chunks`, with the chunk that is being filled and its bytes.
  unfoldable pub chunk_loop : List A → ℕ → List A → List (List A)
  chunk_loop current current_bytes [] = if is_empty current then [] else current ∷ []
  chunk_loop current current_bytes (r ∷ records) =
      let size = approximate_size r in
      let full = chunk_loop (r ∷ []) size records in
      let more = chunk_loop (current ++ r ∷ []) (current_bytes + size) records in
      if not (is_empty current) && ltb max_produce_batch_bytes (current_bytes + size)
      then current ∷ full
      else more

  unfoldable pub produce_chunks : List A → List (List A)
  unfolding chunk_loop
  produce_chunks records = chunk_loop [] 0 records

-- An offset is an `i64` that is not negative; a lag may be read below zero before it is clamped.
unfoldable pub partition_lag : ℕ → ℕ → Option ℕ → ℕ
partition_lag high_watermark earliest none = high_watermark - earliest
partition_lag high_watermark earliest (some committed) = high_watermark - committed

-- `i64::saturating_mul` of numbers that are not negative.
unfoldable pub max_lag : ℕ → ℕ → ℕ
max_lag per_partition partitions =
    if ltb (per_partition * partitions) (2 ^ 63) then per_partition * partitions else 2 ^ 63 - 1

-- `uuid.as_u128() % len`; a uuid is its sixteen bytes.
unfoldable pub as_u128 : List ℕ → ℕ
as_u128 [] = 0
as_u128 (b ∷ id) = b * 2 ^ (8 * length id) + as_u128 id

unfoldable pub partition_for : ℕ → List ℕ → ℕ
unfolding as_u128
partition_for partitions record_id = as_u128 record_id % partitions

-- What a fetch brought, with the offset of each record; the head of the log, which no caller here
-- reads, is left out.
pub record Fetched (A : Type 0) : Type 0 where
  pub records : List (ℕ × A)
  pub start_offset : ℕ

module _ {A : Type 0} where
  unfoldable pub is_end_of_log : Fetched A → Bool
  is_end_of_log fetched = is_empty fetched.records

  -- `last.offset + 1`, or the start.
  unfoldable pub offset_after : ℕ → List (ℕ × A) → ℕ
  offset_after start [] = start
  offset_after start ((offset, r) ∷ records) = offset_after (offset + 1) records

  unfoldable pub next_offset : Fetched A → ℕ
  unfolding offset_after
  next_offset fetched = offset_after fetched.start_offset fetched.records
