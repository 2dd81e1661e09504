-- ===== src/Kafka/Chunks.antt =====
-- The batches that `produce_chunks` of src/kafka.rs makes.
use mathlib.Core.List.{append_assoc}
use majsoulmanager.Prelude.{
  ℕ, ◌+◌, ◌≤◌, ◌≡◌, ◌⊎◌, inl, inr, refl, ap, ◌∙◌, false, not, ◌&&◌, List, [], ◌∷◌, ◌++◌, ltb,
  length, All, arith, Bool-cases,
}
use majsoulmanager.Proto.Record.{is_empty}
use majsoulmanager.Kafka.{max_produce_batch_bytes, chunk_loop, produce_chunks}

module _ {A : Type 0} (approximate_size : A → ℕ) where
  abbrev pub bytes : List A → ℕ
  bytes [] = 0
  bytes (r ∷ records) = approximate_size r + bytes records

  abbrev pub flatten : List (List A) → List A
  flatten [] = []
  flatten (chunk ∷ chunks) = chunk ++ flatten chunks

  -- A batch that can be sent: some records of the broker's size at most, or one of any size.
  abbrev pub IsChunk : List A → Type 0
  IsChunk chunk =
      (1 ≤ length chunk) × ((bytes chunk ≤ max_produce_batch_bytes) ⊎ (length chunk ≡ 1))

  bytes-append : (xs ys : List A) → bytes (xs ++ ys) ≡ bytes xs + bytes ys
  bytes-append [] ys = omega arith
  bytes-append (x ∷ xs) ys = omega (arith, bytes-append xs ys)

  abbrev Fits : List A → Type 0
  Fits chunk = (bytes chunk ≤ max_produce_batch_bytes) ⊎ (length chunk ≤ 1)

  pub chunk_loop-flatten :
      (current : List A) (n : ℕ) (records : List A)
      → flatten (chunk_loop approximate_size current n records) ≡ current ++ records
  unfolding chunk_loop
  chunk_loop-flatten [] n [] = refl
  chunk_loop-flatten (c ∷ current) n [] = refl
  chunk_loop-flatten current n (r ∷ records) =
      elim (Bool-cases
        (not (is_empty current) && ltb max_produce_batch_bytes (n + approximate_size r))) [
          | inl full ↦
              rw (full, chunk_loop)
                (ap (λ xs. current ++ xs)
                  (chunk_loop-flatten (r ∷ []) (approximate_size r) records))
          | inr room ↦
              rw (room, chunk_loop)
                (chunk_loop-flatten (current ++ r ∷ []) (n + approximate_size r) records
                  ∙ append_assoc current (r ∷ []) records)
        ]

  IsChunk-Fits : (c : A) (current : List A) → Fits (c ∷ current) → IsChunk (c ∷ current)
  IsChunk-Fits c current (inl small) = (omega arith, inl small)
  IsChunk-Fits c current (inr one) = (omega arith, inr (omega arith))

  Fits-snoc :
      (current : List A) (r : A)
      → (not (is_empty current) && ltb max_produce_batch_bytes (bytes current + approximate_size r))
        ≡ false
      → Fits (current ++ r ∷ [])
  Fits-snoc [] r room = inr (omega arith)
  Fits-snoc (c ∷ current) r room = inl (ground (arith, room, bytes-append (c ∷ current) (r ∷ [])))

  chunk_loop-IsChunk :
      (current : List A) (n : ℕ) (records : List A)
      → n ≡ bytes current
      → Fits current
      → All IsChunk (chunk_loop approximate_size current n records)
  unfolding chunk_loop
  chunk_loop-IsChunk [] n [] e fits = tt
  chunk_loop-IsChunk (c ∷ current) n [] e fits = (IsChunk-Fits c current fits, tt)
  chunk_loop-IsChunk [] n (r ∷ records) e fits =
      chunk_loop-IsChunk (r ∷ []) (n + approximate_size r) records (omega (arith, e))
        (inr (omega arith))
  chunk_loop-IsChunk (c ∷ current) n (r ∷ records) e fits =
      elim (Bool-cases (ltb max_produce_batch_bytes (n + approximate_size r))) [
        | inl full ↦
            rw (full, chunk_loop)
              (
                IsChunk-Fits c current fits,
                chunk_loop-IsChunk (r ∷ []) (approximate_size r) records (omega arith)
                    (inr (omega arith)),
              )
        | inr room ↦
            rw (room, chunk_loop)
              (chunk_loop-IsChunk (c ∷ current ++ r ∷ []) (n + approximate_size r) records
                (omega (arith, e, bytes-append (c ∷ current) (r ∷ [])))
                (Fits-snoc (c ∷ current) r (rw (← e) room)))
      ]

-- The batches that produce_chunks answers hold the records in their order, none is empty, and each
-- has max_produce_batch_bytes at most or is one record alone.
pub produce_chunks-IsChunk :
    {A : Type 0} (approximate_size : A → ℕ) (records : List A)
    → (flatten approximate_size (produce_chunks approximate_size records) ≡ records)
      × All (IsChunk approximate_size) (produce_chunks approximate_size records)
unfolding produce_chunks
produce_chunks-IsChunk approximate_size records = (
  chunk_loop-flatten approximate_size [] 0 records,
  chunk_loop-IsChunk approximate_size [] 0 records refl (inr (omega arith)),
)
