-- ===== src/Watch/Log/Polling.antt =====
-- What a client that polls the log of src/watch_log.rs gets.
use majsoulmanager.Prelude.{
  ℕ, zero, suc, ◌+◌, ◌-◌, ◌^◌, ◌<◌, ◌≡◌, refl, subst, ap, ◌∙◌, List, [], ◌∷◌, arith, inl, inr,
  length, take, drop, Bool-cases, leb,
}
use Prim.Native.Nat.{min, max}
use majsoulmanager.Watch.Log.Order.{numbers_from, seqs, IsLog, appended, run-IsLog}
use majsoulmanager.Watch.Log.{
  watch_log_capacity, WatchLogEntry, WatchLogBuffer, new, partition_point, entries_after, Step, run,
}

none_left : (a b n m : ℕ) → n ≡ 0 → m ≡ 0 → numbers_from a n ≡ numbers_from b m
unfolding numbers_from
none_left a b n m h k = rw (h, k) refl

numbers_from-eq : (a b n m : ℕ) → a ≡ b → n ≡ m → numbers_from a n ≡ numbers_from b m
numbers_from-eq a b n m first size = rw (first, size) refl

drop-numbers_from : (k a n : ℕ) → drop k (numbers_from a n) ≡ numbers_from (a + k) (n - k)
unfolding numbers_from
drop-numbers_from zero a n = numbers_from-eq a (a + 0) n (n - 0) (omega arith) (omega arith)
drop-numbers_from (suc k) a zero =
    numbers_from-eq a a 0 (0 - suc k) refl (omega arith)
    ∙ none_left a (a + suc k) (0 - suc k) (0 - suc k) (omega arith) (omega arith)
drop-numbers_from (suc k) a (suc n) =
    drop-numbers_from k (a + 1) n
    ∙ numbers_from-eq (a + 1 + k) (a + suc k) (n - k) (suc n - suc k) (omega arith) (omega arith)

take-numbers_from : (k a n : ℕ) → take k (numbers_from a n) ≡ numbers_from a (min k n)
unfolding numbers_from
take-numbers_from zero a n = numbers_from-eq a a 0 (min 0 n) refl (omega arith)
take-numbers_from (suc k) a zero = numbers_from-eq a a 0 (min (suc k) 0) refl (omega arith)
take-numbers_from (suc k) a (suc n) =
    ap (λ rest. a ∷ rest) (take-numbers_from k (a + 1) n)
    ∙ numbers_from-eq a a (suc (min k n)) (min (suc k) (suc n)) refl (omega arith)

seqs-drop : (k : ℕ) (xs : List WatchLogEntry) → seqs (drop k xs) ≡ drop k (seqs xs)
unfolding seqs
seqs-drop zero xs = refl
seqs-drop (suc k) [] = refl
seqs-drop (suc k) (x ∷ xs) = seqs-drop k xs

seqs-take : (k : ℕ) (xs : List WatchLogEntry) → seqs (take k xs) ≡ take k (seqs xs)
unfolding seqs
seqs-take zero xs = refl
seqs-take (suc k) [] = refl
seqs-take (suc k) (x ∷ xs) = ap (λ rest. x.seq ∷ rest) (seqs-take k xs)

partition_point-numbers_from :
    (after a : ℕ) (xs : List WatchLogEntry)
    → seqs xs ≡ numbers_from a (length xs)
    → partition_point after xs ≡ min (length xs) (after + 1 - a)
unfolding partition_point seqs numbers_from
partition_point-numbers_from after a [] h = omega arith
partition_point-numbers_from after a (x ∷ xs) h =
    ground (arith, partition_point-numbers_from after (a + 1) xs)

-- The number after the client's last, or the oldest that the log still has.
abbrev pub next_number : ℕ → ℕ → ℕ
next_number after n = max (after + 1) (n + 1 - watch_log_capacity)

seqs-entries_after :
    (n after limit : ℕ) (log : WatchLogBuffer)
    → IsLog n log
    → seqs (entries_after log after limit)
      ≡ numbers_from (next_number after n) (min limit (n + 1 - next_number after n))
unfolding entries_after
seqs-entries_after n after limit log (next, size, numbered) =
    let len : ℕ = length log.entries in
    let k : ℕ = partition_point after log.entries in
    let point : k ≡ min len (after + 1 - (n + 1 - len)) =
      partition_point-numbers_from after (n + 1 - len) log.entries numbered in
    seqs-take limit (drop k log.entries)
    ∙ ap (take limit)
        (seqs-drop k log.entries ∙ ap (drop k) numbered ∙ drop-numbers_from k (n + 1 - len) len)
    ∙ take-numbers_from limit (n + 1 - len + k) (len - k)
    ∙ elim (Bool-cases (leb after n)) [
      | inl before ↦
          numbers_from-eq _ _ _ _ (ground (arith, point, size)) (ground (arith, point, size))
      | inr beyond ↦ none_left _ _ _ _ (ground (arith, point, size)) (ground (arith, point, size))
    ]

-- For a new log and steps of which fewer than 2 ^ 64 - 2 append, the entries that entries_after
-- answers are numbered without a gap: from the number after the client's, or from the oldest that
-- the log still has where that is higher, up to the last one appended or to the limit.
pub seqs-entries_after-run :
    (steps : List Step) (after limit : ℕ)
    → appended steps + 2 < 2 ^ 64
    → seqs (entries_after (run new steps) after limit)
      ≡ numbers_from
          (next_number after (appended steps))
          (min limit (appended steps + 1 - next_number after (appended steps)))
unfolding seqs numbers_from
seqs-entries_after-run steps after limit small =
    seqs-entries_after (appended steps) after limit (run new steps) (
      subst (λ k. IsLog k (run new steps)) (omega arith)
        (run-IsLog 0 new steps (omega arith) (refl, refl, refl)))
