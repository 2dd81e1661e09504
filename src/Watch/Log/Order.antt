-- ===== src/Watch/Log/Order.antt =====
-- The numbers of the entries in src/watch_log.rs.
use majsoulmanager.Prelude.{
  ℕ, zero, suc, ◌+◌, ◌-◌, ◌^◌, ◌≤◌, ◌<◌, ◌≡◌, refl, subst, ap, ◌∙◌, List, [], ◌∷◌, ◌++◌, arith, inl,
  inr, length, map, Bool-cases, ◌==◌, length-append,
}
use Prim.Native.Nat.{min}
use majsoulmanager.Prelude.Text.{Text}
use majsoulmanager.Watch.Log.{
  watch_log_capacity, WatchLogEntry, WatchLogLevel, WatchLogBuffer, register_secret, make_room,
  append, Step, step, run,
}

-- n numbers from a on.
unfoldable pub numbers_from : ℕ → ℕ → List ℕ
numbers_from a zero = []
numbers_from a (suc n) = a ∷ numbers_from (a + 1) n

unfoldable pub seqs : List WatchLogEntry → List ℕ
seqs entries = map (λ (entry : WatchLogEntry). entry.seq) entries

-- After n appends: the last of them, up to the capacity, numbered without a gap.
abbrev pub IsLog : ℕ → WatchLogBuffer → Type 0
IsLog n log =
    (log.next_seq ≡ n + 1)
    × (length log.entries ≡ min n watch_log_capacity)
    × (seqs log.entries ≡ numbers_from (n + 1 - length log.entries) (length log.entries))

numbers_from-snoc : (a n : ℕ) → numbers_from a n ++ (a + n) ∷ [] ≡ numbers_from a (suc n)
unfolding numbers_from
numbers_from-snoc a zero = ap (λ k. k ∷ []) (omega arith)
numbers_from-snoc a (suc n) =
    ap (λ rest. a ∷ rest)
      (ap (λ k. numbers_from (a + 1) n ++ k ∷ []) (omega arith) ∙ numbers_from-snoc (a + 1) n)

seqs-append : (xs ys : List WatchLogEntry) → seqs (xs ++ ys) ≡ seqs xs ++ seqs ys
unfolding seqs
seqs-append [] ys = refl
seqs-append (x ∷ xs) ys = ap (λ rest. x.seq ∷ rest) (seqs-append xs ys)

make_room-length :
    (entries : List WatchLogEntry)
    → length entries ≤ watch_log_capacity
    → length (make_room entries) ≡ min (length entries) (watch_log_capacity - 1)
unfolding make_room
make_room-length [] h = omega arith
make_room-length (e ∷ entries) h = ground arith

make_room-seqs :
    (a : ℕ) (entries : List WatchLogEntry)
    → seqs entries ≡ numbers_from a (length entries)
    → seqs (make_room entries)
      ≡ numbers_from (a + length entries - length (make_room entries)) (length (make_room entries))
unfolding seqs make_room numbers_from
make_room-seqs a [] h = refl
make_room-seqs a (e ∷ entries) h = elim (Bool-cases (length (e ∷ entries) == watch_log_capacity)) [
  | inl full ↦ rw (full, make_room) (ground arith)
  | inr room ↦ rw (room, make_room) (ground arith)
]

make_room-le : (entries : List WatchLogEntry) → length (make_room entries) ≤ length entries
unfolding make_room
make_room-le [] = ground arith
make_room-le (e ∷ entries) = ground arith

seqs-push :
    (n : ℕ) (entries : List WatchLogEntry) (entry : WatchLogEntry)
    → length entries ≤ n
    → entry.seq ≡ n + 1
    → seqs entries ≡ numbers_from (n + 1 - length entries) (length entries)
    → seqs (make_room entries ++ entry ∷ [])
      ≡ numbers_from
          (n + 1 + 1 - length (make_room entries ++ entry ∷ []))
          (length (make_room entries ++ entry ∷ []))
unfolding seqs numbers_from
seqs-push n entries entry h seq numbered =
    let m : ℕ = length (make_room entries) in
    let a : ℕ = n + 1 - length entries + length entries - m in
    let le : m ≤ length entries = make_room-le entries in
    let last : entry.seq ≡ a + m = omega (arith, le, h, seq) in
    let size : length (make_room entries ++ entry ∷ []) ≡ suc m =
      omega (arith, length-append (make_room entries) (entry ∷ [])) in
    let first : a ≡ n + 1 + 1 - suc m = omega (arith, le, h) in
    rw size (
      seqs-append (make_room entries) (entry ∷ [])
      ∙ ap (λ xs. xs ++ entry.seq ∷ []) (make_room-seqs (n + 1 - length entries) entries numbered)
      ∙ ap (λ k. numbers_from a m ++ k ∷ []) last
      ∙ numbers_from-snoc a m
      ∙ ap (λ k. numbers_from k (suc m)) first)

pub append-IsLog :
    (n : ℕ) (log : WatchLogBuffer) (now : ℕ) (level : WatchLogLevel) (source message : Text)
    → n + 2 < 2 ^ 64
    → IsLog n log
    → IsLog (n + 1) (append log now level source message)
unfolding append
append-IsLog n log now level source message small (next, size, numbered) = (
  omega arith,
  omega
      (arith, length-append (make_room log.entries) _, make_room-length log.entries (omega arith)),
  seqs-push n log.entries _ (omega arith) next numbered,
)

-- How many of the steps append.
unfoldable pub appended : List Step → ℕ
appended [] = 0
appended (Step.registers secret ∷ steps) = appended steps
appended (Step.appends now level source message ∷ steps) = suc (appended steps)

register_secret-IsLog :
    (n : ℕ) (log : WatchLogBuffer) (secret : Text)
    → IsLog n log
    → IsLog n (register_secret log secret)
unfolding register_secret
register_secret-IsLog n log secret h = ground arith

pub run-IsLog :
    (n : ℕ) (log : WatchLogBuffer) (steps : List Step)
    → n + appended steps + 1 < 2 ^ 64
    → IsLog n log
    → IsLog (n + appended steps) (run log steps)
unfolding run step appended
run-IsLog n log [] small h = subst (λ k. IsLog k log) (omega arith) h
run-IsLog n log (Step.registers secret ∷ steps) small h =
    run-IsLog n (register_secret log secret) steps small (register_secret-IsLog n log secret h)
run-IsLog n log (Step.appends now level source message ∷ steps) small h =
    subst (λ k. IsLog k (run (append log now level source message) steps)) (omega arith)
      (run-IsLog (n + 1) (append log now level source message) steps (omega arith)
        (append-IsLog n log now level source message (omega arith) h))
