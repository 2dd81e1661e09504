-- ===== src/Kafka/Examples.antt =====
-- A writing of ids and times by counting, a message and a batch, and the theorems at them.
use majsoulmanager.Prelude.{
  ℕ, zero, suc, ◌+◌, ◌<◌, ◌≡◌, refl, ap, List, [], ◌∷◌, Option, none, some, if◌then◌else◌, length,
  arith, ◌==◌, All,
}
use majsoulmanager.Prelude.Int.{pos, negsuc}
use majsoulmanager.Prelude.Text.{Text, codes}
use majsoulmanager.Proto.Text.{IsText, from_utf8_lossy_ascii}
use majsoulmanager.Mjai.{DateTime}
use majsoulmanager.Pack.Format.{Uuid}
use majsoulmanager.Kafka.{produce_chunks}
use majsoulmanager.Kafka.Message.{
  HasFourDigitYear, IngestMessage, Writing, ok, into_record, from_record, from_record-into_record,
}
use majsoulmanager.Kafka.Chunks.{flatten, IsChunk, produce_chunks-IsChunk}

-- A number is that many letters `a`, and a `b`.
count : ℕ → Text → Text
count zero rest = b'b' ∷ rest
count (suc n) rest = b'a' ∷ count n rest

unfoldable pub counted : List ℕ → Text
unfolding count
counted [] = []
counted (n ∷ ns) = count n (counted ns)

unfoldable pub read_counts : ℕ → Text → List ℕ
read_counts n [] = []
read_counts n (c ∷ rest) =
    let more = read_counts (suc n) rest in
    let next = read_counts 0 rest in if c == b'a' then more else n ∷ next

read_counts-count :
    (m n : ℕ) (rest : Text) → read_counts m (count n rest) ≡ (m + n) ∷ read_counts 0 rest
unfolding read_counts count
read_counts-count m zero rest = ground arith
read_counts-count m (suc n) rest = ground (arith, read_counts-count (suc m) n rest)

read_counts-counted : (ns : List ℕ) → read_counts 0 (counted ns) ≡ ns
unfolding counted read_counts
read_counts-counted [] = refl
read_counts-counted (n ∷ ns) =
    ground (arith, read_counts-count 0 n (counted ns), read_counts-counted ns)

count-ascii : (n : ℕ) (rest : Text) → All (λ b. b < 128) rest → All (λ b. b < 128) (count n rest)
unfolding count
count-ascii zero rest h = (omega arith, h)
count-ascii (suc n) rest h = (omega arith, count-ascii n rest h)

counted-ascii : (ns : List ℕ) → All (λ b. b < 128) (counted ns)
unfolding counted
counted-ascii [] = tt
counted-ascii (n ∷ ns) = count-ascii n (counted ns) (counted-ascii ns)

pub counted-IsText : (ns : List ℕ) → IsText (counted ns)
counted-IsText ns = from_utf8_lossy_ascii (counted ns) (counted-ascii ns)

pub parse-counted : (ns : List ℕ) → length ns ≡ 16 → some (read_counts 0 (counted ns)) ≡ some ns
parse-counted ns h = ap some (read_counts-counted ns)

-- A time below zero has a second count.
unfoldable pub as_counts : DateTime → List ℕ
as_counts (pos n) = n ∷ []
as_counts (negsuc n) = n ∷ 0 ∷ []

unfoldable pub of_counts : List ℕ → Option DateTime
of_counts (n ∷ []) = some (pos n)
of_counts (n ∷ m ∷ []) = some (negsuc n)
of_counts _ = none

pub of_counts-as_counts :
    (at : DateTime)
    → HasFourDigitYear at
    → of_counts (read_counts 0 (counted (as_counts at))) ≡ some at
unfolding as_counts of_counts
of_counts-as_counts (pos n) year = rw (read_counts-counted (n ∷ [])) refl
of_counts-as_counts (negsuc n) year = rw (read_counts-counted (n ∷ 0 ∷ [])) refl

pub as_counts-IsText : (at : DateTime) → IsText (counted (as_counts at))
as_counts-IsText at = counted-IsText (as_counts at)

abbrev pub by_counting : Writing
by_counting = record {
  uuid_text = counted;
  parse_uuid = λ text. some (read_counts 0 text);
  to_rfc3339 = λ at. counted (as_counts at);
  parse_from_rfc3339 = λ text. of_counts (read_counts 0 text);
  parse_uuid-uuid_text = parse-counted;
  parse-to_rfc3339 = of_counts-as_counts;
  uuid_text-IsText = counted-IsText;
  to_rfc3339-IsText = as_counts-IsText;
}

abbrev pub sixteen : Uuid
sixteen = 1 ∷ 0 ∷ 2 ∷ 0 ∷ 0 ∷ 0 ∷ 0 ∷ 0 ∷ 0 ∷ 0 ∷ 0 ∷ 0 ∷ 0 ∷ 0 ∷ 0 ∷ 0 ∷ []

abbrev pub message : IngestMessage
message = record {
  record_id = sixteen;
  source = codes "a";
  played_at = some (negsuc 2);
  raw = codes "xy";
  majsoul_pb = some (7 ∷ []);
  received_at = pos 5;
}

from_record-into_record_example :
    from_record by_counting (into_record by_counting message) ≡ ok message
from_record-into_record_example =
    from_record-into_record by_counting message refl
      (from_utf8_lossy_ascii (codes "a") (omega arith, tt)) (omega arith)

-- Two sizes that do not fit in one batch, and one that fits in none.
abbrev sizes : List ℕ
sizes = 500000 ∷ 400000 ∷ 900000 ∷ []

three_chunks : produce_chunks (λ n. n) sizes ≡ (500000 ∷ []) ∷ (400000 ∷ []) ∷ (900000 ∷ []) ∷ []
unfolding produce_chunks
three_chunks = refl

produce_chunks-IsChunk_example :
    (flatten (λ n. n) (produce_chunks (λ n. n) sizes) ≡ sizes)
    × All (IsChunk (λ n. n)) (produce_chunks (λ n. n) sizes)
produce_chunks-IsChunk_example = produce_chunks-IsChunk (λ n. n) sizes
