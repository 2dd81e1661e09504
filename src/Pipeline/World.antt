-- ===== src/Pipeline/World.antt =====
-- What the worker of src/indexer.rs writes to: the bucket, the tables of the index and the stored
-- offset, with calls that may fail after they took effect.
use majsoulmanager.Prelude.{
  ℕ, zero, suc, Bool, true, false, List, [], ◌∷◌, ◌++◌, Option, none, some, ◌==◌, if◌then◌else◌,
  length, take,
}
use majsoulmanager.Prelude.Text.{Text, text_eq}
use majsoulmanager.Pipeline.Types.{Record, PlayerGame}

-- `Io` is also a pack's error.
pub data IndexError : Type 0 where
  pack object index kafka io truncated : IndexError

pub record World : Type 0 where
  pub bucket : List (Text × List ℕ)
  pub index : List Record
  pub games : List PlayerGame
  pub stored : Option ℕ

-- How a call ends: answered, or with an error where so many entries landed anyway.
pub data Call : Type 0 where
  done : Call
  failed : ℕ → Call

abbrev pub landed : {A : Type 0} → Call → List A → List A
landed Call.done xs = xs
landed (Call.failed n) xs = take n xs

pub data Tried (A : Type 0) : Type 0 where
  err : IndexError → Tried A
  ok : A → Tried A

-- A step that reads and changes the world, also where it fails.
abbrev pub Step : Type 0 → Type 0
Step A = World → Tried A × World

abbrev pub continue : {A B : Type 0} → Tried A × World → (A → Step B) → Tried B × World
continue (err e, world) next = (err e, world)
continue (ok a, world) next = next a world

infixl 5 ◌>>=◌
abbrev pub ◌>>=◌ : {A B : Type 0} → Step A → (A → Step B) → Step B
◌>>=◌ m next world = continue (m world) next

abbrev pub ensure : Bool → IndexError → Step Unit
ensure true e world = (ok tt, world)
ensure false e world = (err e, world)

abbrev pub answer : Call → IndexError → Tried Unit
answer Call.done e = ok tt
answer (Call.failed n) e = err e

unfoldable pub lookup : Text → List (Text × List ℕ) → Option (List ℕ)
unfolding text_eq
lookup key [] = none
lookup key ((k, bytes) ∷ bucket) = if text_eq k key then some bytes else lookup key bucket

-- A put keeps the first bytes of an object, all of them, or does not take place.
unfoldable pub put : Option ℕ → Bool → Text → List ℕ → Step Unit
put none true key bytes world = (ok tt, world)
put none false key bytes world = (err IndexError.object, world)
put (some n) true key bytes world =
    (ok tt, record world { bucket = (key, take n bytes) ∷ world.bucket })
put (some n) false key bytes world =
    (err IndexError.object, record world { bucket = (key, take n bytes) ∷ world.bucket })

abbrev pub has_size : ℕ → Option (List ℕ) → Bool
has_size size none = false
has_size size (some bytes) = length bytes == size

-- `head`, and the comparison of what it answers.
unfoldable pub confirm_size : Bool → Text → ℕ → Step Unit
unfolding lookup
confirm_size false key size world = (err IndexError.object, world)
confirm_size true key size world =
    if has_size size (lookup key world.bucket)
    then (ok tt, world)
    else (err IndexError.truncated, world)

unfoldable pub insert_batch : Call → List Record → Step Unit
insert_batch call [] world = (ok tt, world)
insert_batch call (row ∷ rows) world =
    (answer call IndexError.index, record world { index = landed call (row ∷ rows) ++ world.index })

unfoldable pub insert_player_games : Call → List PlayerGame → Step Unit
insert_player_games call [] world = (ok tt, world)
insert_player_games call (game ∷ games) world = (
  answer call IndexError.index,
  record world { games = landed call (game ∷ games) ++ world.games },
)

abbrev pub store_at : Call → ℕ → Option ℕ → Option ℕ
store_at Call.done offset before = some offset
store_at (Call.failed zero) offset before = before
store_at (Call.failed (suc n)) offset before = some offset

unfoldable pub commit_offset : Call → ℕ → Step Unit
commit_offset call offset world =
    (answer call IndexError.kafka, record world { stored = store_at call offset world.stored })
