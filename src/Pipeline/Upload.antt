-- ===== src/Pipeline/Upload.antt =====
-- What an `upload_and_index` of src/indexer.rs leaves of the world, wherever it stops.
use majsoulmanager.Prelude.{
  ℕ, zero, suc, ◌≡◌, inl, inr, refl, sym, ap, ◌∙◌, Bool, true, false, List, [], ◌∷◌, Option, none,
  some, ==_iff, length, take, Bool-cases, arith,
}
use majsoulmanager.Prelude.Text.{Text, text_eq, text_eq_iff}
use majsoulmanager.Pipeline.World.{
  IndexError, World, Tried, err, ok, Step, continue, ensure, lookup, put, has_size, confirm_size,
}

-- The rules of a step: an error keeps what it did, an answer goes on.
pub continue-rule :
    {A B : Type 0} (P : Tried B × World → Type 0) (p : Tried A × World) (next : A → Step B)
    → ((e : IndexError) → P (err e, p.1))
    → ((a : A) → p.0 ≡ ok a → P (next a p.1))
    → P (continue p next)
continue-rule P (err e, world) next bad good = bad e
continue-rule P (ok a, world) next bad good = good a refl

pub ensure-rule :
    {B : Type 0} (P : Tried B × World → Type 0) (b : Bool) (e : IndexError) (world : World)
    (next : Unit → Step B)
    → ((e : IndexError) → P (err e, world))
    → P (next tt world)
    → P (continue (ensure b e world) next)
ensure-rule P true e world next bad good = good
ensure-rule P false e world next bad good = bad e

has_size-some :
    (size : ℕ) (o : Option (List ℕ))
    → has_size size o ≡ true
    → (bytes : List ℕ) × (o ≡ some bytes) × (length bytes ≡ size)
has_size-some size none h = absurd (ground arith)
has_size-some size (some bytes) h = (bytes, refl, (==_iff (length bytes) size).0 h)

pub confirm_size-rule :
    {B : Type 0} (P : Tried B × World → Type 0) (heads : Bool) (key : Text) (size : ℕ)
    (world : World) (next : Unit → Step B)
    → ((e : IndexError) → P (err e, world))
    → ((bytes : List ℕ)
        → lookup key world.bucket ≡ some bytes
        → length bytes ≡ size
        → P (next tt world))
    → P (continue (confirm_size heads key size world) next)
unfolding confirm_size
confirm_size-rule P false key size world next bad good = bad IndexError.object
confirm_size-rule P true key size world next bad good =
    elim (Bool-cases (has_size size (lookup key world.bucket))) [
      | inl same ↦
          let (bytes, found, sized) = has_size-some size (lookup key world.bucket) same in
          rw same (good bytes found sized)
      | inr other ↦ rw other (bad IndexError.truncated)
    ]

lookup-other :
    (key k : Text) (bytes file : List ℕ) (bucket : List (Text × List ℕ))
    → lookup key bucket ≡ none
    → lookup k bucket ≡ some file
    → lookup k ((key, bytes) ∷ bucket) ≡ some file
unfolding lookup
lookup-other key k bytes file bucket new found = elim (Bool-cases (text_eq key k)) [
  | inl same ↦
      let equal = (text_eq_iff key k).0 same in
      absurd (cc (new, found, ap (λ t. lookup t bucket) equal))
  | inr apart ↦ rw apart found
]

pub lookup-same :
    (key : Text) (bytes : List ℕ) (bucket : List (Text × List ℕ))
    → lookup key ((key, bytes) ∷ bucket) ≡ some bytes
unfolding lookup
lookup-same key bytes bucket = rw ((text_eq_iff key key).1 refl) refl

pub lookup-put :
    (keeps : Option ℕ) (puts : Bool) (key k : Text) (bytes file : List ℕ) (world : World)
    → lookup key world.bucket ≡ none
    → lookup k world.bucket ≡ some file
    → lookup k ((put keeps puts key bytes world).1).bucket ≡ some file
unfolding put
lookup-put none true key k bytes file world new found = found
lookup-put none false key k bytes file world new found = found
lookup-put (some n) true key k bytes file world new found =
    lookup-other key k (take n bytes) file world.bucket new found
lookup-put (some n) false key k bytes file world new found =
    lookup-other key k (take n bytes) file world.bucket new found

take-whole : {A : Type 0} (n : ℕ) (xs : List A) → length (take n xs) ≡ length xs → take n xs ≡ xs
take-whole zero [] h = refl
take-whole zero (x ∷ xs) h = absurd (omega arith)
take-whole (suc n) [] h = refl
take-whole (suc n) (x ∷ xs) h = ap (λ t. x ∷ t) (take-whole n xs (omega arith))

-- An object of the file's size is the file.
pub put-whole :
    (keeps : Option ℕ) (puts : Bool) (key : Text) (file bytes : List ℕ) (world : World)
    → lookup key world.bucket ≡ none
    → lookup key ((put keeps puts key file world).1).bucket ≡ some bytes
    → length bytes ≡ length file
    → bytes ≡ file
unfolding put
put-whole none true key file bytes world new found size = absurd (cc (new, found))
put-whole none false key file bytes world new found size = absurd (cc (new, found))
put-whole (some n) true key file bytes world new found size =
    let kept : take n file ≡ bytes =
      ground (arith, found, lookup-same key (take n file) world.bucket) in
    sym kept ∙ take-whole n file (ap length kept ∙ size)
put-whole (some n) false key file bytes world new found size =
    let kept : take n file ≡ bytes =
      ground (arith, found, lookup-same key (take n file) world.bucket) in
    sym kept ∙ take-whole n file (ap length kept ∙ size)

pub put-rest :
    (keeps : Option ℕ) (puts : Bool) (key : Text) (file : List ℕ) (world : World)
    → (((put keeps puts key file world).1).index ≡ world.index)
      × (((put keeps puts key file world).1).stored ≡ world.stored)
unfolding put
put-rest none true key file world = (refl, refl)
put-rest none false key file world = (refl, refl)
put-rest (some n) true key file world = (refl, refl)
put-rest (some n) false key file world = (refl, refl)
