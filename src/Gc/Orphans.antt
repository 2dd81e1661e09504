-- ===== src/Gc/Orphans.antt =====
-- `orphans` and `collect` of src/gc.rs. A time is a number of milliseconds; the catalog and the bucket are
-- what they answer: the keys of the index rows and the listed objects, or a failure.
use majsoulmanager.Prelude.{
  ℕ, ◌+◌, ◌-◌, ◌≡◌, Bool, false, not, ◌&&◌, ◌||◌, List, [], ◌∷◌, Option, none, some, arith, leb,
  if◌then◌else◌, length, Option-cases, inl, inr,
}
use majsoulmanager.Prelude.Text.{Text, codes, text_eq, ends_with}

pub record ObjectEntry : Type 0 where
  pub key : Text
  pub size : ℕ
  pub last_modified : ℕ

abbrev pub pack_suffix : Text
pack_suffix = codes ".mjpack"

unfoldable pub contains : List Text → Text → Bool
contains [] key = false
contains (k ∷ ks) key = text_eq k key || contains ks key

-- `now.signed_duration_since(..).to_std().is_ok_and(|age| age >= grace)`: an object of the future
-- is not old enough.
unfoldable pub is_old : ℕ → ℕ → ObjectEntry → Bool
is_old now grace entry = leb entry.last_modified now && leb grace (now - entry.last_modified)

unfoldable pub orphan_keys : List ObjectEntry → List Text → ℕ → ℕ → List Text
unfolding contains is_old
orphan_keys [] referenced now grace = []
orphan_keys (entry ∷ listed) referenced now grace =
    if ends_with entry.key pack_suffix
      && (not (contains referenced entry.key) && is_old now grace entry)
    then entry.key ∷ orphan_keys listed referenced now grace
    else orphan_keys listed referenced now grace

unfoldable pub orphans : List ObjectEntry → List Text → ℕ → ℕ → List Text
unfolding orphan_keys
orphans listed [] now grace = []
orphans listed (key ∷ keys) now grace = orphan_keys listed (key ∷ keys) now grace

-- The deletions before the first one that fails, and how many they are, or `none` for the failure.
unfoldable pub delete_all : (Text → Bool) → List Text → Option ℕ × List Text
delete_all deletes [] = (some 0, [])
delete_all deletes (key ∷ keys) =
    let rest = delete_all deletes keys in
    if deletes key
    then (elim rest.0 [ none ↦ none | some n ↦ some (n + 1) ], key ∷ rest.1)
    else (none, [])

-- The answer, and the keys deleted. The catalog's keys and the listing are `none` where asking fails.
unfoldable pub collect :
    Option (List Text) → Option (List ObjectEntry) → (Text → Bool) → ℕ → ℕ → Option ℕ × List Text
unfolding orphans delete_all
collect none listed deletes now grace = (none, [])
collect (some []) listed deletes now grace = (some 0, [])
collect (some (key ∷ keys)) none deletes now grace = (none, [])
collect (some (key ∷ keys)) (some listed) deletes now grace =
    delete_all deletes (orphans listed (key ∷ keys) now grace)

-- Some listed object has the key and is old enough.
unfoldable pub has_old : ℕ → ℕ → List ObjectEntry → Text → Bool
unfolding is_old
has_old now grace [] k = false
has_old now grace (entry ∷ listed) k =
    text_eq entry.key k && is_old now grace entry || has_old now grace listed k

delete_all-ends :
    (deletes : Text → Bool) (keys : List Text) (n : ℕ)
    → (delete_all deletes keys).0 ≡ some n
    → ((delete_all deletes keys).1 ≡ keys) × (n ≡ length keys)
unfolding delete_all
delete_all-ends deletes [] n h = ground arith
delete_all-ends deletes (key ∷ keys) n h = elim (Option-cases (delete_all deletes keys).0) [
  | inl failed ↦ absurd (ground (arith, h, failed))
  | inr (m, ended) ↦ ground (arith, h, ended, delete_all-ends deletes keys m ended)
]
