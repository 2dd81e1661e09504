-- ===== src/Pack/Store/Examples.antt =====
-- Two packs that are uploaded to an empty bucket.
use majsoulmanager.Prelude.{
  ℕ, ◌≡◌, ◌≢◌, refl, Bool, true, List, [], ◌∷◌, Option, none, some, if◌then◌else◌, length, arith,
  All,
}
use majsoulmanager.Prelude.Text.{Text, codes, text_eq, text_eq_iff}
use majsoulmanager.Pack.Format.{ok}
use majsoulmanager.Pack.Format.{pack_key}
use majsoulmanager.Pack.Store.Upload.{upload_packs}
use majsoulmanager.Pack.Store.Turn.{IsUploaded}
use majsoulmanager.Pack.Store.Uploaded.{HasDistinctKeys, upload_packs-twice}

abbrev Bucket : Type 0
Bucket = Text → Option (List ℕ)

abbrev size : Option (List ℕ) → Option ℕ
size none = none
size (some bytes) = some (length bytes)

abbrev head : Bucket → Text → Option (Option ℕ)
head bucket key = some (size (bucket key))

abbrev put : Bucket → Text → List ℕ → Bool × Bucket
put bucket key bytes = (true, λ k. if text_eq k key then some bytes else bucket k)

abbrev file_name : Text → Option Text
file_name path = some path

abbrev read_file : Text → Option (List ℕ)
read_file name = some (1 ∷ name)

abbrev metadata : Text → Option ℕ
metadata name = some (length (1 ∷ name))

put-other :
    (bucket : Bucket) (key other : Text) (bytes : List ℕ)
    → other ≢ key
    → head (put bucket key bytes).1 other ≡ head bucket other
put-other bucket key other bytes apart = ground (arith, apart, text_eq_iff other key)

metadata-read_file :
    (path : Text) (bytes : List ℕ)
    → read_file path ≡ some bytes
    → metadata path ≡ some (length bytes)
metadata-read_file path bytes h = ground (arith, h)

abbrev paths : List Text
paths = codes "a" ∷ codes "b" ∷ []

abbrev uploaded : Bucket
uploaded =
    (put (put (λ k. none) (codes "packs/a") (1 ∷ codes "a")).1 (codes "packs/b") (1 ∷ codes "b")).1

two_uploads :
    upload_packs file_name metadata read_file head put (λ k. none) paths 0 ≡ (ok 2, uploaded)
unfolding upload_packs text_eq
two_uploads = refl

paths-HasDistinctKeys : HasDistinctKeys file_name paths
unfolding pack_key
paths-HasDistinctKeys = (((λ e. ground (arith, e)), tt), (tt, tt))

upload_packs-twice_example :
    All (IsUploaded file_name metadata head uploaded) paths
    × (upload_packs file_name metadata read_file head put uploaded paths 0 ≡ (ok 0, uploaded))
upload_packs-twice_example =
    upload_packs-twice file_name metadata read_file head put (λ k. none) uploaded paths 2 put-other
      metadata-read_file paths-HasDistinctKeys two_uploads
