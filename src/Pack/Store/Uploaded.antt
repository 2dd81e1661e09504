-- ===== src/Pack/Store/Uploaded.antt =====
-- What an upload of `PackStore::upload_legacy_packs` in src/pack.rs leaves behind.
use majsoulmanager.Prelude.{
  ℕ, ◌+◌, ◌≡◌, ◌≢◌, refl, subst, ap, Bool, true, false, List, [], ◌∷◌, Option, some, length, All,
  arith,
}
use majsoulmanager.Prelude.Text.{Text}
use majsoulmanager.Pack.Format.{Result, stuck, ok, err}
use majsoulmanager.Pack.Store.Turn.{IsUploaded, upload_one-Has, upload_one-keeps, upload_one-again}
use majsoulmanager.Pack.Format.{pack_key}
use majsoulmanager.Pack.Store.Upload.{upload_keyed, upload_packs}

-- No later path has the key of an earlier one.
abbrev pub HasDistinctKeys : (Text → Option Text) → List Text → Type 0
HasDistinctKeys file_name [] = Unit
HasDistinctKeys file_name (path ∷ paths) =
    All (λ later. pack_key file_name later ≢ pack_key file_name path) paths
    × HasDistinctKeys file_name paths

module _ {B : Type 0} (file_name : Text → Option Text) (metadata : Text → Option ℕ)
    (read_file : Text → Option (List ℕ)) (head : B → Text → Option (Option ℕ))
    (put : B → Text → List ℕ → Bool × B)
    (put-other : (bucket : B) (key other : Text) (bytes : List ℕ)
      → other ≢ key
      → head (put bucket key bytes).1 other ≡ head bucket other)
    (metadata-read_file : (path : Text) (bytes : List ℕ)
      → read_file path ≡ some bytes
      → metadata path ≡ some (length bytes)) where
  abbrev upload : B → List Text → ℕ → Result ℕ × B
  upload = upload_packs file_name metadata read_file head put

  abbrev upload_one : B → Text → Option Text → Result Bool × B
  upload_one = upload_keyed file_name metadata read_file head put

  abbrev Has : B → Text → Type 0
  Has = IsUploaded file_name metadata head

  abbrev Distinct : List Text → Type 0
  Distinct = HasDistinctKeys file_name

  abbrev counted : Bool → ℕ → ℕ
  counted true u = u + 1
  counted false u = u

  -- A run that answers a number did its first turn, and the rest.
  upload-first :
      (bucket bucket' : B) (path : Text) (paths : List Text) (u n : ℕ)
      → upload bucket (path ∷ paths) u ≡ (ok n, bucket')
      → (x : Bool) × ((upload_one bucket path (pack_key file_name path)).0 ≡ ok x)
        × (upload (upload_one bucket path (pack_key file_name path)).1 paths (counted x u)
            ≡ (ok n, bucket'))
  unfolding upload_packs
  upload-first bucket bucket' path paths u n h =
      turn (upload_one bucket path (pack_key file_name path)).0 refl
    where
      turn :
          (r : Result Bool)
          → (upload_one bucket path (pack_key file_name path)).0 ≡ r
          → (x : Bool) × ((upload_one bucket path (pack_key file_name path)).0 ≡ ok x)
            × (upload (upload_one bucket path (pack_key file_name path)).1 paths (counted x u)
                ≡ (ok n, bucket'))
      turn stuck e = absurd (ground arith)
      turn (err f) e = absurd (ground arith)
      turn (ok true) e = (true, e, ground arith)
      turn (ok false) e = (false, e, ground arith)

  upload-keeps :
      (bucket bucket' : B) (before : Text) (paths : List Text) (u n : ℕ)
      → All (λ later. pack_key file_name later ≢ pack_key file_name before) paths
      → Has bucket before
      → upload bucket paths u ≡ (ok n, bucket')
      → Has bucket' before
  unfolding upload_packs
  upload-keeps bucket bucket' before [] u n apart has h =
      subst (λ b. Has b before) (ap (λ p. p.1) h) has
  upload-keeps bucket bucket' before (path ∷ paths) u n (apart, aparts) has h =
      let (x, first, rest) = upload-first bucket bucket' path paths u n h in
      upload-keeps (upload_one bucket path (pack_key file_name path)).1 bucket' before paths
        (counted x u) n aparts
        (upload_one-keeps file_name metadata read_file head put put-other metadata-read_file bucket
          path before apart has)
        rest

  upload-Has :
      (bucket bucket' : B) (paths : List Text) (u n : ℕ)
      → Distinct paths
      → upload bucket paths u ≡ (ok n, bucket')
      → All (Has bucket') paths
  upload-Has bucket bucket' [] u n d h = tt
  upload-Has bucket bucket' (path ∷ paths) u n (apart, d) h =
      let (x, first, rest) = upload-first bucket bucket' path paths u n h in
      let next : B = (upload_one bucket path (pack_key file_name path)).1 in
      (
        upload-keeps next bucket' path paths (counted x u) n apart
            (upload_one-Has file_name metadata read_file head put put-other metadata-read_file
              bucket path (pack_key file_name path) x refl first)
            rest,
        upload-Has next bucket' paths (counted x u) n d rest,
      )

  upload-again :
      (bucket : B) (paths : List Text) (u : ℕ)
      → All (Has bucket) paths
      → upload bucket paths u ≡ (ok u, bucket)
  unfolding upload_packs
  upload-again bucket [] u h = refl
  upload-again bucket (path ∷ paths) u (h, hs) = ground (
    arith,
    upload_one-again file_name metadata read_file head put put-other metadata-read_file bucket path
        h,
    upload-again bucket paths u hs,
  )

-- Where a put leaves the objects of other keys as they are, the size of a file is that of its bytes
-- and no two packs have one key: after an upload that answers a number, the bucket has an object of the same size for every pack, and another upload answers 0 and changes nothing.
pub upload_packs-twice :
    {B : Type 0} (file_name : Text → Option Text) (metadata : Text → Option ℕ)
    (read_file : Text → Option (List ℕ)) (head : B → Text → Option (Option ℕ))
    (put : B → Text → List ℕ → Bool × B) (bucket bucket' : B) (paths : List Text) (n : ℕ)
    (put-other : (bucket : B) (key other : Text) (bytes : List ℕ)
      → other ≢ key
      → head (put bucket key bytes).1 other ≡ head bucket other)
    (metadata-read_file : (path : Text) (bytes : List ℕ)
      → read_file path ≡ some bytes
      → metadata path ≡ some (length bytes))
    → HasDistinctKeys file_name paths
    → upload_packs file_name metadata read_file head put bucket paths 0 ≡ (ok n, bucket')
    → All (IsUploaded file_name metadata head bucket') paths
      × (upload_packs file_name metadata read_file head put bucket' paths 0 ≡ (ok 0, bucket'))
upload_packs-twice file_name metadata read_file head put bucket bucket' paths n put-other
      metadata-read_file d h =
    let all =
      upload-Has file_name metadata read_file head put put-other metadata-read_file bucket bucket'
        paths 0 n d h in
    (
      all,
      upload-again file_name metadata read_file head put put-other metadata-read_file bucket' paths
          0 all,
    )
