-- ===== src/Pack/Store/Upload.antt =====
-- `PackStore::upload_legacy_packs` of src/pack.rs. The files, their names and the bucket are parameters:
-- `head` and `put` are those of src/objects.rs, on a bucket that a put changes, also one that fails.
use majsoulmanager.Prelude.{
  ℕ, ◌+◌, Bool, true, false, List, [], ◌∷◌, Option, none, some, ◌==◌, if◌then◌else◌, length,
}
use majsoulmanager.Prelude.Text.{Text}
use majsoulmanager.Pack.Format.{PackError, pack_key, Result, stuck, ok, err}

abbrev is_same : ℕ → Option ℕ → Bool
is_same local none = false
is_same local (some stored) = stored == local

-- The answer of the `head` behind a `put`.
abbrev confirm : ℕ → Option (Option ℕ) → Result Bool
confirm size none = err PackError.object
confirm size (some stored) = if is_same size stored then ok true else err PackError.object

module _ {B : Type 0} (file_name : Text → Option Text) (metadata : Text → Option ℕ)
    (read_file : Text → Option (List ℕ)) (head : B → Text → Option (Option ℕ))
    (put : B → Text → List ℕ → Bool × B) where
  unfoldable pub put_pack : B → Text → Option (List ℕ) → Result Bool × B
  put_pack bucket key none = (err PackError.io, bucket)
  put_pack bucket key (some bytes) =
      let bucket' : B = (put bucket key bytes).1 in
      if (put bucket key bytes).0
      then (confirm (length bytes) (head bucket' key), bucket')
      else (err PackError.object, bucket')

  unfoldable pub put_unless : B → Text → Text → ℕ → Option (Option ℕ) → Result Bool × B
  unfolding put_pack
  put_unless bucket path key local none = (err PackError.object, bucket)
  put_unless bucket path key local (some stored) =
      if is_same local stored then (ok false, bucket) else put_pack bucket key (read_file path)

  unfoldable pub upload_sized : B → Text → Text → Option ℕ → Result Bool × B
  unfolding put_unless
  upload_sized bucket path key none = (err PackError.io, bucket)
  upload_sized bucket path key (some local) = put_unless bucket path key local (head bucket key)

  -- One turn of the loop: whether the pack was uploaded.
  unfoldable pub upload_keyed : B → Text → Option Text → Result Bool × B
  unfolding upload_sized
  upload_keyed bucket path none = (err PackError.corrupt, bucket)
  upload_keyed bucket path (some key) = upload_sized bucket path key (metadata path)

  unfoldable pub upload_packs : B → List Text → ℕ → Result ℕ × B
  unfolding pack_key upload_keyed
  upload_packs bucket [] uploaded = (ok uploaded, bucket)
  upload_packs bucket (path ∷ paths) uploaded =
      let bucket' : B = (upload_keyed bucket path (pack_key file_name path)).1 in
      elim (upload_keyed bucket path (pack_key file_name path)).0 [
        | stuck ↦ (stuck, bucket')
        | err e ↦ (err e, bucket')
        | ok true ↦ upload_packs bucket' paths (uploaded + 1)
        | ok false ↦ upload_packs bucket' paths uploaded
      ]
