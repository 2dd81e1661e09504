-- ===== src/Pack/Store/Turn.antt =====
-- What one turn of the loop of an upload leaves behind: `PackStore::upload_legacy_packs` in src/pack.rs leaves behind.
use majsoulmanager.Prelude.{
  ℕ, ◌≡◌, ◌≢◌, refl, sym, ap, ◌∙◌, Bool, false, List, Option, none, some, length, arith,
}
use majsoulmanager.Prelude.Text.{Text}
use majsoulmanager.Pack.Format.{Result, ok}
use majsoulmanager.Pack.Format.{pack_key}
use majsoulmanager.Pack.Store.Upload.{put_pack, put_unless, upload_sized, upload_keyed}

-- The bucket has an object of the pack's size under its key.
abbrev pub IsUploaded :
    {B : Type 0}
    → (Text → Option Text)
    → (Text → Option ℕ)
    → (B → Text → Option (Option ℕ))
    → B
    → Text
    → Type 0
IsUploaded file_name metadata head bucket path =
    (key : Text) × (local : ℕ) × (pack_key file_name path ≡ some key)
    × (metadata path ≡ some local)
    × (head bucket key ≡ some (some local))

module _ {B : Type 0} (file_name : Text → Option Text) (metadata : Text → Option ℕ)
    (read_file : Text → Option (List ℕ)) (head : B → Text → Option (Option ℕ))
    (put : B → Text → List ℕ → Bool × B)
    (put-other : (bucket : B) (key other : Text) (bytes : List ℕ)
      → other ≢ key
      → head (put bucket key bytes).1 other ≡ head bucket other)
    (metadata-read_file : (path : Text) (bytes : List ℕ)
      → read_file path ≡ some bytes
      → metadata path ≡ some (length bytes)) where
  abbrev put_one : B → Text → Option (List ℕ) → Result Bool × B
  put_one = put_pack file_name metadata read_file head put

  abbrev put_new : B → Text → Text → ℕ → Option (Option ℕ) → Result Bool × B
  put_new = put_unless file_name metadata read_file head put

  put_one-head :
      (bucket : B) (key : Text) (local : ℕ) (file : Option (List ℕ)) (uploaded : Bool)
      → ((bytes : List ℕ) → file ≡ some bytes → length bytes ≡ local)
      → (put_one bucket key file).0 ≡ ok uploaded
      → head (put_one bucket key file).1 key ≡ some (some local)
  unfolding put_pack
  put_one-head bucket key local none uploaded size h = absurd (ground arith)
  put_one-head bucket key local (some bytes) uploaded size h =
      let same : length bytes ≡ local = size bytes refl in ground (arith, same, h)

  read_size :
      (path : Text) (local : ℕ)
      → metadata path ≡ some local
      → (bytes : List ℕ) → read_file path ≡ some bytes
      → length bytes ≡ local
  read_size path local sized bytes readable = ground (arith, metadata-read_file path bytes readable)

  put_new-head :
      (bucket : B) (path key : Text) (local : ℕ) (stored : Option (Option ℕ)) (uploaded : Bool)
      → metadata path ≡ some local
      → head bucket key ≡ stored
      → (put_new bucket path key local stored).0 ≡ ok uploaded
      → head (put_new bucket path key local stored).1 key ≡ some (some local)
  unfolding put_unless
  put_new-head bucket path key local none uploaded sized e h = absurd (ground arith)
  put_new-head bucket path key local (some stored) uploaded sized e h = ground (
    arith,
    e,
    h,
    put_one-head bucket key local (read_file path) uploaded (read_size path local sized),
  )

  put_one-other :
      (bucket : B) (key other : Text) (file : Option (List ℕ))
      → other ≢ key
      → head (put_one bucket key file).1 other ≡ head bucket other
  unfolding put_pack
  put_one-other bucket key other none apart = refl
  put_one-other bucket key other (some bytes) apart =
      ground (arith, put-other bucket key other bytes apart)

  put_new-other :
      (bucket : B) (path key other : Text) (local : ℕ) (stored : Option (Option ℕ))
      → other ≢ key
      → head (put_new bucket path key local stored).1 other ≡ head bucket other
  unfolding put_unless
  put_new-other bucket path key other local none apart = refl
  put_new-other bucket path key other local (some stored) apart =
      ground (arith, put_one-other bucket key other (read_file path) apart)

  abbrev upload_one : B → Text → Option Text → Result Bool × B
  upload_one = upload_keyed file_name metadata read_file head put

  abbrev upload_known : B → Text → Text → Option ℕ → Result Bool × B
  upload_known = upload_sized file_name metadata read_file head put

  abbrev Has : B → Text → Type 0
  Has = IsUploaded file_name metadata head

  upload_known-Has :
      (bucket : B) (path key : Text) (m : Option ℕ) (uploaded : Bool)
      → pack_key file_name path ≡ some key
      → metadata path ≡ m
      → (upload_known bucket path key m).0 ≡ ok uploaded
      → Has (upload_known bucket path key m).1 path
  unfolding upload_sized
  upload_known-Has bucket path key none uploaded keyed sized h = absurd (ground arith)
  upload_known-Has bucket path key (some local) uploaded keyed sized h = (
    key,
    local,
    keyed,
    sized,
    put_new-head bucket path key local (head bucket key) uploaded sized refl h,
  )

  pub upload_one-Has :
      (bucket : B) (path : Text) (k : Option Text) (uploaded : Bool)
      → pack_key file_name path ≡ k
      → (upload_one bucket path k).0 ≡ ok uploaded
      → Has (upload_one bucket path k).1 path
  unfolding upload_keyed
  upload_one-Has bucket path none uploaded keyed h = absurd (ground arith)
  upload_one-Has bucket path (some key) uploaded keyed h =
      upload_known-Has bucket path key (metadata path) uploaded keyed refl h

  upload_known-other :
      (bucket : B) (path key other : Text) (m : Option ℕ)
      → other ≢ key
      → head (upload_known bucket path key m).1 other ≡ head bucket other
  unfolding upload_sized
  upload_known-other bucket path key other none apart = refl
  upload_known-other bucket path key other (some local) apart =
      put_new-other bucket path key other local (head bucket key) apart

  upload_one-other :
      (bucket : B) (path other : Text) (k : Option Text)
      → k ≢ some other
      → head (upload_one bucket path k).1 other ≡ head bucket other
  unfolding upload_keyed
  upload_one-other bucket path other none apart = refl
  upload_one-other bucket path other (some key) apart =
      upload_known-other bucket path key other (metadata path) (λ e. apart (ap some (sym e)))

  pub upload_one-keeps :
      (bucket : B) (path before : Text)
      → pack_key file_name path ≢ pack_key file_name before
      → Has bucket before
      → Has (upload_one bucket path (pack_key file_name path)).1 before
  upload_one-keeps bucket path before apart (key, local, keyed, sized, there) = (
    key,
    local,
    keyed,
    sized,
    upload_one-other bucket path key (pack_key file_name path) (λ e. apart (e ∙ sym keyed)) ∙ there,
  )

  pub upload_one-again :
      (bucket : B) (path : Text)
      → Has bucket path
      → upload_one bucket path (pack_key file_name path) ≡ (ok false, bucket)
  unfolding upload_keyed upload_sized put_unless
  upload_one-again bucket path (key, local, keyed, sized, there) =
      ground (arith, keyed, sized, there)
