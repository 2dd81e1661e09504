-- ===== src/Pack/Format.antt =====
-- The writing half of src/pack.rs and the offline scan of a pack. A file is the list of its bytes;
-- zstd is a parameter.
pub mod Scan
pub mod Recovery
use majsoulmanager.Prelude.{
  ℕ, zero, suc, ◌+◌, ◌-◌, ◌*◌, ◌/◌, ◌%◌, ◌^◌, ◌≤◌, ◌<◌, ◌≡◌, Bool, ◌||◌, true, false, List, [], ◌∷◌,
  ◌++◌, Option, none, some, ltb, leb, ◌==◌, if◌then◌else◌, length, take, drop,
}
use majsoulmanager.Prelude.Text.{Text, codes, text_eq}

-- `TooLarge`, `Corrupt`, `Io` and `Object` of `PackError`; an I/O error carries no text here.
pub data PackError : Type 0 where
  too_large corrupt io object : PackError

-- `stuck` is no Rust value: the scan ran out of fuel.
pub data Result {ℓ} (A : Type ℓ) : Type ℓ where
  stuck : Result A
  err : PackError → Result A
  ok : A → Result A

infixl 5 ◌>>=◌
abbrev pub ◌>>=◌ {ℓ κ} : {B : Type κ} {A : Type ℓ} → Result A → (A → Result B) → Result B
stuck >>= next = stuck
err e >>= next = err e
ok a >>= next = next a

-- `zstd::bulk::compress(_, 3)` and `decompress(_, capacity)`; `none` is an I/O error. A frame is
-- read back at the capacity of its content, and has a header, so it is not empty.
pub record Zstd : Type 0 where
  pub compress : List ℕ → Option (List ℕ)
  pub decompress : List ℕ → ℕ → Option (List ℕ)
  pub decompress-compress :
      (raw frame : List ℕ) → compress raw ≡ some frame → decompress frame (length raw) ≡ some raw
  pub compress_some_byte : (raw frame : List ℕ) → compress raw ≡ some frame → 0 < length frame

-- "MJPACK01"
abbrev pub magic : List ℕ
magic = 77 ∷ 74 ∷ 80 ∷ 65 ∷ 67 ∷ 75 ∷ 48 ∷ 49 ∷ []

abbrev pub entry_header_len : ℕ
entry_header_len = 24

pub record PackLocation : Type 0 where
  pub pack_key : Text
  pub offset : ℕ
  pub compressed_size : ℕ
  pub raw_size : ℕ

-- A uuid is its sixteen bytes.
abbrev pub Uuid : Type 0
Uuid = List ℕ

unfoldable pub is_nil : Uuid → Bool
unfolding text_eq
is_nil id = text_eq id (0 ∷ 0 ∷ 0 ∷ 0 ∷ 0 ∷ 0 ∷ 0 ∷ 0 ∷ 0 ∷ 0 ∷ 0 ∷ 0 ∷ 0 ∷ 0 ∷ 0 ∷ 0 ∷ [])

-- `u32::to_be_bytes` and `u32::from_be_bytes`.
abbrev pub to_be_bytes : ℕ → List ℕ
to_be_bytes v = (v / 2 ^ 24 % 256) ∷ (v / 2 ^ 16 % 256) ∷ (v / 2 ^ 8 % 256) ∷ (v % 256) ∷ []

abbrev pub from_be_bytes : List ℕ → ℕ
from_be_bytes (a ∷ b ∷ c ∷ d ∷ []) = a * 2 ^ 24 + b * 2 ^ 16 + c * 2 ^ 8 + d
from_be_bytes _ = 0

-- `age` reads a clock and is not modelled; `first_append` says whether a record was appended.
pub record PackWriter : Type 0 where
  pub key : Text
  pub file : List ℕ
  pub size : ℕ
  pub first_append : Bool

-- `create`, once the file is there.
unfoldable pub create : Text → PackWriter
create key = record { key = key; file = magic; size = length magic; first_append = false }

-- `u32::try_from` of a length.
abbrev pub try_u32 : ℕ → Result ℕ
try_u32 n = if ltb n (2 ^ 32) then ok n else err too_large

abbrev pub or_io {ℓ} : {A : Type ℓ} → Option A → Result A
or_io none = err io
or_io (some a) = ok a

-- The bytes of one entry.
abbrev pub entry : Uuid → ℕ → ℕ → List ℕ → List ℕ
entry id raw_size compressed_size compressed =
    id ++ (to_be_bytes raw_size ++ (to_be_bytes compressed_size ++ compressed))

module _ (zstd : Zstd) where
  -- Each write appends to the file.
  unfoldable pub append : PackWriter → Uuid → List ℕ → Result (PackWriter × PackLocation)
  append w id raw = do
    raw_size ← try_u32 (length raw)
    compressed ← or_io (zstd.compress raw)
    compressed_size ← try_u32 (length compressed)
    let offset = w.size + entry_header_len
    ok (
      record w {
        file = w.file ++ entry id raw_size compressed_size compressed;
        size = offset + compressed_size;
        first_append = true;
      },
      record {
        pack_key = w.key;
        offset = offset;
        compressed_size = compressed_size;
        raw_size = raw_size;
      },
    )

  -- `decompress`: both lengths that the index recorded are checked.
  unfoldable pub decompress : List ℕ → PackLocation → Result (List ℕ)
  decompress compressed location =
      if length compressed == location.compressed_size
      then (do
        raw ← or_io (zstd.decompress compressed location.raw_size)
        if length raw == location.raw_size then ok raw else err corrupt)
      else err corrupt

-- `seek` to a position and `read_exact`.
unfoldable pub read_exact : List ℕ → ℕ → ℕ → Result (List ℕ)
read_exact file position n =
    if leb (position + n) (length file) then ok (take n (drop position file)) else err io

-- The loop of `scan_pack`, from `position` on.
pub scan_loop : Text → List ℕ → ℕ → ℕ → Result (List (Uuid × PackLocation))
scan_loop key file zero position = stuck
scan_loop key file (suc fuel) position =
    let header = take entry_header_len (drop position file) in
    let record_id = take 16 header in
    let raw_size = from_be_bytes (take 4 (drop 16 header)) in
    let compressed_size = from_be_bytes (take 4 (drop 20 header)) in
    let offset = position + entry_header_len in
    let here : PackLocation = record {
      pack_key = key;
      offset = offset;
      compressed_size = compressed_size;
      raw_size = raw_size;
    } in
    let rest = scan_loop key file fuel (offset + compressed_size) in
    if ltb (length file) (position + entry_header_len)
    then ok []
    else if is_nil record_id || compressed_size == 0
    then ok []
    else if ltb (length file) (offset + compressed_size)
    then ok []
    else (do entries ← rest; ok ((record_id, here) ∷ entries))

-- `pack_key`, by the standard library's name of the file at a path, in UTF-8.
unfoldable pub pack_key : (Text → Option Text) → Text → Option Text
pack_key file_name path = elim (file_name path) [
  | none ↦ none
  | some name ↦ some (codes "packs/" ++ name)
]

abbrev pub or_corrupt {ℓ} : {A : Type ℓ} → Option A → Result A
or_corrupt none = err corrupt
or_corrupt (some a) = ok a

-- `scan_pack` of the file at a path, whose name gives the key.
unfoldable pub scan_pack :
    (Text → Option Text) → Text → List ℕ → Result (List (Uuid × PackLocation))
unfolding pack_key scan_loop read_exact
scan_pack file_name path file = do
  key ← or_corrupt (pack_key file_name path)
  head ← read_exact file 0 (length magic)
  if text_eq head magic then scan_loop key file (suc (length file)) (length magic) else err corrupt
