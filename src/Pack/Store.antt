-- ===== src/Pack/Store.antt =====
-- `PackStore` of src/pack.rs, the reading half. The name of a file in a key, zstd and the bucket are
-- parameters; a directory is what opening a name in it comes to.
pub mod Reading
pub mod Upload
pub mod Turn
pub mod Uploaded
pub mod Examples
use majsoulmanager.Prelude.{ℕ, List, [], ◌∷◌, Option, none, some}
use majsoulmanager.Prelude.Text.{Text}
use majsoulmanager.Pack.Format.{
  PackError, Result, ok, err, ◌>>=◌, Zstd, PackLocation, or_io, decompress, read_exact,
}

-- `File::open`: NotFound, another error, or the bytes.
pub data Opening : Type 0 where
  missing failed : Opening
  opened : List ℕ → Opening

-- The answer of `Objects::get_range`; its error is not read.
unfoldable pub or_object : Option (List ℕ) → Result (List ℕ)
or_object none = err PackError.object
or_object (some compressed) = ok compressed

module _ (zstd : Zstd) (get_range : Text → ℕ → ℕ → Option (List ℕ)) where
  -- One turn of the loop over the directories; `next` is what follows it.
  unfoldable pub open_or : Opening → PackLocation → Result (List ℕ) → Result (List ℕ)
  open_or Opening.missing location next = next
  open_or Opening.failed location next = err PackError.io
  open_or (Opening.opened file) location next = do
    compressed ← read_exact file location.offset location.compressed_size
    decompress zstd compressed location

  unfoldable pub read_object : PackLocation → Result (List ℕ)
  unfolding or_object
  read_object location = do
    compressed ← or_object (get_range location.pack_key location.offset location.compressed_size)
    decompress zstd compressed location

  unfoldable pub read :
      (Text → Option Text) → (Text → Opening) → (Text → Opening) → PackLocation → Result (List ℕ)
  unfolding open_or read_object
  read file_name legacy staging location = elim (file_name location.pack_key) [
    | none ↦ err PackError.corrupt
    | some name ↦
        open_or (legacy name) location (open_or (staging name) location (read_object location))
  ]
