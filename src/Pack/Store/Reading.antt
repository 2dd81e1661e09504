-- ===== src/Pack/Store/Reading.antt =====
-- What `PackStore::read` of src/pack.rs answers on what `PackWriter::append` wrote.
use mathlib.Core.List.{append_assoc}
use majsoulmanager.Prelude.{
  ℕ, ◌+◌, ◌≤◌, ◌≡◌, ◌⊎◌, inl, inr, refl, sym, subst, ap, ◌∙◌, List, ◌++◌, Option, some, arith,
  length, take, drop, length-append, take-length-append, drop-length-append, le→leb,
}
use majsoulmanager.Prelude.Text.{Text}
use majsoulmanager.Pack.Format.{
  Result, ok, Zstd, PackLocation, Uuid, PackWriter, append, to_be_bytes, decompress, read_exact,
}
use majsoulmanager.Pack.Format.Scan.{
  Entry, IsEntry, bytes, header, bytes-header, location, length-bytes,
}
use majsoulmanager.Pack.Format.Recovery.{IsRecord, Appended, append-Appended}
use majsoulmanager.Pack.Store.{Opening, open_or, or_object, read_object, read}

-- Where a pack file can be found: in the first directory, in the second, or in the bucket alone,
-- which answers a range by the bytes in it.
abbrev pub IsStored : (Text → ℕ → ℕ → Option (List ℕ)) → Opening → Opening → Text → List ℕ → Type 0
IsStored get_range legacy staging key file =
    (legacy ≡ Opening.opened file)
    ⊎ ((legacy ≡ Opening.missing) × (staging ≡ Opening.opened file))
    ⊎ ((legacy ≡ Opening.missing)
        × (staging ≡ Opening.missing)
        × ((position n : ℕ)
            → position + n ≤ length file
            → get_range key position n ≡ some (take n (drop position file))))

-- The frame of an entry behind other bytes.
module _ (front more : List ℕ) (e : Entry) (entry : IsEntry e) where
  frame_size : length front + 24 + length e.frame ≤ length (front ++ bytes e ++ more)
  frame_size = omega (
    arith,
    length-append (front ++ bytes e) more,
    length-append front (bytes e),
    length-bytes e entry,
  )

  frame_at : take (length e.frame) (drop (length front + 24) (front ++ bytes e ++ more)) ≡ e.frame
  frame_at =
      let eight : List ℕ = to_be_bytes e.raw_size ++ to_be_bytes (length e.frame) in
      let size : length front + 24 ≡ length (front ++ header e) =
        omega (arith, length-append front (header e), length-append e.id eight, entry.uuid) in
      let split : front ++ bytes e ++ more ≡ (front ++ header e) ++ (e.frame ++ more) =
        ap (λ b. front ++ b ++ more) (bytes-header e)
        ∙ ap (λ l. l ++ more) (sym (append_assoc front (header e) e.frame))
        ∙ append_assoc (front ++ header e) e.frame more in
      rw (split, drop-length-append (front ++ header e) (e.frame ++ more) (length front + 24) size)
        (take-length-append e.frame more (length e.frame) refl)

open_or-missing :
    (zstd : Zstd) (get_range : Text → ℕ → ℕ → Option (List ℕ)) (loc : PackLocation)
    (next : Result (List ℕ))
    → open_or zstd get_range Opening.missing loc next ≡ next
unfolding open_or
open_or-missing zstd get_range loc next = refl

module _ (zstd : Zstd) (front more : List ℕ) (key : Text) (id : Uuid) (raw frame : List ℕ)
    (compressed : zstd.compress raw ≡ some frame)
    (entry : IsEntry (record { id = id; raw_size = length raw; frame = frame })) where
  abbrev written : Entry
  written = record { id = id; raw_size = length raw; frame = frame }

  abbrev here : PackLocation
  here = location key (length front) written

  abbrev file : List ℕ
  file = front ++ bytes written ++ more

  decompress-frame : decompress zstd frame here ≡ ok raw
  unfolding decompress
  decompress-frame = ground (arith, zstd.decompress-compress raw frame compressed)

  open_or-opened :
      (get_range : Text → ℕ → ℕ → Option (List ℕ)) (next : Result (List ℕ))
      → open_or zstd get_range (Opening.opened file) here next ≡ ok raw
  unfolding open_or read_exact
  open_or-opened get_range next =
      rw
        (
          le→leb (length front + 24 + length frame) (length file)
              (frame_size front more written entry),
          frame_at front more written entry,
        )
        decompress-frame

  read_object-ranged :
      (get_range : Text → ℕ → ℕ → Option (List ℕ))
      → get_range key (length front + 24) (length frame)
        ≡ some (take (length frame) (drop (length front + 24) file))
      → read_object zstd get_range here ≡ ok raw
  unfolding read_object or_object
  read_object-ranged get_range ranged =
      rw (ranged, frame_at front more written entry) decompress-frame

  read-stored :
      (get_range : Text → ℕ → ℕ → Option (List ℕ)) (file_name : Text → Option Text)
      (legacy staging : Text → Opening) (name : Text)
      → file_name key ≡ some name
      → IsStored get_range (legacy name) (staging name) key file
      → read zstd get_range file_name legacy staging here ≡ ok raw
  unfolding read
  read-stored get_range file_name legacy staging name named stored =
      rw (named, read) (looked (legacy name) (staging name) stored)
    where
      bucket : Result (List ℕ)
      bucket = read_object zstd get_range here

      looked :
          (first second : Opening)
          → IsStored get_range first second key file
          → open_or zstd get_range first here (open_or zstd get_range second here bucket) ≡ ok raw
      looked first second (inl found) =
          rw found (open_or-opened get_range (open_or zstd get_range second here bucket))
      looked first second (inr (inl (none_first, found))) =
          rw (none_first, found)
            (open_or-missing zstd get_range here
                (open_or zstd get_range (Opening.opened file) here bucket)
              ∙ open_or-opened get_range bucket)
      looked first second (inr (inr (none_first, none_second, ranged))) =
          rw (none_first, none_second)
            (open_or-missing zstd get_range here
                (open_or zstd get_range Opening.missing here bucket)
              ∙ open_or-missing zstd get_range here bucket
              ∙ read_object-ranged get_range
                  (ranged (length front + 24) (length frame) (frame_size front more written entry)))

-- A record that append wrote to a pack, whose size was that of its file, is read back by the
-- location that append answered: from the pack in either directory, or by a range of the bucket's
-- object where no directory has it, and whatever was written behind it.
pub read-append :
    (zstd : Zstd) (get_range : Text → ℕ → ℕ → Option (List ℕ)) (file_name : Text → Option Text)
    (legacy staging : Text → Opening) (name : Text) (w w' : PackWriter) (id : Uuid) (raw : List ℕ)
    (loc : PackLocation) (more : List ℕ)
    → IsRecord (id, raw)
    → w.size ≡ length w.file
    → append zstd w id raw ≡ ok (w', loc)
    → file_name w.key ≡ some name
    → IsStored get_range (legacy name) (staging name) w.key (w'.file ++ more)
    → read zstd get_range file_name legacy staging loc ≡ ok raw
read-append zstd get_range file_name legacy staging name w w' id raw loc more valid sized done named
      stored =
    let a : Appended zstd w w' id raw loc = append-Appended zstd w w' id raw loc valid done in
    let e : Entry = record { id = id; raw_size = length raw; frame = a.frame } in
    rw (a.at, sized)
      (read-stored zstd w.file more w.key id raw a.frame a.compressed a.entry get_range file_name
        legacy staging name named
        (subst (λ file. IsStored get_range (legacy name) (staging name) w.key (file ++ more)) a.file
          stored))
