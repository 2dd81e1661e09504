-- ===== src/Pack/Examples.antt =====
-- A pack of two records, its scan, and the theorems at it.
use majsoulmanager.Prelude.{
  ℕ, ◌≤◌, ◌<◌, ◌≡◌, refl, List, [], ◌∷◌, ◌++◌, Option, none, some, arith, length, take, drop, All,
  true, inr,
}
use majsoulmanager.Prelude.Text.{Text, codes}
use majsoulmanager.Pack.Format.{
  ok, Zstd, PackLocation, Uuid, is_nil, PackWriter, create, append, pack_key, scan_pack,
}
use majsoulmanager.Pack.Format.Recovery.{Record, IsRecord, append_all, scan_pack-append_all}
use majsoulmanager.Pack.Format.Scan.{zeroes}
use majsoulmanager.Pack.Store.{Opening, read}
use majsoulmanager.Pack.Store.Reading.{read-append}

-- A codec that puts one byte before the content.
abbrev pub unframe : List ℕ → ℕ → Option (List ℕ)
unframe [] capacity = none
unframe (b ∷ raw) capacity = some raw

pub one_byte_header : (raw frame : List ℕ) → some (40 ∷ raw) ≡ some frame → 0 < length frame
one_byte_header raw frame h = ground arith

pub unframes :
    (raw frame : List ℕ) → some (40 ∷ raw) ≡ some frame → unframe frame (length raw) ≡ some raw
unframes raw frame h = ground arith

abbrev pub codec : Zstd
codec = record {
  compress = λ raw. some (40 ∷ raw);
  decompress = unframe;
  decompress-compress = unframes;
  compress_some_byte = one_byte_header;
}

abbrev id : Uuid
id = 1 ∷ 2 ∷ 3 ∷ 4 ∷ 5 ∷ 6 ∷ 7 ∷ 8 ∷ 9 ∷ 10 ∷ 11 ∷ 12 ∷ 13 ∷ 14 ∷ 15 ∷ 16 ∷ []

abbrev key : Text
key = codes "packs/a.mjpack"

abbrev name_of : Text → Option Text
name_of path = some (codes "a.mjpack")

abbrev path : Text
path = codes "/data/packs/a.mjpack"

named : pack_key name_of path ≡ some key
unfolding pack_key
named = refl

abbrev records : List Record
records = (id, 7 ∷ 7 ∷ []) ∷ (id, []) ∷ []

abbrev listed : List (Uuid × PackLocation)
listed =
    (id, record { pack_key = key; offset = 32; compressed_size = 3; raw_size = 2 })
    ∷ (id, record { pack_key = key; offset = 59; compressed_size = 1; raw_size = 0 })
    ∷ []

abbrev file : List ℕ
file =
    77
    ∷ 74
    ∷ 80
    ∷ 65
    ∷ 67
    ∷ 75
    ∷ 48
    ∷ 49
    ∷ (id
        ++ (0
            ∷ 0
            ∷ 0
            ∷ 2
            ∷ 0
            ∷ 0
            ∷ 0
            ∷ 3
            ∷ 40
            ∷ 7
            ∷ 7
            ∷ (id ++ (0 ∷ 0 ∷ 0 ∷ 0 ∷ 0 ∷ 0 ∷ 0 ∷ 1 ∷ 40 ∷ []))))

abbrev writer : PackWriter
writer = record { key = key; file = file; size = 60; first_append = true }

two_appends : append_all codec (create key) records ≡ ok (writer, listed)
unfolding append_all append create
two_appends = refl

scan_runs : scan_pack name_of path file ≡ ok listed
unfolding scan_pack pack_key is_nil
scan_runs = refl

records-IsRecord : All IsRecord records
unfolding is_nil
records-IsRecord = ((refl, refl), ((refl, refl), tt))

scan_pack-append_all_example :
    (scan_pack name_of path file ≡ ok listed)
    × ((id' : Uuid) (raw : List ℕ) (w' : PackWriter) (here : PackLocation) (n : ℕ)
        → IsRecord (id', raw)
        → append codec writer id' raw ≡ ok (w', here)
        → length file ≤ n
        → n < length w'.file
        → scan_pack name_of path (take n w'.file) ≡ ok listed)
    × ((n : ℕ) → scan_pack name_of path (file ++ zeroes n) ≡ ok listed)
scan_pack-append_all_example =
    scan_pack-append_all codec name_of path key records writer listed named records-IsRecord
      two_appends

-- The pack after its first record, which is read from the bucket.
abbrev first_writer : PackWriter
first_writer = record { key = key; file = take 35 file; size = 35; first_append = true }

abbrev first_location : PackLocation
first_location = record { pack_key = key; offset = 32; compressed_size = 3; raw_size = 2 }

first_append : append codec (create key) id (7 ∷ 7 ∷ []) ≡ ok (first_writer, first_location)
unfolding append create
first_append = refl

id-IsRecord : (raw : List ℕ) → IsRecord (id, raw)
unfolding is_nil
id-IsRecord raw = (refl, refl)

size-create : (create key).size ≡ length (create key).file
unfolding create
size-create = refl

abbrev nowhere : Text → Opening
nowhere name = Opening.missing

abbrev ranges : Text → ℕ → ℕ → Option (List ℕ)
ranges _ position n = some (take n (drop position (take 35 file ++ 9 ∷ [])))

read-append_example :
    read codec ranges (λ _. some (codes "a.mjpack")) nowhere nowhere first_location
    ≡ ok (7 ∷ 7 ∷ [])
read-append_example =
    read-append codec ranges (λ _. some (codes "a.mjpack")) nowhere nowhere (codes "a.mjpack")
      (create key) first_writer id (7 ∷ 7 ∷ []) first_location (9 ∷ []) (id-IsRecord (7 ∷ 7 ∷ []))
      size-create first_append refl (inr (inr (refl, refl, λ position n h. refl)))
