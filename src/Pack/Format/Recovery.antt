-- ===== src/Pack/Format/Recovery.antt =====
-- The scan of a pack file against the appends that wrote it: whole, torn, or with unwritten bytes.
use majsoulmanager.Prelude.{
  ℕ, suc, ◌+◌, ◌-◌, ◌≤◌, ◌<◌, ◌≡◌, refl, ap, ◌∙◌, sym, subst, false, List, [], ◌∷◌, ◌++◌, Option,
  none, some, arith, length, length-append, take, take-append, All,
}
use mathlib.Core.List.{append-nil, append_assoc}
use majsoulmanager.Prelude.Text.{Text, text_eq}
use majsoulmanager.Pack.Format.{
  Result, ok, err, stuck, ◌>>=◌, Zstd, magic, PackLocation, Uuid, is_nil, PackWriter, create,
  append, pack_key, scan_loop, scan_pack, read_exact,
}
use majsoulmanager.Pack.Format.Scan.{
  Entry, IsEntry, bytes, location, all_bytes, locations, length-bytes, Stops, Stops-short,
  Stops-zeroes, Stops-torn, zeroes, scan_loop-all_bytes,
}

-- What a caller hands to `append`: an id from `Uuid::new_v4`, and the raw bytes.
abbrev pub Record : Type 0
Record = Uuid × List ℕ

abbrev pub IsRecord : Record → Type 0
IsRecord (id, raw) = (length id ≡ 16) × (is_nil id ≡ false)

-- The value that a first step handed to the second.
record Bound {A B : Type 0} (m : Result A) (f : A → Result B) (b : B) : Type 0 where
  value : A
  first : m ≡ ok value
  second : f value ≡ ok b

bound : {A B : Type 0} {b : B} (m : Result A) {f : A → Result B} → (m >>= f) ≡ ok b → Bound m f b
bound stuck h = cc
bound (err e) h = cc
bound (ok a) h = record { value = a; first = refl; second = h }

-- A file with the magic is scanned from behind it.
scan_magic :
    (file_name : Text → Option Text) (path key : Text) (rest : List ℕ)
    → pack_key file_name path ≡ some key
    → scan_pack file_name path (magic ++ rest)
      ≡ scan_loop key (magic ++ rest) (suc (length (magic ++ rest))) (length magic)
unfolding scan_pack read_exact text_eq
scan_magic file_name path key rest named = rw named (ground arith)

module _ (zstd : Zstd) where
  -- A run of appends, each answer kept with its id.
  unfoldable pub append_all :
      PackWriter → List Record → Result (PackWriter × List (Uuid × PackLocation))
  append_all w [] = ok (w, [])
  append_all w ((id, raw) ∷ records) = do
    (w', here) ← append zstd w id raw
    (w'', rest) ← append_all w' records
    ok (w'', (id, here) ∷ rest)

  -- The entry that an append wrote, and where it lies.
  pub record Appended (w w' : PackWriter) (id : Uuid) (raw : List ℕ) (loc : PackLocation)
      : Type 0 where
    pub frame : List ℕ
    pub compressed : zstd.compress raw ≡ some frame
    pub entry : IsEntry (record { id = id; raw_size = length raw; frame = frame })
    pub file : w'.file ≡ w.file ++ bytes (record { id = id; raw_size = length raw; frame = frame })
    pub at : loc ≡ location w.key w.size (record { id = id; raw_size = length raw; frame = frame })
    pub key : w'.key ≡ w.key
    pub size : w'.size ≡ w.size + 24 + length frame

  pub append-Appended :
      (w w' : PackWriter) (id : Uuid) (raw : List ℕ) (loc : PackLocation)
      → IsRecord (id, raw)
      → append zstd w id raw ≡ ok (w', loc)
      → Appended w w' id raw loc
  append-Appended w w' id raw loc (uuid, not_nil) h = on_frame (zstd.compress raw) refl
    where
      on_frame : (c : Option (List ℕ)) → zstd.compress raw ≡ c → Appended w w' id raw loc
      on_frame none e = unfold append in absurd (ground arith)
      on_frame (some frame) e =
          unfold append in
          record {
            frame = frame;
            compressed = e;
            entry = record {
              uuid = uuid;
              not_nil = not_nil;
              raw_fits = ground arith;
              some_byte = zstd.compress_some_byte raw frame e;
              frame_fits = ground arith;
            };
            file = ground arith;
            at = ground arith;
            key = ground arith;
            size = ground arith;
          }

  -- The entries that a run of appends wrote.
  pub record Written (w w' : PackWriter) (locs : List (Uuid × PackLocation)) : Type 0 where
    pub entries : List Entry
    pub are_entries : All IsEntry entries
    pub file : w'.file ≡ w.file ++ all_bytes entries
    pub listed : locs ≡ locations w.key w.size entries
    pub key : w'.key ≡ w.key
    pub sized : w'.size ≡ length w'.file

  Written-cons :
      (w w₁ w' : PackWriter) (id : Uuid) (raw : List ℕ) (here : PackLocation)
      (rest : List (Uuid × PackLocation))
      → Appended w w₁ id raw here
      → Written w₁ w' rest
      → Written w w' ((id, here) ∷ rest)
  Written-cons w w₁ w' id raw here rest one more =
      let e : Entry = record { id = id; raw_size = length raw; frame = one.frame } in
      record {
        entries = e ∷ more.entries;
        are_entries = (one.entry, more.are_entries);
        file =
            more.file
            ∙ (ap (λ t. t ++ all_bytes more.entries) one.file
                ∙ append_assoc w.file (bytes e) (all_bytes more.entries));
        listed = cc (
          one.at,
          more.listed,
          ap (λ k. locations k w₁.size more.entries) one.key,
          ap (λ n. locations w.key n more.entries) one.size,
        );
        key = more.key ∙ one.key;
        sized = more.sized;
      }

  pub Appended-sized :
      (w w' : PackWriter) (id : Uuid) (raw : List ℕ) (here : PackLocation)
      → w.size ≡ length w.file
      → Appended w w' id raw here
      → w'.size ≡ length w'.file
  Appended-sized w w' id raw here sized one =
      let e : Entry = record { id = id; raw_size = length raw; frame = one.frame } in
      omega (
        arith,
        one.size,
        ap length one.file,
        length-bytes e one.entry,
        length-append w.file (bytes e),
      )

  pub append_all-Written :
      (records : List Record) (w w' : PackWriter) (locs : List (Uuid × PackLocation))
      → All IsRecord records
      → w.size ≡ length w.file
      → append_all w records ≡ ok (w', locs)
      → Written w w' locs
  unfolding append_all
  append_all-Written [] w w' locs hs sized h =
      let same : w ≡ w' = ground arith in
      subst (λ v. Written w v locs) same
        (record {
          entries = [];
          are_entries = tt;
          file = sym (append-nil w.file);
          listed = ground arith;
          key = refl;
          sized = sized;
        })
  append_all-Written ((id, raw) ∷ records) w w' locs (r, hs) sized h =
      let outer = bound _ h in
      let inner = bound _ outer.second in
      let (w₁, here) = outer.value in
      let (w₂, rest) = inner.value in
      let one = append-Appended w w₁ id raw here r outer.first in
      let more =
        append_all-Written records w₁ w₂ rest hs (Appended-sized w w₁ id raw here sized one)
          inner.first in
      let same : w₂ ≡ w' = cc inner.second in
      let listed : (id, here) ∷ rest ≡ locs = cc inner.second in
      subst (λ v. Written w v locs) same
        (subst (Written w w₂) listed (Written-cons w w₁ w₂ id raw here rest one more))

  -- The scan of a file that appends wrote, with a tail behind it that stops it.
  scan_tail :
      (file_name : Text → Option Text) (path key : Text) (records : List Record) (w : PackWriter)
      (locs : List (Uuid × PackLocation)) (tail : List ℕ)
      → pack_key file_name path ≡ some key
      → All IsRecord records
      → append_all (create key) records ≡ ok (w, locs)
      → Stops tail
      → scan_pack file_name path (w.file ++ tail) ≡ ok locs
  unfolding create
  scan_tail file_name path key records w locs tail named hs h stop =
      let run = append_all-Written records (create key) w locs hs refl h in
      let whole : w.file ++ tail ≡ magic ++ (all_bytes run.entries ++ tail) =
        ap (λ t. t ++ tail) run.file ∙ append_assoc magic (all_bytes run.entries) tail in
      rw whole (
        scan_magic file_name path key (all_bytes run.entries ++ tail) named
        ∙ (scan_loop-all_bytes key run.entries magic tail
              (suc (length (magic ++ (all_bytes run.entries ++ tail)))) 8 run.are_entries stop refl
              (omega (arith, length-append (all_bytes run.entries) tail))
            ∙ ap ok (sym run.listed)))

  -- Where the name of a pack file gives the key that its writer was created with, the file that appends
  -- wrote is scanned to exactly the answers of those appends, also where a further append was cut
  -- short anywhere, or where unwritten bytes follow.
  pub scan_pack-append_all :
      (file_name : Text → Option Text) (path key : Text) (records : List Record) (w : PackWriter)
      (locs : List (Uuid × PackLocation))
      → pack_key file_name path ≡ some key
      → All IsRecord records
      → append_all (create key) records ≡ ok (w, locs)
      → (scan_pack file_name path w.file ≡ ok locs)
        × ((id : Uuid) (raw : List ℕ) (w' : PackWriter) (here : PackLocation) (n : ℕ)
            → IsRecord (id, raw)
            → append zstd w id raw ≡ ok (w', here)
            → length w.file ≤ n
            → n < length w'.file
            → scan_pack file_name path (take n w'.file) ≡ ok locs)
        × ((n : ℕ) → scan_pack file_name path (w.file ++ zeroes n) ≡ ok locs)
  scan_pack-append_all file_name path key records w locs named hs h = (
    rw append-nil at
        (scan_tail file_name path key records w locs [] named hs h (Stops-short [] (omega arith))),
    λ id raw w' here n r more lo hi.
        let one = append-Appended w w' id raw here r more in
        let e : Entry = record { id = id; raw_size = length raw; frame = one.frame } in
        let cut : take n w'.file ≡ w.file ++ take (n - length w.file) (bytes e) =
          ap (take n) one.file ∙ take-append n w.file (bytes e) lo in
        rw cut (
          scan_tail file_name path key records w locs _ named hs h (
            Stops-torn e (n - length w.file) one.entry
              (omega (arith, ap length one.file, length-append w.file (bytes e))))),
    λ n. scan_tail file_name path key records w locs (zeroes n) named hs h (Stops-zeroes n),
  )
