-- ===== src/Pipeline/Packing/Stored.antt =====
-- What a row's location in a pack's bytes means, for `append_batch` of src/indexer.rs.
use mathlib.Core.List.{append-nil}
use majsoulmanager.Prelude.{
  ℕ, zero, suc, ◌+◌, ◌≤◌, ◌≡◌, inr, refl, sym, subst, ap, ◌∙◌, List, [], ◌∷◌, ◌++◌, Option, some,
  length, take, drop, length-append, length-drop, arith,
}
use majsoulmanager.Prelude.Text.{Text}
use majsoulmanager.Pack.Format.{ok, Zstd, PackLocation, Uuid, PackWriter, append}
use majsoulmanager.Pack.Format.Recovery.{IsRecord, append-Appended}
use majsoulmanager.Pack.Store.{Opening, open_or, read_object, read}
use majsoulmanager.Pack.Store.Reading.{read-append}

abbrev pub Ranges : Type 0
Ranges = Text → ℕ → ℕ → Option (List ℕ)

-- The ranges of one object are those of its bytes.
abbrev pub Serves : Ranges → Text → List ℕ → Type 0
Serves get_range key file =
    (position n : ℕ)
    → position + n ≤ length file
    → get_range key position n ≡ some (take n (drop position file))

drop-in : (n : ℕ) (xs ys : List ℕ) → n ≤ length xs → drop n (xs ++ ys) ≡ drop n xs ++ ys
drop-in zero xs ys h = refl
drop-in (suc n) [] ys h = absurd (omega arith)
drop-in (suc n) (x ∷ xs) ys h = drop-in n xs ys (omega arith)

take-in : (n : ℕ) (xs ys : List ℕ) → n ≤ length xs → take n (xs ++ ys) ≡ take n xs
take-in zero xs ys h = refl
take-in (suc n) [] ys h = absurd (omega arith)
take-in (suc n) (x ∷ xs) ys h = ap (λ t. x ∷ t) (take-in n xs ys (omega arith))

Serves-front :
    (get_range : Ranges) (key : Text) (file more : List ℕ)
    → Serves get_range key (file ++ more)
    → Serves get_range key file
Serves-front get_range key file more h position n fits =
    let inside : n ≤ length (drop position file) = omega (arith, length-drop position file) in
    h position n (omega (arith, length-append file more))
    ∙ ap some (
        ap (λ l. take n l) (drop-in position file more (omega arith))
        ∙ take-in n (drop position file) more inside)

module _ (zstd : Zstd) where
  -- Whoever serves the object `key` with these bytes reads the record at the location.
  abbrev pub Reads : Text → List ℕ → PackLocation → List ℕ → Type 0
  Reads key file location raw =
      (location.pack_key ≡ key)
      × ((get_range : Ranges)
          → Serves get_range key file
          → read_object zstd get_range location ≡ ok raw)

  pub Reads-more :
      (key : Text) (file more : List ℕ) (location : PackLocation) (raw : List ℕ)
      → Reads key file location raw
      → Reads key (file ++ more) location raw
  Reads-more key file more location raw (keyed, reads) =
      (keyed, λ get_range serves. reads get_range (Serves-front get_range key file more serves))

  -- With both directories empty, `read` goes to the bucket.
  read-bucket :
      (get_range : Ranges) (location : PackLocation)
      → read zstd get_range
          (λ key. some key)
          (λ name. Opening.missing)
          (λ name. Opening.missing)
          location
        ≡ read_object zstd get_range location
  unfolding read open_or
  read-bucket get_range location = refl

  pub Reads-append :
      (w w' : PackWriter) (id : Uuid) (raw : List ℕ) (location : PackLocation)
      → IsRecord (id, raw)
      → w.size ≡ length w.file
      → append zstd w id raw ≡ ok (w', location)
      → Reads w.key w'.file location raw
  Reads-append w w' id raw location valid sized done =
      let written = append-Appended zstd w w' id raw location valid done in
      (
        ap (λ l. l.pack_key) written.at,
        λ get_range serves.
            sym (read-bucket get_range location)
            ∙ read-append zstd get_range (λ key. some key) (λ name. Opening.missing)
                (λ name. Opening.missing) w.key w w' id raw location [] valid sized done refl
                (inr (
                  inr (
                    refl,
                    refl,
                    subst (λ file. Serves get_range w.key file) (sym (append-nil w'.file)) serves,
                  ))),
      )
