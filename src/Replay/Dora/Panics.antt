-- ===== src/Replay/Dora/Panics.antt =====
-- The markers that `dora_from` of src/replay.rs panics on, and the tiles it answers.
use majsoulmanager.Prelude.{
  ℕ, zero, suc, ◌≡◌, ◌≢◌, ◌↔◌, ◌≤◌, ◌<◌, ◌⊎◌, inl, inr, refl, Bool, true, false, ◌&&◌, [], ◌∷◌,
  ◌++◌, some, map, replicate, arith, ltb, leb, ◌==◌, Bool-cases, Option-cases,
}
use majsoulmanager.Prelude.Text.{Text, codes, text_eq}
use majsoulmanager.Replay.Reading.{panic, value}
use majsoulmanager.Replay.Dora.{normalise, honor_after, number_after, suited_after, dora_from}

-- The text is empty, or its first character takes several bytes.
abbrev pub is_unsplittable : Text → Bool
is_unsplittable [] = true
is_unsplittable (c ∷ []) = false
is_unsplittable (c ∷ d ∷ ds) = leb 0x80 d && ltb d 0xc0

suited_after-panic_iff : (t : Text) → (suited_after t ≡ panic) ↔ (is_unsplittable t ≡ true)
unfolding suited_after
suited_after-panic_iff [] = ground arith
suited_after-panic_iff (c ∷ []) = ground arith
suited_after-panic_iff (c ∷ d ∷ ds) = ground arith

honor_after-normalise :
    (marker tile : Text)
    → honor_after marker ≡ some tile
    → is_unsplittable (normalise marker) ≡ false
unfolding honor_after normalise text_eq
honor_after-normalise [] tile h = absurd (ground (arith, h))
honor_after-normalise (c ∷ []) tile h = ground (arith, h)
honor_after-normalise (c ∷ d ∷ ds) tile h = absurd (ground (arith, h))

Text-cases : (t : Text) → (t ≡ []) ⊎ ((c : ℕ) × (cs : Text) × (t ≡ c ∷ cs))
Text-cases [] = inl refl
Text-cases (c ∷ cs) = inr (c, cs, refl)

-- What normalise takes off is letters r.
normalise-append : (t : Text) → (n : ℕ) × (t ≡ normalise t ++ replicate n b'r')
unfolding normalise
normalise-append [] = (0, refl)
normalise-append (c ∷ cs) =
    let (n, split) = normalise-append cs in
    elim (Text-cases (normalise cs)) [
      | inl empty ↦ elim (Bool-cases (c == b'r')) [
        | inl red ↦ (suc n, ground (arith, empty, red, split))
        | inr not_red ↦ (n, ground (arith, empty, not_red, split))
      ]
      | inr (d, ds, some_left) ↦ (n, ground (arith, some_left, split))
    ]

normalise-replicate : (n : ℕ) → normalise (replicate n b'r') ≡ []
unfolding normalise
normalise-replicate zero = refl
normalise-replicate (suc n) = rw (normalise-replicate n) refl

-- A byte that is no letter r stays, and all before it.
normalise-second :
    (c d : ℕ) (ds : Text) → 0x80 ≤ d → (more : Text) × (normalise (c ∷ d ∷ ds) ≡ c ∷ d ∷ more)
unfolding normalise
normalise-second c d ds high = elim (Text-cases (normalise ds)) [
  | inl empty ↦ ([], ground (arith, empty, high))
  | inr (x, xs, some_left) ↦ (x ∷ xs, ground (arith, some_left, high))
]

-- Nothing but letters r, or a first character of several bytes.
abbrev pub HasNoFirst : Text → Type 0
HasNoFirst marker =
    ((n : ℕ) × (marker ≡ replicate n b'r'))
    ⊎ ((c : ℕ) × (d : ℕ) × (ds : Text) × (marker ≡ c ∷ d ∷ ds) × (0x80 ≤ d) × (d < 0xc0))

HasNoFirst-normalise :
    (marker : Text) → is_unsplittable (normalise marker) ≡ true → HasNoFirst marker
HasNoFirst-normalise marker h =
    let (n, split) = normalise-append marker in by_stem (normalise marker) n split h
  where
    by_stem :
        (stem : Text) (n : ℕ)
        → marker ≡ stem ++ replicate n b'r'
        → is_unsplittable stem ≡ true
        → HasNoFirst marker
    by_stem [] n split h = inl (n, split)
    by_stem (c ∷ []) n split h = absurd (ground (arith, h))
    by_stem (c ∷ d ∷ ds) n split h =
        inr (c, d, ds ++ replicate n b'r', split, ground (arith, h), ground (arith, h))

normalise-HasNoFirst :
    (marker : Text) → HasNoFirst marker → is_unsplittable (normalise marker) ≡ true
normalise-HasNoFirst marker (inl (n, all)) = rw (all, normalise-replicate n) refl
normalise-HasNoFirst marker (inr (c, d, ds, whole, high, low)) =
    let (more, left) = normalise-second c d ds high in rw (whole, left) (ground (arith, high, low))

-- dora_from panics exactly on a marker that is nothing but letters r, as the empty one is, or whose
-- first character takes several bytes.
pub dora_from-panic_iff : (marker : Text) → (dora_from marker ≡ panic) ↔ HasNoFirst marker
unfolding dora_from
dora_from-panic_iff marker = elim (Option-cases (honor_after marker)) [
  | inl other ↦ ground (
    arith,
    other,
    suited_after-panic_iff (normalise marker),
    HasNoFirst-normalise marker,
    normalise-HasNoFirst marker,
  )
  | inr (tile, honor) ↦
      ground (arith, honor, honor_after-normalise marker tile honor, normalise-HasNoFirst marker)
]

normalise-tile :
    (c suit n : ℕ) → suit ≢ b'r' → normalise (c ∷ suit ∷ replicate n b'r') ≡ c ∷ suit ∷ []
unfolding normalise
normalise-tile c suit n plain = ground (arith, normalise-replicate n, plain)

-- The tile behind a number from 1 to 8 of a suit, a red one's as well, has the next number of the
-- suit, and the one behind a 9 is the 1. Behind the winds E S W N come S W N E, and behind the
-- dragons P F C come F C P.
pub dora_from-next :
    (c suit n : ℕ)
    → b'1' ≤ c
    → c ≤ b'9'
    → suit < 0x80
    → suit ≢ b'r'
    → (c ≢ b'9' → dora_from (c ∷ suit ∷ replicate n b'r') ≡ value (some (suc c ∷ suit ∷ [])))
      × (c ≡ b'9' → dora_from (c ∷ suit ∷ replicate n b'r') ≡ value (some (b'1' ∷ suit ∷ [])))
      × (map dora_from
            (codes "E" ∷ codes "S" ∷ codes "W" ∷ codes "N" ∷ codes "P" ∷ codes "F" ∷ codes "C" ∷ [])
          ≡ map
              (λ tile. value (some tile))
              (codes "S"
                ∷ codes "W"
                ∷ codes "N"
                ∷ codes "E"
                ∷ codes "F"
                ∷ codes "C"
                ∷ codes "P"
                ∷ []))
unfolding dora_from honor_after text_eq suited_after number_after
dora_from-next c suit n low high ascii plain = (
  λ inner. ground (arith, normalise-tile c suit n plain, low, high, ascii, inner),
  λ last. ground (arith, normalise-tile c suit n plain, low, high, ascii, last),
  refl,
)
