-- ===== src/Replay/Dora.antt =====
-- `dora_from`, `normalise`, `ura_hit` and `ippatsu` of src/replay.rs, on the UTF-8 bytes of the tiles.
pub mod Panics
use majsoulmanager.Prelude.{
  ℕ, ◌+◌, ◌-◌, ◌%◌, ◌≡◌, ◌≢◌, ◌↔◌, ◌≤◌, ◌<◌, refl, ◌⊎◌, inl, inr, Bool, true, false, ◌&&◌, ◌||◌,
  List, [], ◌∷◌, ◌++◌, Option, none, some, arith, ltb, leb, ◌==◌, if◌then◌else◌,
}
use majsoulmanager.Prelude.Text.{Text, codes, text_eq, text_eq_iff}
use majsoulmanager.Json.{Json}
use majsoulmanager.Replay.Reading.{Outcome, panic, value, ◌>>=◌, and_then, unwrap_or, array}

-- `trim_end_matches('r')`
unfoldable pub normalise : Text → Text
normalise [] = []
normalise (c ∷ cs) =
    let rest = normalise cs in
    elim rest [ [] ↦ if c == b'r' then [] else c ∷ [] | d ∷ ds ↦ c ∷ d ∷ ds ]

-- The tile behind a wind or a dragon; `none` for another marker.
unfoldable pub honor_after : Text → Option Text
honor_after marker =
    if text_eq marker (codes "E")
    then some (codes "S")
    else if text_eq marker (codes "S")
    then some (codes "W")
    else if text_eq marker (codes "W")
    then some (codes "N")
    else if text_eq marker (codes "N")
    then some (codes "E")
    else if text_eq marker (codes "P")
    then some (codes "F")
    else if text_eq marker (codes "F")
    then some (codes "C")
    else if text_eq marker (codes "C")
    then some (codes "P")
    else none

-- `format!("{}{suit}", number % 9 + 1)` where the first byte is a digit.
unfoldable pub number_after : ℕ → Text → Option Text
number_after c suit =
    if leb b'0' c && leb c b'9' then some ((b'0' + ((c - b'0') % 9 + 1)) ∷ suit) else none

-- `split_at(1)`, which panics inside a character and on the empty text.
unfoldable pub suited_after : Text → Outcome (Option Text)
unfolding number_after
suited_after [] = panic
suited_after (c ∷ []) = value (number_after c [])
suited_after (c ∷ d ∷ ds) =
    if leb 0x80 d && ltb d 0xc0 then panic else value (number_after c (d ∷ ds))

unfoldable pub dora_from : Text → Outcome (Option Text)
unfolding honor_after suited_after normalise
dora_from marker = elim (honor_after marker) [
  | some tile ↦ value (some tile)
  | none ↦ suited_after (normalise marker)
]

unfoldable pub holds : List Text → Text → Bool
unfolding normalise
holds [] dora = false
holds (tile ∷ hand) dora = text_eq (normalise tile) dora || holds hand dora

-- The markers in order, up to the first that hits.
unfoldable pub any_hit : List Text → List Text → Outcome Bool
unfolding holds dora_from
any_hit hand [] = value false
any_hit hand (marker ∷ markers) =
    let rest = any_hit hand markers in
    elim (dora_from marker) [
      | panic ↦ panic
      | value none ↦ rest
      | value (some dora) ↦ if holds hand dora then value true else rest
    ]

module _ (j : Json) where
  open j use {Value, get, as_str, as_u64, as_array}

  -- `filter_map(Value::as_str)`
  unfoldable pub texts : List Value → List Text
  texts [] = []
  texts (v ∷ vs) = let rest = texts vs in elim (as_str v) [ none ↦ rest | some t ↦ t ∷ rest ]

  unfoldable pub ura_hit : Value → Outcome Bool
  unfolding texts any_hit array
  ura_hit hora =
      let pai : List Value = elim (get hora (codes "pai")) [ none ↦ [] | some v ↦ v ∷ [] ] in
      any_hit (texts (array j (get hora (codes "hora_tehais")) ++ pai))
        (texts (array j (get hora (codes "uradora_markers"))))

  unfoldable pub has_ippatsu : List Value → Bool
  has_ippatsu [] = false
  has_ippatsu (id ∷ ids) = (elim (as_u64 id) [ none ↦ false | some n ↦ n == 30 ]) || has_ippatsu ids

  unfoldable pub ippatsu : Value → Bool → Bool
  unfolding has_ippatsu
  ippatsu hora reconstructed = elim (and_then (get hora (codes "yaku_ids")) as_array) [
    | none ↦ reconstructed
    | some ids ↦ has_ippatsu ids
  ]
