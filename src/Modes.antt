-- ===== src/Modes.antt =====
-- src/majsoul/modes.rs: the numbers of the ranked modes. An error is `none`.
mod Examples
use majsoulmanager.Prelude.{
  ℕ, ◌+◌, ◌-◌, ◌*◌, ◌≤◌, ◌<◌, ◌≡◌, ◌⊎◌, refl, ap, ◌∙◌, All, Bool, true, not, ◌&&◌, ◌||◌, List, [],
  ◌∷◌, ◌++◌, Option, none, some, arith, ltb, leb, ◌==◌, if◌then◌else◌, length, get_or,
}
use majsoulmanager.Prelude.Int.{ℤ, pos, negsuc}
use majsoulmanager.Prelude.Text.{Text, codes, text_eq}

abbrev gold : Text
gold = codes "gold"

abbrev jade : Text
jade = codes "jade"

abbrev throne : Text
throne = codes "throne"

abbrev east : Text
east = codes "east"

abbrev south : Text
south = codes "south"

all_lengths : List Text → Bool
all_lengths [] = true
all_lengths (mode ∷ modes) = (text_eq mode east || text_eq mode south) && all_lengths modes

rooms_of : Text → Option (List Text)
rooms_of room =
    if text_eq room (codes "all")
    then some (gold ∷ jade ∷ throne ∷ [])
    else if text_eq room gold
    then some (gold ∷ [])
    else if text_eq room jade
    then some (jade ∷ [])
    else if text_eq room throne
    then some (throne ∷ [])
    else none

-- The two numbers of a room that `rooms_of` answers, for three or four players.
east_south : ℕ → Text → ℕ × ℕ
east_south players room =
    if players == 4
    then (if text_eq room gold then (8, 9) else if text_eq room jade then (11, 12) else (15, 16))
    else (if text_eq room gold then (21, 22) else if text_eq room jade then (23, 24) else (25, 26))

push_modes : ℕ × ℕ → List Text → List ℕ
push_modes numbers [] = []
push_modes numbers (mode ∷ modes) =
    (if text_eq mode east then numbers.0 else numbers.1) ∷ push_modes numbers modes

push_rooms : ℕ → List Text → List Text → List ℕ
unfolding east_south push_modes
push_rooms players modes [] = []
push_rooms players modes (room ∷ rooms) =
    push_modes (east_south players room) modes ++ push_rooms players modes rooms

insert : ℕ → List ℕ → List ℕ
insert n [] = n ∷ []
insert n (m ∷ ms) = let rest = insert n ms in if leb n m then n ∷ m ∷ ms else m ∷ rest

-- `sort_unstable`: numbers have one sorted order.
sort : List ℕ → List ℕ
unfolding insert
sort [] = []
sort (n ∷ ns) = insert n (sort ns)

dedup : List ℕ → List ℕ
dedup [] = []
dedup (n ∷ []) = n ∷ []
dedup (n ∷ m ∷ ns) = let rest = dedup (m ∷ ns) in if n == m then rest else n ∷ rest

pub room_modes : Text → List Text → ℕ → Option (List ℕ)
unfolding all_lengths rooms_of push_rooms sort dedup
room_modes room modes players =
    if not (players == 3 || players == 4)
    then none
    else if length modes == 0 || not (all_lengths modes)
    then none
    else elim (rooms_of room) [
      | none ↦ none
      | some rooms ↦ some (dedup (sort (push_rooms players modes rooms)))
    ]

-- The room, the length and the players.
unfoldable pub mode_metadata : ℤ → Option (Text × (Text × ℕ))
mode_metadata (negsuc n) = none
mode_metadata (pos n) =
    if n == 8
    then some (gold, (east, 4))
    else if n == 9
    then some (gold, (south, 4))
    else if n == 11
    then some (jade, (east, 4))
    else if n == 12
    then some (jade, (south, 4))
    else if n == 15
    then some (throne, (east, 4))
    else if n == 16
    then some (throne, (south, 4))
    else if n == 21
    then some (gold, (east, 3))
    else if n == 22
    then some (gold, (south, 3))
    else if n == 23
    then some (jade, (east, 3))
    else if n == 24
    then some (jade, (south, 3))
    else if n == 25
    then some (throne, (east, 3))
    else if n == 26
    then some (throne, (south, 3))
    else none

-- Both lengths of the throne room for three players, and what the second of them says.
both_lengths : room_modes throne (south ∷ east ∷ south ∷ []) 3 ≡ some (25 ∷ 26 ∷ [])
unfolding room_modes text_eq
both_lengths = refl

last_mode : mode_metadata (pos 26) ≡ some (throne, (south, 3))
unfolding mode_metadata
last_mode = refl

is_boundary : Text → ℕ → Bool
is_boundary s i = leb i (length s) && not (leb 0x80 (get_or s i 0) && ltb (get_or s i 0) 0xc0)

is_digit : ℕ → Bool
is_digit b = leb b'0' b && leb b b'9'

-- `parse::<i32>` of two bytes, added to 2000.
parse_year : ℕ → ℕ → Option ℕ
unfolding is_digit
parse_year a b =
    if not (is_digit b)
    then none
    else if is_digit a
    then some (2000 + (10 * (a - b'0') + (b - b'0')))
    else if a == b'+'
    then some (2000 + (b - b'0'))
    else if a == b'-'
    then some (2000 - (b - b'0'))
    else none

-- `get(0..6)`, then `get(0..2)` of it.
unfoldable pub uuid_year : Text → Option ℕ
unfolding is_boundary parse_year
uuid_year uuid =
    if not (is_boundary uuid 6)
    then none
    else if not (is_boundary uuid 2)
    then none
    else parse_year (get_or uuid 0 0) (get_or uuid 1 0)

parse_year-digits :
    (tens units : ℕ)
    → tens ≤ 9
    → units ≤ 9
    → parse_year (b'0' + tens) (b'0' + units) ≡ some (2000 + (10 * tens + units))
unfolding parse_year is_digit
parse_year-digits tens units ten unit = ground (arith, ten, unit)

dated :
    (tens units : ℕ) (rest : Text)
    → tens ≤ 9
    → units ≤ 9
    → All (λ b. b < 128) rest
    → 4 ≤ length rest
    → uuid_year ((b'0' + tens) ∷ (b'0' + units) ∷ rest) ≡ some (2000 + (10 * tens + units))
unfolding uuid_year is_boundary
dated tens units [] ten unit ascii long = absurd (omega arith)
dated tens units (a ∷ []) ten unit ascii long = absurd (omega arith)
dated tens units (a ∷ b ∷ []) ten unit ascii long = absurd (omega arith)
dated tens units (a ∷ b ∷ c ∷ []) ten unit ascii long = absurd (omega arith)
dated tens units (a ∷ b ∷ c ∷ d ∷ []) ten unit (lo, ascii) long =
    ground (arith, lo, parse_year-digits tens units ten unit)
dated tens units (a ∷ b ∷ c ∷ d ∷ e ∷ rest) ten unit (lo, (_, (_, (_, (at, ascii))))) long =
    ground (arith, lo, at, parse_year-digits tens units ten unit)

undated :
    (tens units : ℕ) (rest : Text)
    → length rest < 4
    → uuid_year ((b'0' + tens) ∷ (b'0' + units) ∷ rest) ≡ none
unfolding uuid_year is_boundary
undated tens units rest short = ground (arith, short)

inside :
    (tens units : ℕ) (before more : Text) (c : ℕ)
    → (length before ≡ 0) ⊎ (length before ≡ 4)
    → 0x80 ≤ c
    → c < 0xc0
    → uuid_year ((b'0' + tens) ∷ (b'0' + units) ∷ (before ++ c ∷ more)) ≡ none
unfolding uuid_year is_boundary
inside tens units [] more c at low high = ground (arith, low, high)
inside tens units (a ∷ []) more c at low high = absurd (omega arith)
inside tens units (a ∷ b ∷ []) more c at low high = absurd (omega arith)
inside tens units (a ∷ b ∷ d ∷ []) more c at low high = absurd (omega arith)
inside tens units (a ∷ b ∷ d ∷ e ∷ []) more c at low high = ground (arith, low, high)
inside tens units (a ∷ b ∷ d ∷ e ∷ f ∷ rest) more c at low high = absurd (omega arith)

-- A uuid that begins with the two digits of a year, and has ASCII bytes only, names that year from
-- 2000 on where four bytes at least follow them. With fewer it names none, nor where the two digits or
-- the first six bytes end inside of a character.
pub uuid_year-digits :
    (tens units : ℕ) (rest : Text)
    → tens ≤ 9
    → units ≤ 9
    → (All (λ b. b < 128) rest
        → 4 ≤ length rest
        → uuid_year ((b'0' + tens) ∷ (b'0' + units) ∷ rest) ≡ some (2000 + (10 * tens + units)))
      × (length rest < 4 → uuid_year ((b'0' + tens) ∷ (b'0' + units) ∷ rest) ≡ none)
      × ((before more : Text) (c : ℕ)
          → rest ≡ before ++ c ∷ more
          → (length before ≡ 0) ⊎ (length before ≡ 4)
          → 0x80 ≤ c
          → c < 0xc0
          → uuid_year ((b'0' + tens) ∷ (b'0' + units) ∷ rest) ≡ none)
unfolding uuid_year
uuid_year-digits tens units rest ten unit = (
  λ ascii long. dated tens units rest ten unit ascii long,
  λ short. undated tens units rest short,
  λ before more c whole at low high.
      ap (λ t. uuid_year ((b'0' + tens) ∷ (b'0' + units) ∷ t)) whole
      ∙ inside tens units before more c at low high,
)
