-- ===== src/Proto/Text.antt =====
-- `extract_string` of src/majsoul/proto.rs. A Rust `String` is the list of its UTF-8 bytes, and
-- `String::from_utf8_lossy` puts U+FFFD in the place of each maximal ill-formed part.
use majsoulmanager.Prelude.{
  ℕ, ◌<◌, ◌≡◌, refl, ap, Bool, ◌&&◌, ◌||◌, List, [], ◌∷◌, arith, ltb, leb, lt→ltb, ◌==◌,
  if◌then◌else◌, All,
}

abbrev in_range : ℕ → ℕ → ℕ → Bool
in_range lo hi b = leb lo b && leb b hi

-- `byte as i8 >= -64` fails: a continuation byte.
abbrev is_tail : ℕ → Bool
is_tail b = in_range 0x80 0xbf b

-- The second byte that may follow the first of a sequence of three, or of four.
is_second_of_three : ℕ → ℕ → Bool
is_second_of_three b c =
    (b == 0xe0 && in_range 0xa0 0xbf c)
    || (in_range 0xe1 0xec b && is_tail c)
    || (b == 0xed && in_range 0x80 0x9f c)
    || (in_range 0xee 0xef b && is_tail c)

is_second_of_four : ℕ → ℕ → Bool
is_second_of_four b c =
    (b == 0xf0 && in_range 0x90 0xbf c)
    || (in_range 0xf1 0xf3 b && is_tail c)
    || (b == 0xf4 && in_range 0x80 0x8f c)

abbrev replacement : List ℕ → List ℕ
replacement text = 0xef ∷ 0xbf ∷ 0xbd ∷ text

unfoldable pub from_utf8_lossy : List ℕ → List ℕ
unfolding is_second_of_three is_second_of_four
from_utf8_lossy [] = []
from_utf8_lossy (a ∷ []) = if ltb a 0x80 then a ∷ [] else replacement []
from_utf8_lossy (a ∷ b ∷ []) =
    let after_a = from_utf8_lossy (b ∷ []) in
    if ltb a 0x80
    then a ∷ after_a
    else if in_range 0xc2 0xdf a && is_tail b
    then a ∷ b ∷ []
    else if is_second_of_three a b || is_second_of_four a b
    then replacement []
    else replacement after_a
from_utf8_lossy (a ∷ b ∷ c ∷ []) =
    let after_a = from_utf8_lossy (b ∷ c ∷ []) in
    let after_b = from_utf8_lossy (c ∷ []) in
    if ltb a 0x80
    then a ∷ after_a
    else if in_range 0xc2 0xdf a && is_tail b
    then a ∷ b ∷ after_b
    else if is_second_of_three a b
    then (if is_tail c then a ∷ b ∷ c ∷ [] else replacement after_b)
    else if is_second_of_four a b
    then (if is_tail c then replacement [] else replacement after_b)
    else replacement after_a
from_utf8_lossy (a ∷ b ∷ c ∷ d ∷ rest) =
    let after_a = from_utf8_lossy (b ∷ c ∷ d ∷ rest) in
    let after_b = from_utf8_lossy (c ∷ d ∷ rest) in
    let after_c = from_utf8_lossy (d ∷ rest) in
    let after_d = from_utf8_lossy rest in
    if ltb a 0x80
    then a ∷ after_a
    else if in_range 0xc2 0xdf a && is_tail b
    then a ∷ b ∷ after_b
    else if is_second_of_three a b
    then (if is_tail c then a ∷ b ∷ c ∷ after_c else replacement after_b)
    else if is_second_of_four a b
    then (if is_tail c
        then (if is_tail d then a ∷ b ∷ c ∷ d ∷ after_d else replacement after_c)
        else replacement after_b)
    else replacement after_a

-- A text that is well formed: nothing in it is replaced.
abbrev pub IsText : List ℕ → Type 0
IsText bs = from_utf8_lossy bs ≡ bs

unfoldable pub extract_string : List ℕ → List ℕ
extract_string bytes = from_utf8_lossy bytes

-- "牌", a byte that is no start, and a sequence cut short.
lossy_mixed :
    from_utf8_lossy (0xe7 ∷ 0x89 ∷ 0x8c ∷ 0xff ∷ 0x41 ∷ 0xe7 ∷ 0x89 ∷ [])
    ≡ 0xe7 ∷ 0x89 ∷ 0x8c ∷ 0xef ∷ 0xbf ∷ 0xbd ∷ 0x41 ∷ 0xef ∷ 0xbf ∷ 0xbd ∷ []
unfolding from_utf8_lossy
lossy_mixed = refl

-- ASCII is kept.
pub from_utf8_lossy_ascii : (bs : List ℕ) → All (λ b. b < 128) bs → from_utf8_lossy bs ≡ bs
unfolding from_utf8_lossy
from_utf8_lossy_ascii [] h = refl
from_utf8_lossy_ascii (a ∷ []) (ha, hs) = ground arith
from_utf8_lossy_ascii (a ∷ b ∷ []) (ha, hs) = ground (arith, from_utf8_lossy_ascii (b ∷ []) hs)
from_utf8_lossy_ascii (a ∷ b ∷ c ∷ []) (ha, hs) =
    ground (arith, from_utf8_lossy_ascii (b ∷ c ∷ []) hs)
from_utf8_lossy_ascii (a ∷ b ∷ c ∷ d ∷ rest) (ha, hs) =
    rw (lt→ltb a 0x80 ha) (ap (λ t. a ∷ t) (from_utf8_lossy_ascii (b ∷ c ∷ d ∷ rest) hs))
