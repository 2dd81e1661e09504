-- ===== src/Events/Tiles.antt =====
-- `tile_str_to_mjai` of src/majsoul/tiles.rs, on the UTF-8 bytes of the text.
use majsoulmanager.Prelude.{
  ℕ, ◌≡◌, refl, ◌||◌, [], ◌∷◌, ◌++◌, ltb, if◌then◌else◌, length, take, drop,
}
use majsoulmanager.Prelude.Text.{Text, codes, text_eq}
use majsoulmanager.Proto.Errors.{Result, ok, err, panic, invalid_tile, invalid_honor, invalid_suit}

-- How many bytes a character takes, from its first.
abbrev char_width : ℕ → ℕ
char_width b = if ltb b 0x80 then 1 else if ltb b 0xe0 then 2 else if ltb b 0xf0 then 3 else 4

unfoldable pub honor : Text → Result Text
honor num =
    if text_eq num (codes "1")
    then ok (codes "E")
    else if text_eq num (codes "2")
    then ok (codes "S")
    else if text_eq num (codes "3")
    then ok (codes "W")
    else if text_eq num (codes "4")
    then ok (codes "N")
    else if text_eq num (codes "5")
    then ok (codes "P")
    else if text_eq num (codes "6")
    then ok (codes "F")
    else if text_eq num (codes "7")
    then ok (codes "C")
    else err invalid_honor

-- The `match suit`.
unfoldable pub tile_of : Text → Text → Result Text
unfolding honor
tile_of num suit =
    if text_eq suit (codes "m") || text_eq suit (codes "p") || text_eq suit (codes "s")
    then (if text_eq num (codes "0")
        then ok (codes "5" ++ (suit ++ codes "r"))
        else ok (num ++ suit))
    else if text_eq suit (codes "z")
    then honor num
    else err invalid_suit

-- `chars[0]` and `chars[1]`, which panics where the text is one character.
unfoldable pub tile_str_to_mjai : Text → Result Text
unfolding tile_of
tile_str_to_mjai [] = err invalid_tile
tile_str_to_mjai (b ∷ bs) =
    if ltb (length (b ∷ bs)) 2 then err invalid_tile else elim (drop (char_width b) (b ∷ bs)) [
      | [] ↦ panic
      | c ∷ cs ↦ tile_of (take (char_width b) (b ∷ bs)) (take (char_width c) (c ∷ cs))
    ]

red_five : tile_str_to_mjai (codes "0p") ≡ ok (codes "5pr")
unfolding tile_str_to_mjai text_eq
red_five = refl
