-- ===== src/Mjai/Chars.antt =====
-- What src/mjai.rs uses of `str`, on UTF-8 bytes: characters, white space, lines.
use majsoulmanager.Prelude.{
  ℕ, Bool, false, ◌&&◌, ◌||◌, List, [], ◌∷◌, ◌++◌, leb, ◌==◌, if◌then◌else◌, take,
}
use mathlib.Core.List.{reverse}
use majsoulmanager.Prelude.Text.{Text}

-- A character is its bytes.
abbrev pub Char : Type 0
Char = Text

-- `0b10xxxxxx`
abbrev is_tail : Char → Bool
is_tail [] = false
is_tail (b ∷ bs) = leb 0x80 b && leb b 0xbf

-- A byte before other characters: it starts one, or the tail behind it is its own.
unfoldable pub put : ℕ → List Char → List Char
put b [] = (b ∷ []) ∷ []
put b (c ∷ cs) = if is_tail c then (b ∷ c) ∷ cs else (b ∷ []) ∷ c ∷ cs

unfoldable pub chars : Text → List Char
unfolding put
chars [] = []
chars (b ∷ text) = put b (chars text)

unfoldable pub join : List Char → Text
join [] = []
join (c ∷ cs) = c ++ join cs

-- `chars().take(n).collect()`
unfoldable pub take_chars : ℕ → Text → Text
unfolding chars join
take_chars n text = join (take n (chars text))

-- `char::is_whitespace`: U+0009 to U+000D, U+0020, U+0085, U+00A0, U+1680, U+2000 to U+200A,
-- U+2028, U+2029, U+202F, U+205F, U+3000.
is_whitespace : Char → Bool
is_whitespace (a ∷ []) = (leb 9 a && leb a 13) || a == 32
is_whitespace (a ∷ b ∷ []) = a == 0xc2 && (b == 0x85 || b == 0xa0)
is_whitespace (a ∷ b ∷ c ∷ []) =
    (a == 0xe1 && b == 0x9a && c == 0x80)
    || (a == 0xe2
        && b == 0x80
        && ((leb 0x80 c && leb c 0x8a) || c == 0xa8 || c == 0xa9 || c == 0xaf))
    || (a == 0xe2 && b == 0x81 && c == 0x9f)
    || (a == 0xe3 && b == 0x80 && c == 0x80)
is_whitespace _ = false

unfoldable pub drop_spaces : List Char → List Char
unfolding is_whitespace
drop_spaces [] = []
drop_spaces (c ∷ cs) = if is_whitespace c then drop_spaces cs else c ∷ cs

unfoldable pub trim : Text → Text
unfolding chars join drop_spaces
trim text = join (reverse (drop_spaces (reverse (drop_spaces (chars text)))))

-- A line without the '\r' before its '\n'.
strip_cr : Text → Text
strip_cr [] = []
strip_cr (c ∷ []) = if c == 13 then [] else c ∷ []
strip_cr (c ∷ d ∷ text) = c ∷ strip_cr (d ∷ text)

-- `str::lines`, behind what is read of the first one.
lines_from : Text → Text → List Text
unfolding strip_cr
lines_from [] [] = []
lines_from (c ∷ line) [] = (c ∷ line) ∷ []
lines_from line (c ∷ text) =
    let next = lines_from [] text in
    let more = lines_from (line ++ c ∷ []) text in if c == 10 then strip_cr line ∷ next else more

unfoldable pub lines : Text → List Text
unfolding lines_from
lines text = lines_from [] text

unfoldable pub starts_with : Text → ℕ → Bool
starts_with [] c = false
starts_with (b ∷ text) c = b == c
