-- ===== src/Modes/Examples.antt =====
-- The year of a uuid.
use majsoulmanager.Prelude.{ℕ, ◌≡◌, ◌≤◌, ◌<◌, ◌⊎◌, refl, ◌∷◌, ◌++◌, none, some, All, length, arith}
use majsoulmanager.Prelude.Text.{Text, codes}
use majsoulmanager.Modes.{uuid_year, uuid_year-digits}

abbrev rest : Text
rest = codes "1109-0a"

year_2023 : uuid_year (codes "231109-0a") ≡ some 2023
unfolding uuid_year
year_2023 = refl

uuid_year-digits_example :
    (All (λ b. b < 128) rest → 4 ≤ length rest → uuid_year (codes "231109-0a") ≡ some 2023)
    × (length rest < 4 → uuid_year (codes "231109-0a") ≡ none)
    × ((before more : Text) (c : ℕ)
        → rest ≡ before ++ c ∷ more
        → (length before ≡ 0) ⊎ (length before ≡ 4)
        → 0x80 ≤ c
        → c < 0xc0
        → uuid_year (codes "231109-0a") ≡ none)
uuid_year-digits_example = uuid_year-digits 2 3 rest (omega arith) (omega arith)
