-- ===== src/Replay/Reading.antt =====
-- The readers of src/replay.rs: `kind`, `seat_of`, `array`, `int_array`, `levels`, `settlement`.
use majsoulmanager.Prelude.{
  ℕ, ◌≡◌, refl, ◌+◌, ◌-◌, ◌%◌, ◌^◌, List, [], ◌∷◌, ◌++◌, Option, none, some, ◌||◌, ltb, leb, ◌==◌,
  if◌then◌else◌, length, replicate, set, map,
}
use majsoulmanager.Prelude.Int.{ℤ, pos, wrap_i32}
use majsoulmanager.Prelude.Text.{Text, codes}
use majsoulmanager.Json.{Json}

-- What a run comes to: a value, or a Rust panic.
pub data Outcome {ℓ} (A : Type ℓ) : Type ℓ where
  panic : Outcome A
  value : A → Outcome A

infixl 5 ◌>>=◌
abbrev pub ◌>>=◌ {ℓ κ} : {B : Type κ} {A : Type ℓ} → Outcome A → (A → Outcome B) → Outcome B
panic >>= next = panic
value a >>= next = next a

-- What a run that ends in a value has come through.
pub >>=-value {ℓ κ} :
    {B : Type κ} {A : Type ℓ} (first : Outcome A) {next : A → Outcome B} {b : B}
    → (first >>= next) ≡ value b
    → (a : A) × (first ≡ value a) × (next a ≡ value b)
>>=-value panic e = cc
>>=-value (value a) e = (a, refl, e)

-- `and_then` and `unwrap_or` of an option.
abbrev pub and_then {ℓ κ} : {A : Type ℓ} {B : Type κ} → Option A → (A → Option B) → Option B
and_then none f = none
and_then (some a) f = f a

abbrev pub unwrap_or {ℓ} : {A : Type ℓ} → Option A → A → A
unwrap_or none d = d
unwrap_or (some a) d = a

-- `or`: the first option that has a value.
abbrev pub or_else {ℓ} : {A : Type ℓ} → Option A → Option A → Option A
or_else none b = b
or_else (some a) b = some a

-- `value as i32` of an `i64` read off a value, 0 where there is none.
abbrev pub i32_or_zero : Option ℤ → ℤ
i32_or_zero none = pos 0
i32_or_zero (some a) = wrap_i32 a

-- `out.resize(seat + 1, (0, 0))` where `out` is too short, and `out[seat] = entry`. The length
-- wraps at 64 bits, and the standard library panics on more elements than an allocation of
-- 2 ^ 63 bytes holds.
unfoldable pub put_result : List (ℤ × ℤ) → ℕ → ℤ × ℤ → Outcome (List (ℤ × ℤ))
put_result out seat entry =
    let wanted = (seat + 1) % 2 ^ 64 in
    if ltb seat (length out)
    then value (set out seat entry)
    else if leb (2 ^ 60) wanted || wanted == 0
    then panic
    else value (set (out ++ replicate (wanted - length out) (pos 0, pos 0)) seat entry)

module _ (j : Json) where
  open j use {Value, get, as_str, as_u64, as_i64, as_array}

  unfoldable pub kind : Value → Option Text
  kind event = and_then (get event (codes "type")) as_str

  unfoldable pub seat_of : Value → Text → ℕ → Option ℕ
  seat_of event field seats =
      and_then (and_then (get event field) as_u64)
        (λ seat. if ltb seat seats then some seat else none)

  unfoldable pub array : Option Value → List Value
  array v = unwrap_or (and_then v as_array) []

  unfoldable pub int_array : Option Value → Option (List ℤ)
  int_array v =
      and_then (and_then v as_array) (λ list. some (map (λ entry. i32_or_zero (as_i64 entry)) list))

  unfoldable pub levels : Value → List ℕ
  unfolding array
  levels start =
      map (λ level. unwrap_or (as_u64 level) 0 % 2 ^ 32)
        (array (and_then (get start (codes "majsoul")) (λ m. get m (codes "level_ids"))))

  unfoldable pub settlement_loop : List (ℤ × ℤ) → List Value → Outcome (List (ℤ × ℤ))
  unfolding put_result
  settlement_loop out [] = value out
  settlement_loop out (player ∷ players) = do
    out' ← put_result out (unwrap_or (and_then (get player (codes "seat")) as_u64) 0) (
      i32_or_zero (and_then (get player (codes "total_point")) as_i64),
      i32_or_zero (and_then (get player (codes "grading_score")) as_i64),
    )
    settlement_loop out' players

  unfoldable pub settlement : Value → Outcome (List (ℤ × ℤ))
  unfolding array settlement_loop
  settlement end_game = settlement_loop [] (array (get end_game (codes "majsoul_result")))
