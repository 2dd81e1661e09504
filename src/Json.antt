-- ===== src/Json.antt =====
-- What the code uses of `serde_json::Value`, which is no code of this repository: a parameter.
-- An object that names a field twice, and a number that is no integer, are the parameter's to say.
use majsoulmanager.Prelude.{ℕ, ◌<◌, ◌^◌, ◌≡◌, Bool, List, Option, some}
use majsoulmanager.Prelude.Int.{ℤ}
use majsoulmanager.Prelude.Text.{Text}

-- `as_u64` answers a `u64`.
pub record Json : Type 1 where
  pub Value : Type 0
  pub get : Value → Text → Option Value
  pub as_str : Value → Option Text
  pub as_u64 : Value → Option ℕ
  pub as_i64 : Value → Option ℤ
  pub as_bool : Value → Option Bool
  pub as_array : Value → Option (List Value)
  pub is_object : Value → Bool
  pub to_string : Value → Text
  pub as_u64-lt : (v : Value) (n : ℕ) → as_u64 v ≡ some n → n < 2 ^ 64
