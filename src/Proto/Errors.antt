-- ===== src/Proto/Errors.antt =====
-- What a function of src/majsoul/proto.rs, events.rs, tiles.rs and convert.rs can come to. `panic` is a Rust panic (a slice
-- whose start lies behind its end); `stuck` is no Rust value: a loop of the model ran out of fuel.
use majsoulmanager.Prelude.{ℕ}

pub data DecodeError : Type 0 where
  unexpected_end too_long fixed64_overflow length_overflow fixed32_overflow : DecodeError
  record_too_small no_records no_output : DecodeError
  invalid_tile invalid_honor invalid_suit no_opening_bracket no_closing_bracket : DecodeError
  unknown_wire_type record_error : ℕ → DecodeError

pub data Result {ℓ} (A : Type ℓ) : Type ℓ where
  panic stuck : Result A
  err : DecodeError → Result A
  ok : A → Result A

-- The operator `?`.
infixl 5 ◌>>=◌
abbrev pub ◌>>=◌ {ℓ κ} : {B : Type κ} {A : Type ℓ} → Result A → (A → Result B) → Result B
stuck >>= next = stuck
panic >>= next = panic
err e >>= next = err e
ok a >>= next = next a
