-- ===== src/Proto/Varint.antt =====
-- `decode_varint` of src/majsoul/proto.rs. A byte slice is a list of numbers.
pub mod Encoding
pub mod Cases
use majsoulmanager.Prelude.{
  ℕ, ◌+◌, ◌-◌, ◌*◌, ◌/◌, ◌%◌, ◌^◌, ◌<◌, bit_or, ◌||◌, List, [], ◌∷◌, ltb, leb, ◌==◌, if◌then◌else◌,
}
use majsoulmanager.Proto.Errors.{Result, ok, err, unexpected_end, too_long}

abbrev pub IsByte : ℕ → Type 0
IsByte b = b < 256

abbrev pub IsU64 : ℕ → Type 0
IsU64 v = v < 2 ^ 64

abbrev pub u64_max : ℕ
u64_max = 2 ^ 64 - 1

-- The list is what the loop has not read: `&buf[pos..]`. `byte & 0x7f` and `byte & 0x80 == 0` are
-- written as the remainder and the quotient by 128, `u64::MAX >> shift` as a quotient.
pub varint_loop : List ℕ → ℕ → ℕ → ℕ → Result (ℕ × ℕ)
varint_loop [] value shift pos = err unexpected_end
varint_loop (byte ∷ rest) value shift pos =
    let part = byte % 128 in
    let value' = bit_or value (part * 2 ^ shift % 2 ^ 64) in
    let more = varint_loop rest value' (shift + 7) (pos + 1) in
    if leb 64 shift || ltb (u64_max / 2 ^ shift) part
    then err too_long
    else if byte / 128 % 2 == 0
    then ok (value', pos + 1)
    else more

-- The value and the number of bytes taken.
unfoldable pub decode_varint : List ℕ → Result (ℕ × ℕ)
unfolding varint_loop
decode_varint buf = varint_loop buf 0 0 0
