-- ===== src/Proto/Fields.antt =====
-- `FieldIterator` of src/majsoul/proto.rs, the `for` loops over it, and `extract_varint` and
-- `decode_packed_varints`. Arithmetic on `usize` wraps at 2 ^ 64, as in a release build.
pub mod Progress
pub mod Wire
pub mod Messages
pub mod Packed
use majsoulmanager.Prelude.{
  ℕ, zero, suc, ◌+◌, ◌/◌, ◌%◌, ◌^◌, ◌-◌, List, [], ◌∷◌, ◌++◌, Option, none, some, ltb, leb, ◌==◌,
  if◌then◌else◌, length, take, drop,
}
use majsoulmanager.Prelude.Int.{ℤ, as_i32}
use majsoulmanager.Proto.Errors.{
  Result, ok, err, panic, stuck, unexpected_end, fixed64_overflow, length_overflow,
  fixed32_overflow, unknown_wire_type, ◌>>=◌,
}
use majsoulmanager.Proto.Varint.{decode_varint}

pub record Field : Type 0 where
  pub number : ℕ
  pub wire_type : ℕ
  pub payload : List ℕ

pub record FieldIterator : Type 0 where
  pub buf : List ℕ
  pub pos : ℕ

abbrev pub new : List ℕ → FieldIterator
new buf = record { buf = buf; pos = 0 }

-- `&buf[from..to]`
pub slice : List ℕ → ℕ → ℕ → Result (List ℕ)
slice buf from to =
    if ltb to from
    then panic
    else if ltb (length buf) to
    then panic
    else ok (take (to - from) (drop from buf))

-- The `match wire_type` of `next`: the data and the new position.
pub read_payload : List ℕ → ℕ → ℕ → Result (List ℕ × ℕ)
unfolding slice
read_payload buf pos wire_type =
    if wire_type == 0
    then (do
      (v, n) ← decode_varint (drop pos buf)
      bytes ← slice buf pos (pos + n)
      ok (bytes, pos + n))
    else if wire_type == 1
    then (if ltb (length buf) (pos + 8)
        then err fixed64_overflow
        else (do bytes ← slice buf pos (pos + 8); ok (bytes, pos + 8)))
    else if wire_type == 2
    then (do
      (len, n) ← decode_varint (drop pos buf)
      let end = (pos + n + len) % 2 ^ 64
      if ltb (length buf) end
          then err length_overflow
          else (do bytes ← slice buf (pos + n) end; ok (bytes, end)))
    else if wire_type == 5
    then (if ltb (length buf) (pos + 4)
        then err fixed32_overflow
        else (do bytes ← slice buf pos (pos + 4); ok (bytes, pos + 4)))
    else err (unknown_wire_type wire_type)

-- The body of `next` once a byte is left: the field and the new position.
pub read_field : List ℕ → ℕ → Result (Field × ℕ)
unfolding read_payload
read_field buf pos = do
  (tag, n) ← decode_varint (drop pos buf)
  (bytes, pos') ← read_payload buf (pos + n) (tag % 8)
  ok (record { number = tag / 8 % 2 ^ 32; wire_type = tag % 8; payload = bytes }, pos')

-- `next`. The callers drop the iterator after an error, so its state there does not matter.
unfoldable pub next : FieldIterator → Option (Result (Field × FieldIterator))
unfolding read_field
next it =
    if leb (length it.buf) it.pos
    then none
    else some (do (field, pos) ← read_field it.buf it.pos; ok (field, record it { pos = pos }))

-- How the body of a `for` loop ends: it goes on, or it returns from the function.
pub data Flow {ℓ} (S : Type ℓ) : Type ℓ where
  continue return : S → Flow S

module _ {ℓ} {S : Type ℓ} where
  pub for_loop : (S → Field → Result (Flow S)) → ℕ → S → FieldIterator → Result S
  for_loop body zero s it = stuck
  for_loop body (suc fuel) s it = elim (next it) [
    | none ↦ ok s
    | some (ok (field, it')) ↦ elim (body s field) [
      | ok (continue s') ↦ for_loop body fuel s' it'
      | ok (return s') ↦ ok s'
      | err e ↦ err e
      | panic ↦ panic
      | stuck ↦ stuck
    ]
    | some (err e) ↦ err e
    | some panic ↦ panic
    | some stuck ↦ stuck
  ]

  -- `for field in FieldIterator::new(buf)`. Each round takes a byte at least.
  unfoldable pub for_fields : (S → Field → Result (Flow S)) → S → List ℕ → Result S
  unfolding for_loop
  for_fields body s buf = for_loop body (suc (length buf)) s (new buf)

unfoldable pub extract_varint : List ℕ → Result ℕ
extract_varint bytes = do (val, _) ← decode_varint bytes; ok val

pub packed_loop : ℕ → List ℤ → List ℕ → Result (List ℤ)
packed_loop fuel result [] = ok result
packed_loop zero result (b ∷ bs) = stuck
packed_loop (suc fuel) result (b ∷ bs) = do
  (val, n) ← decode_varint (b ∷ bs)
  packed_loop fuel (result ++ as_i32 val ∷ []) (drop n (b ∷ bs))

unfoldable pub decode_packed_varints : List ℕ → Result (List ℤ)
unfolding packed_loop
decode_packed_varints bytes = packed_loop (length bytes) [] bytes
