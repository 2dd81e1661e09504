-- ===== src/Proto/Fields/Packed.antt =====
-- `decode_packed_varints`: it ends on every input, and reads back what was written.
use majsoulmanager.Prelude.{
  ℕ, zero, suc, ◌≤◌, ◌≡◌, ◌≢◌, refl, ap, ◌∙◌, List, [], ◌∷◌, ◌++◌, arith, length, length-append,
  length-drop, All, drop, drop-length-append, inl, inr, map,
}
use mathlib.Core.List.{append_assoc, append-nil}
use majsoulmanager.Prelude.Int.{ℤ, as_i32}
use majsoulmanager.Proto.Errors.{ok, stuck}
use majsoulmanager.Proto.Varint.{IsU64, decode_varint}
use majsoulmanager.Proto.Varint.Cases.{decode_varint_takes, decode_varint_cases}
use majsoulmanager.Proto.Fields.{packed_loop, decode_packed_varints}
use majsoulmanager.Proto.Fields.Wire.{write_varint, some_byte, decode_varint-write_varint}

unfoldable pub write_packed : List ℕ → List ℕ
write_packed [] = []
write_packed (v ∷ vs) = write_varint v ++ write_packed vs

packed_loop-ne-stuck :
    (fuel : ℕ) (result : List ℤ) (bs : List ℕ)
    → length bs ≤ fuel
    → packed_loop fuel result bs ≢ stuck
unfolding packed_loop
packed_loop-ne-stuck fuel result [] h = λ e. cc
packed_loop-ne-stuck zero result (b ∷ bs) h = absurd (omega arith)
packed_loop-ne-stuck (suc fuel) result (b ∷ bs) h = elim (decode_varint_cases (b ∷ bs)) [
  | inl ((v, n), e) ↦ rw e (
      packed_loop-ne-stuck fuel (result ++ as_i32 v ∷ []) (drop n (b ∷ bs))
        (omega (arith, decode_varint_takes (b ∷ bs) v n e, length-drop n (b ∷ bs))))
  | inr (x, e) ↦ rw e (λ p. cc)
]

-- One round of the loop.
packed_round :
    (fuel : ℕ) (result : List ℤ) (bs : List ℕ) (v n : ℕ)
    → decode_varint bs ≡ ok (v, n)
    → packed_loop (suc fuel) result bs ≡ packed_loop fuel (result ++ as_i32 v ∷ []) (drop n bs)
unfolding packed_loop
packed_round fuel result [] v n e = absurd (omega (arith, decode_varint_takes [] v n e))
packed_round fuel result (b ∷ bs) v n e = rw e

packed_loop-write_packed :
    (vs : List ℕ) (fuel : ℕ) (result : List ℤ)
    → All IsU64 vs
    → length (write_packed vs) ≤ fuel
    → packed_loop fuel result (write_packed vs) ≡ ok (result ++ map as_i32 vs)
unfolding write_packed
packed_loop-write_packed [] fuel result h enough = rw append-nil (unfold packed_loop in refl)
packed_loop-write_packed (v ∷ vs) zero result h enough =
    absurd (omega (arith, length-append (write_varint v) (write_packed vs), some_byte v))
packed_loop-write_packed (v ∷ vs) (suc fuel) result (u, us) enough =
    packed_round fuel result (write_packed (v ∷ vs)) v _
      (decode_varint-write_varint v (write_packed vs) u)
    ∙ (rw (drop-length-append (write_varint v) (write_packed vs) _ refl) (
          packed_loop-write_packed vs fuel (result ++ as_i32 v ∷ []) us
            (omega (arith, length-append (write_varint v) (write_packed vs), some_byte v)))
        ∙ ap ok (append_assoc result (as_i32 v ∷ []) (map as_i32 vs)))

-- On any bytes the decoder ends, and on encoded numbers it answers their low 32 bits, in order.
pub decode_packed_varints_lem :
    ((bs : List ℕ) → decode_packed_varints bs ≢ stuck)
    × ((vs : List ℕ) → All IsU64 vs → decode_packed_varints (write_packed vs) ≡ ok (map as_i32 vs))
unfolding decode_packed_varints
decode_packed_varints_lem = (
  λ bs. packed_loop-ne-stuck (length bs) [] bs (omega arith),
  λ vs h. packed_loop-write_packed vs _ [] h (omega arith),
)
