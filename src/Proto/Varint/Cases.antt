-- ===== src/Proto/Varint/Cases.antt =====
-- The outcomes of `decode_varint` on any bytes.
use majsoulmanager.Prelude.{
  ℕ, ◌+◌, ◌*◌, ◌%◌, ◌^◌, ◌≤◌, bit_or, ◌≡◌, ◌≢◌, refl, ◌⊎◌, inl, inr, List, [], ◌∷◌, arith, length,
  length-append, ap, ◌∙◌,
}
use majsoulmanager.Proto.Errors.{DecodeError, Result, ok, err, panic, stuck}
use majsoulmanager.Proto.Varint.{IsU64, varint_loop, decode_varint}
use majsoulmanager.Proto.Varint.Encoding.{Encodes, last, more, decode_varint_iff}

pub length-Encodes : {bs : List ℕ} {v : ℕ} → Encodes bs v → 1 ≤ length bs
length-Encodes (last b h) = omega arith
length-Encodes (more b h e) = omega arith

-- A varint takes a byte at least, and no more than there are.
pub decode_varint_takes :
    (buf : List ℕ) (v n : ℕ) → decode_varint buf ≡ ok (v, n) → (1 ≤ n) × (n ≤ length buf)
decode_varint_takes buf v n h =
    let (front, rest, split, enc, len, _, _) = (decode_varint_iff buf v n).0 h in
    let whole : length buf ≡ length front + length rest =
      ap length split ∙ length-append front rest in
    (omega (arith, length-Encodes enc), omega arith)

pub decode_varint-IsU64 : (buf : List ℕ) (v n : ℕ) → decode_varint buf ≡ ok (v, n) → IsU64 v
decode_varint-IsU64 buf v n h =
    let (front, rest, split, enc, len, lim, u) = (decode_varint_iff buf v n).0 h in u

varint_loop-ne-panic :
    (buf : List ℕ) (value shift pos : ℕ) → varint_loop buf value shift pos ≢ panic
unfolding varint_loop
varint_loop-ne-panic [] value shift pos = λ h. cc
varint_loop-ne-panic (b ∷ bs) value shift pos = λ h. ground (
  arith,
  varint_loop-ne-panic bs (bit_or value (b % 128 * 2 ^ shift % 2 ^ 64)) (shift + 7) (pos + 1),
)

varint_loop-ne-stuck :
    (buf : List ℕ) (value shift pos : ℕ) → varint_loop buf value shift pos ≢ stuck
unfolding varint_loop
varint_loop-ne-stuck [] value shift pos = λ h. cc
varint_loop-ne-stuck (b ∷ bs) value shift pos = λ h. ground (
  arith,
  varint_loop-ne-stuck bs (bit_or value (b % 128 * 2 ^ shift % 2 ^ 64)) (shift + 7) (pos + 1),
)

Result-cases :
    {A : Type 0} (r : Result A)
    → r ≢ panic
    → r ≢ stuck
    → ((a : A) × (r ≡ ok a)) ⊎ ((e : DecodeError) × (r ≡ err e))
Result-cases (ok a) p s = inl (a, refl)
Result-cases (err e) p s = inr (e, refl)
Result-cases panic p s = absurd (p refl)
Result-cases stuck p s = absurd (s refl)

-- It neither panics nor runs out of fuel.
pub decode_varint_cases :
    (buf : List ℕ)
    → ((p : ℕ × ℕ) × (decode_varint buf ≡ ok p)) ⊎ ((e : DecodeError) × (decode_varint buf ≡ err e))
unfolding decode_varint
decode_varint_cases buf =
    Result-cases _ (varint_loop-ne-panic buf 0 0 0) (varint_loop-ne-stuck buf 0 0 0)
