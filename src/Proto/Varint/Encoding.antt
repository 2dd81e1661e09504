-- ===== src/Proto/Varint/Encoding.antt =====
-- The varint format as a relation between bytes and values, and `decode_varint` against it.
use majsoulmanager.Prelude.{
  ℕ, ◌+◌, ◌-◌, ◌*◌, ◌/◌, ◌%◌, ◌^◌, ◌≤◌, ◌<◌, ◌≡◌, ◌≢◌, refl, subst, ◌↔◌, ap, List, [], ◌∷◌, ◌++◌,
  arith, length, ◌==◌, if◌then◌else◌, Bool-cases, inl, inr,
}
use majsoulmanager.Prelude.Bits.{bit_or_disjoint, pow_add}
use native.Mathlib.Nat.{mul-le-mul_right, one-le-pow, le-div_iff_mul-le}
use native.Mathlib.Decide.{dec_lt}
use majsoulmanager.Proto.Errors.{ok}
use majsoulmanager.Proto.Varint.{IsU64, u64_max, varint_loop, decode_varint}

-- Seven bits a byte, lowest group first; the top bit is set on every byte but the last.
pub data Encodes : List ℕ → ℕ → Type 0 where
  last : (b : ℕ) → b / 128 % 2 ≡ 0 → Encodes (b ∷ []) (b % 128)
  more :
      (b : ℕ) {bs : List ℕ} {v : ℕ}
      → b / 128 % 2 ≢ 0
      → Encodes bs v
      → Encodes (b ∷ bs) (b % 128 + v * 128)

-- The overflow test in plain terms: the group and all below it stay under bit 64.
fits : (s part : ℕ) → s < 64 → part ≤ u64_max / 2 ^ s → part * 2 ^ s + 2 ^ s ≤ 2 ^ 64
fits s part h le =
    let small : part * 2 ^ s ≤ u64_max = (le-div_iff_mul-le (one-le-pow s 2 (omega arith))).0 le in
    let whole : 2 ^ (s + (64 - s)) ≡ 2 ^ s * 2 ^ (64 - s) = pow_add 2 s (64 - s) in
    let sum : s + (64 - s) ≡ 64 = omega arith in
    let product : 2 ^ 64 ≡ 2 ^ s * 2 ^ (64 - s) = rw sum at whole in
    ceil part (2 ^ s) (2 ^ (64 - s)) small product
  where
    ceil : (a p c : ℕ) → a * p ≤ u64_max → 2 ^ 64 ≡ p * c → a * p + p ≤ 2 ^ 64
    ceil a p c le e =
        let below : a < c = elim (dec_lt a c) [
          | yes lt ↦ lt
          | no ge ↦ absurd (omega (arith, mul-le-mul_right p (let g : c ≤ a = omega arith in g)))
        ] in
        omega (arith, mul-le-mul_right p below)

fits_back : (s part : ℕ) → part * 2 ^ s < 2 ^ 64 → part ≤ u64_max / 2 ^ s
fits_back s part lt = (le-div_iff_mul-le (one-le-pow s 2 (omega arith))).1 (omega arith)

-- One round whose group fits.
round :
    (b : ℕ) (bs : List ℕ) (value shift pos : ℕ)
    → shift < 64
    → value < 2 ^ shift
    → b % 128 * 2 ^ shift + 2 ^ shift ≤ 2 ^ 64
    → varint_loop (b ∷ bs) value shift pos ≡ (
        if b / 128 % 2 == 0
        then ok (value + b % 128 * 2 ^ shift, pos + 1)
        else varint_loop bs (value + b % 128 * 2 ^ shift) (shift + 7) (pos + 1))
unfolding varint_loop
round b bs value shift pos low below room =
    let part : b % 128 * 2 ^ shift % 2 ^ 64 ≡ b % 128 * 2 ^ shift = omega arith in
    rw (part, bit_or_disjoint shift (b % 128) value below)
      (ground (arith, fits_back shift (b % 128) (omega arith)))

-- A round that does not fail has a group that fits.
round_room :
    (b : ℕ) (bs : List ℕ) (value shift pos : ℕ) {r : ℕ × ℕ}
    → varint_loop (b ∷ bs) value shift pos ≡ ok r
    → (shift < 64) × (b % 128 * 2 ^ shift + 2 ^ shift ≤ 2 ^ 64)
unfolding varint_loop
round_room b bs value shift pos h =
    let low : shift < 64 = ground arith in (low, fits shift (b % 128) low (ground arith))

shift_seven : (s : ℕ) → 2 ^ (s + 7) ≡ 2 ^ s * 128
shift_seven s = pow_add 2 s 7

-- The value read so far stays below the next shift.
grown : (b value shift : ℕ) → value < 2 ^ shift → value + b % 128 * 2 ^ shift < 2 ^ (shift + 7)
grown b value shift below =
    let group : b % 128 ≤ 127 = omega arith in
    omega (arith, shift_seven shift, mul-le-mul_right (2 ^ shift) group)

loop_sound :
    (src : List ℕ) (value shift pos v n : ℕ)
    → value < 2 ^ shift
    → varint_loop src value shift pos ≡ ok (v, n)
    → (front rest : List ℕ) × (w : ℕ) × (src ≡ front ++ rest)
      × Encodes front w
      × (v ≡ value + w * 2 ^ shift)
      × (n ≡ pos + length front)
      × IsU64 v
      × (shift + 7 * length front ≤ 70)
loop_sound [] value shift pos v n below h = unfold varint_loop in cc
loop_sound (b ∷ bs) value shift pos v n below h =
    let (low, room) = round_room b bs value shift pos h in
    let e = round b bs value shift pos low below room in
    elim (Bool-cases (b / 128 % 2 == 0)) [
      | inl stop ↦
          let h' : ok (value + b % 128 * 2 ^ shift, pos + 1) ≡ ok (v, n) = rw stop at (rw e at h) in
          let val : value + b % 128 * 2 ^ shift ≡ v = ground arith in
          let taken : pos + 1 ≡ n = ground arith in
          (
            b ∷ [],
            bs,
            b % 128,
            refl,
            last b (ground arith),
            omega arith,
            omega arith,
            omega arith,
            omega arith,
          )
      | inr go ↦
          let h' : varint_loop bs (value + b % 128 * 2 ^ shift) (shift + 7) (pos + 1) ≡ ok (v, n) =
            rw go at (rw e at h) in
          let (front, rest, w, split, enc, val, taken, u, lim) =
            loop_sound bs (value + b % 128 * 2 ^ shift) (shift + 7) (pos + 1) v n
              (grown b value shift below) h' in
          (
            b ∷ front,
            rest,
            b % 128 + w * 128,
            ap (λ t. b ∷ t) split,
            more b (ground arith) enc,
            omega (arith, val, ap (λ (t : ℕ). w * t) (shift_seven shift)),
            omega arith,
            u,
            omega arith,
          )
    ]

loop_complete :
    (front rest : List ℕ) (w value shift pos : ℕ)
    → Encodes front w
    → value < 2 ^ shift
    → value + w * 2 ^ shift < 2 ^ 64
    → shift + 7 * length front ≤ 70
    → varint_loop (front ++ rest) value shift pos ≡ ok (value + w * 2 ^ shift, pos + length front)
loop_complete front rest w value shift pos (last b stop) below fit room =
    let fit' : b % 128 * 2 ^ shift + 2 ^ shift ≤ 2 ^ 64 =
      fits shift (b % 128) (omega arith) (fits_back shift (b % 128) (omega arith)) in
    rw (round b rest value shift pos (omega arith) below fit') (ground arith)
loop_complete front rest w value shift pos (more b {bs = bs} {v = v} go enc) below fit room =
    let split : v * 2 ^ (shift + 7) ≡ v * 128 * 2 ^ shift =
      omega (arith, ap (λ (t : ℕ). v * t) (shift_seven shift)) in
    let fit' : b % 128 * 2 ^ shift + 2 ^ shift ≤ 2 ^ 64 =
      fits shift (b % 128) (omega arith) (fits_back shift (b % 128) (omega arith)) in
    rw (round b (bs ++ rest) value shift pos (omega arith) below fit') (
      ground (
        arith,
        shift_seven shift,
        loop_complete bs rest v (value + b % 128 * 2 ^ shift) (shift + 7) (pos + 1) enc
            (grown b value shift below) (omega arith) (omega arith),
        split,
      ))

-- `decode_varint` accepts a buffer exactly when it begins with an encoding of at most ten bytes of
-- a number below 2 ^ 64, and then answers that number and the length of the encoding.
pub decode_varint_iff :
    (buf : List ℕ) (v n : ℕ)
    → (decode_varint buf ≡ ok (v, n)) ↔ (
        (front rest : List ℕ) × (buf ≡ front ++ rest)
        × Encodes front v
        × (length front ≡ n)
        × (n ≤ 10)
        × IsU64 v)
unfolding decode_varint
decode_varint_iff buf v n = (there, back)
  where
    there :
        varint_loop buf 0 0 0 ≡ ok (v, n)
        → (front rest : List ℕ) × (buf ≡ front ++ rest)
          × Encodes front v
          × (length front ≡ n)
          × (n ≤ 10)
          × IsU64 v
    there h =
        let (front, rest, w, split, enc, val, taken, u, lim) =
          loop_sound buf 0 0 0 v n (omega arith) h in
        let same : w ≡ v = omega arith in
        (front, rest, split, subst (Encodes front) same enc, omega arith, omega arith, u)

    back :
        (front rest : List ℕ) × (buf ≡ front ++ rest)
          × Encodes front v
          × (length front ≡ n)
          × (n ≤ 10)
          × IsU64 v
        → varint_loop buf 0 0 0 ≡ ok (v, n)
    back (front, rest, split, enc, len, lim, u) =
        rw (split, loop_complete front rest v 0 0 0 enc (omega arith) (omega arith) (omega arith))
          (ground arith)
