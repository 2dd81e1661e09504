-- ===== src/Prelude/Bits.antt =====
-- `bit_or` of a number below `2 ^ k` and a multiple of `2 ^ k` is their sum.
use Prim.Native.Nat.{
  ℕ, zero, suc, ◌+◌, ◌*◌, ◌/◌, ◌%◌, ◌^◌, ◌≤◌, ◌<◌, max, bit_or, digits, bit_or-bitwise,
}
use mathlib.Core.Path.{◌≡◌, refl, sym, ap, ◌∙◌}
use native.Mathlib.Nat.{add-zero, pow-zero, pow-suc}
use native.Mathlib.Omega.{arith}

-- The digit recursion that the native operation stands for.
abbrev or_digits : ℕ → ℕ → ℕ → ℕ
or_digits n a b = digits (λ y. y) max n a b

no_digits : (n b : ℕ) → or_digits n 0 b ≡ b
no_digits zero b = refl
no_digits (suc n) b = refl

-- Any fuel from the number on gives the same.
enough_digits : (b : ℕ) {a : ℕ} (k n : ℕ) → a ≤ k → a ≤ n → or_digits k a b ≡ or_digits n a b
enough_digits b {a = zero} k n low high = no_digits k b ∙ sym (no_digits n b)
enough_digits b {a = suc a} zero n low high = absurd (omega arith)
enough_digits b {a = suc a} (suc k) zero low high = absurd (omega arith)
enough_digits b {a = suc a} (suc k) (suc n) low high =
    let halves = enough_digits (b / 2) {a = suc a / 2} k n (omega arith) (omega arith) in
    omega (arith, halves)

pub zero-bit_or : (b : ℕ) → bit_or 0 b ≡ b
zero-bit_or b = bit_or-bitwise 0 b

bit_or_step : (a b : ℕ) → bit_or a b ≡ bit_or (a / 2) (b / 2) * 2 + max (a % 2) (b % 2)
bit_or_step zero b = omega (arith, zero-bit_or b, zero-bit_or (b / 2))
bit_or_step (suc a) b = omega (
  arith,
  bit_or-bitwise (suc a) b,
  bit_or-bitwise (suc a / 2) (b / 2),
  enough_digits (b / 2) {a = suc a / 2} a (suc a / 2) (omega arith) (omega arith),
)

split_shift : (k q : ℕ) → q * 2 ^ suc k ≡ q * 2 ^ k * 2
split_shift k q = omega (arith, ap (λ (t : ℕ). q * t) (pow-suc 2 k))

-- The low part does not reach the high one, so nothing is lost.
pub bit_or_disjoint : (k q r : ℕ) → r < 2 ^ k → bit_or r (q * 2 ^ k) ≡ r + q * 2 ^ k
bit_or_disjoint zero q zero h = omega (arith, zero-bit_or (q * 2 ^ zero))
bit_or_disjoint zero q (suc r) h = absurd (omega (arith, pow-zero 2))
bit_or_disjoint (suc k) q r h =
    let half : q * 2 ^ suc k / 2 ≡ q * 2 ^ k = omega (arith, split_shift k q) in
    let high : bit_or (r / 2) (q * 2 ^ suc k / 2) ≡ r / 2 + q * 2 ^ k =
      rw half (bit_or_disjoint k q (r / 2) (omega (arith, pow-suc 2 k))) in
    omega (arith, split_shift k q, bit_or_step r (q * 2 ^ suc k), high)

pub pow_add : (b n m : ℕ) → b ^ (n + m) ≡ b ^ n * b ^ m
pow_add b n zero = simp (add-zero, pow-zero) (omega arith)
pow_add b n (suc m) =
    let sum : n + suc m ≡ suc (n + m) = omega arith in
    rw sum (
      omega (
        arith,
        pow-suc b (n + m),
        pow_add b n m,
        ap (λ (t : ℕ). t * b) (pow_add b n m),
        ap (λ (t : ℕ). b ^ n * t) (pow-suc b m),
      ))
