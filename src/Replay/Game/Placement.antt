-- ===== src/Replay/Game/Placement.antt =====
-- The placements that `replay` of src/replay.rs answers: how many seats stand ahead of each.
use majsoulmanager.Prelude.{
  ℕ, zero, suc, ◌+◌, ◌%◌, ◌^◌, ◌≤◌, ◌<◌, ◌≡◌, refl, ap, ◌∙◌, Bool, true, false, not, ◌&&◌, ◌||◌,
  List, [], ◌∷◌, arith, ltb, ◌==◌, ==_iff, if◌then◌else◌, Bool-cases, inl, inr, All, length,
}
use majsoulmanager.Prelude.Int.{ℤ, pos, negsuc, pos_part, neg_part, ltb_ℤ, wrapping_sub, ◌-ℤ◌}
use majsoulmanager.Replay.Stats.{SeatStats, modify}
use majsoulmanager.Replay.Game.{ordinal, seat_key, score_of, indices, set_placement, place}
use majsoulmanager.Replay.Game.Ranks.{less, has, position, HasDistinct}

unfoldable pub placement_of : List SeatStats → ℕ → ℕ
placement_of [] seat = 0
placement_of (s ∷ players) zero = s.placement
placement_of (s ∷ players) (suc seat) = placement_of players seat

-- A seat stands ahead of another by a higher score, or by the same from a lower seat.
unfoldable pub is_ahead : List SeatStats → ℕ → ℕ → Bool
unfolding score_of
is_ahead players s t =
    ltb_ℤ (score_of players s) (score_of players t)
    || (not (ltb_ℤ (score_of players t) (score_of players s)) && ltb t s)

unfoldable pub ahead_in : List SeatStats → ℕ → List ℕ → ℕ
unfolding is_ahead
ahead_in players s [] = 0
ahead_in players s (t ∷ ts) =
    if is_ahead players s t then ahead_in players s ts + 1 else ahead_in players s ts

-- How many seats stand ahead of a seat.
unfoldable pub ahead : List SeatStats → ℕ → ℕ
unfolding ahead_in indices
ahead players s = ahead_in players s (indices 0 (length players))

-- A score that has a negative: an `i32` that is not the least.
abbrev pub IsPlain : ℤ → Type 0
IsPlain a = (pos_part a < 2 ^ 31) × (neg_part a < 2 ^ 31)

ordinal_neg :
    (a : ℤ) → IsPlain a → ordinal (wrapping_sub (pos 0) a) + pos_part a ≡ 2 ^ 31 + neg_part a
unfolding wrapping_sub ◌-ℤ◌
ordinal_neg (pos zero) h = ground arith
ordinal_neg (pos (suc n)) h = ground arith
ordinal_neg (negsuc n) h = ground arith

-- The order of the keys is that of the seats.
pub seat_key-lt :
    (a b : ℤ) (t s : ℕ)
    → IsPlain a
    → IsPlain b
    → t < 2 ^ 64
    → s < 2 ^ 64
    → ltb (seat_key a t) (seat_key b s) ≡ (ltb_ℤ b a || (not (ltb_ℤ a b) && ltb t s))
unfolding seat_key
seat_key-lt a b t s ha hb ht hs = ground (arith, ordinal_neg a ha, ordinal_neg b hb)

seat_key_inj : (a b : ℤ) (t s : ℕ) → t < 2 ^ 64 → s < 2 ^ 64 → seat_key a t ≡ seat_key b s → t ≡ s
unfolding seat_key
seat_key_inj a b t s ht hs e = omega arith

placement_of-modify :
    (t : ℕ) (rank : ℕ) (players : List SeatStats) (s : ℕ)
    → s < length players
    → placement_of (modify t (set_placement rank) players) s
      ≡ (if t == s then (rank % 2 ^ 8 + 1) % 2 ^ 8 else placement_of players s)
unfolding placement_of modify
placement_of-modify t rank [] s h = absurd (omega arith)
placement_of-modify zero rank (p ∷ players) zero h = refl
placement_of-modify zero rank (p ∷ players) (suc s) h = ground arith
placement_of-modify (suc t) rank (p ∷ players) zero h = ground arith
placement_of-modify (suc t) rank (p ∷ players) (suc s) h =
    ground (arith, placement_of-modify t rank players s)

length-modify :
    (t rank : ℕ) (players : List SeatStats)
    → length (modify t (set_placement rank) players) ≡ length players
unfolding modify
length-modify t rank [] = refl
length-modify zero rank (p ∷ players) = refl
length-modify (suc t) rank (p ∷ players) = ap suc (length-modify t rank players)

score_of-modify :
    (t rank : ℕ) (players : List SeatStats) (s : ℕ)
    → score_of (modify t (set_placement rank) players) s ≡ score_of players s
unfolding score_of modify
score_of-modify t rank [] s = refl
score_of-modify zero rank (p ∷ players) zero = refl
score_of-modify zero rank (p ∷ players) (suc s) = refl
score_of-modify (suc t) rank (p ∷ players) zero = refl
score_of-modify (suc t) rank (p ∷ players) (suc s) = score_of-modify t rank players s

pub score_of-place :
    (rank : ℕ) (order : List ℕ) (players : List SeatStats) (s : ℕ)
    → score_of (place rank order players) s ≡ score_of players s
unfolding place
score_of-place rank [] players s = refl
score_of-place rank (t ∷ order) players s =
    score_of-place (rank + 1) order (modify t (set_placement rank) players) s
    ∙ score_of-modify t rank players s

pub length-place :
    (rank : ℕ) (order : List ℕ) (players : List SeatStats)
    → length (place rank order players) ≡ length players
unfolding place
length-place rank [] players = refl
length-place rank (t ∷ order) players =
    length-place (rank + 1) order (modify t (set_placement rank) players)
    ∙ length-modify t rank players

-- Whether the seats of a list differ from `s` where their keys do.
abbrev pub Separates : (ℕ → ℕ) → ℕ → List ℕ → Type 0
Separates key s = All (λ t. key t ≡ key s → t ≡ s)

-- The placement of a seat is its index in the order, and one more.
pub placement_of-place :
    (key : ℕ → ℕ) (rank : ℕ) (order : List ℕ) (players : List SeatStats) (s : ℕ)
    → s < length players
    → HasDistinct key order
    → Separates key s order
    → placement_of (place rank order players) s ≡ (
        if has key (key s) order
        then ((rank + position key (key s) order) % 2 ^ 8 + 1) % 2 ^ 8
        else placement_of players s)
unfolding place has position
placement_of-place key rank [] players s h d inj = refl
placement_of-place key rank (t ∷ order) players s h (new, d) (same, inj) =
    let players' = modify t (set_placement rank) players in
    let ih = placement_of-place key (rank + 1) order players' s (rw length-modify h) d inj in
    let here = placement_of-modify t rank players s h in
    elim (Bool-cases (key t == key s)) [
      | inl e ↦
          let k = (==_iff (key t) (key s)).0 e in
          ground (arith, e, ih, here, new, ap (λ u. has key u order) k, same k)
      | inr ne ↦ ground (arith, ne, ih, here, λ (q : t ≡ s). ap key q)
    ]

has-indices_below :
    (key : ℕ → ℕ) (s from n : ℕ)
    → Separates key s (indices from n)
    → s < from
    → has key (key s) (indices from n) ≡ false
unfolding has indices
has-indices_below key s from zero inj h = refl
has-indices_below key s from (suc n) (same, inj) h = elim (Bool-cases (key from == key s)) [
  | inl e ↦ absurd (omega (arith, same ((==_iff (key from) (key s)).0 e)))
  | inr ne ↦ ground (arith, ne, has-indices_below key s (from + 1) n inj (omega arith))
]

pub has-indices :
    (key : ℕ → ℕ) (s from n : ℕ) → from ≤ s → s < from + n → has key (key s) (indices from n) ≡ true
unfolding has indices
has-indices key s from zero h l = absurd (omega arith)
has-indices key s from (suc n) h l = elim (Bool-cases (from == s)) [
  | inl e ↦ ground (arith, ap key ((==_iff from s).0 e))
  | inr ne ↦ ground (arith, has-indices key s (from + 1) n (ground (arith, ne)) (omega arith))
]

pub less-le :
    (key : ℕ → ℕ) (k : ℕ) (xs : List ℕ)
    → less key k xs + (if has key k xs then 1 else 0) ≤ length xs
unfolding less has
less-le key k [] = omega arith
less-le key k (x ∷ xs) = ground (arith, less-le key k xs)

pub length-indices : (from n : ℕ) → length (indices from n) ≡ n
unfolding indices
length-indices from zero = refl
length-indices from (suc n) = omega (arith, length-indices (from + 1) n)

-- The keys of the seats of a game.
abbrev pub key_in : List SeatStats → ℕ → ℕ
key_in players seat = seat_key (score_of players seat) seat

pub indices-Separates :
    (players : List SeatStats) (s from n : ℕ)
    → s < 2 ^ 64
    → from + n ≤ 2 ^ 64
    → Separates (key_in players) s (indices from n)
unfolding indices
indices-Separates players s from zero h l = tt
indices-Separates players s from (suc n) h l = (
  seat_key_inj (score_of players from) (score_of players s) from s (omega arith) h,
  indices-Separates players s (from + 1) n h (omega arith),
)

pub indices-HasDistinct :
    (players : List SeatStats) (from n : ℕ)
    → from + n ≤ 2 ^ 64
    → HasDistinct (key_in players) (indices from n)
unfolding indices
indices-HasDistinct players from zero l = tt
indices-HasDistinct players from (suc n) l = (
  has-indices_below (key_in players) from (from + 1) n
      (indices-Separates players from (from + 1) n (omega arith) (omega arith)) (omega arith),
  indices-HasDistinct players (from + 1) n (omega arith),
)
