-- ===== src/Prelude/Sort.antt =====
-- `sort_by_key` of the standard library, a stable sort by a natural key, and its laws.
use mathlib.Core.List.Perm
use mathlib.Core.List.{Perm}
use majsoulmanager.Prelude.Tests.{leb, if◌then◌else◌, Bool-cases, leb→le}
use majsoulmanager.Prelude.Lists.{All}
use Prim.Native.Nat.{ℕ, ◌≤◌}
use mathlib.Core.Path.{◌≡◌, refl}
use mathlib.Core.Logic.{inl, inr}
use mathlib.Core.List.{List, [], ◌∷◌}
use native.Mathlib.Omega.{arith}

module _ {ℓ} {A : Type ℓ} (key : A → ℕ) where
  unfoldable pub insert_by_key : A → List A → List A
  insert_by_key x [] = x ∷ []
  insert_by_key x (y ∷ ys) = if leb (key x) (key y) then x ∷ y ∷ ys else y ∷ insert_by_key x ys

  unfoldable pub sort_by_key : List A → List A
  unfolding insert_by_key
  sort_by_key [] = []
  sort_by_key (x ∷ xs) = insert_by_key x (sort_by_key xs)

  -- Each element is at most those behind it.
  abbrev pub IsSorted : List A → Type 0
  IsSorted [] = Unit
  IsSorted (x ∷ xs) = All (λ y. key x ≤ key y) xs × IsSorted xs

  All-insert_by_key :
      (P : A → Type 0) (x : A) (ys : List A) → P x → All P ys → All P (insert_by_key x ys)
  unfolding insert_by_key
  All-insert_by_key P x [] p ps = (p, tt)
  All-insert_by_key P x (y ∷ ys) p (q, qs) = elim (Bool-cases (leb (key x) (key y))) [
    | inl h ↦ rw (h, insert_by_key) (p, (q, qs))
    | inr h ↦ rw (h, insert_by_key) (q, All-insert_by_key P x ys p qs)
  ]

  All-le_trans : (a b : ℕ) (ys : List A) → a ≤ b → All (λ y. b ≤ key y) ys → All (λ y. a ≤ key y) ys
  All-le_trans a b [] h ps = tt
  All-le_trans a b (y ∷ ys) h (p, ps) = (omega arith, All-le_trans a b ys h ps)

  insert_by_key-IsSorted : (x : A) (ys : List A) → IsSorted ys → IsSorted (insert_by_key x ys)
  unfolding insert_by_key
  insert_by_key-IsSorted x [] s = (tt, tt)
  insert_by_key-IsSorted x (y ∷ ys) (le, s) = elim (Bool-cases (leb (key x) (key y))) [
    | inl h ↦
        let first = leb→le (key x) (key y) h in
        rw (h, insert_by_key) ((first, All-le_trans (key x) (key y) ys first le), (le, s))
    | inr h ↦
        rw (h, insert_by_key)
          (
            All-insert_by_key (λ z. key y ≤ key z) x ys (ground arith) le,
            insert_by_key-IsSorted x ys s,
          )
  ]

  pub sort_by_key-IsSorted : (xs : List A) → IsSorted (sort_by_key xs)
  unfolding sort_by_key
  sort_by_key-IsSorted [] = tt
  sort_by_key-IsSorted (x ∷ xs) =
      insert_by_key-IsSorted x (sort_by_key xs) (sort_by_key-IsSorted xs)

  insert_by_key-perm : (x : A) (ys : List A) → Perm (insert_by_key x ys) (x ∷ ys)
  unfolding insert_by_key
  insert_by_key-perm x [] = Perm.refl (x ∷ [])
  insert_by_key-perm x (y ∷ ys) = elim (Bool-cases (leb (key x) (key y))) [
    | inl h ↦ rw (h, insert_by_key) (Perm.refl (x ∷ y ∷ ys))
    | inr h ↦
        rw (h, insert_by_key)
          (Perm.trans (Perm.cons y (insert_by_key-perm x ys)) (Perm.swap x y ys))
  ]

  pub sort_by_key-perm : (xs : List A) → Perm (sort_by_key xs) xs
  unfolding sort_by_key
  sort_by_key-perm [] = Perm.refl []
  sort_by_key-perm (x ∷ xs) =
      Perm.trans (insert_by_key-perm x (sort_by_key xs)) (Perm.cons x (sort_by_key-perm xs))

  pub All-sort_by_key : (P : A → Type 0) (xs : List A) → All P xs → All P (sort_by_key xs)
  unfolding sort_by_key
  All-sort_by_key P [] ps = tt
  All-sort_by_key P (x ∷ xs) (p, ps) =
      All-insert_by_key P x (sort_by_key xs) p (All-sort_by_key P xs ps)

  -- A sorted list is left as it is.
  pub sort_by_key-sorted : (xs : List A) → IsSorted xs → sort_by_key xs ≡ xs
  unfolding sort_by_key
  sort_by_key-sorted [] s = refl
  sort_by_key-sorted (x ∷ xs) (le, s) = rw (sort_by_key-sorted xs s) (at_front x xs le)
    where
      at_front : (x : A) (ys : List A) → All (λ y. key x ≤ key y) ys → insert_by_key x ys ≡ x ∷ ys
      at_front x [] h = refl
      at_front x (y ∷ ys) (h, hs) = ground arith
