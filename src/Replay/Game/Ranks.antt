-- ===== src/Replay/Game/Ranks.antt =====
-- The place of an element in a list sorted by key: how many elements have a smaller key.
use majsoulmanager.Prelude.{
  ℕ, ◌+◌, ◌≤◌, ◌≡◌, ◌≢◌, refl, ◌∙◌, Bool, true, false, ◌||◌, List, [], ◌∷◌, arith, ltb, leb, ◌==◌,
  leb→le, ==_iff, if◌then◌else◌, Bool-cases, inl, inr, All,
}
use majsoulmanager.Prelude.Sort.{sort_by_key, insert_by_key, IsSorted, sort_by_key-IsSorted}

module _ (key : ℕ → ℕ) where
  -- How many keys are below `k`.
  unfoldable pub less : ℕ → List ℕ → ℕ
  less k [] = 0
  less k (x ∷ xs) = if ltb (key x) k then less k xs + 1 else less k xs

  -- Whether `k` is a key, and the index of the first element that has it.
  unfoldable pub has : ℕ → List ℕ → Bool
  has k [] = false
  has k (x ∷ xs) = key x == k || has k xs

  unfoldable pub position : ℕ → List ℕ → ℕ
  position k [] = 0
  position k (x ∷ xs) = if key x == k then 0 else position k xs + 1

  abbrev pub HasDistinct : List ℕ → Type 0
  HasDistinct [] = Unit
  HasDistinct (x ∷ xs) = (has (key x) xs ≡ false) × HasDistinct xs

  less-insert : (k x : ℕ) (ys : List ℕ) → less k (insert_by_key key x ys) ≡ less k (x ∷ ys)
  unfolding less insert_by_key
  less-insert k x [] = refl
  less-insert k x (y ∷ ys) = ground (arith, less-insert k x ys)

  less-sort : (k : ℕ) (xs : List ℕ) → less k (sort_by_key key xs) ≡ less k xs
  unfolding less sort_by_key
  less-sort k [] = refl
  less-sort k (x ∷ xs) = ground (arith, less-insert k x (sort_by_key key xs), less-sort k xs)

  has-insert : (k x : ℕ) (ys : List ℕ) → has k (insert_by_key key x ys) ≡ has k (x ∷ ys)
  unfolding has insert_by_key
  has-insert k x [] = refl
  has-insert k x (y ∷ ys) = ground (arith, has-insert k x ys)

  pub has-sort : (k : ℕ) (xs : List ℕ) → has k (sort_by_key key xs) ≡ has k xs
  unfolding has sort_by_key
  has-sort k [] = refl
  has-sort k (x ∷ xs) = ground (arith, has-insert k x (sort_by_key key xs), has-sort k xs)

  less_none : (k : ℕ) (ys : List ℕ) → All (λ y. k ≤ key y) ys → less k ys ≡ 0
  unfolding less
  less_none k [] h = refl
  less_none k (y ∷ ys) (h, hs) = ground (arith, less_none k ys hs)

  All-le_trans : (a b : ℕ) (ys : List ℕ) → a ≤ b → All (λ y. b ≤ key y) ys → All (λ y. a ≤ key y) ys
  All-le_trans a b [] h ps = tt
  All-le_trans a b (y ∷ ys) h (p, ps) = (omega arith, All-le_trans a b ys h ps)

  has-le : (b k : ℕ) (ys : List ℕ) → All (λ y. b ≤ key y) ys → has k ys ≡ true → b ≤ k
  unfolding has
  has-le b k [] h e = absurd (ground arith)
  has-le b k (y ∷ ys) (h, hs) e = ground (arith, e, has-le b k ys hs)

  position-insert_self :
      (x : ℕ) (ys : List ℕ)
      → IsSorted key ys
      → has (key x) ys ≡ false
      → position (key x) (insert_by_key key x ys) ≡ less (key x) ys
  unfolding position less has insert_by_key
  position-insert_self x [] s d = ground arith
  position-insert_self x (y ∷ ys) (le, s) d = elim (Bool-cases (leb (key x) (key y))) [
    | inl before ↦
        let below = leb→le (key x) (key y) before in
        ground (arith, d, less_none (key x) ys (All-le_trans (key x) (key y) ys below le))
    | inr behind ↦ ground (arith, d, behind, position-insert_self x ys s)
  ]

  position-insert :
      (k x : ℕ) (ys : List ℕ)
      → IsSorted key ys
      → has k ys ≡ true
      → key x ≢ k
      → position k (insert_by_key key x ys) ≡ position k ys + (if ltb (key x) k then 1 else 0)
  unfolding position has insert_by_key
  position-insert k x [] s h ne = absurd (ground arith)
  position-insert k x (y ∷ ys) (le, s) h ne =
      ground (arith, h, has-le (key y) k ys le, position-insert k x ys s)

  -- Where the keys are distinct, an element of the sorted list has as many before it as have a
  -- smaller key.
  pub position-sort :
      (k : ℕ) (xs : List ℕ)
      → HasDistinct xs
      → has k xs ≡ true
      → position k (sort_by_key key xs) ≡ less k xs
  unfolding has less sort_by_key
  position-sort k [] d h = absurd (ground arith)
  position-sort k (x ∷ xs) (new, d) h =
      let s = sort_by_key-IsSorted key xs in
      let hs = has-sort k xs in
      let n = less-sort k xs in
      elim (Bool-cases (key x == k)) [
        | inl same ↦ rw (← (==_iff (key x) k).0 same) (
            ground (
              arith,
              position-insert_self x (sort_by_key key xs) s (has-sort (key x) xs ∙ new),
              less-sort (key x) xs,
            ))
        | inr other ↦ ground (
          arith,
          other,
          h,
          hs,
          n,
          position-insert k x (sort_by_key key xs) s,
          position-sort k xs d,
        )
      ]

  insert-HasDistinct :
      (x : ℕ) (ys : List ℕ)
      → has (key x) ys ≡ false
      → HasDistinct ys
      → HasDistinct (insert_by_key key x ys)
  unfolding insert_by_key
  insert-HasDistinct x [] n d = (n, tt)
  insert-HasDistinct x (y ∷ ys) n (m, d) = elim (Bool-cases (leb (key x) (key y))) [
    | inl before ↦ rw (before, insert_by_key) (n, (m, d))
    | inr behind ↦
        rw (behind, insert_by_key)
          (
            has-insert (key y) x ys ∙ (unfold has in ground (arith, n, m)),
            insert-HasDistinct x ys (unfold has in ground (arith, n)) d,
          )
  ]

  -- The distinct keys stay distinct.
  pub sort-HasDistinct : (xs : List ℕ) → HasDistinct xs → HasDistinct (sort_by_key key xs)
  unfolding sort_by_key
  sort-HasDistinct [] d = tt
  sort-HasDistinct (x ∷ xs) (new, d) =
      insert-HasDistinct x (sort_by_key key xs) (has-sort (key x) xs ∙ new) (sort-HasDistinct xs d)
