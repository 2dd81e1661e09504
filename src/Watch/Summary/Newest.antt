-- ===== src/Watch/Summary/Newest.antt =====
-- What `summary` of src/watch.rs shows: the newest records first.
use mathlib.Core.List.Perm
use mathlib.Core.Bool.{Bool-discrete}
use mathlib.Core.List.{Perm, reverse_aux, append-nil, perm_middle}
use majsoulmanager.Prelude.{
  ℕ, zero, suc, ◌≤◌, ◌≡◌, ◌⊎◌, refl, sym, subst, true, List, [], ◌∷◌, ◌++◌, Option, arith, inl, inr,
  All, length, take, drop, take-append-drop, Bool-cases,
}
use majsoulmanager.Prelude.Sort.{sort_by_key, IsSorted, sort_by_key-IsSorted, sort_by_key-perm}
use majsoulmanager.Prelude.Text.{Text}
use majsoulmanager.Watch.Registry.{WatchRecord, WatchRegistry}
use majsoulmanager.Watch.Summary.{is_shown, newest_first, shown_items, summary}

-- Each record is at least as new as those behind it.
abbrev pub IsNewestFirst : List WatchRecord → Type 0
IsNewestFirst [] = Unit
IsNewestFirst (x ∷ xs) =
    All (λ (y : WatchRecord). y.updated_at ≤ x.updated_at) xs × IsNewestFirst xs

abbrev at : WatchRecord → ℕ
at r = r.updated_at

Perm-reverse_aux : (xs acc : List WatchRecord) → Perm (reverse_aux xs acc) (xs ++ acc)
Perm-reverse_aux [] acc = Perm.refl acc
Perm-reverse_aux (x ∷ xs) acc = Perm.trans (Perm-reverse_aux xs (x ∷ acc)) (perm_middle xs acc)

Perm-newest_first : (xs : List WatchRecord) → Perm (newest_first xs) xs
unfolding newest_first
Perm-newest_first xs =
    Perm.trans
      (subst (λ ys. Perm (reverse_aux (sort_by_key at xs) []) ys) (append-nil (sort_by_key at xs))
        (Perm-reverse_aux (sort_by_key at xs) []))
      (sort_by_key-perm at xs)

All-and :
    (P Q : WatchRecord → Type 0) (xs : List WatchRecord)
    → All P xs
    → All Q xs
    → All (λ x. P x × Q x) xs
All-and P Q [] ps qs = tt
All-and P Q (x ∷ xs) (p, ps) (q, qs) = ((p, q), All-and P Q xs ps qs)

reverse_aux-IsNewestFirst :
    (xs acc : List WatchRecord)
    → IsSorted at xs
    → IsNewestFirst acc
    → All (λ x. All (λ (a : WatchRecord). at a ≤ at x) acc) xs
    → IsNewestFirst (reverse_aux xs acc)
reverse_aux-IsNewestFirst [] acc s n h = n
reverse_aux-IsNewestFirst (x ∷ xs) acc (le, s) n (h, hs) =
    reverse_aux-IsNewestFirst xs (x ∷ acc) s (h, n) (All-and _ _ xs le hs)

All-nothing : (xs : List WatchRecord) → All (λ x. Unit {0}) xs
All-nothing [] = tt
All-nothing (x ∷ xs) = (tt, All-nothing xs)

newest_first-IsNewestFirst : (xs : List WatchRecord) → IsNewestFirst (newest_first xs)
unfolding newest_first
newest_first-IsNewestFirst xs =
    reverse_aux-IsNewestFirst (sort_by_key at xs) [] (sort_by_key-IsSorted at xs) tt
      (All-nothing (sort_by_key at xs))

All-filter :
    (P : WatchRecord → Type 0) (state : Option Text) (xs : List WatchRecord)
    → All P xs
    → All P (shown_items state xs)
unfolding shown_items
All-filter P state [] ps = tt
All-filter P state (x ∷ xs) (p, ps) = elim (Bool-cases (is_shown state x)) [
  | inl h ↦ rw (h, is_shown) (p, All-filter P state xs ps)
  | inr h ↦ rw (h, is_shown) (All-filter P state xs ps)
]

shown_items-IsNewestFirst :
    (state : Option Text) (xs : List WatchRecord)
    → IsNewestFirst xs
    → IsNewestFirst (shown_items state xs)
unfolding shown_items
shown_items-IsNewestFirst state [] n = tt
shown_items-IsNewestFirst state (x ∷ xs) (le, n) = elim (Bool-cases (is_shown state x)) [
  | inl h ↦
      rw (h, is_shown)
        (All-filter (λ y. at y ≤ at x) state xs le, shown_items-IsNewestFirst state xs n)
  | inr h ↦ rw (h, is_shown) (shown_items-IsNewestFirst state xs n)
]

shown_items-perm :
    (state : Option Text) {xs ys : List WatchRecord}
    → Perm xs ys
    → Perm (shown_items state xs) (shown_items state ys)
unfolding shown_items
shown_items-perm state p = Perm.filter (λ item. Bool-discrete (is_shown state item) true) p

take-or : (n : ℕ) (xs : List WatchRecord) → (drop n xs ≡ []) ⊎ (length (take n xs) ≡ n)
take-or zero xs = inr refl
take-or (suc n) [] = inl refl
take-or (suc n) (x ∷ xs) = elim (take-or n xs) [
  | inl none_left ↦ inl none_left
  | inr full ↦ inr (ground (arith, full))
]

-- The items of summary and some further records are together the records of the registry that the
-- state selects, each once, and they stand newest first; there are further ones only where the
-- items are as many as the limit.
pub summary-items :
    (registry : WatchRegistry) (state : Option Text) (limit : ℕ)
    → (rest : List WatchRecord) × Perm
        ((summary registry state limit).items ++ rest)
        (shown_items state registry)
      × IsNewestFirst ((summary registry state limit).items ++ rest)
      × ((rest ≡ []) ⊎ (length (summary registry state limit).items ≡ limit))
unfolding summary
summary-items registry state limit =
    let all : List WatchRecord = shown_items state (newest_first registry) in
    let whole : take limit all ++ drop limit all ≡ all = take-append-drop limit all in
    (
      drop limit all,
      subst (λ xs. Perm xs (shown_items state registry)) (sym whole)
          (shown_items-perm state (Perm-newest_first registry)),
      subst IsNewestFirst (sym whole) (
          shown_items-IsNewestFirst state (newest_first registry)
            (newest_first-IsNewestFirst registry)),
      take-or limit all,
    )
