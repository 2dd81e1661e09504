-- ===== src/Watch/Summary/Counts.antt =====
-- The counts of `summary` in src/watch.rs.
use mathlib.Core.List.{reverse_aux}
use majsoulmanager.Prelude.{
  ℕ, suc, ◌+◌, ◌≡◌, ◌↔◌, ◌⊎◌, inl, inr, refl, sym, subst, ◌∙◌, Bool, true, false, Bool-cases, List,
  [], ◌∷◌, Option, arith, length,
}
use majsoulmanager.Prelude.Sort.{sort_by_key, insert_by_key}
use majsoulmanager.Prelude.Text.{Text}
use majsoulmanager.Watch.Registry.{UuidState, ConversionState, WatchRecord, WatchRegistry}
use majsoulmanager.Watch.Summary.{
  WatchSummary, is_live, is_pending, is_converting, is_completed, has_failed, bump, note, note_all,
  no_counts, newest_first, summary,
}

unfoldable pub count : (WatchRecord → Bool) → List WatchRecord → ℕ
count p [] = 0
count p (x ∷ xs) = bump (p x) (count p xs)

abbrev at : WatchRecord → ℕ
at r = r.updated_at

count-insert_by_key :
    (p : WatchRecord → Bool) (x : WatchRecord) (ys : List WatchRecord)
    → count p (insert_by_key at x ys) ≡ count p (x ∷ ys)
unfolding count insert_by_key
count-insert_by_key p x [] = refl
count-insert_by_key p x (y ∷ ys) = ground (arith, count-insert_by_key p x ys)

count-sort_by_key :
    (p : WatchRecord → Bool) (xs : List WatchRecord) → count p (sort_by_key at xs) ≡ count p xs
unfolding count sort_by_key
count-sort_by_key p [] = refl
count-sort_by_key p (x ∷ xs) =
    ground (arith, count-insert_by_key p x (sort_by_key at xs), count-sort_by_key p xs)

count-reverse_aux :
    (p : WatchRecord → Bool) (xs acc : List WatchRecord)
    → count p (reverse_aux xs acc) ≡ count p xs + count p acc
unfolding count
count-reverse_aux p [] acc = ground arith
count-reverse_aux p (x ∷ xs) acc = ground (arith, count-reverse_aux p xs (x ∷ acc))

count-newest_first :
    (p : WatchRecord → Bool) (xs : List WatchRecord) → count p (newest_first xs) ≡ count p xs
unfolding newest_first count
count-newest_first p xs =
    ground (arith, count-reverse_aux p (sort_by_key at xs) [], count-sort_by_key p xs)

length-count : (xs : List WatchRecord) → length xs ≡ count (λ x. true) xs
unfolding count
length-count [] = refl
length-count (x ∷ xs) = ground (arith, length-count xs)

bump-add : (b : Bool) (n k : ℕ) → bump b n + k ≡ n + bump b k
bump-add true n k = omega arith
bump-add false n k = refl

-- What the loop counts, on top of what it starts with.
note_all-count :
    (s : WatchSummary) (xs : List WatchRecord)
    → ((note_all s xs).total ≡ s.total)
      × ((note_all s xs).live ≡ s.live + count is_live xs)
      × ((note_all s xs).pending ≡ s.pending + count is_pending xs)
      × ((note_all s xs).converting ≡ s.converting + count is_converting xs)
      × ((note_all s xs).completed ≡ s.completed + count is_completed xs)
      × ((note_all s xs).failed ≡ s.failed + count has_failed xs)
unfolding note_all note count
note_all-count s [] = (refl, omega arith, omega arith, omega arith, omega arith, omega arith)
note_all-count s (x ∷ xs) =
    let (total, live, pending, converting, completed, failed) = note_all-count (note s x) xs in
    (
      total,
      live ∙ bump-add (is_live x) s.live (count is_live xs),
      pending ∙ bump-add (is_pending x) s.pending (count is_pending xs),
      converting ∙ bump-add (is_converting x) s.converting (count is_converting xs),
      completed ∙ bump-add (is_completed x) s.completed (count is_completed xs),
      failed ∙ bump-add (has_failed x) s.failed (count has_failed xs),
    )

-- So many of the records are as the property says.
pub data Counted (P : WatchRecord → Type 0) : List WatchRecord → ℕ → Type 0 where
  nobody : Counted P [] 0
  this :
      {x : WatchRecord} {xs : List WatchRecord} {n : ℕ}
      → P x
      → Counted P xs n
      → Counted P (x ∷ xs) (suc n)
  other :
      {x : WatchRecord} {xs : List WatchRecord} {n : ℕ}
      → ¬ P x
      → Counted P xs n
      → Counted P (x ∷ xs) n

Counted-count :
    (P : WatchRecord → Type 0) (p : WatchRecord → Bool) (xs : List WatchRecord)
    → ((r : WatchRecord) → (p r ≡ true) ↔ P r)
    → Counted P xs (count p xs)
unfolding count
Counted-count P p [] h = nobody
Counted-count P p (x ∷ xs) h = elim (Bool-cases (p x)) [
  | inl holds ↦ rw holds (
      subst (Counted P (x ∷ xs)) (omega arith)
        (Counted.this ((h x).0 holds) (Counted-count P p xs h)))
  | inr fails ↦
      rw fails
        (Counted.other (λ is. absurd (ground (arith, fails, (h x).1 is))) (Counted-count P p xs h))
]

live_iff : (r : WatchRecord) → (is_live r ≡ true) ↔ (r.uuid_state ≡ UuidState.live)
live_iff r = ground arith

pending_iff :
    (r : WatchRecord)
    → (is_pending r ≡ true)
      ↔ ((r.uuid_state ≡ UuidState.pending) ⊎ (r.uuid_state ≡ UuidState.fetching))
pending_iff r = ground arith

converting_iff :
    (r : WatchRecord) → (is_converting r ≡ true) ↔ (r.conversion_state ≡ ConversionState.converting)
converting_iff r = ground arith

completed_iff :
    (r : WatchRecord) → (is_completed r ≡ true) ↔ (r.conversion_state ≡ ConversionState.completed)
completed_iff r = ground arith

failed_iff :
    (r : WatchRecord)
    → (has_failed r ≡ true)
      ↔ ((r.uuid_state ≡ UuidState.failed) ⊎ (r.conversion_state ≡ ConversionState.failed))
failed_iff r = ground arith

summary-totals :
    (registry : WatchRegistry) (state : Option Text) (limit : ℕ)
    → ((summary registry state limit).total ≡ length registry)
      × ((summary registry state limit).live ≡ count is_live registry)
      × ((summary registry state limit).pending ≡ count is_pending registry)
      × ((summary registry state limit).converting ≡ count is_converting registry)
      × ((summary registry state limit).completed ≡ count is_completed registry)
      × ((summary registry state limit).failed ≡ count has_failed registry)
unfolding summary
summary-totals registry state limit =
    let all : List WatchRecord = newest_first registry in
    let (total, live, pending, converting, completed, failed) =
      note_all-count (no_counts (length all)) all in
    (
      total
          ∙ length-count all
          ∙ count-newest_first (λ x. true) registry
          ∙ sym (length-count registry),
      omega (arith, live, count-newest_first is_live registry),
      omega (arith, pending, count-newest_first is_pending registry),
      omega (arith, converting, count-newest_first is_converting registry),
      omega (arith, completed, count-newest_first is_completed registry),
      omega (arith, failed, count-newest_first has_failed registry),
    )

-- Whatever is shown, summary counts all records of the registry, and of them: the live ones, those
-- that are pending or fetching, those whose conversion runs, those whose conversion is completed, and
-- those of which the fetch or the conversion failed.
pub summary-Counted :
    (registry : WatchRegistry) (state : Option Text) (limit : ℕ)
    → ((summary registry state limit).total ≡ length registry)
      × Counted (λ r. r.uuid_state ≡ UuidState.live) registry (summary registry state limit).live
      × Counted
          (λ r. (r.uuid_state ≡ UuidState.pending) ⊎ (r.uuid_state ≡ UuidState.fetching))
          registry
          (summary registry state limit).pending
      × Counted
          (λ r. r.conversion_state ≡ ConversionState.converting)
          registry
          (summary registry state limit).converting
      × Counted
          (λ r. r.conversion_state ≡ ConversionState.completed)
          registry
          (summary registry state limit).completed
      × Counted
          (λ r. (r.uuid_state ≡ UuidState.failed) ⊎ (r.conversion_state ≡ ConversionState.failed))
          registry
          (summary registry state limit).failed
summary-Counted registry state limit =
    let (total, live, pending, converting, completed, failed) =
      summary-totals registry state limit in
    (
      total,
      subst (Counted _ registry) (sym live) (Counted-count _ is_live registry live_iff),
      subst (Counted _ registry) (sym pending) (Counted-count _ is_pending registry pending_iff),
      subst (Counted _ registry) (sym converting)
          (Counted-count _ is_converting registry converting_iff),
      subst (Counted _ registry) (sym completed)
          (Counted-count _ is_completed registry completed_iff),
      subst (Counted _ registry) (sym failed) (Counted-count _ has_failed registry failed_iff),
    )
