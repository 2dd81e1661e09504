-- ===== src/Watch/Summary.antt =====
-- `WatchRegistry::summary` and `state_matches` of src/watch.rs. `sort_unstable_by_key` leaves equal
-- times in any order, as the hash map does.
pub mod Counts
pub mod Newest
use mathlib.Core.Bool.{Bool-discrete}
use mathlib.Core.List.{filter, reverse}
use majsoulmanager.Prelude.{
  ℕ, ◌+◌, ◌≡◌, Bool, true, false, ◌||◌, List, [], ◌∷◌, Option, none, some, if◌then◌else◌, length,
  take,
}
use majsoulmanager.Prelude.Sort.{sort_by_key}
use majsoulmanager.Prelude.Text.{Text, codes, text_eq}
use majsoulmanager.Watch.Registry.{UuidState, ConversionState, WatchRecord, WatchRegistry}

pub record WatchSummary : Type 0 where
  pub total : ℕ
  pub live : ℕ
  pub pending : ℕ
  pub converting : ℕ
  pub completed : ℕ
  pub failed : ℕ
  pub items : List WatchRecord

abbrev pub is_live : WatchRecord → Bool
is_live r = elim r.uuid_state [
  | UuidState.live ↦ true
  | UuidState.pending ↦ false
  | UuidState.fetching ↦ false
  | UuidState.fetched ↦ false
  | UuidState.failed ↦ false
]

abbrev pub is_fetching : WatchRecord → Bool
is_fetching r = elim r.uuid_state [
  | UuidState.live ↦ false
  | UuidState.pending ↦ false
  | UuidState.fetching ↦ true
  | UuidState.fetched ↦ false
  | UuidState.failed ↦ false
]

abbrev pub is_pending : WatchRecord → Bool
is_pending r = elim r.uuid_state [
  | UuidState.live ↦ false
  | UuidState.pending ↦ true
  | UuidState.fetching ↦ true
  | UuidState.fetched ↦ false
  | UuidState.failed ↦ false
]

abbrev pub is_converting : WatchRecord → Bool
is_converting r = elim r.conversion_state [
  | ConversionState.waiting ↦ false
  | ConversionState.converting ↦ true
  | ConversionState.completed ↦ false
  | ConversionState.failed ↦ false
]

abbrev pub is_completed : WatchRecord → Bool
is_completed r = elim r.conversion_state [
  | ConversionState.waiting ↦ false
  | ConversionState.converting ↦ false
  | ConversionState.completed ↦ true
  | ConversionState.failed ↦ false
]

abbrev pub fetch_failed : WatchRecord → Bool
fetch_failed r = elim r.uuid_state [
  | UuidState.live ↦ false
  | UuidState.pending ↦ false
  | UuidState.fetching ↦ false
  | UuidState.fetched ↦ false
  | UuidState.failed ↦ true
]

abbrev pub conversion_failed : WatchRecord → Bool
conversion_failed r = elim r.conversion_state [
  | ConversionState.waiting ↦ false
  | ConversionState.converting ↦ false
  | ConversionState.completed ↦ false
  | ConversionState.failed ↦ true
]

abbrev pub has_failed : WatchRecord → Bool
has_failed r = fetch_failed r || conversion_failed r

abbrev pub no_counts : ℕ → WatchSummary
no_counts total = record {
  total = total;
  live = 0;
  pending = 0;
  converting = 0;
  completed = 0;
  failed = 0;
  items = [];
}

-- `+= 1` under a condition.
abbrev pub bump : Bool → ℕ → ℕ
bump true n = n + 1
bump false n = n

-- One turn of the loop. No state is live and pending at once.
unfoldable pub note : WatchSummary → WatchRecord → WatchSummary
note s item = record s {
  live = bump (is_live item) s.live;
  pending = bump (is_pending item) s.pending;
  converting = bump (is_converting item) s.converting;
  completed = bump (is_completed item) s.completed;
  failed = bump (has_failed item) s.failed;
}

unfoldable pub note_all : WatchSummary → List WatchRecord → WatchSummary
unfolding note
note_all s [] = s
note_all s (item ∷ items) = note_all (note s item) items

unfoldable pub state_matches : WatchRecord → Text → Bool
state_matches r state =
    if text_eq state (codes "live")
    then is_live r
    else if text_eq state (codes "pending")
    then is_pending r
    else if text_eq state (codes "fetching")
    then is_fetching r
    else if text_eq state (codes "converting")
    then is_converting r
    else if text_eq state (codes "completed")
    then is_completed r
    else if text_eq state (codes "failed")
    then has_failed r
    else true

unfoldable pub is_shown : Option Text → WatchRecord → Bool
unfolding state_matches
is_shown none item = true
is_shown (some value) item = state_matches item value

unfoldable pub newest_first : List WatchRecord → List WatchRecord
newest_first records = reverse (sort_by_key (λ (item : WatchRecord). item.updated_at) records)

unfoldable pub shown_items : Option Text → List WatchRecord → List WatchRecord
unfolding is_shown
shown_items state all = filter (λ item. Bool-discrete (is_shown state item) true) all

unfoldable pub summary : WatchRegistry → Option Text → ℕ → WatchSummary
unfolding note_all newest_first shown_items
summary registry state limit =
    let all = newest_first registry in
    let counted = note_all (no_counts (length all)) all in
    record counted { items = take limit (shown_items state all) }
