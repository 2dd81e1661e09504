-- ===== src/Watch/Examples.antt =====
-- A registry of one record in progress and one that ended, and an event of a third uuid.
use majsoulmanager.Prelude.{◌≡◌, ◌≤◌, ◌⊎◌, refl, List, [], ◌∷◌, ◌++◌, none, some, arith, length}
use majsoulmanager.Prelude.Text.{codes, text_eq}
use majsoulmanager.Watch.Registry.{
  WatchEvent, WatchEventKind, WatchRecord, WatchRegistry, UuidState, ConversionState,
  max_recent_records, find, is_terminal, apply,
}
use mathlib.Core.List.{Perm}
use majsoulmanager.Prelude.Sort.{sort_by_key}
use majsoulmanager.Watch.Summary.{shown_items, summary}
use majsoulmanager.Watch.Summary.Counts.{Counted, summary-Counted}
use majsoulmanager.Watch.Summary.Newest.{IsNewestFirst, summary-items}
use majsoulmanager.Watch.Registry.Apply.{IsRegistry, apply-find, apply-length}

abbrev going : WatchRecord
going = record {
  uuid = codes "a";
  uuid_state = UuidState.fetching;
  conversion_state = ConversionState.waiting;
  mode_id = none;
  started_at = none;
  updated_at = 5;
  attempts = 1;
  message = none;
  record_id = none;
}

abbrev ended : WatchRecord
ended = record {
  uuid = codes "b";
  uuid_state = UuidState.fetched;
  conversion_state = ConversionState.completed;
  mode_id = none;
  started_at = none;
  updated_at = 6;
  attempts = 1;
  message = none;
  record_id = none;
}

abbrev registry : WatchRegistry
registry = going ∷ ended ∷ []

abbrev event : WatchEvent
event = record {
  uuid = codes "c";
  event = WatchEventKind.pending;
  mode_id = some 12;
  started_at = none;
  message = none;
  record_id = none;
}

registry-IsRegistry : IsRegistry registry
registry-IsRegistry = unfold find text_eq in (refl, (refl, tt))

apply-find_example : find (codes "a") (apply registry event 7).0 ≡ some going
apply-find_example =
    apply-find registry event 7 (codes "a") going registry-IsRegistry (unfold text_eq in refl)
      (unfold find text_eq in refl) (unfold is_terminal in refl)

apply-length_example : length (apply registry event 7).0 ≤ max_recent_records
apply-length_example =
    apply-length registry event 7 (codes "b") ended registry-IsRegistry (omega arith)
      (unfold text_eq in refl) (unfold find text_eq in refl) (unfold is_terminal in refl)

-- The completed record is the newer one, and alone what the state selects.
shown_completed : (summary registry (some (codes "completed")) 10).items ≡ ended ∷ []
unfolding summary text_eq sort_by_key
shown_completed = refl

shown_newest : (summary registry none 1).items ≡ ended ∷ []
unfolding summary sort_by_key
shown_newest = refl

summary-Counted_example :
    ((summary registry none 1).total ≡ 2)
    × Counted (λ r. r.uuid_state ≡ UuidState.live) registry (summary registry none 1).live
    × Counted
        (λ r. (r.uuid_state ≡ UuidState.pending) ⊎ (r.uuid_state ≡ UuidState.fetching))
        registry
        (summary registry none 1).pending
    × Counted
        (λ r. r.conversion_state ≡ ConversionState.converting)
        registry
        (summary registry none 1).converting
    × Counted
        (λ r. r.conversion_state ≡ ConversionState.completed)
        registry
        (summary registry none 1).completed
    × Counted
        (λ r. (r.uuid_state ≡ UuidState.failed) ⊎ (r.conversion_state ≡ ConversionState.failed))
        registry
        (summary registry none 1).failed
summary-Counted_example = summary-Counted registry none 1

summary-items_example :
    (rest : List WatchRecord) × Perm
      ((summary registry none 1).items ++ rest)
      (shown_items none registry)
    × IsNewestFirst ((summary registry none 1).items ++ rest)
    × ((rest ≡ []) ⊎ (length (summary registry none 1).items ≡ 1))
summary-items_example = summary-items registry none 1
