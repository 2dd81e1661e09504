-- ===== src/Watch/Registry.antt =====
-- The types of src/watch.rs, and `WatchRegistry::apply`. A time is a
-- number; a hash map is a list of records with distinct uuids, in the order of its
-- iteration. The lock makes each call one step.
pub mod Apply
use majsoulmanager.Prelude.{
  ℕ, zero, suc, ◌+◌, ◌-◌, ◌^◌, ◌≤◌, Bool, true, false, not, ◌&&◌, ◌||◌, List, [], ◌∷◌, Option, none,
  some, String, ltb, leb, ◌==◌, if◌then◌else◌, length, take,
}
use majsoulmanager.Prelude.Text.{Text, text_eq, codes}
use text.Mathlib.Text.{◌==◌ as str_eq}

pub data WatchEventKind : Type 0 where
  live pending fetching converting completed fetch_failed conversion_failed : WatchEventKind

pub data UuidState : Type 0 where
  live pending fetching fetched failed : UuidState

pub data ConversionState : Type 0 where
  waiting converting completed failed : ConversionState

pub record WatchEvent : Type 0 where
  pub uuid : Text
  pub event : WatchEventKind
  pub mode_id : Option ℕ
  pub started_at : Option ℕ
  pub message : Option Text
  pub record_id : Option Text

pub record WatchRecord : Type 0 where
  pub uuid : Text
  pub uuid_state : UuidState
  pub conversion_state : ConversionState
  pub mode_id : Option ℕ
  pub started_at : Option ℕ
  pub updated_at : ℕ
  pub attempts : ℕ
  pub message : Option Text
  pub record_id : Option Text

abbrev pub WatchRegistry : Type 0
WatchRegistry = List WatchRecord

abbrev pub max_recent_records : ℕ
max_recent_records = 10000

-- `is_ascii_graphic` and not '/'.
is_uuid_byte : ℕ → Bool
is_uuid_byte b = leb 0x21 b && leb b 0x7e && not (b == b'/')

all_uuid_bytes : Text → Bool
unfolding is_uuid_byte
all_uuid_bytes [] = true
all_uuid_bytes (b ∷ bs) = is_uuid_byte b && all_uuid_bytes bs

pub is_valid_uuid : Text → Bool
unfolding all_uuid_bytes
is_valid_uuid uuid = not (length uuid == 0) && leb (length uuid) 96 && all_uuid_bytes uuid

unfoldable pub find : Text → WatchRegistry → Option WatchRecord
find uuid [] = none
find uuid (r ∷ rs) = if text_eq r.uuid uuid then some r else find uuid rs

-- The entry of a record's uuid becomes that record, or is added.
pub store : WatchRecord → WatchRegistry → WatchRegistry
store record' [] = record' ∷ []
store record' (r ∷ rs) = if text_eq r.uuid record'.uuid then record' ∷ rs else r ∷ store record' rs

pub remove : Text → WatchRegistry → WatchRegistry
remove uuid [] = []
remove uuid (r ∷ rs) = if text_eq r.uuid uuid then rs else r ∷ remove uuid rs

-- `or_insert_with`.
abbrev fresh : WatchEvent → ℕ → WatchRecord
fresh e now = record {
  uuid = e.uuid;
  uuid_state = UuidState.live;
  conversion_state = ConversionState.waiting;
  mode_id = e.mode_id;
  started_at = e.started_at;
  updated_at = now;
  attempts = 0;
  message = none;
  record_id = none;
}

-- The option of the event, if it has one.
abbrev or_kept : {A : Type 0} → Option A → Option A → Option A
or_kept none old = old
or_kept (some a) old = some a

-- `u32::saturating_add(1)`
abbrev saturating_suc : ℕ → ℕ
saturating_suc n = if ltb n (2 ^ 32 - 1) then n + 1 else 2 ^ 32 - 1

-- The `match event.event`.
pub transition : WatchEventKind → WatchRecord → WatchRecord
transition WatchEventKind.live r = record r {
  uuid_state = UuidState.live;
  conversion_state = ConversionState.waiting;
}
transition WatchEventKind.pending r = record r {
  uuid_state = UuidState.pending;
  conversion_state = ConversionState.waiting;
}
transition WatchEventKind.fetching r = record r {
  uuid_state = UuidState.fetching;
  attempts = saturating_suc r.attempts;
}
transition WatchEventKind.converting r = record r {
  uuid_state = UuidState.fetched;
  conversion_state = ConversionState.converting;
}
transition WatchEventKind.completed r = record r {
  uuid_state = UuidState.fetched;
  conversion_state = ConversionState.completed;
}
transition WatchEventKind.fetch_failed r = record r {
  uuid_state = UuidState.failed;
  conversion_state = ConversionState.waiting;
}
transition WatchEventKind.conversion_failed r = record r {
  uuid_state = UuidState.fetched;
  conversion_state = ConversionState.failed;
}

-- The record after the event, from the record before it.
pub update : WatchEvent → ℕ → WatchRecord → WatchRecord
unfolding transition
update e now r = transition e.event (record r {
  mode_id = or_kept e.mode_id r.mode_id;
  started_at = or_kept e.started_at r.started_at;
  updated_at = now;
  message = e.message;
  record_id = or_kept e.record_id r.record_id;
})

is_failed : UuidState → Bool
is_failed UuidState.failed = true
is_failed _ = false

is_final : ConversionState → Bool
is_final ConversionState.completed = true
is_final ConversionState.failed = true
is_final _ = false

unfoldable pub is_terminal : WatchRecord → Bool
unfolding is_failed is_final
is_terminal r = is_failed r.uuid_state || is_final r.conversion_state

-- `filter(..).min_by_key(updated_at)`: the first of the oldest.
pub oldest_terminal : WatchRegistry → Option WatchRecord
unfolding is_terminal
oldest_terminal [] = none
oldest_terminal (r ∷ rs) =
    let rest = oldest_terminal rs in
    if is_terminal r
    then elim rest [
      | none ↦ some r
      | some s ↦ if leb r.updated_at s.updated_at then some r else some s
    ]
    else rest

pub evict : WatchRegistry → WatchRegistry
evict rs =
    if ltb max_recent_records (length rs)
    then elim (oldest_terminal rs) [ none ↦ rs | some r ↦ remove r.uuid rs ]
    else rs

-- `none` is `InvalidUuid`; the registry is as it was.
unfoldable pub apply : WatchRegistry → WatchEvent → ℕ → WatchRegistry × Option WatchRecord
unfolding update evict
apply registry e now =
    if is_valid_uuid e.uuid
    then (let updated =
          update e now (elim (find e.uuid registry) [ none ↦ fresh e now | some r ↦ r ]) in
        (evict (store updated registry), some updated))
    else (registry, none)
