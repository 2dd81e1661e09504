-- ===== src/Watch/Registry/Apply.antt =====
-- What `apply` keeps: a registry with one record for a uuid, and every record in progress.
use majsoulmanager.Prelude.{
  ℕ, ◌+◌, ◌≤◌, ◌≡◌, ◌≢◌, refl, ◌∙◌, true, false, [], ◌∷◌, none, some, arith, if◌then◌else◌, length,
  Bool-cases, Option-cases, inl, inr,
}
use majsoulmanager.Prelude.Text.{Text, text_eq, text_eq_iff}
use majsoulmanager.Watch.Registry.{
  WatchEvent, WatchEventKind, WatchRecord, WatchRegistry, max_recent_records, is_valid_uuid, find,
  store, remove, transition, update, is_terminal, oldest_terminal, evict, apply, fresh,
}

-- One record for a uuid.
abbrev pub IsRegistry : WatchRegistry → Type 0
IsRegistry [] = Unit
IsRegistry (r ∷ rs) = (find r.uuid rs ≡ none) × IsRegistry rs

find-store :
    (j : Text) (r : WatchRecord) (rs : WatchRegistry)
    → find j (store r rs) ≡ (if text_eq r.uuid j then some r else find j rs)
unfolding find store
find-store j r [] = refl
find-store j r (x ∷ rs) = ground (
  arith,
  find-store j r rs,
  text_eq_iff x.uuid r.uuid,
  text_eq_iff x.uuid j,
  text_eq_iff r.uuid j,
)

find-remove : (j k : Text) (rs : WatchRegistry) → k ≢ j → find j (remove k rs) ≡ find j rs
unfolding find remove
find-remove j k [] h = refl
find-remove j k (x ∷ rs) h =
    ground (arith, find-remove j k rs h, text_eq_iff x.uuid k, text_eq_iff x.uuid j)

find-remove-none :
    (j k : Text) (rs : WatchRegistry) → find j rs ≡ none → find j (remove k rs) ≡ none
unfolding find remove
find-remove-none j k [] h = refl
find-remove-none j k (x ∷ rs) h = ground (arith, find-remove-none j k rs)

store-IsRegistry : (r : WatchRecord) (rs : WatchRegistry) → IsRegistry rs → IsRegistry (store r rs)
unfolding store
store-IsRegistry r [] h = (unfold find in refl, tt)
store-IsRegistry r (x ∷ rs) (n, h) = elim (Bool-cases (text_eq x.uuid r.uuid)) [
  | inl same ↦ rw (same, store) (rw ((text_eq_iff x.uuid r.uuid).0 same) at n, h)
  | inr other ↦
      rw (other, store)
        (
          rw find-store (ground (arith, text_eq_iff x.uuid r.uuid, text_eq_iff r.uuid x.uuid)),
          store-IsRegistry r rs h,
        )
]

remove-IsRegistry : (k : Text) (rs : WatchRegistry) → IsRegistry rs → IsRegistry (remove k rs)
unfolding remove
remove-IsRegistry k [] h = tt
remove-IsRegistry k (x ∷ rs) (n, h) = elim (Bool-cases (text_eq x.uuid k)) [
  | inl same ↦ rw (same, remove) h
  | inr other ↦ rw (other, remove) (find-remove-none x.uuid k rs n, remove-IsRegistry k rs h)
]

find-head : (x : WatchRecord) (rs : WatchRegistry) → find x.uuid (x ∷ rs) ≡ some x
unfolding find
find-head x rs = ground (arith, text_eq_iff x.uuid x.uuid)

find-tail :
    (x : WatchRecord) (rs : WatchRegistry) (j : Text) (r : WatchRecord)
    → find x.uuid rs ≡ none
    → find j rs ≡ some r
    → find j (x ∷ rs) ≡ some r
unfolding find
find-tail x rs j r n f = ground (arith, n, f, text_eq_iff x.uuid j)

-- The record to evict is in the registry, and is terminal.
oldest_terminal-find :
    (rs : WatchRegistry) (r : WatchRecord)
    → IsRegistry rs
    → oldest_terminal rs ≡ some r
    → (find r.uuid rs ≡ some r) × (is_terminal r ≡ true)
unfolding oldest_terminal
oldest_terminal-find [] r h e = absurd (ground arith)
oldest_terminal-find (x ∷ rs) r (n, h) e = elim (Bool-cases (is_terminal x)) [
  | inr going ↦
      let (f, t) = oldest_terminal-find rs r h (rw going at e) in (find-tail x rs r.uuid r n f, t)
  | inl ended ↦ elim (Option-cases (oldest_terminal rs)) [
    | inl none' ↦ ground (arith, ended, none', find-head x rs)
    | inr (s, found) ↦
        let (f, t) = oldest_terminal-find rs s h found in
        ground (arith, ended, found, t, find-head x rs, find-tail x rs s.uuid s n f)
  ]
]

evict-IsRegistry : (rs : WatchRegistry) → IsRegistry rs → IsRegistry (evict rs)
unfolding evict
evict-IsRegistry rs h = elim (Option-cases (oldest_terminal rs)) [
  | inl none' ↦ ground (arith, none', h)
  | inr (s, found) ↦ ground (arith, found, remove-IsRegistry s.uuid rs h)
]

-- An eviction never takes a record that is in progress.
evict-find :
    (rs : WatchRegistry) (j : Text) (r : WatchRecord)
    → IsRegistry rs
    → find j rs ≡ some r
    → is_terminal r ≡ false
    → find j (evict rs) ≡ some r
unfolding evict
evict-find rs j r h f t = elim (Option-cases (oldest_terminal rs)) [
  | inl none' ↦ ground (arith, none', f)
  | inr (s, found) ↦
      ground (arith, found, f, t, oldest_terminal-find rs s h found, find-remove j s.uuid rs)
]

store-length : (r : WatchRecord) (rs : WatchRegistry) → length (store r rs) ≤ length rs + 1
unfolding store
store-length r [] = omega arith
store-length r (x ∷ rs) = ground (arith, store-length r rs)

remove-length :
    (k : Text) (rs : WatchRegistry) (r : WatchRecord)
    → find k rs ≡ some r
    → length (remove k rs) + 1 ≡ length rs
unfolding remove find
remove-length k [] r f = absurd (ground arith)
remove-length k (x ∷ rs) r f = ground (arith, remove-length k rs r)

find-uuid : (j : Text) (rs : WatchRegistry) (r : WatchRecord) → find j rs ≡ some r → r.uuid ≡ j
unfolding find
find-uuid j [] r f = absurd (ground arith)
find-uuid j (x ∷ rs) r f = ground (arith, f, find-uuid j rs r, text_eq_iff x.uuid j)

transition-uuid : (k : WatchEventKind) (r : WatchRecord) → (transition k r).uuid ≡ r.uuid
unfolding transition
transition-uuid WatchEventKind.live r = refl
transition-uuid WatchEventKind.pending r = refl
transition-uuid WatchEventKind.fetching r = refl
transition-uuid WatchEventKind.converting r = refl
transition-uuid WatchEventKind.completed r = refl
transition-uuid WatchEventKind.fetch_failed r = refl
transition-uuid WatchEventKind.conversion_failed r = refl

-- The record that an event finds or makes.
abbrev before : WatchRegistry → WatchEvent → ℕ → WatchRecord
before rs e now = elim (find e.uuid rs) [ none ↦ fresh e now | some r ↦ r ]

before-uuid : (rs : WatchRegistry) (e : WatchEvent) (now : ℕ) → (before rs e now).uuid ≡ e.uuid
before-uuid rs e now = elim (Option-cases (find e.uuid rs)) [
  | inl absent ↦ rw (absent, before) refl
  | inr (s, found) ↦ rw (found, before) (find-uuid e.uuid rs s found)
]

update-uuid :
    (rs : WatchRegistry) (e : WatchEvent) (now : ℕ) → (update e now (before rs e now)).uuid ≡ e.uuid
unfolding update
update-uuid rs e now = transition-uuid e.event _ ∙ before-uuid rs e now

oldest_terminal-ne-none :
    (rs : WatchRegistry) (j : Text) (r : WatchRecord)
    → find j rs ≡ some r
    → is_terminal r ≡ true
    → oldest_terminal rs ≢ none
unfolding find oldest_terminal
oldest_terminal-ne-none [] j r f t = absurd (ground arith)
oldest_terminal-ne-none (x ∷ rs) j r f t =
    ground (arith, f, t, oldest_terminal-ne-none rs j r, text_eq_iff x.uuid j)

evict-length :
    (rs : WatchRegistry) (j : Text) (r : WatchRecord)
    → IsRegistry rs
    → length rs ≤ max_recent_records + 1
    → find j rs ≡ some r
    → is_terminal r ≡ true
    → length (evict rs) ≤ max_recent_records
unfolding evict
evict-length rs j r h l f t = elim (Option-cases (oldest_terminal rs)) [
  | inl none' ↦ absurd (oldest_terminal-ne-none rs j r f t none')
  | inr (s, found) ↦
      let (g, _) = oldest_terminal-find rs s h found in
      ground (arith, found, l, remove-length s.uuid rs s g)
]

-- The registry between the event's update and the eviction.
abbrev updated : WatchRegistry → WatchEvent → ℕ → WatchRegistry
updated rs e now = store (update e now (before rs e now)) rs

updated-find :
    (rs : WatchRegistry) (e : WatchEvent) (now : ℕ) (j : Text)
    → text_eq e.uuid j ≡ false
    → find j (updated rs e now) ≡ find j rs
updated-find rs e now j other =
    find-store j (update e now (before rs e now)) rs ∙ rw (update-uuid rs e now) (rw other refl)

-- Where every uuid of a registry has one record, an event leaves each record of another uuid that is
-- not terminal as it is, also where it evicts.
pub apply-find :
    (rs : WatchRegistry) (e : WatchEvent) (now : ℕ) (j : Text) (r : WatchRecord)
    → IsRegistry rs
    → text_eq e.uuid j ≡ false
    → find j rs ≡ some r
    → is_terminal r ≡ false
    → find j (apply rs e now).0 ≡ some r
unfolding apply
apply-find rs e now j r h other f t = elim (Bool-cases (is_valid_uuid e.uuid)) [
  | inl valid ↦ rw valid (
      evict-find (updated rs e now) j r (store-IsRegistry (update e now (before rs e now)) rs h)
        (updated-find rs e now j other ∙ f) t)
  | inr invalid ↦ rw invalid f
]

-- Where every uuid of a registry has one record and there are 10000 of them at most, one of another
-- uuid than the event's being terminal, there are 10000 at most after the event.
pub apply-length :
    (rs : WatchRegistry) (e : WatchEvent) (now : ℕ) (j : Text) (r : WatchRecord)
    → IsRegistry rs
    → length rs ≤ max_recent_records
    → text_eq e.uuid j ≡ false
    → find j rs ≡ some r
    → is_terminal r ≡ true
    → length (apply rs e now).0 ≤ max_recent_records
unfolding apply
apply-length rs e now j r h l other f t = elim (Bool-cases (is_valid_uuid e.uuid)) [
  | inl valid ↦ rw valid (
      evict-length (updated rs e now) j r (store-IsRegistry (update e now (before rs e now)) rs h)
        (omega (arith, store-length (update e now (before rs e now)) rs))
        (updated-find rs e now j other ∙ f) t)
  | inr invalid ↦ rw invalid l
]
