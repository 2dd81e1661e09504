-- ===== src/Watch/Log.antt =====
-- src/watch_log.rs: the log of the collectors, with its secrets. A text is its characters. The
-- capacity of the deque, the boot id and the locks are left out; `append` takes the time.
pub mod Redaction
pub mod Secrets
pub mod Order
pub mod Polling
pub mod Examples
use majsoulmanager.Prelude.{
  ℕ, zero, suc, ◌+◌, ◌-◌, ◌%◌, ◌^◌, Bool, true, false, not, ◌&&◌, ◌||◌, List, [], ◌∷◌, ◌++◌, ltb,
  leb, ◌==◌, if◌then◌else◌, length, take, drop,
}
use majsoulmanager.Prelude.Text.{Text, text_eq, starts_with}

abbrev pub watch_log_capacity : ℕ
watch_log_capacity = 500

abbrev pub max_message_chars : ℕ
max_message_chars = 2048

abbrev min_secret_chars : ℕ
min_secret_chars = 4

pub data WatchLogLevel : Type 0 where
  debug info warn error : WatchLogLevel

pub record WatchLogEntry : Type 0 where
  pub seq : ℕ
  pub timestamp : ℕ
  pub level : WatchLogLevel
  pub source : Text
  pub message : Text

-- The oldest entry is first.
pub record WatchLogBuffer : Type 0 where
  pub entries : List WatchLogEntry
  pub next_seq : ℕ
  pub secrets : List Text

abbrev pub new : WatchLogBuffer
new = record { entries = []; next_seq = 1; secrets = [] }

unfoldable pub contains : Text → Text → Bool
unfolding starts_with
contains pattern [] = starts_with [] pattern
contains pattern (x ∷ text) = starts_with (x ∷ text) pattern || contains pattern text

-- `str::replace` by "***", from the left; `skip` characters of the last occurrence are still to go.
unfoldable pub replace_from : Text → ℕ → Text → Text
unfolding starts_with
replace_from secret skip [] = []
replace_from secret (suc skip) (x ∷ text) = replace_from secret skip text
replace_from secret zero (x ∷ text) =
    if starts_with (x ∷ text) secret
    then b'*' ∷ b'*' ∷ b'*' ∷ replace_from secret (length secret - 1) text
    else x ∷ replace_from secret zero text

unfoldable pub redact : List Text → Text → Text
unfolding contains replace_from
redact [] message = message
redact (secret ∷ secrets) message =
    redact secrets (if contains secret message then replace_from secret 0 message else message)

unfoldable pub is_known : Text → List Text → Bool
is_known secret [] = false
is_known secret (known ∷ secrets) = text_eq known secret || is_known secret secrets

unfoldable pub register_secret : WatchLogBuffer → Text → WatchLogBuffer
unfolding is_known
register_secret log secret =
    if ltb (length secret) min_secret_chars
    then log
    else if is_known secret log.secrets
    then log
    else record log { secrets = log.secrets ++ secret ∷ [] }

-- `pop_front` at capacity.
unfoldable pub make_room : List WatchLogEntry → List WatchLogEntry
make_room entries = if length entries == watch_log_capacity then drop 1 entries else entries

unfoldable pub append : WatchLogBuffer → ℕ → WatchLogLevel → Text → Text → WatchLogBuffer
unfolding redact make_room
append log now level source message = record log {
  next_seq = (log.next_seq + 1) % 2 ^ 64;
  entries =
      make_room log.entries
      ++ record {
        seq = log.next_seq;
        timestamp = now;
        level = level;
        source = source;
        message = take max_message_chars (redact log.secrets message);
      }
        ∷ [];
}

-- `partition_point`, of entries where those that the test holds for come first.
unfoldable pub partition_point : ℕ → List WatchLogEntry → ℕ
partition_point after [] = 0
partition_point after (entry ∷ entries) =
    let rest = partition_point after entries in if leb entry.seq after then suc rest else 0

unfoldable pub entries_after : WatchLogBuffer → ℕ → ℕ → List WatchLogEntry
unfolding partition_point
entries_after log after limit = take limit (drop (partition_point after log.entries) log.entries)

-- What the callers do with a log.
pub data Step : Type 0 where
  registers : Text → Step
  appends : ℕ → WatchLogLevel → Text → Text → Step

unfoldable pub step : WatchLogBuffer → Step → WatchLogBuffer
step log (Step.registers secret) = register_secret log secret
step log (Step.appends now level source message) = append log now level source message

unfoldable pub run : WatchLogBuffer → List Step → WatchLogBuffer
unfolding step
run log [] = log
run log (s ∷ steps) = run (step log s) steps
