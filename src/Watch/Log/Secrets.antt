-- ===== src/Watch/Log/Secrets.antt =====
-- What src/watch_log.rs promises of the secrets: no message that it keeps has one.
use majsoulmanager.Prelude.{
  ℕ, ◌≤◌, ◌≡◌, sym, subst, true, false, List, [], ◌∷◌, ◌++◌, arith, inl, inr, All, length, take,
  All-append, Bool-cases, ◌==◌,
}
use majsoulmanager.Prelude.Text.{Text, text_eq_iff}
use majsoulmanager.Watch.Log.Redaction.{is_starless, contains-take, redact-known}
use majsoulmanager.Watch.Log.{
  WatchLogEntry, WatchLogBuffer, contains, redact, is_known, max_message_chars, watch_log_capacity,
  register_secret, make_room, append, Step, step, run,
}

is_known-append :
    (secret : Text) (secrets more : List Text)
    → is_known secret secrets ≡ true
    → is_known secret (secrets ++ more) ≡ true
unfolding is_known
is_known-append secret [] more k = ground arith
is_known-append secret (known ∷ secrets) more k =
    ground (arith, is_known-append secret secrets more)

is_known-last :
    (secret : Text) (secrets : List Text) → is_known secret (secrets ++ secret ∷ []) ≡ true
unfolding is_known
is_known-last secret [] = ground (arith, text_eq_iff secret secret)
is_known-last secret (known ∷ secrets) = ground (arith, is_known-last secret secrets)

register_secret-known :
    (log : WatchLogBuffer) (secret : Text)
    → 4 ≤ length secret
    → is_known secret (register_secret log secret).secrets ≡ true
unfolding register_secret
register_secret-known log secret h = ground (arith, is_known-last secret log.secrets)

register_secret-keeps :
    (log : WatchLogBuffer) (secret known : Text)
    → is_known known log.secrets ≡ true
    → is_known known (register_secret log secret).secrets ≡ true
unfolding register_secret
register_secret-keeps log secret known k =
    ground (arith, is_known-append known log.secrets (secret ∷ []))

register_secret-entries :
    (log : WatchLogBuffer) (secret : Text) → (register_secret log secret).entries ≡ log.entries
unfolding register_secret
register_secret-entries log secret = ground arith

module _ (c : ℕ) (pattern : Text) (starless : is_starless (c ∷ pattern) ≡ true) where
  abbrev Without : WatchLogEntry → Type 0
  Without entry = contains (c ∷ pattern) entry.message ≡ false

  -- The secret is registered, and no entry has it.
  abbrev Kept : WatchLogBuffer → Type 0
  Kept log = (is_known (c ∷ pattern) log.secrets ≡ true) × All Without log.entries

  make_room-Without :
      (entries : List WatchLogEntry) → All Without entries → All Without (make_room entries)
  unfolding make_room
  make_room-Without [] a = tt
  make_room-Without (e ∷ entries) (h, a) =
      elim (Bool-cases (length (e ∷ entries) == watch_log_capacity)) [
        | inl full ↦ rw (full, make_room) a
        | inr room ↦ rw (room, make_room) (h, a)
      ]

  secret_gone :
      (n : ℕ) (secrets : List Text) (message : Text)
      → is_known (c ∷ pattern) secrets ≡ true
      → contains (c ∷ pattern) (take n (redact secrets message)) ≡ false
  secret_gone n secrets message known = ground (
    arith,
    contains-take n c pattern (redact secrets message),
    redact-known c pattern secrets message starless known,
  )

  step-Kept : (log : WatchLogBuffer) (s : Step) → Kept log → Kept (step log s)
  unfolding step append register_secret
  step-Kept log (Step.registers secret) (known, a) = (
    register_secret-keeps log secret (c ∷ pattern) known,
    subst (All Without) (sym (register_secret-entries log secret)) a,
  )
  step-Kept log (Step.appends now level source message) (known, a) = (
    known,
    All-append Without (make_room log.entries) _ (make_room-Without log.entries a)
        (secret_gone max_message_chars log.secrets message known, tt),
  )

  run-Kept : (log : WatchLogBuffer) (steps : List Step) → Kept log → Kept (run log steps)
  unfolding run
  run-Kept log [] k = k
  run-Kept log (s ∷ steps) k = run-Kept (step log s) steps (step-Kept log s k)

no_entries :
    (P : WatchLogEntry → Type 0) (log : WatchLogBuffer) → log.entries ≡ [] → All P log.entries
no_entries P log h = rw h tt

-- Once a secret of four characters at least, none of them a star, is registered with a log without
-- entries, no message that the log holds has it, whatever is registered and appended afterwards.
pub run-hides :
    (log : WatchLogBuffer) (c : ℕ) (pattern : Text) (steps : List Step)
    → log.entries ≡ []
    → 4 ≤ length (c ∷ pattern)
    → is_starless (c ∷ pattern) ≡ true
    → All
        (λ (entry : WatchLogEntry). contains (c ∷ pattern) entry.message ≡ false)
        (run (register_secret log (c ∷ pattern)) steps).entries
run-hides log c pattern steps empty long starless =
    (run-Kept c pattern starless (register_secret log (c ∷ pattern)) steps (
      register_secret-known log (c ∷ pattern) long,
      subst (All (Without c pattern starless)) (sym (register_secret-entries log (c ∷ pattern)))
          (no_entries (Without c pattern starless) log empty),
    )).1
