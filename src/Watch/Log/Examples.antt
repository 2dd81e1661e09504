-- ===== src/Watch/Log/Examples.antt =====
-- A log with a secret that a message repeats.
use majsoulmanager.Prelude.{◌≡◌, refl, false, List, [], ◌∷◌, arith, All}
use majsoulmanager.Prelude.Text.{Text, codes}
use majsoulmanager.Watch.Log.{
  WatchLogEntry, WatchLogLevel, new, contains, redact, register_secret, entries_after, Step, run,
}
use majsoulmanager.Watch.Log.Redaction.{is_starless}
use majsoulmanager.Watch.Log.Secrets.{run-hides}
use majsoulmanager.Watch.Log.Order.{seqs, appended, numbers_from}
use majsoulmanager.Watch.Log.Polling.{seqs-entries_after-run}

abbrev secret : Text
secret = codes "hush1"

abbrev steps : List Step
steps =
    Step.appends 7 WatchLogLevel.warn (codes "auth") (codes "sent hush1, hush1")
    ∷ Step.registers (codes "hush")
    ∷ Step.appends 8 WatchLogLevel.info (codes "auth") (codes "hush1!")
    ∷ Step.appends 9 WatchLogLevel.info (codes "auth") (codes "done")
    ∷ []

redacted : redact (secret ∷ []) (codes "sent hush1, hush1") ≡ codes "sent ***, ***"
unfolding redact
redacted = refl

-- A secret that another begins with, registered first, leaves the rest of the other in the message.
partly_redacted : redact (codes "hush" ∷ secret ∷ []) (codes "sent hush1") ≡ codes "sent ***1"
unfolding redact
partly_redacted = refl

run-hides_example :
    All
      (λ (entry : WatchLogEntry). contains secret entry.message ≡ false)
      (run (register_secret new secret) steps).entries
unfolding is_starless
run-hides_example = run-hides new b'h' (codes "ush1") steps refl (omega arith) refl

seqs-entries_after-run_example : seqs (entries_after (run new steps) 1 10) ≡ 2 ∷ 3 ∷ []
unfolding numbers_from appended
seqs-entries_after-run_example = seqs-entries_after-run steps 1 10 (unfold appended in omega arith)
