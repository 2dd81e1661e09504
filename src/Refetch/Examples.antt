-- ===== src/Refetch/Examples.antt =====
-- A broker with two requests, one of which nobody waits for when a collector claims.
use majsoulmanager.Prelude.{◌≡◌, List, [], ◌∷◌}
use majsoulmanager.Prelude.Text.{codes}
use majsoulmanager.Refetch.Queue.{Event, run, promised_run, new, nobody, run-new}

abbrev events : List Event
events =
    Event.requested (codes "a")
    ∷ Event.requested (codes "b")
    ∷ Event.given_up 0
    ∷ Event.claimed
    ∷ Event.claimed
    ∷ []

run-new_example : run events new ≡ promised_run events nobody
run-new_example = run-new events
