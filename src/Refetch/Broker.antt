-- ===== src/Refetch/Broker.antt =====
-- `RefetchBroker` of src/refetch.rs. A channel is a number; whether its waiter is gone is an
-- argument, since the channels are tokio's. The lock makes each operation one step; the wake-up
-- of an idle collector (`arrived`, `wait_for_work`) changes no state of the queue.
use majsoulmanager.Prelude.{ℕ, ◌+◌, Bool, List, [], ◌∷◌, ◌++◌, Option, none, some, if◌then◌else◌}
use majsoulmanager.Prelude.Text.{Text}

pub data RefetchError : Type 0 where
  unserved : RefetchError
  refused : Text → RefetchError

pub data FetchResult : Type 0 where
  ok : List ℕ → FetchResult
  err : RefetchError → FetchResult

pub record Request : Type 0 where
  pub uuid : Text
  pub answer : ℕ

-- How the wait for an answer ends: with one, with the sender dropped, or with the timeout.
pub data Wait : Type 0 where
  answered : FetchResult → Wait
  dropped timeout : Wait

unfoldable pub fetch : List Request → Text → ℕ → List Request
fetch queue uuid answer = queue ++ record { uuid = uuid; answer = answer } ∷ []

pub fetch_result : Wait → FetchResult
fetch_result (Wait.answered result) = result
fetch_result Wait.dropped = FetchResult.err RefetchError.unserved
fetch_result Wait.timeout = FetchResult.err RefetchError.unserved

unfoldable pub claim : (ℕ → Bool) → List Request → Option Request × List Request
claim is_closed [] = (none, [])
claim is_closed (request ∷ queue) =
    let rest = claim is_closed queue in
    if is_closed request.answer then rest else (some request, queue)

unfoldable pub waiting : (ℕ → Bool) → List Request → ℕ
waiting is_closed [] = 0
waiting is_closed (request ∷ queue) =
    if is_closed request.answer then waiting is_closed queue else waiting is_closed queue + 1
