-- ===== src/Refetch/Queue.antt =====
-- The broker of src/refetch.rs against a queue that forgets a request when its waiter goes.
use majsoulmanager.Prelude.{
  ℕ, ◌+◌, ◌<◌, ◌≡◌, refl, sym, ap, ◌∙◌, Bool, false, ◌||◌, List, [], ◌∷◌, ◌++◌, Option, none, some,
  arith, ltb, ◌==◌, if◌then◌else◌, length, All, Bool-cases, inl, inr, Option-cases, ltb→lt,
}
use majsoulmanager.Prelude.Text.{Text}
use majsoulmanager.Refetch.Broker.{Request, fetch, claim, waiting}

-- What happens to a broker: a request, a waiter that goes (by timeout, or with its walk), and a
-- collector's claim.
pub data Event : Type 0 where
  requested : Text → Event
  given_up : ℕ → Event
  claimed : Event

-- The broker's queue, the channels whose waiters are gone, and the next channel.
pub record State : Type 0 where
  pub queue : List Request
  pub gone : List ℕ
  pub next : ℕ

abbrev is_gone : List ℕ → ℕ → Bool
is_gone [] c = false
is_gone (g ∷ gs) c = g == c || is_gone gs c

-- Only a channel that a fetch made has a waiter that can go.
pub step : Event → State → Option Request × State
unfolding fetch claim
step (Event.requested uuid) s =
    (none, record s { queue = fetch s.queue uuid s.next; next = s.next + 1 })
step (Event.given_up c) s =
    if ltb c s.next then (none, record s { gone = c ∷ s.gone }) else (none, s)
step Event.claimed s =
    (let answer = claim (is_gone s.gone) s.queue in (answer.0, record s { queue = answer.1 }))

pub run : List Event → State → List (Option Request)
unfolding step
run [] s = []
run (e ∷ es) s = (step e s).0 ∷ run es (step e s).1

-- The promise: a first-in first-out queue of the requests whose waiters are there.
pub record Promised : Type 0 where
  pub waiters : List Request
  pub next : ℕ

without : ℕ → List Request → List Request
without c [] = []
without c (r ∷ rs) = if r.answer == c then without c rs else r ∷ without c rs

promised_step : Event → Promised → Option Request × Promised
unfolding without
promised_step (Event.requested uuid) p = (
  none,
  record { waiters = p.waiters ++ record { uuid = uuid; answer = p.next } ∷ []; next = p.next + 1 },
)
promised_step (Event.given_up c) p =
    if ltb c p.next then (none, record p { waiters = without c p.waiters }) else (none, p)
promised_step Event.claimed p = elim p.waiters [
  | [] ↦ (none, p)
  | r ∷ rs ↦ (some r, record p { waiters = rs })
]

pub promised_run : List Event → Promised → List (Option Request)
unfolding promised_step
promised_run [] p = []
promised_run (e ∷ es) p = (promised_step e p).0 ∷ promised_run es (promised_step e p).1

present : List ℕ → List Request → List Request
present gone [] = []
present gone (r ∷ rs) =
    let rest = present gone rs in if is_gone gone r.answer then rest else r ∷ rest

present-fetch :
    (gone : List ℕ) (queue : List Request) (uuid : Text) (c : ℕ)
    → is_gone gone c ≡ false
    → present gone (fetch queue uuid c) ≡ fetch (present gone queue) uuid c
unfolding present fetch
present-fetch gone [] uuid c h = ground (arith, h)
present-fetch gone (r ∷ rs) uuid c h = ground (arith, present-fetch gone rs uuid c h)

present-give_up :
    (c : ℕ) (gone : List ℕ) (queue : List Request)
    → present (c ∷ gone) queue ≡ without c (present gone queue)
unfolding present without
present-give_up c gone [] = refl
present-give_up c gone (r ∷ rs) = ground (arith, present-give_up c gone rs)

present-claim :
    (gone : List ℕ) (queue : List Request)
    → present gone queue ≡ elim (claim (is_gone gone) queue).0 [
      | none ↦ []
      | some r ↦ r ∷ present gone (claim (is_gone gone) queue).1
    ]
unfolding present claim
present-claim gone [] = refl
present-claim gone (r ∷ rs) = ground (arith, present-claim gone rs)

waiting-length :
    (gone : List ℕ) (queue : List Request)
    → waiting (is_gone gone) queue ≡ length (present gone queue)
unfolding present waiting
waiting-length gone [] = refl
waiting-length gone (r ∷ rs) = ground (arith, waiting-length gone rs)

is_gone-fresh : (gone : List ℕ) (n : ℕ) → All (λ g. g < n) gone → is_gone gone n ≡ false
is_gone-fresh [] n h = refl
is_gone-fresh (g ∷ gs) n (l, h) = ground (arith, l, is_gone-fresh gs n h)

-- The broker's state and the promise agree on the requests whose waiters are there.
abbrev Agrees : State → Promised → Type 0
Agrees s p =
    (p.waiters ≡ present s.gone s.queue) × ((p.next ≡ s.next) × All (λ g. g < s.next) s.gone)

All-suc : (n : ℕ) (gone : List ℕ) → All (λ g. g < n) gone → All (λ g. g < n + 1) gone
All-suc n [] h = tt
All-suc n (g ∷ gs) (l, h) = (omega arith, All-suc n gs h)

fetched_lem :
    (queue : List Request) (uuid : Text) (c : ℕ)
    → fetch queue uuid c ≡ queue ++ record { uuid = uuid; answer = c } ∷ []
unfolding fetch
fetched_lem queue uuid c = refl

claim-none :
    (is_closed : ℕ → Bool) (queue : List Request)
    → (claim is_closed queue).0 ≡ none
    → (claim is_closed queue).1 ≡ []
unfolding claim
claim-none is_closed [] h = refl
claim-none is_closed (r ∷ rs) h = ground (arith, h, claim-none is_closed rs)

promised_empty : (p : Promised) → p.waiters ≡ [] → promised_step Event.claimed p ≡ (none, p)
unfolding promised_step
promised_empty p h = rw h refl

promised_head :
    (p : Promised) (r : Request) (rs : List Request)
    → p.waiters ≡ r ∷ rs
    → promised_step Event.claimed p ≡ (some r, record p { waiters = rs })
unfolding promised_step
promised_head p r rs h = rw h refl

present-empty : (gone : List ℕ) (queue : List Request) → queue ≡ [] → present gone queue ≡ []
unfolding present
present-empty gone queue h = rw h refl

step-Agrees :
    (e : Event) (s : State) (p : Promised)
    → Agrees s p
    → ((step e s).0 ≡ (promised_step e p).0) × Agrees (step e s).1 (promised_step e p).1
unfolding step promised_step
step-Agrees (Event.requested uuid) s p (w, (n, l)) =
    let added = present-fetch s.gone s.queue uuid s.next (is_gone-fresh s.gone s.next l) in
    (
      refl,
      (
        cc (added, w, n, fetched_lem (present s.gone s.queue) uuid s.next),
        (ap (λ x. x + 1) n, All-suc s.next s.gone l),
      ),
    )
step-Agrees (Event.given_up c) s p (w, (n, l)) = elim (Bool-cases (ltb c s.next)) [
  | inl issued ↦ rw issued (
      rw (ap (ltb c) n ∙ issued) (
        refl,
        (
          ap (without c) w ∙ sym (present-give_up c s.gone s.queue),
          (n, (ltb→lt c s.next issued, l)),
        ),
      ))
  | inr other ↦ rw other (rw (ap (ltb c) n ∙ other) (refl, (w, (n, l))))
]
step-Agrees Event.claimed s p (w, (n, l)) =
    let q = w ∙ present-claim s.gone s.queue in
    elim (Option-cases (claim (is_gone s.gone) s.queue).0) [
      | inl nothing ↦
          let w0 = rw nothing at q in
          rw (promised_empty p w0) (
            nothing,
            (
              w0 ∙ sym (present-empty s.gone _ (claim-none (is_gone s.gone) s.queue nothing)),
              (n, l),
            ),
          )
      | inr (r, answered) ↦
          let w1 = rw answered at q in
          rw (promised_head p r (present s.gone (claim (is_gone s.gone) s.queue).1) w1)
            (answered, (refl, (n, l)))
    ]

run-promised_run :
    (es : List Event) (s : State) (p : Promised) → Agrees s p → run es s ≡ promised_run es p
unfolding run promised_run
run-promised_run [] s p a = refl
run-promised_run (e ∷ es) s p a =
    let (same, after) = step-Agrees e s p a in
    cc (same, run-promised_run es (step e s).1 (promised_step e p).1 after)

abbrev pub new : State
new = record { queue = []; gone = []; next = 0 }

abbrev pub nobody : Promised
nobody = record { waiters = []; next = 0 }

-- From an empty broker, any sequence of requests, waiters that go and claims gives the claims the
-- answers of a first-in first-out queue that a request leaves with its waiter.
pub run-new : (es : List Event) → run es new ≡ promised_run es nobody
run-new es = run-promised_run es new nobody (unfold present in refl, (refl, tt))
