-- ===== src/Replay/Game/Answers.antt =====
-- What `replay` of src/replay.rs answers, as a statement on the answer alone.
use majsoulmanager.Prelude.{
  ℕ, zero, suc, ◌+◌, ◌^◌, ◌≤◌, ◌<◌, ◌≡◌, refl, sym, ap, ◌∙◌, Bool, List, [], ◌∷◌, some, arith, ltb,
  Bool-cases, Option-cases, inl, inr, All, length, replicate,
}
use majsoulmanager.Prelude.Int.{ℤ, pos}
use majsoulmanager.Prelude.Sort.{sort_by_key, All-sort_by_key}
use majsoulmanager.Json.{Json}
use majsoulmanager.Replay.Stats.{SeatStats, GameStats, State}
use majsoulmanager.Replay.Reading.{value, >>=-value, unwrap_or}
use majsoulmanager.Replay.Game.{
  score_of, indices, place_all, set_scores, run, first_state, seated, start_names, finish,
  is_detailed, replay,
}
use majsoulmanager.Replay.Game.Ranks.{less, has-sort, position-sort, sort-HasDistinct}
use majsoulmanager.Replay.Game.Placement.{
  placement_of, is_ahead, ahead_in, ahead, IsPlain, seat_key-lt, key_in, placement_of-place,
  score_of-place, length-place, indices-Separates, indices-HasDistinct, has-indices, less-le,
  length-indices,
}

place_all-rank :
    (players : List SeatStats) (s : ℕ)
    → length players ≤ 255
    → s < length players
    → placement_of (place_all players) s
      ≡ less (key_in players) (key_in players s) (indices 0 (length players)) + 1
unfolding place_all
place_all-rank players s small h =
    let key = key_in players in
    let seats = indices 0 (length players) in
    let distinct = indices-HasDistinct players 0 (length players) (omega arith) in
    let apart = indices-Separates players s 0 (length players) (omega arith) (omega arith) in
    let here = has-indices key s 0 (length players) (omega arith) (omega arith) in
    let placed =
      placement_of-place key 0 (sort_by_key key seats) players s h
        (sort-HasDistinct key seats distinct)
        (All-sort_by_key key (λ t. key t ≡ key s → t ≡ s) seats apart) in
    let index = position-sort key (key s) seats distinct here in
    let bound = less-le key (key s) seats in
    ground (
      arith,
      placed,
      index,
      bound,
      here,
      has-sort key (key s) seats,
      length-indices 0 (length players),
    )

All-score_of :
    (players : List SeatStats) (t : ℕ)
    → All (λ p. IsPlain p.final_score) players
    → IsPlain (score_of players t)
unfolding score_of
All-score_of [] t h = (omega arith, omega arith)
All-score_of (p ∷ players) zero (h, hs) = h
All-score_of (p ∷ players) (suc t) (h, hs) = All-score_of players t hs

less-ahead_in :
    (players : List SeatStats) (s from n : ℕ)
    → ((t : ℕ) → IsPlain (score_of players t))
    → s < 2 ^ 64
    → from + n ≤ 2 ^ 64
    → less (key_in players) (key_in players s) (indices from n)
      ≡ ahead_in players s (indices from n)
unfolding less ahead_in is_ahead indices
less-ahead_in players s from zero plain l m = refl
less-ahead_in players s from (suc n) plain l m = ground (
  arith,
  seat_key-lt (score_of players from) (score_of players s) from s (plain from) (plain s)
      (omega arith) l,
  less-ahead_in players s (from + 1) n plain l (omega arith),
)

ahead_in-cong :
    (a b : List SeatStats) (s : ℕ) (ts : List ℕ)
    → ((t : ℕ) → score_of a t ≡ score_of b t)
    → ahead_in a s ts ≡ ahead_in b s ts
unfolding ahead_in is_ahead
ahead_in-cong a b s [] same = refl
ahead_in-cong a b s (t ∷ ts) same = ground (arith, same t, same s, ahead_in-cong a b s ts same)

score_of-place_all :
    (players : List SeatStats) (t : ℕ) → score_of (place_all players) t ≡ score_of players t
unfolding place_all
score_of-place_all players t =
    score_of-place 0 (sort_by_key (key_in players) (indices 0 (length players))) players t

length-place_all : (players : List SeatStats) → length (place_all players) ≡ length players
unfolding place_all
length-place_all players =
    length-place 0 (sort_by_key (key_in players) (indices 0 (length players))) players

place_all-placement :
    (players : List SeatStats) (s : ℕ)
    → length players ≤ 255
    → All (λ p. IsPlain p.final_score) (place_all players)
    → s < length players
    → placement_of (place_all players) s ≡ ahead (place_all players) s + 1
unfolding ahead
place_all-placement players s small plain h =
    let plain_scores : (t : ℕ) → IsPlain (score_of players t) =
      λ t. rw (← score_of-place_all players t) (All-score_of (place_all players) t plain) in
    let counted =
      less-ahead_in players s 0 (length players) plain_scores (omega arith) (omega arith) in
    let kept =
      ahead_in-cong (place_all players) players s (indices 0 (length players))
        (score_of-place_all players) in
    place_all-rank players s small h ∙ ap (λ n. n + 1) (counted ∙ rw length-place_all (sym kept))

-- The players that an answer has: those of the loop, scored and placed.
pub finish-players :
    (j : Json) (detailed : Bool) (st : State) (g : GameStats)
    → finish j detailed st ≡ some g
    → (scores : List ℤ) × (g.players ≡ place_all (set_scores scores st.players))
unfolding finish
finish-players j detailed st g e = elim (Bool-cases st.started) [
  | inl started ↦
      (unwrap_or st.last_scores (replicate (length st.players) (pos 0)), ground (arith, started))
  | inr idle ↦ absurd (ground (arith, idle))
]

module _ (j : Json) (events : List j.Value) where
  -- A run that answers statistics has found a start and gone through the events.
  pub replay_inv :
      (g : GameStats)
      → replay j events ≡ value (some g)
      → (start : j.Value) × (names : List j.Value) × (st : State) × (run j
            (length names)
            (first_state j (seated j start names))
            events
          ≡ value st)
        × (finish j (is_detailed j events) st ≡ some g)
  unfolding replay
  replay_inv g e = elim (Option-cases (start_names j events)) [
    | inl absent ↦ absurd (let e' = rw (absent, replay) at e in ground (arith, e'))
    | inr ((start, names), found) ↦
        let e1 = rw (found, replay) at e in
        elim (Bool-cases (ltb (length names) 2)) [
          | inl few ↦ absurd (let e2 = rw few at e1 in ground (arith, e2))
          | inr enough ↦
              let e2 = rw enough at e1 in
              let (st, ran, ended) =
                >>=-value (run j (length names) (first_state j (seated j start names)) events) e2 in
              (start, names, st, ran, ground (arith, ended))
        ]
  ]

  -- Where replay answers statistics of 255 seats at most, with final scores that are `i32` above the
  -- least, the placement of each seat is one more than the number of seats ahead of it: those with a
  -- higher final score, and the lower seats with the same.
  pub replay-placement :
      (g : GameStats) (s : ℕ)
      → replay j events ≡ value (some g)
      → length g.players ≤ 255
      → All (λ p. IsPlain p.final_score) g.players
      → s < length g.players
      → placement_of g.players s ≡ ahead g.players s + 1
  replay-placement g s e small plain h =
      let (_, _, st, _, ended) = replay_inv g e in
      let (scores, placed) = finish-players j (is_detailed j events) st g ended in
      let players = set_scores scores st.players in
      let small' : length players ≤ 255 = rw (← length-place_all players, ← placed) small in
      let h' : s < length players = rw (← length-place_all players, ← placed) h in
      rw placed (place_all-placement players s small' (rw (← placed) plain) h')
