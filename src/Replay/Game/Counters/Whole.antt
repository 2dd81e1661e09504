-- ===== src/Replay/Game/Counters/Whole.antt =====
-- The counters of every seat in what `replay` of src/replay.rs answers.
use majsoulmanager.Prelude.{
  ℕ, ◌+◌, ◌%◌, ◌^◌, ◌<◌, ◌≡◌, Bool, List, [], ◌∷◌, some, arith, inl, inr, All, length, subst,
  get_elem?, Option-cases,
}
use majsoulmanager.Prelude.Int.{ℤ}
use majsoulmanager.Prelude.Sort.{sort_by_key}
use majsoulmanager.Prelude.Text.{Text}
use majsoulmanager.Json.{Json}
use majsoulmanager.Replay.Stats.{SeatStats, new_seat, GameStats, State, modify, map_from}
use majsoulmanager.Replay.Reading.{value, unwrap_or, levels}
use majsoulmanager.Replay.Game.{
  indices, set_level, set_score, set_scores, set_placement, place, place_all, seated, first_state,
  finish, is_detailed, replay,
}
use majsoulmanager.Replay.Game.Answers.{replay_inv, finish-players}
use majsoulmanager.Replay.Game.Placement.{key_in}
use majsoulmanager.Replay.Game.Counters.{IsCounted, All-modify, All-map_from}
use majsoulmanager.Replay.Game.Counters.Events.{AllCounted, run-AllCounted}

new_seat-IsCounted : (seat : ℕ) (name : Text) → IsCounted 0 0 (new_seat seat name)
new_seat-IsCounted seat name = ground arith

set_level-IsCounted :
    (ids : List ℕ) (seat : ℕ) (s : SeatStats)
    → IsCounted 0 0 s
    → IsCounted 0 0 (set_level ids seat s)
unfolding set_level
set_level-IsCounted ids seat s c = elim (Option-cases (get_elem? ids seat)) [
  | inl absent ↦ rw (absent, set_level) c
  | inr (level, found) ↦ rw (found, set_level) (ground arith)
]

named-AllCounted :
    (j : Json) (i : ℕ) (names : List j.Value)
    → AllCounted 0 0
        (map_from i (λ seat name. new_seat (seat % 2 ^ 8) (unwrap_or (j.as_str name) [])) names)
unfolding map_from
named-AllCounted j i [] = tt
named-AllCounted j i (name ∷ names) = (new_seat-IsCounted _ _, named-AllCounted j (i + 1) names)

seated-AllCounted :
    (j : Json) (start : j.Value) (names : List j.Value) → AllCounted 0 0 (seated j start names)
unfolding seated
seated-AllCounted j start names =
    All-map_from (IsCounted 0 0) (IsCounted 0 0) 0 _ _
      (λ k s c. set_level-IsCounted (levels j start) k s c) (named-AllCounted j 0 names)

module _ (n d : ℕ) where
  set_scores-AllCounted :
      (scores : List ℤ) (players : List SeatStats)
      → AllCounted n d players
      → AllCounted n d (set_scores scores players)
  unfolding set_scores
  set_scores-AllCounted scores players h =
      All-map_from (IsCounted n d) (IsCounted n d) 0 (set_score scores) players
        (λ k s c. scored k s c) h
    where
      scored : (k : ℕ) (s : SeatStats) → IsCounted n d s → IsCounted n d (set_score scores k s)
      scored k s c = ground arith

  place-AllCounted :
      (rank : ℕ) (order : List ℕ) (players : List SeatStats)
      → AllCounted n d players
      → AllCounted n d (place rank order players)
  unfolding place
  place-AllCounted rank [] players h = h
  place-AllCounted rank (seat ∷ order) players h =
      place-AllCounted (rank + 1) order (modify seat (set_placement rank) players) (
        All-modify (IsCounted n d) (IsCounted n d) seat (set_placement rank) players (λ s c. c)
          (λ s c. placed s c) h)
    where
      placed : (s : SeatStats) → IsCounted n d s → IsCounted n d (set_placement rank s)
      placed s c = ground arith

  place_all-AllCounted :
      (players : List SeatStats) → AllCounted n d players → AllCounted n d (place_all players)
  unfolding place_all
  place_all-AllCounted players h =
      place-AllCounted 0 (sort_by_key (key_in players) (indices 0 (length players))) players h

  finish-AllCounted :
      (j : Json) (detailed : Bool) (st : State) (g : GameStats)
      → AllCounted n d st.players
      → finish j detailed st ≡ some g
      → AllCounted n d g.players
  finish-AllCounted j detailed st g h e =
      let (scores, same) = finish-players j detailed st g e in
      rw same (
        place_all-AllCounted (set_scores scores st.players)
          (set_scores-AllCounted scores st.players h))

-- Where replay answers statistics of fewer than 2 ^ 16 events, the counters of every seat agree: hands
-- as dealer are hands, wins by draw, after a call and after a riichi are wins, ippatsu and ura hits are
-- riichi wins, riichi deal-ins are deal-ins, every riichi was the first or a chasing one, and tenpai
-- draws are draws; and there are at most as many hands, wins, deal-ins, riichi and draws as events.
pub replay-IsCounted :
    (j : Json) (events : List j.Value) (g : GameStats)
    → replay j events ≡ value (some g)
    → length events < 2 ^ 16
    → All (IsCounted (length events) (length events)) g.players
replay-IsCounted j events g e small =
    let (start, names, st, ran, ended) = replay_inv j events g e in
    let h =
      run-AllCounted j (length names) events (first_state j (seated j start names)) 0 st
        (omega arith) (seated-AllCounted j start names) ran in
    let same : 0 + length events ≡ length events = omega arith in
    subst (λ (m : ℕ). All (IsCounted m m) g.players) same
      (finish-AllCounted _ _ j (is_detailed j events) st g h ended)
