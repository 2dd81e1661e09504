-- ===== src/Replay/Game/Counters/Events.antt =====
-- The counters of every seat agree with one another through a game.
use majsoulmanager.Prelude.{
  ℕ, suc, ◌+◌, ◌^◌, ◌<◌, ◌≡◌, Bool, true, false, List, [], ◌∷◌, Option, none, arith, ◌==◌,
  if◌then◌else◌, Bool-cases, Option-cases, inl, inr, All, length, get_or, get_elem?, subst,
}
use majsoulmanager.Prelude.Int.{ℤ}
use majsoulmanager.Prelude.Text.{codes}
use majsoulmanager.Json.{Json}
use majsoulmanager.Replay.Stats.{EventKind, SeatStats, State, modify}
use majsoulmanager.Replay.Reading.{
  value, >>=-value, unwrap_or, seat_of, settlement, or_else, int_array, and_then,
}
use majsoulmanager.Replay.Hands.{
  is_some, count_some, count_riichi, start_kyoku, tsumo, dahai, reach_accepted, call, ryukyoku,
  end_kyoku,
}
use majsoulmanager.Replay.Wins.{count_deal_in, look, win, settle_win, hora, end_game}
use majsoulmanager.Replay.Game.{EventKind, event_kind, arm, step, run}
use majsoulmanager.Replay.Game.Counters.{
  IsCounted, All-modify, All-map_from, All-mono, grown, grown_wins, grown_deal_ins,
  count_chased_lem, count_hand_lem, count_riichi_win_le, count_gain_lem, count_fan_lem,
  count_settlement_lem, count_deal_lem, count_riichi_lem, count_draw_lem, count_win_lem,
  count_win_room, count_deal_in_lem,
}

value-inj {ℓ} : {A : Type ℓ} {a b : A} → value a ≡ value b → a ≡ b
value-inj e = cc

at_value :
    (n d : ℕ) {a b : State}
    → value a ≡ value b
    → All (IsCounted n d) a.players
    → All (IsCounted n d) b.players
at_value n d e h = subst (λ (t : State). All (IsCounted n d) t.players) (value-inj e) h

abbrev pub AllCounted : ℕ → ℕ → List SeatStats → Type 0
AllCounted n d players = All (IsCounted n d) players

module _ (j : Json) (seats : ℕ) (st : State) (event : j.Value) (n : ℕ) (small : n + 1 < 2 ^ 16)
    (h : AllCounted n n st.players) where
  start_kyoku-AllCounted : AllCounted (n + 1) (n + 1) (start_kyoku j seats st event).players
  unfolding start_kyoku
  start_kyoku-AllCounted =
      All-map_from (IsCounted n n) (IsCounted (n + 1) (n + 1)) 0 _ st.players
        (λ k s c. grown_deal_ins (count_deal_lem c small _ _)) h

  same-AllCounted : AllCounted (n + 1) (n + 1) st.players
  same-AllCounted =
      All-mono (IsCounted n n) (IsCounted (n + 1) (n + 1)) st.players (λ s c. grown c) h

  tsumo-AllCounted : AllCounted (n + 1) (n + 1) (tsumo j seats st event).players
  unfolding tsumo
  tsumo-AllCounted = elim (Option-cases (seat_of j event (codes "actor") seats)) [
    | inl absent ↦ rw (absent, tsumo) same-AllCounted
    | inr (seat, found) ↦ rw (found, tsumo) same-AllCounted
  ]

  ryukyoku-AllCounted : AllCounted (n + 1) (n + 1) (ryukyoku j seats st event).players
  unfolding ryukyoku
  ryukyoku-AllCounted =
      All-map_from (IsCounted n n) (IsCounted (n + 1) (n + 1)) 0 _ st.players
        (λ k s c. grown_deal_ins (count_draw_lem c small _)) h

  end_kyoku-AllCounted : AllCounted (n + 1) (n + 1) (end_kyoku j seats st event).players
  unfolding end_kyoku
  end_kyoku-AllCounted = elim (Bool-cases st.started) [
    | inl on ↦ rw on (
        All-map_from (IsCounted n n) (IsCounted (n + 1) (n + 1)) 0 _ st.players
          (λ k s c. grown (count_hand_lem c _ _ _)) h)
    | inr off ↦ rw off same-AllCounted
  ]

  dahai-AllCounted : AllCounted (n + 1) (n + 1) (dahai j seats st event).players
  unfolding dahai
  dahai-AllCounted = elim (Option-cases (seat_of j event (codes "actor") seats)) [
    | inl absent ↦ rw (absent, dahai) same-AllCounted
    | inr (seat, found) ↦
        rw (found, dahai)
          (elim (Bool-cases (is_some (get_or st.hand.riichi_turn seat none))) [
            | inl on ↦ rw on same-AllCounted
            | inr off ↦ rw off same-AllCounted
          ])
  ]

  call-AllCounted : AllCounted (n + 1) (n + 1) (call j seats st event).players
  unfolding call
  call-AllCounted = same-AllCounted

  riichi-AllCounted :
      (seat : ℕ)
      → AllCounted (n + 1) (n + 1) (
          modify seat
            (count_riichi (count_some st.hand.riichi_turn) (get_or st.hand.turns seat 0))
            st.players)
  riichi-AllCounted seat =
      All-modify (IsCounted n n) (IsCounted (n + 1) (n + 1)) seat _ st.players (λ s c. grown c)
        (λ s c. grown_deal_ins (count_riichi_lem c small _ _)) h

  reach_accepted-AllCounted : AllCounted (n + 1) (n + 1) (reach_accepted j seats st event).players
  unfolding reach_accepted
  reach_accepted-AllCounted = elim (Option-cases (seat_of j event (codes "actor") seats)) [
    | inl absent ↦ rw (absent, reach_accepted) same-AllCounted
    | inr (seat, found) ↦
        rw (found, reach_accepted)
          (elim (Bool-cases (is_some (get_or st.hand.riichi_turn seat none))) [
            | inl on ↦ rw on same-AllCounted
            | inr off ↦ rw off (elim (Bool-cases (count_some st.hand.riichi_turn == 0)) [
              | inl first ↦ rw first (riichi-AllCounted seat)
              | inr later ↦ rw later (
                  All-map_from (IsCounted (n + 1) (n + 1)) (IsCounted (n + 1) (n + 1)) 0 _ _
                    (λ k s c. count_chased_lem c _) (riichi-AllCounted seat))
            ])
          ])
  ]

  end_game-AllCounted :
      (st' : State) → end_game j seats st event ≡ value st' → AllCounted (n + 1) (n + 1) st'.players
  unfolding end_game
  end_game-AllCounted st' e =
      let (results, _, e') = >>=-value (settlement j event) e in
      at_value (n + 1) (n + 1) e' (
        All-map_from (IsCounted n n) (IsCounted (n + 1) (n + 1)) 0 _ st.players
          (λ k s c. grown (count_settlement_lem c _)) h)

  win-IsCounted :
      (actor target : ℕ) (deltas : Option (List ℤ)) (declared ura : Bool) (s : SeatStats)
      → IsCounted n n s
      → IsCounted (n + 1) n (win j seats st event actor target deltas declared ura s)
  unfolding win
  win-IsCounted actor target deltas false ura s c = count_gain_lem (count_win_lem c small _ _ _) _ _
  win-IsCounted actor target deltas true ura s c =
      let won =
        count_win_lem c small (get_or st.hand.turns actor 0) (target == actor)
          (get_or st.hand.called actor false) in
      count_gain_lem
        (count_riichi_win_le won _ _
          (count_win_room c small (get_or st.hand.turns actor 0) (target == actor)
            (get_or st.hand.called actor false))
          small)
        _ _

  win-AllCounted :
      (actor target : ℕ) (deltas : Option (List ℤ)) (declared ura : Bool)
      → AllCounted
          (n + 1)
          n
          (modify actor (win j seats st event actor target deltas declared ura) st.players)
  win-AllCounted actor target deltas declared ura =
      All-modify (IsCounted n n) (IsCounted (n + 1) n) actor _ st.players (λ s c. grown_wins c)
        (win-IsCounted actor target deltas declared ura) h

  settle_win-AllCounted :
      (actor target : ℕ) (deltas : Option (List ℤ)) (players : List SeatStats)
      → AllCounted (n + 1) n players
      → AllCounted (n + 1) (n + 1) (settle_win j seats st event actor target deltas players)
  unfolding settle_win
  settle_win-AllCounted actor target deltas players g =
      All-modify (IsCounted (n + 1) (n + 1)) (IsCounted (n + 1) (n + 1)) actor _ _ (λ s c. c)
        (λ s c. count_fan_lem c _ _) paid
    where
      paid : AllCounted (n + 1) (n + 1) (
          if target == actor
          then players
          else modify target
              (count_deal_in
                (is_some (get_or st.hand.riichi_turn target none))
                (and_then deltas (λ d. get_elem? d target)))
              players)
      paid = elim (Bool-cases (target == actor)) [
        | inl drawn ↦ rw drawn (
            All-mono (IsCounted (n + 1) n) (IsCounted (n + 1) (n + 1)) players
              (λ s c. grown_deal_ins c) g)
        | inr dealt ↦ rw dealt (
            All-modify (IsCounted (n + 1) n) (IsCounted (n + 1) (n + 1)) target _ players
              (λ s c. grown_deal_ins c) (λ s c. count_deal_in_lem c _ _ small) g)
      ]

  hora-AllCounted :
      (st' : State) → hora j seats st event ≡ value st' → AllCounted (n + 1) (n + 1) st'.players
  unfolding hora
  hora-AllCounted st' e = elim (Option-cases (seat_of j event (codes "actor") seats)) [
    | inl absent ↦ at_value (n + 1) (n + 1) (rw (absent, hora) at e) same-AllCounted
    | inr (actor, found) ↦
        let e1 = rw (found, hora) at e in
        let declared = is_some (get_or st.hand.riichi_turn actor none) in
        let (ura, _, e2) = >>=-value (look j seats st event declared) e1 in
        let target = unwrap_or (seat_of j event (codes "target") seats) actor in
        let deltas = or_else (int_array j (j.get event (codes "deltas"))) st.hand.deltas in
        at_value (n + 1) (n + 1) e2 (
          settle_win-AllCounted actor target deltas _
            (win-AllCounted actor target deltas declared ura))
  ]

module _ (j : Json) (seats : ℕ) where
  arm-AllCounted :
      (k : EventKind) (st : State) (event : j.Value) (n : ℕ) (st' : State)
      → n + 1 < 2 ^ 16
      → AllCounted n n st.players
      → arm j k seats st event ≡ value st'
      → AllCounted (n + 1) (n + 1) st'.players
  unfolding arm
  arm-AllCounted EventKind.start_kyoku st event n st' small h e =
      at_value (n + 1) (n + 1) e (start_kyoku-AllCounted j seats st event n small h)
  arm-AllCounted EventKind.tsumo st event n st' small h e =
      at_value (n + 1) (n + 1) e (tsumo-AllCounted j seats st event n small h)
  arm-AllCounted EventKind.dahai st event n st' small h e =
      at_value (n + 1) (n + 1) e (dahai-AllCounted j seats st event n small h)
  arm-AllCounted EventKind.reach_accepted st event n st' small h e =
      at_value (n + 1) (n + 1) e (reach_accepted-AllCounted j seats st event n small h)
  arm-AllCounted EventKind.call st event n st' small h e =
      at_value (n + 1) (n + 1) e (call-AllCounted j seats st event n small h)
  arm-AllCounted EventKind.ryukyoku st event n st' small h e =
      at_value (n + 1) (n + 1) e (ryukyoku-AllCounted j seats st event n small h)
  arm-AllCounted EventKind.end_kyoku st event n st' small h e =
      at_value (n + 1) (n + 1) e (end_kyoku-AllCounted j seats st event n small h)
  arm-AllCounted EventKind.other st event n st' small h e =
      at_value (n + 1) (n + 1) e (same-AllCounted j seats st event n small h)
  arm-AllCounted EventKind.hora st event n st' small h e =
      hora-AllCounted j seats st event n small h st' e
  arm-AllCounted EventKind.end_game st event n st' small h e =
      end_game-AllCounted j seats st event n small h st' e

  pub run-AllCounted :
      (events : List j.Value) (st : State) (n : ℕ) (st' : State)
      → n + length events < 2 ^ 16
      → AllCounted n n st.players
      → run j seats st events ≡ value st'
      → AllCounted (n + length events) (n + length events) st'.players
  unfolding run step
  run-AllCounted [] st n st' small h e =
      let same : n ≡ n + 0 = omega arith in
      subst (λ (m : ℕ). AllCounted m m st'.players) same (at_value n n e h)
  run-AllCounted (event ∷ events) st n st' small h e =
      let (st1, first, rest) = >>=-value (step j seats st event) e in
      let ih =
        run-AllCounted events st1 (n + 1) st' (omega arith)
          (arm-AllCounted (event_kind j event) st event n st1 (omega arith) h first) rest in
      let same : n + 1 + length events ≡ n + suc (length events) = omega arith in
      subst (λ (m : ℕ). AllCounted m m st'.players) same ih
