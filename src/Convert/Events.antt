-- ===== src/Convert/Events.antt =====
-- The `match event` of `events_to_mjai` in src/majsoul/convert.rs, and its helpers. What an event
-- pushes is the list that an arm answers.
use majsoulmanager.Prelude.{
  ℕ, ◌+◌, ◌-◌, ◌%◌, ◌^◌, ◌&&◌, ◌||◌, List, [], ◌∷◌, ◌++◌, Option, none, some, ltb, ◌==◌,
  if◌then◌else◌, length, take, drop, map, replicate,
}
use majsoulmanager.Prelude.Text.{Text, codes}
use majsoulmanager.Proto.Record.{is_empty}
use majsoulmanager.Events.Types.{
  NewRound, DealTile, DiscardTile, ChiPengGang, AnGangAddGangType, AnGangAddGang, FanInfo, HuleInfo,
  Hule, NoTile, LiuJu, BaBei, GameEvent,
}
use majsoulmanager.Convert.Types.{Body}

-- The variables of the loop, but for the clock and the output.
pub record Tracker : Type 0 where
  pub pending_reach : Option ℕ
  pub last_discarder : Option ℕ
  pub kan_pending_chankan : Option ℕ
  pub revealed_doras : List Text

abbrev pub no_tracker : Tracker
no_tracker = record {
  pending_reach = none;
  last_discarder = none;
  kan_pending_chankan = none;
  revealed_doras = [];
}

unfoldable pub last {ℓ} : {A : Type ℓ} → List A → Option A
last [] = none
last (x ∷ []) = some x
last (x ∷ y ∷ ys) = last (y ∷ ys)

abbrev unwrap_or {ℓ} : {A : Type ℓ} → Option A → A → A
unwrap_or none d = d
unwrap_or (some a) d = a

unfoldable pub called_from : List ℕ → ℕ → Option ℕ → ℕ
unfolding last
called_from froms seat last_discarder = unwrap_or (last froms) (unwrap_or last_discarder seat)

-- `push_new_doras`: the events, and `revealed` after it.
unfoldable pub new_doras : List Text → List Text → List Body
new_doras revealed face_up = map Body.dora (drop (length revealed) face_up)

unfoldable pub reveal : List Text → List Text → List Text
reveal revealed face_up = if ltb (length revealed) (length face_up) then face_up else revealed

-- On the UTF-8 bytes of the tile: the first character is '5' and the second is m, p or s. `chars[1]`
-- is there, since a tile that the decoder let through is no single character.
unfoldable pub generate_ankan_tiles : Text → List Text
generate_ankan_tiles [] = replicate 4 []
generate_ankan_tiles (c ∷ []) = replicate 4 (c ∷ [])
generate_ankan_tiles (c ∷ suit ∷ rest) =
    if c == b'5' && (suit == b'm' || suit == b'p' || suit == b's')
    then (b'5' ∷ suit ∷ b'r' ∷ []) ∷ replicate 3 (b'5' ∷ suit ∷ [])
    else replicate 4 (c ∷ suit ∷ rest)

-- `pending_reach.take()`
unfoldable pub accept : Option ℕ → List Body
accept none = []
accept (some actor) = Body.reach_accepted actor ∷ []

unfoldable pub wind : ℕ → Text
wind chang =
    if chang == 0
    then codes "E"
    else if chang == 1
    then codes "S"
    else if chang == 2
    then codes "W"
    else codes "N"

unfoldable pub reason : ℕ → Text
reason liuju_type =
    if liuju_type == 1
    then codes "yao9"
    else if liuju_type == 2
    then codes "kaze4"
    else if liuju_type == 3
    then codes "kan4"
    else if liuju_type == 4
    then codes "reach4"
    else if liuju_type == 5
    then codes "ron3"
    else codes "unknown"

unfoldable pub new_round : ℕ → Tracker → NewRound → List Body × Tracker
unfolding wind
new_round num_players t nr = (
  Body.start_kyoku (record {
    bakaze = wind nr.chang;
    dora_marker = nr.dora_marker;
    kyoku = (nr.ju + 1) % 2 ^ 32;
    honba = nr.ben;
    kyotaku = nr.liqibang;
    oya = nr.ju;
    scores = nr.scores;
    tehais = take num_players nr.tiles;
  })
      ∷ map Body.dora (drop 1 nr.doras),
  record t { pending_reach = none; revealed_doras = nr.doras },
)

unfoldable pub deal_tile : Tracker → DealTile → List Body × Tracker
unfolding accept new_doras reveal
deal_tile t dt = (
  accept t.pending_reach ++ (Body.tsumo dt.seat dt.tile ∷ new_doras t.revealed_doras dt.doras),
  record t { pending_reach = none; revealed_doras = reveal t.revealed_doras dt.doras },
)

unfoldable pub discard_tile : Tracker → DiscardTile → List Body × Tracker
unfolding new_doras reveal
discard_tile t dt =
    let cut = Body.dahai dt.seat dt.tile dt.moqie ∷ new_doras t.revealed_doras dt.doras in
    let t' : Tracker = record t {
      last_discarder = some dt.seat;
      kan_pending_chankan = none;
      revealed_doras = reveal t.revealed_doras dt.doras;
    } in
    if dt.is_liqi || dt.is_wliqi
    then (Body.reach dt.seat ∷ cut, record t' { pending_reach = some dt.seat })
    else (cut, t')

unfoldable pub chi_peng_gang : Tracker → ChiPengGang → List Body × Tracker
unfolding accept called_from last
chi_peng_gang t cpg = (
  accept t.pending_reach
      ++ Body.called cpg.call_type cpg.seat (called_from cpg.froms cpg.seat t.last_discarder)
          (unwrap_or (last cpg.tiles) []) (take (length cpg.tiles - 1) cpg.tiles)
        ∷ [],
  record t { pending_reach = none },
)

unfoldable pub kan : AnGangAddGangType → ℕ → Text → Body × Option ℕ
unfolding generate_ankan_tiles
kan AnGangAddGangType.kakan seat tiles = (Body.kakan seat tiles, some seat)
kan AnGangAddGangType.ankan seat tiles = (Body.ankan seat (generate_ankan_tiles tiles), none)

unfoldable pub an_gang_add_gang : Tracker → AnGangAddGang → List Body × Tracker
unfolding kan new_doras reveal
an_gang_add_gang t ag = (
  (kan ag.gang_type ag.seat ag.tiles).0 ∷ new_doras t.revealed_doras ag.doras,
  record t {
    kan_pending_chankan = (kan ag.gang_type ag.seat ag.tiles).1;
    revealed_doras = reveal t.revealed_doras ag.doras;
  },
)

-- Who dealt in: the seat with a kan that can be robbed, unless it won itself, or who discarded last.
unfoldable pub ron_target : Option ℕ → Option ℕ → ℕ → ℕ
ron_target none last_discarder winner = unwrap_or last_discarder 0
ron_target (some seat) last_discarder winner =
    if seat == winner then unwrap_or last_discarder 0 else seat

unfoldable pub hora : Tracker → Hule → HuleInfo → Body
unfolding ron_target
hora t h hule = Body.hora (record {
  actor = hule.seat;
  target =
      if hule.zimo then hule.seat else ron_target t.kan_pending_chankan t.last_discarder hule.seat;
  pai = hule.hu_tile;
  hora_tehais = hule.hand;
  hora_furos = hule.melds;
  fu = hule.fu;
  fan = hule.han;
  yakuman = hule.yiman;
  riichi = hule.riichi;
  dora_markers = if is_empty hule.doras then h.doras else hule.doras;
  uradora_markers = hule.ura_doras;
  yakus = map (λ (yaku : FanInfo). (yaku.name, yaku.val)) hule.yakus;
  yaku_ids = map (λ (yaku : FanInfo). yaku.id) hule.yakus;
  deltas = h.delta_scores;
  scores = h.scores;
  ron = hule.point_rong;
  tsumo_dealer = hule.point_zimo_qin;
  tsumo_non_dealer = hule.point_zimo_xian;
})

unfoldable pub hule : Tracker → Hule → List Body × Tracker
unfolding hora
hule t h = (map (hora t h) h.hules ++ Body.end_kyoku ∷ [], record t { pending_reach = none })

unfoldable pub no_tile : Tracker → NoTile → List Body × Tracker
unfolding accept
no_tile t nt = (
  accept t.pending_reach
      ++ (Body.ryukyoku nt.tenpai nt.liujumanguan nt.tenpai_hands nt.scores nt.delta_scores
          ∷ Body.end_kyoku
          ∷ []),
  record t { pending_reach = none },
)

unfoldable pub liu_ju : Tracker → LiuJu → List Body × Tracker
unfolding accept reason
liu_ju t lj = (
  accept t.pending_reach
      ++ (Body.abortive (reason lj.liuju_type) lj.seat lj.tiles ∷ Body.end_kyoku ∷ []),
  record t { pending_reach = none },
)

unfoldable pub ba_bei : Tracker → BaBei → List Body × Tracker
unfolding new_doras reveal
ba_bei t bb = (
  Body.nukidora bb.seat bb.moqie ∷ new_doras t.revealed_doras bb.doras,
  record t { revealed_doras = reveal t.revealed_doras bb.doras },
)

unfoldable pub translate : ℕ → Tracker → GameEvent → List Body × Tracker
translate num_players t (GameEvent.new_round nr) = new_round num_players t nr
translate num_players t (GameEvent.deal_tile dt) = deal_tile t dt
translate num_players t (GameEvent.discard_tile dt) = discard_tile t dt
translate num_players t (GameEvent.chi_peng_gang cpg) = chi_peng_gang t cpg
translate num_players t (GameEvent.an_gang_add_gang ag) = an_gang_add_gang t ag
translate num_players t (GameEvent.hule h) = hule t h
translate num_players t (GameEvent.no_tile nt) = no_tile t nt
translate num_players t (GameEvent.liu_ju lj) = liu_ju t lj
translate num_players t (GameEvent.ba_bei bb) = ba_bei t bb
