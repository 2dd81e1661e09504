-- ===== src/Events/Turns.antt =====
-- The decoders of src/majsoul/events.rs for the opening of a round, the turns, the calls and the
-- abortive draw. The result is the state of each loop.
use majsoulmanager.Prelude.{
  ℕ, List, [], ◌∷◌, ◌++◌, none, some, false, ◌==◌, if◌then◌else◌, get_or, set, replicate, map,
}
use majsoulmanager.Prelude.Int.{ℤ, as_word}
use majsoulmanager.Proto.Errors.{Result, ok, ◌>>=◌}
use majsoulmanager.Proto.Fields.{Field, Flow, continue, for_fields, decode_packed_varints}
use majsoulmanager.Proto.Record.{is_arm, as_u32}
use majsoulmanager.Events.Types.{
  NewRound, DealTile, DiscardTile, ChiPengGangType, ChiPengGang, AnGangAddGangType, AnGangAddGang,
  LiuJu, BaBei,
}
use majsoulmanager.Events.Reading.{read_u32, read_i32, read_bool, read_tile}

abbrev no_round : NewRound
no_round = record {
  chang = 0;
  ju = 0;
  ben = 0;
  liqibang = 0;
  dora_marker = [];
  doras = [];
  scores = [];
  tiles = replicate 4 [];
}

-- `tiles[i].push(tile)`
unfoldable pub push_tile : NewRound → ℕ → List ℕ → Result (Flow NewRound)
push_tile r i payload = do
  tile ← read_tile payload
  ok (continue (record r { tiles = set r.tiles i (get_or r.tiles i [] ++ tile ∷ []) }))

-- The arms of the tiles in an opening.
unfoldable pub new_round_tile_arm : NewRound → Field → Result (Flow NewRound)
unfolding push_tile
new_round_tile_arm r f =
    if is_arm f 7 2
    then push_tile r 0 f.payload
    else if is_arm f 8 2
    then push_tile r 1 f.payload
    else if is_arm f 9 2
    then push_tile r 2 f.payload
    else if is_arm f 10 2
    then push_tile r 3 f.payload
    else if is_arm f 16 2
    then (do tile ← read_tile f.payload; ok (continue (record r { doras = r.doras ++ tile ∷ [] })))
    else ok (continue r)

-- The arms of the scores in an opening, and those above.
unfoldable pub new_round_score_arm : NewRound → Field → Result (Flow NewRound)
unfolding new_round_tile_arm
new_round_score_arm r f =
    if is_arm f 5 2
    then (do
      vs ← decode_packed_varints f.payload
      ok (continue (record r { scores = r.scores ++ vs })))
    else if is_arm f 5 0
    then (do v ← read_i32 f.payload; ok (continue (record r { scores = r.scores ++ v ∷ [] })))
    else new_round_tile_arm r f

-- The arms of the numbers in an opening, and those above.
unfoldable pub new_round_arm : NewRound → Field → Result (Flow NewRound)
unfolding new_round_score_arm
new_round_arm r f =
    if is_arm f 1 0
    then (do v ← read_u32 f.payload; ok (continue (record r { chang = v })))
    else if is_arm f 2 0
    then (do v ← read_u32 f.payload; ok (continue (record r { ju = v })))
    else if is_arm f 3 0
    then (do v ← read_u32 f.payload; ok (continue (record r { ben = v })))
    else if is_arm f 6 0
    then (do v ← read_u32 f.payload; ok (continue (record r { liqibang = v })))
    else new_round_score_arm r f

unfoldable pub parse_new_round : List ℕ → Result NewRound
unfolding new_round_arm
parse_new_round bytes = do
  r ← for_fields new_round_arm no_round bytes
  ok (record r { dora_marker = get_or r.doras 0 [] })

unfoldable pub deal_tile_arm : DealTile → Field → Result (Flow DealTile)
deal_tile_arm r f =
    if is_arm f 1 0
    then (do v ← read_u32 f.payload; ok (continue (record r { seat = v })))
    else if is_arm f 2 2
    then (do tile ← read_tile f.payload; ok (continue (record r { tile = tile })))
    else if is_arm f 6 2
    then (do tile ← read_tile f.payload; ok (continue (record r { doras = r.doras ++ tile ∷ [] })))
    else ok (continue r)

unfoldable pub parse_deal_tile : List ℕ → Result DealTile
unfolding deal_tile_arm
parse_deal_tile bytes = for_fields deal_tile_arm (record { seat = 0; tile = []; doras = [] }) bytes

unfoldable pub discard_tile_arm : DiscardTile → Field → Result (Flow DiscardTile)
discard_tile_arm r f =
    if is_arm f 1 0
    then (do v ← read_u32 f.payload; ok (continue (record r { seat = v })))
    else if is_arm f 2 2
    then (do tile ← read_tile f.payload; ok (continue (record r { tile = tile })))
    else if is_arm f 3 0
    then (do v ← read_bool f.payload; ok (continue (record r { is_liqi = v })))
    else if is_arm f 5 0
    then (do v ← read_bool f.payload; ok (continue (record r { moqie = v })))
    else if is_arm f 8 2
    then (do tile ← read_tile f.payload; ok (continue (record r { doras = r.doras ++ tile ∷ [] })))
    else if is_arm f 9 0
    then (do v ← read_bool f.payload; ok (continue (record r { is_wliqi = v })))
    else ok (continue r)

abbrev no_discard : DiscardTile
no_discard = record {
  seat = 0;
  tile = [];
  is_liqi = false;
  moqie = false;
  is_wliqi = false;
  doras = [];
}

unfoldable pub parse_discard_tile : List ℕ → Result DiscardTile
unfolding discard_tile_arm
parse_discard_tile bytes = for_fields discard_tile_arm no_discard bytes

-- An unknown number is read as a chi.
chi_peng_gang_type : ℕ → ChiPengGangType
chi_peng_gang_type t =
    if t == 1
    then ChiPengGangType.pon
    else if t == 2
    then ChiPengGangType.daiminkan
    else ChiPengGangType.chi

-- `v as u32` of an `i32`.
abbrev i32_as_u32 : ℤ → ℕ
i32_as_u32 v = as_u32 (as_word v)

unfoldable pub chi_peng_gang_arm : ChiPengGang → Field → Result (Flow ChiPengGang)
unfolding chi_peng_gang_type
chi_peng_gang_arm r f =
    if is_arm f 1 0
    then (do v ← read_u32 f.payload; ok (continue (record r { seat = v })))
    else if is_arm f 2 0
    then (do t ← read_u32 f.payload; ok (continue (record r { call_type = chi_peng_gang_type t })))
    else if is_arm f 3 2
    then (do tile ← read_tile f.payload; ok (continue (record r { tiles = r.tiles ++ tile ∷ [] })))
    else if is_arm f 4 2
    then (do
      vs ← decode_packed_varints f.payload
      ok (continue (record r { froms = r.froms ++ map i32_as_u32 vs })))
    else if is_arm f 4 0
    then (do v ← read_u32 f.payload; ok (continue (record r { froms = r.froms ++ v ∷ [] })))
    else ok (continue r)

unfoldable pub parse_chi_peng_gang : List ℕ → Result ChiPengGang
unfolding chi_peng_gang_arm
parse_chi_peng_gang bytes =
    for_fields chi_peng_gang_arm
      (record { seat = 0; call_type = ChiPengGangType.chi; tiles = []; froms = [] }) bytes

-- An unknown number is read as a concealed kan.
an_gang_add_gang_type : ℕ → AnGangAddGangType
an_gang_add_gang_type t = if t == 2 then AnGangAddGangType.kakan else AnGangAddGangType.ankan

unfoldable pub an_gang_add_gang_arm : AnGangAddGang → Field → Result (Flow AnGangAddGang)
unfolding an_gang_add_gang_type
an_gang_add_gang_arm r f =
    if is_arm f 1 0
    then (do v ← read_u32 f.payload; ok (continue (record r { seat = v })))
    else if is_arm f 2 0
    then (do
      t ← read_u32 f.payload
      ok (continue (record r { gang_type = an_gang_add_gang_type t })))
    else if is_arm f 3 2
    then (do tile ← read_tile f.payload; ok (continue (record r { tiles = tile })))
    else if is_arm f 6 2
    then (do tile ← read_tile f.payload; ok (continue (record r { doras = r.doras ++ tile ∷ [] })))
    else ok (continue r)

unfoldable pub parse_an_gang_add_gang : List ℕ → Result AnGangAddGang
unfolding an_gang_add_gang_arm
parse_an_gang_add_gang bytes =
    for_fields an_gang_add_gang_arm
      (record { seat = 0; gang_type = AnGangAddGangType.ankan; tiles = []; doras = [] }) bytes

unfoldable pub liu_ju_arm : LiuJu → Field → Result (Flow LiuJu)
liu_ju_arm r f =
    if is_arm f 1 0
    then (do v ← read_u32 f.payload; ok (continue (record r { liuju_type = v })))
    else if is_arm f 3 0
    then (do v ← read_u32 f.payload; ok (continue (record r { seat = some v })))
    else if is_arm f 4 2
    then (do tile ← read_tile f.payload; ok (continue (record r { tiles = r.tiles ++ tile ∷ [] })))
    else ok (continue r)

unfoldable pub parse_liu_ju : List ℕ → Result LiuJu
unfolding liu_ju_arm
parse_liu_ju bytes =
    for_fields liu_ju_arm (record { liuju_type = 0; seat = none; tiles = [] }) bytes

unfoldable pub babei_arm : BaBei → Field → Result (Flow BaBei)
babei_arm r f =
    if is_arm f 1 0
    then (do v ← read_u32 f.payload; ok (continue (record r { seat = v })))
    else if is_arm f 6 2
    then (do tile ← read_tile f.payload; ok (continue (record r { doras = r.doras ++ tile ∷ [] })))
    else if is_arm f 8 0
    then (do v ← read_bool f.payload; ok (continue (record r { moqie = v })))
    else ok (continue r)

unfoldable pub parse_babei : List ℕ → Result BaBei
unfolding babei_arm
parse_babei bytes = for_fields babei_arm (record { seat = 0; moqie = false; doras = [] }) bytes
