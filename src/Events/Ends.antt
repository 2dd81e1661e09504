-- ===== src/Events/Ends.antt =====
-- The decoders of src/majsoul/events.rs for a win. The result is the state of
-- each loop.
use majsoulmanager.Prelude.{ℕ, List, [], ◌∷◌, ◌++◌, Option, none, some, false, ◌==◌, if◌then◌else◌}
use majsoulmanager.Prelude.Int.{pos}
use majsoulmanager.Prelude.Text.{Text}
use majsoulmanager.Proto.Errors.{Result, ok, err, no_opening_bracket, no_closing_bracket, ◌>>=◌}
use majsoulmanager.Proto.Fields.{Field, Flow, continue, for_fields, decode_packed_varints}
use majsoulmanager.Proto.Record.{is_arm}
use majsoulmanager.Proto.Text.{extract_string}
use majsoulmanager.Events.Tiles.{tile_str_to_mjai}
use majsoulmanager.Events.Types.{FanInfo, Meld, HuleInfo, Hule}
use majsoulmanager.Events.Reading.{read_u32, read_i32, read_bool, read_tile}

unfoldable pub fan_info_arm : FanInfo → Field → Result (Flow FanInfo)
fan_info_arm r f =
    if is_arm f 1 2
    then ok (continue (record r { name = extract_string f.payload }))
    else if is_arm f 2 0
    then (do v ← read_u32 f.payload; ok (continue (record r { val = v })))
    else if is_arm f 3 0
    then (do v ← read_u32 f.payload; ok (continue (record r { id = v })))
    else ok (continue r)

unfoldable pub parse_fan_info : List ℕ → Result FanInfo
unfolding fan_info_arm
parse_fan_info bytes = for_fields fan_info_arm (record { id = 0; name = []; val = 0 }) bytes

pub split_once : ℕ → Text → Option (Text × Text)
split_once c [] = none
split_once c (b ∷ bs) =
    let rest = split_once c bs in
    if b == c then some ([], bs) else elim rest [ none ↦ none | some p ↦ some (b ∷ p.0, p.1) ]

pub strip_suffix : ℕ → Text → Option Text
strip_suffix c [] = none
strip_suffix c (b ∷ []) = if b == c then some [] else none
strip_suffix c (b ∷ d ∷ bs) = elim (strip_suffix c (d ∷ bs)) [ none ↦ none | some t ↦ some (b ∷ t) ]

-- `split(c)`, which has one part more than there are separators.
pub split : ℕ → Text → List Text
split c [] = [] ∷ []
split c (b ∷ bs) =
    let rest = split c bs in
    if b == c then [] ∷ rest else elim rest [ [] ↦ [] | part ∷ parts ↦ (b ∷ part) ∷ parts ]

unfoldable pub tiles_to_mjai : List Text → Result (List Text)
tiles_to_mjai [] = ok []
tiles_to_mjai (t ∷ ts) = do tile ← tile_str_to_mjai t; tiles ← tiles_to_mjai ts; ok (tile ∷ tiles)

unfoldable pub parse_meld : Text → Result Meld
unfolding split_once strip_suffix split tiles_to_mjai
parse_meld value = elim (split_once b'(' value) [
  | none ↦ err no_opening_bracket
  | some (kind, rest) ↦ elim (strip_suffix b')' rest) [
    | none ↦ err no_closing_bracket
    | some tiles ↦ (do
      tiles' ← tiles_to_mjai (split b',' tiles)
      ok (record { kind = kind; tiles = tiles' }))
  ]
]

abbrev no_hule_info : HuleInfo
no_hule_info = record {
  seat = 0;
  zimo = false;
  hand = [];
  melds = [];
  hu_tile = [];
  fu = 0;
  point_rong = pos 0;
  point_zimo_qin = pos 0;
  point_zimo_xian = pos 0;
  han = 0;
  yiman = false;
  riichi = false;
  doras = [];
  ura_doras = [];
  yakus = [];
}

-- The arms of the texts and messages in a win.
unfoldable pub hule_info_text_arm : HuleInfo → Field → Result (Flow HuleInfo)
unfolding parse_meld parse_fan_info
hule_info_text_arm r f =
    if is_arm f 1 2
    then (do tile ← read_tile f.payload; ok (continue (record r { hand = r.hand ++ tile ∷ [] })))
    else if is_arm f 2 2
    then (do
      meld ← parse_meld (extract_string f.payload)
      ok (continue (record r { melds = r.melds ++ meld ∷ [] })))
    else if is_arm f 3 2
    then (do tile ← read_tile f.payload; ok (continue (record r { hu_tile = tile })))
    else if is_arm f 8 2
    then (do tile ← read_tile f.payload; ok (continue (record r { doras = r.doras ++ tile ∷ [] })))
    else if is_arm f 9 2
    then (do
      tile ← read_tile f.payload
      ok (continue (record r { ura_doras = r.ura_doras ++ tile ∷ [] })))
    else if is_arm f 12 2
    then (do
      fan ← parse_fan_info f.payload
      ok (continue (record r { yakus = r.yakus ++ fan ∷ [] })))
    else ok (continue r)

-- The arms of the points in a win, and those above.
unfoldable pub hule_info_point_arm : HuleInfo → Field → Result (Flow HuleInfo)
unfolding hule_info_text_arm
hule_info_point_arm r f =
    if is_arm f 11 0
    then (do v ← read_u32 f.payload; ok (continue (record r { han = v })))
    else if is_arm f 13 0
    then (do v ← read_u32 f.payload; ok (continue (record r { fu = v })))
    else if is_arm f 15 0
    then (do v ← read_i32 f.payload; ok (continue (record r { point_rong = v })))
    else if is_arm f 16 0
    then (do v ← read_i32 f.payload; ok (continue (record r { point_zimo_qin = v })))
    else if is_arm f 17 0
    then (do v ← read_i32 f.payload; ok (continue (record r { point_zimo_xian = v })))
    else hule_info_text_arm r f

-- The arms of the seat and the flags in a win, and those above.
unfoldable pub hule_info_arm : HuleInfo → Field → Result (Flow HuleInfo)
unfolding hule_info_point_arm
hule_info_arm r f =
    if is_arm f 4 0
    then (do v ← read_u32 f.payload; ok (continue (record r { seat = v })))
    else if is_arm f 5 0
    then (do v ← read_bool f.payload; ok (continue (record r { zimo = v })))
    else if is_arm f 7 0
    then (do v ← read_bool f.payload; ok (continue (record r { riichi = v })))
    else if is_arm f 10 0
    then (do v ← read_bool f.payload; ok (continue (record r { yiman = v })))
    else hule_info_point_arm r f

unfoldable pub parse_hule_info : List ℕ → Result HuleInfo
unfolding hule_info_arm
parse_hule_info bytes = for_fields hule_info_arm no_hule_info bytes

unfoldable pub hule_arm : Hule → Field → Result (Flow Hule)
unfolding parse_hule_info
hule_arm r f =
    if is_arm f 1 2
    then (do
      info ← parse_hule_info f.payload
      ok (continue (record r { hules = r.hules ++ info ∷ [] })))
    else if is_arm f 3 2
    then (do
      vs ← decode_packed_varints f.payload
      ok (continue (record r { delta_scores = r.delta_scores ++ vs })))
    else if is_arm f 3 0
    then (do
      v ← read_i32 f.payload
      ok (continue (record r { delta_scores = r.delta_scores ++ v ∷ [] })))
    else if is_arm f 5 2
    then (do
      vs ← decode_packed_varints f.payload
      ok (continue (record r { scores = r.scores ++ vs })))
    else if is_arm f 5 0
    then (do v ← read_i32 f.payload; ok (continue (record r { scores = r.scores ++ v ∷ [] })))
    else if is_arm f 7 2
    then (do tile ← read_tile f.payload; ok (continue (record r { doras = r.doras ++ tile ∷ [] })))
    else ok (continue r)

unfoldable pub parse_hule : List ℕ → Result Hule
unfolding hule_arm
parse_hule bytes =
    for_fields hule_arm (record { hules = []; delta_scores = []; scores = []; doras = [] }) bytes
