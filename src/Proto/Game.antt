-- ===== src/Proto/Game.antt =====
-- `decode_game_record` of src/majsoul/proto.rs, with the loops inside it, and the two formats of
-- the action list.
pub mod Total
pub mod Written
pub mod RoundTrip
use majsoulmanager.Prelude.{
  ℕ, ◌%◌, ◌^◌, Bool, true, false, ◌&&◌, not, List, [], ◌∷◌, ◌++◌, Option, none, some, ltb, leb,
  ◌==◌, if◌then◌else◌, map,
}
use majsoulmanager.Prelude.Int.{ℤ, pos}
use majsoulmanager.Prelude.Sort.{sort_by_key}
use majsoulmanager.Proto.Errors.{Result, ok, err, record_error, ◌>>=◌}
use majsoulmanager.Proto.Fields.{Field, Flow, continue, return, for_fields, extract_varint}
use majsoulmanager.Proto.Text.{extract_string}
use majsoulmanager.Proto.Record.{
  RecordAction, PlayerResult, PlayerAccountMeta, decode_wrapper, decode_player_result,
  decode_player_account, decode_config_mode_id, is_arm, is_empty, as_u32,
}

pub record GameRecord : Type 0 where
  pub uuid : List ℕ
  pub start_time : ℕ
  pub end_time : ℕ
  pub mode_id : ℤ
  pub player_names : List (List ℕ)
  pub player_accounts : List PlayerAccountMeta
  pub result : List PlayerResult
  pub records : List RecordAction

-- The local variables that the first loop of `decode_game_record` fills.
pub record Parts : Type 0 where
  pub uuid : List ℕ
  pub start_time : ℕ
  pub end_time : ℕ
  pub mode_id : ℤ
  pub accounts : List PlayerAccountMeta
  pub result : List PlayerResult
  pub compressed : Option (List ℕ)

abbrev pub no_parts : Parts
no_parts = record {
  uuid = [];
  start_time = 0;
  end_time = 0;
  mode_id = pos 0;
  accounts = [];
  result = [];
  compressed = none;
}

-- The loop over an error message; the state is not used.
pub error_arm : Unit {0} → Field → Result (Flow (Unit {0}))
error_arm u f =
    if is_arm f 1 0
    then (do
      code ← extract_varint f.payload
      if code == 0 then ok (continue u) else err (record_error code))
    else ok (continue u)

-- The loop over a `GameEndResult`.
pub end_result_arm : List PlayerResult → Field → Result (Flow (List PlayerResult))
end_result_arm result f =
    if is_arm f 1 2
    then (do r ← decode_player_result f.payload; ok (continue (result ++ r ∷ [])))
    else ok (continue result)

-- The loop over the head.
pub head_arm : Parts → Field → Result (Flow Parts)
unfolding end_result_arm
head_arm p f =
    if is_arm f 1 2
    then ok (continue (record p { uuid = extract_string f.payload }))
    else if is_arm f 2 0
    then (do v ← extract_varint f.payload; ok (continue (record p { start_time = as_u32 v })))
    else if is_arm f 3 0
    then (do v ← extract_varint f.payload; ok (continue (record p { end_time = as_u32 v })))
    else if is_arm f 5 2
    then (do mode ← decode_config_mode_id f.payload; ok (continue (record p { mode_id = mode })))
    else if is_arm f 11 2
    then (do
      account ← decode_player_account f.payload
      ok (continue (record p { accounts = p.accounts ++ account ∷ [] })))
    else if is_arm f 12 2
    then (do
      result ← for_fields end_result_arm p.result f.payload
      ok (continue (record p { result = result })))
    else ok (continue p)

-- The loop over the whole record.
pub record_arm : Parts → Field → Result (Flow Parts)
unfolding error_arm head_arm
record_arm p f =
    if is_arm f 1 2 && not (is_empty f.payload)
    then (do u ← for_fields error_arm tt f.payload; ok (continue p))
    else if is_arm f 3 2
    then (do p' ← for_fields head_arm p f.payload; ok (continue p'))
    else if is_arm f 4 2
    then ok (continue (record p { compressed = some f.payload }))
    else ok (continue p)

-- `version`, `raw_records` and `actions_data`.
pub record Details : Type 0 where
  pub version : ℕ
  pub raw_records : List (List ℕ)
  pub actions : List (List ℕ)

abbrev pub no_details : Details
no_details = record { version = 0; raw_records = []; actions = [] }

pub details_arm : Details → Field → Result (Flow Details)
details_arm d f =
    if is_arm f 1 2
    then ok (continue (record d { raw_records = d.raw_records ++ f.payload ∷ [] }))
    else if is_arm f 2 0
    then (do v ← extract_varint f.payload; ok (continue (record d { version = as_u32 v })))
    else if is_arm f 3 2
    then ok (continue (record d { actions = d.actions ++ f.payload ∷ [] }))
    else ok (continue d)

-- A record with an empty name is skipped; the first that cannot be read ends the loop.
pub decode_old_format_records : List (List ℕ) → Result (List RecordAction)
decode_old_format_records [] = ok []
decode_old_format_records (raw ∷ raws) = do
  (name, body) ← decode_wrapper raw
  rest ← decode_old_format_records raws
  ok (if is_empty name then rest else record { name = name; body = body; passed_ms = none } ∷ rest)

-- `passed_ms` and `result_data`.
pub action_arm : Option ℕ × Option (List ℕ) → Field → Result (Flow (Option ℕ × Option (List ℕ)))
action_arm (passed, result) f =
    if is_arm f 1 0
    then (do v ← extract_varint f.payload; ok (continue (some (as_u32 v), result)))
    else if is_arm f 3 2
    then ok (continue (passed, some f.payload))
    else ok (continue (passed, result))

-- The end of one round of `decode_new_format_actions`: what it pushes.
pub push_action : Option ℕ → Option (List ℕ) → Result (List RecordAction)
push_action passed none = ok []
push_action passed (some result) = if is_empty result then ok [] else (do
  (name, body) ← decode_wrapper result
  ok (if is_empty name then [] else record { name = name; body = body; passed_ms = passed } ∷ []))

pub decode_new_format_actions : List (List ℕ) → Result (List RecordAction)
unfolding action_arm push_action
decode_new_format_actions [] = ok []
decode_new_format_actions (action ∷ actions) = do
  (passed, result) ← for_fields action_arm (none, none) action
  pushed ← push_action passed result
  rest ← decode_new_format_actions actions
  ok (pushed ++ rest)

pub decode_details : List ℕ → Result (List RecordAction)
unfolding details_arm decode_old_format_records decode_new_format_actions
decode_details wrapper_data = do
  d ← for_fields details_arm no_details wrapper_data
  if ltb d.version 210715 && not (is_empty d.raw_records)
      then decode_old_format_records d.raw_records
      else if not (is_empty d.actions)
      then decode_new_format_actions d.actions
      else ok []

pub decode_compressed : Option (List ℕ) → Result (List RecordAction)
unfolding decode_details
decode_compressed none = ok []
decode_compressed (some bytes) = do
  (wrapper_name, wrapper_data) ← decode_wrapper bytes
  decode_details wrapper_data

unfoldable pub decode_game_record : List ℕ → Result GameRecord
unfolding record_arm decode_compressed
decode_game_record raw = do
  p ← for_fields record_arm no_parts raw
  records ← decode_compressed p.compressed
  let accounts = sort_by_key (λ (a : PlayerAccountMeta). a.seat) p.accounts
  ok (record {
    uuid = p.uuid;
    start_time = p.start_time;
    end_time = p.end_time;
    mode_id = p.mode_id;
    player_names = map (λ (a : PlayerAccountMeta). a.nickname) accounts;
    player_accounts = accounts;
    result = sort_by_key (λ (r : PlayerResult). r.seat) p.result;
    records = records;
  })
