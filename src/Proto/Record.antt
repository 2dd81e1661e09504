-- ===== src/Proto/Record.antt =====
-- The message decoders of src/majsoul/proto.rs, from `decode_wrapper` to `decode_game_record`.
pub mod Total
pub mod Written
use majsoulmanager.Prelude.{
  ℕ, ◌%◌, ◌^◌, Bool, true, false, ◌&&◌, not, List, [], ◌∷◌, ◌++◌, Option, none, some, ltb, leb,
  ◌==◌, if◌then◌else◌, map,
}
use majsoulmanager.Prelude.Int.{ℤ, pos, as_i32}
use majsoulmanager.Proto.Errors.{Result, ok, err, record_error, ◌>>=◌}
use majsoulmanager.Proto.Fields.{Field, Flow, continue, return, for_fields, extract_varint}
use majsoulmanager.Proto.Text.{extract_string}

abbrev pub is_empty {ℓ} : {A : Type ℓ} → List A → Bool
is_empty [] = true
is_empty (x ∷ xs) = false

-- A `match` arm `(number, wire_type)`.
abbrev pub is_arm : Field → ℕ → ℕ → Bool
is_arm f number wire_type = f.number == number && f.wire_type == wire_type

abbrev pub as_u32 : ℕ → ℕ
as_u32 v = v % 2 ^ 32

pub wrapper_arm : List ℕ × List ℕ → Field → Result (Flow (List ℕ × List ℕ))
wrapper_arm (name, body) f =
    if is_arm f 1 2
    then ok (continue (extract_string f.payload, body))
    else if is_arm f 2 2
    then ok (continue (name, f.payload))
    else ok (continue (name, body))

unfoldable pub decode_wrapper : List ℕ → Result (List ℕ × List ℕ)
unfolding wrapper_arm
decode_wrapper buf = for_fields wrapper_arm ([], []) buf

pub record RecordAction : Type 0 where
  pub name : List ℕ
  pub body : List ℕ
  pub passed_ms : Option ℕ

pub record PlayerResult : Type 0 where
  pub seat : ℕ
  pub total_point : ℤ
  pub part_point_1 : ℤ
  pub part_point_2 : ℤ
  pub grading_score : ℤ

abbrev pub no_result : PlayerResult
no_result = record {
  seat = 0;
  total_point = pos 0;
  part_point_1 = pos 0;
  part_point_2 = pos 0;
  grading_score = pos 0;
}

pub player_result_arm : PlayerResult → Field → Result (Flow PlayerResult)
player_result_arm r f =
    if is_arm f 1 0
    then (do v ← extract_varint f.payload; ok (continue (record r { seat = as_u32 v })))
    else if is_arm f 2 0
    then (do v ← extract_varint f.payload; ok (continue (record r { total_point = as_i32 v })))
    else if is_arm f 3 0
    then (do v ← extract_varint f.payload; ok (continue (record r { part_point_1 = as_i32 v })))
    else if is_arm f 4 0
    then (do v ← extract_varint f.payload; ok (continue (record r { part_point_2 = as_i32 v })))
    else if is_arm f 5 0
    then (do v ← extract_varint f.payload; ok (continue (record r { grading_score = as_i32 v })))
    else ok (continue r)

unfoldable pub decode_player_result : List ℕ → Result PlayerResult
unfolding player_result_arm
decode_player_result bytes = for_fields player_result_arm no_result bytes

pub record PlayerAccountMeta : Type 0 where
  pub account_id : ℕ
  pub seat : ℕ
  pub nickname : List ℕ
  pub level_id : ℕ
  pub level_score : ℤ
  pub level3_id : ℕ
  pub level3_score : ℤ

abbrev pub no_account : PlayerAccountMeta
no_account = record {
  account_id = 0;
  seat = 0;
  nickname = [];
  level_id = 0;
  level_score = pos 0;
  level3_id = 0;
  level3_score = pos 0;
}

pub account_level_arm : ℕ × ℤ → Field → Result (Flow (ℕ × ℤ))
account_level_arm (id, score) f =
    if is_arm f 1 0
    then (do v ← extract_varint f.payload; ok (continue (as_u32 v, score)))
    else if is_arm f 2 0
    then (do v ← extract_varint f.payload; ok (continue (id, as_i32 (as_u32 v))))
    else ok (continue (id, score))

unfoldable pub decode_account_level : List ℕ → Result (ℕ × ℤ)
unfolding account_level_arm
decode_account_level bytes = for_fields account_level_arm (0, pos 0) bytes

pub player_account_arm : PlayerAccountMeta → Field → Result (Flow PlayerAccountMeta)
player_account_arm a f =
    if is_arm f 1 0
    then (do v ← extract_varint f.payload; ok (continue (record a { account_id = v })))
    else if is_arm f 2 0
    then (do v ← extract_varint f.payload; ok (continue (record a { seat = as_u32 v })))
    else if is_arm f 3 2
    then ok (continue (record a { nickname = extract_string f.payload }))
    else if is_arm f 7 2
    then (do
      (id, score) ← decode_account_level f.payload
      ok (continue (record a { level_id = id; level_score = score })))
    else if is_arm f 8 2
    then (do
      (id, score) ← decode_account_level f.payload
      ok (continue (record a { level3_id = id; level3_score = score })))
    else ok (continue a)

unfoldable pub decode_player_account : List ℕ → Result PlayerAccountMeta
unfolding player_account_arm
decode_player_account bytes = for_fields player_account_arm no_account bytes

-- The two loops of `decode_config_mode_id`; `some` is the early return.
pub meta_arm : Option ℤ → Field → Result (Flow (Option ℤ))
meta_arm found f =
    if is_arm f 2 0
    then (do v ← extract_varint f.payload; ok (return (some (as_i32 v))))
    else ok (continue found)

abbrev pub return_found : Option ℤ → Flow (Option ℤ)
return_found none = continue none
return_found (some mode) = return (some mode)

pub config_arm : Option ℤ → Field → Result (Flow (Option ℤ))
unfolding meta_arm
config_arm found f =
    if is_arm f 3 2
    then (do found' ← for_fields meta_arm found f.payload; ok (return_found found'))
    else ok (continue found)

abbrev pub or_zero : Option ℤ → ℤ
or_zero none = pos 0
or_zero (some mode) = mode

unfoldable pub decode_config_mode_id : List ℕ → Result ℤ
unfolding config_arm
decode_config_mode_id bytes = do found ← for_fields config_arm none bytes; ok (or_zero found)
