-- ===== src/Proto/Record/Written.antt =====
-- Encoders of the messages inside a game record, and the decoders run on what they wrote.
use majsoulmanager.Prelude.{
  ℕ, ◌-◌, ◌%◌, ◌^◌, ◌<◌, ltb, if◌then◌else◌, ◌≡◌, ap, ◌∙◌, List, [], ◌∷◌, none, arith, length,
}
use majsoulmanager.Prelude.Int.{ℤ, pos, negsuc, IsI32, as_i32, as_word, as_i32-as_word}
use mathlib.Core.List.{append-nil}
use majsoulmanager.Proto.Errors.{ok}
use majsoulmanager.Proto.Varint.{IsU64, decode_varint}
use majsoulmanager.Proto.Fields.{extract_varint}
use majsoulmanager.Proto.Fields.Wire.{
  varint, bytes, write_varint, write_message, decode_varint-write_varint,
}
use majsoulmanager.Proto.Fields.Messages.{run_fields, for_fields-write_message}
use majsoulmanager.Proto.Text.{IsText, extract_string}
use majsoulmanager.Proto.Record.{
  PlayerResult, PlayerAccountMeta, wrapper_arm, decode_wrapper, player_result_arm,
  decode_player_result, account_level_arm, decode_account_level, player_account_arm,
  decode_player_account, meta_arm, config_arm, decode_config_mode_id,
}

-- A message that fits in memory.
abbrev pub Fits : List ℕ → Type 0
Fits bs = length bs < 2 ^ 64

pub extract_varint-write_varint : (v : ℕ) → IsU64 v → extract_varint (write_varint v) ≡ ok v
unfolding extract_varint
extract_varint-write_varint v u =
    let e : decode_varint (write_varint v) ≡ ok (v, length (write_varint v)) =
      rw append-nil at (decode_varint-write_varint v [] u) in
    rw e

unfoldable pub write_wrapper : List ℕ → List ℕ → List ℕ
write_wrapper name body = write_message (bytes 1 name ∷ bytes 2 body ∷ [])

-- A wrapper is read back, its name and its bytes.
pub decode_wrapper-write_wrapper :
    (name body : List ℕ)
    → IsText name
    → Fits (write_wrapper name body)
    → decode_wrapper (write_wrapper name body) ≡ ok (name, body)
unfolding decode_wrapper write_wrapper run_fields extract_string
decode_wrapper-write_wrapper name body text fits =
    for_fields-write_message wrapper_arm ([], []) _ (omega arith) fits ∙ rw text

unfoldable pub write_player_result : PlayerResult → List ℕ
write_player_result r = write_message (
    varint 1 r.seat
    ∷ varint 2 (as_word r.total_point)
    ∷ varint 3 (as_word r.part_point_1)
    ∷ varint 4 (as_word r.part_point_2)
    ∷ varint 5 (as_word r.grading_score)
    ∷ [])

pub record IsResult (r : PlayerResult) : Type 0 where
  pub seat : r.seat < 2 ^ 32
  pub total : IsI32 r.total_point
  pub part_1 : IsI32 r.part_point_1
  pub part_2 : IsI32 r.part_point_2
  pub grading : IsI32 r.grading_score
  pub fits : Fits (write_player_result r)

pub decode_player_result-write :
    (r : PlayerResult) → IsResult r → decode_player_result (write_player_result r) ≡ ok r
unfolding decode_player_result write_player_result run_fields
decode_player_result-write r h =
    let (u₁, e₁) = as_i32-as_word r.total_point h.total in
    let (u₂, e₂) = as_i32-as_word r.part_point_1 h.part_1 in
    let (u₃, e₃) = as_i32-as_word r.part_point_2 h.part_2 in
    let (u₄, e₄) = as_i32-as_word r.grading_score h.grading in
    let seat : r.seat < 2 ^ 32 = h.seat in
    for_fields-write_message player_result_arm _ _ (omega arith) h.fits
    ∙ ground (
      arith,
      extract_varint-write_varint r.seat (omega arith),
      extract_varint-write_varint (as_word r.total_point) u₁,
      extract_varint-write_varint (as_word r.part_point_1) u₂,
      extract_varint-write_varint (as_word r.part_point_2) u₃,
      extract_varint-write_varint (as_word r.grading_score) u₄,
    )

pub write_account_level : ℕ → ℤ → List ℕ
write_account_level id score = write_message (varint 1 id ∷ varint 2 (as_word score) ∷ [])

as_i32-low_word : (v : ℕ) → as_i32 (v % 2 ^ 32) ≡ as_i32 v
as_i32-low_word v =
    ap (λ (w : ℕ). if ltb w (2 ^ 31) then pos w else negsuc (2 ^ 32 - 1 - w)) (omega arith)

decode_account_level-write :
    (id : ℕ) (score : ℤ)
    → id < 2 ^ 32
    → IsI32 score
    → Fits (write_account_level id score)
    → decode_account_level (write_account_level id score) ≡ ok (id, score)
unfolding decode_account_level write_account_level run_fields
decode_account_level-write id score hid hscore fits =
    let (u, e) = as_i32-as_word score hscore in
    for_fields-write_message account_level_arm _ _ (omega arith) fits
    ∙ ground (
      arith,
      extract_varint-write_varint id (omega arith),
      extract_varint-write_varint (as_word score) u,
      as_i32-low_word (as_word score),
    )

unfoldable pub write_player_account : PlayerAccountMeta → List ℕ
unfolding write_account_level
write_player_account a = write_message (
    varint 1 a.account_id
    ∷ varint 2 a.seat
    ∷ bytes 3 a.nickname
    ∷ bytes 7 (write_account_level a.level_id a.level_score)
    ∷ bytes 8 (write_account_level a.level3_id a.level3_score)
    ∷ [])

pub record IsAccount (a : PlayerAccountMeta) : Type 0 where
  pub account_id : IsU64 a.account_id
  pub seat : a.seat < 2 ^ 32
  pub nickname : IsText a.nickname
  pub level_id : a.level_id < 2 ^ 32
  pub level_score : IsI32 a.level_score
  pub level3_id : a.level3_id < 2 ^ 32
  pub level3_score : IsI32 a.level3_score
  pub fits_level : Fits (write_account_level a.level_id a.level_score)
  pub fits_level3 : Fits (write_account_level a.level3_id a.level3_score)
  pub fits : Fits (write_player_account a)

pub decode_player_account-write :
    (a : PlayerAccountMeta) → IsAccount a → decode_player_account (write_player_account a) ≡ ok a
unfolding decode_player_account write_player_account run_fields extract_string
decode_player_account-write a h =
    let seat : a.seat < 2 ^ 32 = h.seat in
    let id : IsU64 a.account_id = h.account_id in
    for_fields-write_message player_account_arm _ _ (omega arith) h.fits
    ∙ ground (
      arith,
      extract_varint-write_varint a.account_id h.account_id,
      extract_varint-write_varint a.seat (omega arith),
      h.nickname,
      decode_account_level-write a.level_id a.level_score h.level_id h.level_score h.fits_level,
      decode_account_level-write a.level3_id a.level3_score h.level3_id h.level3_score
          h.fits_level3,
    )

unfoldable pub write_meta : ℤ → List ℕ
write_meta mode = write_message (varint 2 (as_word mode) ∷ [])

unfoldable pub write_config : ℤ → List ℕ
unfolding write_meta
write_config mode = write_message (bytes 3 (write_meta mode) ∷ [])

pub decode_config_mode_id-write :
    (mode : ℤ)
    → IsI32 mode
    → Fits (write_meta mode)
    → Fits (write_config mode)
    → decode_config_mode_id (write_config mode) ≡ ok mode
unfolding decode_config_mode_id write_config run_fields
decode_config_mode_id-write mode h fits_meta fits =
    let (u, e) = as_i32-as_word mode h in
    let inner =
      for_fields-write_message meta_arm none (varint 2 (as_word mode) ∷ []) (omega arith)
        fits_meta in
    let outer =
      for_fields-write_message config_arm none (bytes 3 (write_meta mode) ∷ []) (omega arith)
        fits in
    ground (arith, inner, outer, extract_varint-write_varint (as_word mode) u)
