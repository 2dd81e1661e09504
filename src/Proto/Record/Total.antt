-- ===== src/Proto/Record/Total.antt =====
-- No message decoder runs out of fuel, whatever the bytes.
use majsoulmanager.Prelude.{ℕ, ◌≢◌, List, Option, none, arith, inl, inr}
use majsoulmanager.Proto.Errors.{stuck}
use majsoulmanager.Proto.Varint.Cases.{decode_varint_cases}
use majsoulmanager.Proto.Fields.{for_fields, extract_varint}
use majsoulmanager.Proto.Fields.Progress.{for_fields-ne-stuck}
use majsoulmanager.Prelude.Int.{ℤ}
use majsoulmanager.Proto.Record.{
  wrapper_arm, decode_wrapper, player_result_arm, decode_player_result, account_level_arm,
  decode_account_level, player_account_arm, decode_player_account, meta_arm, config_arm,
  decode_config_mode_id,
}

pub extract_varint-ne-stuck : (bs : List ℕ) → extract_varint bs ≢ stuck
unfolding extract_varint
extract_varint-ne-stuck bs h = elim (decode_varint_cases bs) [
  | inl (p, e) ↦ ground arith
  | inr (x, e) ↦ ground arith
]

pub decode_wrapper-ne-stuck : (bs : List ℕ) → decode_wrapper bs ≢ stuck
unfolding decode_wrapper
decode_wrapper-ne-stuck bs = for_fields-ne-stuck wrapper_arm (λ s f h. ground arith) _ bs

pub decode_player_result-ne-stuck : (bs : List ℕ) → decode_player_result bs ≢ stuck
unfolding decode_player_result
decode_player_result-ne-stuck bs =
    for_fields-ne-stuck player_result_arm
      (λ s f h. ground (arith, extract_varint-ne-stuck f.payload)) _ bs

decode_account_level-ne-stuck : (bs : List ℕ) → decode_account_level bs ≢ stuck
unfolding decode_account_level
decode_account_level-ne-stuck bs =
    for_fields-ne-stuck account_level_arm
      (λ s f h. ground (arith, extract_varint-ne-stuck f.payload)) _ bs

pub decode_player_account-ne-stuck : (bs : List ℕ) → decode_player_account bs ≢ stuck
unfolding decode_player_account
decode_player_account-ne-stuck bs =
    for_fields-ne-stuck player_account_arm
      (λ s f h.
        ground (arith, extract_varint-ne-stuck f.payload, decode_account_level-ne-stuck f.payload))
      _ bs

pub decode_config_mode_id-ne-stuck : (bs : List ℕ) → decode_config_mode_id bs ≢ stuck
unfolding decode_config_mode_id
decode_config_mode_id-ne-stuck bs h = ground (arith, config bs)
  where
    inner : (found : Option ℤ) (bs : List ℕ) → for_fields meta_arm found bs ≢ stuck
    inner found bs =
        for_fields-ne-stuck meta_arm (λ s f h. ground (arith, extract_varint-ne-stuck f.payload))
          found bs

    config : (bs : List ℕ) → for_fields config_arm none bs ≢ stuck
    config bs = for_fields-ne-stuck config_arm (λ s f h. ground (arith, inner s f.payload)) none bs
