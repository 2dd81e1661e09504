-- ===== src/Proto/Game/Total.antt =====
-- `decode_game_record` ends on every input: none of its loops runs out of fuel.
use majsoulmanager.Prelude.{ℕ, ◌≢◌, List, [], ◌∷◌, Option, none, some, arith}
use majsoulmanager.Proto.Errors.{stuck}
use majsoulmanager.Proto.Fields.{Field, for_fields}
use majsoulmanager.Proto.Fields.Progress.{for_fields-ne-stuck}
use majsoulmanager.Proto.Record.{PlayerResult}
use majsoulmanager.Proto.Record.Total.{
  extract_varint-ne-stuck, decode_wrapper-ne-stuck, decode_player_result-ne-stuck,
  decode_player_account-ne-stuck, decode_config_mode_id-ne-stuck,
}
use majsoulmanager.Proto.Game.{
  Parts, no_parts, no_details, error_arm, end_result_arm, head_arm, record_arm, details_arm,
  decode_old_format_records, action_arm, push_action, decode_new_format_actions, decode_details,
  decode_compressed, decode_game_record,
}

error_loop-ne-stuck : (bs : List ℕ) → for_fields error_arm tt bs ≢ stuck
error_loop-ne-stuck bs =
    for_fields-ne-stuck error_arm
      (λ s f h. unfold error_arm in ground (arith, extract_varint-ne-stuck f.payload)) tt bs

end_result_loop-ne-stuck :
    (result : List PlayerResult) (bs : List ℕ) → for_fields end_result_arm result bs ≢ stuck
end_result_loop-ne-stuck result bs =
    for_fields-ne-stuck end_result_arm
      (λ s f h. unfold end_result_arm in ground (arith, decode_player_result-ne-stuck f.payload))
      result bs

head_arm-ne-stuck : (p : Parts) (f : Field) → head_arm p f ≢ stuck
unfolding head_arm
head_arm-ne-stuck p f h = ground (
  arith,
  extract_varint-ne-stuck f.payload,
  decode_config_mode_id-ne-stuck f.payload,
  decode_player_account-ne-stuck f.payload,
  end_result_loop-ne-stuck p.result f.payload,
)

record_arm-ne-stuck : (p : Parts) (f : Field) → record_arm p f ≢ stuck
unfolding record_arm
record_arm-ne-stuck p f h = ground (
  arith,
  error_loop-ne-stuck f.payload,
  for_fields-ne-stuck head_arm head_arm-ne-stuck p f.payload,
)

old_format-ne-stuck : (raws : List (List ℕ)) → decode_old_format_records raws ≢ stuck
unfolding decode_old_format_records
old_format-ne-stuck [] = λ h. cc
old_format-ne-stuck (raw ∷ raws) =
    λ h. ground (arith, decode_wrapper-ne-stuck raw, old_format-ne-stuck raws)

push_action-ne-stuck :
    (passed : Option ℕ) (result : Option (List ℕ)) → push_action passed result ≢ stuck
unfolding push_action
push_action-ne-stuck passed none h = cc
push_action-ne-stuck passed (some bs) h = ground (arith, decode_wrapper-ne-stuck bs)

action_loop-ne-stuck : (bs : List ℕ) → for_fields action_arm (none, none) bs ≢ stuck
action_loop-ne-stuck bs =
    for_fields-ne-stuck action_arm
      (λ s f h. unfold action_arm in ground (arith, extract_varint-ne-stuck f.payload)) (none, none)
      bs

new_format-ne-stuck : (actions : List (List ℕ)) → decode_new_format_actions actions ≢ stuck
unfolding decode_new_format_actions
new_format-ne-stuck [] = λ h. cc
new_format-ne-stuck (action ∷ actions) =
    λ h. grind (arith, action_loop-ne-stuck, push_action-ne-stuck, new_format-ne-stuck actions)

details-ne-stuck : (bs : List ℕ) → decode_details bs ≢ stuck
unfolding decode_details
details-ne-stuck bs h = grind (arith, loop, old_format-ne-stuck, new_format-ne-stuck)
  where
    loop : for_fields details_arm no_details bs ≢ stuck
    loop =
        for_fields-ne-stuck details_arm
          (λ s f h. unfold details_arm in ground (arith, extract_varint-ne-stuck f.payload))
          no_details bs

compressed-ne-stuck : (compressed : Option (List ℕ)) → decode_compressed compressed ≢ stuck
unfolding decode_compressed
compressed-ne-stuck none h = cc
compressed-ne-stuck (some bs) h = grind (arith, decode_wrapper-ne-stuck bs, details-ne-stuck)

-- On any bytes the decoder comes to an answer, an error or a panic: it does not run for ever.
pub decode_game_record-ne-stuck : (raw : List ℕ) → decode_game_record raw ≢ stuck
unfolding decode_game_record
decode_game_record-ne-stuck raw h =
    grind
      (arith, for_fields-ne-stuck record_arm record_arm-ne-stuck no_parts raw, compressed-ne-stuck)
