-- ===== src/Proto/Examples.antt =====
-- Concrete runs of the decoders, and the theorems at concrete inputs.
use majsoulmanager.Prelude.{
  ℕ, ◌+◌, ◌%◌, ◌^◌, ◌≤◌, ◌≡◌, ◌≢◌, refl, ◌↔◌, List, [], ◌∷◌, ◌++◌, some, arith, length, drop,
}
use majsoulmanager.Prelude.Int.{pos, negsuc}
use majsoulmanager.Proto.Errors.{ok, panic, stuck}
use majsoulmanager.Proto.Varint.{IsU64, decode_varint}
use majsoulmanager.Proto.Varint.Encoding.{Encodes, decode_varint_iff}
use majsoulmanager.Proto.Fields.{next}
use majsoulmanager.Proto.Fields.Progress.{next-panic_iff}
use majsoulmanager.Proto.Fields.Wire.{write_message, write_varint}
use majsoulmanager.Proto.Text.{from_utf8_lossy}
use majsoulmanager.Proto.Record.{PlayerResult, PlayerAccountMeta, decode_wrapper}
use majsoulmanager.Proto.Record.Written.{
  write_player_result, write_player_account, write_config, IsResult, IsAccount, write_wrapper,
  decode_wrapper-write_wrapper,
}
use majsoulmanager.Proto.Game.{GameRecord, decode_game_record}
use majsoulmanager.Proto.Game.Total.{decode_game_record-ne-stuck}
use majsoulmanager.Proto.Game.Written.{write_action, write_end_result}
use majsoulmanager.Proto.Game.RoundTrip.{IsGame, write_game_record, decode_game_record-write}

-- Eleven bytes: field 1 of wire type 2 with the length 2 ^ 64 - 1. The end of its slice wraps
-- around to byte 10, before its start.
abbrev wrapping : List ℕ
wrapping = 0x0a ∷ 0xff ∷ 0xff ∷ 0xff ∷ 0xff ∷ 0xff ∷ 0xff ∷ 0xff ∷ 0xff ∷ 0xff ∷ 0x01 ∷ []

wrapping_panics : next (record { buf = wrapping; pos = 0 }) ≡ some panic
unfolding next decode_varint
wrapping_panics = refl

decode_varint_iff_example : (decode_varint (0xac ∷ 0x02 ∷ 7 ∷ []) ≡ ok (300, 2)) ↔ (
    (front rest : List ℕ) × (0xac ∷ 0x02 ∷ 7 ∷ [] ≡ front ++ rest)
    × Encodes front 300
    × (length front ≡ 2)
    × (2 ≤ 10)
    × IsU64 300)
decode_varint_iff_example = decode_varint_iff (0xac ∷ 0x02 ∷ 7 ∷ []) 300 2

next-panic_iff_example : (next (record { buf = wrapping; pos = 0 }) ≡ some panic) ↔ (
    (tag n len m : ℕ) × (decode_varint (drop 0 wrapping) ≡ ok (tag, n))
    × (tag % 8 ≡ 2)
    × (decode_varint (drop (0 + n) wrapping) ≡ ok (len, m))
    × (2 ^ 64 ≤ 0 + n + m + len))
next-panic_iff_example =
    next-panic_iff (record { buf = wrapping; pos = 0 }) (omega arith) (omega arith)

decode_wrapper-write_wrapper_example :
    decode_wrapper (write_wrapper (46 ∷ 97 ∷ []) (1 ∷ 2 ∷ [])) ≡ ok (46 ∷ 97 ∷ [], 1 ∷ 2 ∷ [])
unfolding from_utf8_lossy write_wrapper write_message write_varint
decode_wrapper-write_wrapper_example =
    decode_wrapper-write_wrapper (46 ∷ 97 ∷ []) (1 ∷ 2 ∷ []) refl (omega arith)

decode_game_record-ne-stuck_example : decode_game_record wrapping ≢ stuck
decode_game_record-ne-stuck_example = decode_game_record-ne-stuck wrapping

abbrev first_result : PlayerResult
first_result = record {
  seat = 0;
  total_point = pos 45;
  part_point_1 = pos 32000;
  part_point_2 = negsuc 4;
  grading_score = pos 90;
}

abbrev first_account : PlayerAccountMeta
first_account = record {
  account_id = 70001;
  seat = 0;
  nickname = 97 ∷ 98 ∷ [];
  level_id = 10401;
  level_score = pos 1200;
  level3_id = 20301;
  level3_score = negsuc 9;
}

abbrev second_account : PlayerAccountMeta
second_account = record first_account { seat = 1; nickname = 99 ∷ [] }

abbrev game : GameRecord
game = record {
  uuid = 50 ∷ 54 ∷ [];
  start_time = 1700000000;
  end_time = 1700001031;
  mode_id = pos 12;
  player_names = (97 ∷ 98 ∷ []) ∷ (99 ∷ []) ∷ [];
  player_accounts = first_account ∷ second_account ∷ [];
  result = first_result ∷ [];
  records = record { name = 46 ∷ 108 ∷ 113 ∷ []; body = 8 ∷ 1 ∷ []; passed_ms = some 1500 } ∷ [];
}

first_result-IsResult : IsResult first_result
unfolding write_player_result write_message write_varint
first_result-IsResult = omega arith

first_account-IsAccount : IsAccount first_account
unfolding write_player_account from_utf8_lossy write_message write_varint
first_account-IsAccount = record {
  account_id = omega arith;
  seat = omega arith;
  nickname = refl;
  level_id = omega arith;
  level_score = omega arith;
  level3_id = omega arith;
  level3_score = omega arith;
  fits_level = omega arith;
  fits_level3 = omega arith;
  fits = omega arith;
}

second_account-IsAccount : IsAccount second_account
unfolding write_player_account from_utf8_lossy write_message write_varint
second_account-IsAccount = record {
  account_id = omega arith;
  seat = omega arith;
  nickname = refl;
  level_id = omega arith;
  level_score = omega arith;
  level3_id = omega arith;
  level3_score = omega arith;
  fits_level = omega arith;
  fits_level3 = omega arith;
  fits = omega arith;
}

game-IsGame : IsGame [] 210715 game
unfolding write_game_record write_action write_player_account write_player_result write_end_result
    write_config write_wrapper write_message write_varint from_utf8_lossy
game-IsGame = record {
  wrapper_name = refl;
  version = omega arith;
  uuid = refl;
  start_time = omega arith;
  end_time = omega arith;
  mode_id = omega arith;
  accounts = (first_account-IsAccount, (second_account-IsAccount, tt));
  results = (first_result-IsResult, tt);
  actions = (
    record {
      name = refl;
      named = refl;
      passed = omega arith;
      fits_wrapper = omega arith;
      fits = omega arith;
    },
    tt,
  );
  names = refl;
  accounts_by_seat = omega arith;
  results_by_seat = omega arith;
  fits_meta = omega arith;
  fits_config = omega arith;
  fits_result = omega arith;
  fits_head = omega arith;
  fits_details = omega arith;
  fits_wrapper = omega arith;
  fits = omega arith;
}

decode_game_record-write_example : decode_game_record (write_game_record [] 210715 game) ≡ ok game
decode_game_record-write_example = decode_game_record-write [] 210715 game game-IsGame
