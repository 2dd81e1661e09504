-- ===== src/Proto/Game/RoundTrip.antt =====
-- An encoder of game records in the new format, and `decode_game_record` run on what it wrote.
use majsoulmanager.Prelude.{
  ℕ, ◌%◌, ◌^◌, ◌<◌, ◌≡◌, ap, ◌∙◌, List, [], ◌∷◌, ◌++◌, none, some, arith, map, All, All-append,
}
use majsoulmanager.Prelude.Int.{IsI32}
use majsoulmanager.Prelude.Sort.{IsSorted, sort_by_key-sorted}
use mathlib.Core.List.{map-append}
use majsoulmanager.Proto.Errors.{ok}
use majsoulmanager.Proto.Fields.{Field, for_fields}
use majsoulmanager.Proto.Fields.Wire.{Item, varint, bytes, IsItem, write_message, field_of}
use majsoulmanager.Proto.Fields.Messages.{run_fields, for_fields-write_message}
use majsoulmanager.Proto.Text.{IsText, extract_string}
use majsoulmanager.Proto.Record.{decode_config_mode_id, PlayerResult, PlayerAccountMeta}
use majsoulmanager.Proto.Record.Written.{
  Fits, extract_varint-write_varint, write_wrapper, decode_wrapper-write_wrapper,
  write_player_result, IsResult, write_player_account, IsAccount, write_meta, write_config,
  decode_config_mode_id-write,
}
use majsoulmanager.Proto.Game.{
  GameRecord, Parts, no_parts, end_result_arm, head_arm, record_arm, decode_compressed,
  decode_game_record,
}
use majsoulmanager.Proto.Game.Written.{
  write_end_result, All-bytes, run_end_result, account_item, run_accounts, IsAction, write_details,
  details_read,
}

-- A head as the encoder writes it, from the fields of a game record.
head_items : GameRecord → List Item
unfolding write_end_result
head_items g =
    bytes 1 g.uuid
    ∷ varint 2 g.start_time
    ∷ varint 3 g.end_time
    ∷ bytes 5 (write_config g.mode_id)
    ∷ (map account_item g.player_accounts ++ bytes 12 (write_end_result g.result) ∷ [])

-- What a game record must be for the encoder: seats in order, and everything in range.
unfoldable pub write_head : GameRecord → List ℕ
unfolding head_items
write_head g = write_message (head_items g)

unfoldable pub write_game_record : List ℕ → ℕ → GameRecord → List ℕ
unfolding write_head write_details
write_game_record name version g =
    write_message
      (bytes 3 (write_head g) ∷ bytes 4 (write_wrapper name (write_details version g.records)) ∷ [])

pub record IsGame (tag : List ℕ) (ver : ℕ) (g : GameRecord) : Type 0 where
  pub wrapper_name : IsText tag
  pub version : ver < 2 ^ 32
  pub uuid : IsText g.uuid
  pub start_time : g.start_time < 2 ^ 32
  pub end_time : g.end_time < 2 ^ 32
  pub mode_id : IsI32 g.mode_id
  pub accounts : All IsAccount g.player_accounts
  pub results : All IsResult g.result
  pub actions : All IsAction g.records
  pub names : g.player_names ≡ map (λ (a : PlayerAccountMeta). a.nickname) g.player_accounts
  pub accounts_by_seat : IsSorted (λ (a : PlayerAccountMeta). a.seat) g.player_accounts
  pub results_by_seat : IsSorted (λ (r : PlayerResult). r.seat) g.result
  pub fits_meta : Fits (write_meta g.mode_id)
  pub fits_config : Fits (write_config g.mode_id)
  pub fits_result : Fits (write_end_result g.result)
  pub fits_head : Fits (write_head g)
  pub fits_details : Fits (write_details ver g.records)
  pub fits_wrapper : Fits (write_wrapper tag (write_details ver g.records))
  pub fits : Fits (write_game_record tag ver g)

-- The first four fields of a head, whatever follows them.
head_start :
    (g : GameRecord) (fs : List Field)
    → IsText g.uuid
    → g.start_time < 2 ^ 32
    → g.end_time < 2 ^ 32
    → decode_config_mode_id (write_config g.mode_id) ≡ ok g.mode_id
    → run_fields head_arm no_parts (
        field_of (bytes 1 g.uuid)
        ∷ field_of (varint 2 g.start_time)
        ∷ field_of (varint 3 g.end_time)
        ∷ field_of (bytes 5 (write_config g.mode_id))
        ∷ fs)
      ≡ run_fields head_arm
          (record no_parts {
            uuid = g.uuid;
            start_time = g.start_time;
            end_time = g.end_time;
            mode_id = g.mode_id;
          })
          fs
unfolding run_fields head_arm extract_string
head_start g fs text start end mode =
    let low_start : g.start_time % 2 ^ 32 ≡ g.start_time = omega arith in
    let low_end : g.end_time % 2 ^ 32 ≡ g.end_time = omega arith in
    rw (text, extract_varint-write_varint g.start_time (omega arith), run_fields)
      (rw (low_start, extract_varint-write_varint g.end_time (omega arith), run_fields)
        (rw (low_end, mode, run_fields)))

module _ (name : List ℕ) (version : ℕ) (g : GameRecord) (h : IsGame name version g) where
  abbrev parts : Parts
  parts = record {
    uuid = g.uuid;
    start_time = g.start_time;
    end_time = g.end_time;
    mode_id = g.mode_id;
    accounts = g.player_accounts;
    result = g.result;
    compressed = none;
  }

  head_loop : for_fields head_arm no_parts (write_head g) ≡ ok parts
  unfolding write_head
  head_loop =
      let start : g.start_time < 2 ^ 32 = h.start_time in
      let end : g.end_time < 2 ^ 32 = h.end_time in
      for_fields-write_message head_arm no_parts (head_items g)
        (
          omega arith,
          (
            (omega arith, omega arith),
            (
              (omega arith, omega arith),
              (
                omega arith,
                All-append IsItem (map account_item g.player_accounts) _
                    (All-bytes 11 write_player_account g.player_accounts (omega arith))
                    (omega arith),
              ),
            ),
          ),
        )
        h.fits_head
      ∙ (head_start g _ h.uuid start end
            (decode_config_mode_id-write g.mode_id h.mode_id h.fits_meta h.fits_config)
          ∙ (ap (run_fields head_arm _) (map-append field_of (map account_item g.player_accounts) _)
              ∙ (run_accounts g.player_accounts _ _ h.accounts ∙ result_loop)))
    where
      end_loop : for_fields end_result_arm [] (write_end_result g.result) ≡ ok g.result
      end_loop =
          unfold write_end_result in
          for_fields-write_message end_result_arm [] _
            (All-bytes 1 write_player_result g.result (omega arith)) h.fits_result
          ∙ run_end_result g.result [] h.results

      result_loop :
          run_fields head_arm
            (record parts { result = [] })
            (field_of (bytes 12 (write_end_result g.result)) ∷ [])
          ≡ ok parts
      result_loop = unfold run_fields head_arm in rw (end_loop, run_fields)

  record_loop :
      for_fields record_arm no_parts (write_game_record name version g)
      ≡ ok (record parts {
        compressed = some (write_wrapper name (write_details version g.records));
      })
  unfolding write_game_record run_fields record_arm
  record_loop =
      for_fields-write_message record_arm no_parts _ (omega arith) h.fits
      ∙ rw (head_loop, run_fields)

  -- A game record with its seats in order, written in the new format, is read back whole.
  pub decode_game_record-write : decode_game_record (write_game_record name version g) ≡ ok g
  unfolding decode_game_record decode_compressed
  decode_game_record-write =
      rw
        (
          record_loop,
          decode_wrapper-write_wrapper name (write_details version g.records) h.wrapper_name
              h.fits_wrapper,
        )
        (rw (details_read version g.records h.version h.actions h.fits_details) (
          rw (
            sort_by_key-sorted (λ (a : PlayerAccountMeta). a.seat) g.player_accounts
                h.accounts_by_seat,
            sort_by_key-sorted (λ (r : PlayerResult). r.seat) g.result h.results_by_seat,
            h.names,
          )))
