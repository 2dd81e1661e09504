-- ===== src/Events/Examples.antt =====
-- A draw, a discard, a tile that is no character of ASCII, and what their decoders make of them.
use majsoulmanager.Prelude.{ℕ, ◌≡◌, refl, inl, inr, true, false, List, [], ◌∷◌, some, arith}
use majsoulmanager.Prelude.Text.{codes}
use majsoulmanager.Proto.Errors.{panic, ok}
use majsoulmanager.Proto.Fields.Wire.{write_varint, write_message}
use majsoulmanager.Events.Types.{GameEvent}
use majsoulmanager.Events.Tiles.{tile_str_to_mjai}
use majsoulmanager.Events.Action.{parse_record_action}
use majsoulmanager.Events.Written.{
  Honor, GameTile, write_draw, write_discard, parse_record_action-write_draw,
  parse_record_action-write_discard,
}

-- U+FFFD, which an ill-formed byte is read as.
abbrev replaced : List ℕ
replaced = 0xef ∷ 0xbf ∷ 0xbd ∷ []

replaced_panics : tile_str_to_mjai replaced ≡ panic
unfolding tile_str_to_mjai
replaced_panics = refl

-- Seat 2 draws a red five, and a white dragon is revealed.
parse_record_action-write_draw_example :
    parse_record_action
      (codes ".lq.RecordDealTile")
      (write_draw 2 (GameTile.red b's') (GameTile.honored Honor.white ∷ []))
    ≡ ok (
        some
          (GameEvent.deal_tile (record { seat = 2; tile = codes "5sr"; doras = codes "P" ∷ [] })))
unfolding write_draw write_message write_varint
parse_record_action-write_draw_example =
    parse_record_action-write_draw 2 (GameTile.red b's') (GameTile.honored Honor.white ∷ [])
      (omega arith) (inr (inr refl)) (tt, tt) (omega arith)

-- Seat 1 discards the five of the first suit with a riichi.
parse_record_action-write_discard_example :
    parse_record_action
      (codes ".lq.RecordDiscardTile")
      (write_discard 1 (GameTile.number 5 b'm') true false false [])
    ≡ ok (
        some (
          GameEvent.discard_tile (record {
            seat = 1;
            tile = codes "5m";
            is_liqi = true;
            moqie = false;
            is_wliqi = false;
            doras = [];
          })))
unfolding write_discard write_message write_varint
parse_record_action-write_discard_example =
    parse_record_action-write_discard 1 (GameTile.number 5 b'm') true false false [] (omega arith)
      (omega arith, omega arith, inl refl) tt (omega arith)
