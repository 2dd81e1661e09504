-- ===== src/Events/Written.antt =====
-- Draws and discards as the game writes them, against `parse_record_action` of src/majsoul/events.rs.
use mathlib.Core.List.{append-nil, append_assoc}
use majsoulmanager.Prelude.{
  ℕ, ◌+◌, ◌%◌, ◌^◌, ◌≤◌, ◌<◌, ◌≡◌, ◌⊎◌, refl, ap, ◌∙◌, Bool, true, false, List, [], ◌∷◌, ◌++◌, some,
  arith, map, All,
}
use majsoulmanager.Prelude.Text.{Text, codes, text_eq}
use majsoulmanager.Proto.Errors.{ok}
use majsoulmanager.Proto.Fields.Wire.{Item, varint, bytes, write_varint, write_message, field_of}
use majsoulmanager.Proto.Fields.Messages.{run_fields, for_fields-write_message}
use majsoulmanager.Proto.Text.{extract_string, from_utf8_lossy_ascii}
use majsoulmanager.Proto.Record.Written.{Fits, extract_varint-write_varint}
use majsoulmanager.Proto.Game.Written.{All-bytes}
use majsoulmanager.Proto.Varint.{IsU64}
use majsoulmanager.Events.Reading.{read_u32, read_bool, read_tile}
use majsoulmanager.Events.Tiles.{tile_str_to_mjai, tile_of, honor}
use majsoulmanager.Events.Types.{DealTile, DiscardTile, GameEvent}
use majsoulmanager.Events.Turns.{
  deal_tile_arm, parse_deal_tile, discard_tile_arm, parse_discard_tile,
}
use majsoulmanager.Events.Action.{parse_record_action}

pub data Honor : Type 0 where
  east south west north white green dragon : Honor

-- A tile of the game: a red five of a suit, a number of a suit, or an honor.
pub data GameTile : Type 0 where
  red : ℕ → GameTile
  number : ℕ → ℕ → GameTile
  honored : Honor → GameTile

abbrev IsSuit : ℕ → Type 0
IsSuit suit = (suit ≡ b'm') ⊎ (suit ≡ b'p') ⊎ (suit ≡ b's')

abbrev pub IsTile : GameTile → Type 0
IsTile (red suit) = IsSuit suit
IsTile (number n suit) = (1 ≤ n) × (n ≤ 9) × IsSuit suit
IsTile (honored h) = Unit {0}

-- How the game writes an honor, and how mjai does.
abbrev pub honor_digit : Honor → ℕ
honor_digit east = b'1'
honor_digit south = b'2'
honor_digit west = b'3'
honor_digit north = b'4'
honor_digit white = b'5'
honor_digit green = b'6'
honor_digit dragon = b'7'

abbrev pub honor_letter : Honor → Text
honor_letter east = codes "E"
honor_letter south = codes "S"
honor_letter west = codes "W"
honor_letter north = codes "N"
honor_letter white = codes "P"
honor_letter green = codes "F"
honor_letter dragon = codes "C"

-- The same of a tile: a red five is numbered 0 by the game, and marked r by mjai.
abbrev pub game_text : GameTile → Text
game_text (red suit) = b'0' ∷ suit ∷ []
game_text (number n suit) = (b'0' + n) ∷ suit ∷ []
game_text (honored h) = honor_digit h ∷ b'z' ∷ []

abbrev pub mjai_text : GameTile → Text
mjai_text (red suit) = b'5' ∷ suit ∷ b'r' ∷ []
mjai_text (number n suit) = (b'0' + n) ∷ suit ∷ []
mjai_text (honored h) = honor_letter h

tile_str_to_mjai-game_text :
    (t : GameTile) → IsTile t → tile_str_to_mjai (game_text t) ≡ ok (mjai_text t)
unfolding tile_str_to_mjai tile_of honor text_eq
tile_str_to_mjai-game_text (red suit) h = ground (arith, h)
tile_str_to_mjai-game_text (number n suit) (low, high, h) = ground (arith, low, high, h)
tile_str_to_mjai-game_text (honored east) h = refl
tile_str_to_mjai-game_text (honored south) h = refl
tile_str_to_mjai-game_text (honored west) h = refl
tile_str_to_mjai-game_text (honored north) h = refl
tile_str_to_mjai-game_text (honored white) h = refl
tile_str_to_mjai-game_text (honored green) h = refl
tile_str_to_mjai-game_text (honored dragon) h = refl

IsSuit-ascii : (suit : ℕ) → IsSuit suit → suit < 128
IsSuit-ascii suit h = omega arith

game_text-ascii : (t : GameTile) → IsTile t → All (λ b. b < 128) (game_text t)
game_text-ascii (red suit) h = (omega arith, (IsSuit-ascii suit h, tt))
game_text-ascii (number n suit) (low, high, h) = (omega arith, (IsSuit-ascii suit h, tt))
game_text-ascii (honored east) h = (omega arith, (omega arith, tt))
game_text-ascii (honored south) h = (omega arith, (omega arith, tt))
game_text-ascii (honored west) h = (omega arith, (omega arith, tt))
game_text-ascii (honored north) h = (omega arith, (omega arith, tt))
game_text-ascii (honored white) h = (omega arith, (omega arith, tt))
game_text-ascii (honored green) h = (omega arith, (omega arith, tt))
game_text-ascii (honored dragon) h = (omega arith, (omega arith, tt))

read_tile-game_text : (t : GameTile) → IsTile t → read_tile (game_text t) ≡ ok (mjai_text t)
unfolding read_tile extract_string
read_tile-game_text t h =
    rw (from_utf8_lossy_ascii (game_text t) (game_text-ascii t h)) (tile_str_to_mjai-game_text t h)

read_u32-write_varint : (v : ℕ) → v < 2 ^ 32 → read_u32 (write_varint v) ≡ ok v
unfolding read_u32
read_u32-write_varint v small =
    let low : v % 2 ^ 32 ≡ v = omega arith in
    rw (extract_varint-write_varint v (omega arith)) (ap ok low)

abbrev pub bit : Bool → ℕ
bit true = 1
bit false = 0

bit-IsU64 : (b : Bool) → IsU64 (bit b)
bit-IsU64 true = omega arith
bit-IsU64 false = omega arith

read_bool-bit : (b : Bool) → read_bool (write_varint (bit b)) ≡ ok b
unfolding read_bool
read_bool-bit true = rw (extract_varint-write_varint 1 (omega arith)) refl
read_bool-bit false = rw (extract_varint-write_varint 0 (omega arith)) refl

abbrev dora_item : ℕ → GameTile → Item
dora_item k t = bytes k (game_text t)

-- A draw of the game, and a discard: the tile, its flags, and the indicators that it reveals.
unfoldable pub write_draw : ℕ → GameTile → List GameTile → List ℕ
write_draw seat tile doras =
    write_message (varint 1 seat ∷ bytes 2 (game_text tile) ∷ map (dora_item 6) doras)

unfoldable pub write_discard : ℕ → GameTile → Bool → Bool → Bool → List GameTile → List ℕ
write_discard seat tile liqi moqie wliqi doras = write_message (
    varint 1 seat
    ∷ bytes 2 (game_text tile)
    ∷ varint 3 (bit liqi)
    ∷ varint 5 (bit moqie)
    ∷ varint 9 (bit wliqi)
    ∷ map (dora_item 8) doras)

run_draw_doras :
    (doras : List GameTile) (r : DealTile)
    → All IsTile doras
    → run_fields deal_tile_arm r (map field_of (map (dora_item 6) doras))
      ≡ ok (record r { doras = r.doras ++ map mjai_text doras })
unfolding run_fields deal_tile_arm
run_draw_doras [] r h = rw append-nil
run_draw_doras (t ∷ doras) r (h, hs) =
    rw (read_tile-game_text t h, run_fields)
      (run_draw_doras doras (record r { doras = r.doras ++ mjai_text t ∷ [] }) hs
        ∙ ap (λ l. ok (record r { doras = l }))
            (append_assoc r.doras (mjai_text t ∷ []) (map mjai_text doras)))

run_discard_doras :
    (doras : List GameTile) (r : DiscardTile)
    → All IsTile doras
    → run_fields discard_tile_arm r (map field_of (map (dora_item 8) doras))
      ≡ ok (record r { doras = r.doras ++ map mjai_text doras })
unfolding run_fields discard_tile_arm
run_discard_doras [] r h = rw append-nil
run_discard_doras (t ∷ doras) r (h, hs) =
    rw (read_tile-game_text t h, run_fields)
      (run_discard_doras doras (record r { doras = r.doras ++ mjai_text t ∷ [] }) hs
        ∙ ap (λ l. ok (record r { doras = l }))
            (append_assoc r.doras (mjai_text t ∷ []) (map mjai_text doras)))

parse_deal_tile-write_draw :
    (seat : ℕ) (tile : GameTile) (doras : List GameTile)
    → seat < 2 ^ 32
    → IsTile tile
    → All IsTile doras
    → Fits (write_draw seat tile doras)
    → parse_deal_tile (write_draw seat tile doras)
      ≡ ok (record { seat = seat; tile = mjai_text tile; doras = map mjai_text doras })
unfolding parse_deal_tile write_draw run_fields deal_tile_arm
parse_deal_tile-write_draw seat tile doras small is_tile are_tiles fits =
    for_fields-write_message deal_tile_arm _ _
      ((omega arith, omega arith), (omega arith, All-bytes 6 game_text doras (omega arith))) fits
    ∙ rw (read_u32-write_varint seat small, run_fields)
        (rw (read_tile-game_text tile is_tile, run_fields)
          (run_draw_doras doras (record { seat = seat; tile = mjai_text tile; doras = [] })
            are_tiles))

discard_of : ℕ → GameTile → Bool → Bool → Bool → List GameTile → DiscardTile
discard_of seat tile liqi moqie wliqi doras = record {
  seat = seat;
  tile = mjai_text tile;
  is_liqi = liqi;
  moqie = moqie;
  is_wliqi = wliqi;
  doras = map mjai_text doras;
}

parse_discard_tile-write_discard :
    (seat : ℕ) (tile : GameTile) (liqi moqie wliqi : Bool) (doras : List GameTile)
    → seat < 2 ^ 32
    → IsTile tile
    → All IsTile doras
    → Fits (write_discard seat tile liqi moqie wliqi doras)
    → parse_discard_tile (write_discard seat tile liqi moqie wliqi doras)
      ≡ ok (discard_of seat tile liqi moqie wliqi doras)
unfolding parse_discard_tile write_discard run_fields discard_tile_arm discard_of
parse_discard_tile-write_discard seat tile liqi moqie wliqi doras small is_tile are_tiles fits =
    for_fields-write_message discard_tile_arm _ _
      (
        (omega arith, omega arith),
        (
          omega arith,
          (
            (omega arith, bit-IsU64 liqi),
            (
              (omega arith, bit-IsU64 moqie),
              ((omega arith, bit-IsU64 wliqi), All-bytes 8 game_text doras (omega arith)),
            ),
          ),
        ),
      )
      fits
    ∙ rw (read_u32-write_varint seat small, run_fields)
        (rw (read_tile-game_text tile is_tile, run_fields)
          (rw (read_bool-bit liqi, run_fields)
            (rw (read_bool-bit moqie, run_fields)
              (rw (read_bool-bit wliqi, run_fields)
                (run_discard_doras doras (discard_of seat tile liqi moqie wliqi []) are_tiles)))))

-- A draw of a seat below 2 ^ 32, written by the game's field numbers with tiles in the game's
-- spelling, is parsed to the seat, the tile and the indicators in mjai's spelling, in their order.
pub parse_record_action-write_draw :
    (seat : ℕ) (tile : GameTile) (doras : List GameTile)
    → seat < 2 ^ 32
    → IsTile tile
    → All IsTile doras
    → Fits (write_draw seat tile doras)
    → parse_record_action (codes ".lq.RecordDealTile") (write_draw seat tile doras)
      ≡ ok (
          some (
            GameEvent.deal_tile
              (record { seat = seat; tile = mjai_text tile; doras = map mjai_text doras })))
unfolding parse_record_action text_eq
parse_record_action-write_draw seat tile doras small is_tile are_tiles fits =
    rw (parse_deal_tile-write_draw seat tile doras small is_tile are_tiles fits) refl

-- A discard of a seat below 2 ^ 32, written by the game's field numbers with tiles in the game's
-- spelling, is parsed to the seat, the tile and the indicators in mjai's spelling, in their order,
-- with each of its flags: a riichi, a drawn tile, a double riichi.
pub parse_record_action-write_discard :
    (seat : ℕ) (tile : GameTile) (liqi moqie wliqi : Bool) (doras : List GameTile)
    → seat < 2 ^ 32
    → IsTile tile
    → All IsTile doras
    → Fits (write_discard seat tile liqi moqie wliqi doras)
    → parse_record_action
        (codes ".lq.RecordDiscardTile")
        (write_discard seat tile liqi moqie wliqi doras)
      ≡ ok (
          some (
            GameEvent.discard_tile (record {
              seat = seat;
              tile = mjai_text tile;
              is_liqi = liqi;
              moqie = moqie;
              is_wliqi = wliqi;
              doras = map mjai_text doras;
            })))
unfolding parse_record_action text_eq discard_of
parse_record_action-write_discard seat tile liqi moqie wliqi doras small is_tile are_tiles fits =
    rw
      (parse_discard_tile-write_discard seat tile liqi moqie wliqi doras small is_tile are_tiles
        fits)
      refl
