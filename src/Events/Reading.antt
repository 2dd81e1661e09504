-- ===== src/Events/Reading.antt =====
-- The reading of a field's payload in the decoders of src/majsoul/events.rs, and that none of it
-- runs out of fuel.
use majsoulmanager.Prelude.{ℕ, ◌≢◌, Bool, not, List, [], ◌∷◌, ◌==◌, arith}
use majsoulmanager.Prelude.Int.{ℤ, as_i32}
use majsoulmanager.Prelude.Text.{Text}
use majsoulmanager.Proto.Errors.{Result, ok, stuck, ◌>>=◌}
use majsoulmanager.Proto.Fields.{extract_varint}
use majsoulmanager.Proto.Record.{as_u32}
use majsoulmanager.Proto.Record.Total.{extract_varint-ne-stuck}
use majsoulmanager.Proto.Text.{extract_string}
use majsoulmanager.Events.Tiles.{tile_str_to_mjai, tile_of, honor}

unfoldable pub read_u32 : List ℕ → Result ℕ
read_u32 payload = do v ← extract_varint payload; ok (as_u32 v)

pub read_i32 : List ℕ → Result ℤ
read_i32 payload = do v ← extract_varint payload; ok (as_i32 v)

unfoldable pub read_bool : List ℕ → Result Bool
read_bool payload = do v ← extract_varint payload; ok (not (v == 0))

unfoldable pub read_tile : List ℕ → Result Text
read_tile payload = tile_str_to_mjai (extract_string payload)

pub read_u32-ne-stuck : (payload : List ℕ) → read_u32 payload ≢ stuck
unfolding read_u32
read_u32-ne-stuck payload h = ground (arith, extract_varint-ne-stuck payload)

pub read_i32-ne-stuck : (payload : List ℕ) → read_i32 payload ≢ stuck
unfolding read_i32
read_i32-ne-stuck payload h = ground (arith, extract_varint-ne-stuck payload)

pub read_bool-ne-stuck : (payload : List ℕ) → read_bool payload ≢ stuck
unfolding read_bool
read_bool-ne-stuck payload h = ground (arith, extract_varint-ne-stuck payload)

tile_of-ne-stuck : (num suit : Text) → tile_of num suit ≢ stuck
unfolding tile_of honor
tile_of-ne-stuck num suit h = ground arith

pub tile_str_to_mjai-ne-stuck : (s : Text) → tile_str_to_mjai s ≢ stuck
unfolding tile_str_to_mjai
tile_str_to_mjai-ne-stuck [] h = ground arith
tile_str_to_mjai-ne-stuck (b ∷ bs) h = grind (arith, tile_of-ne-stuck)

pub read_tile-ne-stuck : (payload : List ℕ) → read_tile payload ≢ stuck
unfolding read_tile
read_tile-ne-stuck payload = tile_str_to_mjai-ne-stuck (extract_string payload)
