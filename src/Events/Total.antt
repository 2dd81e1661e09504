-- ===== src/Events/Total.antt =====
-- No decoder of src/majsoul/events.rs runs out of fuel, whatever the bytes.
use majsoulmanager.Prelude.{ℕ, ◌≢◌, List, [], ◌∷◌, refl, arith}
use majsoulmanager.Prelude.Text.{Text}
use majsoulmanager.Proto.Errors.{Result, ok, err, panic, stuck, ◌>>=◌}
use majsoulmanager.Proto.Fields.{Field, for_fields, decode_packed_varints}
use majsoulmanager.Proto.Fields.Progress.{for_fields-ne-stuck}
use majsoulmanager.Proto.Fields.Packed.{decode_packed_varints_lem}
use majsoulmanager.Proto.Text.{extract_string}
use majsoulmanager.Events.Types.{NewRound, HuleInfo}
use majsoulmanager.Events.Reading.{
  read_u32-ne-stuck, read_i32-ne-stuck, read_bool-ne-stuck, read_tile-ne-stuck,
  tile_str_to_mjai-ne-stuck,
}
use majsoulmanager.Events.Turns.{
  new_round_arm, new_round_tile_arm, new_round_score_arm, push_tile, parse_new_round, deal_tile_arm,
  parse_deal_tile, discard_tile_arm, parse_discard_tile, chi_peng_gang_arm, parse_chi_peng_gang,
  an_gang_add_gang_arm, parse_an_gang_add_gang, liu_ju_arm, parse_liu_ju, babei_arm, parse_babei,
}
use majsoulmanager.Events.Ends.{
  fan_info_arm, parse_fan_info, tiles_to_mjai, parse_meld, hule_info_text_arm, hule_info_point_arm,
  hule_info_arm, parse_hule_info, hule_arm, parse_hule,
}
use majsoulmanager.Events.Draw.{
  player_arm, payment_arm, read_player, read_payment, Draw, no_tile_arm, parse_no_tile,
}

pub bind-ne-stuck :
    {A B : Type 0} (r : Result A) (k : A → Result B)
    → r ≢ stuck
    → ((a : A) → k a ≢ stuck)
    → (r >>= k) ≢ stuck
bind-ne-stuck panic k h g = λ e. cc
bind-ne-stuck stuck k h g = λ e. h refl
bind-ne-stuck (err x) k h g = λ e. cc
bind-ne-stuck (ok a) k h g = g a

pub answer-ne-stuck :
    {A B : Type 0} (r : Result A) (g : A → B) → r ≢ stuck → (r >>= λ a. ok (g a)) ≢ stuck
answer-ne-stuck r g h = bind-ne-stuck r (λ a. ok (g a)) h (λ a e. cc)

packed-ne-stuck : (bs : List ℕ) → decode_packed_varints bs ≢ stuck
packed-ne-stuck bs = decode_packed_varints_lem.0 bs

new_round_tile_arm-ne-stuck : (r : NewRound) (f : Field) → new_round_tile_arm r f ≢ stuck
unfolding new_round_tile_arm push_tile
new_round_tile_arm-ne-stuck r f h = ground (arith, h, read_tile-ne-stuck f.payload)

new_round_score_arm-ne-stuck : (r : NewRound) (f : Field) → new_round_score_arm r f ≢ stuck
unfolding new_round_score_arm
new_round_score_arm-ne-stuck r f h = ground (
  arith,
  h,
  read_i32-ne-stuck f.payload,
  packed-ne-stuck f.payload,
  new_round_tile_arm-ne-stuck r f,
)

new_round_arm-ne-stuck : (r : NewRound) (f : Field) → new_round_arm r f ≢ stuck
unfolding new_round_arm
new_round_arm-ne-stuck r f h =
    ground (arith, h, read_u32-ne-stuck f.payload, new_round_score_arm-ne-stuck r f)

new_round_loop : (r : NewRound) (bs : List ℕ) → for_fields new_round_arm r bs ≢ stuck
new_round_loop r bs = for_fields-ne-stuck new_round_arm new_round_arm-ne-stuck r bs

pub parse_new_round-ne-stuck : (bs : List ℕ) → parse_new_round bs ≢ stuck
unfolding parse_new_round
parse_new_round-ne-stuck bs = answer-ne-stuck _ _ (new_round_loop _ bs)

pub parse_deal_tile-ne-stuck : (bs : List ℕ) → parse_deal_tile bs ≢ stuck
unfolding parse_deal_tile
parse_deal_tile-ne-stuck bs =
    for_fields-ne-stuck deal_tile_arm
      (λ s f h. ground (arith, read_u32-ne-stuck f.payload, read_tile-ne-stuck f.payload)) _ bs

pub parse_discard_tile-ne-stuck : (bs : List ℕ) → parse_discard_tile bs ≢ stuck
unfolding parse_discard_tile
parse_discard_tile-ne-stuck bs =
    for_fields-ne-stuck discard_tile_arm
      (λ s f h. ground (
        arith,
        read_u32-ne-stuck f.payload,
        read_tile-ne-stuck f.payload,
        read_bool-ne-stuck f.payload,
      ))
      _ bs

pub parse_chi_peng_gang-ne-stuck : (bs : List ℕ) → parse_chi_peng_gang bs ≢ stuck
unfolding parse_chi_peng_gang
parse_chi_peng_gang-ne-stuck bs =
    for_fields-ne-stuck chi_peng_gang_arm
      (λ s f h. ground (
        arith,
        read_u32-ne-stuck f.payload,
        read_tile-ne-stuck f.payload,
        packed-ne-stuck f.payload,
      ))
      _ bs

pub parse_an_gang_add_gang-ne-stuck : (bs : List ℕ) → parse_an_gang_add_gang bs ≢ stuck
unfolding parse_an_gang_add_gang
parse_an_gang_add_gang-ne-stuck bs =
    for_fields-ne-stuck an_gang_add_gang_arm
      (λ s f h. ground (arith, read_u32-ne-stuck f.payload, read_tile-ne-stuck f.payload)) _ bs

pub parse_liu_ju-ne-stuck : (bs : List ℕ) → parse_liu_ju bs ≢ stuck
unfolding parse_liu_ju
parse_liu_ju-ne-stuck bs =
    for_fields-ne-stuck liu_ju_arm
      (λ s f h. ground (arith, read_u32-ne-stuck f.payload, read_tile-ne-stuck f.payload)) _ bs

pub parse_babei-ne-stuck : (bs : List ℕ) → parse_babei bs ≢ stuck
unfolding parse_babei
parse_babei-ne-stuck bs =
    for_fields-ne-stuck babei_arm
      (λ s f h. ground (
        arith,
        read_u32-ne-stuck f.payload,
        read_tile-ne-stuck f.payload,
        read_bool-ne-stuck f.payload,
      ))
      _ bs

parse_fan_info-ne-stuck : (bs : List ℕ) → parse_fan_info bs ≢ stuck
unfolding parse_fan_info
parse_fan_info-ne-stuck bs =
    for_fields-ne-stuck fan_info_arm (λ s f h. ground (arith, read_u32-ne-stuck f.payload)) _ bs

tiles_to_mjai-ne-stuck : (ts : List Text) → tiles_to_mjai ts ≢ stuck
unfolding tiles_to_mjai
tiles_to_mjai-ne-stuck [] h = ground arith
tiles_to_mjai-ne-stuck (t ∷ ts) h =
    ground (arith, h, tile_str_to_mjai-ne-stuck t, tiles_to_mjai-ne-stuck ts)

parse_meld-ne-stuck : (value : Text) → parse_meld value ≢ stuck
unfolding parse_meld
parse_meld-ne-stuck value h = grind (arith, tiles_to_mjai-ne-stuck)

hule_info_text_arm-ne-stuck : (r : HuleInfo) (f : Field) → hule_info_text_arm r f ≢ stuck
unfolding hule_info_text_arm
hule_info_text_arm-ne-stuck r f h = ground (
  arith,
  read_tile-ne-stuck f.payload,
  parse_meld-ne-stuck (extract_string f.payload),
  parse_fan_info-ne-stuck f.payload,
)

hule_info_point_arm-ne-stuck : (r : HuleInfo) (f : Field) → hule_info_point_arm r f ≢ stuck
unfolding hule_info_point_arm
hule_info_point_arm-ne-stuck r f h = ground (
  arith,
  h,
  read_u32-ne-stuck f.payload,
  read_i32-ne-stuck f.payload,
  hule_info_text_arm-ne-stuck r f,
)

hule_info_arm-ne-stuck : (r : HuleInfo) (f : Field) → hule_info_arm r f ≢ stuck
unfolding hule_info_arm
hule_info_arm-ne-stuck r f h = ground (
  arith,
  h,
  read_u32-ne-stuck f.payload,
  read_bool-ne-stuck f.payload,
  hule_info_point_arm-ne-stuck r f,
)

parse_hule_info-ne-stuck : (bs : List ℕ) → parse_hule_info bs ≢ stuck
unfolding parse_hule_info
parse_hule_info-ne-stuck bs = for_fields-ne-stuck hule_info_arm hule_info_arm-ne-stuck _ bs

pub parse_hule-ne-stuck : (bs : List ℕ) → parse_hule bs ≢ stuck
unfolding parse_hule
parse_hule-ne-stuck bs =
    for_fields-ne-stuck hule_arm
      (λ s f h. ground (
        arith,
        read_i32-ne-stuck f.payload,
        read_tile-ne-stuck f.payload,
        packed-ne-stuck f.payload,
        parse_hule_info-ne-stuck f.payload,
      ))
      _ bs

read_player-ne-stuck : (bs : List ℕ) → read_player bs ≢ stuck
unfolding read_player player_arm
read_player-ne-stuck bs =
    for_fields-ne-stuck player_arm
      (λ s f h. ground (arith, read_bool-ne-stuck f.payload, read_tile-ne-stuck f.payload)) _ bs

read_payment-ne-stuck : (bs : List ℕ) → read_payment bs ≢ stuck
unfolding read_payment payment_arm
read_payment-ne-stuck bs =
    for_fields-ne-stuck payment_arm
      (λ s f h. ground (arith, read_i32-ne-stuck f.payload, packed-ne-stuck f.payload)) _ bs

draw_loop : (s : Draw) (bs : List ℕ) → for_fields no_tile_arm s bs ≢ stuck
unfolding no_tile_arm
draw_loop s bs =
    for_fields-ne-stuck no_tile_arm
      (λ s f h. ground (
        arith,
        read_bool-ne-stuck f.payload,
        read_player-ne-stuck f.payload,
        read_payment-ne-stuck f.payload,
      ))
      s bs

pub parse_no_tile-ne-stuck : (bs : List ℕ) → parse_no_tile bs ≢ stuck
unfolding parse_no_tile
parse_no_tile-ne-stuck bs = answer-ne-stuck _ _ (draw_loop _ bs)
