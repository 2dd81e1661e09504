-- ===== src/Events/Draw.antt =====
-- `parse_no_tile` of src/majsoul/events.rs. The sum of two scores wraps at 32 bits, as in a release
-- build.
use majsoulmanager.Prelude.{
  ℕ, ◌-◌, Bool, List, [], ◌∷◌, ◌++◌, false, ltb, if◌then◌else◌, length, replicate,
}
use majsoulmanager.Prelude.Int.{ℤ, pos, wrapping_add}
use majsoulmanager.Prelude.Text.{Text}
use majsoulmanager.Proto.Errors.{Result, ok, ◌>>=◌}
use majsoulmanager.Proto.Fields.{Field, Flow, continue, for_fields, decode_packed_varints}
use majsoulmanager.Proto.Record.{is_arm, is_empty}
use majsoulmanager.Events.Types.{NoTile}
use majsoulmanager.Events.Reading.{read_i32, read_bool, read_tile}

-- `NoTilePlayerInfo`: whether the seat is tenpai, and the hand it showed.
unfoldable pub player_arm : Bool × List Text → Field → Result (Flow (Bool × List Text))
player_arm (tenpai, hand) f =
    if is_arm f 3 0
    then (do v ← read_bool f.payload; ok (continue (v, hand)))
    else if is_arm f 4 2
    then (do tile ← read_tile f.payload; ok (continue (tenpai, hand ++ tile ∷ [])))
    else ok (continue (tenpai, hand))

-- `NoTileScoreInfo`: the scores before a payment, and the payment.
unfoldable pub payment_arm : List ℤ × List ℤ → Field → Result (Flow (List ℤ × List ℤ))
payment_arm (old, delta) f =
    if is_arm f 2 2
    then (do vs ← decode_packed_varints f.payload; ok (continue (old ++ vs, delta)))
    else if is_arm f 2 0
    then (do v ← read_i32 f.payload; ok (continue (old ++ v ∷ [], delta)))
    else if is_arm f 3 2
    then (do vs ← decode_packed_varints f.payload; ok (continue (old, delta ++ vs)))
    else if is_arm f 3 0
    then (do v ← read_i32 f.payload; ok (continue (old, delta ++ v ∷ [])))
    else ok (continue (old, delta))

unfoldable pub read_player : List ℕ → Result (Bool × List Text)
unfolding player_arm
read_player payload = for_fields player_arm (false, []) payload

unfoldable pub read_payment : List ℕ → Result (List ℤ × List ℤ)
unfolding payment_arm
read_payment payload = for_fields payment_arm ([], []) payload

-- `resize(n, 0)` of a list with fewer than n elements.
abbrev grown : List ℤ → ℕ → List ℤ
grown xs n = if ltb (length xs) n then xs ++ replicate (n - length xs) (pos 0) else xs

zip_add : List ℤ → List ℤ → List ℤ
zip_add [] delta = []
zip_add (total ∷ totals) [] = total ∷ totals
zip_add (total ∷ totals) (one ∷ delta) = wrapping_add total one ∷ zip_add totals delta

pub add_payment : List ℤ → List ℤ → List ℤ
unfolding zip_add
add_payment totals delta = zip_add (grown totals (length delta)) delta

-- The loop's variables, with the scores before the first payment.
pub record Draw : Type 0 where
  pub old_scores : List ℤ
  pub delta_scores : List ℤ
  pub tenpai : List Bool
  pub tenpai_hands : List (List Text)
  pub liujumanguan : Bool

unfoldable pub no_tile_arm : Draw → Field → Result (Flow Draw)
unfolding read_player read_payment add_payment
no_tile_arm r f =
    if is_arm f 1 0
    then (do v ← read_bool f.payload; ok (continue (record r { liujumanguan = v })))
    else if is_arm f 2 2
    then (do
      (tenpai, hand) ← read_player f.payload
      ok (
          continue (record r {
            tenpai = r.tenpai ++ tenpai ∷ [];
            tenpai_hands = r.tenpai_hands ++ hand ∷ [];
          })))
    else if is_arm f 3 2
    then (do
      (old, delta) ← read_payment f.payload
      ok (
          continue (record r {
            old_scores = if is_empty r.old_scores then old else r.old_scores;
            delta_scores = add_payment r.delta_scores delta;
          })))
    else ok (continue r)

-- `old + delta` for each seat, a seat without a payment having 0.
pub scores_after : List ℤ → List ℤ → List ℤ
scores_after [] deltas = []
scores_after (old ∷ olds) [] = wrapping_add old (pos 0) ∷ scores_after olds []
scores_after (old ∷ olds) (delta ∷ deltas) = wrapping_add old delta ∷ scores_after olds deltas

unfoldable pub parse_no_tile : List ℕ → Result NoTile
unfolding no_tile_arm scores_after
parse_no_tile bytes = do
  r ←
      for_fields no_tile_arm
        (record {
          old_scores = [];
          delta_scores = [];
          tenpai = [];
          tenpai_hands = [];
          liujumanguan = false;
        })
        bytes
  ok (record {
    scores = scores_after r.old_scores r.delta_scores;
    delta_scores = r.delta_scores;
    tenpai = r.tenpai;
    liujumanguan = r.liujumanguan;
    tenpai_hands = r.tenpai_hands;
  })
