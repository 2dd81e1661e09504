-- ===== src/Events/Action.antt =====
-- `parse_record_action` of src/majsoul/events.rs, and that it ends.
use majsoulmanager.Prelude.{ℕ, ◌≢◌, List, Option, none, some, if◌then◌else◌, arith}
use majsoulmanager.Prelude.Text.{Text, codes, text_eq}
use majsoulmanager.Proto.Errors.{Result, ok, stuck, ◌>>=◌}
use majsoulmanager.Events.Types.{GameEvent}
use majsoulmanager.Events.Turns.{
  parse_new_round, parse_deal_tile, parse_discard_tile, parse_chi_peng_gang, parse_an_gang_add_gang,
  parse_liu_ju, parse_babei,
}
use majsoulmanager.Events.Ends.{parse_hule}
use majsoulmanager.Events.Draw.{parse_no_tile}
use majsoulmanager.Events.Total.{
  parse_new_round-ne-stuck, parse_deal_tile-ne-stuck, parse_discard_tile-ne-stuck,
  parse_chi_peng_gang-ne-stuck, parse_an_gang_add_gang-ne-stuck, parse_liu_ju-ne-stuck,
  parse_babei-ne-stuck, parse_hule-ne-stuck, parse_no_tile-ne-stuck,
}

-- The arms of the ends of a round, and of a north tile.
unfoldable pub parse_ending : Text → List ℕ → Result (Option GameEvent)
parse_ending name bytes =
    if text_eq name (codes ".lq.RecordHule")
    then (do r ← parse_hule bytes; ok (some (GameEvent.hule r)))
    else if text_eq name (codes ".lq.RecordNoTile")
    then (do r ← parse_no_tile bytes; ok (some (GameEvent.no_tile r)))
    else if text_eq name (codes ".lq.RecordLiuJu")
    then (do r ← parse_liu_ju bytes; ok (some (GameEvent.liu_ju r)))
    else if text_eq name (codes ".lq.RecordBaBei")
    then (do r ← parse_babei bytes; ok (some (GameEvent.ba_bei r)))
    else ok none

-- `none` for an action that is skipped.
unfoldable pub parse_record_action : Text → List ℕ → Result (Option GameEvent)
unfolding parse_ending
parse_record_action name bytes =
    if text_eq name (codes ".lq.RecordNewRound")
    then (do r ← parse_new_round bytes; ok (some (GameEvent.new_round r)))
    else if text_eq name (codes ".lq.RecordDealTile")
    then (do r ← parse_deal_tile bytes; ok (some (GameEvent.deal_tile r)))
    else if text_eq name (codes ".lq.RecordDiscardTile")
    then (do r ← parse_discard_tile bytes; ok (some (GameEvent.discard_tile r)))
    else if text_eq name (codes ".lq.RecordChiPengGang")
    then (do r ← parse_chi_peng_gang bytes; ok (some (GameEvent.chi_peng_gang r)))
    else if text_eq name (codes ".lq.RecordAnGangAddGang")
    then (do r ← parse_an_gang_add_gang bytes; ok (some (GameEvent.an_gang_add_gang r)))
    else parse_ending name bytes

parse_ending-ne-stuck : (name : Text) (bytes : List ℕ) → parse_ending name bytes ≢ stuck
unfolding parse_ending
parse_ending-ne-stuck name bytes h = ground (
  arith,
  h,
  parse_hule-ne-stuck bytes,
  parse_no_tile-ne-stuck bytes,
  parse_liu_ju-ne-stuck bytes,
  parse_babei-ne-stuck bytes,
)

-- On any name and any bytes, parse_record_action comes to an answer, an error or a panic: none of
-- the decoders' loops runs out of the fuel that its buffer's length gives.
pub parse_record_action-ne-stuck :
    (name : Text) (bytes : List ℕ) → parse_record_action name bytes ≢ stuck
unfolding parse_record_action
parse_record_action-ne-stuck name bytes h = ground (
  arith,
  h,
  parse_ending-ne-stuck name bytes,
  parse_new_round-ne-stuck bytes,
  parse_deal_tile-ne-stuck bytes,
  parse_discard_tile-ne-stuck bytes,
  parse_chi_peng_gang-ne-stuck bytes,
  parse_an_gang_add_gang-ne-stuck bytes,
)
