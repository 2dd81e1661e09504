-- ===== src/Convert/Stream.antt =====
-- `events_to_mjai` of src/majsoul/convert.rs: the header, the loop with its clock, the settlement.
use majsoulmanager.Prelude.{
  ℕ, ◌-◌, Bool, List, [], ◌∷◌, ◌++◌, Option, none, some, ◌==◌, if◌then◌else◌, length, map,
}
use majsoulmanager.Prelude.Int.{ℤ}
use majsoulmanager.Proto.Record.{PlayerResult, PlayerAccountMeta}
use majsoulmanager.Proto.Game.{GameRecord}
use majsoulmanager.Events.Types.{GameEvent}
use majsoulmanager.Convert.Types.{GameMetadata, Body, Mjai}
use majsoulmanager.Convert.Ranks.{get_dan_name}
use majsoulmanager.Convert.Events.{Tracker, no_tracker, translate}

abbrev pub timeless : Body → Mjai
timeless body = record { body = body; dt_ms = none }

abbrev pub after : ℕ → Body → Mjai
after gap body = record { body = body; dt_ms = some gap }

-- What the bodies of one event become: the first has the gap, and the others happen with it.
unfoldable pub stamp : Option ℕ → ℕ → List Body → List Mjai
stamp none previous_ms bodies = map timeless bodies
stamp (some passed_ms) previous_ms [] = []
stamp (some passed_ms) previous_ms (body ∷ bodies) =
    after (passed_ms - previous_ms) body ∷ map (after 0) bodies

abbrev pub tick : Option ℕ → ℕ → ℕ
tick none previous_ms = previous_ms
tick (some passed_ms) previous_ms = passed_ms

-- The loop.
unfoldable pub timed_events : ℕ → Tracker → ℕ → List (Option ℕ × GameEvent) → List Mjai
unfolding stamp translate
timed_events num_players t previous_ms [] = []
timed_events num_players t previous_ms ((passed_ms, event) ∷ events) =
    stamp passed_ms previous_ms (translate num_players t event).0
    ++ timed_events num_players (translate num_players t event).1 (tick passed_ms previous_ms)
        events

unfoldable pub level_of : Bool → PlayerAccountMeta → ℕ × ℤ
level_of three_player account =
    if three_player
    then (account.level3_id, account.level3_score)
    else (account.level_id, account.level_score)

unfoldable pub start_game : GameRecord → Option GameMetadata → Body
unfolding level_of get_dan_name
start_game r metadata =
    let three_player = length r.player_names == 3 in
    Body.start_game r.player_names (record {
      uuid = r.uuid;
      start_time = r.start_time;
      end_time = r.end_time;
      account_ids = map (λ (account : PlayerAccountMeta). account.account_id) r.player_accounts;
      level_ids = map (λ account. (level_of three_player account).0) r.player_accounts;
      ranks = map (λ account. get_dan_name (level_of three_player account).0) r.player_accounts;
      level_scores = map (λ account. (level_of three_player account).1) r.player_accounts;
      metadata = metadata;
    })

unfoldable pub end_game : List PlayerResult → Body
end_game result = Body.end_game (map (λ (player : PlayerResult). player.part_point_1) result) result

unfoldable pub events_to_mjai :
    GameRecord → List (Option ℕ × GameEvent) → Option GameMetadata → List Mjai
unfolding timed_events start_game end_game
events_to_mjai r events metadata =
    timeless (start_game r metadata) ∷ timed_events (length r.player_names) no_tracker 0 events
    ++ timeless (end_game r.result) ∷ []
