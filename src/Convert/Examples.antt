-- ===== src/Convert/Examples.antt =====
-- A hand that src/majsoul/convert.rs translates: a riichi, a concealed kan, a win.
use majsoulmanager.Prelude.{
  ℕ, ◌≡◌, refl, true, false, List, [], ◌∷◌, Option, none, some, inl, inr, replicate, arith,
}
use majsoulmanager.Prelude.Int.{pos}
use majsoulmanager.Prelude.Text.{codes}
use majsoulmanager.Proto.Game.{GameRecord}
use majsoulmanager.Events.Types.{AnGangAddGangType, GameEvent}
use majsoulmanager.Convert.Types.{Body}
use majsoulmanager.Convert.Stream.{events_to_mjai}
use majsoulmanager.Convert.Bodies.{bodies_of}
use majsoulmanager.Convert.Clock.{total_ms, NeverBack, last_ms, total_ms-events_to_mjai}
use majsoulmanager.Convert.Standing.{Standing, follow}
use majsoulmanager.Convert.Table.{AllGrow, shown_all, reported_all}
use majsoulmanager.Convert.Doras.{shown_all-events_to_mjai}

abbrev game : GameRecord
game = record {
  uuid = codes "240102-a";
  start_time = 1;
  end_time = 2;
  mode_id = pos 12;
  player_names = replicate 4 (codes "n");
  player_accounts = [];
  result = [];
  records = [];
}

abbrev hand : List (Option ℕ × GameEvent)
hand =
    (
      some 100,
      GameEvent.new_round (record {
        chang = 0;
        ju = 0;
        ben = 0;
        liqibang = 0;
        dora_marker = codes "1m";
        doras = codes "1m" ∷ [];
        scores = [];
        tiles = [];
      }),
    )
    ∷ (
      some 900,
      GameEvent.discard_tile (record {
        seat = 0;
        tile = codes "9p";
        is_liqi = true;
        moqie = true;
        is_wliqi = false;
        doras = [];
      }),
    )
    ∷ (none, GameEvent.deal_tile (record { seat = 1; tile = codes "5s"; doras = [] }))
    ∷ (
      some 2500,
      GameEvent.an_gang_add_gang (record {
        seat = 1;
        gang_type = AnGangAddGangType.ankan;
        tiles = codes "5s";
        doras = codes "1m" ∷ codes "7z" ∷ [];
      }),
    )
    ∷ (
      some 2500,
      GameEvent.hule (record { hules = []; delta_scores = []; scores = []; doras = [] }),
    )
    ∷ []

hand-NeverBack : NeverBack 0 hand
unfolding NeverBack
hand-NeverBack = (omega arith, (omega arith, (omega arith, (omega arith, (omega arith, tt)))))

hand-AllGrow : AllGrow [] hand
unfolding AllGrow
hand-AllGrow = (refl, (inl refl, (inl refl, (inr (codes "7z" ∷ [], refl), (tt, tt)))))

-- No reader gets past an acceptance that nobody declared.
unasked : follow Standing.quiet (Body.reach_accepted 2) ≡ none
unfolding follow
unasked = refl

total_ms-events_to_mjai_example : total_ms (events_to_mjai game hand none) ≡ 2500
unfolding last_ms
total_ms-events_to_mjai_example = total_ms-events_to_mjai game hand none hand-NeverBack

shown_all-events_to_mjai_example :
    shown_all [] (bodies_of (events_to_mjai game hand none)) ≡ codes "1m" ∷ codes "7z" ∷ []
unfolding reported_all
shown_all-events_to_mjai_example = shown_all-events_to_mjai game hand none hand-AllGrow
