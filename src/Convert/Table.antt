-- ===== src/Convert/Table.antt =====
-- The dora indicators on the table: what the events of src/majsoul/events.rs report, and what a reader
-- of the mjai stream of src/majsoul/convert.rs has.
use majsoulmanager.Prelude.{ℕ, ◌≡◌, ◌⊎◌, List, [], ◌∷◌, ◌++◌, Option, drop}
use majsoulmanager.Prelude.Text.{Text}
use majsoulmanager.Events.Types.{GameEvent}
use majsoulmanager.Convert.Types.{Body}

-- The indicators that a reader of the stream has on the table.
unfoldable pub shown : List Text → Body → List Text
shown table (Body.start_kyoku started) = started.dora_marker ∷ []
shown table (Body.dora marker) = table ++ marker ∷ []
shown table (Body.start_game names header) = table
shown table (Body.reach actor) = table
shown table (Body.reach_accepted actor) = table
shown table (Body.tsumo actor pai) = table
shown table (Body.dahai actor pai tsumogiri) = table
shown table (Body.called kind actor target pai consumed) = table
shown table (Body.ankan actor consumed) = table
shown table (Body.kakan actor pai) = table
shown table (Body.hora won) = table
shown table (Body.ryukyoku tenpai liujumanguan hands scores deltas) = table
shown table (Body.abortive why actor tehai) = table
shown table Body.end_kyoku = table
shown table (Body.nukidora actor tsumogiri) = table
shown table (Body.end_game scores result) = table

unfoldable pub shown_all : List Text → List Body → List Text
unfolding shown
shown_all table [] = table
shown_all table (body ∷ bodies) = shown_all (shown table body) bodies

-- What the game's starts of hands, draws, discards, kans and norths say is face up: the last report of
-- theirs that is not empty. A win has a list of its own, which it carries along.
abbrev pub faced : List Text → List Text → List Text
faced table [] = table
faced table (d ∷ ds) = d ∷ ds

unfoldable pub reported : List Text → GameEvent → List Text
reported table (GameEvent.new_round nr) = nr.doras
reported table (GameEvent.deal_tile dt) = faced table dt.doras
reported table (GameEvent.discard_tile dt) = faced table dt.doras
reported table (GameEvent.an_gang_add_gang ag) = faced table ag.doras
reported table (GameEvent.ba_bei bb) = faced table bb.doras
reported table (GameEvent.chi_peng_gang cpg) = table
reported table (GameEvent.hule h) = table
reported table (GameEvent.no_tile nt) = table
reported table (GameEvent.liu_ju lj) = table

unfoldable pub reported_all : List Text → List (Option ℕ × GameEvent) → List Text
unfolding reported
reported_all table [] = table
reported_all table ((passed_ms, e) ∷ events) = reported_all (reported table e) events

-- A report is empty, or it has more behind what was face up before.
abbrev pub Extends : List Text → List Text → Type 0
Extends table face_up = (face_up ≡ []) ⊎ ((more : List Text) × (face_up ≡ table ++ more))

unfoldable pub Grows : List Text → GameEvent → Type 0
Grows table (GameEvent.new_round nr) = nr.doras ≡ nr.dora_marker ∷ drop 1 nr.doras
Grows table (GameEvent.deal_tile dt) = Extends table dt.doras
Grows table (GameEvent.discard_tile dt) = Extends table dt.doras
Grows table (GameEvent.an_gang_add_gang ag) = Extends table ag.doras
Grows table (GameEvent.ba_bei bb) = Extends table bb.doras
Grows table (GameEvent.chi_peng_gang cpg) = Unit
Grows table (GameEvent.hule h) = Unit
Grows table (GameEvent.no_tile nt) = Unit
Grows table (GameEvent.liu_ju lj) = Unit

unfoldable pub AllGrow : List Text → List (Option ℕ × GameEvent) → Type 0
unfolding Grows reported
AllGrow table [] = Unit
AllGrow table ((passed_ms, e) ∷ events) = Grows table e × AllGrow (reported table e) events
