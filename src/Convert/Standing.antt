-- ===== src/Convert/Standing.antt =====
-- What a reader of the stream that `events_to_mjai` of src/majsoul/convert.rs answers holds to, as to
-- the declarations of riichi.
use majsoulmanager.Prelude.{ℕ, List, [], ◌∷◌, Option, none, some, ◌==◌, if◌then◌else◌}
use majsoulmanager.Convert.Types.{Body}

-- Where a reader stands: no riichi is open, one is declared, or one has just been accepted.
pub data Standing : Type 0 where
  quiet accepted : Standing
  declared : ℕ → Standing

-- After a draw, a call or a drawn hand: no declaration is left open by them.
abbrev pub settled : Standing → Option Standing
settled Standing.quiet = some Standing.quiet
settled Standing.accepted = some Standing.quiet
settled (Standing.declared seat) = none

-- After anything else: what was accepted is not settled by it.
abbrev pub passed : Standing → Standing → Option Standing
passed Standing.quiet next = some next
passed (Standing.declared seat) next = some next
passed Standing.accepted next = none

abbrev pub confirmed : Standing → ℕ → Option Standing
confirmed Standing.quiet actor = none
confirmed Standing.accepted actor = none
confirmed (Standing.declared seat) actor = if seat == actor then some Standing.accepted else none

-- One event, and `none` for an event that may not come then. A declaration opens on `reach`; it is
-- accepted right before the draw, the call or the drawn hand that comes next; a win or a new hand
-- forgets it.
unfoldable pub follow : Standing → Body → Option Standing
follow s (Body.reach actor) = passed s (Standing.declared actor)
follow s (Body.reach_accepted actor) = confirmed s actor
follow s (Body.tsumo actor pai) = settled s
follow s (Body.called kind actor target pai consumed) = settled s
follow s (Body.ryukyoku tenpai liujumanguan hands scores deltas) = settled s
follow s (Body.abortive why actor tehai) = settled s
follow s (Body.hora won) = passed s Standing.quiet
follow s Body.end_kyoku = passed s Standing.quiet
follow s (Body.start_kyoku started) = passed s Standing.quiet
follow s (Body.start_game names header) = passed s s
follow s (Body.dora marker) = passed s s
follow s (Body.dahai actor pai tsumogiri) = passed s s
follow s (Body.ankan actor consumed) = passed s s
follow s (Body.kakan actor pai) = passed s s
follow s (Body.nukidora actor tsumogiri) = passed s s
follow s (Body.end_game scores result) = passed s s

unfoldable pub follow_all : Standing → List Body → Option Standing
follow_all s [] = some s
follow_all s (body ∷ bodies) = elim (follow s body) [ none ↦ none | some s' ↦ follow_all s' bodies ]

-- Where the reader stands between two records.
abbrev pub standing : Option ℕ → Standing
standing none = Standing.quiet
standing (some seat) = Standing.declared seat
