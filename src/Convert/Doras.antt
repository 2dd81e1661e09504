-- ===== src/Convert/Doras.antt =====
-- The dora indicators in the stream that `events_to_mjai` of src/majsoul/convert.rs answers.
use mathlib.Core.List.{append_assoc, append-nil}
use majsoulmanager.Prelude.{
  ℕ, zero, suc, ◌≡◌, inl, inr, refl, sym, ap, subst, ◌∙◌, List, [], ◌∷◌, ◌++◌, Option, none, some,
  length, map, drop, arith, length-append, drop-length-append,
}
use majsoulmanager.Prelude.Text.{Text}
use majsoulmanager.Proto.Game.{GameRecord}
use majsoulmanager.Events.Types.{DiscardTile, AnGangAddGangType, HuleInfo, Hule, GameEvent}
use majsoulmanager.Convert.Types.{GameMetadata, Body}
use majsoulmanager.Convert.Events.{
  Tracker, no_tracker, accept, new_doras, reveal, new_round, deal_tile, discard_tile, chi_peng_gang,
  kan, an_gang_add_gang, hora, hule, no_tile, liu_ju, ba_bei, translate,
}
use majsoulmanager.Convert.Table.{
  shown, shown_all, faced, reported, reported_all, Extends, Grows, AllGrow,
}
use majsoulmanager.Convert.Stream.{start_game, end_game, events_to_mjai}
use majsoulmanager.Convert.Bodies.{bodies_of, bodies_from, bodies_of-events_to_mjai}

shown_all-append :
    (table : List Text) (xs ys : List Body)
    → shown_all table (xs ++ ys) ≡ shown_all (shown_all table xs) ys
unfolding shown_all
shown_all-append table [] ys = refl
shown_all-append table (x ∷ xs) ys = shown_all-append (shown table x) xs ys

shown_all-dora :
    (table markers : List Text) → shown_all table (map Body.dora markers) ≡ table ++ markers
unfolding shown_all shown
shown_all-dora table [] = sym (append-nil table)
shown_all-dora table (marker ∷ markers) =
    shown_all-dora (table ++ marker ∷ []) markers ∙ append_assoc table (marker ∷ []) markers

drop_nil : (n : ℕ) → drop {A = Text} n [] ≡ []
drop_nil zero = refl
drop_nil (suc n) = refl

faced-append : (table more : List Text) → faced table (table ++ more) ≡ table ++ more
faced-append [] [] = refl
faced-append [] (m ∷ more) = refl
faced-append (x ∷ table) more = refl

shown_all-new_doras :
    (table face_up : List Text)
    → Extends table face_up
    → shown_all table (new_doras table face_up) ≡ faced table face_up
unfolding new_doras shown_all
shown_all-new_doras table face_up (inl empty) = rw (empty, drop_nil (length table)) refl
shown_all-new_doras table face_up (inr (more, longer)) =
    rw (longer, drop-length-append table more (length table) refl, shown_all-dora table more)
      (sym (faced-append table more))

reveal-faced :
    (table face_up : List Text) → Extends table face_up → reveal table face_up ≡ faced table face_up
unfolding reveal
reveal-faced table face_up (inl empty) = rw empty (ground arith)
reveal-faced table face_up (inr (more, longer)) = rw longer (kept more)
  where
    kept : (xs : List Text) → reveal table (table ++ xs) ≡ faced table (table ++ xs)
    kept [] = rw (append-nil table) (ground (arith, faced-append table [], append-nil table))
    kept (m ∷ more) = ground (arith, length-append table (m ∷ more), faced-append table (m ∷ more))

shown_all-accept :
    (table : List Text) (pending : Option ℕ) (bodies : List Body)
    → shown_all table (accept pending ++ bodies) ≡ shown_all table bodies
unfolding shown_all shown accept
shown_all-accept table none bodies = refl
shown_all-accept table (some actor) bodies = refl

shown_all-hules :
    (table : List Text) (t : Tracker) (h : Hule) (hules : List HuleInfo)
    → shown_all table (map (hora t h) hules ++ Body.end_kyoku ∷ []) ≡ table
unfolding shown_all shown hora
shown_all-hules table t h [] = refl
shown_all-hules table t h (won ∷ hules) = shown_all-hules table t h hules

shown_all-kan :
    (table : List Text) (kind : AnGangAddGangType) (seat : ℕ) (tiles : Text) (bodies : List Body)
    → shown_all table ((kan kind seat tiles).0 ∷ bodies) ≡ shown_all table bodies
unfolding kan shown_all shown
shown_all-kan table AnGangAddGangType.kakan seat tiles bodies = refl
shown_all-kan table AnGangAddGangType.ankan seat tiles bodies = refl

shown_all-discard_tile :
    (t : Tracker) (dt : DiscardTile)
    → shown_all t.revealed_doras (discard_tile t dt).0
      ≡ shown_all t.revealed_doras (new_doras t.revealed_doras dt.doras)
unfolding discard_tile shown_all shown
shown_all-discard_tile t dt = ground arith

discard_tile-revealed_doras :
    (t : Tracker) (dt : DiscardTile)
    → (discard_tile t dt).1.revealed_doras ≡ reveal t.revealed_doras dt.doras
unfolding discard_tile
discard_tile-revealed_doras t dt = ground arith

shown_all-translate :
    (n : ℕ) (t : Tracker) (e : GameEvent)
    → Grows t.revealed_doras e
    → shown_all t.revealed_doras (translate n t e).0 ≡ reported t.revealed_doras e
unfolding translate new_round deal_tile chi_peng_gang an_gang_add_gang hule no_tile liu_ju ba_bei
    shown_all shown reported Grows
shown_all-translate n t (GameEvent.new_round nr) g =
    shown_all-dora (nr.dora_marker ∷ []) (drop 1 nr.doras) ∙ sym g
shown_all-translate n t (GameEvent.deal_tile dt) g =
    shown_all-accept t.revealed_doras t.pending_reach _
    ∙ shown_all-new_doras t.revealed_doras dt.doras g
shown_all-translate n t (GameEvent.discard_tile dt) g =
    shown_all-discard_tile t dt ∙ shown_all-new_doras t.revealed_doras dt.doras g
shown_all-translate n t (GameEvent.chi_peng_gang cpg) g =
    shown_all-accept t.revealed_doras t.pending_reach _
shown_all-translate n t (GameEvent.an_gang_add_gang ag) g =
    shown_all-kan t.revealed_doras ag.gang_type ag.seat ag.tiles
      (new_doras t.revealed_doras ag.doras)
    ∙ shown_all-new_doras t.revealed_doras ag.doras g
shown_all-translate n t (GameEvent.hule h) g = shown_all-hules t.revealed_doras t h h.hules
shown_all-translate n t (GameEvent.no_tile nt) g =
    shown_all-accept t.revealed_doras t.pending_reach _
shown_all-translate n t (GameEvent.liu_ju lj) g =
    shown_all-accept t.revealed_doras t.pending_reach _
shown_all-translate n t (GameEvent.ba_bei bb) g = shown_all-new_doras t.revealed_doras bb.doras g

translate-revealed_doras :
    (n : ℕ) (t : Tracker) (e : GameEvent)
    → Grows t.revealed_doras e
    → (translate n t e).1.revealed_doras ≡ reported t.revealed_doras e
unfolding translate new_round deal_tile chi_peng_gang an_gang_add_gang hule no_tile liu_ju ba_bei
    reported Grows
translate-revealed_doras n t (GameEvent.new_round nr) g = refl
translate-revealed_doras n t (GameEvent.deal_tile dt) g = reveal-faced t.revealed_doras dt.doras g
translate-revealed_doras n t (GameEvent.discard_tile dt) g =
    discard_tile-revealed_doras t dt ∙ reveal-faced t.revealed_doras dt.doras g
translate-revealed_doras n t (GameEvent.chi_peng_gang cpg) g = refl
translate-revealed_doras n t (GameEvent.an_gang_add_gang ag) g =
    reveal-faced t.revealed_doras ag.doras g
translate-revealed_doras n t (GameEvent.hule h) g = refl
translate-revealed_doras n t (GameEvent.no_tile nt) g = refl
translate-revealed_doras n t (GameEvent.liu_ju lj) g = refl
translate-revealed_doras n t (GameEvent.ba_bei bb) g = reveal-faced t.revealed_doras bb.doras g

shown_all-bodies_from :
    (n : ℕ) (t : Tracker) (events : List (Option ℕ × GameEvent))
    → AllGrow t.revealed_doras events
    → shown_all t.revealed_doras (bodies_from n t events) ≡ reported_all t.revealed_doras events
unfolding bodies_from shown_all reported_all AllGrow
shown_all-bodies_from n t [] g = refl
shown_all-bodies_from n t ((passed_ms, e) ∷ events) (g, grows) =
    let t' : Tracker = (translate n t e).1 in
    let same : t'.revealed_doras ≡ reported t.revealed_doras e = translate-revealed_doras n t e g in
    shown_all-append t.revealed_doras (translate n t e).0 (bodies_from n t' events)
    ∙ ap (λ table. shown_all table (bodies_from n t' events))
        (shown_all-translate n t e g ∙ sym same)
    ∙ shown_all-bodies_from n t' events (subst (λ table. AllGrow table events) (sym same) grows)
    ∙ ap (λ table. reported_all table events) same

-- When every hand's first report starts with the marker that the hand opens with, and each later
-- report is empty or has more behind what was face up, a reader who collects the markers of
-- start_kyoku and of the dora events that events_to_mjai answers ends with what the game's starts of
-- hands, draws, discards, kans and norths reported last, each indicator once and in its order. The
-- list that a win carries is left out.
pub shown_all-events_to_mjai :
    (r : GameRecord) (events : List (Option ℕ × GameEvent)) (metadata : Option GameMetadata)
    → AllGrow [] events
    → shown_all [] (bodies_of (events_to_mjai r events metadata)) ≡ reported_all [] events
unfolding shown_all shown start_game end_game
shown_all-events_to_mjai r events metadata g =
    ap (shown_all []) (bodies_of-events_to_mjai r events metadata)
    ∙ shown_all-append [] (bodies_from (length r.player_names) no_tracker events)
        (end_game r.result ∷ [])
    ∙ shown_all-bodies_from (length r.player_names) no_tracker events g
