-- ===== src/Pipeline/Filling.antt =====
-- A fetch of the worker of src/indexer.rs: every record of the batch that parses gets into the pack.
use majsoulmanager.Prelude.{
  ◌≡◌, inl, inr, refl, sym, subst, ap, ◌∙◌, List, [], ◌∷◌, Option, none, some, All, All-map,
  All-append, Any, arith,
}
use majsoulmanager.Prelude.Text.{Text}
use majsoulmanager.Mjai.{Metadata, Parsed}
use majsoulmanager.Kafka.Message.{IngestMessage, TopicRecord}
use majsoulmanager.Pack.Format.{PackWriter, create}
use majsoulmanager.Pack.Format.Recovery.{IsRecord}
use majsoulmanager.Pipeline.Types.{Outside}
use majsoulmanager.Pipeline.World.{World, lookup}
use majsoulmanager.Pipeline.Worker.{Worker, append, fill, keep_pack, staged}
use majsoulmanager.Pipeline.Packing.{Packed, Open, metadata_for, append_batch}
use majsoulmanager.Pipeline.Packing.Batch.{IsRowOf, IsSound, IsSound-Longer}
use majsoulmanager.Pipeline.Packing.Rows.{HasRow, HasRow-Grown, append_batch-Grown}
use majsoulmanager.Pipeline.Held.{IsHeld, IsOpen, PackKeeps}

module _ (x : Outside) (world : World) where
  -- The message, if it parses, has its row in the open pack.
  abbrev pub IsIn : Worker → IngestMessage → Type 0
  IsIn w m =
      (metadata : Metadata)
      → metadata_for x m.raw ≡ Parsed.ok metadata
      → (writer : PackWriter) × (w.pack ≡ some writer)
        × Any (IsRowOf x writer.key writer.file m) w.rows

  pub record Filled (w w' : Worker) (messages : List IngestMessage) : Type 0 where
    pub pack : PackKeeps x world w'.rows w'.pack
    pub committed : w'.committed ≡ w.committed
    pub held : (r : TopicRecord) → IsHeld x world w r → IsHeld x world w' r
    pub new : All (IsIn w') messages

  keep_pack-ok :
      (w w' : Worker) (p : Packed Open)
      → keep_pack x w p ≡ Packed.ok w'
      → (o : Open) × (p ≡ Packed.ok o)
        × (record w { pack = some o.writer; rows = o.rows; player_games = o.player_games } ≡ w')
  keep_pack-ok w w' Packed.panic h = absurd (ground arith)
  keep_pack-ok w w' (Packed.err e) h = absurd (ground arith)
  keep_pack-ok w w' (Packed.ok o) h = (o, refl, ground (arith, h))

  abbrev before : Worker → PackWriter → Open
  before w writer = record { writer = writer; rows = w.rows; player_games = w.player_games }

  batch-Filled :
      (w w' : Worker) (writer : PackWriter) (messages : List IngestMessage)
      → IsOpen x world w.rows writer
      → ((v : PackWriter) → w.pack ≡ some v → v ≡ writer)
      → All (λ m. IsRecord (m.record_id, [])) messages
      → keep_pack x w (append_batch x (before w writer) messages) ≡ Packed.ok w'
      → Filled w w' messages
  batch-Filled w w' writer messages isopen only valid h =
      let (o, done, same) = keep_pack-ok w w' (append_batch x (before w writer) messages) h in
      let (g, rows) = append_batch-Grown x (before w writer) o messages valid isopen.sized done in
      subst (λ v. Filled w v messages) same
        (record {
          pack = record {
            new = ap (λ k. lookup k world.bucket) g.longer.key ∙ isopen.new;
            sized = g.longer.sized;
            sound =
                subst (λ l. All (IsSound x o.writer.key o.writer.file) l) (sym g.rows)
                  (All-append (IsSound x o.writer.key o.writer.file) w.rows g.new
                    (IsSound-Longer x writer o.writer w.rows g.longer isopen.sound) g.sound);
          };
          committed = refl;
          held = λ r held. elim held [
            | inl indexed ↦ inl indexed
            | inr (v, packed, h) ↦ inr (
              o.writer,
              refl,
              λ m metadata read parsed.
                  HasRow-Grown x (before w writer) o m g
                    (λ metadata' parsed'.
                      subst (λ u. Any (IsRowOf x u.key u.file m) w.rows) (only v packed)
                        (h m metadata read parsed))
                    metadata parsed,
            )
          ];
          new =
              All-map (HasRow x o)
                (IsIn
                  (record w { pack = some o.writer; rows = o.rows; player_games = o.player_games }))
                messages (λ m row metadata parsed. (o.writer, refl, row metadata parsed)) rows;
        })

  fill-Filled :
      (w w' : Worker) (p : Option PackWriter) (created : Option Text)
      (messages : List IngestMessage)
      → w.pack ≡ p
      → PackKeeps x world w.rows p
      → ((key : Text) → created ≡ some key → lookup key world.bucket ≡ none)
      → All (λ m. IsRecord (m.record_id, [])) messages
      → fill x w messages (staged p created) ≡ Packed.ok w'
      → Filled w w' messages
  unfolding create
  fill-Filled w w' (some writer) created messages packed isopen new valid h =
      batch-Filled w w' writer messages isopen (λ v e. ground (arith, e, packed)) valid h
  fill-Filled w w' none none messages packed empty new valid h = absurd (ground (arith, h))
  fill-Filled w w' none (some key) messages packed empty new valid h =
      batch-Filled w w' (create key) messages
        (record {
          new = new key refl;
          sized = refl;
          sound = subst (λ l. All (IsSound x key (create key).file) l) (sym empty) tt;
        })
        (λ v e. absurd (ground (arith, e, packed))) valid h

  pub append-Filled :
      (w w' : Worker) (created : Option Text) (messages : List IngestMessage)
      → PackKeeps x world w.rows w.pack
      → ((key : Text) → created ≡ some key → lookup key world.bucket ≡ none)
      → All (λ m. IsRecord (m.record_id, [])) messages
      → append x w created messages ≡ Packed.ok w'
      → Filled w w' messages
  unfolding append
  append-Filled w w' created [] keeps new valid h =
      let same : w ≡ w' = ground (arith, h) in
      subst (λ v. Filled w v []) same
        (record { pack = keeps; committed = refl; held = λ r i. i; new = tt })
  append-Filled w w' created (m ∷ messages) keeps new valid h =
      fill-Filled w w' w.pack created (m ∷ messages) refl keeps new valid h
