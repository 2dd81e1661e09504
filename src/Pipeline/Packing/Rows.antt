-- ===== src/Pipeline/Packing/Rows.antt =====
-- `append_batch` of src/indexer.rs gives every message that parses a row that reads its bytes.
use majsoulmanager.Prelude.{
  ◌≡◌, inl, refl, sym, subst, List, [], ◌∷◌, ◌++◌, Option, length, All, Any, Any-front, Any-back,
  arith,
}
use majsoulmanager.Mjai.{Metadata, Parsed}
use majsoulmanager.Kafka.Message.{IngestMessage}
use majsoulmanager.Pack.Format.{Result, PackWriter, PackLocation, append}
use majsoulmanager.Pack.Format.Recovery.{IsRecord}
use majsoulmanager.Pipeline.Types.{Outside, Record, PbLocation, PlayerGame}
use majsoulmanager.Pipeline.Packing.{
  ok, of_pack, Open, metadata_for, append_pb, score, row_of, append_parsed, append_read,
  append_batch,
}
use majsoulmanager.Pipeline.Packing.Stored.{Reads-append}
use majsoulmanager.Pipeline.Packing.Batch.{
  bound, of_pack-ok, Longer, Longer-trans, Longer-append, Longer-append_pb, ReadsRow,
  ReadsRow-Longer, IsRowOf, IsRowOf-Longer, Grown, Grown-trans, Grown-refl,
}

module _ (x : Outside) where
  -- The pieces of a message's appends.
  record Pieces (o o' : Open) (m : IngestMessage) (metadata : Metadata) : Type 0 where
    w₁ : PackWriter
    location : PackLocation
    w₂ : PackWriter
    pb : Option PbLocation
    games : List PlayerGame
    raw_done : append x.zstd o.writer m.record_id m.raw ≡ Result.ok (w₁, location)
    pb_done : append_pb x w₁ m.record_id m.majsoul_pb ≡ ok (w₂, pb)
    same : o' ≡ record {
      writer = w₂;
      rows = o.rows ++ row_of x m metadata location pb ∷ [];
      player_games = o.player_games ++ games;
    }

  append_parsed-Pieces :
      (o o' : Open) (m : IngestMessage) (metadata : Metadata)
      → append_parsed x o m metadata ≡ ok o'
      → Pieces o o' m metadata
  unfolding append_parsed
  append_parsed-Pieces o o' m metadata h =
      let a = bound (of_pack (append x.zstd o.writer m.record_id m.raw)) h in
      let b = bound (append_pb x a.value.0 m.record_id m.majsoul_pb) a.second in
      let c = bound (score x (row_of x m metadata a.value.1 b.value.1) m.raw) b.second in
      record {
        w₁ = a.value.0;
        location = a.value.1;
        w₂ = b.value.0;
        pb = b.value.1;
        games = c.value;
        raw_done = of_pack-ok (append x.zstd o.writer m.record_id m.raw) a.value a.first;
        pb_done = b.first;
        same = ground (arith, c.second);
      }

  append_parsed-Grown :
      (o o' : Open) (m : IngestMessage) (metadata : Metadata)
      → IsRecord (m.record_id, [])
      → o.writer.size ≡ length o.writer.file
      → append_parsed x o m metadata ≡ ok o'
      → Grown x o o' × Any (IsRowOf x o'.writer.key o'.writer.file m) o'.rows
  unfolding row_of
  append_parsed-Grown o o' m metadata valid sized h =
      let p = append_parsed-Pieces o o' m metadata h in
      let first : Longer o.writer p.w₁ =
        Longer-append x o.writer p.w₁ m.record_id m.raw p.location valid sized p.raw_done in
      let second : Longer p.w₁ p.w₂ =
        Longer-append_pb x p.w₁ p.w₂ m.record_id m.majsoul_pb p.pb valid first.sized p.pb_done in
      let row : Record = row_of x m metadata p.location p.pb in
      let here : ReadsRow x p.w₁.key p.w₁.file m.raw row =
        subst (λ key. ReadsRow x key p.w₁.file m.raw row) (sym first.key)
          (Reads-append x.zstd o.writer p.w₁ m.record_id m.raw p.location valid sized p.raw_done) in
      let reads : ReadsRow x p.w₂.key p.w₂.file m.raw row =
        ReadsRow-Longer x p.w₁ p.w₂ m.raw row second here in
      subst (λ v. Grown x o v × Any (IsRowOf x v.writer.key v.writer.file m) v.rows) (sym p.same)
        (
          record {
            longer = Longer-trans o.writer p.w₁ p.w₂ first second;
            new = row ∷ [];
            rows = refl;
            sound = ((m.raw, refl, reads), tt);
          },
          Any-back (IsRowOf x p.w₂.key p.w₂.file m) o.rows (row ∷ []) (inl (refl, reads)),
        )

  -- The messages that parse have their rows.
  abbrev pub HasRow : Open → IngestMessage → Type 0
  HasRow o m =
      (metadata : Metadata)
      → metadata_for x m.raw ≡ Parsed.ok metadata
      → Any (IsRowOf x o.writer.key o.writer.file m) o.rows

  pub HasRow-Grown : (o o' : Open) (m : IngestMessage) → Grown x o o' → HasRow o m → HasRow o' m
  HasRow-Grown o o' m g h metadata parsed =
      subst (λ rows. Any (IsRowOf x o'.writer.key o'.writer.file m) rows) (sym g.rows)
        (Any-front (IsRowOf x o'.writer.key o'.writer.file m) o.rows g.new
          (IsRowOf-Longer x o.writer o'.writer m o.rows g.longer (h metadata parsed)))

  append_read-Grown :
      (o o' : Open) (m : IngestMessage) (r : Parsed Metadata)
      → metadata_for x m.raw ≡ r
      → IsRecord (m.record_id, [])
      → o.writer.size ≡ length o.writer.file
      → append_read x o m r ≡ ok o'
      → Grown x o o' × HasRow o' m
  unfolding append_read
  append_read-Grown o o' m (Parsed.err e) read valid sized h = (
    subst (λ v. Grown x o v) (ground (arith, h)) (Grown-refl x o sized),
    λ metadata parsed. absurd (ground (arith, read, parsed)),
  )
  append_read-Grown o o' m (Parsed.ok metadata) read valid sized h =
      let (g, row) = append_parsed-Grown o o' m metadata valid sized h in
      (g, λ metadata' parsed. row)

  pub append_batch-Grown :
      (o o' : Open) (messages : List IngestMessage)
      → All (λ m. IsRecord (m.record_id, [])) messages
      → o.writer.size ≡ length o.writer.file
      → append_batch x o messages ≡ ok o'
      → Grown x o o' × All (HasRow o') messages
  unfolding append_batch
  append_batch-Grown o o' [] valid sized h =
      (subst (λ v. Grown x o v) (ground (arith, h)) (Grown-refl x o sized), tt)
  append_batch-Grown o o' (m ∷ messages) (valid, valids) sized h =
      let b = bound (append_read x o m (metadata_for x m.raw)) h in
      let (g, row) =
        append_read-Grown o b.value m (metadata_for x m.raw) refl valid sized b.first in
      let (gs, rows) = append_batch-Grown b.value o' messages valids g.longer.sized b.second in
      (Grown-trans x o b.value o' g gs, (HasRow-Grown b.value o' m gs row, rows))
