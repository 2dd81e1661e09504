-- ===== src/Pipeline/Packing/Batch.antt =====
-- The rows that `append_batch` of src/indexer.rs makes against the bytes of the pack.
use mathlib.Core.List.{append-nil, append_assoc}
use majsoulmanager.Prelude.{
  ℕ, ◌≡◌, refl, sym, subst, ap, ◌∙◌, List, [], ◌++◌, Option, none, some, length, All, Any, Any-map,
  All-map, All-append, arith,
}
use majsoulmanager.Prelude.Text.{Text}
use majsoulmanager.Kafka.Message.{IngestMessage}
use majsoulmanager.Pack.Format.{Result, Uuid, PackWriter, PackLocation, append}
use majsoulmanager.Pack.Format.Recovery.{IsRecord, append-Appended, Appended-sized}
use majsoulmanager.Pipeline.Types.{Outside, Record, PbLocation}
use majsoulmanager.Pipeline.Packing.{Packed, panic, err, ok, ◌>>=◌, of_pack, Open, append_pb}
use majsoulmanager.Pipeline.Packing.Stored.{Reads, Reads-more}

pub record Bound {A B : Type 0} (m : Packed A) (f : A → Packed B) (b : B) : Type 0 where
  pub value : A
  pub first : m ≡ ok value
  pub second : f value ≡ ok b

pub bound :
    {A B : Type 0} {b : B} (m : Packed A) {f : A → Packed B} → (m >>= f) ≡ ok b → Bound m f b
bound panic h = cc
bound (err e) h = cc
bound (ok a) h = record { value = a; first = refl; second = h }

pub of_pack-ok : {A : Type 0} (r : Result A) (a : A) → of_pack r ≡ ok a → r ≡ Result.ok a
of_pack-ok Result.stuck a h = cc
of_pack-ok (Result.err e) a h = cc
of_pack-ok (Result.ok b) a h = cc

-- A writer that wrote on.
pub record Longer (w w' : PackWriter) : Type 0 where
  pub more : List ℕ
  pub file : w'.file ≡ w.file ++ more
  pub key : w'.key ≡ w.key
  pub sized : w'.size ≡ length w'.file

Longer-refl : (w : PackWriter) → w.size ≡ length w.file → Longer w w
Longer-refl w sized = record {
  more = [];
  file = sym (append-nil w.file);
  key = refl;
  sized = sized;
}

pub Longer-trans : (u v w : PackWriter) → Longer u v → Longer v w → Longer u w
Longer-trans u v w a b = record {
  more = a.more ++ b.more;
  file = b.file ∙ (ap (λ l. l ++ b.more) a.file ∙ append_assoc u.file a.more b.more);
  key = b.key ∙ a.key;
  sized = b.sized;
}

module _ (x : Outside) where
  pub Longer-append :
      (w w' : PackWriter) (id : Uuid) (raw : List ℕ) (loc : PackLocation)
      → IsRecord (id, raw)
      → w.size ≡ length w.file
      → append x.zstd w id raw ≡ Result.ok (w', loc)
      → Longer w w'
  Longer-append w w' id raw loc valid sized done =
      let a = append-Appended x.zstd w w' id raw loc valid done in
      record {
        more = _;
        file = a.file;
        key = a.key;
        sized = Appended-sized x.zstd w w' id raw loc sized a;
      }

  pub Longer-append_pb :
      (w w' : PackWriter) (id : Uuid) (pb : Option (List ℕ)) (loc : Option PbLocation)
      → IsRecord (id, [])
      → w.size ≡ length w.file
      → append_pb x w id pb ≡ ok (w', loc)
      → Longer w w'
  unfolding append_pb
  Longer-append_pb w w' id none loc valid sized h =
      subst (λ v. Longer w v) (ground (arith, h)) (Longer-refl w sized)
  Longer-append_pb w w' id (some pb) loc valid sized h =
      let b = bound (of_pack (append x.zstd w id pb)) h in
      let done : append x.zstd w id pb ≡ Result.ok (w', b.value.1) =
        of_pack-ok (append x.zstd w id pb) (w', b.value.1)
          (b.first ∙ ap ok (ground (arith, b.second))) in
      Longer-append w w' id pb b.value.1 valid sized done

  abbrev pub ReadsRow : Text → List ℕ → List ℕ → Record → Type 0
  ReadsRow key file raw row = Reads x.zstd key file row.storage raw

  -- The row of the message, by whose location its bytes are read.
  abbrev pub IsRowOf : Text → List ℕ → IngestMessage → Record → Type 0
  IsRowOf key file m row = (row.id ≡ m.record_id) × ReadsRow key file m.raw row

  -- A row by whose location bytes of its digest are read.
  abbrev pub IsSound : Text → List ℕ → Record → Type 0
  IsSound key file row =
      (raw : List ℕ) × (row.sha256 ≡ x.sha256_hex raw) × ReadsRow key file raw row

  -- What appends leave of the pack and its rows.
  pub record Grown (o o' : Open) : Type 0 where
    pub longer : Longer o.writer o'.writer
    pub new : List Record
    pub rows : o'.rows ≡ o.rows ++ new
    pub sound : All (IsSound o'.writer.key o'.writer.file) new

  pub ReadsRow-Longer :
      (w w' : PackWriter) (raw : List ℕ) (row : Record)
      → Longer w w'
      → ReadsRow w.key w.file raw row
      → ReadsRow w'.key w'.file raw row
  ReadsRow-Longer w w' raw row l reads =
      subst (λ key. ReadsRow key w'.file raw row) (sym l.key)
        (subst (λ file. ReadsRow w.key file raw row) (sym l.file)
          (Reads-more x.zstd w.key w.file l.more row.storage raw reads))

  pub IsRowOf-Longer :
      (w w' : PackWriter) (m : IngestMessage) (rows : List Record)
      → Longer w w'
      → Any (IsRowOf w.key w.file m) rows
      → Any (IsRowOf w'.key w'.file m) rows
  IsRowOf-Longer w w' m rows l =
      Any-map (IsRowOf w.key w.file m) (IsRowOf w'.key w'.file m) rows
        (λ row (same, reads). (same, ReadsRow-Longer w w' m.raw row l reads))

  pub IsSound-Longer :
      (w w' : PackWriter) (rows : List Record)
      → Longer w w'
      → All (IsSound w.key w.file) rows
      → All (IsSound w'.key w'.file) rows
  IsSound-Longer w w' rows l =
      All-map (IsSound w.key w.file) (IsSound w'.key w'.file) rows
        (λ row (raw, digest, reads). (raw, digest, ReadsRow-Longer w w' raw row l reads))

  pub Grown-trans : (a b c : Open) → Grown a b → Grown b c → Grown a c
  Grown-trans a b c g h = record {
    longer = Longer-trans a.writer b.writer c.writer g.longer h.longer;
    new = g.new ++ h.new;
    rows = h.rows ∙ (ap (λ l. l ++ h.new) g.rows ∙ append_assoc a.rows g.new h.new);
    sound =
        All-append (IsSound c.writer.key c.writer.file) g.new h.new
          (IsSound-Longer b.writer c.writer g.new h.longer g.sound) h.sound;
  }

  pub Grown-refl : (o : Open) → o.writer.size ≡ length o.writer.file → Grown o o
  Grown-refl o sized = record {
    longer = Longer-refl o.writer sized;
    new = [];
    rows = sym (append-nil o.rows);
    sound = tt;
  }
