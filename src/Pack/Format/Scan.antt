-- ===== src/Pack/Format/Scan.antt =====
-- The scan of a pack, entry by entry, and what stops it.
use majsoulmanager.Prelude.{
  ℕ, zero, suc, ◌+◌, ◌-◌, ◌^◌, ◌≤◌, ◌<◌, ◌≡◌, refl, ap, ◌∙◌, sym, false, List, [], ◌∷◌, ◌++◌, arith,
  ltb, if◌then◌else◌, length, length-append, take, drop, take-append, length-take, replicate-append,
  length-replicate, replicate, take-length-append, drop-length-append, drop-drop, All, lt→ltb,
}
use mathlib.Core.List.{append_assoc}
use native.Mathlib.Decide.{dec_lt}
use majsoulmanager.Prelude.Text.{Text}
use majsoulmanager.Pack.Format.{
  ok, ◌>>=◌, entry_header_len, PackLocation, Uuid, is_nil, to_be_bytes, from_be_bytes, entry,
  scan_loop,
}

-- An entry as the writer leaves it.
pub record Entry : Type 0 where
  pub id : Uuid
  pub raw_size : ℕ
  pub frame : List ℕ

pub record IsEntry (e : Entry) : Type 0 where
  pub uuid : length e.id ≡ 16
  pub not_nil : is_nil e.id ≡ false
  pub raw_fits : e.raw_size < 2 ^ 32
  pub some_byte : 0 < length e.frame
  pub frame_fits : length e.frame < 2 ^ 32

abbrev pub bytes : Entry → List ℕ
bytes e = entry e.id e.raw_size (length e.frame) e.frame

abbrev pub location : Text → ℕ → Entry → PackLocation
location key position e = record {
  pack_key = key;
  offset = position + entry_header_len;
  compressed_size = length e.frame;
  raw_size = e.raw_size;
}

abbrev pub all_bytes : List Entry → List ℕ
all_bytes [] = []
all_bytes (e ∷ es) = bytes e ++ all_bytes es

-- Where each entry lies, the first at `position`.
abbrev pub locations : Text → ℕ → List Entry → List (Uuid × PackLocation)
locations key position [] = []
locations key position (e ∷ es) =
    (e.id, location key position e)
    ∷ locations key (position + entry_header_len + length e.frame) es

be_bytes : (v : ℕ) → v < 2 ^ 32 → from_be_bytes (to_be_bytes v) ≡ v
be_bytes v h = omega arith

pub length-bytes : (e : Entry) → IsEntry e → length (bytes e) ≡ 24 + length e.frame
length-bytes e h = omega (
  arith,
  h.uuid,
  length-append e.id (to_be_bytes e.raw_size ++ (to_be_bytes (length e.frame) ++ e.frame)),
)

abbrev pub header : Entry → List ℕ
header e = e.id ++ (to_be_bytes e.raw_size ++ to_be_bytes (length e.frame))

module _ (e : Entry) (h : IsEntry e) where
  length-header : 24 ≡ length (header e)
  length-header =
      omega
        (arith, h.uuid, length-append e.id (to_be_bytes e.raw_size ++ to_be_bytes (length e.frame)))

  header_id : take 16 (header e) ≡ e.id
  header_id = take-length-append e.id _ 16 (sym h.uuid)

  header_sizes : drop 16 (header e) ≡ to_be_bytes e.raw_size ++ to_be_bytes (length e.frame)
  header_sizes = drop-length-append e.id _ 16 (sym h.uuid)

  header_raw : from_be_bytes (take 4 (drop 16 (header e))) ≡ e.raw_size
  header_raw = rw header_sizes (be_bytes e.raw_size h.raw_fits)

  header_compressed : from_be_bytes (take 4 (drop 20 (header e))) ≡ length e.frame
  header_compressed =
      rw (← drop-drop 4 16 (header e)) (rw header_sizes (be_bytes (length e.frame) h.frame_fits))

-- With the header of an entry at `position`, the loop goes on behind the frame, if that is whole.
scan_header :
    (key : Text) (file : List ℕ) (fuel position : ℕ) (e : Entry)
    → IsEntry e
    → take entry_header_len (drop position file) ≡ header e
    → position + entry_header_len ≤ length file
    → scan_loop key file (suc fuel) position ≡ (
        if ltb (length file) (position + entry_header_len + length e.frame) then ok [] else (do
          entries ← scan_loop key file fuel (position + entry_header_len + length e.frame)
          ok ((e.id, location key position e) ∷ entries)))
unfolding scan_loop
scan_header key file fuel position e h at_header room =
    let some_byte = h.some_byte in
    rw (at_header, header_id e h, header_raw e h, header_compressed e h, h.not_nil) (ground arith)

-- A tail after which the scan answers no entry, wherever it starts in a file.
pub record Stops (tail : List ℕ) : Type 0 where
  pub at :
      (key : Text) (front : List ℕ) (fuel : ℕ)
      → scan_loop key (front ++ tail) (suc fuel) (length front) ≡ ok []

-- Fewer bytes than a header.
pub Stops-short : (tail : List ℕ) → length tail < entry_header_len → Stops tail
unfolding scan_loop
Stops-short tail short = record {
  at = λ key front fuel.
      let len = length-append front tail in
      rw (lt→ltb (length (front ++ tail)) (length front + 24) (omega arith)) refl;
}

abbrev pub zeroes : ℕ → List ℕ
zeroes n = replicate n 0

-- A tail of zeroes.
pub Stops-zeroes : (n : ℕ) → Stops (zeroes n)
Stops-zeroes n = elim (dec_lt n 24) [
  | yes short ↦ Stops-short (zeroes n) (rw (length-replicate {A = ℕ} n 0) short)
  | no long ↦
      let split : zeroes n ≡ zeroes 24 ++ zeroes (n - 24) =
        replicate-append 24 (n - 24) n 0 (omega arith) in
      rw split (record {
        at = λ key front fuel.
            unfold scan_loop is_nil in
            rw (drop-length-append front (zeroes 24 ++ zeroes (n - 24)) (length front) refl)
              (ground arith);
      })
]

pub bytes-header : (e : Entry) → bytes e ≡ header e ++ e.frame
bytes-header e =
    sym (append_assoc e.id (to_be_bytes e.raw_size ++ to_be_bytes (length e.frame)) e.frame)

entry_at :
    (key : Text) (front : List ℕ) (e : Entry) (behind : List ℕ) (fuel : ℕ)
    → IsEntry e
    → scan_loop key (front ++ (header e ++ behind)) (suc fuel) (length front) ≡ (
        if ltb (length behind) (length e.frame) then ok [] else (do
          entries ←
              scan_loop key
                (front ++ (header e ++ behind))
                fuel
                (length front + entry_header_len + length e.frame)
          ok ((e.id, location key (length front) e) ∷ entries)))
entry_at key front e behind fuel h =
    let len = length-append front (header e ++ behind) in
    let inner = length-append (header e) behind in
    let size = length-header e h in
    let at_header : take entry_header_len (drop (length front) (front ++ (header e ++ behind)))
        ≡ header e =
      rw (drop-length-append front (header e ++ behind) (length front) refl)
        (take-length-append (header e) behind 24 size) in
    let same : ltb (length (front ++ (header e ++ behind))) (length front + 24 + length e.frame)
        ≡ ltb (length behind) (length e.frame) =
      ground (arith, len, inner, size) in
    scan_header key _ fuel (length front) e h at_header (omega arith) ∙ rw same

-- The first bytes of an entry, but not all of it.
pub Stops-torn : (e : Entry) (n : ℕ) → IsEntry e → n < length (bytes e) → Stops (take n (bytes e))
Stops-torn e n h torn = elim (dec_lt n 24) [
  | yes short ↦ Stops-short _ (omega (arith, length-take n (bytes e)))
  | no long ↦
      let size = length-header e h in
      let cut : take n (bytes e) ≡ header e ++ take (n - 24) e.frame = rw (bytes-header e) (
        take-append n (header e) e.frame (omega arith)
        ∙ ap (λ k. header e ++ take k e.frame) (omega arith)) in
      rw cut (record {
        at = λ key front fuel.
            entry_at key front e (take (n - 24) e.frame) fuel h
            ∙ rw (
                lt→ltb (length (take (n - 24) e.frame)) (length e.frame)
                  (omega (arith, length-take (n - 24) e.frame, length-bytes e h)));
      })
]

-- Over whole entries the scan answers where each of them lies, up to a tail that stops it.
pub scan_loop-all_bytes :
    (key : Text) (es : List Entry) (front tail : List ℕ) (fuel position : ℕ)
    → All IsEntry es
    → Stops tail
    → position ≡ length front
    → length (all_bytes es) < fuel
    → scan_loop key (front ++ (all_bytes es ++ tail)) fuel position ≡ ok (locations key position es)
scan_loop-all_bytes key es front tail zero position hs stop e enough = absurd (omega arith)
scan_loop-all_bytes key [] front tail (suc fuel) position hs stop e enough =
    rw e (stop.at key front fuel)
scan_loop-all_bytes key (x ∷ es) front tail (suc fuel) position (h, hs) stop e enough =
    let behind = x.frame ++ (all_bytes es ++ tail) in
    let whole : (bytes x ++ all_bytes es) ++ tail ≡ header x ++ behind =
      append_assoc (bytes x) (all_bytes es) tail
      ∙ (ap (λ t. t ++ (all_bytes es ++ tail)) (bytes-header x)
          ∙ append_assoc (header x) x.frame (all_bytes es ++ tail)) in
    let moved : (front ++ bytes x) ++ (all_bytes es ++ tail) ≡ front ++ (header x ++ behind) =
      append_assoc front (bytes x) (all_bytes es ++ tail)
      ∙ ap (λ t. front ++ t) (sym (append_assoc (bytes x) (all_bytes es) tail) ∙ whole) in
    let next : scan_loop key (front ++ (header x ++ behind)) fuel
          (length front + entry_header_len + length x.frame)
        ≡ ok (locations key (length front + entry_header_len + length x.frame) es) =
      rw (← moved) (
        scan_loop-all_bytes key es (front ++ bytes x) tail fuel _ hs stop
          (omega (arith, length-append front (bytes x), length-bytes x h))
          (omega (arith, length-append (bytes x) (all_bytes es), length-bytes x h))) in
    rw (whole, e)
      (entry_at key front x behind fuel h
        ∙ (rw next (ground (arith, length-append x.frame (all_bytes es ++ tail)))))
