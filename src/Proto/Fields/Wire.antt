-- ===== src/Proto/Fields/Wire.antt =====
-- An encoder of the wire format, and the iterator at a field that it wrote.
use majsoulmanager.Prelude.{
  ℕ, zero, suc, ◌+◌, ◌-◌, ◌*◌, ◌/◌, ◌%◌, ◌^◌, ◌≤◌, ◌<◌, ◌≡◌, refl, ap, subst, ◌∙◌, List, [], ◌∷◌,
  ◌++◌, some, arith, ltb, length, length-append, take, drop, take-length-append, drop-length-append,
  Bool-cases, inl, inr, true, false,
}
use mathlib.Core.List.{append_assoc}
use majsoulmanager.Proto.Errors.{ok}
use majsoulmanager.Proto.Varint.{IsU64, decode_varint}
use majsoulmanager.Proto.Varint.Encoding.{Encodes, last, more, decode_varint_iff}
use majsoulmanager.Proto.Fields.{Field, slice, read_payload, read_field, next}

-- The shortest encoding, for a number below 128 ^ (k + 1).
write_groups : ℕ → ℕ → List ℕ
write_groups zero v = v ∷ []
write_groups (suc k) v = elim (ltb v 128) [
  | true ↦ v ∷ []
  | false ↦ (v % 128 + 128) ∷ write_groups k (v / 128)
]

unfoldable pub write_varint : ℕ → List ℕ
unfolding write_groups
write_varint v = write_groups 9 v

last_group : (v : ℕ) → v < 128 → Encodes (v ∷ []) v
last_group v h =
    let e : v % 128 ≡ v = omega arith in subst (Encodes (v ∷ [])) e (last v (omega arith))

Encodes-write_groups : (k v : ℕ) → v < 128 ^ suc k → Encodes (write_groups k v) v
unfolding write_groups
Encodes-write_groups zero v h = last_group v (omega arith)
Encodes-write_groups (suc k) v h = elim (Bool-cases (ltb v 128)) [
  | inl small ↦ rw (small, write_groups) (last_group v (ground arith))
  | inr big ↦
      rw (big, write_groups)
        (let rest =
            more (v % 128 + 128) (ground arith) (Encodes-write_groups k (v / 128) (omega arith)) in
          let e : (v % 128 + 128) % 128 + v / 128 * 128 ≡ v = omega arith in
          subst (Encodes _) e rest)
]

length-write_groups : (k v : ℕ) → length (write_groups k v) ≤ k + 1
unfolding write_groups
length-write_groups zero v = omega arith
length-write_groups (suc k) v = ground (arith, length-write_groups k (v / 128))

pub some_byte : (v : ℕ) → 1 ≤ length (write_varint v)
unfolding write_varint write_groups
some_byte v = ground arith

-- Reading back what was written, whatever follows it.
pub decode_varint-write_varint :
    (v : ℕ) (rest : List ℕ)
    → IsU64 v
    → decode_varint (write_varint v ++ rest) ≡ ok (v, length (write_varint v))
unfolding write_varint
decode_varint-write_varint v rest u = (decode_varint_iff _ v _).1 (
  write_groups 9 v,
  rest,
  refl,
  Encodes-write_groups 9 v (omega arith),
  refl,
  length-write_groups 9 v,
  u,
)

-- One field of a message, by wire type.
pub data Item : Type 0 where
  varint : ℕ → ℕ → Item
  fixed64 bytes fixed32 : ℕ → List ℕ → Item

-- Its number fits the decoder's u32, its value and its length a 64-bit varint.
abbrev pub IsItem : Item → Type 0
IsItem (varint k v) = (k < 2 ^ 32) × IsU64 v
IsItem (fixed64 k bs) = (k < 2 ^ 32) × (length bs ≡ 8)
IsItem (bytes k bs) = k < 2 ^ 32
IsItem (fixed32 k bs) = (k < 2 ^ 32) × (length bs ≡ 4)

abbrev write_tag : ℕ → ℕ → List ℕ
write_tag k wire_type = write_varint (k * 8 + wire_type)

pub write_item : Item → List ℕ
write_item (varint k v) = write_tag k 0 ++ write_varint v
write_item (fixed64 k bs) = write_tag k 1 ++ bs
write_item (bytes k bs) = write_tag k 2 ++ (write_varint (length bs) ++ bs)
write_item (fixed32 k bs) = write_tag k 5 ++ bs

unfoldable pub write_message : List Item → List ℕ
unfolding write_item
write_message [] = []
write_message (item ∷ items) = write_item item ++ write_message items

-- The field that the iterator shows for an item.
abbrev pub field_of : Item → Field
field_of (varint k v) = record { number = k; wire_type = 0; payload = write_varint v }
field_of (fixed64 k bs) = record { number = k; wire_type = 1; payload = bs }
field_of (bytes k bs) = record { number = k; wire_type = 2; payload = bs }
field_of (fixed32 k bs) = record { number = k; wire_type = 5; payload = bs }

-- A slice between two lengths of a concatenation.
slice_middle :
    (front middle rest : List ℕ) (from to : ℕ)
    → from ≡ length front
    → to ≡ length front + length middle
    → slice (front ++ (middle ++ rest)) from to ≡ ok middle
unfolding slice
slice_middle front middle rest from to e k =
    let whole = length-append front (middle ++ rest) in
    let inner = length-append middle rest in
    let cut = drop-length-append front (middle ++ rest) from e in
    let part = take-length-append middle rest (to - from) (omega arith) in
    let taken : take (to - from) (drop from (front ++ (middle ++ rest))) ≡ middle = rw cut part in
    rw taken (ground arith)

decode_at :
    (front : List ℕ) (v : ℕ) (rest : List ℕ) (pos : ℕ)
    → IsU64 v
    → pos ≡ length front
    → decode_varint (drop pos (front ++ (write_varint v ++ rest))) ≡ ok (v, length (write_varint v))
decode_at front v rest pos u e =
    rw (drop-length-append front (write_varint v ++ rest) pos e)
      (decode_varint-write_varint v rest u)

-- Reading the payload behind the tag.
payload_varint :
    (front rest : List ℕ) (v pos : ℕ)
    → IsU64 v
    → pos ≡ length front
    → read_payload (front ++ (write_varint v ++ rest)) pos 0
      ≡ ok (write_varint v, pos + length (write_varint v))
unfolding read_payload
payload_varint front rest v pos u e =
    rw
      (
        decode_at front v rest pos u e,
        slice_middle front (write_varint v) rest pos (pos + length (write_varint v)) e
            (omega arith),
      )
      refl

payload_fixed64 :
    (front bs rest : List ℕ) (pos : ℕ)
    → length bs ≡ 8
    → pos ≡ length front
    → read_payload (front ++ (bs ++ rest)) pos 1 ≡ ok (bs, pos + 8)
unfolding read_payload
payload_fixed64 front bs rest pos eight e =
    rw (slice_middle front bs rest pos (pos + 8) e (omega arith))
      (ground (arith, length-append front (bs ++ rest), length-append bs rest))

payload_fixed32 :
    (front bs rest : List ℕ) (pos : ℕ)
    → length bs ≡ 4
    → pos ≡ length front
    → read_payload (front ++ (bs ++ rest)) pos 5 ≡ ok (bs, pos + 4)
unfolding read_payload
payload_fixed32 front bs rest pos four e =
    rw (slice_middle front bs rest pos (pos + 4) e (omega arith))
      (ground (arith, length-append front (bs ++ rest), length-append bs rest))

payload_bytes :
    (front bs rest : List ℕ) (pos : ℕ)
    → length (front ++ (write_varint (length bs) ++ (bs ++ rest))) < 2 ^ 64
    → pos ≡ length front
    → read_payload (front ++ (write_varint (length bs) ++ (bs ++ rest))) pos 2
      ≡ ok (bs, pos + length (write_varint (length bs)) + length bs)
unfolding read_payload
payload_bytes front bs rest pos small e =
    let head = write_varint (length bs) in
    let whole : length (front ++ (head ++ (bs ++ rest)))
        ≡ length front + (length head + (length bs + length rest)) =
      omega (
        arith,
        length-append front (head ++ (bs ++ rest)),
        length-append head (bs ++ rest),
        length-append bs rest,
      ) in
    let wrap : (pos + length head + length bs) % 2 ^ 64 ≡ pos + length head + length bs =
      omega arith in
    let cut : slice (front ++ (head ++ (bs ++ rest))) (pos + length head)
          (pos + length head + length bs)
        ≡ ok bs =
      rw (← append_assoc front head (bs ++ rest)) (
        slice_middle (front ++ head) bs rest _ _ (omega (arith, length-append front head))
          (omega (arith, length-append front head))) in
    rw (decode_at front (length bs) (bs ++ rest) pos (omega arith) e)
      (rw wrap (rw cut (ground (arith, whole))))

-- A field whose payload is read behind its tag.
read_field-tagged :
    (front body rest : List ℕ) (k wire_type pos : ℕ) (payload : List ℕ)
    → k < 2 ^ 32
    → wire_type < 8
    → pos ≡ length front
    → read_payload
        ((front ++ write_tag k wire_type) ++ (body ++ rest))
        (pos + length (write_tag k wire_type))
        wire_type
      ≡ ok (payload, pos + length (write_tag k wire_type) + length body)
    → read_field (front ++ ((write_tag k wire_type ++ body) ++ rest)) pos
      ≡ ok (
        record { number = k; wire_type = wire_type; payload = payload },
        pos + length (write_tag k wire_type ++ body),
      )
unfolding read_field
read_field-tagged front body rest k wire_type pos payload hk hw e h =
    let tag = write_tag k wire_type in
    let number : (k * 8 + wire_type) / 8 % 2 ^ 32 ≡ k = omega arith in
    let kind : (k * 8 + wire_type) % 8 ≡ wire_type = omega arith in
    let regroup : (front ++ tag) ++ (body ++ rest) ≡ front ++ (tag ++ (body ++ rest)) =
      append_assoc front tag (body ++ rest) in
    let h' : read_payload (front ++ (tag ++ (body ++ rest))) (pos + length tag) wire_type
        ≡ ok (payload, pos + length tag + length body) =
      rw regroup at h in
    rw (append_assoc tag body rest) (
      rw (decode_at front (k * 8 + wire_type) (body ++ rest) pos (omega arith) e)
        (rw (number, kind, h') (rw (length-append tag body) (ground arith))))

-- At an item the iterator shows its field and stops behind it.
read_field-write_item :
    (front : List ℕ) (item : Item) (rest : List ℕ) (pos : ℕ)
    → IsItem item
    → length (front ++ (write_item item ++ rest)) < 2 ^ 64
    → pos ≡ length front
    → read_field (front ++ (write_item item ++ rest)) pos
      ≡ ok (field_of item, pos + length (write_item item))
unfolding write_item
read_field-write_item front (varint k v) rest pos (hk, u) small e =
    read_field-tagged front (write_varint v) rest k 0 pos _ hk (omega arith) e (
      payload_varint (front ++ write_tag k 0) rest v _ u
        (omega (arith, length-append front (write_tag k 0))))
read_field-write_item front (fixed64 k bs) rest pos (hk, n) small e =
    read_field-tagged front bs rest k 1 pos _ hk (omega arith) e (
      rw n (
        payload_fixed64 (front ++ write_tag k 1) bs rest _ n
          (omega (arith, length-append front (write_tag k 1)))))
read_field-write_item front (bytes k bs) rest pos hk small e =
    let head = write_varint (length bs) in
    let tag = write_tag k 2 in
    let room : length ((front ++ tag) ++ (head ++ (bs ++ rest))) < 2 ^ 64 =
      rw
        (
          append_assoc front tag (head ++ (bs ++ rest)),
          ← append_assoc head bs rest,
          ← append_assoc tag (head ++ bs) rest,
        )
        small in
    read_field-tagged front (head ++ bs) rest k 2 pos _ hk (omega arith) e (
      rw (append_assoc head bs rest, length-append head bs)
        (payload_bytes (front ++ tag) bs rest _ room (omega (arith, length-append front tag))
          ∙ ap (λ t. ok (bs, t)) (omega arith)))
read_field-write_item front (fixed32 k bs) rest pos (hk, n) small e =
    read_field-tagged front bs rest k 5 pos _ hk (omega arith) e (
      rw n (
        payload_fixed32 (front ++ write_tag k 5) bs rest _ n
          (omega (arith, length-append front (write_tag k 5)))))

pub length-write_item : (item : Item) → 1 ≤ length (write_item item)
unfolding write_item write_varint write_groups
length-write_item (varint k v) =
    omega (arith, length-append (write_tag k 0) (write_varint v), some_byte (k * 8 + 0))
length-write_item (fixed64 k bs) =
    omega (arith, length-append (write_tag k 1) bs, some_byte (k * 8 + 1))
length-write_item (bytes k bs) =
    omega
      (arith, length-append (write_tag k 2) (write_varint (length bs) ++ bs), some_byte (k * 8 + 2))
length-write_item (fixed32 k bs) =
    omega (arith, length-append (write_tag k 5) bs, some_byte (k * 8 + 5))

-- The iterator at the start of an item.
pub next-write_item :
    (front : List ℕ) (item : Item) (rest : List ℕ) (pos : ℕ)
    → IsItem item
    → length (front ++ (write_item item ++ rest)) < 2 ^ 64
    → pos ≡ length front
    → next (record { buf = front ++ (write_item item ++ rest); pos = pos })
      ≡ some (
          ok (
            field_of item,
            record {
              buf = front ++ (write_item item ++ rest);
              pos = pos + length (write_item item);
            },
          ))
unfolding next
next-write_item front item rest pos h small e =
    rw (read_field-write_item front item rest pos h small e) (
      ground (
        arith,
        length-append front (write_item item ++ rest),
        length-append (write_item item) rest,
        length-write_item item,
      ))
