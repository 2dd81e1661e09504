-- ===== src/Proto/Fields/Progress.antt =====
-- The iterator on any input: it moves forward inside the buffer, ends, and panics only where a
-- length wraps around.
use majsoulmanager.Prelude.{
  ℕ, zero, suc, ◌+◌, ◌-◌, ◌%◌, ◌^◌, ◌≤◌, ◌<◌, ◌≡◌, ◌≢◌, refl, ap, ◌↔◌, List, Option, none, some,
  arith, length, length-drop, take, drop, inl, inr,
}
use majsoulmanager.Proto.Errors.{Result, ok, err, panic, stuck}
use majsoulmanager.Proto.Varint.{decode_varint}
use majsoulmanager.Proto.Varint.Cases.{
  decode_varint-IsU64, decode_varint_takes, decode_varint_cases,
}
use majsoulmanager.Proto.Fields.{
  Field, FieldIterator, new, slice, read_payload, read_field, next, Flow, continue, return,
  for_loop, for_fields,
}

-- Cut inside the buffer, a slice is there.
slice_inside :
    (buf : List ℕ) (from to : ℕ)
    → from ≤ to
    → to ≤ length buf
    → slice buf from to ≡ ok (take (to - from) (drop from buf))
unfolding slice
slice_inside buf from to h k = ground arith

slice-ne-stuck : (buf : List ℕ) (from to : ℕ) → slice buf from to ≢ stuck
unfolding slice
slice-ne-stuck buf from to h = ground arith

read_payload_forward :
    (buf : List ℕ) (pos wt : ℕ) (bytes : List ℕ) (pos' : ℕ)
    → read_payload buf pos wt ≡ ok (bytes, pos')
    → (pos ≤ pos') × (pos' ≤ length buf)
unfolding read_payload
read_payload_forward buf pos wt bytes pos' h = ground arith

read_field_forward :
    (buf : List ℕ) (pos : ℕ) (field : Field) (pos' : ℕ)
    → read_field buf pos ≡ ok (field, pos')
    → (pos < pos') × (pos' ≤ length buf)
unfolding read_field
read_field_forward buf pos field pos' h = elim (decode_varint_cases (drop pos buf)) [
  | inl ((tag, n), e) ↦ ground (
    arith,
    decode_varint_takes (drop pos buf) tag n e,
    length-drop pos buf,
    read_payload_forward buf (pos + n) (tag % 8),
  )
  | inr (x, e) ↦ ground arith
]

-- A field that `next` answers takes a byte at least, and the iterator stays in its buffer.
pub next_forward :
    (it : FieldIterator) (field : Field) (it' : FieldIterator)
    → next it ≡ some (ok (field, it'))
    → (it'.buf ≡ it.buf) × (it.pos < it'.pos) × (it'.pos ≤ length it.buf)
unfolding next
next_forward it field it' h = ground (arith, read_field_forward it.buf it.pos field it'.pos)

read_payload-ne-stuck : (buf : List ℕ) (pos wt : ℕ) → read_payload buf pos wt ≢ stuck
unfolding read_payload
read_payload-ne-stuck buf pos wt h = elim (decode_varint_cases (drop pos buf)) [
  | inl ((v, n), e) ↦ ground arith
  | inr (x, e) ↦ ground arith
]

read_field-ne-stuck : (buf : List ℕ) (pos : ℕ) → read_field buf pos ≢ stuck
unfolding read_field
read_field-ne-stuck buf pos h = elim (decode_varint_cases (drop pos buf)) [
  | inl ((tag, n), e) ↦ ground (arith, read_payload-ne-stuck buf (pos + n) (tag % 8))
  | inr (x, e) ↦ ground arith
]

next-ne-stuck : (it : FieldIterator) → next it ≢ some stuck
unfolding next
next-ne-stuck it h = ground (arith, read_field-ne-stuck it.buf it.pos)

module _ {ℓ} {S : Type ℓ} (body : S → Field → Result (Flow S)) where
  -- One round of the loop on a field.
  pub round_return :
      (fuel : ℕ) (s s' : S) (it : FieldIterator) (f : Field) (it' : FieldIterator)
      → next it ≡ some (ok (f, it'))
      → body s f ≡ ok (return s')
      → for_loop body (suc fuel) s it ≡ ok s'
  unfolding for_loop
  round_return fuel s s' it f it' e b = rw (e, for_loop) (rw (b, for_loop))

  pub round_continue :
      (fuel : ℕ) (s s' : S) (it : FieldIterator) (f : Field) (it' : FieldIterator)
      → next it ≡ some (ok (f, it'))
      → body s f ≡ ok (continue s')
      → for_loop body (suc fuel) s it ≡ for_loop body fuel s' it'
  unfolding for_loop
  round_continue fuel s s' it f it' e b = rw (e, for_loop) (rw (b, for_loop))

  pub round_none :
      (fuel : ℕ) (s : S) (it : FieldIterator)
      → next it ≡ none
      → for_loop body (suc fuel) s it ≡ ok s
  unfolding for_loop
  round_none fuel s it e = rw (e, for_loop)

  module _ (total : (s : S) (f : Field) → body s f ≢ stuck) where
    for_loop-ne-stuck :
        (fuel : ℕ) (s : S) (it : FieldIterator)
        → it.pos ≤ length it.buf
        → length it.buf < fuel + it.pos
        → for_loop body fuel s it ≢ stuck
    unfolding for_loop
    for_loop-ne-stuck zero s it inside enough h = absurd (omega arith)
    for_loop-ne-stuck (suc fuel) s it inside enough h =
        on_next (next it) refl (λ s' it'. for_loop-ne-stuck fuel s' it')
      where
        on_body :
            (f : Field) (it' : FieldIterator) (r : Result (Flow S))
            → next it ≡ some (ok (f, it'))
            → body s f ≡ r
            → ((s' : S) → for_loop body fuel s' it' ≢ stuck)
            → ⊥
        on_body f it' (ok (continue s')) e b rec = rec s' (rw b at (rw (e, for_loop) at h))
        on_body f it' (ok (return s')) e b rec = cc (rw b at (rw (e, for_loop) at h))
        on_body f it' (err x) e b rec = cc (rw b at (rw (e, for_loop) at h))
        on_body f it' panic e b rec = cc (rw b at (rw (e, for_loop) at h))
        on_body f it' stuck e b rec = total s f b

        on_next :
            (r : Option (Result (Field × FieldIterator)))
            → next it ≡ r
            → ((s' : S) (it' : FieldIterator)
                → it'.pos ≤ length it'.buf
                → length it'.buf < fuel + it'.pos
                → for_loop body fuel s' it' ≢ stuck)
            → ⊥
        on_next none e rec = cc (rw (e, for_loop) at h)
        on_next (some (ok (f, it'))) e rec =
            let (same, forward, room) = next_forward it f it' e in
            let len : length it'.buf ≡ length it.buf = ap length same in
            on_body f it' (body s f) e refl (λ s'. rec s' it' (omega arith) (omega arith))
        on_next (some (err x)) e rec = cc (rw (e, for_loop) at h)
        on_next (some panic) e rec = cc (rw (e, for_loop) at h)
        on_next (some stuck) e rec = next-ne-stuck it e

    -- A loop over the fields of any buffer ends: the fuel `length buf + 1` is enough.
    pub for_fields-ne-stuck : (s : S) (buf : List ℕ) → for_fields body s buf ≢ stuck
    unfolding for_fields
    for_fields-ne-stuck s buf =
        for_loop-ne-stuck (suc (length buf)) s (new buf) (omega arith) (omega arith)

-- The wire type 2 panics exactly where position and length together pass the word size.
read_payload-panic_iff :
    (buf : List ℕ) (pos wt : ℕ)
    → pos ≤ length buf
    → length buf < 2 ^ 64
    → (read_payload buf pos wt ≡ panic) ↔ (
        (wt ≡ 2)
        × (len n : ℕ) × (decode_varint (drop pos buf) ≡ ok (len, n))
        × (2 ^ 64 ≤ pos + n + len))
unfolding read_payload slice
read_payload-panic_iff buf pos wt inside small = elim (decode_varint_cases (drop pos buf)) [
  | inl ((v, n), e) ↦
      let takes = decode_varint_takes (drop pos buf) v n e in
      let u = decode_varint-IsU64 (drop pos buf) v n e in
      (
        λ h. (ground (arith, length-drop pos buf), v, n, e, ground (arith, length-drop pos buf)),
        λ (w, len, m, e', big). ground (arith, length-drop pos buf),
      )
  | inr (x, e) ↦ (λ h. ground arith, λ (w, len, m, e', big). cc)
]

-- Inside its buffer the iterator panics exactly on a field of wire type 2 whose length, added to the
-- position behind it, passes the word size.
pub next-panic_iff :
    (it : FieldIterator)
    → it.pos ≤ length it.buf
    → length it.buf < 2 ^ 64
    → (next it ≡ some panic) ↔ (
        (tag n len m : ℕ) × (decode_varint (drop it.pos it.buf) ≡ ok (tag, n))
        × (tag % 8 ≡ 2)
        × (decode_varint (drop (it.pos + n) it.buf) ≡ ok (len, m))
        × (2 ^ 64 ≤ it.pos + n + m + len))
unfolding next read_field
next-panic_iff it inside small = elim (decode_varint_cases (drop it.pos it.buf)) [
  | inl ((tag, n), e) ↦
      let (some_byte, fits) = decode_varint_takes (drop it.pos it.buf) tag n e in
      let left = length-drop it.pos it.buf in
      let (there, back) =
        read_payload-panic_iff it.buf (it.pos + n) (tag % 8) (omega arith) small in
      (
        λ h. let (two, len, m, e', big) = there (ground arith) in (tag, n, len, m, e, two, e', big),
        λ (tag', n', len, m, e₁, two, e₂, big).
            let same_tag : tag' ≡ tag = ground arith in
            let same_n : n' ≡ n = ground arith in
            let fault = back (rw same_tag at two, len, m, rw same_n at e₂, rw same_n at big) in
            ground arith,
      )
  | inr (x, e) ↦ (λ h. ground arith, λ (tag', n', len, m, e₁, two, e₂, big). cc)
]
