-- ===== src/Proto/Fields/Messages.antt =====
-- The loops over fields, run on an encoded message: they see its fields, in order.
use majsoulmanager.Prelude.{
  ℕ, zero, suc, ◌+◌, ◌^◌, ◌<◌, ◌≡◌, refl, ◌∙◌, List, [], ◌∷◌, ◌++◌, some, arith, length,
  length-append, All, map,
}
use mathlib.Core.List.{append_assoc, append-nil}
use majsoulmanager.Proto.Errors.{Result, ok, err, panic, stuck}
use majsoulmanager.Proto.Fields.{Field, next, Flow, continue, return, for_loop, for_fields}
use majsoulmanager.Proto.Fields.Wire.{
  Item, IsItem, write_item, write_message, field_of, length-write_item, next-write_item,
}
use majsoulmanager.Proto.Fields.Progress.{round_return, round_continue, round_none}

-- The body of a loop, run on a list of fields.
unfoldable pub run_fields {ℓ} :
    {S : Type ℓ} → (S → Field → Result (Flow S)) → S → List Field → Result S
run_fields body s [] = ok s
run_fields body s (f ∷ fs) = elim (body s f) [
  | ok (continue s') ↦ run_fields body s' fs
  | ok (return s') ↦ ok s'
  | err e ↦ err e
  | panic ↦ panic
  | stuck ↦ stuck
]

module _ {ℓ} {S : Type ℓ} (body : S → Field → Result (Flow S)) where
  for_loop-write_message :
      (items : List Item) (front : List ℕ) (fuel : ℕ) (s : S) (pos : ℕ)
      → All IsItem items
      → length (front ++ write_message items) < 2 ^ 64
      → length (write_message items) < fuel
      → pos ≡ length front
      → for_loop body fuel s (record { buf = front ++ write_message items; pos = pos })
        ≡ run_fields body s (map field_of items)
  unfolding run_fields write_message for_loop
  for_loop-write_message items front zero s pos h small enough e = absurd (omega arith)
  for_loop-write_message [] front (suc fuel) s pos h small enough e =
      round_none body fuel s _ (unfold next write_message in rw append-nil (ground arith))
  for_loop-write_message (item ∷ items) front (suc fuel) s pos (h, hs) small enough e =
      on_body (body s (field_of item)) refl
        λ s'. for_loop-write_message items (front ++ write_item item) fuel s'
    where
      rest : List ℕ
      rest = write_message items

      shown :
          next (record { buf = front ++ (write_item item ++ rest); pos = pos })
          ≡ some (
              ok (
                field_of item,
                record {
                  buf = front ++ (write_item item ++ rest);
                  pos = pos + length (write_item item);
                },
              ))
      shown = next-write_item front item rest pos h small e

      on_body :
          (r : Result (Flow S))
          → body s (field_of item) ≡ r
          → ((s' : S) (pos' : ℕ)
              → All IsItem items
              → length ((front ++ write_item item) ++ rest) < 2 ^ 64
              → length rest < fuel
              → pos' ≡ length (front ++ write_item item)
              → for_loop body fuel s'
                  (record { buf = (front ++ write_item item) ++ rest; pos = pos' })
                ≡ run_fields body s' (map field_of items))
          → for_loop body
              (suc fuel)
              s
              (record { buf = front ++ (write_item item ++ rest); pos = pos })
            ≡ run_fields body s (field_of item ∷ map field_of items)
      on_body (ok (continue s')) b rec =
          let same : (front ++ write_item item) ++ rest ≡ front ++ (write_item item ++ rest) =
            append_assoc front (write_item item) rest in
          let left = length-append (write_item item) rest in
          round_continue body fuel s s' _ (field_of item) _ shown b
          ∙ (rw (← same, b, run_fields)
              (rec s' _ hs (rw same small) (omega (arith, length-write_item item))
                (omega (arith, length-append front (write_item item)))))
      on_body (ok (return s')) b rec =
          round_return body fuel s s' _ (field_of item) _ shown b ∙ rw (b, run_fields)
      on_body (err x) b rec = rw (shown, for_loop) (rw (b, for_loop) (rw (b, run_fields)))
      on_body panic b rec = rw (shown, for_loop) (rw (b, for_loop) (rw (b, run_fields)))
      on_body stuck b rec = rw (shown, for_loop) (rw (b, for_loop) (rw (b, run_fields)))

  -- A loop over an encoded message sees its fields in order, from the first to the last or to the
  -- one that ends it.
  pub for_fields-write_message :
      (s : S) (items : List Item)
      → All IsItem items
      → length (write_message items) < 2 ^ 64
      → for_fields body s (write_message items) ≡ run_fields body s (map field_of items)
  unfolding for_fields
  for_fields-write_message s items h small =
      for_loop-write_message items [] (suc (length (write_message items))) s 0 h small (omega arith)
        refl
