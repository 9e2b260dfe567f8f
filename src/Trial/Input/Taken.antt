-- ===== src/Trial/Input/Taken.antt =====
-- What checkRecordInput of src/trial/rules.ts takes, and the size of what it answers.
use chirindo.Prelude.{
  ℕ, ◌≡◌, refl, sym, ap, ◌∙◌, true, ◌&&◌, leb, Option, none, some, List, [], ◌∷◌, Text, codes,
  text_eq, arith, Bool-cases, inl, inr,
}
use chirindo.Json.{Json, null, bool, num, str, arr, obj, Members, get}
use chirindo.Js.{Js}
use chirindo.Purchase.Time.{Dates}
use chirindo.Trial.Pointer.{printable_256}
use chirindo.Trial.Order.{order_failure}
use chirindo.Trial.Order.Accepted.{IsOrder, order_failure-IsOrder, first_some-none, is_str-Matches}
use chirindo.Trial.Screen.{Classes}
use chirindo.Trial.Fields.{Refusal, refused_fields, cap_failure, refused_values}
use chirindo.Trial.Format.{format_failure, format_checks}
use chirindo.Trial.Input.{
  accepted, check_record_input, is_json_value, max_depth, max_input_bytes, args_of,
  given_order_failure, on_order, on_format, on_values, on_cap, on_fields, text_or_empty, or_null,
}

module _ (js : Js) (dates : Dates) (classes : Classes) (byte_length : Json → ℕ) where
  -- The order of an input, as far as it is there.
  abbrev pub order_fault : Members → Option Text
  order_fault input = given_order_failure js dates classes byte_length (get (codes "order") input)

  -- What each step takes, the next has taken.
  on_format-none :
      (input : Members) (o : Option Text) (ref : Text) (seq : Option ℕ) (args : Members)
      → on_format js dates classes byte_length input o ≡ accepted ref seq args
      → (o ≡ none)
        × (on_order js dates classes byte_length input (order_fault input) ≡ accepted ref seq args)
  unfolding on_format
  on_format-none input none ref seq args h = (refl, h)
  on_format-none input (some p) ref seq args h = cc

  on_values-none :
      (input : Members) (vs : List Text) (ref : Text) (seq : Option ℕ) (args : Members)
      → on_values js dates classes byte_length input vs ≡ accepted ref seq args
      → (vs ≡ [])
        × (on_format js dates classes byte_length input (format_failure js dates input)
            ≡ accepted ref seq args)
  unfolding on_values
  on_values-none input [] ref seq args h = (refl, h)
  on_values-none input (v ∷ vs) ref seq args h = cc

  on_cap-none :
      (input : Members) (o : Option (Refusal × Text)) (ref : Text) (seq : Option ℕ) (args : Members)
      → on_cap js dates classes byte_length input o ≡ accepted ref seq args
      → on_values js dates classes byte_length input (refused_values js classes input)
        ≡ accepted ref seq args
  unfolding on_cap
  on_cap-none input none ref seq args h = h
  on_cap-none input (some (r, p)) ref seq args h = cc

  on_fields-none :
      (input : Members) (fs : List Text) (ref : Text) (seq : Option ℕ) (args : Members)
      → on_fields js dates classes byte_length input fs ≡ accepted ref seq args
      → (fs ≡ [])
        × (on_cap js dates classes byte_length input (cap_failure js input) ≡ accepted ref seq args)
  unfolding on_fields
  on_fields-none input [] ref seq args h = (refl, h)
  on_fields-none input (f ∷ fs) ref seq args h = cc

  on_order-none :
      (input : Members) (o : Option Text) (ref : Text) (seq : Option ℕ) (args : Members)
      → on_order js dates classes byte_length input o ≡ accepted ref seq args
      → (o ≡ none) × (ref ≡ text_or_empty (get (codes "order_ref") input)) × (args ≡ args_of input)
  unfolding on_order
  on_order-none input none ref seq args h = (refl, cc, cc)
  on_order-none input (some p) ref seq args h = cc

  -- An input that the checks after the size have passed.
  abbrev Passes : Members → Type 0
  Passes input =
      (refused_fields js input ≡ [])
      × (refused_values js classes input ≡ [])
      × (format_failure js dates input ≡ none)
      × (order_fault input ≡ none)

  passed :
      (raw : Json) (ref : Text) (seq : Option ℕ) (args : Members)
      → check_record_input js dates classes byte_length raw ≡ accepted ref seq args
      → (input : Members) × (raw ≡ obj input)
        × Passes input
        × (ref ≡ text_or_empty (get (codes "order_ref") input))
        × (args ≡ args_of input)
  unfolding check_record_input
  passed (obj input) ref seq args h =
      elim (Bool-cases
        (is_json_value max_depth (obj input) && leb (byte_length (obj input)) max_input_bytes)) [
          | inr e ↦ ground (arith, h, e)
          | inl e ↦
              let (fields, h1) =
                on_fields-none input (refused_fields js input) ref seq args (rw (← h, e) refl) in
              let h2 = on_cap-none input (cap_failure js input) ref seq args h1 in
              let (values, h3) =
                on_values-none input (refused_values js classes input) ref seq args h2 in
              let (format, h4) =
                on_format-none input (format_failure js dates input) ref seq args h3 in
              let (order, named, made) = on_order-none input (order_fault input) ref seq args h4 in
              (input, refl, (fields, values, format, order), named, made)
        ]
  passed null ref seq args h = cc
  passed (bool b) ref seq args h = cc
  passed (num n) ref seq args h = cc
  passed (str t) ref seq args h = cc
  passed (arr vs) ref seq args h = cc

  given-IsOrder :
      (o : Option Json)
      → given_order_failure js dates classes byte_length o ≡ none
      → (order : Members) × (o ≡ some (obj order)) × IsOrder dates order
  unfolding order_failure given_order_failure
  given-IsOrder (some (obj o)) h = (o, refl, order_failure-IsOrder js dates o h)
  given-IsOrder (some null) h = cc
  given-IsOrder (some (bool b)) h = cc
  given-IsOrder (some (num n)) h = cc
  given-IsOrder (some (str t)) h = cc
  given-IsOrder (some (arr vs)) h = cc
  given-IsOrder none h = cc

args_order :
    (input : Members)
    → get (codes "order") (args_of input) ≡ some (or_null (get (codes "order") input))
unfolding args_of get text_eq
args_order input = refl

-- An input that checkRecordInput takes is an object with no member outside the allow-list and no
-- card number or address in its free text; its order_ref is of 1 to 256 printable characters, and
-- is the one given on; its order is an order, and is the one that the receipt's arguments hold.
pub check_record_input-IsOrder :
    (js : Js) (dates : Dates) (classes : Classes) (byte_length : Json → ℕ) (raw : Json) (ref : Text)
    (seq : Option ℕ) (args : Members)
    → check_record_input js dates classes byte_length raw ≡ accepted ref seq args
    → (input order : Members) × (raw ≡ obj input)
      × (refused_fields js input ≡ [])
      × (refused_values js classes input ≡ [])
      × (get (codes "order_ref") input ≡ some (str ref))
      × (printable_256 ref ≡ true)
      × (get (codes "order") args ≡ some (obj order))
      × IsOrder dates order
unfolding args_of format_failure
check_record_input-IsOrder js dates classes byte_length raw ref seq args h =
    let (input, object, (fields, values, format, fault), named, made) =
      passed js dates classes byte_length raw ref seq args h in
    let (order, there, good) =
      given-IsOrder js dates classes byte_length (get (codes "order") input) fault in
    let (refs, later) = first_some-none (format_checks js dates input) format in
    let (t, e, prints) =
      is_str-Matches printable_256 (get (codes "order_ref") input) (ground (arith, refs)) in
    let same = named ∙ ap text_or_empty e in
    (
      input,
      order,
      object,
      fields,
      values,
      e ∙ ap (λ r. some (str r)) (sym same),
      ap printable_256 same ∙ prints,
      ap (get (codes "order")) made ∙ args_order input ∙ ap (λ o. some (or_null o)) there,
      good,
    )
