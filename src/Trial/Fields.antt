-- ===== src/Trial/Fields.antt =====
-- src/trial/rules.ts: the members that record() refuses, the caps of the screened fields, and the
-- screen itself.
use chirindo.Prelude.{
  ℕ, suc, Bool, false, ◌||◌, ltb, if◌then◌else◌, Option, none, some, List, [], ◌∷◌, ◌++◌, Text,
  codes, length, includes, text_eq,
}
use chirindo.Json.{Json, str, arr, obj, Items, nil, cons, Members, end, member, get, keys}
use chirindo.Js.{Js}
use chirindo.Trial.Pointer.{Segment, key, index, pointer, ◌<|>◌, first_of}
use chirindo.Trial.Order.{order_members, item_members}
use chirindo.Trial.Screen.{Classes, has_card_token, items_values}

-- RecordRefusal
pub data Refusal : Type 0 where
  invalid_input refused_field refused_value invalid_order : Refusal

abbrev pub top_members : List Text
top_members = codes "order_ref" ∷ codes "order" ∷ codes "agent_context" ∷ codes "call_seq" ∷ []

-- CONTEXT_MEMBERS[k]; the outer `none` is no member of it, the inner one is null.
unfoldable pub context_members : Text → Option (Option (List Text))
context_members k =
    if text_eq k (codes "channel") || text_eq k (codes "agent_name")
    then some none
    else if text_eq k (codes "platform_signature")
    then some (some (codes "header_name" ∷ codes "value" ∷ codes "key_id" ∷ codes "alg" ∷ []))
    else if text_eq k (codes "payment_token_limits")
    then some (some (codes "currency" ∷ codes "max_amount_minor" ∷ codes "expires_at" ∷ []))
    else if text_eq k (codes "mandate")
    then some (some (codes "format" ∷ codes "value" ∷ []))
    else none

module _ (js : Js) where
  -- for (const k of Object.keys(o)) if (!members.includes(k)) out.push(...)
  unfoldable pub extra_keys : List Text → List Segment → List Text → List Text
  extra_keys members path [] = []
  extra_keys members path (k ∷ ks) =
      let rest = extra_keys members path ks in
      if includes members k then rest else pointer js (path ++ key k ∷ []) ∷ rest

  abbrev pub inner_extra : Text → Option (List Text) → Json → List Text
  unfolding extra_keys
  inner_extra k (some allowed) (obj inner) =
      extra_keys allowed (key (codes "agent_context") ∷ key k ∷ []) (keys inner)
  inner_extra k _ _ = []

  abbrev pub context_extra : Text → Json → Option (Option (List Text)) → List Text
  unfolding extra_keys
  context_extra k v none = pointer js (key (codes "agent_context") ∷ key k ∷ []) ∷ []
  context_extra k v (some allowed) = inner_extra k allowed v

  unfoldable pub context_fields : Members → List Text
  unfolding extra_keys context_members
  context_fields end = []
  context_fields (member k v ms) = context_extra k v (context_members k) ++ context_fields ms

  abbrev pub item_fields : ℕ → Json → List Text
  unfolding extra_keys
  item_fields i (obj it) =
      extra_keys item_members (key (codes "order") ∷ key (codes "items") ∷ index i ∷ []) (keys it)
  item_fields i _ = []

  unfoldable pub items_fields : ℕ → Items → List Text
  unfolding extra_keys
  items_fields i nil = []
  items_fields i (cons v vs) = item_fields i v ++ items_fields (suc i) vs

  abbrev pub fields_of_context : Option Json → List Text
  unfolding context_fields
  fields_of_context (some (obj ac)) = context_fields ac
  fields_of_context _ = []

  abbrev pub fields_of_items : Option Json → List Text
  unfolding items_fields
  fields_of_items (some (arr vs)) = items_fields 0 vs
  fields_of_items _ = []

  abbrev pub fields_of_order : Option Json → List Text
  unfolding extra_keys items_fields
  fields_of_order (some (obj order)) =
      extra_keys order_members (key (codes "order") ∷ []) (keys order)
      ++ fields_of_items (get (codes "items") order)
  fields_of_order _ = []

  -- refusedFields
  unfoldable pub refused_fields : Members → List Text
  unfolding extra_keys context_fields items_fields
  refused_fields input =
      extra_keys top_members [] (keys input)
      ++ fields_of_context (get (codes "agent_context") input)
      ++ fields_of_order (get (codes "order") input)

  -- isStr(v) && v.length > 256
  abbrev pub over_cap : Option Json → Bool
  over_cap (some (str t)) = ltb 256 (length t)
  over_cap _ = false

  abbrev pub item_cap : ℕ → Json → Option Text
  item_cap i (obj it) =
      first_of
        (λ k.
          if over_cap (get k it)
          then some (pointer js (key (codes "order") ∷ key (codes "items") ∷ index i ∷ key k ∷ []))
          else none)
        (codes "name" ∷ codes "location" ∷ codes "category" ∷ [])
  item_cap i _ = none

  unfoldable pub items_cap : ℕ → Items → Option Text
  items_cap i nil = none
  items_cap i (cons v vs) = let rest = items_cap (suc i) vs in item_cap i v <|> rest

  abbrev pub cap_of_order : Option Json → Option (Refusal × Text)
  unfolding items_cap
  cap_of_order (some (obj order)) = elim (get (codes "items") order) [
    | some (arr vs) ↦ elim (items_cap 0 vs) [ some path ↦ some (invalid_order, path) | none ↦ none ]
    | _ ↦ none
  ]
  cap_of_order _ = none

  abbrev pub cap_of_context : Option Json → Option (Refusal × Text)
  cap_of_context (some (obj ac)) =
      if over_cap (get (codes "agent_name") ac)
      then some (invalid_input, codes "/agent_context/agent_name")
      else none
  cap_of_context _ = none

  -- capFailure
  unfoldable pub cap_failure : Members → Option (Refusal × Text)
  unfolding items_cap
  cap_failure input =
      cap_of_order (get (codes "order") input)
      <|> cap_of_context (get (codes "agent_context") input)

  module _ (classes : Classes) where
    abbrev pub values_of_order : Option Json → List Text
    unfolding items_values
    values_of_order (some (obj order)) = elim (get (codes "items") order) [
      | some (arr vs) ↦ items_values classes js 0 vs
      | _ ↦ []
    ]
    values_of_order _ = []

    abbrev pub card_named : Option Json → Bool
    unfolding has_card_token
    card_named (some (str t)) = has_card_token classes t
    card_named _ = false

    abbrev pub values_of_context : Option Json → List Text
    unfolding has_card_token
    values_of_context (some (obj ac)) =
        if card_named (get (codes "agent_name") ac)
        then pointer js (key (codes "agent_context") ∷ key (codes "agent_name") ∷ []) ∷ []
        else []
    values_of_context _ = []

    -- refusedValues
    unfoldable pub refused_values : Members → List Text
    unfolding items_values has_card_token
    refused_values input =
        values_of_order (get (codes "order") input)
        ++ values_of_context (get (codes "agent_context") input)
