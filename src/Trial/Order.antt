-- ===== src/Trial/Order.antt =====
-- src/trial/rules.ts: orderFailure, the format of an order.
pub mod Accepted
use chirindo.Prelude.{
  ℕ, suc, Bool, true, false, not, ◌||◌, Option, none, some, List, [], ◌∷◌, ◌++◌, Text, codes,
  text_order, not_after,
}
use chirindo.Json.{Json, bool, str, arr, obj, Items, nil, cons, Members, keys, get, has_own}
use chirindo.Js.{Js}
use chirindo.Purchase.Time.{Dates, date_ok}
use chirindo.Trial.Pointer.{
  Segment, key, index, pointer, unless, ◌<|>◌, first_of, first_some, each_key, is_str, str_max,
  printable_256, amount, currency, safe_from, extra_key,
}

abbrev pub order_members : List Text
order_members =
    codes "merchant_id"
    ∷ codes "merchant_order_id"
    ∷ codes "checkout_ref"
    ∷ codes "currency"
    ∷ codes "total_minor"
    ∷ codes "items"
    ∷ []

abbrev pub item_members : List Text
item_members =
    codes "sku"
    ∷ codes "quantity"
    ∷ codes "unit_price_minor"
    ∷ codes "name"
    ∷ codes "category"
    ∷ codes "refundable"
    ∷ codes "service_from"
    ∷ codes "service_until"
    ∷ codes "location"
    ∷ []

-- len256
abbrev pub len_256 : Option Json → Bool
len_256 v = is_str (str_max 256 1) v

abbrev pub is_bool : Option Json → Bool
is_bool (some (bool b)) = true
is_bool _ = false

-- a <= b of two strings; a value that is no string has failed before.
abbrev pub at_most : Option Json → Option Json → Bool
at_most (some (str a)) (some (str b)) = not_after (text_order a b)
at_most _ _ = true

-- !has(o, k) || ok(o[k])
abbrev pub absent_or : (Option Json → Bool) → Members → Text → Bool
absent_or ok o k = not (has_own k o) || ok (get k o)

module _ (js : Js) (dates : Dates) where
  -- at(k)
  abbrev pub item_path : ℕ → List Segment
  item_path i = key (codes "order") ∷ key (codes "items") ∷ index i ∷ []

  abbrev pub in_item : ℕ → Text → Text
  in_item i k = pointer js (item_path i ++ key k ∷ [])

  -- The checks of the body of the loop over the items.
  abbrev pub item_checks : ℕ → Members → List (Option Text)
  item_checks i it =
      (first_of (extra_key js item_members (item_path i)) (keys it))
      ∷ each_key (λ k. has_own k it) (in_item i)
          (codes "sku" ∷ codes "quantity" ∷ codes "unit_price_minor" ∷ [])
      ∷ unless (len_256 (get (codes "sku") it)) (in_item i (codes "sku"))
      ∷ unless (safe_from 1 (get (codes "quantity") it)) (in_item i (codes "quantity"))
      ∷ unless (is_str amount (get (codes "unit_price_minor") it))
          (in_item i (codes "unit_price_minor"))
      ∷ unless (absent_or (is_str (str_max 256 0)) it (codes "name")) (in_item i (codes "name"))
      ∷ each_key (absent_or len_256 it) (in_item i) (codes "category" ∷ codes "location" ∷ [])
      ∷ unless (absent_or is_bool it (codes "refundable")) (in_item i (codes "refundable"))
      ∷ each_key (absent_or (is_str (date_ok dates)) it) (in_item i)
          (codes "service_from" ∷ codes "service_until" ∷ [])
      ∷ unless (at_most (get (codes "service_from") it) (get (codes "service_until") it))
          (in_item i (codes "service_from"))
      ∷ []

  unfoldable pub item_failure : ℕ → Json → Option Text
  item_failure i (obj it) = first_some (item_checks i it)
  item_failure i _ = some (pointer js (item_path i))

  unfoldable pub items_loop : ℕ → Items → Option Text
  unfolding item_failure
  items_loop i nil = none
  items_loop i (cons v vs) = let rest = items_loop (suc i) vs in item_failure i v <|> rest

  unfoldable pub items_failure : Option Json → Option Text
  unfolding items_loop
  items_failure (some (arr (cons v vs))) = items_loop 0 (cons v vs)
  items_failure _ = some (codes "/order/items")

  abbrev pub order_checks : Members → List (Option Text)
  unfolding items_failure
  order_checks o =
      (first_of (extra_key js order_members (key (codes "order") ∷ [])) (keys o))
      ∷ unless (len_256 (get (codes "merchant_id") o)) (codes "/order/merchant_id")
      ∷ unless (has_own (codes "merchant_order_id") o || has_own (codes "checkout_ref") o)
          (codes "/order")
      ∷ each_key (absent_or (is_str printable_256) o) (λ k. codes "/order/" ++ k)
          (codes "merchant_order_id" ∷ codes "checkout_ref" ∷ [])
      ∷ unless (is_str currency (get (codes "currency") o)) (codes "/order/currency")
      ∷ unless (is_str amount (get (codes "total_minor") o)) (codes "/order/total_minor")
      ∷ items_failure (get (codes "items") o)
      ∷ []

  unfoldable pub order_failure : Json → Option Text
  unfolding items_failure
  order_failure (obj o) = first_some (order_checks o)
  order_failure _ = some (codes "/order")
