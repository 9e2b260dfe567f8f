-- ===== src/Purchase/Rows.antt =====
-- src/purchase/limits.ts: the reading of each limit of a card against an order. The instruction and
-- the order are objects that steps 1 and 2 let through; a member of another type, which they refuse,
-- reads as an empty text or list.
use chirindo.Prelude.{
  ℕ, ◌+◌, ◌-◌, ◌*◌, leb, Bool, true, false, not, ◌&&◌, ◌||◌, if◌then◌else◌, Option, none, some,
  List, [], ◌∷◌, Text, codes, text_eq, text_order, not_after, any, all, map,
}
use chirindo.Json.{Json, bool, str, arr, obj, Members, elems, get, has_own}
use chirindo.Purchase.Card.{
  CardLimit, currency_limit, max_total_minor, max_unit_price_minor, merchants, items, categories,
  refundable_only, service_window, locations, limit_name, str_of,
}

-- LimitResult
pub data LimitResult : Type 0 where
  not_declared inside outside not_evaluated : LimitResult

-- CardLimitRow; its reason is order-field-missing exactly at not_evaluated.
pub record CardLimitRow : Type 0 where
  pub limit : CardLimit
  pub result : LimitResult
  pub field_missing : Bool

-- The members of an object, and the elements of a list; of anything else, none.
abbrev pub obj_of : Option Json → Members
obj_of (some (obj ms)) = ms
obj_of _ = Members.end

abbrev pub list_of : Option Json → List Json
list_of (some (arr vs)) = elems vs
list_of _ = []

-- BigInt of a decimal text
unfoldable pub decimal_onto : ℕ → Text → ℕ
decimal_onto n [] = n
decimal_onto n (c ∷ t) = decimal_onto (n * 10 + (c - b'0')) t

abbrev pub big_int : Option Json → ℕ
unfolding decimal_onto
big_int v = decimal_onto 0 (str_of v)

-- list.includes(v) of strings
abbrev pub is_text : Text → Json → Bool
is_text t (str s) = text_eq s t
is_text t _ = false

abbrev pub list_includes : Option Json → Option Json → Bool
list_includes vs v = any (is_text (str_of v)) (list_of vs)

-- v === true
abbrev pub is_true : Option Json → Bool
is_true (some (bool b)) = b
is_true _ = false

abbrev pub is_false : Option Json → Bool
is_false (some (bool b)) = not b
is_false _ = false

-- One item read for a limit: `none` where a field of it is missing.
unfoldable pub read_item : List Text → (Members → Bool) → Json → Option Bool
read_item fields ok it =
    let o = obj_of (some it) in if all (λ f. has_own f o) fields then some (ok o) else none

abbrev pub is_outside : Option Bool → Bool
is_outside (some b) = not b
is_outside none = false

abbrev pub is_missing : Option Bool → Bool
is_missing (some b) = false
is_missing none = true

-- everyItem
unfoldable pub every_item : List Json → List Text → (Members → Bool) → LimitResult
unfolding read_item
every_item its fields ok =
    let r = map (read_item fields ok) its in
    if any is_outside r then outside else if any is_missing r then not_evaluated else inside

abbrev pub inside_if : Bool → LimitResult
inside_if ok = if ok then inside else outside

-- What each limit asks of one item.
abbrev pub item_ok : (card : Members) → CardLimit → Members → Bool
unfolding big_int
item_ok card max_unit_price_minor it =
    leb (big_int (get (codes "unit_price_minor") it))
      (big_int (get (codes "max_unit_price_minor") card))
item_ok card items it = list_includes (get (codes "items") card) (get (codes "sku") it)
item_ok card categories it =
    list_includes (get (codes "categories") card) (get (codes "category") it)
item_ok card refundable_only it = is_true (get (codes "refundable") it)
item_ok card service_window it =
    let sw = obj_of (get (codes "service_window") card) in
    not_after (text_order (str_of (get (codes "from") sw)) (str_of (get (codes "service_from") it)))
    && not_after
        (text_order (str_of (get (codes "service_until") it)) (str_of (get (codes "until") sw)))
item_ok card locations it = list_includes (get (codes "locations") card) (get (codes "location") it)
item_ok card _ it = true

-- The fields of an item that a limit reads.
abbrev pub item_fields : CardLimit → List Text
item_fields max_unit_price_minor = codes "unit_price_minor" ∷ []
item_fields items = codes "sku" ∷ []
item_fields categories = codes "category" ∷ []
item_fields refundable_only = codes "refundable" ∷ []
item_fields service_window = codes "service_from" ∷ codes "service_until" ∷ []
item_fields locations = codes "location" ∷ []
item_fields _ = []

-- judge
unfoldable pub judge : (card order : Members) → CardLimit → LimitResult
unfolding every_item item_ok big_int
judge card order currency_limit =
    inside_if
      (text_eq (str_of (get (codes "currency") order)) (str_of (get (codes "currency") card)))
judge card order max_total_minor =
    inside_if (
      leb (big_int (get (codes "total_minor") order))
        (big_int (get (codes "max_total_minor") card)))
judge card order merchants =
    inside_if (list_includes (get (codes "merchants") card) (get (codes "merchant_id") order))
judge card order limit =
    every_item (list_of (get (codes "items") order)) (item_fields limit) (item_ok card limit)

-- !has(card, k) || (k === "refundable_only" && card[k] === false)
abbrev pub limits_nothing : (card : Members) → CardLimit → Bool
limits_nothing card refundable_only =
    not (has_own (codes "refundable_only") card) || is_false (get (codes "refundable_only") card)
limits_nothing card limit = not (has_own (limit_name limit) card)

abbrev pub is_not_evaluated : LimitResult → Bool
is_not_evaluated not_evaluated = true
is_not_evaluated _ = false

abbrev pub is_outside_limit : LimitResult → Bool
is_outside_limit outside = true
is_outside_limit _ = false

unfoldable pub result_of : (card order : Members) → CardLimit → LimitResult
unfolding judge
result_of card order limit =
    let judged = judge card order limit in
    if limits_nothing card limit then not_declared else judged

unfoldable pub row_of : (card order : Members) → CardLimit → CardLimitRow
unfolding result_of
row_of card order limit = record {
  limit = limit;
  result = result_of card order limit;
  field_missing = is_not_evaluated (result_of card order limit);
}
