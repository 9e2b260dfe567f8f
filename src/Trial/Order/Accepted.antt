-- ===== src/Trial/Order/Accepted.antt =====
-- The orders that orderFailure of src/trial/rules.ts has no fault to find with.
use chirindo.Prelude.{
  ℕ, suc, ◌≤◌, ◌≡◌, ◌≢◌, refl, Bool, true, ◌||◌, Option, none, some, List, [], ◌∷◌, Text, codes,
  All, arith, length, includes, pos, negsuc, Bool-cases, inl, inr,
}
use chirindo.Json.{
  Json, null, bool, frac, infinity, num, str, int, arr, obj, Items, nil, cons, Members, elems, keys,
  get, has_own, is_safe_integer, max_safe_integer,
}
use chirindo.Js.{Js}
use chirindo.Purchase.Time.{Dates}
use chirindo.Trial.Pointer.{
  Segment, key, first_some, first_of, is_str, str_max, amount, currency, safe_from, extra_key,
}
use chirindo.Trial.Order.{
  order_members, item_members, len_256, at_most, item_path, item_checks, item_failure, order_checks,
  items_loop, items_failure, order_failure,
}

pub first_some-none : (os : List (Option Text)) → first_some os ≡ none → All (λ o. o ≡ none) os
first_some-none [] h = tt
first_some-none (none ∷ os) h = (refl, first_some-none os h)
first_some-none (some p ∷ os) h = cc

extra-none :
    (js : Js) (members : List Text) (path : List Segment) (ks : List Text)
    → first_of (extra_key js members path) ks ≡ none
    → All (λ k. includes members k ≡ true) ks
extra-none js members path [] h = tt
extra-none js members path (k ∷ ks) h = elim (Bool-cases (includes members k)) [
  | inl e ↦ (e, extra-none js members path ks (ground (arith, h, e)))
  | inr e ↦ ground (arith, h, e)
]

-- A string of between 1 and 256 code units.
abbrev pub IsShort : Option Json → Type 0
IsShort v = (t : Text) × (v ≡ some (str t)) × (1 ≤ length t) × (length t ≤ 256)

-- A string that matches a pattern.
abbrev pub Matches : (Text → Bool) → Option Json → Type 0
Matches ok v = (t : Text) × (v ≡ some (str t)) × (ok t ≡ true)

pub is_str-Matches : (ok : Text → Bool) (v : Option Json) → is_str ok v ≡ true → Matches ok v
is_str-Matches ok (some (str t)) h = (t, refl, h)
is_str-Matches ok none h = cc
is_str-Matches ok (some (arr vs)) h = cc
is_str-Matches ok (some (obj ms)) h = cc
is_str-Matches ok (some (num n)) h = cc
is_str-Matches ok (some (bool b)) h = cc
is_str-Matches ok (some null) h = cc

len_256-IsShort : (v : Option Json) → len_256 v ≡ true → IsShort v
len_256-IsShort v h =
    let (t, e, fits) = is_str-Matches (str_max 256 1) v h in
    (t, e, ground (arith, fits), ground (arith, fits))

-- A safe integer that is at least 1.
abbrev pub IsCount : Option Json → Type 0
IsCount v = (n : ℕ) × (v ≡ some (num (int (pos n)))) × (1 ≤ n) × (n ≤ max_safe_integer)

safe_from-IsCount : (v : Option Json) → safe_from 1 v ≡ true → IsCount v
unfolding is_safe_integer
safe_from-IsCount (some (num (int (pos n)))) h = (n, refl, ground (arith, h), ground (arith, h))
safe_from-IsCount (some (num (int (negsuc n)))) h = cc
safe_from-IsCount (some (num (frac f))) h = cc
safe_from-IsCount (some (num (infinity b))) h = cc
safe_from-IsCount (some (str t)) h = cc
safe_from-IsCount none h = cc
safe_from-IsCount (some (arr vs)) h = cc
safe_from-IsCount (some (obj ms)) h = cc
safe_from-IsCount (some (bool b)) h = cc
safe_from-IsCount (some null) h = cc

-- An item of an order, by its members.
abbrev pub IsItem : Dates → Json → Type 0
IsItem dates v =
    (it : Members) × (v ≡ obj it)
    × All (λ k. includes item_members k ≡ true) (keys it)
    × IsShort (get (codes "sku") it)
    × IsCount (get (codes "quantity") it)
    × Matches amount (get (codes "unit_price_minor") it)
    × (at_most (get (codes "service_from") it) (get (codes "service_until") it) ≡ true)

item_failure-IsItem :
    (js : Js) (dates : Dates) (i : ℕ) (v : Json) → item_failure js dates i v ≡ none → IsItem dates v
unfolding item_failure
item_failure-IsItem js dates i (obj it) h =
    let (
      known,
      (given, (sku, (quantity, (price, (name, (short, (flag, (dated, (ordered, end))))))))),
    ) =
      first_some-none (item_checks js dates i it) h in
    (
      it,
      refl,
      extra-none js item_members (item_path js dates i) (keys it) known,
      len_256-IsShort (get (codes "sku") it) (ground (arith, sku)),
      safe_from-IsCount (get (codes "quantity") it) (ground (arith, quantity)),
      is_str-Matches amount (get (codes "unit_price_minor") it) (ground (arith, price)),
      ground (arith, ordered),
    )
item_failure-IsItem js dates i null h = cc
item_failure-IsItem js dates i (bool b) h = cc
item_failure-IsItem js dates i (num n) h = cc
item_failure-IsItem js dates i (str t) h = cc
item_failure-IsItem js dates i (arr vs) h = cc

items_loop-IsItem :
    (js : Js) (dates : Dates) (i : ℕ) (vs : Items)
    → items_loop js dates i vs ≡ none
    → All (IsItem dates) (elems vs)
unfolding items_loop
items_loop-IsItem js dates i nil h = tt
items_loop-IsItem js dates i (cons v vs) h =
    let (now, (later, end)) =
      first_some-none (item_failure js dates i v ∷ items_loop js dates (suc i) vs ∷ [])
        (ground (arith, h)) in
    (item_failure-IsItem js dates i v now, items_loop-IsItem js dates (suc i) vs later)

-- The list of the items of an order: not empty, and each an item.
abbrev pub IsItemList : Dates → Option Json → Type 0
IsItemList dates v =
    (vs : Items) × (v ≡ some (arr vs)) × (elems vs ≢ []) × All (IsItem dates) (elems vs)

items_failure-IsItemList :
    (js : Js) (dates : Dates) (v : Option Json)
    → items_failure js dates v ≡ none
    → IsItemList dates v
unfolding items_failure
items_failure-IsItemList js dates (some (arr (cons v vs))) h =
    (cons v vs, refl, (λ e. cc), items_loop-IsItem js dates 0 (cons v vs) h)
items_failure-IsItemList js dates (some (arr nil)) h = cc
items_failure-IsItemList js dates (some null) h = cc
items_failure-IsItemList js dates (some (bool b)) h = cc
items_failure-IsItemList js dates (some (num n)) h = cc
items_failure-IsItemList js dates (some (str t)) h = cc
items_failure-IsItemList js dates (some (obj ms)) h = cc
items_failure-IsItemList js dates none h = cc

-- An order, by its members.
abbrev pub IsOrder : Dates → Members → Type 0
IsOrder dates o =
    All (λ k. includes order_members k ≡ true) (keys o)
    × IsShort (get (codes "merchant_id") o)
    × ((has_own (codes "merchant_order_id") o || has_own (codes "checkout_ref") o) ≡ true)
    × Matches currency (get (codes "currency") o)
    × Matches amount (get (codes "total_minor") o)
    × IsItemList dates (get (codes "items") o)

-- An object in which orderFailure finds no fault has none but the known members; its merchant_id is
-- a string of 1 to 256 code units, one of its two references is there, its currency is three capital
-- letters, its total is a decimal; its items are at least one, each an object of known members with a
-- sku of 1 to 256 code units, a quantity that is a safe integer of at least 1, a decimal unit price,
-- and no service_from later than its service_until.
pub order_failure-IsOrder :
    (js : Js) (dates : Dates) (o : Members)
    → order_failure js dates (obj o) ≡ none
    → IsOrder dates o
unfolding order_failure
order_failure-IsOrder js dates o h =
    let (known, (merchant, (named, (refs, (money, (total, (items, end))))))) =
      first_some-none (order_checks js dates o) h in
    (
      extra-none js order_members (key (codes "order") ∷ []) (keys o) known,
      len_256-IsShort (get (codes "merchant_id") o) (ground (arith, merchant)),
      ground (arith, named),
      is_str-Matches currency (get (codes "currency") o) (ground (arith, money)),
      is_str-Matches amount (get (codes "total_minor") o) (ground (arith, total)),
      items_failure-IsItemList js dates (get (codes "items") o) items,
    )
