-- ===== src/Purchase/Limits/Within.antt =====
-- What the judge of src/purchase/limits.ts lets through.
use chirindo.Prelude.{
  ℕ, suc, ◌≤◌, ◌≡◌, ◌≢◌, refl, sym, ap, ◌∙◌, Bool, true, false, not, some, List, [], ◌∷◌, map, any,
  all, Text, All, codes, text_eq→eq, arith, Bool-cases, Option-cases, inl, inr, Sign, before, after,
}
use chirindo.Json.{Json, Members, get, has_own}
use chirindo.Purchase.Time.{compare_instants}
use chirindo.Purchase.Card.{
  CardLimit, currency_limit, max_total_minor, max_unit_price_minor, merchants, items, categories,
  refundable_only, service_window, locations, card_limits, str_of,
}
use chirindo.Purchase.Rows.{
  LimitResult, inside, outside, not_declared, not_evaluated, CardLimitRow, result_of, row_of,
  is_outside_limit, is_not_evaluated, obj_of, list_of, big_int, list_includes, read_item,
  is_outside, is_missing, every_item, inside_if, item_ok, item_fields, judge, limits_nothing,
}
use chirindo.Purchase.Limits.{
  rows_of, is_before, is_after, constraints_of, card_of, uses_allowed, kid_named, window_of,
  used_up, Prepared, Judgement, judgement, judge_limits, row_reasons, limits_in, not_yet_valid,
  expired, agent_not_named, uses_exhausted,
}
use chirindo.Purchase.Limits.Agree.{judged, any-map, row_reasons-none, four_false}

-- Every item has the fields that a limit reads, and what is in them is inside it.
abbrev pub EveryItem : (card order : Members) → CardLimit → Type 0
EveryItem card order limit =
    All
      (λ it.
        (all (λ f. has_own f (obj_of (some it))) (item_fields limit) ≡ true)
        × (item_ok card limit (obj_of (some it)) ≡ true))
      (list_of (get (codes "items") order))

-- An order inside a limit of a card.
abbrev pub IsWithin : (card order : Members) → CardLimit → Type 0
IsWithin card order currency_limit =
    str_of (get (codes "currency") order) ≡ str_of (get (codes "currency") card)
IsWithin card order max_total_minor =
    big_int (get (codes "total_minor") order) ≤ big_int (get (codes "max_total_minor") card)
IsWithin card order merchants =
    list_includes (get (codes "merchants") card) (get (codes "merchant_id") order) ≡ true
IsWithin card order limit = EveryItem card order limit

inside_if-inside : (b : Bool) → inside_if b ≡ inside → b ≡ true
inside_if-inside true h = refl
inside_if-inside false h = cc

every_item-inside :
    (its : List Json) (fields : List Text) (ok : Members → Bool)
    → any is_outside (map (read_item fields ok) its) ≡ false
    → any is_missing (map (read_item fields ok) its) ≡ false
    → All
        (λ it.
          (all (λ f. has_own f (obj_of (some it))) fields ≡ true) × (ok (obj_of (some it)) ≡ true))
        its
unfolding read_item
every_item-inside [] fields ok h k = tt
every_item-inside (it ∷ its) fields ok h k =
    elim (Bool-cases (all (λ f. has_own f (obj_of (some it))) fields)) [
      | inl e ↦ (
        (e, ground (arith, h, e)),
        every_item-inside its fields ok (ground (arith, h, e)) (ground (arith, k, e)),
      )
      | inr e ↦ ground (arith, k, e)
    ]

every_item-EveryItem :
    (card order : Members) (limit : CardLimit)
    → every_item (list_of (get (codes "items") order)) (item_fields limit) (item_ok card limit)
      ≡ inside
    → EveryItem card order limit
unfolding every_item
every_item-EveryItem card order limit h =
    let its = list_of (get (codes "items") order) in
    let r = map (read_item (item_fields limit) (item_ok card limit)) its in
    elim (Bool-cases (any is_outside r)) [
      | inl e ↦ ground (arith, h, e)
      | inr e ↦ elim (Bool-cases (any is_missing r)) [
        | inl f ↦ ground (arith, h, e, f)
        | inr f ↦ every_item-inside its (item_fields limit) (item_ok card limit) e f
      ]
    ]

judge-IsWithin :
    (card order : Members) (limit : CardLimit)
    → judge card order limit ≡ inside
    → IsWithin card order limit
unfolding judge
judge-IsWithin card order currency_limit h = text_eq→eq _ _ (inside_if-inside _ h)
judge-IsWithin card order max_total_minor h = let ok = inside_if-inside _ h in ground (arith, ok)
judge-IsWithin card order merchants h = inside_if-inside _ h
judge-IsWithin card order max_unit_price_minor h =
    every_item-EveryItem card order max_unit_price_minor h
judge-IsWithin card order items h = every_item-EveryItem card order items h
judge-IsWithin card order categories h = every_item-EveryItem card order categories h
judge-IsWithin card order refundable_only h = every_item-EveryItem card order refundable_only h
judge-IsWithin card order service_window h = every_item-EveryItem card order service_window h
judge-IsWithin card order locations h = every_item-EveryItem card order locations h

any_each : (f : CardLimit → Bool) (limit : CardLimit) → any f card_limits ≡ false → f limit ≡ false
any_each f currency_limit h = ground (arith, h)
any_each f max_total_minor h = ground (arith, h)
any_each f max_unit_price_minor h = ground (arith, h)
any_each f merchants h = ground (arith, h)
any_each f items h = ground (arith, h)
any_each f categories h = ground (arith, h)
any_each f refundable_only h = ground (arith, h)
any_each f service_window h = ground (arith, h)
any_each f locations h = ground (arith, h)

inside_if-declared : (b : Bool) → inside_if b ≢ not_declared
inside_if-declared true h = cc
inside_if-declared false h = cc

every_item-declared :
    (its : List Json) (fields : List Text) (ok : Members → Bool)
    → every_item its fields ok ≢ not_declared
unfolding every_item
every_item-declared its fields ok h = ground (arith, h)

judge-declared : (card order : Members) (limit : CardLimit) → judge card order limit ≢ not_declared
unfolding judge
judge-declared card order currency_limit h = inside_if-declared _ h
judge-declared card order max_total_minor h = inside_if-declared _ h
judge-declared card order merchants h = inside_if-declared _ h
judge-declared card order max_unit_price_minor h =
    every_item-declared (list_of (get (codes "items") order)) (item_fields max_unit_price_minor)
      (item_ok card max_unit_price_minor) h
judge-declared card order items h =
    every_item-declared (list_of (get (codes "items") order)) (item_fields items)
      (item_ok card items) h
judge-declared card order categories h =
    every_item-declared (list_of (get (codes "items") order)) (item_fields categories)
      (item_ok card categories) h
judge-declared card order refundable_only h =
    every_item-declared (list_of (get (codes "items") order)) (item_fields refundable_only)
      (item_ok card refundable_only) h
judge-declared card order service_window h =
    every_item-declared (list_of (get (codes "items") order)) (item_fields service_window)
      (item_ok card service_window) h
judge-declared card order locations h =
    every_item-declared (list_of (get (codes "items") order)) (item_fields locations)
      (item_ok card locations) h

inside_left :
    (r : LimitResult)
    → is_outside_limit r ≡ false
    → is_not_evaluated r ≡ false
    → r ≢ not_declared
    → r ≡ inside
inside_left inside h k d = refl
inside_left outside h k d = cc
inside_left not_evaluated h k d = cc
inside_left not_declared h k d = absurd (d refl)

result_of-IsWithin :
    (card order : Members) (limit : CardLimit)
    → limits_nothing card limit ≡ false
    → is_outside_limit (result_of card order limit) ≡ false
    → is_not_evaluated (result_of card order limit) ≡ false
    → IsWithin card order limit
unfolding result_of
result_of-IsWithin card order limit declared h k = judge-IsWithin card order limit (
    inside_left (judge card order limit) (ground (arith, h, declared)) (ground (arith, k, declared))
      (judge-declared card order limit))

-- The time is not before the start of the window and not after its end.
abbrev pub InWindow : (ins : Members) → (at : Text) → Type 0
InWindow ins at =
    (s t : Sign) × (compare_instants at (str_of (get (codes "valid_from") (constraints_of ins)))
      ≡ some s)
    × (s ≢ before)
    × (compare_instants at (str_of (get (codes "valid_until") (constraints_of ins))) ≡ some t)
    × (t ≢ after)

not_before : (s : Sign) → is_before s ≡ false → s ≢ before
not_before s h e = ground (arith, h, e)

not_late : (s : Sign) → is_after s ≡ false → s ≢ after
not_late s h e = ground (arith, h, e)

window_of-InWindow :
    (ins : Members) (at : Text) → window_of ins at ≡ some (false, false) → InWindow ins at
unfolding window_of
window_of-InWindow ins at h =
    elim (Option-cases
      (compare_instants at (str_of (get (codes "valid_from") (constraints_of ins))))) [
        | inl e ↦ ground (arith, h, e)
        | inr (s, e) ↦
            elim (Option-cases
              (compare_instants at (str_of (get (codes "valid_until") (constraints_of ins))))) [
                | inl f ↦ ground (arith, h, e, f)
                | inr (t, f) ↦ (
                  s,
                  t,
                  e,
                  not_before s (ground (arith, h, e, f)),
                  f,
                  not_late t (ground (arith, h, e, f)),
                )
              ]
      ]

-- What no reason of the judge leaves, with each limit at once.
pub judge_limits-clear :
    (p : Prepared) (kid at : Text) (uses : ℕ) (j : Judgement)
    → judge_limits p kid at uses ≡ some j
    → j.reasons ≡ []
    → ((limit : CardLimit)
        → limits_nothing (card_of p.instruction) limit ≡ false
        → IsWithin (card_of p.instruction) p.order limit)
      × (kid_named p.instruction kid ≡ true)
      × (suc uses ≤ uses_allowed (get (codes "max_uses") (constraints_of p.instruction)))
      × InWindow p.instruction at
unfolding judgement limits_in rows_of
judge_limits-clear p kid at uses j h allowed =
    let ((early, late), e, made) = judged p kid at uses j h in
    let ins = p.instruction in
    let card = card_of ins in
    let (split, join) =
      four_false early late (not (kid_named ins kid)) (used_up ins (suc uses)) not_yet_valid expired
        agent_not_named uses_exhausted (row_reasons (rows_of ins p.order)) in
    let (down, up) = row_reasons-none card p.order card_limits in
    let (a, b, c, d, rest) = split (ap (λ (i : Judgement). i.reasons) made ∙ allowed) in
    let (held, read) = down rest in
    let there =
      sym (any-map (λ (l : CardLimitRow). l.field_missing) (row_of card p.order) card_limits)
      ∙ read in
    (
      λ limit declared.
          result_of-IsWithin card p.order limit declared
            (any_each (λ l. is_outside_limit (result_of card p.order l)) limit held)
            (any_each (λ l. is_not_evaluated (result_of card p.order l)) limit there),
      ground (arith, c),
      ground (arith, d),
      window_of-InWindow ins at (e ∙ cc),
    )

-- Where judgeLimits has no reason against a purchase, the order is inside each limit that the card
-- of the instruction sets: the currency is the card's, the total and each unit price at most its
-- bounds, and the merchant, the skus, categories and locations on its lists, every item refundable
-- and its service within the window, where the card asks for it. The gate's kid is one that the
-- instruction names, the use count with this purchase is at most its max_uses, or 1, and the time is
-- not before its valid_from and not after its valid_until.
pub judge_limits-IsWithin :
    (p : Prepared) (kid at : Text) (uses : ℕ) (j : Judgement) (limit : CardLimit)
    → judge_limits p kid at uses ≡ some j
    → j.reasons ≡ []
    → limits_nothing (card_of p.instruction) limit ≡ false
    → IsWithin (card_of p.instruction) p.order limit
      × (kid_named p.instruction kid ≡ true)
      × (suc uses ≤ uses_allowed (get (codes "max_uses") (constraints_of p.instruction)))
      × InWindow p.instruction at
judge_limits-IsWithin p kid at uses j limit h allowed declared =
    let (within, named, fits, window) = judge_limits-clear p kid at uses j h allowed in
    (within limit declared, named, fits, window)
