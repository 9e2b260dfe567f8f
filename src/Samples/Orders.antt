-- ===== src/Samples/Orders.antt =====
-- The theorems on orders, times and the limits of a card at one purchase.
use chirindo.Trial.Pointer.{amount, currency}
use chirindo.Prelude.{
  ◌≡◌, sym, ap, ◌≢◌, ◌↔◌, ◌≤◌, any, Sign, refl, true, false, none, some, List, [], Text, codes, pos,
  text_eq, ℕ, same, arith, not_after, opposite, includes,
}
use chirindo.Json.{
  Json, num, int, str, arr, obj, nil, cons, Members, end, member, get, has_own, is_safe_integer,
}
use chirindo.Samples.{js}
use chirindo.Purchase.Time.{Dates, compare_instants}
use chirindo.Purchase.Time.Order.{IsMeant, compare_instants_order}
use chirindo.Purchase.Jcs.{jcs}
use chirindo.Purchase.Jcs.Order.{swapped, jcs-Reordered}
use chirindo.Purchase.Card.{max_total_minor}
use chirindo.Purchase.Rows.{CardLimitRow}
use chirindo.Purchase.Limits.{Prepared, Judgement, kid_named, judge_limits, rows_of}
use chirindo.Purchase.Limits.Agree.{judge_limits-exceeded}
use chirindo.Purchase.Limits.Within.{IsWithin, InWindow, judge_limits-IsWithin}
use chirindo.Trial.Pointer.{printable_256}
use chirindo.Trial.Fields.{refused_fields, refused_values}
use chirindo.Trial.Pointer.Safe.{pointer_re, order_failure-pointer_re}
use chirindo.Trial.Order.{order_failure}
use chirindo.Trial.Order.Accepted.{IsOrder, order_failure-IsOrder}
use chirindo.Trial.Screen.{Classes, luhn}
use chirindo.Trial.Screen.Luhn.{luhn-changed_digit}
use chirindo.Trial.Input.{check_record_input}
use chirindo.Trial.Input.Taken.{check_record_input-IsOrder}

abbrev pub time : Text
time = codes "2026-01-01T00:00:00Z"

-- A Date that holds that time only.
abbrev pub dates : Dates
dates = record { parse = λ t. some 0; to_iso_string = λ n. time }

abbrev pub classes : Classes
classes = record { letter_or_number = λ c. false; email = λ t. false }

abbrev pub word : List ℕ → Json
word t = str t

abbrev pub item : Members
item = member (codes "sku") (str (codes "a")) (
    member (codes "quantity") (num (int (pos 2)))
      (member (codes "unit_price_minor") (str (codes "50")) end))

abbrev pub order : Members
order = member (codes "merchant_id") (str (codes "m")) (
    member (codes "checkout_ref") (str (codes "r")) (
      member (codes "currency") (str (codes "EUR")) (
        member (codes "total_minor") (str (codes "100"))
          (member (codes "items") (arr (cons (obj item) nil)) end))))

-- A kid of 43 characters.
abbrev pub kid : Text
kid = codes "aaaaaaaaaaaaaaaaaaaaaaaaaaaaaaaaaaaaaaaaaaa"

abbrev pub card : Members
card =
    member (codes "currency") (str (codes "EUR"))
      (member (codes "max_total_minor") (str (codes "100")) end)

abbrev pub constraints : Members
constraints =
    member (codes "valid_from") (str time)
      (member (codes "valid_until") (str time) (member (codes "card") (obj card) end))

-- An instruction as far as the limits read it.
abbrev pub instruction : Members
instruction =
    member (codes "agent_kid") (arr (cons (str kid) nil))
      (member (codes "constraints") (obj constraints) end)

abbrev pub purchase : Prepared
purchase = record { instruction = instruction; digest = codes "sha256:"; order = order }

abbrev pub judged : Prepared → Judgement
judged p = record { reasons = []; exceeded = []; card_limits = rows_of p.instruction p.order }

compare_instants_order_example :
    IsMeant same time time
    × (compare_instants time time ≡ some (opposite same))
    × (not_after same ≡ true
        → not_after same ≡ true
        → (u : Sign) × (compare_instants time time ≡ some u) × (not_after u ≡ true))
unfolding compare_instants text_eq
compare_instants_order_example = compare_instants_order time time time same same refl refl

a_not_b : codes "a" ≢ codes "b"
unfolding text_eq
a_not_b e =
    let now : text_eq (codes "a") (codes "b") ≡ true = ap (text_eq (codes "a")) (sym e) in cc

jcs-Reordered_example :
    jcs js (λ t. t) (obj (member (codes "a") (str []) (member (codes "b") (str []) end)))
    ≡ jcs js (λ t. t) (obj (member (codes "b") (str []) (member (codes "a") (str []) end)))
jcs-Reordered_example =
    jcs-Reordered js (λ t. t) (member (codes "a") (str []) (member (codes "b") (str []) end))
      (member (codes "b") (str []) (member (codes "a") (str []) end))
      (swapped (codes "a") (codes "b") (str []) (str []) end a_not_b)

luhn-changed_digit_example : luhn (codes "79927398714") ≡ false
unfolding luhn
luhn-changed_digit_example =
    luhn-changed_digit (codes "7992739871") [] b'3' b'4' refl refl (λ e. omega (arith, e)) refl

order_failure-IsOrder_example : IsOrder dates order
unfolding order_failure includes text_eq get has_own printable_256 currency amount is_safe_integer
order_failure-IsOrder_example = order_failure-IsOrder js dates order refl

order_failure-pointer_re_example : pointer_re (codes "/order") ≡ true
unfolding order_failure includes text_eq get has_own
order_failure-pointer_re_example =
    order_failure-pointer_re js (λ n h. refl) dates
      (obj (member (codes "merchant_id") (str (codes "m")) end)) (codes "/order") tt refl

abbrev input : Members
input = member (codes "order_ref") (str (codes "r")) (member (codes "order") (obj order) end)

check_record_input-IsOrder_example :
    (given taken : Members) × (obj input ≡ obj given)
    × (refused_fields js given ≡ [])
    × (refused_values js classes given ≡ [])
    × (get (codes "order_ref") given ≡ some (str (codes "r")))
    × (printable_256 (codes "r") ≡ true)
    × (get (codes "order") (member (codes "order") (obj order) end) ≡ some (obj taken))
    × IsOrder dates taken
unfolding check_record_input is_safe_integer includes text_eq get printable_256 has_own currency
    amount
check_record_input-IsOrder_example =
    check_record_input-IsOrder js dates classes (λ v. 0) (obj input) (codes "r") none
      (member (codes "order") (obj order) end) refl

judge_limits-exceeded_example : ((judged purchase).reasons ≡ []) ↔ (
    ((judged purchase).exceeded ≡ [])
    × (any (λ (l : CardLimitRow). l.field_missing) (judged purchase).card_limits ≡ false))
unfolding judge_limits text_eq get has_own
judge_limits-exceeded_example = judge_limits-exceeded purchase kid time 0 (judged purchase) refl

judge_limits-IsWithin_example :
    IsWithin card order max_total_minor
    × (kid_named instruction kid ≡ true)
    × (1 ≤ 1)
    × InWindow instruction time
unfolding judge_limits text_eq get has_own
judge_limits-IsWithin_example =
    judge_limits-IsWithin purchase kid time 0 (judged purchase) max_total_minor refl refl refl
