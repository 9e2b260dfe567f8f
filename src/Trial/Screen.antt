-- ===== src/Trial/Screen.antt =====
-- src/trial/rules.ts: the screen for card numbers and e-mail addresses in free text.
pub mod Luhn
use chirindo.Prelude.{
  ℕ, suc, ◌+◌, ◌-◌, ◌*◌, ◌%◌, Bool, true, false, not, ◌&&◌, ◌||◌, ◌==◌, leb, ltb, if◌then◌else◌,
  Option, none, some, List, [], ◌∷◌, ◌++◌, Text, codes, length, any,
}
use chirindo.Json.{Json, str, obj, Items, nil, cons, get}
use chirindo.Js.{Js}
use chirindo.Purchase.Time.{is_digit}
use chirindo.Trial.Pointer.{key, index, pointer}

-- What the screen takes from the runtime: [\p{L}\p{N}] of a code unit, and the test of a text by the
-- regular expression EMAIL.
pub record Classes : Type 0 where
  pub letter_or_number : ℕ → Bool
  pub email : Text → Bool

-- What the loop of luhn adds for the digit `d`.
unfoldable pub luhn_digit : (double : Bool) → ℕ → ℕ
luhn_digit false d = d
luhn_digit true d = if ltb 9 (d * 2) then d * 2 - 9 else d * 2

-- The loop of luhn over the digits, the last one first.
unfoldable pub luhn_sum : (double : Bool) → Text → ℕ
unfolding luhn_digit
luhn_sum double [] = 0
luhn_sum double (c ∷ t) = luhn_digit double (c - b'0') + luhn_sum (not double) t

unfoldable pub reverse_onto : Text → Text → Text
reverse_onto [] acc = acc
reverse_onto (c ∷ t) acc = reverse_onto t (c ∷ acc)

unfoldable pub luhn : Text → Bool
unfolding luhn_sum reverse_onto
luhn digits = luhn_sum false (reverse_onto digits []) % 10 == 0

-- A match of [0-9]+(?:[ -][0-9]+)*: its first group, its other groups, each after its separator, and
-- the code units before and after it.
pub record Run : Type 0 where
  pub preceded : Option ℕ
  pub group : Text
  pub groups : List (ℕ × Text)
  pub followed : Option ℕ

abbrev pub separator : ℕ → Bool
separator c = c == b' ' || c == b'-'

abbrev pub not_empty : Text → Bool
not_empty [] = false
not_empty (c ∷ t) = true

-- The match from the first code unit of a text on; its first group is empty where that is no digit.
unfoldable pub run_from : Text → Run
run_from [] = record { preceded = none; group = []; groups = []; followed = none }
run_from (c ∷ t) =
    let next = run_from t in
    if is_digit c
    then record next { group = c ∷ next.group }
    else (if separator c && not_empty next.group
        then record next { group = []; groups = (c, next.group) ∷ next.groups }
        else record { preceded = none; group = []; groups = []; followed = some c })

-- s.matchAll: `inside` tells that the code unit before belongs to a match.
unfoldable pub runs : (inside : Bool) → (preceded : Option ℕ) → Text → List Run
unfolding run_from
runs inside preceded [] = []
runs inside preceded (c ∷ t) =
    let joins = separator c && not_empty (run_from t).group in
    let rest_in = runs true (some c) t in
    let rest_out = runs false (some c) t in
    if is_digit c
    then (if inside then rest_in else record (run_from (c ∷ t)) { preceded = preceded } ∷ rest_in)
    else (if inside && joins then rest_in else rest_out)

-- x.length >= 3 && x.length <= 6
abbrev pub group_size : Text → Bool
group_size g = leb 3 (length g) && leb (length g) 6

-- /^[2-6]/.test(digits)
abbrev pub card_start : Text → Bool
card_start [] = false
card_start (c ∷ t) = leb b'2' c && leb c b'6'

module _ (classes : Classes) where
  open classes use {letter_or_number, email}

  -- isAlnum
  abbrev pub is_alnum : Option ℕ → Bool
  is_alnum none = false
  is_alnum (some c) = letter_or_number c

  abbrev pub standalone_right : List (ℕ × Text) → Option ℕ → Bool
  standalone_right [] followed = not (is_alnum followed)
  standalone_right (g ∷ gs) followed = true

  abbrev pub accepted : Text → List (ℕ × Text) → Option ℕ → Bool
  unfolding luhn
  accepted digits rest followed =
      leb 13 (length digits) && standalone_right rest followed && card_start digits && luhn digits

  -- The inner loop from its second turn on: `digits` of the groups so far, joined by `sep`.
  unfoldable pub grow : (sep : ℕ) → (digits : Text) → List (ℕ × Text) → Option ℕ → Bool
  unfolding luhn
  grow sep digits [] followed = false
  grow sep digits ((s, g) ∷ rest) followed =
      let more = grow sep (digits ++ g) rest followed in
      s == sep
      && group_size g
      && leb (length (digits ++ g)) 19
      && (accepted (digits ++ g) rest followed || more)

  -- The inner loop from the group `g` on.
  unfoldable pub card_from : Text → List (ℕ × Text) → Option ℕ → Bool
  unfolding luhn grow
  card_from g [] followed = leb (length g) 19 && accepted g [] followed
  card_from g ((s, h) ∷ rest) followed =
      leb (length g) 19
      && (accepted g ((s, h) ∷ rest) followed
          || (group_size g && grow s g ((s, h) ∷ rest) followed))

  -- The outer loop, after its first turn.
  unfoldable pub cards_after : List (ℕ × Text) → Option ℕ → Bool
  unfolding card_from
  cards_after [] followed = false
  cards_after ((s, g) ∷ rest) followed =
      let more = cards_after rest followed in card_from g rest followed || more

  unfoldable pub card_in_run : Run → Bool
  unfolding card_from cards_after
  card_in_run run =
      (not (is_alnum run.preceded) && card_from run.group run.groups run.followed)
      || cards_after run.groups run.followed

  -- hasCardToken
  unfoldable pub has_card_token : Text → Bool
  unfolding runs card_in_run
  has_card_token s = any card_in_run (runs false none s)

  -- hasCardToken(v) || hasEmailToken(v), of a string
  unfoldable pub screened : Option Json → Bool
  unfolding has_card_token
  screened (some (str t)) = has_card_token t || email t
  screened _ = false

  -- The screened members of an item, as pointers.
  unfoldable pub item_values : Js → ℕ → Json → List Text
  unfolding screened
  item_values js i (obj it) =
      let at = λ (k : Text).
        (pointer js (key (codes "order") ∷ key (codes "items") ∷ index i ∷ key k ∷ [])) in
      let found =
        λ (k : Text) (rest : List Text). (if screened (get k it) then at k ∷ rest else rest) in
      found (codes "name") (found (codes "location") (found (codes "category") []))
  item_values js i _ = []

  unfoldable pub items_values : Js → ℕ → Items → List Text
  unfolding item_values
  items_values js i nil = []
  items_values js i (cons v vs) = item_values js i v ++ items_values js (suc i) vs
