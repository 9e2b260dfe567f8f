-- ===== src/Strict.antt =====
-- src/vendor/recorder/strict-json.ts: the scan of raw text for repeated member names and integers
-- outside the safe range. A position in the text is the text from there on.
pub mod Ends
use chirindo.Prelude.{
  ℕ, zero, suc, ◌+◌, ◌-◌, ◌*◌, ◌==◌, Bool, true, false, ◌&&◌, ◌||◌, leb, ltb, if◌then◌else◌, Option,
  none, some, List, [], ◌∷◌, Text, includes, length, all, codes,
}
use chirindo.Json.{Json, max_safe_integer}
use chirindo.Js.{Js}

pub data Strict : Type 0 where
  unsafe_number : Text → Strict
  duplicate_member : Text → Strict

pub data Frame : Type 0 where
  object : (keys : List Text) → Frame
  array : Frame

abbrev is_digit : ℕ → Bool
is_digit c = leb b'0' c && leb c b'9'

-- isWs
abbrev is_ws : ℕ → Bool
is_ws c = c == b' ' || c == 9 || c == 10 || c == 13

-- [\d.eE+-]
abbrev in_token : ℕ → Bool
in_token c = is_digit c || c == b'.' || c == b'e' || c == b'E' || c == b'+' || c == b'-'

pub token_rest : Text → Text × Text
token_rest [] = ([], [])
token_rest (c ∷ t) =
    let (token, rest) = token_rest t in if in_token c then (c ∷ token, rest) else ([], c ∷ t)

-- NUMBER_TOKEN at the position of `c`: the token and what is left.
pub number_token : ℕ → Text → Option (Text × Text)
unfolding token_rest
number_token c [] = if is_digit c then some (c ∷ [], []) else none
number_token c (d ∷ t) =
    let (token, rest) = token_rest (d ∷ t) in
    if is_digit c || (c == b'-' && is_digit d) then some (c ∷ token, rest) else none

-- /^-?\d+$/
is_integer_token : Text → Bool
is_integer_token [] = false
is_integer_token (c ∷ []) = is_digit c
is_integer_token (c ∷ t) = (c == b'-' || is_digit c) && all is_digit t

magnitude : ℕ → Text → ℕ
magnitude n [] = n
magnitude n (c ∷ t) = magnitude (if is_digit c then n * 10 + (c - b'0') else n) t

-- Number(token) is not a safe integer exactly when the magnitude written is beyond the range.
unfoldable pub is_unsafe_integer_token : Text → Bool
unfolding is_integer_token magnitude
is_unsafe_integer_token token = is_integer_token token && ltb max_safe_integer (magnitude 0 token)

hex_digit : ℕ → Option ℕ
hex_digit c =
    if is_digit c
    then some (c - b'0')
    else if leb b'a' c && leb c b'f'
    then some (c - b'a' + 10)
    else if leb b'A' c && leb c b'F'
    then some (c - b'A' + 10)
    else none

-- `String.fromCharCode(parseInt(text.slice(i, i + 4), 16))`: the hexadecimal digits up to the first
-- other character, and 0 if there is none. (parseInt's white space, sign and 0x are left out: no
-- text that JSON.parse accepts has them there.)
hex : ℕ → ℕ → Text → ℕ
unfolding hex_digit
hex zero n t = n
hex (suc k) n [] = n
hex (suc k) n (c ∷ t) = elim (hex_digit c) [ some d ↦ hex k (n * 16 + d) t | none ↦ n ]

drop4 : Text → Text
drop4 (a ∷ b ∷ c ∷ d ∷ t) = t
drop4 _ = []

-- The escape `\e`: the decoded character and the text behind it.
unescape : ℕ → Text → ℕ × Text
unfolding hex drop4
unescape e t =
    if e == b'b'
    then (8, t)
    else if e == b'f'
    then (12, t)
    else if e == b'n'
    then (10, t)
    else if e == b'r'
    then (13, t)
    else if e == b't'
    then (9, t)
    else if e == b'u'
    then (hex 4 0 t, drop4 t)
    else (e, t)

-- out += c
abbrev then_read : ℕ → Text × Text → Text × Text
then_read c (value, next) = (c ∷ value, next)

-- readString from behind the opening quote; the fuel is the length of the text. At a backslash that
-- ends the text, `text[i++]` is undefined, which `+=` turns into the word.
pub read_string : ℕ → Text → Text × Text
unfolding unescape
read_string zero t = ([], t)
read_string (suc fuel) [] = ([], [])
read_string (suc fuel) (c ∷ []) =
    if c == b'"' then ([], []) else if c == 0x5c then (codes "undefined", []) else (c ∷ [], [])
read_string (suc fuel) (c ∷ e ∷ t) =
    let plain = then_read c (read_string fuel (e ∷ t)) in
    let escaped = then_read (unescape e t).0 (read_string fuel (unescape e t).1) in
    if c == b'"' then ([], e ∷ t) else if c == 0x5c then escaped else plain

-- Where the scan stands between two tokens: the frames, the innermost first, and whether a string
-- would be a key.
pub record Scan : Type 0 where
  pub stack : List Frame
  pub expect_key : Bool

pub data Round : Type 0 where
  stop : Strict → Round
  go_on : Scan → Text → Round

in_object : List Frame → Bool
in_object (object keys ∷ stack) = true
in_object _ = false

-- stack.pop()
pop : List Frame → List Frame
pop [] = []
pop (frame ∷ stack) = stack

-- `keys.has(value)` and `keys.add(value)` of the innermost object.
at_key : Bool → Text → Text → List Frame → Round
at_key duplicate_members value next (object keys ∷ stack) =
    if duplicate_members && includes keys value
    then stop (duplicate_member value)
    else go_on (record { stack = object (value ∷ keys) ∷ stack; expect_key = true }) next
at_key duplicate_members value next stack = go_on (record { stack = stack; expect_key = true }) next

at_string : Bool → Scan → Text → Round
unfolding read_string at_key
at_string duplicate_members s t =
    let (value, next) = read_string (suc (length t)) t in
    if s.expect_key then at_key duplicate_members value next s.stack else go_on s next

at_number : Bool → Scan → Text → Option (Text × Text) → Round
unfolding is_unsafe_integer_token
at_number unsafe_numbers s t none = go_on s t
at_number unsafe_numbers s t (some (token, rest)) =
    if unsafe_numbers && is_unsafe_integer_token token
    then stop (unsafe_number token)
    else go_on s rest

at_other : Bool → Scan → ℕ → Text → Round
unfolding number_token at_number
at_other unsafe_numbers s c t = at_number unsafe_numbers s t (number_token c t)

-- One round of the loop of validate, at the character `c`.
pub scan_round : Bool → Bool → Scan → ℕ → Text → Round
unfolding at_string at_other in_object pop
scan_round unsafe_numbers duplicate_members s c t =
    if is_ws c
    then go_on s t
    else if c == b'{'
    then go_on (record { stack = object [] ∷ s.stack; expect_key = true }) t
    else if c == b'['
    then go_on (record { stack = array ∷ s.stack; expect_key = false }) t
    else if c == b'}' || c == b']'
    then go_on (record { stack = pop s.stack; expect_key = false }) t
    else if c == b':'
    then go_on (record s { expect_key = false }) t
    else if c == b','
    then go_on (record s { expect_key = in_object s.stack }) t
    else if c == b'"'
    then at_string duplicate_members s t
    else at_other unsafe_numbers s c t

-- The loop of validate: `none` means that the fuel ran out, `some none` that the text is clean.
pub scan_loop : Bool → Bool → ℕ → Scan → Text → Option (Option Strict)
unfolding scan_round
scan_loop u m zero s t = none
scan_loop u m (suc fuel) s [] = some none
scan_loop u m (suc fuel) s (c ∷ t) = elim (scan_round u m s c t) [
  | stop e ↦ some (some e)
  | go_on s' rest ↦ scan_loop u m fuel s' rest
]

abbrev pub start : Scan
start = record { stack = []; expect_key = false }

abbrev answer : Option (Option Strict) → Option Strict
answer (some r) = r
answer none = none

unfoldable pub validate : Text → Bool → Bool → Option Strict
unfolding scan_loop
validate text unsafe_numbers duplicate_members =
    answer (scan_loop unsafe_numbers duplicate_members (suc (length text)) start text)

unfoldable pub find_duplicate_member : Text → Option Strict
unfolding validate
find_duplicate_member text = validate text false true

unfoldable pub find_unsafe_integer : Text → Option Strict
unfolding validate
find_unsafe_integer text = validate text true false

-- A result of strictJsonParse: the value, a strict violation, or JSON.parse's SyntaxError.
pub data StrictResult : Type 0 where
  value : Json → StrictResult
  violation : Strict → StrictResult
  syntax_error : StrictResult

unfoldable pub strict_json_parse : Js → Text → StrictResult
unfolding validate
strict_json_parse js text = elim (validate text true true) [
  | some e ↦ violation e
  | none ↦ elim (js.parse text) [ some v ↦ value v | none ↦ syntax_error ]
]
