-- ===== src/Trial/Pointer.antt =====
-- src/trial/rules.ts: the JSON pointers that a refusal names, and the tests of a member.
pub mod Safe
use chirindo.Prelude.{
  ℕ, Bool, false, ◌&&◌, ◌||◌, ◌==◌, leb, if◌then◌else◌, Option, none, some, List, [], ◌∷◌, ◌++◌,
  Text, codes, length, take, all, pos, map, includes,
}
use chirindo.Json.{Json, str, num, int, is_safe_integer}
use chirindo.Js.{Js}
use chirindo.Purchase.Time.{is_digit, digit_run}

-- An element of (string | number)[].
pub data Segment : Type 0 where
  key : Text → Segment
  index : ℕ → Segment

abbrev pub is_upper : ℕ → Bool
is_upper c = leb b'A' c && leb c b'Z'

-- [A-Za-z0-9_-]
unfoldable pub key_char : ℕ → Bool
key_char c = is_upper c || (leb b'a' c && leb c b'z') || is_digit c || c == b'_' || c == b'-'

-- /^[A-Za-z0-9_-]{1,64}$/.test(k)
unfoldable pub safe_key : Text → Bool
unfolding key_char
safe_key k = leb 1 (length k) && leb (length k) 64 && all key_char k

-- parts.join("/")
abbrev pub join : List Text → Text
join [] = []
join (s ∷ []) = s
join (s ∷ t ∷ parts) = s ++ b'/' ∷ join (t ∷ parts)

abbrev pub max_pointer : ℕ
max_pointer = 128

unfoldable pub segment_text : Js → Segment → Text
unfolding safe_key
segment_text js (key k) = if safe_key k then k else codes "~invalid-key"
segment_text js (index n) = js.to_string (num (int (pos n)))

unfoldable pub pointer : Js → List Segment → Text
unfolding segment_text
pointer js segments = take max_pointer (b'/' ∷ join (map (segment_text js) segments))

-- `if (!ok) return p;`, and the same before what follows it, and in a loop.
abbrev pub unless : Bool → Text → Option Text
unless ok p = if ok then none else some p

infixr 20 ◌<|>◌
abbrev pub ◌<|>◌ {ℓ} : {A : Type ℓ} → Option A → Option A → Option A
none <|> next = next
some a <|> next = some a

-- The failures in the order of the checks; the first decides.
abbrev pub first_some {ℓ} : {A : Type ℓ} → List (Option A) → Option A
first_some [] = none
first_some (o ∷ os) = let rest = first_some os in o <|> rest

abbrev pub first_of {ℓ κ} : {A : Type ℓ} {B : Type κ} → (A → Option B) → List A → Option B
first_of f [] = none
first_of f (x ∷ xs) = let rest = first_of f xs in f x <|> rest

-- for (const k of ks) if (!ok(k)) return at(k);
abbrev pub each_key : (Text → Bool) → (Text → Text) → List Text → Option Text
each_key ok at ks = first_of (λ k. unless (ok k) (at k)) ks

-- isStr(v) && ok(v)
abbrev pub is_str : (Text → Bool) → Option Json → Bool
is_str ok (some (str t)) = ok t
is_str ok _ = false

-- strMax of a string
abbrev pub str_max : (max min : ℕ) → Text → Bool
str_max max min t = leb min (length t) && leb (length t) max

abbrev pub printable : ℕ → Bool
printable c = leb 32 c && leb c 126

-- PRINTABLE_256.test(t)
unfoldable pub printable_256 : Text → Bool
printable_256 t = leb 1 (length t) && leb (length t) 256 && all printable t

-- AMOUNT.test(t), which is DECIMAL.test(t) of src/purchase/m6.ts
unfoldable pub amount : Text → Bool
unfolding digit_run
amount [] = false
amount (c ∷ []) = is_digit c
amount (c ∷ d ∷ t) = leb b'1' c && leb c b'9' && all is_digit (d ∷ t)

-- CURRENCY.test(t)
unfoldable pub currency : Text → Bool
currency t = length t == 3 && all is_upper t

-- A safe integer that is at least `least`.
abbrev pub safe_from : ℕ → Option Json → Bool
safe_from least (some (num (int (pos n)))) = is_safe_integer (pos n) && leb least n
safe_from least _ = false

-- The members of an object outside `members`: the first of them, and all, as pointers.
abbrev pub extra_key : Js → List Text → List Segment → Text → Option Text
extra_key js members path k = unless (includes members k) (pointer js (path ++ key k ∷ []))
