-- ===== src/Json.antt =====
-- The values that JSON.parse returns (used all over src/*.ts), and the shape tests of src/rpc.ts.
-- An object's members stand in the order of Object.keys, each name once.
pub mod Measure
use chirindo.Prelude.{
  ℕ, ◌^◌, ◌-◌, ℤ, pos, negsuc, Bool, true, false, Option, none, some, List, [], ◌∷◌, Text, text_eq,
  leb, ltb, if◌then◌else◌,
}

-- A double: an integer, a finite value that is not one (by its bit pattern), or an overflow
-- (true for Infinity, false for -Infinity). JSON.parse returns no NaN.
pub data Number : Type 0 where
  int : ℤ → Number
  frac : ℕ → Number
  infinity : Bool → Number

mutual
  pub data Json : Type 0 where
    null : Json
    bool : Bool → Json
    num : Number → Json
    str : Text → Json
    arr : Items → Json
    obj : Members → Json

  pub data Items : Type 0 where
    nil : Items
    cons : Json → Items → Items

  pub data Members : Type 0 where
    end : Members
    member : Text → Json → Members → Members

abbrev pub elems : Items → List Json
elems nil = []
elems (cons v vs) = v ∷ elems vs

-- Object.keys(o)
abbrev pub keys : Members → List Text
keys end = []
keys (member k v ms) = k ∷ keys ms

-- The own member o[k]; `none` is undefined.
unfoldable pub get : Text → Members → Option Json
get k end = none
get k (member j v ms) = if text_eq j k then some v else get k ms

-- Object.prototype.hasOwnProperty.call(o, k)
unfoldable pub has_own : Text → Members → Bool
unfolding get
has_own k ms = elim (get k ms) [ some v ↦ true | none ↦ false ]

-- Number.MAX_SAFE_INTEGER
abbrev pub max_safe_integer : ℕ
max_safe_integer = 2 ^ 53 - 1

-- Number.isSafeInteger of an integer
unfoldable pub is_safe_integer : ℤ → Bool
is_safe_integer (pos n) = leb n max_safe_integer
is_safe_integer (negsuc n) = ltb n max_safe_integer
