-- ===== src/Purchase/Card.antt =====
-- src/purchase/m6.ts: the checks of an object and of its members, and checkCard.
use chirindo.Prelude.{
  ℕ, ◌==◌, Bool, true, false, not, ◌&&◌, ◌||◌, if◌then◌else◌, Option, none, some, List, [], ◌∷◌,
  ◌++◌, Text, codes, text_eq, text_order, not_after, length, all, includes,
}
use chirindo.Json.{Json, bool, str, arr, obj, cons, Members, end, member, elems, keys, get, has_own}
use chirindo.Js.{Js}
use chirindo.Crypto.{Crypto}
use chirindo.Purchase.Time.{Dates, date_ok}
use chirindo.Trial.Pointer.{Segment, key, key_char, pointer, is_str, str_max, amount, currency}

-- What m6Check takes from node:crypto and from Buffer: base64url, decoded and encoded, and whether an
-- Ed25519 key of these bytes loads and verifies a signature of a text's bytes.
pub record Node : Type 0 where
  pub decode : Text → List ℕ
  pub encode : List ℕ → Text
  pub ed25519_verify : (key : List ℕ) → (message : Text) → (signature : List ℕ) → Bool

-- CARD_LIMITS
pub data CardLimit : Type 0 where
  currency_limit max_total_minor max_unit_price_minor merchants items categories refundable_only
        service_window locations :
      CardLimit

abbrev pub card_limits : List CardLimit
card_limits =
    currency_limit ∷ max_total_minor ∷ max_unit_price_minor ∷ merchants ∷ items ∷ categories
    ∷ refundable_only ∷ service_window ∷ locations ∷ []

-- The name of a limit.
abbrev pub limit_name : CardLimit → Text
limit_name currency_limit = codes "currency"
limit_name max_total_minor = codes "max_total_minor"
limit_name max_unit_price_minor = codes "max_unit_price_minor"
limit_name merchants = codes "merchants"
limit_name items = codes "items"
limit_name categories = codes "categories"
limit_name refundable_only = codes "refundable_only"
limit_name service_window = codes "service_window"
limit_name locations = codes "locations"

abbrev pub unsupported_limits : List Text
unsupported_limits =
    codes "chain_id" ∷ codes "asset" ∷ codes "max_amount" ∷ codes "payees" ∷ codes "budget" ∷ []

-- The value of a check, or the code that it throws as Bad or that a JcsError stands for.
pub data Checked {ℓ} (A : Type ℓ) : Type ℓ where
  bad : Text → Checked A
  good : A → Checked A

-- A check that returns nothing.
abbrev pub Done : Type 0
Done = Unit

infixl 10 ◌>>=◌
abbrev ◌>>=◌ {ℓ κ} : {A : Type ℓ} {B : Type κ} → Checked A → (A → Checked B) → Checked B
bad code >>= f = bad code
good a >>= f = f a

infixl 10 ◌>>◌
abbrev ◌>>◌ {ℓ κ} : {A : Type ℓ} {B : Type κ} → Checked A → Checked B → Checked B
bad code >> next = bad code
good a >> next = next

-- if (!ok) bad(code)
abbrev pub demand : Bool → Text → Checked Done
demand ok code = if ok then good tt else bad code

-- The members of UNSUPPORTED_LIMITS that an instruction names.
abbrev pub named : List Text → Members → List Text
named [] c = []
named (k ∷ ks) c = let rest = named ks c in if has_own k c then k ∷ rest else rest

-- withoutMember
abbrev pub without_member : Text → Members → Members
without_member name end = end
without_member name (member k v ms) =
    let rest = without_member name ms in if text_eq k name then rest else member k v rest

abbrev pub str_of : Option Json → Text
str_of (some (str t)) = t
str_of _ = []

-- Array.isArray(v) && v.length > 0 && v.every((x) => isStr(x) && ok(x))
abbrev pub str_list : (Text → Bool) → Option Json → Bool
str_list ok (some (arr (cons v vs))) = all (λ x. is_str ok (some x)) (elems (cons v vs))
str_list ok _ = false

abbrev pub is_boolean : Option Json → Bool
is_boolean (some (bool b)) = true
is_boolean _ = false

-- THUMBPRINT_RE.test(t)
unfoldable pub thumbprint_re : Text → Bool
unfolding key_char
thumbprint_re t = length t == 43 && all key_char t

module _ (js : Js) (quote : Text → Text) (crypto : Crypto) (dates : Dates) (node : Node) where
  abbrev pub at : List Segment → Text
  at [] = []
  at (s ∷ path) = b':' ∷ pointer js (s ∷ path)

  abbrev pub all_there : List Text → List Segment → Members → Checked Done
  all_there [] path o = good tt
  all_there (k ∷ ks) path o = do
    demand (has_own k o) (codes "missing-member" ++ at (path ++ key k ∷ []))
    all_there ks path o

  abbrev pub none_extra : (known : List Text) → List Text → List Segment → Checked Done
  none_extra known [] path = good tt
  none_extra known (k ∷ ks) path = do
    demand (includes known k) (codes "extra-member" ++ at (path ++ key k ∷ []))
    none_extra known ks path

  -- exactly: the object, its members checked
  unfoldable pub exactly :
      Option Json → (required optional : List Text) → List Segment → Checked Members
  exactly (some (obj o)) required optional path = do
    all_there required path o
    none_extra (required ++ optional) (keys o) path
    good o
  exactly _ required optional path = bad (codes "not-an-object" ++ at path)

  abbrev pub card_path : List Segment
  card_path = key (codes "constraints") ∷ key (codes "card") ∷ []

  -- Annex A.3's optional members of a card
  abbrev pub card_optional : List Text
  card_optional =
      codes "max_total_minor"
      ∷ codes "max_unit_price_minor"
      ∷ codes "merchants"
      ∷ codes "items"
      ∷ codes "categories"
      ∷ codes "refundable_only"
      ∷ codes "service_window"
      ∷ codes "locations"
      ∷ []

  abbrev pub amounts_ok : List Text → Members → Checked Done
  amounts_ok [] card = good tt
  amounts_ok (k ∷ ks) card = do
    demand (not (has_own k card) || is_str amount (get k card))
        (codes "bad-value:/constraints/card/" ++ k)
    amounts_ok ks card

  abbrev pub lists_ok : List Text → Members → Checked Done
  lists_ok [] card = good tt
  lists_ok (k ∷ ks) card = do
    demand (not (has_own k card) || str_list (str_max 256 1) (get k card))
        (codes "bad-value:/constraints/card/" ++ k)
    lists_ok ks card

  -- The member service_window, where it is there.
  unfoldable pub check_window : Option Json → Checked Done
  unfolding exactly
  check_window none = good tt
  check_window (some v) = do
    sw ←
        exactly (some v) (codes "from" ∷ codes "until" ∷ []) []
          (card_path ++ key (codes "service_window") ∷ [])
    demand
        (is_str (date_ok dates) (get (codes "from") sw)
          && is_str (date_ok dates) (get (codes "until") sw)
          && not_after
              (text_order (str_of (get (codes "from") sw)) (str_of (get (codes "until") sw))))
        (codes "bad-value:/constraints/card/service_window")

  -- k !== "currency" && !(k === "refundable_only" && card[k] === false)
  abbrev pub limits_something : Text → Json → Bool
  limits_something k (bool false) =
      not (text_eq k (codes "currency")) && not (text_eq k (codes "refundable_only"))
  limits_something k v = not (text_eq k (codes "currency"))

  abbrev pub some_limit : Members → Bool
  some_limit end = false
  some_limit (member k v ms) = limits_something k v || some_limit ms

  -- checkCard
  unfoldable pub check_card : Option Json → Checked Members
  unfolding exactly check_window
  check_card v = do
    card ← exactly v (codes "currency" ∷ []) card_optional card_path
    demand (is_str currency (get (codes "currency") card))
        (codes "bad-value:/constraints/card/currency")
    amounts_ok (codes "max_total_minor" ∷ codes "max_unit_price_minor" ∷ []) card
    lists_ok (codes "merchants" ∷ codes "items" ∷ codes "categories" ∷ codes "locations" ∷ []) card
    demand
        (not (has_own (codes "refundable_only") card)
          || is_boolean (get (codes "refundable_only") card))
        (codes "bad-value:/constraints/card/refundable_only")
    check_window (get (codes "service_window") card)
    demand (some_limit card) (codes "card-limits-empty")
    good card
