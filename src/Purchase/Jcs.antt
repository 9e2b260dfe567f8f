-- ===== src/Purchase/Jcs.antt =====
-- src/purchase/m6.ts: isWellFormed, jcs and its digest. A BigInt of the source is an integer outside
-- the safe range here.
pub mod Order
use chirindo.Prelude.{
  ℕ, Bool, true, false, ◌&&◌, leb, if◌then◌else◌, Option, none, some, List, [], ◌∷◌, ◌++◌, Text,
  codes, text_order, not_after, map,
}
use chirindo.Json.{
  Json, null, bool, num, str, arr, obj, Number, int, Items, nil, cons, Members, end, member,
  is_safe_integer,
}
use chirindo.Js.{Js}
use chirindo.Crypto.{Crypto}

abbrev pub high_surrogate : ℕ → Bool
high_surrogate c = leb 55296 c && leb c 56319

abbrev pub low_surrogate : ℕ → Bool
low_surrogate c = leb 56320 c && leb c 57343

-- isWellFormed
unfoldable pub is_well_formed : Text → Bool
is_well_formed [] = true
is_well_formed (c ∷ []) =
    if high_surrogate c then false else if low_surrogate c then false else true
is_well_formed (c ∷ d ∷ t) =
    let past = is_well_formed t in
    let next = is_well_formed (d ∷ t) in
    if high_surrogate c then low_surrogate d && past else if low_surrogate c then false else next

infixl 10 ◌>>=◌
abbrev ◌>>=◌ {ℓ κ} : {A : Type ℓ} {B : Type κ} → Option A → (A → Option B) → Option B
none >>= f = none
some a >>= f = f a

-- A member of an object after its value is written.
abbrev pub Written : Type 0
Written = Text × Text

-- Object.keys(o).sort(), the values carried along.
unfoldable pub insert : Written → List Written → List Written
insert m [] = m ∷ []
insert m (n ∷ ns) =
    let rest = insert m ns in if not_after (text_order m.0 n.0) then m ∷ n ∷ ns else n ∷ rest

unfoldable pub sort : List Written → List Written
unfolding insert
sort [] = []
sort (m ∷ ms) = insert m (sort ms)

abbrev pub comma : List Text → Text
comma [] = []
comma (s ∷ []) = s
comma (s ∷ t ∷ parts) = s ++ b',' ∷ comma (t ∷ parts)

-- jcs; `none` is a JcsError. `quote` is JSON.stringify of a string.
module _ (js : Js) (quote : Text → Text) where
  abbrev pub member_text : Written → Text
  member_text (k, v) = quote k ++ b':' ∷ v

  abbrev pub members_text : List Written → Text
  members_text ms = b'{' ∷ comma (map member_text ms) ++ b'}' ∷ []

  abbrev pub number_text : Number → Option Text
  number_text (int n) = if is_safe_integer n then some (js.to_string (num (int n))) else none
  number_text _ = none

  unfoldable mutual
    unfolding is_well_formed sort

    pub jcs : Json → Option Text
    jcs null = some (codes "null")
    jcs (bool b) = some (if b then codes "true" else codes "false")
    jcs (str t) = if is_well_formed t then some (quote t) else none
    jcs (num n) = number_text n
    jcs (arr vs) = do parts ← jcs_items vs; some (b'[' ∷ comma parts ++ b']' ∷ [])
    jcs (obj ms) = do written ← jcs_members ms; some (members_text (sort written))

    pub jcs_items : Items → Option (List Text)
    jcs_items nil = some []
    jcs_items (cons v vs) = do s ← jcs v; parts ← jcs_items vs; some (s ∷ parts)

    pub jcs_members : Members → Option (List Written)
    jcs_members end = some []
    jcs_members (member k v ms) = do s ← jcs v; written ← jcs_members ms; some ((k, s) ∷ written)

  -- jcsSha256
  unfoldable pub jcs_sha256 : Crypto → Json → Option Text
  unfolding jcs
  jcs_sha256 crypto v = do bytes ← jcs v; some (codes "sha256:" ++ crypto.sha256_hex bytes)
