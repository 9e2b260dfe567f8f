-- ===== src/Names/Scan.antt =====
-- The readers of src/member-names.ts that take member names from a line's text. A position in the
-- text is the text from there on. A reader answers with what it passed over and what is left;
-- `none` is a throw.
use chirindo.Prelude.{
  ℕ, zero, suc, ◌+◌, ◌-◌, ◌==◌, Bool, true, false, ◌||◌, if◌then◌else◌, Option, none, some, List,
  [], ◌∷◌, Text, codes, text_eq, any, length,
}
use chirindo.Json.{str}
use chirindo.Js.{Js}
use chirindo.Names.Fold.{fold_name}
use chirindo.Names.Method.{method_value_names_tools_call}

abbrev pub Step : Type 0
Step = Option (Text × Text)

infixl 10 ◌>>=◌
abbrev ◌>>=◌ {ℓ κ} : {A : Type ℓ} {B : Type κ} → Option A → (A → Option B) → Option B
none >>= f = none
some a >>= f = f a

abbrev pub pass : ℕ → Step → Step
pass c none = none
pass c (some (passed, rest)) = some (c ∷ passed, rest)

abbrev pub is_space : ℕ → Bool
is_space c = c == b' ' || c == 9 || c == 10 || c == 13

unfoldable pub skip_ws : Text → Text
skip_ws [] = []
skip_ws (c ∷ t) = if is_space c then skip_ws t else c ∷ t

-- `skipWs(text, i + 1)` from a position `i`
unfoldable pub after_one : Text → Text
unfolding skip_ws
after_one [] = []
after_one (c ∷ t) = skip_ws t

-- The loop of stringEnd, from behind the opening quote.
unfoldable pub string_body : Text → Step
string_body [] = none
string_body (c ∷ []) = if c == b'"' then some (c ∷ [], []) else none
string_body (c ∷ d ∷ t) = elim (c == 0x5c) [
  | true ↦ pass c (pass d (string_body t))
  | false ↦ elim (c == b'"') [ true ↦ some (c ∷ [], d ∷ t) | false ↦ pass c (string_body (d ∷ t)) ]
]

unfoldable pub string_end : Text → Step
unfolding string_body
string_end [] = none
string_end (c ∷ t) = pass c (string_body t)

abbrev is_open : ℕ → Bool
is_open c = c == b'{' || c == b'['

abbrev is_close : ℕ → Bool
is_close c = c == b'}' || c == b']'

-- The loop of valueEnd over an object or an array, with stringEnd's loop as a mode of it: `inside`
-- says that the position is inside a string.
unfoldable pub nest : (inside : Bool) → ℕ → Text → Step
nest inside depth [] = none
nest true depth (c ∷ []) = none
nest true depth (c ∷ d ∷ t) = elim (c == 0x5c) [
  | true ↦ pass c (pass d (nest true depth t))
  | false ↦ pass c (nest (if c == b'"' then false else true) depth (d ∷ t))
]
nest false depth (c ∷ t) =
    let deeper = pass c (nest false (depth + 1) t) in
    let string = pass c (nest true depth t) in
    let up = pass c (nest false (depth - 1) t) in
    let same = pass c (nest false depth t) in
    if c == b'"'
    then string
    else if is_open c
    then deeper
    else if is_close c
    then (if depth == 1 then some (c ∷ [], t) else up)
    else same

-- The loop of valueEnd over a number or a name.
unfoldable pub scalar : Text → Text × Text
scalar [] = ([], [])
scalar (c ∷ t) =
    let (passed, rest) = scalar t in
    if c == b',' || is_close c || is_space c then ([], c ∷ t) else (c ∷ passed, rest)

unfoldable pub value_end : Text → Step
unfolding string_end nest scalar
value_end [] = some ([], [])
value_end (c ∷ t) =
    if c == b'"'
    then string_end (c ∷ t)
    else if is_open c
    then nest false 0 (c ∷ t)
    else some (scalar (c ∷ t))

module _ (js : Js) where
  open js use {parse}

  -- `JSON.parse(literal) as string`
  decode : Text → Option Text
  decode literal = elim (parse literal) [ some (str s) ↦ some s | _ ↦ none ]

  -- A member: its name, the text of its value, and the text behind it and its white space.
  record Read : Type 0 where
    pub name : Text
    pub value : Text
    pub rest : Text

  -- One round of the loops of topLevelMemberNames and claimsToolsCall.
  read_member : Text → Option Read
  unfolding string_end value_end skip_ws after_one decode
  read_member t = do
    (literal, behind) ← string_end t
    name ← decode literal
    (value, rest) ← value_end (after_one (skip_ws behind))
    some (record { name = name; value = value; rest = skip_ws rest })

  pub names_loop : ℕ → Text → Option (List Text)
  unfolding read_member
  names_loop zero t = none
  names_loop (suc fuel) t = do
    m ← read_member t
    elim m.rest [
      | c ∷ behind ↦ elim (c == b',') [
        | true ↦ do names ← names_loop fuel (skip_ws behind); some (m.name ∷ names)
        | false ↦ some (m.name ∷ [])
      ]
      | [] ↦ some (m.name ∷ [])
    ]

  -- What both loops do at the head of an object: `none` if it has no member.
  pub first_member : Text → Option Text
  unfolding skip_ws
  first_member inside = elim (skip_ws inside) [
    | [] ↦ some []
    | c ∷ t ↦ if c == b'}' then none else some (c ∷ t)
  ]

  unfoldable pub top_level_member_names : Text → Option (List Text)
  unfolding names_loop first_member skip_ws
  top_level_member_names text = elim (skip_ws text) [
    | [] ↦ some []
    | c ∷ t ↦
        if c == b'{'
        then elim (first_member t) [ none ↦ some [] | some i ↦ names_loop (suc (length text)) i ]
        else some []
  ]

  unfoldable pub names_method : List Text → Bool
  names_method = any (λ n. text_eq (fold_name js n) (fold_name js (codes "method")))

  -- `methodValueNamesToolsCall(JSON.parse(value))`
  value_claims : Text → Option Bool
  value_claims value = elim (parse value) [
    | none ↦ none
    | some v ↦ some (method_value_names_tools_call js v 0)
  ]

  member_claims : Text → Text → Option Bool
  unfolding value_claims
  member_claims name value =
      if text_eq (fold_name js name) (fold_name js (codes "method"))
      then value_claims value
      else some false

  -- The loop of claimsToolsCall.
  pub claims_loop : ℕ → Bool → Text → Option Bool
  unfolding read_member member_claims
  claims_loop zero claims t = none
  claims_loop (suc fuel) claims t = do
    m ← read_member t
    here ← member_claims m.name m.value
    elim m.rest [
      | c ∷ behind ↦ elim (c == b',') [
        | true ↦ claims_loop fuel (claims || here) (skip_ws behind)
        | false ↦ some (claims || here)
      ]
      | [] ↦ some (claims || here)
    ]

  -- claimsToolsCall, from behind the opening brace
  pub claims_tools_call : ℕ → Text → Option Bool
  unfolding claims_loop first_member
  claims_tools_call fuel t = elim (first_member t) [
    | none ↦ some false
    | some i ↦ claims_loop fuel false i
  ]

  element_claims : ℕ → Text → Option Bool
  unfolding claims_tools_call
  element_claims fuel [] = some false
  element_claims fuel (c ∷ t) = if c == b'{' then claims_tools_call fuel t else some false

  -- The loop of toolsCallClaims over the elements of an array.
  pub elements_loop : ℕ → Text → Option (List Bool)
  unfolding element_claims value_end skip_ws
  elements_loop zero t = none
  elements_loop (suc fuel) t = do
    here ← element_claims (suc fuel) t
    (_, rest) ← value_end t
    elim (skip_ws rest) [
      | c ∷ behind ↦ elim (c == b',') [
        | true ↦ do later ← elements_loop fuel (skip_ws behind); some (here ∷ later)
        | false ↦ some (here ∷ [])
      ]
      | [] ↦ some (here ∷ [])
    ]

  first_element : Text → Option Text
  first_element t = elim (skip_ws t) [
    | [] ↦ some []
    | c ∷ r ↦ if c == b']' then none else some (c ∷ r)
  ]

  unfoldable pub tools_call_claims : Text → Option (List Bool)
  unfolding claims_tools_call elements_loop first_element skip_ws
  tools_call_claims text = elim (skip_ws text) [
    | [] ↦ some []
    | c ∷ t ↦
        if c == b'{'
        then (do claims ← claims_tools_call (suc (length text)) t; some (claims ∷ []))
        else if c == b'['
        then elim (first_element t) [
          | none ↦ some []
          | some i ↦ elements_loop (suc (length text)) i
        ]
        else some []
  ]
