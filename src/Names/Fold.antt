-- ===== src/Names/Fold.antt =====
-- The folding of src/member-names.ts, the two tests over member names, and the two keys of a name.
pub mod Laws
use chirindo.Prelude.{
  ℕ, zero, suc, ◌+◌, ◌-◌, ◌*◌, ◌==◌, Bool, true, false, ◌&&◌, ◌||◌, ltb, leb, if◌then◌else◌, Option,
  none, some, List, [], ◌∷◌, ◌++◌, Text, codes, text_eq, includes, length,
}
use chirindo.Js.{Js}

abbrev is_high : ℕ → Bool
is_high c = leb 0xd800 c && leb c 0xdbff

abbrev is_low : ℕ → Bool
is_low c = leb 0xdc00 c && leb c 0xdfff

-- `for (const c of name)`: a surrogate pair is one element.
unfoldable pub chars : Text → List Text
chars [] = []
chars (a ∷ []) = (a ∷ []) ∷ []
chars (a ∷ b ∷ t) = elim (is_high a && is_low b) [
  | true ↦ (a ∷ b ∷ []) ∷ chars t
  | false ↦ (a ∷ []) ∷ chars (b ∷ t)
]

-- s.codePointAt(0)
unfoldable pub code_point_at_start : Text → Option ℕ
code_point_at_start [] = none
code_point_at_start (a ∷ []) = some a
code_point_at_start (a ∷ b ∷ t) =
    some (if is_high a && is_low b then 0x10000 + (a - 0xd800) * 0x400 + (b - 0xdc00) else a)

is_one_code_point : Text → Bool
unfolding code_point_at_start
is_one_code_point s = elim (code_point_at_start s) [
  | none ↦ false
  | some cp ↦ length s == (if ltb 0xffff cp then 2 else 1)
]

module _ (js : Js) where
  open js use {to_upper, to_lower}

  -- EXTRA_FOLDS holds U+0130 alone, with "i".
  fold_code_point : Text → Text
  unfolding is_one_code_point
  fold_code_point c =
      let upper = to_upper c in
      let base = if is_one_code_point upper then upper else c in
      let lower = to_lower base in
      let folded = if is_one_code_point lower then lower else base in
      elim (code_point_at_start c) [
        | some cp ↦ if cp == 0x130 then codes "i" else folded
        | none ↦ folded
      ]

  -- The loop body of foldName.
  fold_char : Text → Text
  unfolding fold_code_point
  fold_char [] = []
  fold_char (code ∷ rest) =
      if ltb code 0x80
      then (if leb 0x41 code && leb code 0x5a then (code + 0x20) ∷ [] else code ∷ rest)
      else fold_code_point (code ∷ rest)

  fold_chars : List Text → Text
  unfolding fold_char
  fold_chars [] = []
  fold_chars (c ∷ cs) = fold_char c ++ fold_chars cs

  unfoldable pub fold_name : Text → Text
  unfolding chars fold_chars
  fold_name name = fold_chars (chars name)

  -- `folded.get(f)` for the map from the folded names to the names: the last entry of a key stays.
  pub name_of_fold : Text → List Text → Option Text
  name_of_fold f [] = none
  name_of_fold f (name ∷ names) = elim (name_of_fold f names) [
    | some later ↦ some later
    | none ↦ if text_eq (fold_name name) f then some name else none
  ]

  unfoldable pub case_variant : List Text → List Text → Option (Text × Text)
  unfolding name_of_fold
  case_variant [] names = none
  case_variant (key ∷ ks) names =
      if includes names key
      then case_variant ks names
      else elim (name_of_fold (fold_name key) names) [
        | some of_name ↦ some (key, of_name)
        | none ↦ case_variant ks names
      ]

  -- seen.get(f)
  pub seen_with : Text → List (Text × Text) → Option Text
  seen_with f [] = none
  seen_with f ((g, key) ∷ seen) = if text_eq g f then some key else seen_with f seen

  pub collision_loop : List (Text × Text) → List Text → Option (Text × Text)
  unfolding seen_with
  collision_loop seen [] = none
  collision_loop seen (key ∷ ks) =
      let f = fold_name key in
      elim (seen_with f seen) [
        | some earlier ↦ some (earlier, key)
        | none ↦ collision_loop ((f, key) ∷ seen) ks
      ]

  unfoldable pub fold_collision : List Text → Option (Text × Text)
  unfolding collision_loop
  fold_collision = collision_loop []

  -- The loop of caseKeys; the number is the rounds left.
  full_case_loop : ℕ → Text → Text
  full_case_loop zero full = full
  full_case_loop (suc rounds) full =
      let next = to_lower (to_upper full) in
      let rest = full_case_loop rounds next in if text_eq next full then full else rest

  unfoldable pub case_keys : Text → Text × Text
  unfolding full_case_loop
  case_keys name = (fold_name name, full_case_loop 8 name)

  unfoldable pub same_under_case : Text → Text → Bool
  same_under_case a b =
      let (fold_a, full_a) = case_keys a in
      let (fold_b, full_b) = case_keys b in text_eq fold_a fold_b || text_eq full_a full_b

abbrev pub envelope_members : List Text
envelope_members = codes "jsonrpc" ∷ codes "id" ∷ codes "method" ∷ codes "params" ∷ []

abbrev pub tools_call_params_members : List Text
tools_call_params_members = codes "name" ∷ codes "arguments" ∷ codes "_meta" ∷ []
