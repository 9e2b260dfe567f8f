-- ===== src/Names/Method.antt =====
-- Method values and tool names as a reader that trims, drops invisible characters and ignores case
-- could take them: the regular expressions and the method tests of src/member-names.ts.
use mathlib.Core.List.{reverse}
use chirindo.Prelude.{
  ℕ, ◌+◌, Bool, true, false, ◌||◌, leb, if◌then◌else◌, Option, none, some, List, [], ◌∷◌, ◌++◌,
  Text, codes,
}
use chirindo.Json.{Json, str, arr, Items, nil, cons}
use chirindo.Js.{Js}
use chirindo.Names.Fold.{chars, code_point_at_start, same_under_case}

unfoldable pub join : List Text → Text
join [] = []
join (c ∷ cs) = c ++ join cs

module _ (js : Js) where
  open js use {white_space, control_or_format}

  unfoldable pub is_white_space : Text → Bool
  unfolding code_point_at_start
  is_white_space c = elim (code_point_at_start c) [ some cp ↦ white_space cp | none ↦ false ]

  unfoldable pub is_control_or_format : Text → Bool
  unfolding code_point_at_start
  is_control_or_format c = elim (code_point_at_start c) [
    | some cp ↦ control_or_format cp
    | none ↦ false
  ]

  starts_white : List Text → Bool
  unfolding is_white_space
  starts_white [] = false
  starts_white (c ∷ cs) = is_white_space c

  -- EDGE_WHITE_SPACE.test(name)
  unfoldable pub edge_white_space : Text → Bool
  unfolding starts_white
  edge_white_space name = starts_white (chars name) || starts_white (reverse (chars name))

  -- CONTROL_OR_FORMAT.exec(cs): the first such character's code point
  unfoldable pub first_control_or_format : List Text → Option ℕ
  unfolding is_control_or_format code_point_at_start
  first_control_or_format [] = none
  first_control_or_format (c ∷ cs) =
      if is_control_or_format c then code_point_at_start c else first_control_or_format cs

  drop_control_or_format : List Text → List Text
  unfolding is_control_or_format
  drop_control_or_format [] = []
  drop_control_or_format (c ∷ cs) =
      let rest = drop_control_or_format cs in if is_control_or_format c then rest else c ∷ rest

  drop_white_space : List Text → List Text
  unfolding is_white_space
  drop_white_space [] = []
  drop_white_space (c ∷ cs) = if is_white_space c then drop_white_space cs else c ∷ cs

  trim_white_space : List Text → List Text
  unfolding drop_white_space
  trim_white_space cs = reverse (drop_white_space (reverse (drop_white_space cs)))

  unfoldable pub method_names_tools_call : Text → Bool
  unfolding drop_control_or_format trim_white_space join chars same_under_case
  method_names_tools_call value =
      same_under_case js (join (trim_white_space (drop_control_or_format (chars value))))
        (codes "tools/call")

  -- MAX_METHOD_DEPTH is 64.
  unfoldable mutual
    pub method_value_names_tools_call : Json → ℕ → Bool
    method_value_names_tools_call (str value) depth = method_names_tools_call value
    method_value_names_tools_call (arr vs) depth =
        if leb 64 depth then true else some_names_tools_call vs (depth + 1)
    method_value_names_tools_call _ depth = false

    pub some_names_tools_call : Items → ℕ → Bool
    some_names_tools_call nil depth = false
    some_names_tools_call (cons v vs) depth =
        method_value_names_tools_call v depth || some_names_tools_call vs depth
