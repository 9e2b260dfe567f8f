-- ===== src/Policy/ToolNames.antt =====
-- toolNameProblem and standardToolNameProblem of src/policy.ts, by the characters of a name.
use chirindo.Prelude.{
  ◌≤◌, ◌<◌, ◌≡◌, refl, ◌↔◌, true, none, some, [], ◌∷◌, Text, inl, inr, Bool-cases, arith, All, all,
  length,
}
use chirindo.Policy.{is_name_char, standard_tool_name_problem, too_long}

-- Every character of a name is one of [A-Za-z0-9_.-].
abbrev pub IsNameText : Text → Type 0
IsNameText name = All (λ c. is_name_char c ≡ true) name

all-IsNameText : (name : Text) → (all is_name_char name ≡ true) ↔ IsNameText name
all-IsNameText [] = (λ _. tt, λ _. refl)
all-IsNameText (c ∷ name) = elim (Bool-cases (is_name_char c)) [
  | inl in_class ↦ rw in_class (ground (arith, all-IsNameText name))
  | inr out ↦ rw out (λ h. cc, λ h. cc)
]

-- The gate's own rule for names: none is wrong exactly with 1 to 128 characters of the class, and
-- a name of the class is called too long exactly beyond 128.
pub standard_tool_name_problem_iff :
    (name : Text)
    → ((standard_tool_name_problem name ≡ none)
        ↔ (IsNameText name × (1 ≤ length name) × (length name ≤ 128)))
      × ((standard_tool_name_problem name ≡ some too_long)
          ↔ (IsNameText name × (128 < length name)))
unfolding standard_tool_name_problem
standard_tool_name_problem_iff name = elim (Bool-cases (all is_name_char name)) [
  | inl in_class ↦
      let h : IsNameText name = (all-IsNameText name).0 in_class in rw in_class (ground arith)
  | inr out ↦ ground (arith, (all-IsNameText name).1)
]
