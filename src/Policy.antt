-- ===== src/Policy.antt =====
-- src/policy.ts: the deny rules, and what is wrong with a tool's name. The policy file's reading is
-- `load_policy`, over the value of its JSON text.
pub mod Matching
pub mod ToolNames
use chirindo.Prelude.{
  ℕ, suc, ◌==◌, Bool, true, false, ◌&&◌, ◌||◌, leb, if◌then◌else◌, Option, none, some, List, [],
  ◌∷◌, Text, codes, text_eq, length, all,
}
use chirindo.Json.{Json, null, str, arr, obj, Items, nil, cons, get}
use chirindo.Js.{Js}
use chirindo.Names.Fold.{case_keys, chars}
use chirindo.Names.Method.{edge_white_space, first_control_or_format}

-- Only `tool` is checked to be a string when the file is loaded: `server` and `reason` are whatever
-- the rule holds, `none` for undefined.
pub record DenyRule : Type 0 where
  pub tool : Text
  pub server : Option Json
  pub reason : Option Json

pub record Policy : Type 0 where
  pub deny : List DenyRule

-- The reason of a rule, or the text that names the call's tool.
pub data DenyReason : Type 0 where
  ruled : Json → DenyReason
  denied_tool : Text → DenyReason

pub data PolicyDecision : Type 0 where
  allow : PolicyDecision
  deny : DenyReason → PolicyDecision

pub data PolicyLoad : Type 0 where
  loaded : Policy → PolicyLoad
  -- the index of the rule with no string member "tool"
  missing_tool : ℕ → PolicyLoad
  -- unreadable, not JSON, or not {deny: DenyRule[]}
  not_a_policy : PolicyLoad

load_rule : Json → Option DenyRule
unfolding get
load_rule (obj ms) = elim (get (codes "tool") ms) [
  | some (str tool) ↦
      some
        (record { tool = tool; server = get (codes "server") ms; reason = get (codes "reason") ms })
  | _ ↦ none
]
load_rule _ = none

load_rules : ℕ → Items → PolicyLoad
unfolding load_rule
load_rules i nil = loaded (record { deny = [] })
load_rules i (cons r rs) = elim (load_rule r) [
  | none ↦ missing_tool i
  | some rule ↦ elim (load_rules (suc i) rs) [
    | loaded p ↦ loaded (record { deny = rule ∷ p.deny })
    | missing_tool j ↦ missing_tool j
    | not_a_policy ↦ not_a_policy
  ]
]

unfoldable pub load_policy : Option Json → PolicyLoad
unfolding load_rules
load_policy (some (obj ms)) = elim (get (codes "deny") ms) [
  | some (arr rules) ↦ load_rules 0 rules
  | _ ↦ not_a_policy
]
load_policy _ = not_a_policy

-- ruleTool[0] === tool[0] || ruleTool[1] === tool[1]
abbrev same_keys : Text × Text → Text × Text → Bool
same_keys (fold_a, full_a) (fold_b, full_b) = text_eq fold_a fold_b || text_eq full_a full_b

-- rule.server === undefined || rule.server === call.server
abbrev server_matches : Option Json → Text → Bool
server_matches none server = true
server_matches (some (str s)) server = text_eq s server
server_matches (some _) server = false

-- rule.reason ?? `tool '${call.tool}' denied by policy`
abbrev pub reason_of : Option Json → Text → DenyReason
reason_of none tool = denied_tool tool
reason_of (some null) tool = denied_tool tool
reason_of (some reason) tool = ruled reason

module _ (js : Js) where
  unfoldable pub rule_matches : DenyRule → Text → Text → Bool
  rule_matches rule server tool =
      same_keys (case_keys js rule.tool) (case_keys js tool) && server_matches rule.server server

  -- The loop of evaluate.
  evaluate_rules : List DenyRule → Text → Text → PolicyDecision
  unfolding rule_matches
  evaluate_rules [] server tool = allow
  evaluate_rules (rule ∷ rules) server tool =
      if rule_matches rule server tool
      then deny (reason_of rule.reason tool)
      else evaluate_rules rules server tool

  unfoldable pub evaluate : Policy → Text → Text → PolicyDecision
  unfolding evaluate_rules
  evaluate policy server tool = evaluate_rules policy.deny server tool

  pub data NameProblem : Type 0 where
    edge_space : NameProblem
    holds_control_or_format : ℕ → NameProblem

  unfoldable pub tool_name_problem : Text → Option NameProblem
  unfolding edge_white_space first_control_or_format chars
  tool_name_problem name =
      if edge_white_space js name
      then some edge_space
      else elim (first_control_or_format js (chars name)) [
        | none ↦ none
        | some code ↦ some (holds_control_or_format code)
      ]

-- [A-Za-z0-9_.-]
abbrev pub is_name_char : ℕ → Bool
is_name_char c =
    (leb b'A' c && leb c b'Z')
    || (leb b'a' c && leb c b'z')
    || (leb b'0' c && leb c b'9')
    || c == b'_'
    || c == b'.'
    || c == b'-'

pub data StandardProblem : Type 0 where
  too_long : StandardProblem
  other_character : StandardProblem

unfoldable pub standard_tool_name_problem : Text → Option StandardProblem
standard_tool_name_problem name =
    if all is_name_char name && leb 1 (length name) && leb (length name) 128
    then none
    else if all is_name_char name && leb 1 (length name)
    then some too_long
    else some other_character
