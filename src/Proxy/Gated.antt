-- ===== src/Proxy/Gated.antt =====
-- The tests of gateToolsCall and decide of src/proxy.ts on a tools/call that is encoded for the
-- downstream server.
use chirindo.Prelude.{
  any, ◌==◌, ℕ, ◌≤◌, ◌≡◌, ◌≢◌, refl, sym, ◌∙◌, true, false, Option, none, some, List, [], Text,
  arith, Option-cases, inl, inr, All, codes, length, is_some, some_of_is_some,
}
use chirindo.Json.{Json, obj, Members, get}
use chirindo.Json.Measure.{has_non_finite_number, exceeds_depth, max_value_depth}
use chirindo.Json.Measure.Laws.{
  non_finite, height, has_non_finite_number-eq-non_finite, exceeds_depth-eq-height,
}
use chirindo.Policy.{Policy, rule_matches, tool_name_problem, standard_tool_name_problem}
use chirindo.Policy.Matching.{evaluate-allow_iff}
use chirindo.Policy.ToolNames.{IsNameText, standard_tool_name_problem_iff}
use chirindo.Record.Hash.{args_hash}
use chirindo.Rpc.{RequestId, is_tools_call, valid_request_id}
use chirindo.Strict.{find_unsafe_integer}
use chirindo.Proxy.Forwards.{IsPlain, message_problem-IsPlain}
use chirindo.Proxy.State.{Deps, Supply, policy, null_policy, throws, PendingAllow}
use chirindo.Proxy.Refuse.{tool_of}
use chirindo.Proxy.Client.{call_name, call_problem, decide, allow, usable_id, message_problem}

-- A tools/call that the gate lets through: `text` is the line it came in, `load` the number of the
-- policy load that allowed it.
pub record IsGated (deps : Deps) (load : ℕ) (ms : Members) : Type 0 where
  pub text : Text
  pub read : deps.js.parse text ≡ some (obj ms)
  pub one_line : any (λ c. c == 13) text ≡ false
  pub clear : IsPlain deps text ms
  pub safe_integers : find_unsafe_integer text ≡ none
  pub id_value : Json
  pub id : RequestId
  pub named_id : get (codes "id") ms ≡ some id_value
  pub fits : valid_request_id id_value ≡ some id
  pub name : Text
  pub is_call : is_tools_call ms ≡ true
  pub named : (tool_of (get (codes "params") ms)).tool_name ≡ name
  pub not_empty : name ≢ []
  pub plain : tool_name_problem deps.js name ≡ none
  pub standard :
      deps.allow_nonstandard_tool_names ≡ false
      → IsNameText name × (1 ≤ length name) × (length name ≤ 128)
  pub finite : non_finite (obj ms) ≡ false
  pub shallow : height (obj ms) ≤ max_value_depth
  pub hash : Text
  pub recordable : args_hash deps.crypto (tool_of (get (codes "params") ms)).tool_args ≡ some hash
  pub rules : Policy
  pub loaded : deps.load_policy load ≡ policy rules
  pub permitted : All (λ rule. rule_matches deps.js rule deps.server_label name ≡ false) rules.deny

-- The part of `IsGated` that the tests of gateToolsCall give.
record IsChecked (deps : Deps) (text : Text) (ms : Members) (name : Text) : Type 0 where
  safe_integers : find_unsafe_integer text ≡ none
  named : call_name deps (get (codes "params") ms) ≡ some name
  plain : tool_name_problem deps.js name ≡ none
  standard : deps.allow_nonstandard_tool_names ≡ false → standard_tool_name_problem name ≡ none
  finite : has_non_finite_number (obj ms) ≡ false
  shallow : exceeds_depth (obj ms) max_value_depth ≡ false
  recordable : is_some (args_hash deps.crypto (tool_of (get (codes "params") ms)).tool_args) ≡ true

module _ (deps : Deps) where
  open deps use {js}

  call_problem-none :
      (text : Text) (ms : Members) (id : RequestId) (pending : List (RequestId × PendingAllow))
      (name : Text)
      → call_problem deps text ms id pending ≡ none
      → call_name deps (get (codes "params") ms) ≡ some name
      → IsChecked deps text ms name
  unfolding call_problem
  call_problem-none text ms id pending name h n = record {
    safe_integers = ground arith;
    named = n;
    plain = ground arith;
    standard = λ s. ground arith;
    finite = ground arith;
    shallow = ground arith;
    recordable = ground arith;
  }

  call_problem-no_name :
      (text : Text) (ms : Members) (id : RequestId) (pending : List (RequestId × PendingAllow))
      → call_problem deps text ms id pending ≡ none
      → call_name deps (get (codes "params") ms) ≢ none
  unfolding call_problem
  call_problem-no_name text ms id pending h n = ground arith

  call_name-some :
      (params : Option Json) (name : Text)
      → call_name deps params ≡ some name
      → ((tool_of params).tool_name ≡ name) × (name ≢ [])
  unfolding call_name tool_of
  call_name-some none name h = cc
  call_name-some (some (obj ms)) name h = (ground arith, λ e. ground arith)
  call_name-some (some _) name h = cc

  decide-allow :
      (supply : Supply) (name : Text)
      → decide deps supply name ≡ allow
      → (rules : Policy) × (supply ≡ policy rules)
        × All (λ rule. rule_matches deps.js rule deps.server_label name ≡ false) rules.deny
  unfolding decide
  decide-allow (policy rules) name h =
      (rules, refl, (evaluate-allow_iff deps.js rules deps.server_label name).0 (ground arith))
  decide-allow null_policy name h = cc
  decide-allow (throws why) name h = cc

  usable_id-some :
      (v : Option Json) (id : RequestId)
      → usable_id deps v ≡ some id
      → (w : Json) × (v ≡ some w) × (valid_request_id w ≡ some id)
  unfolding usable_id
  usable_id-some none id h = cc
  usable_id-some (some w) id h = (w, refl, h)

  pub IsGated-call :
      (text : Text) (ms : Members) (id : RequestId) (pending : List (RequestId × PendingAllow))
      (load : ℕ)
      → js.parse text ≡ some (obj ms)
      → any (λ c. c == 13) text ≡ false
      → message_problem deps text ms ≡ none
      → is_tools_call ms ≡ true
      → usable_id deps (get (codes "id") ms) ≡ some id
      → call_problem deps text ms id pending ≡ none
      → decide deps (deps.load_policy load) (tool_of (get (codes "params") ms)).tool_name ≡ allow
      → IsGated deps load ms
  IsGated-call text ms id pending load read line clear call usable p d =
      elim (Option-cases (call_name deps (get (codes "params") ms))) [
        | inl unnamed ↦ absurd (call_problem-no_name text ms id pending p unnamed)
        | inr (name, n) ↦
            let c = call_problem-none text ms id pending name p n in
            let (same, filled) = call_name-some (get (codes "params") ms) name n in
            let (rules, loaded, permitted) =
              decide-allow (deps.load_policy load) name (rw same at d) in
            let within : height (obj ms) ≤ max_value_depth =
              ground (arith, (exceeds_depth-eq-height (obj ms) max_value_depth).1, c.shallow) in
            let (hash, recordable) = some_of_is_some c.recordable in
            let (id_value, named_id, fits) = usable_id-some (get (codes "id") ms) id usable in
            record {
              text = text;
              read = read;
              one_line = line;
              clear = message_problem-IsPlain deps text ms clear;
              safe_integers = c.safe_integers;
              id_value = id_value;
              id = id;
              named_id = named_id;
              fits = fits;
              name = name;
              is_call = call;
              named = same;
              not_empty = filled;
              plain = c.plain;
              standard = λ s. (standard_tool_name_problem_iff name).0.0 (c.standard s);
              finite = sym (has_non_finite_number-eq-non_finite (obj ms)).1 ∙ c.finite;
              shallow = within;
              hash = hash;
              recordable = recordable;
              rules = rules;
              loaded = loaded;
              permitted = permitted;
            }
      ]
