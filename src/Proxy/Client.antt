-- ===== src/Proxy/Client.antt =====
-- The client's side of src/proxy.ts: what is wrong with a message, the gate of a tools/call, and the
-- chunks of stdin.
use chirindo.Prelude.{
  is_some, suc, ◌==◌, Bool, false, not, ◌&&◌, ◌||◌, all, any, if◌then◌else◌, Option, none, some,
  List, [], ◌∷◌, ◌++◌, Text, codes, text_eq,
}
use chirindo.Json.{Json, str, arr, obj, Members, get, has_own, keys}
use chirindo.Json.Measure.{has_non_finite_number, exceeds_depth, max_value_depth}
use chirindo.Names.Fold.{
  chars, case_variant, fold_collision, envelope_members, tools_call_params_members,
}
use chirindo.Names.Method.{first_control_or_format, method_names_tools_call}
use chirindo.Strict.{find_duplicate_member, find_unsafe_integer}
use chirindo.Policy.{
  PolicyDecision, DenyReason, ruled, denied_tool, evaluate, tool_name_problem,
  standard_tool_name_problem,
}
use chirindo.Policy
use chirindo.Record.Hash.{args_hash}
use chirindo.Receipt
use chirindo.Rpc.{RequestId, valid_request_id, is_tools_call, deny_tool_result}
use chirindo.Rpc.Lines.{split_lines}
use chirindo.Proxy.State.{
  refused_call, Supply, policy, null_policy, throws, Deps, PendingAllow, line, message, Log,
  client_line_dropped, denied, allowed, to_client, to_downstream, log, State, Gate, ◌>>=◌, ◌>>◌,
  pure, lift, emit, pending_has, pending_set, write_receipt_safely,
}
use chirindo.Proxy.Refuse.{
  Tool, tool_of, Refusal, not_json, carriage_return, duplicate_name, case_clash, proto_clash,
  method_not_string, method_invisible, method_disguised, bad_id, unsafe_integer, non_finite,
  in_flight, no_name, bad_name, nonstandard_name, too_deep, not_canonical, refusal_frame,
  write_refusal_receipt, reply_id_of, refuse_unrecordable, refuse_tools_call, refuse_message,
  refuse_batch, refuse_line,
}

-- Why a call is denied.
pub data Denial : Type 0 where
  by_rule : DenyReason → Denial
  not_loaded : Denial
  load_threw : (message : Text) → Denial

pub data Verdict : Type 0 where
  allow : Verdict
  deny : Denial → Verdict

of_decision : PolicyDecision → Verdict
of_decision Policy.allow = allow
of_decision (Policy.deny reason) = deny (by_rule reason)

module _ (deps : Deps) where
  open deps use {js, server_label}

  -- caseProblem: whether it is not null.
  unfoldable pub params_case_problem : Bool → Option Json → Bool
  params_case_problem call (some (obj params)) =
      (call && is_some (case_variant js (keys params) tools_call_params_members))
      || is_some (fold_collision js (keys params))
  params_case_problem call _ = false

  unfoldable pub case_problem : Members → Bool
  unfolding params_case_problem
  case_problem ms =
      is_some (case_variant js (keys ms) envelope_members)
      || is_some (fold_collision js (keys ms))
      || params_case_problem (is_tools_call ms) (get (codes "params") ms)

  unfoldable pub method_value_problem : Json → Option Refusal
  method_value_problem (str method) =
      if is_some (first_control_or_format js (chars method))
      then some method_invisible
      else if not (text_eq method (codes "tools/call")) && method_names_tools_call js method
      then some method_disguised
      else none
  method_value_problem _ = some method_not_string

  unfoldable pub method_problem : Members → Option Refusal
  unfolding method_value_problem
  method_problem ms = elim (get (codes "method") ms) [
    | none ↦ none
    | some method ↦ method_value_problem method
  ]

  unfoldable pub params_proto_problem : Option Json → Bool
  params_proto_problem (some (obj params)) = has_own (codes "__proto__") params
  params_proto_problem _ = false

  unfoldable pub proto_problem : Members → Bool
  unfolding params_proto_problem
  proto_problem ms =
      has_own (codes "__proto__") ms || params_proto_problem (get (codes "params") ms)

  -- The reason as the template strings write it; `none` is a TypeError, as the reason of a rule is not
  -- validated.
  unfoldable pub denial_text : Denial → Option Text
  denial_text (by_rule (ruled reason)) = js.template reason
  denial_text (by_rule (denied_tool tool)) =
      some (codes "tool '" ++ tool ++ codes "' denied by policy")
  denial_text not_loaded = some (codes "policy could not be loaded — fail-closed")
  denial_text (load_threw why) =
      some (codes "policy evaluation threw — fail-closed (" ++ why ++ codes ")")

  -- decide, given what the policy load came to
  unfoldable pub decide : Supply → Text → Verdict
  unfolding of_decision
  decide (policy p) tool_name = of_decision (evaluate js p server_label tool_name)
  decide null_policy tool_name = deny not_loaded
  decide (throws why) tool_name = deny (load_threw why)

  unfoldable pub load : Gate Supply
  load s = (some (deps.load_policy s.loads), record s { loads = suc s.loads })

  unfoldable pub set_pending : RequestId → PendingAllow → Gate (Unit {0})
  set_pending id p s = (some tt, record s { pending_allows = pending_set id p s.pending_allows })

  unfoldable pub on_verdict : Verdict → RequestId → Members → Tool → Gate (Unit {0})
  unfolding denial_text set_pending
  on_verdict (deny reason) id ms tool = do
    reason_text ← lift (denial_text reason)
    emit (to_client (message (deny_tool_result id reason_text)))
    written ← write_receipt_safely deps (record {
      decision = Receipt.deny;
      server = server_label;
      tool_name = tool.tool_name;
      tool_args = tool.tool_args;
      tool_result = none;
    })
    emit (log (denied tool.tool_name id))
  on_verdict allow id ms tool = do
    set_pending id
        (record { tool_args = tool.tool_args; server = server_label; tool_name = tool.tool_name })
    emit (to_downstream (message (obj ms)))
    emit (log (allowed tool.tool_name id))

  -- handleToolsCall
  unfoldable pub handle_tools_call : RequestId → Members → Gate (Unit {0})
  unfolding load on_verdict decide
  handle_tools_call id ms = do
    let tool = tool_of (get (codes "params") ms)
    supply ← load
    on_verdict (decide supply tool.tool_name) id ms tool

  -- The string `params.name` if it is not empty.
  unfoldable pub call_name : Option Json → Option Text
  call_name (some (obj params)) = elim (get (codes "name") params) [
    | some (str []) ↦ none
    | some (str name) ↦ some name
    | _ ↦ none
  ]
  call_name _ = none

  -- The tests of gateToolsCall on a call with a usable id, in their order: the first that fails.
  unfoldable pub call_problem :
      Text → Members → RequestId → List (RequestId × PendingAllow) → Option Refusal
  unfolding call_name
  call_problem text ms id pending =
      if is_some (find_unsafe_integer text)
      then some unsafe_integer
      else if has_non_finite_number (obj ms)
      then some non_finite
      else if pending_has id pending
      then some in_flight
      else elim (call_name (get (codes "params") ms)) [
        | none ↦ some no_name
        | some name ↦
            if is_some (tool_name_problem js name)
            then some bad_name
            else if not deps.allow_nonstandard_tool_names
                && is_some (standard_tool_name_problem name)
            then some nonstandard_name
            else if exceeds_depth (obj ms) max_value_depth
            then some too_deep
            else if is_some (args_hash deps.crypto (tool_of (get (codes "params") ms)).tool_args)
            then none
            else some not_canonical
      ]

  -- What gateToolsCall does at the test that fails.
  unfoldable pub refuse_call : Members → Option RequestId → Refusal → Gate (Unit {0})
  refuse_call ms reply no_name = refuse_tools_call deps ms no_name reply (some [])
  refuse_call ms reply too_deep = refuse_unrecordable deps ms too_deep reply
  refuse_call ms reply not_canonical = refuse_unrecordable deps ms not_canonical reply
  refuse_call ms reply why = refuse_tools_call deps ms why reply none

  -- The rest of gateToolsCall, given the test that fails.
  unfoldable pub on_problem :
      Option Refusal → Members → RequestId → Option RequestId → Gate (Unit {0})
  on_problem (some why) ms id reply = refuse_call ms reply why
  on_problem none ms id reply = handle_tools_call id ms

  -- gateToolsCall on a call with a usable id
  unfoldable pub gate_with_id : Text → Members → RequestId → Gate (Unit {0})
  unfolding call_problem on_problem
  gate_with_id text ms id = do
    reply ← lift (reply_id_of deps text ms)
    λ s. on_problem (call_problem text ms id s.pending_allows) ms id reply s

  -- gateToolsCall on a call with no id, or with one that is not a string or an integer
  unfoldable pub gate_without_id : Members → Gate (Unit {0})
  gate_without_id ms = do
    let tool = tool_of (get (codes "params") ms)
    note ← write_refusal_receipt deps tool
    (if has_own (codes "id") ms then emit (to_client (refusal_frame bad_id none)) else pure tt)
    emit (log (refused_call tool.tool_name none))

  unfoldable pub usable_id : Option Json → Option RequestId
  usable_id none = none
  usable_id (some id) = valid_request_id id

  unfoldable pub by_id : Option RequestId → Text → Members → Gate (Unit {0})
  by_id (some id) text ms = gate_with_id text ms id
  by_id none text ms = gate_without_id ms

  unfoldable pub gate_tools_call : Text → Members → Gate (Unit {0})
  unfolding usable_id by_id
  gate_tools_call text ms = by_id (usable_id (get (codes "id") ms)) text ms

  -- handleClientLine on an object: the first of the tests that fails.
  unfoldable pub message_problem : Text → Members → Option Refusal
  message_problem text ms =
      if is_some (find_duplicate_member text)
      then some duplicate_name
      else if case_problem ms
      then some case_clash
      else if proto_problem ms
      then some proto_clash
      else method_problem ms

  unfoldable pub on_message_problem : Option Refusal → Text → Members → Gate (Unit {0})
  on_message_problem (some why) text ms = refuse_message deps text ms why
  on_message_problem none text ms =
      if is_tools_call ms then gate_tools_call text ms else emit (to_downstream (line text))

  unfoldable pub handle_object : Text → Members → Gate (Unit {0})
  unfolding message_problem on_message_problem
  handle_object text ms = on_message_problem (message_problem text ms) text ms

  unfoldable pub handle_value : Text → Json → Gate (Unit {0})
  unfolding handle_object
  handle_value text (arr vs) = refuse_batch deps text vs
  handle_value text (obj ms) = handle_object text ms
  handle_value text _ = emit (to_downstream (line text))

  unfoldable pub on_parsed : Option Json → Text → Gate (Unit {0})
  on_parsed none text = refuse_line deps not_json
  on_parsed (some value) text =
      if any (λ c. c == 13) text then refuse_line deps carriage_return else handle_value text value

  unfoldable pub handle_client_line : Text → Gate (Unit {0})
  unfolding on_parsed
  handle_client_line text = on_parsed (js.parse text) text

  -- The catch of the loops over lines.
  abbrev pub caught : Log → Option (Unit {0}) × State → State
  caught dropped (some _, s) = s
  caught dropped (none, s) = record s { effects = log dropped ∷ s.effects }

  -- line.trim().length === 0
  abbrev pub is_blank : Text → Bool
  is_blank text = all js.trimmed text

  unfoldable pub client_lines : List Text → State → State
  unfolding handle_client_line
  client_lines [] s = s
  client_lines (l ∷ ls) s =
      client_lines ls
        (if is_blank l then s else caught client_line_dropped (handle_client_line l s))

  unfoldable pub on_client_chunk : Text → State → State
  unfolding client_lines
  on_client_chunk chunk s =
      let parts = split_lines s.client_stdin_buf chunk in
      client_lines parts.lines (record s { client_stdin_buf = parts.rest })
