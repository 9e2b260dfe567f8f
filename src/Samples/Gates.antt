-- ===== src/Samples/Gates.antt =====
-- The theorems on the proxy and on its policy at a sample proxy: one call, let through and answered.
use chirindo.Prelude.{
  ◌+◌, ◌≡◌, ◌⊎◌, refl, ◌↔◌, true, false, Option, none, some, List, [], ◌∷◌, ◌++◌, Text, codes,
  text_eq, text_eq_refl, arith, length, All, includes, ltb,
}
use chirindo.Json.{Json, null, num, infinity, obj, end, arr, nil, cons, keys, get}
use chirindo.Verify.{ValidChain, valid}
use chirindo.Verify.Scan.{pinned_out, verify_chain}
use chirindo.Proxy.State.{State, PendingAllow}
use chirindo.Proxy.Run.{Event, client, downstream, initial, run}
use chirindo.Proxy.Quiet.{passage}
use chirindo.Proxy.Sound.{AreLetThrough, calls}
use chirindo.Proxy.Sound.Runs.{sent-AreLetThrough, calls_are_accounted}
use chirindo.Proxy.Actions.Growth.{IsGrown, chain_only_grows}
use chirindo.Proxy.Evidence.{IsHonest, run_leaves_valid_chain}
use chirindo.Prelude.{int_eq}
use chirindo.Json.{has_own, is_safe_integer}
use chirindo.Json.Measure.{has_non_finite_number, exceeds_depth}
use chirindo.Names.Fold.{case_variant, fold_collision, fold_name, case_keys}
use chirindo.Names.Method.{first_control_or_format, method_names_tools_call}
use chirindo.Names.Scan.{top_level_member_names}
use chirindo.Strict.{find_duplicate_member, find_unsafe_integer}
use chirindo.Policy.{tool_name_problem, standard_tool_name_problem, evaluate, rule_matches}
use chirindo.Record.Canon.{content_json, request_descriptor}
use chirindo.Record.Hash.{
  genesis_prev_hash, args_hash, result_hash, request_commitment, rfc7638_thumbprint, default_issuer,
}
use chirindo.Record.File.{chain_of_lines}
use chirindo.Receipt.{append_receipt}
use chirindo.Rpc.{is_tools_call, valid_request_id, id_eq}
use chirindo.Rpc.Lines.{split_lines}
use chirindo.Proxy.State.{
  pending_has, pending_get, pending_set, pending_delete, write_receipt_safely, written_chain,
}
use chirindo.Proxy.Refuse.{reply_id_of, tool_of}
use chirindo.Proxy.Client.{
  case_problem, proto_problem, method_problem, handle_value, gate_tools_call, gate_with_id,
  call_problem, decide, handle_tools_call,
}
use chirindo.Proxy.Downstream.{
  answer_pending, answer, response_id, response_result, pending_of, handle_downstream_line,
}
use chirindo.Prelude.{suc}
use chirindo.Json.Measure.{non_finite_loop, size, depth_loop}
use chirindo.Json.Measure.Laws.{
  non_finite, height, has_non_finite_number-eq-non_finite, exceeds_depth-eq-height,
}
use chirindo.Names.Fold.{envelope_members}
use chirindo.Names.Readers.{get_folded, get_last_folded, readers_agree}
use chirindo.Strict.{Strict, scan_loop, start}
use chirindo.Strict.Ends.{scan_loop-ends}
use chirindo.Policy.{DenyRule, allow, deny, denied_tool, reason_of}
use chirindo.Policy.Matching.{evaluate-allow_iff, evaluate-deny, evaluate-same_keys}
use chirindo.Rpc.{number}
use chirindo.Rpc.Lines.{split, split_stream}
use chirindo.Rpc.Lines.Chunks.{concat, split_stream-concat}
use chirindo.Record.Hash.{kid_matches_key}
use chirindo.Verify.Scan.{secure_jwks_uri}
use chirindo.Proxy.Answers.{IsAnswered, IsPassed, response_needs_receipt}
use chirindo.Prelude.{pos}
use chirindo.Json.{str}
use chirindo.Json.{Members, member}
use chirindo.Proxy.Client
use chirindo.Proxy.Sound.InFlight.{IsRefused, handle_client_line-IsRefused}
use chirindo.Rpc.{is_tools_call}
use chirindo.Json.{num, int}
use chirindo.Proxy.State.{pending_has}
use chirindo.Proxy.Client.{handle_client_line}
use chirindo.Samples.{js, crypto, rules, deps, controls, call}

-- The client calls, and the downstream server answers.
abbrev events : List Event
events = client (codes "{}\n") ∷ downstream (codes "{}\n") ∷ []

sent-AreLetThrough_example :
    let s = run deps events (initial []) in AreLetThrough deps s.loads (passage s.effects).sent
sent-AreLetThrough_example = sent-AreLetThrough deps [] events

calls_are_accounted_example :
    let s = run deps events (initial []) in
    calls (passage s.effects).sent
    ≡ length s.pending_allows
      + length (passage s.effects).allowed
      + length (passage s.effects).withheld
calls_are_accounted_example = calls_are_accounted deps [] events

chain_only_grows_example : IsGrown (initial []) (run deps events (initial []))
chain_only_grows_example = chain_only_grows deps events (initial [])

one_line : length (run deps events (initial [])).chain ≡ 1
unfolding run split_lines handle_value find_duplicate_member case_problem case_variant includes
    text_eq fold_collision fold_name get is_tools_call proto_problem has_own method_problem
    first_control_or_format gate_tools_call valid_request_id gate_with_id reply_id_of call_problem
    find_unsafe_integer has_non_finite_number pending_has pending_get pending_set pending_delete
    tool_name_problem standard_tool_name_problem exceeds_depth args_hash evaluate rule_matches
    case_keys id_eq append_receipt tool_of write_receipt_safely written_chain answer_pending answer
    response_id response_result chain_of_lines genesis_prev_hash result_hash request_commitment
    rfc7638_thumbprint request_descriptor content_json default_issuer top_level_member_names int_eq
    method_names_tools_call decide handle_tools_call is_safe_integer pending_of
one_line = refl

honest : IsHonest deps 5000 [] (codes "sha256:")
unfolding rfc7638_thumbprint genesis_prev_hash get text_eq kid_matches_key secure_jwks_uri
honest = record {
  keyed = refl;
  opened = refl;
  named = refl;
  secure = refl;
  signs = λ m. text_eq_refl m;
  clock = λ i j d e before at_i at_j. ground (arith, at_i, at_j);
}

key_free : pinned_out crypto (codes "k") controls [] ≡ false
unfolding pinned_out includes text_eq
key_free = refl

run_leaves_valid_chain_example :
    (v : ValidChain) × (verify_chain crypto
        (codes "k")
        controls
        (run deps events (initial [])).chain
      ≡ some (valid v))
    × (v.count ≡ length (run deps events (initial [])).chain)
    × (v.session_id ≡ codes "s")
run_leaves_valid_chain_example =
    run_leaves_valid_chain deps controls [] (codes "sha256:") events honest key_free
      (omega (arith, one_line))

abbrev waiting : PendingAllow
waiting = record { tool_args = obj end; server = codes "fs"; tool_name = codes "ls" }

abbrev called : State
called = record (initial []) { pending_allows = (number (pos 1), waiting) ∷ [] }

call_method : is_tools_call call ≡ true
unfolding is_tools_call text_eq
call_method = refl

one_usable : valid_request_id (num (int (pos 1))) ≡ some (number (pos 1))
unfolding valid_request_id
one_usable = refl

one_named : get (codes "id") call ≡ some (num (int (pos 1)))
unfolding get text_eq
one_named = refl

one_pending : pending_has (number (pos 1)) called.pending_allows ≡ true
unfolding pending_has id_eq int_eq
one_pending = refl

handle_client_line-IsRefused_example :
    IsRefused called (handle_client_line deps (codes "{}") called).1
handle_client_line-IsRefused_example =
    handle_client_line-IsRefused deps (codes "{}") call (num (int (pos 1))) (number (pos 1)) called
      refl call_method one_named one_usable one_pending

response_needs_receipt_example :
    IsPassed deps (codes "{}") called (handle_downstream_line deps (codes "{}") called).1
    ⊎ IsAnswered deps (codes "{}") called (handle_downstream_line deps (codes "{}") called).1
response_needs_receipt_example = response_needs_receipt deps (codes "{}") called

allowed_tool : evaluate js rules (codes "fs") (codes "ls") ≡ allow
unfolding evaluate rule_matches case_keys text_eq fold_name
allowed_tool = refl

evaluate-allow_iff_example :
    (evaluate js rules (codes "fs") (codes "ls") ≡ allow)
    ↔ All (λ rule. rule_matches js rule (codes "fs") (codes "ls") ≡ false) rules.deny
evaluate-allow_iff_example = evaluate-allow_iff js rules (codes "fs") (codes "ls")

denied_tool_rm : evaluate js rules (codes "fs") (codes "rm") ≡ deny (denied_tool (codes "rm"))
unfolding evaluate rule_matches case_keys text_eq fold_name
denied_tool_rm = refl

evaluate-deny_example :
    (before : List DenyRule) × (rule : DenyRule) × (after : List DenyRule) × (rules.deny
      ≡ before ++ rule ∷ after)
    × All (λ earlier. rule_matches js earlier (codes "fs") (codes "rm") ≡ false) before
    × (rule_matches js rule (codes "fs") (codes "rm") ≡ true)
    × (denied_tool (codes "rm") ≡ reason_of rule.reason (codes "rm"))
evaluate-deny_example =
    evaluate-deny js rules (codes "fs") (codes "rm") (denied_tool (codes "rm")) denied_tool_rm

same_case : case_keys js (codes "RM") ≡ case_keys js (codes "rm")
unfolding case_keys fold_name text_eq
same_case = refl

evaluate-same_keys_example :
    (evaluate js rules (codes "fs") (codes "RM") ≡ allow)
    ↔ (evaluate js rules (codes "fs") (codes "rm") ≡ allow)
evaluate-same_keys_example =
    evaluate-same_keys js rules (codes "fs") (codes "RM") (codes "rm") same_case

method_listed : includes envelope_members (codes "method") ≡ true
unfolding includes text_eq
method_listed = refl

call_plain : case_variant js (keys call) envelope_members ≡ none
unfolding case_variant fold_name includes text_eq
call_plain = refl

call_apart : fold_collision js (keys call) ≡ none
unfolding fold_collision fold_name text_eq
call_apart = refl

readers_agree_example :
    (get_folded js (codes "method") call ≡ get (codes "method") call)
    × (get_last_folded js (codes "method") call ≡ get (codes "method") call)
readers_agree_example = readers_agree js call (codes "method") method_listed call_plain call_apart

abbrev nested : Json
nested = arr (cons (num (infinity true)) (cons (arr (cons null nil)) nil))

has_non_finite_number-eq-non_finite_example :
    (non_finite_loop (suc (size nested)) (nested ∷ []) ≡ some (non_finite nested))
    × (has_non_finite_number nested ≡ non_finite nested)
has_non_finite_number-eq-non_finite_example = has_non_finite_number-eq-non_finite nested

exceeds_depth-eq-height_example :
    (depth_loop 1 (suc (size nested)) ((nested, 0) ∷ []) ≡ some (ltb 1 (height nested)))
    × (exceeds_depth nested 1 ≡ ltb 1 (height nested))
exceeds_depth-eq-height_example = exceeds_depth-eq-height nested 1

abbrev chunks : List Text
chunks = codes "{" ∷ codes "}\r\n[" ∷ codes "]\n" ∷ []

split_stream-concat_example : split_stream [] chunks ≡ split_lines [] (concat chunks)
unfolding split
split_stream-concat_example = split_stream-concat [] chunks refl

scan_loop-ends_example : (r : Option Strict) × (scan_loop false true 3 start (codes "{}") ≡ some r)
scan_loop-ends_example = scan_loop-ends false true 3 start (codes "{}") (omega arith)

abbrev removal : Members
removal = member (codes "params") (obj (member (codes "name") (str (codes "rm")) end)) end
