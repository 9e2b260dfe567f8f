-- ===== src/Proxy/Actions/Handlers.antt =====
-- The handlers of the client's side of src/proxy.ts as sequences of the single actions.
use chirindo.Prelude.{ℕ, Bool, true, false, Option, none, some, List, [], ◌∷◌, Text}
use chirindo.Json.{Json, null, bool, num, str, arr, obj, Items, nil, cons, Members}
use chirindo.Rpc.{RequestId}
use chirindo.Proxy.State.{Deps, PendingAllow, line, Log, log, State, pending_set}
use chirindo.Proxy.Refuse.{
  Tool, Refusal, no_name, too_deep, not_canonical, refuse_receipt, receipt_of, batch_loop,
  write_refusal_receipt, refuse_unrecordable, refuse_tools_call, refuse_message, refuse_batch,
  refuse_line,
}
use chirindo.Proxy.Client.{
  Verdict, allow, deny, on_problem, by_id, on_message_problem, on_parsed, call_problem, load,
  set_pending, on_verdict, handle_tools_call, refuse_call, gate_with_id, gate_without_id,
  gate_tools_call, handle_object, handle_value, caught,
}
use chirindo.Proxy.Actions.{
  emitted, loaded_policy, changed_pending, Acts, then_act, IsActing, once, IsActing-bind,
  IsActing-pure, IsActing-to_downstream, acting_rules,
}

module _ (deps : Deps) where
  open deps use {js}

  refuse_receipt-IsActing :
      (tool : Tool) (deep : Bool) → IsActing deps (refuse_receipt deps tool deep)
  unfolding refuse_receipt
  refuse_receipt-IsActing tool deep = search acting_rules

  write_refusal-IsActing : (tool : Tool) → IsActing deps (write_refusal_receipt deps tool)
  unfolding write_refusal_receipt
  write_refusal-IsActing tool = search (acting_rules, refuse_receipt-IsActing)

  refuse_unrecordable-IsActing :
      (ms : Members) (why : Refusal) (reply : Option RequestId)
      → IsActing deps (refuse_unrecordable deps ms why reply)
  unfolding refuse_unrecordable
  refuse_unrecordable-IsActing ms why reply = search (acting_rules, write_refusal-IsActing)

  refuse_tools_call-IsActing :
      (ms : Members) (why : Refusal) (reply : Option RequestId) (name : Option Text)
      → IsActing deps (refuse_tools_call deps ms why reply name)
  unfolding refuse_tools_call
  refuse_tools_call-IsActing ms why reply name = search (acting_rules, write_refusal-IsActing)

  receipt_of-IsActing : (tool : Option Tool) → IsActing deps (receipt_of deps tool)
  unfolding receipt_of
  receipt_of-IsActing none = search acting_rules
  receipt_of-IsActing (some tool) = search (acting_rules, write_refusal-IsActing)

  refuse_message-IsActing :
      (text : Text) (ms : Members) (why : Refusal) → IsActing deps (refuse_message deps text ms why)
  unfolding refuse_message
  refuse_message-IsActing text ms why = search (acting_rules, receipt_of-IsActing) depth 8

  batch_loop-IsActing :
      (vs : Items) (claims : List Bool) (calls written : ℕ)
      → IsActing deps (batch_loop deps vs claims calls written)
  unfolding batch_loop
  batch_loop-IsActing nil claims calls written = IsActing-pure deps _
  batch_loop-IsActing (cons v vs) [] calls written = IsActing-pure deps _
  batch_loop-IsActing (cons v vs) (true ∷ claims) calls written =
      IsActing-bind deps _ _ (write_refusal-IsActing _) (λ note. batch_loop-IsActing vs claims _ _)
  batch_loop-IsActing (cons v vs) (false ∷ claims) calls written =
      batch_loop-IsActing vs claims calls written

  refuse_batch-IsActing : (text : Text) (vs : Items) → IsActing deps (refuse_batch deps text vs)
  unfolding refuse_batch
  refuse_batch-IsActing text vs = search (acting_rules, batch_loop-IsActing) depth 8

  refuse_line-IsActing : (why : Refusal) → IsActing deps (refuse_line deps why)
  unfolding refuse_line
  refuse_line-IsActing why = search acting_rules

  gate_without_id-IsActing : (ms : Members) → IsActing deps (gate_without_id deps ms)
  unfolding gate_without_id
  gate_without_id-IsActing ms = search (acting_rules, write_refusal-IsActing) depth 8

  set_pending-IsActing : (id : RequestId) (p : PendingAllow) → IsActing deps (set_pending deps id p)
  unfolding set_pending
  set_pending-IsActing id p = record {
    acts = λ s. once deps s _ (changed_pending s (pending_set id p s.pending_allows));
  }

  on_verdict-IsActing :
      (v : Verdict) (id : RequestId) (ms : Members) (tool : Tool)
      → IsActing deps (on_verdict deps v id ms tool)
  unfolding on_verdict
  on_verdict-IsActing (deny reason) id ms tool = search acting_rules depth 8
  on_verdict-IsActing allow id ms tool = search (acting_rules, set_pending-IsActing) depth 8

  load-IsActing : IsActing deps (load deps)
  unfolding load
  load-IsActing = record { acts = λ s. once deps s _ (loaded_policy s) }

  handle_tools_call-IsActing :
      (id : RequestId) (ms : Members) → IsActing deps (handle_tools_call deps id ms)
  unfolding handle_tools_call
  handle_tools_call-IsActing id ms = search (acting_rules, load-IsActing, on_verdict-IsActing)

  refuse_call-IsActing :
      (ms : Members) (reply : Option RequestId) (why : Refusal)
      → IsActing deps (refuse_call deps ms reply why)
  unfolding refuse_call
  refuse_call-IsActing ms reply no_name = refuse_tools_call-IsActing ms _ reply _
  refuse_call-IsActing ms reply too_deep = refuse_unrecordable-IsActing ms _ reply
  refuse_call-IsActing ms reply not_canonical = refuse_unrecordable-IsActing ms _ reply
  refuse_call-IsActing ms reply _ = refuse_tools_call-IsActing ms _ reply _

  on_problem-IsActing :
      (r : Option Refusal) (ms : Members) (id : RequestId) (reply : Option RequestId)
      → IsActing deps (on_problem deps r ms id reply)
  unfolding on_problem
  on_problem-IsActing (some why) ms id reply = refuse_call-IsActing ms reply why
  on_problem-IsActing none ms id reply = handle_tools_call-IsActing id ms

  with_id-IsActing :
      (text : Text) (ms : Members) (id : RequestId) (reply : Option RequestId)
      → IsActing deps
          (λ s. on_problem deps (call_problem deps text ms id s.pending_allows) ms id reply s)
  with_id-IsActing text ms id reply = record {
    acts = λ s.
        (on_problem-IsActing (call_problem deps text ms id s.pending_allows) ms id reply).acts s;
  }

  by_id-IsActing :
      (id : Option RequestId) (text : Text) (ms : Members) → IsActing deps (by_id deps id text ms)
  unfolding by_id gate_with_id
  by_id-IsActing (some id) text ms = search (acting_rules, with_id-IsActing)
  by_id-IsActing none text ms = gate_without_id-IsActing ms

  on_message_problem-IsActing :
      (r : Option Refusal) (text : Text) (ms : Members)
      → IsActing deps (on_message_problem deps r text ms)
  unfolding on_message_problem gate_tools_call
  on_message_problem-IsActing (some why) text ms = refuse_message-IsActing text ms why
  on_message_problem-IsActing none text ms = search (acting_rules, by_id-IsActing)

  handle_value-IsActing : (text : Text) (v : Json) → IsActing deps (handle_value deps text v)
  unfolding handle_value handle_object
  handle_value-IsActing text (arr vs) = refuse_batch-IsActing text vs
  handle_value-IsActing text (obj ms) = on_message_problem-IsActing _ text ms
  handle_value-IsActing text null = IsActing-to_downstream deps (line text)
  handle_value-IsActing text (bool b) = IsActing-to_downstream deps (line text)
  handle_value-IsActing text (num n) = IsActing-to_downstream deps (line text)
  handle_value-IsActing text (str t) = IsActing-to_downstream deps (line text)

  pub on_parsed-IsActing : (r : Option Json) (text : Text) → IsActing deps (on_parsed deps r text)
  unfolding on_parsed
  on_parsed-IsActing none text = refuse_line-IsActing _
  on_parsed-IsActing (some v) text =
      search (acting_rules, refuse_line-IsActing, handle_value-IsActing)

  pub caught-Acts :
      (l : Log) (s : State) (r : Option (Unit {0}) × State)
      → Acts deps s r.1
      → Acts deps s (caught deps l r)
  caught-Acts l s (some u, t) h = h
  caught-Acts l s (none, t) h = then_act s t _ h (emitted t (log l) tt)
