-- ===== src/Proxy/Downstream.antt =====
-- The downstream's side of src/proxy.ts: its lines, the receipt of an allowed call's result, and the
-- chunks of its stdout.
use chirindo.Prelude.{Bool, if◌then◌else◌, Option, none, some, List, [], ◌∷◌, Text, codes}
use chirindo.Json.{Json, obj, get}
use chirindo.Receipt.{allow}
use chirindo.Rpc.{RequestId, valid_request_id, deny_tool_result}
use chirindo.Rpc.Lines.{split_lines}
use chirindo.Proxy.State.{
  Deps, PendingAllow, line, message, downstream_line_dropped, unparseable_downstream_line,
  to_client, log, State, Gate, ◌>>=◌, ◌>>◌, emit, pending_get, pending_delete, write_receipt_safely,
}
use chirindo.Proxy.Client.{caught, is_blank}

-- The id of a parsed line that can be a key of the map: an array has no member "id".
unfoldable pub response_id : Json → Option RequestId
response_id (obj ms) = elim (get (codes "id") ms) [ none ↦ none | some id ↦ valid_request_id id ]
response_id _ = none

-- parsed["result"]
unfoldable pub response_result : Json → Option Json
response_result (obj ms) = get (codes "result") ms
response_result _ = none

unfoldable pub pending_of : Option RequestId → List (RequestId × PendingAllow) → Option PendingAllow
pending_of none pending = none
pending_of (some id) pending = pending_get id pending

unfoldable pub withheld_text : Text
withheld_text = codes "gate receipt could not be written; result withheld (fail-closed)"

module _ (deps : Deps) where
  open deps use {js}

  unfoldable pub delete_pending : RequestId → Gate (Unit {0})
  delete_pending id s = (some tt, record s { pending_allows = pending_delete id s.pending_allows })

  -- The result, or an error in its place.
  unfoldable pub deliver : RequestId → Text → Bool → Gate (Unit {0})
  unfolding withheld_text
  deliver id text ok =
      if ok
      then emit (to_client (line text))
      else emit (to_client (message (deny_tool_result id withheld_text)))

  -- A response to a call that was let through: its receipt comes before its result.
  unfoldable pub answer_pending : Text → Json → RequestId → PendingAllow → Gate (Unit {0})
  unfolding delete_pending deliver
  answer_pending text parsed id p = do
    delete_pending id
    ok ← write_receipt_safely deps (record {
      decision = allow;
      server = p.server;
      tool_name = p.tool_name;
      tool_args = p.tool_args;
      tool_result = response_result parsed;
    })
    deliver id text ok

  -- A response whose id is not in the map, and any other message, passes as it came.
  unfoldable pub answer : Text → Json → Option RequestId → Option PendingAllow → Gate (Unit {0})
  answer text parsed (some id) (some p) = answer_pending text parsed id p
  answer text parsed _ _ = emit (to_client (line text))

  unfoldable pub on_response : Option Json → Text → Gate (Unit {0})
  unfolding answer
  on_response none text = do emit (to_client (line text)); emit (log unparseable_downstream_line)
  on_response (some parsed) text =
      λ s. let id = response_id parsed in answer text parsed id (pending_of id s.pending_allows) s

  unfoldable pub handle_downstream_line : Text → Gate (Unit {0})
  unfolding on_response
  handle_downstream_line text = on_response (js.parse text) text

  unfoldable pub downstream_lines : List Text → State → State
  unfolding handle_downstream_line
  downstream_lines [] s = s
  downstream_lines (l ∷ ls) s = downstream_lines ls (
      if is_blank deps l
      then s
      else caught deps downstream_line_dropped (handle_downstream_line l s))

  unfoldable pub on_downstream_chunk : Text → State → State
  unfolding downstream_lines
  on_downstream_chunk chunk s =
      let parts = split_lines s.down_stdout_buf chunk in
      downstream_lines parts.lines (record s { down_stdout_buf = parts.rest })
