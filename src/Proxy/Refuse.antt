-- ===== src/Proxy/Refuse.antt =====
-- The refusals of src/proxy.ts: what they write as a receipt, answer to the client and log.
use chirindo.Prelude.{
  ℕ, suc, ◌+◌, ◌==◌, Bool, true, false, not, ◌&&◌, if◌then◌else◌, Option, none, some, List, [], ◌∷◌,
  Text, codes, ℤ, text_eq,
}
use chirindo.Json.{
  Json, null, num, int, str, obj, Items, nil, cons, Members, end, get, is_safe_integer,
}
use chirindo.Json.Measure.{has_non_finite_number, exceeds_depth, max_value_depth}
use chirindo.Names.Method.{method_value_names_tools_call}
use chirindo.Names.Scan.{top_level_member_names, names_method, tools_call_claims}
use chirindo.Receipt.{deny}
use chirindo.Rpc.{
  RequestId, text, number, parse_error, invalid_request, invalid_params, error_response,
}
use chirindo.Proxy.State.{
  Deps, Frame, message, refused_call, refused_message, refused_batch, refused_line, to_client, log,
  Gate, ◌>>=◌, ◌>>◌, pure, lift, emit, write_receipt_safely,
}

pub record Tool : Type 0 where
  pub tool_name : Text
  pub tool_args : Json

abbrev pub empty_object : Json
empty_object = obj end

abbrev name_or_empty : Option Json → Text
name_or_empty (some (str name)) = name
name_or_empty _ = []

-- params.arguments ?? {}
abbrev or_empty_object : Option Json → Json
or_empty_object none = empty_object
or_empty_object (some null) = empty_object
or_empty_object (some v) = v

-- toolOf, of the `params` member
unfoldable pub tool_of : Option Json → Tool
tool_of (some (obj ms)) = record {
  tool_name = name_or_empty (get (codes "name") ms);
  tool_args = or_empty_object (get (codes "arguments") ms);
}
tool_of _ = record { tool_name = []; tool_args = empty_object }

-- Why a client line is refused.
pub data Refusal : Type 0 where
  not_json carriage_return : Refusal
  batch : Refusal
  duplicate_name case_clash proto_clash : Refusal
  method_not_string method_invisible method_disguised : Refusal
  bad_id unsafe_integer non_finite in_flight : Refusal
  no_name bad_name nonstandard_name : Refusal
  too_deep not_canonical : Refusal

unfoldable pub refusal_code : Refusal → ℤ
refusal_code not_json = parse_error
refusal_code no_name = invalid_params
refusal_code bad_name = invalid_params
refusal_code nonstandard_name = invalid_params
refusal_code _ = invalid_request

-- The error's text. That of `not_canonical` goes on with the canonicalizer's own words.
unfoldable pub refusal_text : Refusal → Text
refusal_text not_json = codes "Parse error: the line is not valid JSON"
refusal_text carriage_return = codes "Invalid Request: carriage return inside a message"
refusal_text batch =
    codes "Invalid Request: JSON-RPC batches are not accepted; send one message per line"
refusal_text duplicate_name = codes "Invalid Request: a member name appears twice in one object"
refusal_text case_clash = codes "Invalid Request: member names that differ only in case"
refusal_text proto_clash =
    codes
      "Invalid Request: a member named \"__proto__\", which a downstream could read as the message's own members"
refusal_text method_not_string = codes "Invalid Request: method must be a string"
refusal_text method_invisible =
    codes "Invalid Request: a method holds a control or format character"
refusal_text method_disguised =
    codes
      "Invalid Request: a method that is tools/call only in another case or with white space around it"
refusal_text bad_id = codes "Invalid Request: tools/call needs a string or integer id"
refusal_text unsafe_integer = codes "Invalid Request: an integer outside the JavaScript safe range"
refusal_text non_finite = codes "Invalid Request: a number too large for a double"
refusal_text in_flight = codes "Invalid Request: a tools/call with this id is already in flight"
refusal_text no_name = codes "Invalid params: tools/call needs params with a non-empty string name"
refusal_text bad_name =
    codes
      "Invalid params: a tool name must not begin or end with white space or hold a control or format character"
refusal_text nonstandard_name =
    codes
      "Invalid params: MCP tool names are 1 to 128 characters from A-Z, a-z, 0-9, _, - and . (the gate's operator can allow others with --allow-nonstandard-tool-names)"
refusal_text too_deep =
    codes
      "Invalid Request: a tools/call that is nested more than 128 levels deep, too deep to canonicalize for its receipt"
refusal_text not_canonical =
    codes
      "Invalid Request: a tools/call that has arguments that cannot be canonicalized for its receipt"

abbrev pub refusal_frame : Refusal → Option RequestId → Frame
refusal_frame why id = message (error_response (refusal_code why) (refusal_text why) id)

-- What writeRefusalReceipt answers: the receipt cannot be hashed, or was written or not, with the
-- note that the arguments were too deep.
pub data Note : Type 0 where
  unhashable : Note
  outcome : (written deep : Bool) → Note

-- note === "written"
abbrev is_written : Note → Bool
is_written unhashable = false
is_written (outcome written deep) = written && not deep

-- names.filter((n) => n === "id").length
count_ids : List Text → ℕ
count_ids [] = 0
count_ids (n ∷ ns) = if text_eq n (codes "id") then suc (count_ids ns) else count_ids ns

-- toolName ?? tool.toolName
abbrev or_name : Option Text → Text → Text
or_name (some name) other = name
or_name none other = other

-- The number of elements of a batch.
count_items : Items → ℕ
count_items nil = 0
count_items (cons v vs) = suc (count_items vs)

module _ (deps : Deps) where
  unfoldable pub refuse_receipt : Tool → Bool → Gate Note
  refuse_receipt tool deep = do
    written ← write_receipt_safely deps (record {
      decision = deny;
      server = deps.server_label;
      tool_name = tool.tool_name;
      tool_args = if deep then empty_object else tool.tool_args;
      tool_result = none;
    })
    pure (outcome written deep)

  unfoldable pub write_refusal_receipt : Tool → Gate Note
  unfolding refuse_receipt
  write_refusal_receipt tool =
      if has_non_finite_number tool.tool_args
      then pure unhashable
      else refuse_receipt tool (exceeds_depth tool.tool_args max_value_depth)

  -- One member named "id", and one that folds to "method".
  names_one_request : List Text → Bool
  unfolding count_ids
  names_one_request names = count_ids names == 1 && names_method deps.js names

  abbrev replyable : Option Json → Option RequestId
  replyable (some (str s)) = some (text s)
  replyable (some (num (int n))) = if is_safe_integer n then some (number n) else none
  replyable _ = none

  -- replyIdOf: the outer `none` is a throw.
  unfoldable pub reply_id_of : Text → Members → Option (Option RequestId)
  unfolding names_one_request
  reply_id_of line ms = elim (replyable (get (codes "id") ms)) [
    | none ↦ some none
    | some id ↦ elim (top_level_member_names deps.js line) [
      | none ↦ none
      | some names ↦ some (if names_one_request names then some id else none)
    ]
  ]

  names_call : Option Json → Bool
  names_call none = false
  names_call (some v) = method_value_names_tools_call deps.js v 0

  -- The tool of an own "__proto__" member that reads as a call.
  proto_tool : Members → Option Tool
  unfolding names_call
  proto_tool ms = elim (get (codes "__proto__") ms) [
    | some (obj value) ↦
        if names_call (get (codes "method") value)
        then some (tool_of (get (codes "params") value))
        else none
    | _ ↦ none
  ]

  first_tool : Option Tool → Option Tool → Option Tool
  first_tool (some tool) other = some tool
  first_tool none other = other

  params_proto_tool : Option Json → Option Tool
  unfolding proto_tool
  params_proto_tool (some (obj ms)) = proto_tool ms
  params_proto_tool _ = none

  claims_first : List Bool → Bool
  claims_first [] = false
  claims_first (claim ∷ claims) = claim

  unfoldable pub refusal_call_tool : Text → Members → Option (Option Tool)
  unfolding params_proto_tool first_tool claims_first
  refusal_call_tool line ms = elim (tools_call_claims deps.js line) [
    | none ↦ none
    | some claims ↦ some (
        if claims_first claims
        then some (tool_of (get (codes "params") ms))
        else first_tool (proto_tool ms) (params_proto_tool (get (codes "params") ms)))
  ]

  -- refuseUnrecordable: the receipt is over the empty object.
  unfoldable pub refuse_unrecordable : Members → Refusal → Option RequestId → Gate (Unit {0})
  unfolding write_refusal_receipt
  refuse_unrecordable ms why reply = do
    let name = (tool_of (get (codes "params") ms)).tool_name
    note ← write_refusal_receipt (record { tool_name = name; tool_args = empty_object })
    emit (to_client (refusal_frame why reply))
    emit (log (refused_call name reply))

  -- refuseToolsCall: the tool's name is the given one if there is one.
  unfoldable pub refuse_tools_call :
      Members → Refusal → Option RequestId → Option Text → Gate (Unit {0})
  unfolding write_refusal_receipt
  refuse_tools_call ms why reply given = do
    let tool = tool_of (get (codes "params") ms)
    let name = or_name given tool.tool_name
    note ← write_refusal_receipt (record tool { tool_name = name })
    emit (to_client (refusal_frame why reply))
    emit (log (refused_call name reply))

  unfoldable pub receipt_of : Option Tool → Gate (Unit {0})
  unfolding write_refusal_receipt
  receipt_of none = pure tt
  receipt_of (some tool) = do note ← write_refusal_receipt tool; pure tt

  unfoldable pub refuse_message : Text → Members → Refusal → Gate (Unit {0})
  unfolding receipt_of
  refuse_message line ms why = do
    tool ← lift (refusal_call_tool line ms)
    receipt_of tool
    reply ← lift (reply_id_of line ms)
    emit (to_client (refusal_frame why reply))
    emit (log (refused_message line reply))

  -- The `params` member of an element of a batch.
  abbrev params_of : Json → Option Json
  params_of (obj ms) = get (codes "params") ms
  params_of _ = none

  -- The loop of refuseBatch: how many calls, and how many receipts said "written".
  unfoldable pub batch_loop : Items → List Bool → ℕ → ℕ → Gate (ℕ × ℕ)
  unfolding write_refusal_receipt
  batch_loop (cons v vs) (true ∷ claims) calls written = do
    note ← write_refusal_receipt (tool_of (params_of v))
    batch_loop vs claims (calls + 1) (if is_written note then written + 1 else written)
  batch_loop (cons v vs) (false ∷ claims) calls written = batch_loop vs claims calls written
  batch_loop _ _ calls written = pure (calls, written)

  unfoldable pub refuse_batch : Text → Items → Gate (Unit {0})
  unfolding batch_loop count_items
  refuse_batch line vs = do
    claims ← lift (tools_call_claims deps.js line)
    counts ← batch_loop vs claims 0 0
    emit (to_client (refusal_frame batch none))
    emit (log (refused_batch (count_items vs) counts.0 counts.1))

  unfoldable pub refuse_line : Refusal → Gate (Unit {0})
  refuse_line why = do emit (to_client (refusal_frame why none)); emit (log refused_line)
