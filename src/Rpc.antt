-- ===== src/Rpc.antt =====
-- src/rpc.ts: the messages that the gate recognises and those that it answers with.
pub mod Lines
use chirindo.Prelude.{
  Bool, true, false, Option, none, some, ◌++◌, Text, codes, text_eq, ℤ, negsuc, int_eq,
}
use chirindo.Json.{Json, null, bool, num, int, str, arr, obj, nil, cons, Members, end, member, get}

-- A usable request id: a string or an integer. It is also a key of the map of pending calls.
pub data RequestId : Type 0 where
  text : Text → RequestId
  number : ℤ → RequestId

unfoldable pub id_eq : RequestId → RequestId → Bool
id_eq (text s) (text t) = text_eq s t
id_eq (number a) (number b) = int_eq a b
id_eq _ _ = false

abbrev pub id_json : RequestId → Json
id_json (text s) = str s
id_json (number n) = num (int n)

abbrev pub reply_json : Option RequestId → Json
reply_json none = null
reply_json (some id) = id_json id

-- isValidRequestId, with the id it accepts
unfoldable pub valid_request_id : Json → Option RequestId
valid_request_id (str s) = some (text s)
valid_request_id (num (int n)) = some (number n)
valid_request_id _ = none

unfoldable pub is_tools_call : Members → Bool
unfolding get
is_tools_call ms = elim (get (codes "method") ms) [
  | some (str m) ↦ text_eq m (codes "tools/call")
  | _ ↦ false
]

abbrev pub parse_error : ℤ
parse_error = negsuc 32699

abbrev pub invalid_request : ℤ
invalid_request = negsuc 32599

abbrev pub invalid_params : ℤ
invalid_params = negsuc 32601

unfoldable pub error_response : ℤ → Text → Option RequestId → Json
error_response code message id = obj (
    member (codes "jsonrpc") (str (codes "2.0")) (
      member (codes "id") (reply_json id) (
        member (codes "error")
          (obj
            (member (codes "code") (num (int code)) (member (codes "message") (str message) end)))
          end)))

unfoldable pub deny_tool_result : RequestId → Text → Json
deny_tool_result id reason = obj (
    member (codes "jsonrpc") (str (codes "2.0")) (
      member (codes "id") (id_json id) (
        member (codes "result")
          (obj (
            member (codes "content")
              (arr (
                cons
                  (obj (
                    member (codes "type") (str (codes "text"))
                      (member (codes "text") (str (codes "[gate denied] " ++ reason)) end)))
                  nil))
              (member (codes "isError") (bool true) end)))
          end)))
