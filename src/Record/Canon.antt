-- ===== src/Record/Canon.antt =====
-- The JSON value of a record's content, of a checkpoint's, and of a request descriptor: what
-- jcsBytes is given. A member of an absent option is left out, as the conditional spreads do.
use chirindo.Prelude.{ℕ, Option, none, some, List, [], ◌∷◌, pos, Text, codes, String}
use chirindo.Json.{Json, null, num, int, str, arr, obj, Items, nil, cons, Members, end, member}
use chirindo.Record.{
  Outcome, executed, blocked, denied, errored, timed_out, Decision, DecisionSource, user, config,
  hook, n_a, AgentInfo, RecordEvent, shell, file_edit, file_read, tool_call, mcp_call, GateFamily,
  environment, verification, permit, GateResult, act, halt, GateBlock, RecordContent,
  CheckpointContent,
}
use chirindo.Record

abbrev word : String → Json
word s = str (codes s)

abbrev number : ℕ → Json
number n = num (int (pos n))

abbrev with_text : String → Text → Members → Members
with_text k t ms = member (codes k) (str t) ms

abbrev pub with_option {ℓ} : {A : Type ℓ} → (A → Json) → String → Option A → Members → Members
with_option f k none ms = ms
with_option f k (some a) ms = member (codes k) (f a) ms

abbrev texts : List Text → Items
texts [] = nil
texts (t ∷ ts) = cons (str t) (texts ts)

outcome_json : Outcome → Json
outcome_json executed = word "executed"
outcome_json blocked = word "blocked"
outcome_json denied = word "denied"
outcome_json errored = word "errored"
outcome_json timed_out = word "timed_out"

decision_json : Decision → Json
decision_json Record.allow = word "allow"
decision_json Record.deny = word "deny"
decision_json Record.ask = word "ask"
decision_json Record.observed = word "observed"

source_json : DecisionSource → Json
source_json user = word "user"
source_json config = word "config"
source_json hook = word "hook"
source_json n_a = word "n/a"

with_decision : Option Decision → Option DecisionSource → Members
unfolding decision_json source_json
with_decision d s =
    with_option decision_json "decision" d (with_option source_json "decision_source" s end)

event_json : RecordEvent → Json
unfolding outcome_json with_decision
event_json (shell e) = obj (
    with_text "type" (codes "shell") (
      member (codes "outcome") (outcome_json e.outcome) (
        member (codes "argv") (arr (texts e.argv)) (
          with_text "cwd" e.cwd (
            with_option number "exit_code" e.exit_code (
              with_option str "command" e.command (
                with_option str "command_hash" e.command_hash
                  (with_decision e.decision e.decision_source))))))))
event_json (file_edit e) = obj (
    with_text "type" (codes "file_edit") (
      member (codes "outcome") (outcome_json e.outcome) (
        with_text "path" e.path (
          with_text "content_hash" e.content_hash (
            with_option str "prev_content_hash" e.prev_content_hash
              (with_option number "bytes" e.bytes end))))))
event_json (file_read e) = obj (
    with_text "type" (codes "file_read") (
      member (codes "outcome") (outcome_json e.outcome)
        (with_text "path" e.path (with_option str "content_hash" e.content_hash end))))
event_json (tool_call e) = obj (
    with_text "type" (codes "tool_call") (
      member (codes "outcome") (outcome_json e.outcome) (
        with_text "tool_name" e.tool_name (
          with_text "args_hash" e.args_hash (
            with_option str "result_hash" e.result_hash
              (with_decision e.decision e.decision_source))))))
event_json (mcp_call e) = obj (
    with_text "type" (codes "mcp_call") (
      member (codes "outcome") (outcome_json e.outcome) (
        with_text "server" e.server (
          with_text "tool_name" e.tool_name (
            with_text "args_hash" e.args_hash (
              with_option str "result_hash" e.result_hash
                (with_decision e.decision e.decision_source)))))))

family_json : GateFamily → Json
family_json environment = word "environment"
family_json verification = word "verification"
family_json permit = word "permit"

result_json : GateResult → Json
result_json act = word "act"
result_json halt = word "halt"

gate_json : Option GateBlock → Json
unfolding family_json result_json
gate_json none = null
gate_json (some g) = obj (
    with_text "request_commitment" g.request_commitment (
      with_text "gate_receipt" g.gate_receipt (
        member (codes "gate_family") (family_json g.gate_family)
          (member (codes "result") (result_json g.result) end))))

agent_json : AgentInfo → Json
agent_json a = obj (with_text "vendor" a.vendor (with_text "version" a.version end))

unfoldable pub content_json : RecordContent → Json
unfolding event_json gate_json agent_json
content_json c = obj (
    with_text "v" c.v (
      member (codes "seq") (number c.seq) (
        with_text "session_id" c.session_id (
          with_text "ts" c.ts (
            member (codes "agent") (agent_json c.agent) (
              member (codes "event") (event_json c.event) (
                with_text "request_commitment" c.request_commitment (
                  member (codes "gate") (gate_json c.gate) (
                    with_option str "jwks_uri" c.jwks_uri (
                      with_option str "key_thumbprint" c.key_thumbprint (
                        with_option str "iss" c.iss (
                          with_option str "x402_payment_ref" c.x402_payment_ref (
                            with_option (λ (j : Json). j) "check" c.check
                              (with_text "prev_hash" c.prev_hash
                                (with_text "kid" c.kid end)))))))))))))))

unfoldable pub checkpoint_json : CheckpointContent → Json
checkpoint_json c = obj (
    with_text "v" c.v (
      with_text "type" (codes "checkpoint") (
        with_text "session_id" c.session_id (
          member (codes "count") (number c.count) (
            with_text "last_entry_hash" c.last_entry_hash
              (with_text "ts" c.ts (with_text "kid" c.kid end)))))))

-- requestDescriptor of src/vendor/recorder/request.ts: `outcome` and what comes after the action
-- are not read.
unfoldable pub request_descriptor : RecordEvent → Json
request_descriptor (shell e) = obj (
    with_text "class" (codes "shell")
      (member (codes "argv") (arr (texts e.argv)) (with_text "cwd" e.cwd end)))
request_descriptor (file_edit e) = obj (
    with_text "class" (codes "file_edit")
      (with_text "path" e.path (with_text "content_hash" e.content_hash end)))
request_descriptor (file_read e) =
    obj (with_text "class" (codes "file_read") (with_text "path" e.path end))
request_descriptor (tool_call e) = obj (
    with_text "class" (codes "tool_call")
      (with_text "tool" e.tool_name (with_text "args_hash" e.args_hash end)))
request_descriptor (mcp_call e) = obj (
    with_text "class" (codes "mcp_call") (
      with_text "server" e.server
        (with_text "tool" e.tool_name (with_text "args_hash" e.args_hash end))))
