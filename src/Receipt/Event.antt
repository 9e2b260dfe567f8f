-- ===== src/Receipt/Event.antt =====
-- The event that buildEvent of src/receipt.ts makes of a call.
use chirindo.Prelude.{
  ◌≡◌, refl, sym, ap, Option, ◌∙◌, none, some, Text, Option-cases, inl, inr, arith,
}
use chirindo.Crypto.{Crypto}
use chirindo.Record.{config, mcp_call, McpCallEvent, RecordEvent}
use chirindo.Record.Hash.{args_hash, result_hash}
use chirindo.Json.{Json}
use chirindo.Receipt.{ReceiptInputs, outcome_of, decision_of, hash_result, build_event}

-- The event of a receipt of `inputs`: the call of its tool, by the hashes of its arguments and of its
-- result, with the decision of the gate.
pub record IsCallOf (crypto : Crypto) (inputs : ReceiptInputs) (e : RecordEvent) : Type 0 where
  pub call : McpCallEvent
  pub is_call : e ≡ mcp_call call
  pub decision : call.decision ≡ some (decision_of inputs.decision)
  pub outcome : call.outcome ≡ outcome_of inputs.decision
  pub source : call.decision_source ≡ some config
  pub tool_name : call.tool_name ≡ inputs.tool_name
  pub server : call.server ≡ inputs.server
  pub arguments : args_hash crypto inputs.tool_args ≡ some call.args_hash
  pub no_result : inputs.tool_result ≡ none → call.result_hash ≡ none
  pub with_result :
      (v : Json)
      → inputs.tool_result ≡ some v
      → (hash : Text) × (result_hash crypto v ≡ some hash) × (call.result_hash ≡ some hash)

hash_result-some :
    (crypto : Crypto) (v : Json) (result : Option Text)
    → hash_result crypto (some v) ≡ some result
    → (hash : Text) × (result_hash crypto v ≡ some hash) × (result ≡ some hash)
unfolding hash_result
hash_result-some crypto v result h = elim (Option-cases (result_hash crypto v)) [
  | inl e ↦ ground (arith, h, e)
  | inr (hash, e) ↦ (hash, e, ground (arith, h, e))
]

hash_result-none :
    (crypto : Crypto) (result : Option Text) → hash_result crypto none ≡ some result → result ≡ none
unfolding hash_result
hash_result-none crypto result h = ground (arith, h)

pub build_event-IsCallOf :
    (crypto : Crypto) (inputs : ReceiptInputs) (e : RecordEvent)
    → build_event crypto inputs ≡ some e
    → IsCallOf crypto inputs e
unfolding build_event
build_event-IsCallOf crypto inputs e h = elim (Option-cases (args_hash crypto inputs.tool_args)) [
  | inl a ↦ ground (arith, h, a)
  | inr (args, a) ↦ elim (Option-cases (hash_result crypto inputs.tool_result)) [
    | inl b ↦ ground (arith, h, a, b)
    | inr (result, b) ↦
        let call : McpCallEvent = record {
          outcome = outcome_of inputs.decision;
          server = inputs.server;
          tool_name = inputs.tool_name;
          args_hash = args;
          result_hash = result;
          decision = some (decision_of inputs.decision);
          decision_source = some config;
        } in
        let made : mcp_call call ≡ e = ground (arith, h, a, b) in
        record {
          call = call;
          is_call = sym made;
          decision = refl;
          outcome = refl;
          source = refl;
          tool_name = refl;
          server = refl;
          arguments = a;
          no_result = λ n. hash_result-none crypto result (ap (hash_result crypto) (sym n) ∙ b);
          with_result =
              λ v n. hash_result-some crypto v result (ap (hash_result crypto) (sym n) ∙ b);
        }
  ]
]
