-- ===== src/Proxy/Denials.antt =====
-- What handleToolsCall of src/proxy.ts does with a call that is denied.
use chirindo.Prelude.{◌+◌, ◌≡◌, none, List, [], ◌∷◌, ◌++◌, ◌⊎◌, Text}
use chirindo.Record.File.{ChainLine}
use chirindo.Receipt
use chirindo.Rpc.{RequestId, deny_tool_result}
use chirindo.Proxy.State.{
  Deps, message, ReceiptArgs, Effect, to_client, wrote, not_written, log, denied, State,
  checkpoint_effects,
}
use chirindo.Proxy.Refuse.{Tool}
use chirindo.Proxy.Client.{deny}

module _ (deps : Deps) where
  pub deny_args : Tool → ReceiptArgs
  deny_args tool = record {
    decision = Receipt.deny;
    server = deps.server_label;
    tool_name = tool.tool_name;
    tool_args = tool.tool_args;
    tool_result = none;
  }

  -- The state `t` is `s` after the call `id` of `tool` was denied with `reason`: the client was answered
  -- first, and then a DENY receipt was tried.
  pub record IsDenied (reason : Text) (id : RequestId) (tool : Tool) (s t : State) : Type 0 where
    pub pending : t.pending_allows ≡ s.pending_allows
    pub tried : List Effect
    pub effects :
        t.effects
        ≡ log (denied tool.tool_name id)
          ∷ (tried ++ to_client (message (deny_tool_result id reason)) ∷ s.effects)
    pub outcome :
        ((tried ≡ not_written (deny_args tool) ∷ []) × (t.chain ≡ s.chain))
        ⊎ ((tried ≡ checkpoint_effects deps (s.receipt_count + 1) ++ wrote (deny_args tool) ∷ [])
            × ((l : ChainLine) × (t.chain ≡ s.chain ++ l ∷ [])))

  abbrev told : Text → RequestId → State → State
  told reason id s = record s {
    effects = to_client (message (deny_tool_result id reason)) ∷ s.effects;
  }

  -- The attempt to write the receipt and the line for stderr.
  logged : RequestId → Tool → State → State
  logged id tool t = record t { effects = log (denied tool.tool_name id) ∷ t.effects }
