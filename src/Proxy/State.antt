-- ===== src/Proxy/State.antt =====
-- The state that runProxy of src/proxy.ts keeps, and its actions on the outside. A handler is a
-- function from the state to a result and the new state; `none` is a throw, after which what was
-- done before it stays done.
use chirindo.Prelude.{
  ℕ, suc, ◌+◌, Bool, true, false, ◌||◌, if◌then◌else◌, Option, none, some, List, [], ◌∷◌, ◌++◌,
  Text,
}
use chirindo.Json.{Json}
use chirindo.Js.{Js}
use chirindo.Crypto.{Crypto}
use chirindo.Policy.{Policy}
use chirindo.Record.{AgentInfo}
use chirindo.Record.File.{ChainLine, append_record_line}
use chirindo.Receipt.{GateDecision, Identity, ReceiptInputs, append_receipt}
use chirindo.Rpc.{RequestId, id_eq}

-- What deps.loadPolicy() comes to: a policy, null, or a throw.
pub data Supply : Type 0 where
  policy : Policy → Supply
  null_policy : Supply
  throws : (message : Text) → Supply

-- ProxyDeps, with what differs from call to call as a function of the number of the call: the policy
-- (it is read again for each tools/call), the clock, and whether a write of the chain file fails.
pub record Deps : Type 0 where
  pub js : Js
  pub crypto : Crypto
  pub identity : Identity
  pub agent : AgentInfo
  pub session_id : Text
  pub server_label : Text
  pub jwks_uri : Option Text
  pub allow_nonstandard_tool_names : Bool
  pub checkpointing : Bool
  pub load_policy : ℕ → Supply
  pub now : ℕ → Text
  pub io_fails : ℕ → Bool

-- PendingAllow; the request itself is not read again.
pub record PendingAllow : Type 0 where
  pub tool_args : Json
  pub server : Text
  pub tool_name : Text

-- A line written to a stream: a text as it came, or a message encoded by JSON.stringify.
pub data Frame : Type 0 where
  line : Text → Frame
  message : Json → Frame

-- What writeReceiptSafely is asked to record.
pub record ReceiptArgs : Type 0 where
  pub decision : GateDecision
  pub server : Text
  pub tool_name : Text
  pub tool_args : Json
  pub tool_result : Option Json

-- A stderr line, by what it reports. The wording is not modelled.
pub data Log : Type 0 where
  client_line_dropped downstream_line_dropped : Log
  refused_call refused_message : Text → Option RequestId → Log
  refused_batch : (elements calls written : ℕ) → Log
  refused_line : Log
  denied allowed : Text → RequestId → Log
  unparseable_downstream_line : Log

pub data Effect : Type 0 where
  to_downstream : Frame → Effect
  to_client : Frame → Effect
  wrote : ReceiptArgs → Effect
  -- the stderr line of a receipt that was not written
  not_written : ReceiptArgs → Effect
  -- checkpointer.afterReceipt(receiptCount)
  after_receipt : ℕ → Effect
  log : Log → Effect

-- `effects` holds what was done so far, the newest first. `attempts` and `loads` number the receipt
-- writes and the policy loads.
pub record State : Type 0 where
  pub pending_allows : List (RequestId × PendingAllow)
  pub receipt_count : ℕ
  pub chain : List ChainLine
  pub client_stdin_buf : Text
  pub down_stdout_buf : Text
  pub attempts : ℕ
  pub loads : ℕ
  pub effects : List Effect

abbrev pub Gate : Type 0 → Type 0
Gate A = State → Option A × State

abbrev pub continue : {A B : Type 0} → Option A → (A → Gate B) → Gate B
continue none f s = (none, s)
continue (some a) f s = f a s

infixl 5 ◌>>=◌ ◌>>◌
abbrev pub ◌>>=◌ : {A B : Type 0} → Gate A → (A → Gate B) → Gate B
◌>>=◌ m f s = let (r, s') = m s in continue r f s'

abbrev pub ◌>>◌ : {B : Type 0} → Gate (Unit {0}) → Gate B → Gate B
m >> k = m >>= λ _. k

abbrev pub pure : {A : Type 0} → A → Gate A
pure a s = (some a, s)

-- A reader that may throw.
abbrev pub lift : {A : Type 0} → Option A → Gate A
lift o s = (o, s)

abbrev pub emit : Effect → Gate (Unit {0})
emit e s = (some tt, record s { effects = e ∷ s.effects })

-- pendingAllows.has(id), pendingAllows.get(id), pendingAllows.delete(id)
unfoldable pub pending_get : RequestId → List (RequestId × PendingAllow) → Option PendingAllow
pending_get id [] = none
pending_get id ((j, p) ∷ pending) = if id_eq j id then some p else pending_get id pending

unfoldable pub pending_has : RequestId → List (RequestId × PendingAllow) → Bool
pending_has id [] = false
pending_has id ((j, p) ∷ pending) = id_eq j id || pending_has id pending

unfoldable pub pending_delete :
    RequestId → List (RequestId × PendingAllow) → List (RequestId × PendingAllow)
pending_delete id [] = []
pending_delete id ((j, p) ∷ pending) =
    let rest = pending_delete id pending in if id_eq j id then rest else (j, p) ∷ rest

-- pendingAllows.set(id, p)
unfoldable pub pending_set :
    RequestId → PendingAllow → List (RequestId × PendingAllow) → List (RequestId × PendingAllow)
unfolding pending_delete
pending_set id p pending = (id, p) ∷ pending_delete id pending

module _ (deps : Deps) where
  unfoldable pub receipt_inputs : ReceiptArgs → ℕ → ReceiptInputs
  receipt_inputs args attempt = record {
    session_id = deps.session_id;
    identity = deps.identity;
    agent = deps.agent;
    server = args.server;
    tool_name = args.tool_name;
    tool_args = args.tool_args;
    tool_result = args.tool_result;
    jwks_uri = deps.jwks_uri;
    iss = none;
    x402_payment_ref = none;
    decision = args.decision;
    ts = deps.now attempt;
    head = none;
    check = none;
  }

  unfoldable pub checkpoint_effects : ℕ → List Effect
  checkpoint_effects count = if deps.checkpointing then after_receipt count ∷ [] else []

  -- The chain after an attempt to write a receipt, if it succeeds.
  unfoldable pub written_chain : ReceiptArgs → State → Option (List ChainLine)
  unfolding receipt_inputs
  written_chain args s =
      elim (append_receipt deps.crypto (receipt_inputs args s.attempts) s.chain) [
        | none ↦ none
        | some r ↦ if deps.io_fails s.attempts then none else some (append_record_line s.chain r)
      ]

  -- The end of an attempt, by whether it gave a new chain.
  unfoldable pub on_written : Option (List ChainLine) → ReceiptArgs → Gate Bool
  unfolding checkpoint_effects
  on_written (some chain) args s =
      let count = s.receipt_count + 1 in
      (
        some true,
        record s {
          chain = chain;
          receipt_count = count;
          attempts = suc s.attempts;
          effects = checkpoint_effects count ++ wrote args ∷ s.effects;
        },
      )
  on_written none args s =
      (some false, record s { attempts = suc s.attempts; effects = not_written args ∷ s.effects })

  unfoldable pub write_receipt_safely : ReceiptArgs → Gate Bool
  unfolding on_written
  write_receipt_safely args s = on_written (written_chain args s) args s
