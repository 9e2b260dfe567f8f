-- ===== src/Receipt.antt =====
-- src/receipt.ts: the signed records that the gate writes.
pub mod Event
pub mod Laws
use chirindo.Prelude.{
  ℕ, Bool, false, not, ◌&&◌, leb, if◌then◌else◌, Option, none, some, List, [], ◌∷◌, Text, codes,
  length,
}
use chirindo.Json.{Json, max_safe_integer}
use chirindo.Crypto.{Crypto}
use chirindo.Record.{
  record_version, executed, denied, config, Decision, AgentInfo, RecordEvent, mcp_call, permit, act,
  halt, RecordContent, SignedRecord,
}
use chirindo.Record
use chirindo.Record.Canon.{content_json}
use chirindo.Record.Hash.{
  args_hash, result_hash, request_commitment, entry_hash_of_canonical, genesis_prev_hash,
  rfc7638_thumbprint, default_issuer, is_payment_ref_format,
}
use chirindo.Record.File.{ChainLine, chain_of_lines}

-- The reason of a denial is in no receipt.
pub data GateDecision : Type 0 where
  allow deny : GateDecision

-- LoadedFullIdentity
pub record Identity : Type 0 where
  pub kid : Text
  pub public_key : Text
  pub private_key : Text

pub record Head : Type 0 where
  pub seq : ℕ
  pub prev_hash : Text

-- `ts` is the time written: inputs.ts, or the clock's.
pub record ReceiptInputs : Type 0 where
  pub session_id : Text
  pub identity : Identity
  pub agent : AgentInfo
  pub server : Text
  pub tool_name : Text
  pub tool_args : Json
  pub tool_result : Option Json
  pub jwks_uri : Option Text
  pub iss : Option Text
  pub x402_payment_ref : Option Text
  pub decision : GateDecision
  pub ts : Text
  pub head : Option Head
  pub check : Option Json

infixl 10 ◌>>=◌
abbrev ◌>>=◌ {ℓ κ} : {A : Type ℓ} {B : Type κ} → Option A → (A → Option B) → Option B
none >>= f = none
some a >>= f = f a

abbrev outcome_of : GateDecision → Record.Outcome
outcome_of allow = executed
outcome_of deny = denied

abbrev pub decision_of : GateDecision → Decision
decision_of allow = Record.allow
decision_of deny = Record.deny

abbrev result_of : GateDecision → Record.GateResult
result_of allow = act
result_of deny = halt

-- inputs.x402PaymentRef !== undefined && !isPaymentRefFormat(inputs.x402PaymentRef)
abbrev bad_payment_ref : Option Text → Bool
bad_payment_ref none = false
bad_payment_ref (some ref) = not (is_payment_ref_format ref)

abbrev or_default : Option Text → Text → Text
or_default (some t) other = t
or_default none other = other

module _ (crypto : Crypto) where
  open crypto use {canonicalize, sign}

  hash_result : Option Json → Option (Option Text)
  hash_result none = some none
  hash_result (some result) = do hash ← result_hash crypto result; some (some hash)

  unfoldable pub build_event : ReceiptInputs → Option RecordEvent
  unfolding hash_result
  build_event inputs = do
    args ← args_hash crypto inputs.tool_args
    result ← hash_result inputs.tool_result
    some (
        mcp_call (record {
          outcome = outcome_of inputs.decision;
          server = inputs.server;
          tool_name = inputs.tool_name;
          args_hash = args;
          result_hash = result;
          decision = some (decision_of inputs.decision);
          decision_source = some config;
        }))

  -- The hash that the record after `records` links to.
  unfoldable pub prev_hash_of : (session_id : Text) → List SignedRecord → Option Text
  prev_hash_of session_id [] = genesis_prev_hash crypto session_id record_version
  prev_hash_of session_id (r ∷ []) = do
    bytes ← canonicalize (content_json r.content)
    some (entry_hash_of_canonical crypto bytes)
  prev_hash_of session_id (r ∷ s ∷ records) = prev_hash_of session_id (s ∷ records)

  -- A head that the caller holds is checked; otherwise the chain file is read.
  unfoldable pub head_of : ReceiptInputs → List ChainLine → Option Head
  unfolding prev_hash_of
  head_of inputs lines = elim inputs.head [
    | some head ↦
        if leb head.seq max_safe_integer && is_payment_ref_format head.prev_hash
        then some head
        else none
    | none ↦ do
      file ← chain_of_lines lines
      prev ← prev_hash_of inputs.session_id file.records
      some (record { seq = length file.records; prev_hash = prev })
  ]

  -- The content with `gate_receipt` as given.
  unfoldable pub receipt_content :
      ReceiptInputs → Head → RecordEvent → Text → Text → Text → RecordContent
  receipt_content inputs head event commitment thumbprint gate_receipt = record {
    v = record_version;
    seq = head.seq;
    session_id = inputs.session_id;
    ts = inputs.ts;
    agent = inputs.agent;
    event = event;
    request_commitment = commitment;
    gate = some (record {
      request_commitment = commitment;
      gate_receipt = gate_receipt;
      gate_family = permit;
      result = result_of inputs.decision;
    });
    jwks_uri = inputs.jwks_uri;
    key_thumbprint = some thumbprint;
    iss = some (or_default inputs.iss (default_issuer crypto thumbprint inputs.jwks_uri));
    x402_payment_ref = inputs.x402_payment_ref;
    check = inputs.check;
    prev_hash = head.prev_hash;
    kid = inputs.identity.kid;
  }

  -- appendReceipt up to the write of the line: the record, or `none` for a throw.
  unfoldable pub append_receipt : ReceiptInputs → List ChainLine → Option SignedRecord
  unfolding head_of receipt_content build_event
  append_receipt inputs lines = if bad_payment_ref inputs.x402_payment_ref then none else do
    head ← head_of inputs lines
    event ← build_event inputs
    commitment ← request_commitment crypto event
    thumbprint ← rfc7638_thumbprint crypto inputs.identity.public_key
    let partial = receipt_content inputs head event commitment thumbprint
    provisional ← canonicalize (content_json (partial (codes "self")))
    let content = partial (entry_hash_of_canonical crypto provisional)
    canon ← canonicalize (content_json content)
    some (record { content = content; sig = sign inputs.identity.private_key canon })
