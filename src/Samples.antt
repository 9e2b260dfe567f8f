-- ===== src/Samples.antt =====
-- Concrete inputs of the theorems: a runtime, a key, a proxy, a policy and a chain of one receipt.
pub mod Chains
pub mod Closings
pub mod Gates
pub mod Memory
pub mod Orders
pub mod Purchases
use chirindo.Prelude.{
  true, false, ◌==◌, Option, none, some, [], ◌∷◌, ◌++◌, Text, codes, text_eq, pos, map,
}
use chirindo.Json.{Json, num, int, str, obj, Members, end, member, get}
use chirindo.Js.{Js}
use chirindo.Names.Fold.Laws.{ascii_lower}
use chirindo.Crypto.{Crypto}
use chirindo.Policy.{Policy}
use chirindo.Record.{
  SignedRecord, mcp_call, executed, config, permit, act, record_version_v1, AgentInfo,
}
use chirindo.Record
use chirindo.Receipt.{Identity, ReceiptInputs, allow}
use chirindo.Proxy.State.{Deps, policy}
use chirindo.Verify.{VerifyControls, flag, default_max_skew_ms}

-- A call of the tool "ls", with the id 1.
abbrev pub call : Members
call = member (codes "method") (str (codes "tools/call")) (
    member (codes "id") (num (int (pos 1)))
      (member (codes "params") (obj (member (codes "name") (str (codes "ls")) end)) end))

-- A runtime that knows the case of ASCII letters, and whose JSON.parse reads that call in every line.
abbrev pub js : Js
js = record {
  to_upper = λ t. t;
  to_lower = λ t. map ascii_lower t;
  white_space = λ c. c == 32;
  control_or_format = λ c. false;
  trimmed = λ c. c == 32;
  to_string = λ v. [];
  template = λ v. some [];
  parse = λ t. some (obj call);
}

-- The text at `prev_hash`, which stands for the canonical bytes.
abbrev pub text_of : Option Json → Text
text_of (some (str t)) = t
text_of _ = []

abbrev pub link_of : Json → Text
link_of (obj ms) = text_of (get (codes "prev_hash") ms)
link_of _ = []

-- A hash that keeps all, and signatures that repeat the message.
abbrev pub crypto : Crypto
crypto = record {
  canonicalize = λ v. some (link_of v);
  sha256_hex = λ t. t;
  sha256_base64url = λ t. t;
  sign = λ k m. m;
  verify = λ k m s. text_eq m s;
  public_of = λ k. k;
  raw_key = λ k. k;
  key_x = λ k. k;
  url = λ u. none;
  date_ms = λ t. some 0;
}

abbrev pub identity : Identity
identity = record { kid = []; public_key = codes "k"; private_key = codes "k" }

abbrev pub agent : AgentInfo
agent = record { vendor = codes "gate"; version = codes "1" }

abbrev pub rules : Policy
rules = record { deny = record { tool = codes "rm"; server = none; reason = none } ∷ [] }

abbrev pub deps : Deps
deps = record {
  js = js;
  crypto = crypto;
  identity = identity;
  agent = agent;
  session_id = codes "s";
  server_label = codes "fs";
  jwks_uri = none;
  allow_nonstandard_tool_names = false;
  checkpointing = true;
  load_policy = λ n. policy rules;
  now = λ n. codes "t";
  io_fails = λ n. false;
}

abbrev pub inputs : ReceiptInputs
inputs = record {
  session_id = codes "s";
  identity = identity;
  agent = agent;
  server = codes "fs";
  tool_name = codes "ls";
  tool_args = obj end;
  tool_result = some (str (codes "a"));
  jwks_uri = none;
  iss = none;
  x402_payment_ref = none;
  decision = allow;
  ts = codes "t";
  head = none;
  check = none;
}

abbrev pub hash : Text → Text
hash t = codes "sha256:" ++ t

-- The first receipt of the session, for `inputs`.
abbrev pub receipt : SignedRecord
receipt = record {
  content = record {
    v = record_version_v1;
    seq = 0;
    session_id = codes "s";
    ts = codes "t";
    agent = agent;
    event = mcp_call (record {
      outcome = executed;
      server = codes "fs";
      tool_name = codes "ls";
      args_hash = hash [];
      result_hash = some (hash []);
      decision = some Record.allow;
      decision_source = some config;
    });
    request_commitment = hash [];
    gate = some (record {
      request_commitment = hash [];
      gate_receipt = hash (hash []);
      gate_family = permit;
      result = act;
    });
    jwks_uri = none;
    key_thumbprint = some [];
    iss = some (codes "urn:chirindo:key:");
    x402_payment_ref = none;
    check = none;
    prev_hash = hash [];
    kid = [];
  };
  sig = hash [];
}

abbrev pub controls : VerifyControls
controls = record {
  max_skew_ms = default_max_skew_ms;
  expect_thumbprints = [] ∷ [];
  key_source = flag;
  key_origin = codes "key.json";
}
