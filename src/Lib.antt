-- ===== src/Lib.antt =====
-- Chirindo: a gate between an MCP client and one downstream server, and the evidence that it writes.
--
-- The proxy (src/proxy.ts) reads JSON-RPC lines from the client and the downstream server. A tools/call
-- is tested, decided by a policy, and let through or denied; each decision becomes a signed receipt
-- (src/receipt.ts) in an append-only chain file (src/vendor/recorder), which anyone can verify
-- (src/vendor/recorder/cli/verify.ts).
--
-- Prelude: numbers, lists and texts; a text is the list of its UTF-16 code units.
-- Json: the values of JSON.parse; Json.Measure: the two walks of src/rpc.ts over a value.
-- Js, Crypto: what the program takes from its runtime, from node:crypto and from the canonicalize
--   package. They are parameters, with no laws; a theorem that needs one names it.
-- Names: src/member-names.ts. Fold has the case folding, Method the names of tools/call, Scan the
--   readers over the text of a line, Readers the other readers that the gate guards against.
-- Strict: src/vendor/recorder/strict-json.ts, the scan for duplicate members and unsafe integers.
-- Policy: src/policy.ts, with evaluate as `evaluate` and toolNameProblem as `tool_name_problem`.
-- Record: src/vendor/recorder/record.ts; Canon has the values that are hashed (contentOf,
--   requestDescriptor), Hash hash.ts and the key names of identity.ts, File the chain files of io.ts as
--   their lines, which is what the other parts hold of a chain file, and Lines as texts.
-- Receipt: src/receipt.ts, with appendReceipt as `append_receipt`.
-- Rpc: src/rpc.ts; Rpc.Lines has splitLines.
-- Proxy: src/proxy.ts. State has the state of runProxy, its effects and writeReceiptSafely, Refuse the
--   refusals, Client handleClientLine, gateToolsCall, handleToolsCall and decide, Downstream
--   handleDownstreamLine, Run any order of chunks. A handler is a function from the state to a result
--   and the new state, and a throw keeps what was done before it. Quiet, Forwards, Gated and Sound
--   carry the invariant of a run, Actions the handlers as steps of a relation on the state, Answers
--   and Denials single lines, Evidence the chain file that a run leaves.
-- Verify: src/vendor/recorder/cli/verify.ts, with verifyChain as `verify_chain` in Scan.
-- Chain: src/vendor/recorder/chain.ts, the chain that a recorder holds in memory.
-- Checkpoint: src/checkpoint.ts, with buildCheckpoint and buildCheckpointFromHead, and ProxyCheckpointer in
--   Driver, whose state holds the callbacks of setImmediate and the jobs of the promise queue.
-- Trial: src/trial/rules.ts. Pointer has the pointers and patterns, Order orderFailure, Screen
--   hasCardToken and luhn, Fields and Format the other rules, Input checkRecordInput.
-- Purchase: src/purchase. Time has time.ts, Jcs, Card and M6 m6.ts with jcs, checkCard and m6Check. Of
--   limits.ts, Rows has the rows of cardLimitsOf, Limits cardLimitsOf and judgeLimits, Judge the order
--   side and judgeInput. Open has the variables of an open check of check.ts, Write and Gate what write
--   and check do to them, Rebuild how they are rebuilt from records. The receipts of a check are
--   Receipt's, with the head that the check holds.
-- Samples: concrete inputs of the theorems.
--
-- Numbers of the source are doubles: an integer is an exact number here, and Json.Number keeps the
-- values that are no integers apart. The policy, the clock and the failures of file writes are
-- functions of the number of the load or of the attempt, so that they may differ each time; in a
-- purchase check they are an argument of each call.
--
-- Loops over a value have its size as fuel, as each turn takes a value off, and the scan of Strict and
-- the readers of Names.Scan one more than the length of the text, as each turn takes a character. A
-- reader of Names.Scan out of fuel is as one that throws: that it never is so is not shown. The
-- verifier's loop, the lines and the batch are recursions on their lists.
--
-- Not modelled: the process that is spawned and its exit, signals and stream decoding, the wording of
-- the lines for stderr, the calls of the checkpointer by the proxy and by the purchase check, the answers
-- of a witness (src/witness.ts), payments (src/payment.ts), the command line, the resolution of keys by
-- JWKS, the reads and writes of files, the services of src/issuer, and of src/trial all but its rules. Of
-- src/purchase are left the strict parser, whose result is an argument of `judge_input`, the HTTP layer,
-- the mappers, the lock and the opening of the directory, and the checkpointer that a record wakes. An
-- order or an input is a value of JSON: what src/trial/rules.ts and src/purchase/limits.ts do with
-- getters, prototypes, symbols and holes of other JavaScript values is left.
pub mod Prelude
pub mod Json
pub mod Js
pub mod Names
pub mod Strict
pub mod Policy
pub mod Crypto
pub mod Record
pub mod Receipt
pub mod Rpc
pub mod Proxy
pub mod Trial
pub mod Purchase
pub mod Verify
pub mod Chain
pub mod Checkpoint
pub mod Samples
