-- ===== src/Proxy/Answers.antt =====
-- What a single line of the downstream server comes to in src/proxy.ts.
use chirindo.Prelude.{
  ◌≡◌, refl, true, false, Option-cases, Bool-cases, Option, none, some, List, [], ◌∷◌, ◌++◌, ◌+◌,
  Text, arith, inl, inr, ◌⊎◌,
}
use chirindo.Json.{Json}
use chirindo.Record.File.{of_record}
use chirindo.Record.{McpCallEvent, mcp_call, SignedRecord}
use chirindo.Record
use chirindo.Record.Hash.{args_hash, result_hash}
use chirindo.Receipt.{append_receipt}
use chirindo.Receipt.Laws.{append_receipt-IsCallOf}
use chirindo.Receipt
use chirindo.Rpc.{RequestId, deny_tool_result}
use chirindo.Proxy.State.{
  Deps, PendingAllow, line, message, ReceiptArgs, log, unparseable_downstream_line, to_client,
  wrote, not_written, State, pending_get, pending_has, pending_delete, checkpoint_effects,
  receipt_inputs, written_chain, on_written, write_receipt_safely,
}
use chirindo.Proxy.Downstream.{
  response_id, response_result, pending_of, withheld_text, deliver, delete_pending, answer_pending,
  answer, on_response, handle_downstream_line,
}

pending_has-delete_same :
    (id : RequestId) (pending : List (RequestId × PendingAllow))
    → pending_has id (pending_delete id pending) ≡ false
unfolding pending_has pending_delete
pending_has-delete_same id [] = refl
pending_has-delete_same id ((j, p) ∷ pending) = ground (arith, pending_has-delete_same id pending)

module _ (deps : Deps) where
  open deps use {js}

  -- What is to be recorded of the response `v` to the pending call `p`.
  pub allow_args : PendingAllow → Json → ReceiptArgs
  allow_args p v = record {
    decision = Receipt.allow;
    server = p.server;
    tool_name = p.tool_name;
    tool_args = p.tool_args;
    tool_result = response_result v;
  }

  -- A record that appendReceipt makes for that: an ALLOW receipt of the call and of its result.
  pub record IsAllowReceipt (p : PendingAllow) (v : Json) (s : State) (r : SignedRecord)
      : Type 0 where
    pub made :
        append_receipt deps.crypto (receipt_inputs deps (allow_args p v) s.attempts) s.chain
        ≡ some r
    pub call : McpCallEvent
    pub is_call : r.event ≡ mcp_call call
    pub decision : call.decision ≡ some Record.allow
    pub tool_name : call.tool_name ≡ p.tool_name
    pub server : call.server ≡ p.server
    pub arguments : args_hash deps.crypto p.tool_args ≡ some call.args_hash
    pub result :
        (result : Json)
        → response_result v ≡ some result
        → (hash : Text) × (result_hash deps.crypto result ≡ some hash)
          × (call.result_hash ≡ some hash)

  -- The result goes to the client only after its ALLOW receipt, now the last line of the chain file;
  -- where the receipt cannot be made or written an error with the call's id goes in its place.
  pub data Answer (text : Text) (v : Json) (id : RequestId) (p : PendingAllow) (s t : State)
      : Type 0 where
    delivered :
        (r : SignedRecord)
        → IsAllowReceipt p v s r
        → deps.io_fails s.attempts ≡ false
        → t.chain ≡ s.chain ++ of_record r ∷ []
        → t.effects
          ≡ to_client (line text)
            ∷ (checkpoint_effects deps (s.receipt_count + 1) ++ wrote (allow_args p v) ∷ s.effects)
        → Answer text v id p s t
    withheld :
        (append_receipt deps.crypto (receipt_inputs deps (allow_args p v) s.attempts) s.chain
            ≡ none)
          ⊎ (deps.io_fails s.attempts ≡ true)
        → t.chain ≡ s.chain
        → t.effects
          ≡ to_client (message (deny_tool_result id withheld_text))
            ∷ not_written (allow_args p v)
            ∷ s.effects
        → Answer text v id p s t

  receipt-IsAllowReceipt :
      (p : PendingAllow) (v : Json) (s : State) (r : SignedRecord)
      → append_receipt deps.crypto (receipt_inputs deps (allow_args p v) s.attempts) s.chain
        ≡ some r
      → IsAllowReceipt p v s r
  unfolding receipt_inputs allow_args
  receipt-IsAllowReceipt p v s r h =
      let c =
        append_receipt-IsCallOf deps.crypto (receipt_inputs deps (allow_args p v) s.attempts)
          s.chain r h in
      record {
        made = h;
        call = c.call;
        is_call = c.is_call;
        decision = c.decision;
        tool_name = c.tool_name;
        server = c.server;
        arguments = c.arguments;
        result = c.with_result;
      }

  -- The state in which the receipt is written.
  abbrev answered : State → RequestId → State
  answered s id = record s { pending_allows = pending_delete id s.pending_allows }

  written_chain-some :
      (args : ReceiptArgs) (s : State) (r : SignedRecord)
      → append_receipt deps.crypto (receipt_inputs deps args s.attempts) s.chain ≡ some r
      → deps.io_fails s.attempts ≡ false
      → written_chain deps args s ≡ some (s.chain ++ of_record r ∷ [])
  unfolding written_chain
  written_chain-some args s r a w = ground (arith, a, w)

  written_chain-none :
      (args : ReceiptArgs) (s : State)
      → (append_receipt deps.crypto (receipt_inputs deps args s.attempts) s.chain ≡ none)
        ⊎ (deps.io_fails s.attempts ≡ true)
      → written_chain deps args s ≡ none
  unfolding written_chain
  written_chain-none args s (inl a) = ground (arith, a)
  written_chain-none args s (inr f) =
      elim (Option-cases
        (append_receipt deps.crypto (receipt_inputs deps args s.attempts) s.chain)) [
          | inl a ↦ ground (arith, a)
          | inr (r, a) ↦ ground (arith, a, f)
        ]

  IsTold : (text : Text) (v : Json) (id : RequestId) (p : PendingAllow) (s t : State) → Type 0
  IsTold text v id p s t = Answer text v id p s t × (pending_has id t.pending_allows ≡ false)

  withheld-IsTold :
      (text : Text) (v : Json) (id : RequestId) (p : PendingAllow) (s : State)
      → (append_receipt deps.crypto (receipt_inputs deps (allow_args p v) s.attempts) s.chain
          ≡ none)
        ⊎ (deps.io_fails s.attempts ≡ true)
      → written_chain deps (allow_args p v) (answered s id) ≡ none
      → IsTold text v id p s (answer_pending deps text v id p s).1
  unfolding answer_pending delete_pending write_receipt_safely on_written deliver allow_args IsTold
  withheld-IsTold text v id p s why e =
      rw e (withheld why refl refl, pending_has-delete_same id s.pending_allows)

  delivered-IsTold :
      (text : Text) (v : Json) (id : RequestId) (p : PendingAllow) (s : State) (r : SignedRecord)
      → IsAllowReceipt p v s r
      → deps.io_fails s.attempts ≡ false
      → written_chain deps (allow_args p v) (answered s id) ≡ some (s.chain ++ of_record r ∷ [])
      → IsTold text v id p s (answer_pending deps text v id p s).1
  unfolding answer_pending delete_pending write_receipt_safely on_written deliver allow_args IsTold
  delivered-IsTold text v id p s r k w e =
      rw e (delivered r k w refl refl, pending_has-delete_same id s.pending_allows)

  answer_pending-IsTold :
      (text : Text) (v : Json) (id : RequestId) (p : PendingAllow) (s : State)
      → IsTold text v id p s (answer_pending deps text v id p s).1
  answer_pending-IsTold text v id p s =
      let args = allow_args p v in
      elim (Option-cases
        (append_receipt deps.crypto (receipt_inputs deps args s.attempts) s.chain)) [
          | inl a ↦
              withheld-IsTold text v id p s (inl a)
                (written_chain-none args (answered s id) (inl a))
          | inr (r, a) ↦ elim (Bool-cases (deps.io_fails s.attempts)) [
            | inl f ↦
                withheld-IsTold text v id p s (inr f)
                  (written_chain-none args (answered s id) (inr f))
            | inr w ↦
                delivered-IsTold text v id p s r (receipt-IsAllowReceipt p v s r a) w
                  (written_chain-some args (answered s id) r a w)
          ]
        ]

-- The state `t` is `s` after the line `text`, which answers no pending call, went to the client as it
-- came.
pub record IsPassed (deps : Deps) (text : Text) (s t : State) : Type 0 where
  pub other :
      (v : Json) → deps.js.parse text ≡ some v → pending_of (response_id v) s.pending_allows ≡ none
  pub chain : t.chain ≡ s.chain
  pub pending : t.pending_allows ≡ s.pending_allows
  pub count : t.receipt_count ≡ s.receipt_count
  pub shown :
      (t.effects ≡ to_client (line text) ∷ s.effects)
      ⊎ (t.effects ≡ log unparseable_downstream_line ∷ to_client (line text) ∷ s.effects)

-- The line `text` answers the pending call `call`, which is settled in the state `t` after `s`.
pub record IsAnswered (deps : Deps) (text : Text) (s t : State) : Type 0 where
  pub value : Json
  pub id : RequestId
  pub call : PendingAllow
  pub read : deps.js.parse text ≡ some value
  pub named : response_id value ≡ some id
  pub found : pending_get id s.pending_allows ≡ some call
  pub answer : Answer deps text value id call s t
  pub settled : pending_has id t.pending_allows ≡ false

module _ (deps : Deps) (text : Text) (s : State) where
  answer-outcome :
      (v : Json) (id : Option RequestId) (p : Option PendingAllow)
      → deps.js.parse text ≡ some v
      → response_id v ≡ id
      → pending_of id s.pending_allows ≡ p
      → let t = (answer deps text v id p s).1 in IsPassed deps text s t ⊎ IsAnswered deps text s t
  unfolding answer pending_of IsTold
  answer-outcome v (some id) (some p) read named found =
      let (told, settled) = answer_pending-IsTold deps text v id p s in
      inr (record {
        value = v;
        id = id;
        call = p;
        read = read;
        named = named;
        found = found;
        answer = told;
        settled = settled;
      })
  answer-outcome v none p read named found = inl (record {
    other = λ w e. ground (arith, read, named, e);
    chain = refl;
    pending = refl;
    count = refl;
    shown = inl refl;
  })
  answer-outcome v (some id) none read named found = inl (record {
    other = λ w e. let same : v ≡ w = ground (arith, read, e) in rw (← same, named) found;
    chain = refl;
    pending = refl;
    count = refl;
    shown = inl refl;
  })

  on_response-outcome :
      (r : Option Json)
      → deps.js.parse text ≡ r
      → let t = (on_response deps r text s).1 in IsPassed deps text s t ⊎ IsAnswered deps text s t
  unfolding on_response
  on_response-outcome none read = inl (record {
    other = λ w e. ground (arith, read, e);
    chain = refl;
    pending = refl;
    count = refl;
    shown = inr refl;
  })
  on_response-outcome (some v) read = answer-outcome v (response_id v) _ read refl refl

-- A downstream line that is a response to a pending call, with the result in it as it came, reaches
-- the client only with an ALLOW receipt of the call and of that result as the new last line of the
-- chain file; where the receipt cannot be made or written an error with the id of the call goes to
-- the client in its place and the file is as it was; in either case the call is pending no longer.
-- Any other line, for it is no JSON, has no usable id or one that is not pending, goes to the client
-- as it came, and changes neither the chain file, the pending calls nor the number of receipts.
pub response_needs_receipt :
    (deps : Deps) (text : Text) (s : State)
    → let t = (handle_downstream_line deps text s).1 in
      IsPassed deps text s t ⊎ IsAnswered deps text s t
unfolding handle_downstream_line
response_needs_receipt deps text s = on_response-outcome deps text s (deps.js.parse text) refl
