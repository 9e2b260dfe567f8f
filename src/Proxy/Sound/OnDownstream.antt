-- ===== src/Proxy/Sound/OnDownstream.antt =====
-- The downstream's side of src/proxy.ts under the invariant of Sound.antt.
use chirindo.Prelude.{
  suc, ◌+◌, ◌≡◌, refl, ap, Bool, true, false, Option, none, some, List, [], ◌∷◌, Text, arith,
  Bool-cases, inl, inr, ◌↔◌, length, text_eq_iff, int_eq_iff,
}
use chirindo.Json.{Json}
use chirindo.Rpc.{RequestId, text, number, id_eq}
use chirindo.Rpc.Lines.{split_lines}
use chirindo.Record.File.{ChainLine}
use chirindo.Receipt
use chirindo.Proxy.State.{
  Deps, PendingAllow, line, ReceiptArgs, State, continue, downstream_line_dropped,
  unparseable_downstream_line, pending_get, pending_has, pending_delete, write_receipt_safely,
  on_written, written_chain,
}
use chirindo.Proxy.Client.{caught, is_blank}
use chirindo.Proxy.Downstream.{
  response_id, response_result, pending_of, answer_pending, delete_pending, on_response, answer,
  deliver, handle_downstream_line, downstream_lines, on_downstream_chunk,
}
use chirindo.Proxy.Quiet.{
  Quiet, passage, Quiet-to_client, Quiet-log, quiet_rules, Quiet-continue, Quiet-bind,
}
use chirindo.Proxy.Sound.{DistinctIds, IsSound, Quiet-IsSound}
use chirindo.Proxy.Sound.OnClient.{pending_delete-fresh, caught-IsSound}

pub id_eq_iff : (a b : RequestId) → (id_eq a b ≡ true) ↔ (a ≡ b)
unfolding id_eq
id_eq_iff (text s) (text t) = ground (arith, text_eq_iff s t)
id_eq_iff (number m) (number n) = ground (arith, int_eq_iff m n)
id_eq_iff (text s) (number n) = ground arith
id_eq_iff (number m) (text t) = ground arith

length-pending_delete :
    (id : RequestId) (pending : List (RequestId × PendingAllow)) (p : PendingAllow)
    → DistinctIds pending
    → pending_get id pending ≡ some p
    → suc (length (pending_delete id pending)) ≡ length pending
unfolding pending_get pending_delete
length-pending_delete id [] p d h = cc
length-pending_delete id ((j, q) ∷ pending) p (fresh, d) h = elim (Bool-cases (id_eq j id)) [
  | inl same ↦
      let fresh' : pending_has id pending ≡ false = rw (← (id_eq_iff j id).0 same) fresh in
      rw same (
        ap (λ (l : List (RequestId × PendingAllow)). suc (length l))
          (pending_delete-fresh id pending fresh'))
  | inr other ↦ ground (arith, length-pending_delete id pending p d)
]

pending_has-delete :
    (j id : RequestId) (pending : List (RequestId × PendingAllow))
    → pending_has j pending ≡ false
    → pending_has j (pending_delete id pending) ≡ false
unfolding pending_has pending_delete
pending_has-delete j id [] h = refl
pending_has-delete j id ((i, q) ∷ pending) h = ground (arith, pending_has-delete j id pending)

DistinctIds-delete :
    (id : RequestId) (pending : List (RequestId × PendingAllow))
    → DistinctIds pending
    → DistinctIds (pending_delete id pending)
unfolding pending_delete
DistinctIds-delete id [] d = tt
DistinctIds-delete id ((j, q) ∷ pending) (fresh, d) = elim (Bool-cases (id_eq j id)) [
  | inl same ↦ rw same (DistinctIds-delete id pending d)
  | inr other ↦ rw other (pending_has-delete j id pending fresh, DistinctIds-delete id pending d)
]

module _ (deps : Deps) where
  open deps use {js}

  -- The receipt of an allowed call, written or not, keeps the pending calls and what was sent.
  Written : ReceiptArgs → State → State → Type 0
  Written args s t =
      (t.pending_allows ≡ s.pending_allows)
      × ((passage t.effects).sent ≡ (passage s.effects).sent)
      × (t.loads ≡ s.loads)
      × (length (passage t.effects).allowed + length (passage t.effects).withheld
          ≡ suc (length (passage s.effects).allowed + length (passage s.effects).withheld))

  on_written-Written :
      (chain : Option (List ChainLine)) (checkpointing : Bool) (args : ReceiptArgs) (s : State)
      → deps.checkpointing ≡ checkpointing
      → args.decision ≡ Receipt.allow
      → Written args s (on_written deps chain args s).1
  unfolding Written on_written passage
  on_written-Written none c args s on e = rw e (refl, refl, refl, omega arith)
  on_written-Written (some chain) true args s on e = rw (on, e) (refl, refl, refl, omega arith)
  on_written-Written (some chain) false args s on e = rw (on, e) (refl, refl, refl, omega arith)

  write-Written :
      (args : ReceiptArgs) (s : State)
      → args.decision ≡ Receipt.allow
      → Written args s (write_receipt_safely deps args s).1
  unfolding write_receipt_safely
  write-Written args s e = on_written-Written (written_chain deps args s) _ args s refl e

  after_write :
      (t : Text) (id : RequestId) (p : PendingAllow) (s s' : State) (args : ReceiptArgs)
      → pending_get id s.pending_allows ≡ some p
      → Written args (record s { pending_allows = pending_delete id s.pending_allows }) s'
      → IsSound deps s
      → IsSound deps s'
  unfolding Written
  after_write t id p s s' args h (kept, sent, loaded, counted) k = record {
    let_through = rw (sent, loaded) k.let_through;
    accounted =
        rw (sent, kept)
          (ground (
            arith,
            k.accounted,
            counted,
            length-pending_delete id s.pending_allows p k.distinct h,
          ));
    distinct = rw kept (DistinctIds-delete id s.pending_allows k.distinct);
  }

  -- What follows the attempt.
  Quiet-delivery :
      (id : RequestId) (t : Text) (ok : Option Bool) → Quiet (continue ok (deliver deps id t))
  unfolding deliver
  Quiet-delivery id t ok = search (quiet_rules, Quiet-continue)

  answer_pending-IsSound :
      (t : Text) (v : Json) (id : RequestId) (p : PendingAllow) (s : State)
      → pending_get id s.pending_allows ≡ some p
      → IsSound deps s
      → IsSound deps (answer_pending deps t v id p s).1
  unfolding answer_pending delete_pending
  answer_pending-IsSound t v id p s h k =
      let args : ReceiptArgs = record {
        decision = Receipt.allow;
        server = p.server;
        tool_name = p.tool_name;
        tool_args = p.tool_args;
        tool_result = response_result v;
      } in
      let s₁ : State = record s { pending_allows = pending_delete id s.pending_allows } in
      let (ok, s₂) = write_receipt_safely deps args s₁ in
      Quiet-IsSound deps _ (Quiet-delivery id t ok) s₂
        (after_write t id p s s₂ args h (write-Written args s₁ refl) k)

  answer-IsSound :
      (t : Text) (v : Json) (s : State)
      → IsSound deps s
      → (id : Option RequestId) (p : Option PendingAllow) → pending_of id s.pending_allows ≡ p
      → IsSound deps (answer deps t v id p s).1
  unfolding answer pending_of
  answer-IsSound t v s k (some id) (some p) e = answer_pending-IsSound t v id p s e k
  answer-IsSound t v s k none p e = Quiet-IsSound deps _ (Quiet-to_client (line t)) s k
  answer-IsSound t v s k (some id) none e = Quiet-IsSound deps _ (Quiet-to_client (line t)) s k

  on_response-IsSound :
      (r : Option Json) (t : Text) (s : State)
      → IsSound deps s
      → IsSound deps (on_response deps r t s).1
  unfolding on_response
  on_response-IsSound none t s k =
      Quiet-IsSound deps _
        (Quiet-bind _ _ (Quiet-to_client (line t)) (λ u. Quiet-log unparseable_downstream_line)) s k
  on_response-IsSound (some v) t s k = answer-IsSound t v s k (response_id v) _ refl

  handle_downstream_line-IsSound :
      (t : Text) (s : State) → IsSound deps s → IsSound deps (handle_downstream_line deps t s).1
  unfolding handle_downstream_line
  handle_downstream_line-IsSound t s k = on_response-IsSound (js.parse t) t s k

  downstream_lines-IsSound :
      (ls : List Text) (s : State) → IsSound deps s → IsSound deps (downstream_lines deps ls s)
  unfolding downstream_lines
  downstream_lines-IsSound [] s k = k
  downstream_lines-IsSound (l ∷ ls) s k = elim (Bool-cases (is_blank deps l)) [
    | inl blank ↦ rw blank (downstream_lines-IsSound ls s k)
    | inr filled ↦ rw filled (
        downstream_lines-IsSound ls
          (caught deps downstream_line_dropped (handle_downstream_line deps l s))
          (caught-IsSound deps downstream_line_dropped (handle_downstream_line deps l s)
            (handle_downstream_line-IsSound l s k)))
  ]

  pub on_downstream_chunk-IsSound :
      (chunk : Text) (s : State) → IsSound deps s → IsSound deps (on_downstream_chunk deps chunk s)
  unfolding on_downstream_chunk
  on_downstream_chunk-IsSound chunk s k =
      let parts = split_lines s.down_stdout_buf chunk in
      downstream_lines-IsSound parts.lines (record s { down_stdout_buf = parts.rest })
        (record { let_through = k.let_through; accounted = k.accounted; distinct = k.distinct })
