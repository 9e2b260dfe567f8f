-- ===== src/Proxy/Sound/OnClient.antt =====
-- The client's side of src/proxy.ts under the invariant of Sound.antt.
use chirindo.Prelude.{
  ℕ, suc, ◌≡◌, refl, true, false, Option, none, some, List, [], ◌∷◌, Text, arith, Bool-cases, inl,
  inr, codes, any, ◌==◌,
}
use chirindo.Json.{Json, null, bool, num, str, arr, obj, Members, get}
use chirindo.Rpc.{RequestId, is_tools_call}
use chirindo.Rpc.Lines.{split_lines}
use chirindo.Proxy.State.{
  Deps, PendingAllow, line, Log, to_downstream, State, continue, emit, pending_has, pending_delete,
  pending_set,
}
use chirindo.Proxy.Refuse.{Refusal, no_name, too_deep, not_canonical, Tool, tool_of}
use chirindo.Proxy.Client.{
  Denial, Verdict, allow, deny, decide, on_problem, by_id, on_message_problem, on_parsed, usable_id,
  message_problem, call_problem, load, set_pending, on_verdict, handle_tools_call, refuse_call,
  gate_with_id, gate_tools_call, handle_object, handle_value, handle_client_line, caught, is_blank,
  client_lines, on_client_chunk,
}
use chirindo.Proxy.Quiet.{
  Quiet, passage, Quiet-write, quiet_rules, Quiet-refuse_unrecordable, Quiet-refuse_tools_call,
  Quiet-refuse_message, Quiet-refuse_batch, Quiet-refuse_line, Quiet-gate_without_id,
}
use chirindo.Proxy.Forwards.{message_problem-none, message_problem-IsPlain}
use chirindo.Proxy.Gated.{IsGated, IsGated-call}
use chirindo.Proxy.Sound.{IsHarmless, IsSound, Quiet-IsSound, AreLetThrough-suc}

pub pending_delete-fresh :
    (id : RequestId) (pending : List (RequestId × PendingAllow))
    → pending_has id pending ≡ false
    → pending_delete id pending ≡ pending
unfolding pending_has pending_delete
pending_delete-fresh id [] h = refl
pending_delete-fresh id ((j, p) ∷ pending) h = ground (arith, pending_delete-fresh id pending)

module _ (deps : Deps) where
  open deps use {js}

  IsSound-forward :
      (text : Text) (v : Json) (s : State)
      → js.parse text ≡ some v
      → any (λ c. c == 13) text ≡ false
      → IsHarmless deps text v
      → IsSound deps s
      → IsSound deps (emit (to_downstream (line text)) s).1
  unfolding passage
  IsSound-forward text v s p cr h k = record {
    let_through = ((v, p, cr, h), k.let_through);
    accounted = k.accounted;
    distinct = k.distinct;
  }

  Quiet-deny :
      (reason : Denial) (id : RequestId) (ms : Members) (tool : Tool)
      → Quiet (on_verdict deps (deny reason) id ms tool)
  unfolding on_verdict
  Quiet-deny reason id ms tool = search (quiet_rules, Quiet-write) depth 8

  on_verdict-IsSound :
      (v : Verdict) (id : RequestId) (ms : Members) (tool : Tool) (s : State)
      → pending_has id s.pending_allows ≡ false
      → (v ≡ allow → IsGated deps s.loads ms)
      → IsSound deps s
      → IsSound deps (on_verdict deps v id ms tool (record s { loads = suc s.loads })).1
  on_verdict-IsSound (deny reason) id ms tool s fresh g k =
      Quiet-IsSound deps _ (Quiet-deny reason id ms tool) (record s { loads = suc s.loads })
        (record {
          let_through = AreLetThrough-suc deps s.loads (passage s.effects).sent k.let_through;
          accounted = k.accounted;
          distinct = k.distinct;
        })
  on_verdict-IsSound allow id ms tool s fresh g k =
      unfold on_verdict set_pending passage pending_set in
      record {
        let_through = (s.loads, omega arith, g refl, k.let_through);
        accounted =
            rw (pending_delete-fresh id s.pending_allows fresh) (omega (arith, k.accounted));
        distinct = rw (pending_delete-fresh id s.pending_allows fresh) (fresh, k.distinct);
      }

  handle_tools_call-IsSound :
      (id : RequestId) (ms : Members) (s : State)
      → pending_has id s.pending_allows ≡ false
      → ((load : ℕ)
          → decide deps (deps.load_policy load) (tool_of (get (codes "params") ms)).tool_name
            ≡ allow
          → IsGated deps load ms)
      → IsSound deps s
      → IsSound deps (handle_tools_call deps id ms s).1
  unfolding handle_tools_call load
  handle_tools_call-IsSound id ms s fresh g k = on_verdict-IsSound _ id ms _ s fresh (g s.loads) k

  pub refuse_call-Quiet :
      (ms : Members) (reply : Option RequestId) (why : Refusal)
      → Quiet (refuse_call deps ms reply why)
  unfolding refuse_call
  refuse_call-Quiet ms reply no_name = Quiet-refuse_tools_call deps ms _ reply _
  refuse_call-Quiet ms reply too_deep = Quiet-refuse_unrecordable deps ms _ reply
  refuse_call-Quiet ms reply not_canonical = Quiet-refuse_unrecordable deps ms _ reply
  refuse_call-Quiet ms reply _ = Quiet-refuse_tools_call deps ms _ reply _

  not_in_flight :
      (text : Text) (ms : Members) (id : RequestId) (pending : List (RequestId × PendingAllow))
      → call_problem deps text ms id pending ≡ none
      → pending_has id pending ≡ false
  unfolding call_problem
  not_in_flight text ms id pending h = ground arith

  -- A line that is a call with a usable id and none of the problems of a message.
  abbrev IsCall : Text → Members → RequestId → Type 0
  IsCall text ms id =
      (js.parse text ≡ some (obj ms))
      × (any (λ c. c == 13) text ≡ false)
      × (message_problem deps text ms ≡ none)
      × (is_tools_call ms ≡ true)
      × (usable_id deps (get (codes "id") ms) ≡ some id)

  on_problem-IsSound :
      (text : Text) (ms : Members) (id : RequestId) (reply : Option RequestId) (s : State)
      → IsCall text ms id
      → IsSound deps s
      → (r : Option Refusal) → call_problem deps text ms id s.pending_allows ≡ r
      → IsSound deps (on_problem deps r ms id reply s).1
  unfolding on_problem
  on_problem-IsSound text ms id reply s call k (some why) e =
      Quiet-IsSound deps _ (refuse_call-Quiet ms reply why) s k
  on_problem-IsSound text ms id reply s call k none e =
      handle_tools_call-IsSound id ms s (not_in_flight text ms id s.pending_allows e)
        (λ load d.
          let (read, one, clear, method, usable) = call in
          IsGated-call deps text ms id s.pending_allows load read one clear method usable e d)
        k

  after_reply :
      (text : Text) (ms : Members) (id : RequestId) (s : State)
      → IsCall text ms id
      → IsSound deps s
      → (reply : Option (Option RequestId))
      → IsSound deps
          (continue reply
            (λ r t. on_problem deps (call_problem deps text ms id t.pending_allows) ms id r t)
            s).1
  after_reply text ms id s call k none = k
  after_reply text ms id s call k (some r) = on_problem-IsSound text ms id r s call k _ refl

  gate_tools_call-IsSound :
      (text : Text) (ms : Members) (s : State)
      → js.parse text ≡ some (obj ms)
      → any (λ c. c == 13) text ≡ false
      → message_problem deps text ms ≡ none
      → is_tools_call ms ≡ true
      → IsSound deps s
      → (id : Option RequestId) → usable_id deps (get (codes "id") ms) ≡ id
      → IsSound deps (by_id deps id text ms s).1
  unfolding by_id gate_with_id
  gate_tools_call-IsSound text ms s read one clear call k (some id) u =
      after_reply text ms id s (read, one, clear, call, u) k _
  gate_tools_call-IsSound text ms s read one clear call k none u =
      Quiet-IsSound deps _ (Quiet-gate_without_id deps ms) s k

  on_message_problem-IsSound :
      (text : Text) (ms : Members) (s : State)
      → js.parse text ≡ some (obj ms)
      → any (λ c. c == 13) text ≡ false
      → IsSound deps s
      → (r : Option Refusal) → message_problem deps text ms ≡ r
      → IsSound deps (on_message_problem deps r text ms s).1
  unfolding on_message_problem gate_tools_call
  on_message_problem-IsSound text ms s p cr k (some why) e =
      Quiet-IsSound deps _ (Quiet-refuse_message deps text ms why) s k
  on_message_problem-IsSound text ms s p cr k none e = elim (Bool-cases (is_tools_call ms)) [
    | inl call ↦ rw call (gate_tools_call-IsSound text ms s p cr e call k _ refl)
    | inr other ↦ rw other (
        IsSound-forward text (obj ms) s p cr
          (message_problem-IsPlain deps text ms e, message_problem-none deps text ms e other) k)
  ]

  handle_value-IsSound :
      (text : Text) (v : Json) (s : State)
      → js.parse text ≡ some v
      → any (λ c. c == 13) text ≡ false
      → IsSound deps s
      → IsSound deps (handle_value deps text v s).1
  unfolding handle_value handle_object
  handle_value-IsSound text (arr vs) s p cr k =
      Quiet-IsSound deps _ (Quiet-refuse_batch deps text vs) s k
  handle_value-IsSound text (obj ms) s p cr k = on_message_problem-IsSound text ms s p cr k _ refl
  handle_value-IsSound text null s p cr k = IsSound-forward text null s p cr tt k
  handle_value-IsSound text (bool b) s p cr k = IsSound-forward text (bool b) s p cr tt k
  handle_value-IsSound text (num n) s p cr k = IsSound-forward text (num n) s p cr tt k
  handle_value-IsSound text (str t) s p cr k = IsSound-forward text (str t) s p cr tt k

  on_parsed-IsSound :
      (text : Text) (s : State)
      → IsSound deps s
      → (r : Option Json) → js.parse text ≡ r
      → IsSound deps (on_parsed deps r text s).1
  unfolding on_parsed
  on_parsed-IsSound text s k none e = Quiet-IsSound deps _ (Quiet-refuse_line deps _) s k
  on_parsed-IsSound text s k (some v) e = elim (Bool-cases (any (λ c. c == 13) text)) [
    | inl cr ↦ rw cr (Quiet-IsSound deps _ (Quiet-refuse_line deps _) s k)
    | inr clean ↦ rw clean (handle_value-IsSound text v s e clean k)
  ]

  pub caught-IsSound :
      (l : Log) (r : Option (Unit {0}) × State) → IsSound deps r.1 → IsSound deps (caught deps l r)
  unfolding passage
  caught-IsSound l (some u, s) k = k
  caught-IsSound l (none, s) k = record {
    let_through = k.let_through;
    accounted = k.accounted;
    distinct = k.distinct;
  }

  client_lines-IsSound :
      (ls : List Text) (s : State) → IsSound deps s → IsSound deps (client_lines deps ls s)
  unfolding client_lines handle_client_line
  client_lines-IsSound [] s k = k
  client_lines-IsSound (l ∷ ls) s k = elim (Bool-cases (is_blank deps l)) [
    | inl blank ↦ rw blank (client_lines-IsSound ls s k)
    | inr filled ↦
        rw filled (client_lines-IsSound ls _ (caught-IsSound _ _ (on_parsed-IsSound l s k _ refl)))
  ]

  pub on_client_chunk-IsSound :
      (chunk : Text) (s : State) → IsSound deps s → IsSound deps (on_client_chunk deps chunk s)
  unfolding on_client_chunk
  on_client_chunk-IsSound chunk s k =
      let parts = split_lines s.client_stdin_buf chunk in
      client_lines-IsSound parts.lines (record s { client_stdin_buf = parts.rest })
        (record { let_through = k.let_through; accounted = k.accounted; distinct = k.distinct })
