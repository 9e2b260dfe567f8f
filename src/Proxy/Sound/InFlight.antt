-- ===== src/Proxy/Sound/InFlight.antt =====
-- A tools/call of the client under an id that is still pending, in src/proxy.ts.
use chirindo.Prelude.{
  ◌≡◌, ◌≢◌, refl, true, Option, none, some, List, Text, arith, Bool-cases, inl, inr, codes, any,
  ◌==◌,
}
use chirindo.Json.{Json, obj, Members, get}
use chirindo.Rpc.{RequestId, is_tools_call, valid_request_id}
use chirindo.Proxy.State.{Deps, PendingAllow, State, continue, pending_has}
use chirindo.Proxy.Refuse.{Refusal}
use chirindo.Proxy.Client.{
  on_problem, by_id, on_message_problem, on_parsed, usable_id, message_problem, call_problem,
  gate_with_id, gate_tools_call, handle_object, handle_value, handle_client_line,
}
use chirindo.Proxy.Quiet.{Quiet, passage, Quiet-refuse_message, Quiet-refuse_line}
use chirindo.Proxy.Sound.OnClient.{refuse_call-Quiet}

-- Nothing was sent downstream, no call became pending or was settled, and no policy was loaded.
pub record IsRefused (s t : State) : Type 0 where
  pub passed : passage t.effects ≡ passage s.effects
  pub pending : t.pending_allows ≡ s.pending_allows
  pub loads : t.loads ≡ s.loads

module _ (deps : Deps) where
  open deps use {js}

  Quiet-IsRefused :
      {A : Type 0} (m : State → Option A × State) → Quiet m → (s : State) → IsRefused s (m s).1
  Quiet-IsRefused m q s = record { passed = q.passed s; pending = q.kept s; loads = q.loaded s }

  call_problem-in_flight :
      (text : Text) (ms : Members) (id : RequestId) (pending : List (RequestId × PendingAllow))
      → pending_has id pending ≡ true
      → call_problem deps text ms id pending ≢ none
  unfolding call_problem
  call_problem-in_flight text ms id pending h e = ground arith

  on_problem-IsRefused :
      (ms : Members) (id : RequestId) (reply : Option RequestId) (s : State) (why : Option Refusal)
      → why ≢ none
      → IsRefused s (on_problem deps why ms id reply s).1
  unfolding on_problem
  on_problem-IsRefused ms id reply s none h = absurd (h refl)
  on_problem-IsRefused ms id reply s (some why) h =
      Quiet-IsRefused _ (refuse_call-Quiet deps ms reply why) s

  after_reply-IsRefused :
      (text : Text) (ms : Members) (id : RequestId) (s : State) (reply : Option (Option RequestId))
      → pending_has id s.pending_allows ≡ true
      → IsRefused s
          (continue reply
            (λ r t. on_problem deps (call_problem deps text ms id t.pending_allows) ms id r t)
            s).1
  after_reply-IsRefused text ms id s none h = record { passed = refl; pending = refl; loads = refl }
  after_reply-IsRefused text ms id s (some r) h =
      on_problem-IsRefused ms id r s _ (call_problem-in_flight text ms id s.pending_allows h)

  on_message_problem-IsRefused :
      (text : Text) (ms : Members) (id : RequestId) (s : State) (why : Option Refusal)
      → is_tools_call ms ≡ true
      → usable_id deps (get (codes "id") ms) ≡ some id
      → pending_has id s.pending_allows ≡ true
      → IsRefused s (on_message_problem deps why text ms s).1
  unfolding on_message_problem gate_tools_call by_id gate_with_id
  on_message_problem-IsRefused text ms id s (some why) call named h =
      Quiet-IsRefused _ (Quiet-refuse_message deps text ms why) s
  on_message_problem-IsRefused text ms id s none call named h =
      rw (call, named) (after_reply-IsRefused text ms id s _ h)

-- A line of the client that JSON.parse reads as a tools/call under an id that is pending: nothing goes
-- downstream, no receipt allows anything, the pending calls stay as they are, the one under that id
-- too, and the policy is not even loaded.
pub handle_client_line-IsRefused :
    (deps : Deps) (text : Text) (ms : Members) (v : Json) (id : RequestId) (s : State)
    → deps.js.parse text ≡ some (obj ms)
    → is_tools_call ms ≡ true
    → get (codes "id") ms ≡ some v
    → valid_request_id v ≡ some id
    → pending_has id s.pending_allows ≡ true
    → IsRefused s (handle_client_line deps text s).1
unfolding handle_client_line on_parsed handle_value handle_object usable_id
handle_client_line-IsRefused deps text ms v id s read call named usable h =
    let fits : usable_id deps (get (codes "id") ms) ≡ some id = rw named usable in
    elim (Bool-cases (any (λ c. c == 13) text)) [
      | inl cr ↦ rw (read, cr) (Quiet-IsRefused deps _ (Quiet-refuse_line deps _) s)
      | inr clean ↦
          rw (read, clean)
            (on_message_problem-IsRefused deps text ms id s (message_problem deps text ms) call fits
              h)
    ]
