-- ===== src/Proxy/Quiet.antt =====
-- Actions of src/proxy.ts, refusals above all, and what the effects say of the calls let through.
use chirindo.Prelude.{
  ℕ, ◌≡◌, refl, ◌∙◌, Bool, true, false, if◌then◌else◌, Option, none, some, List, [], ◌∷◌, Text,
}
use chirindo.Json.{Items, nil, cons, Members}
use chirindo.Receipt
use chirindo.Rpc.{RequestId}
use chirindo.Record.File.{ChainLine}
use chirindo.Proxy.State.{
  Deps, Frame, ReceiptArgs, Log, Effect, to_downstream, to_client, wrote, not_written, log, State,
  Gate, ◌>>=◌, pure, lift, emit, continue, write_receipt_safely, on_written, written_chain,
}
use chirindo.Proxy.Refuse.{
  Tool, Refusal, refuse_receipt, receipt_of, batch_loop, write_refusal_receipt, refuse_unrecordable,
  refuse_tools_call, refuse_message, refuse_batch, refuse_line,
}
use chirindo.Proxy.Client.{gate_without_id}

-- What the effects say of the calls let through: the frames sent downstream, the ALLOW receipts
-- written and those that could not be written, the newest first.
pub record Passage : Type 0 where
  pub sent : List Frame
  pub allowed : List ReceiptArgs
  pub withheld : List ReceiptArgs

abbrev pub note_wrote : Receipt.GateDecision → ReceiptArgs → Passage → Passage
note_wrote Receipt.allow args p = record p { allowed = args ∷ p.allowed }
note_wrote Receipt.deny args p = p

abbrev pub note_not_written : Receipt.GateDecision → ReceiptArgs → Passage → Passage
note_not_written Receipt.allow args p = record p { withheld = args ∷ p.withheld }
note_not_written Receipt.deny args p = p

abbrev pub note_effect : Effect → Passage → Passage
note_effect (to_downstream frame) p = record p { sent = frame ∷ p.sent }
note_effect (wrote args) p = note_wrote args.decision args p
note_effect (not_written args) p = note_not_written args.decision args p
note_effect _ p = p

unfoldable pub passage : List Effect → Passage
passage [] = record { sent = []; allowed = []; withheld = [] }
passage (e ∷ es) = note_effect e (passage es)

pub record Quiet {A : Type 0} (m : Gate A) : Type 0 where
  pub passed : (s : State) → passage (m s).1.effects ≡ passage s.effects
  pub kept : (s : State) → (m s).1.pending_allows ≡ s.pending_allows
  pub loaded : (s : State) → (m s).1.loads ≡ s.loads

module _ {A : Type 0} where
  pub Quiet-pure : (a : A) → Quiet (pure a)
  Quiet-pure a = record { passed = λ s. refl; kept = λ s. refl; loaded = λ s. refl }

  pub Quiet-lift : (o : Option A) → Quiet (lift o)
  Quiet-lift o = record { passed = λ s. refl; kept = λ s. refl; loaded = λ s. refl }

  pub Quiet-if : (b : Bool) (m n : Gate A) → Quiet m → Quiet n → Quiet (if b then m else n)
  Quiet-if true m n qm qn = qm
  Quiet-if false m n qm qn = qn

module _ {A B : Type 0} where
  pub Quiet-continue :
      (o : Option A) (f : A → Gate B) → ((a : A) → Quiet (f a)) → Quiet (continue o f)
  Quiet-continue none f h = record { passed = λ s. refl; kept = λ s. refl; loaded = λ s. refl }
  Quiet-continue (some a) f h = h a

  pub Quiet-bind :
      (m : Gate A) (f : A → Gate B) → Quiet m → ((a : A) → Quiet (f a)) → Quiet (m >>= f)
  Quiet-bind m f qm qf = record {
    passed = λ s. let (r, s') = m s in (Quiet-continue r f qf).passed s' ∙ qm.passed s;
    kept = λ s. let (r, s') = m s in (Quiet-continue r f qf).kept s' ∙ qm.kept s;
    loaded = λ s. let (r, s') = m s in (Quiet-continue r f qf).loaded s' ∙ qm.loaded s;
  }

pub Quiet-to_client : (frame : Frame) → Quiet (emit (to_client frame))
unfolding passage
Quiet-to_client frame = record { passed = λ s. refl; kept = λ s. refl; loaded = λ s. refl }

pub Quiet-log : (l : Log) → Quiet (emit (log l))
unfolding passage
Quiet-log l = record { passed = λ s. refl; kept = λ s. refl; loaded = λ s. refl }

pub ruleset quiet_rules = (Quiet-pure, Quiet-lift, Quiet-if, Quiet-bind, Quiet-to_client, Quiet-log)

module _ (deps : Deps) where
  -- Writing a DENY receipt, or failing to.
  Quiet-written :
      (chain : Option (List ChainLine)) (checkpointing : Bool) (args : ReceiptArgs)
      → deps.checkpointing ≡ checkpointing
      → args.decision ≡ Receipt.deny
      → Quiet (on_written deps chain args)
  unfolding on_written passage
  Quiet-written none c args on e = record {
    passed = λ s. rw e refl;
    kept = λ s. refl;
    loaded = λ s. refl;
  }
  Quiet-written (some chain) true args on e = record {
    passed = λ s. rw (on, e) refl;
    kept = λ s. refl;
    loaded = λ s. refl;
  }
  Quiet-written (some chain) false args on e = record {
    passed = λ s. rw (on, e) refl;
    kept = λ s. refl;
    loaded = λ s. refl;
  }

  pub Quiet-write :
      (args : ReceiptArgs) → args.decision ≡ Receipt.deny → Quiet (write_receipt_safely deps args)
  unfolding write_receipt_safely
  Quiet-write args e = record {
    passed = λ s. (Quiet-written (written_chain deps args s) _ args refl e).passed s;
    kept = λ s. (Quiet-written (written_chain deps args s) _ args refl e).kept s;
    loaded = λ s. (Quiet-written (written_chain deps args s) _ args refl e).loaded s;
  }

  pub Quiet-refuse_receipt : (tool : Tool) (deep : Bool) → Quiet (refuse_receipt deps tool deep)
  unfolding refuse_receipt
  Quiet-refuse_receipt tool deep = Quiet-bind _ _ (Quiet-write _ refl) (λ written. Quiet-pure _)

  pub Quiet-write_refusal : (tool : Tool) → Quiet (write_refusal_receipt deps tool)
  unfolding write_refusal_receipt
  Quiet-write_refusal tool = search (quiet_rules, Quiet-refuse_receipt)

  pub Quiet-refuse_unrecordable :
      (ms : Members) (why : Refusal) (reply : Option RequestId)
      → Quiet (refuse_unrecordable deps ms why reply)
  unfolding refuse_unrecordable
  Quiet-refuse_unrecordable ms why reply = search (quiet_rules, Quiet-write_refusal)

  pub Quiet-refuse_tools_call :
      (ms : Members) (why : Refusal) (reply : Option RequestId) (name : Option Text)
      → Quiet (refuse_tools_call deps ms why reply name)
  unfolding refuse_tools_call
  Quiet-refuse_tools_call ms why reply name = search (quiet_rules, Quiet-write_refusal)

  pub Quiet-receipt_of : (tool : Option Tool) → Quiet (receipt_of deps tool)
  unfolding receipt_of
  Quiet-receipt_of none = Quiet-pure tt
  Quiet-receipt_of (some tool) = search (quiet_rules, Quiet-write_refusal)

  pub Quiet-refuse_message :
      (text : Text) (ms : Members) (why : Refusal) → Quiet (refuse_message deps text ms why)
  unfolding refuse_message
  Quiet-refuse_message text ms why = search (quiet_rules, Quiet-receipt_of) depth 8

  pub Quiet-batch_loop :
      (vs : Items) (claims : List Bool) (calls written : ℕ)
      → Quiet (batch_loop deps vs claims calls written)
  unfolding batch_loop
  Quiet-batch_loop nil claims calls written = Quiet-pure _
  Quiet-batch_loop (cons v vs) [] calls written = Quiet-pure _
  Quiet-batch_loop (cons v vs) (true ∷ claims) calls written =
      Quiet-bind _ _ (Quiet-write_refusal _) (λ note. Quiet-batch_loop vs claims _ _)
  Quiet-batch_loop (cons v vs) (false ∷ claims) calls written =
      Quiet-batch_loop vs claims calls written

  pub Quiet-refuse_batch : (text : Text) (vs : Items) → Quiet (refuse_batch deps text vs)
  unfolding refuse_batch
  Quiet-refuse_batch text vs = search (quiet_rules, Quiet-batch_loop) depth 8

  pub Quiet-refuse_line : (why : Refusal) → Quiet (refuse_line deps why)
  unfolding refuse_line
  Quiet-refuse_line why = search quiet_rules

  pub Quiet-gate_without_id : (ms : Members) → Quiet (gate_without_id deps ms)
  unfolding gate_without_id
  Quiet-gate_without_id ms = search (quiet_rules, Quiet-write_refusal) depth 8
