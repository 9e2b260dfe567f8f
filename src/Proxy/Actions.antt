-- ===== src/Proxy/Actions.antt =====
-- The single actions of src/proxy.ts, as a step relation on its state, and which handlers are made of
-- them.
pub mod Handlers
pub mod Runs
pub mod Growth
use chirindo.Prelude.{suc, if◌then◌else◌, Bool, true, false, Option, none, some, List, ◌∷◌, Text}
use chirindo.Rpc.{RequestId}
use chirindo.Proxy.State.{
  Deps, PendingAllow, Frame, ReceiptArgs, Log, Effect, to_downstream, to_client, wrote, not_written,
  after_receipt, log, State, Gate, ◌>>=◌, pure, lift, emit, continue, write_receipt_safely,
}

-- An effect that is not one of writeReceiptSafely.
abbrev pub IsPlain : Effect → Type 0
IsPlain (wrote args) = ⊥
IsPlain (not_written args) = ⊥
IsPlain (after_receipt n) = ⊥
IsPlain _ = Unit

pub data Act (deps : Deps) : State → State → Type 0 where
  emitted : (s : State) (e : Effect) → IsPlain e → Act deps s (record s { effects = e ∷ s.effects })
  tried_receipt : (s : State) (args : ReceiptArgs) → Act deps s (write_receipt_safely deps args s).1
  loaded_policy : (s : State) → Act deps s (record s { loads = suc s.loads })
  changed_pending :
      (s : State) (pending : List (RequestId × PendingAllow))
      → Act deps s (record s { pending_allows = pending })
  buffered_client : (s : State) (t : Text) → Act deps s (record s { client_stdin_buf = t })
  buffered_downstream : (s : State) (t : Text) → Act deps s (record s { down_stdout_buf = t })

-- Any number of actions.
pub data Acts (deps : Deps) : State → State → Type 0 where
  rest : (s : State) → Acts deps s s
  then_act : (s t u : State) → Acts deps s t → Act deps t u → Acts deps s u

pub Acts-trans : (deps : Deps) (s t u : State) → Acts deps s t → Acts deps t u → Acts deps s u
Acts-trans deps s t u h (rest _) = h
Acts-trans deps s t u h (then_act _ v _ k a) = then_act s v u (Acts-trans deps s t v h k) a

pub record IsActing {A : Type 0} (deps : Deps) (m : Gate A) : Type 0 where
  pub acts : (s : State) → Acts deps s (m s).1

pub once : (deps : Deps) (s t : State) → Act deps s t → Acts deps s t
once deps s t a = then_act s s t (rest s) a

module _ (deps : Deps) {A : Type 0} where
  pub IsActing-pure : (a : A) → IsActing deps (pure a)
  IsActing-pure a = record { acts = λ s. rest s }

  pub IsActing-lift : (o : Option A) → IsActing deps (lift o)
  IsActing-lift o = record { acts = λ s. rest s }

  pub IsActing-if :
      (b : Bool) (m n : Gate A)
      → IsActing deps m
      → IsActing deps n
      → IsActing deps (if b then m else n)
  IsActing-if true m n am an = am
  IsActing-if false m n am an = an

module _ (deps : Deps) {A B : Type 0} where
  pub IsActing-continue :
      (o : Option A) (f : A → Gate B)
      → ((a : A) → IsActing deps (f a))
      → IsActing deps (continue o f)
  IsActing-continue none f h = record { acts = λ s. rest s }
  IsActing-continue (some a) f h = h a

  pub IsActing-bind :
      (m : Gate A) (f : A → Gate B)
      → IsActing deps m
      → ((a : A) → IsActing deps (f a))
      → IsActing deps (m >>= f)
  IsActing-bind m f am af = record {
    acts = λ s.
        let (r, t) = m s in
        Acts-trans deps s t (continue r f t).1 (am.acts s) ((IsActing-continue r f af).acts t);
  }

module _ (deps : Deps) where
  pub IsActing-to_client : (frame : Frame) → IsActing deps (emit (to_client frame))
  IsActing-to_client frame = record { acts = λ s. once deps s _ (emitted s (to_client frame) tt) }

  pub IsActing-to_downstream : (frame : Frame) → IsActing deps (emit (to_downstream frame))
  IsActing-to_downstream frame = record {
    acts = λ s. once deps s _ (emitted s (to_downstream frame) tt);
  }

  pub IsActing-log : (l : Log) → IsActing deps (emit (log l))
  IsActing-log l = record { acts = λ s. once deps s _ (emitted s (log l) tt) }

  pub IsActing-write : (args : ReceiptArgs) → IsActing deps (write_receipt_safely deps args)
  IsActing-write args = record { acts = λ s. once deps s _ (tried_receipt s args) }

pub ruleset acting_rules = (
  IsActing-pure, IsActing-lift, IsActing-if, IsActing-bind, IsActing-to_client,
  IsActing-to_downstream, IsActing-log, IsActing-write,
)
