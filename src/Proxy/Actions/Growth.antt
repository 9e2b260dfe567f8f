-- ===== src/Proxy/Actions/Growth.antt =====
-- The chain file, receiptCount and the effects under a run of src/proxy.ts.
use chirindo.Prelude.{
  ℕ, suc, ◌+◌, ◌≡◌, refl, sym, ◌∙◌, Bool, true, false, Option, none, some, List, [], ◌∷◌, ◌++◌,
  arith, length, length-append, Option-cases, inl, inr,
}
use chirindo.Record.File.{ChainLine, of_record}
use chirindo.Record.File.Laws.{append_nil, append_assoc}
use chirindo.Receipt.{append_receipt}
use chirindo.Proxy.State.{
  Deps, ReceiptArgs, Effect, to_downstream, to_client, wrote, not_written, after_receipt, log,
  State, receipt_inputs, checkpoint_effects, written_chain, on_written, write_receipt_safely,
}
use chirindo.Proxy.Run.{Event, run}
use chirindo.Proxy.Actions.{
  IsPlain, Act, emitted, tried_receipt, loaded_policy, changed_pending, buffered_client,
  buffered_downstream, Acts, rest, then_act,
}
use chirindo.Proxy.Actions.Runs.{run-Acts}

-- The receipts that the effects say were written.
abbrev pub receipts_written : List Effect → ℕ
receipts_written [] = 0
receipts_written (wrote args ∷ es) = suc (receipts_written es)
receipts_written (_ ∷ es) = receipts_written es

-- The file of `t` is that of `s` and one record for each receipt written since, as the counts say.
pub record IsGrown (s t : State) : Type 0 where
  pub added : List ChainLine
  pub appended : t.chain ≡ s.chain ++ added
  pub counted : t.receipt_count ≡ s.receipt_count + length added
  pub noted : receipts_written t.effects ≡ receipts_written s.effects + length added

-- The state is that before, but for what the growth does not read.
same-IsGrown :
    (s t : State)
    → t.chain ≡ s.chain
    → t.receipt_count ≡ s.receipt_count
    → receipts_written t.effects ≡ receipts_written s.effects
    → IsGrown s t
same-IsGrown s t c n w = record {
  added = [];
  appended = c ∙ sym (append_nil s.chain);
  counted = omega (arith, n);
  noted = omega (arith, w);
}

plain :
    (e : Effect) (es : List Effect) → IsPlain e → receipts_written (e ∷ es) ≡ receipts_written es
plain (to_downstream f) es h = refl
plain (to_client f) es h = refl
plain (log l) es h = refl
plain (wrote args) es h = absurd h
plain (not_written args) es h = refl
plain (after_receipt n) es h = refl

module _ (deps : Deps) where
  -- A receipt that is written is one record more in the file.
  pub written_chain-append :
      (args : ReceiptArgs) (s : State) (chain : List ChainLine)
      → written_chain deps args s ≡ some chain
      → (l : ChainLine) × (chain ≡ s.chain ++ l ∷ [])
  unfolding written_chain
  written_chain-append args s chain h =
      elim (Option-cases
        (append_receipt deps.crypto (receipt_inputs deps args s.attempts) s.chain)) [
          | inl failed ↦ ground (arith, h, failed)
          | inr (r, a) ↦ (of_record r, ground (arith, h, a))
        ]

  on_written-IsGrown :
      (o : Option (List ChainLine)) (checkpointing : Bool) (args : ReceiptArgs) (s : State)
      → deps.checkpointing ≡ checkpointing
      → ((chain : List ChainLine) → o ≡ some chain → (l : ChainLine) × (chain ≡ s.chain ++ l ∷ []))
      → IsGrown s (on_written deps o args s).1
  unfolding on_written checkpoint_effects
  on_written-IsGrown none c args s on h = same-IsGrown s _ refl refl refl
  on_written-IsGrown (some chain) true args s on h =
      let (l, e) = h chain refl in
      record { added = l ∷ []; appended = e; counted = refl; noted = rw on (omega arith) }
  on_written-IsGrown (some chain) false args s on h =
      let (l, e) = h chain refl in
      record { added = l ∷ []; appended = e; counted = refl; noted = rw on (omega arith) }

  Act-IsGrown : (s t : State) → Act deps s t → IsGrown s t
  unfolding write_receipt_safely
  Act-IsGrown s _ (emitted _ e p) = same-IsGrown s _ refl refl (plain e s.effects p)
  Act-IsGrown s _ (tried_receipt _ args) =
      on_written-IsGrown (written_chain deps args s) _ args s refl
        (λ chain h. written_chain-append args s chain h)
  Act-IsGrown s _ (loaded_policy _) = same-IsGrown s _ refl refl refl
  Act-IsGrown s _ (changed_pending _ p) = same-IsGrown s _ refl refl refl
  Act-IsGrown s _ (buffered_client _ t) = same-IsGrown s _ refl refl refl
  Act-IsGrown s _ (buffered_downstream _ t) = same-IsGrown s _ refl refl refl

  IsGrown-trans : (s t u : State) → IsGrown s t → IsGrown t u → IsGrown s u
  IsGrown-trans s t u a b = record {
    added = a.added ++ b.added;
    appended = rw (b.appended, a.appended) (append_assoc s.chain a.added b.added);
    counted = omega (arith, a.counted, b.counted, length-append a.added b.added);
    noted = omega (arith, a.noted, b.noted, length-append a.added b.added);
  }

  Acts-IsGrown : (s t : State) → Acts deps s t → IsGrown s t
  Acts-IsGrown s _ (rest _) = same-IsGrown s s refl refl refl
  Acts-IsGrown s u (then_act _ t _ h a) =
      IsGrown-trans s t u (Acts-IsGrown s t h) (Act-IsGrown t u a)

-- Over any run, wherever it starts, the lines of the chain file stay as they are and new ones come
-- after them: as many as receiptCount goes up by, and as the receipts that the effects say were
-- written.
pub chain_only_grows : (deps : Deps) (es : List Event) (s : State) → IsGrown s (run deps es s)
chain_only_grows deps es s = Acts-IsGrown deps s (run deps es s) (run-Acts deps es s)
