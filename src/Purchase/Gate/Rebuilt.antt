-- ===== src/Purchase/Gate/Rebuilt.antt =====
-- The maps of an open check of src/purchase/check.ts, and what its records rebuild to.
use chirindo.Prelude.{
  ◌≡◌, refl, sym, ap, ◌∙◌, Bool, true, false, Option, none, some, List, [], ◌∷◌, ◌++◌, Text, codes,
  text_eq, arith, length, length-append, Bool-cases, Option-cases, inl, inr,
}
use chirindo.Json.{Json, obj, Members, get}
use chirindo.Record.{SignedRecord, RecordEvent}
use chirindo.Record.Canon.{content_json}
use chirindo.Record.Hash.{entry_hash_of_canonical}
use chirindo.Receipt
use chirindo.Receipt.{GateDecision, allow, deny, ReceiptInputs, build_event}
use chirindo.Receipt.Laws.{IsHeld, append_receipt-IsHeld}
use chirindo.Receipt.Event.{build_event-IsCallOf}
use chirindo.Purchase.Card.{str_of}
use chirindo.Purchase.Limits.{Reason, Prepared, Judgement, judge_limits}
use chirindo.Purchase.Limits.Within.{judge_limits-clear}
use chirindo.Purchase.Judge.{Read}
use chirindo.Purchase.Open.{
  Setup, Outside, Gate, Allowed, CheckResult, Decided, map_get, map_set, count_use, or_zero,
  check_member,
}
use chirindo.Purchase.Write.{key_of, inputs_of, append_entry, recorded, count_if, keep_if}
use chirindo.Purchase.Gate.{check, decided_by, decision_of}
use chirindo.Purchase.Gate.Writes.{IsKept, Ends}
use chirindo.Purchase.Gate.Answers.{Outcome, quiet, again, denies, judges, IsFresh, check-Acts}
use chirindo.Purchase.Rebuild.{
  Maps, allows, allows_word, record_key, set_first, count_allow, on_decision, rebuild_record,
  rebuild,
}

module _ (setup : Setup) where
  open setup use {crypto}

  -- Whether an event allows, by the decision it was made with.
  abbrev allows_of : GateDecision → Bool
  allows_of allow = true
  allows_of deny = false

  allows_decision :
      (d : GateDecision) → allows_word (some (Receipt.decision_of d)) ≡ some (allows_of d)
  allows_decision allow = refl
  allows_decision deny = refl

  build_event-allows :
      (inputs : ReceiptInputs) (e : RecordEvent)
      → build_event crypto inputs ≡ some e
      → allows e ≡ some (allows_of inputs.decision)
  build_event-allows inputs e h =
      let c = build_event-IsCallOf crypto inputs e h in
      ap allows c.is_call ∙ ap allows_word c.decision ∙ allows_decision inputs.decision

  rebuild-append :
      (rs : List SignedRecord) (r : SignedRecord) (m n o : Maps)
      → rebuild setup rs m ≡ some n
      → rebuild_record setup r n ≡ some o
      → rebuild setup (rs ++ r ∷ []) m ≡ some o
  unfolding rebuild
  rebuild-append [] r m n o h k =
      let same : m ≡ n = ground (arith, h) in
      let moved = ap (rebuild_record setup r) same ∙ k in rw moved refl
  rebuild-append (s ∷ rs) r m n o h k = elim (Option-cases (rebuild_record setup s m)) [
    | inl e ↦ ground (arith, h, e)
    | inr (next, e) ↦ let rest = rebuild-append rs r next n o (rw (← h, e) refl) k in rw e rest
  ]

  -- What an append makes of the maps, when nothing stands at the key of an allow.
  abbrev Clear : Gate → Decided → Type 0
  Clear g d = (d.decision ≡ allow) → map_get (key_of setup d.digest d.order) g.allowed ≡ none

  entry-checked :
      (outside : Outside) (g : Gate) (d : Decided) (sha : Text) (entry : SignedRecord)
      → append_entry setup outside g d sha ≡ some entry
      → IsHeld crypto (inputs_of setup g d sha) g.head entry
  unfolding append_entry inputs_of
  entry-checked outside g d sha entry h = elim (Bool-cases outside.appended) [
    | inl e ↦
        append_receipt-IsHeld crypto (inputs_of setup g d sha) [] g.head entry refl
          (rw (← h, e) refl)
    | inr e ↦ ground (arith, h, e)
  ]

  abbrev entry_of : Gate → Decided → (sha hash : Text) → Allowed
  entry_of g d sha hash = record {
    order_sha256 = sha;
    seq = g.head.seq;
    entry_hash = hash;
    at = d.at;
  }

  member-digest :
      (d : Decided) (sha : Text)
      → str_of (get (codes "instruction_sha256") (check_member d sha)) ≡ d.digest
  unfolding check_member get text_eq
  member-digest d sha = refl

  member-order :
      (d : Decided) (sha : Text) → str_of (get (codes "order_sha256") (check_member d sha)) ≡ sha
  unfolding check_member get text_eq
  member-order d sha = refl

  member-at : (d : Decided) (sha : Text) → str_of (get (codes "at") (check_member d sha)) ≡ d.at
  unfolding check_member get text_eq
  member-at d sha = refl

  member-key :
      (d : Decided) (sha : Text)
      → record_key setup (check_member d sha) ≡ key_of setup d.digest d.order
  unfolding check_member get text_eq key_of
  member-key d sha = refl

  count_allow-recorded :
      (g : Gate) (d : Decided) (sha bytes : Text) (entry : SignedRecord) (c : Members)
      → entry.check ≡ some (obj c)
      → str_of (get (codes "instruction_sha256") c) ≡ d.digest
      → str_of (get (codes "order_sha256") c) ≡ sha
      → str_of (get (codes "at") c) ≡ d.at
      → record_key setup c ≡ key_of setup d.digest d.order
      → entry.seq ≡ g.head.seq
      → crypto.canonicalize (content_json entry.content) ≡ some bytes
      → map_get (key_of setup d.digest d.order) g.allowed ≡ none
      → count_allow setup entry (g.uses, g.allowed)
        ≡ some (
          count_use d.digest g.uses,
          map_set
              (key_of setup d.digest d.order)
              (entry_of g d sha (entry_hash_of_canonical crypto bytes))
              g.allowed,
        )
  unfolding count_allow set_first
  count_allow-recorded g d sha bytes entry c checked digest order at key numbered canonical clear =
      rw (canonical, checked, key, clear, digest, order, at, numbered) refl

  rebuild_record-recorded :
      (outside : Outside) (g : Gate) (d : Decided) (sha bytes : Text) (entry : SignedRecord)
      → Clear g d
      → append_entry setup outside g d sha ≡ some entry
      → crypto.canonicalize (content_json entry.content) ≡ some bytes
      → (word : GateDecision) → d.decision ≡ word
      → rebuild_record setup entry (g.uses, g.allowed)
        ≡ some (
          count_if setup word d.digest g.uses,
          keep_if setup word
              (key_of setup d.digest d.order)
              (entry_of g d sha (entry_hash_of_canonical crypto bytes))
              g.allowed,
        )
  unfolding rebuild_record on_decision count_if keep_if inputs_of
  rebuild_record-recorded outside g d sha bytes entry clear made canonical deny e =
      let held = entry-checked outside g d sha entry made in
      let event = build_event-allows (inputs_of setup g d sha) entry.event held.described in
      ap (on_decision setup entry (g.uses, g.allowed)) (event ∙ ap (λ w. some (allows_of w)) e)
  rebuild_record-recorded outside g d sha bytes entry clear made canonical allow e =
      let held = entry-checked outside g d sha entry made in
      let event = build_event-allows (inputs_of setup g d sha) entry.event held.described in
      ap (on_decision setup entry (g.uses, g.allowed)) (event ∙ ap (λ w. some (allows_of w)) e)
      ∙ count_allow-recorded g d sha bytes entry (check_member d sha) held.checked
          (member-digest d sha) (member-order d sha) (member-at d sha) (member-key d sha)
          held.numbered canonical (clear e)

  -- The maps are those that the records of the chain rebuild to, from the maps at the opening.
  pub record IsRebuilt (opened : Maps) (g : Gate) : Type 0 where
    pub maps : rebuild setup g.chain opened ≡ some (g.uses, g.allowed)
    pub counted : g.head.seq ≡ length g.chain

  kept-IsRebuilt :
      (opened : Maps) (g h : Gate) → IsKept g h → IsRebuilt opened g → IsRebuilt opened h
  kept-IsRebuilt opened g h k b = record {
    maps = rw (k.chain, k.uses, k.allowed) b.maps;
    counted = rw (k.head, k.chain) b.counted;
  }

  ends-IsRebuilt :
      (opened : Maps) (outside : Outside) (g : Gate) (d : Decided) (r : CheckResult) (h : Gate)
      → Clear g d
      → Ends setup outside g d r h
      → IsRebuilt opened g
      → IsRebuilt opened h
  unfolding recorded
  ends-IsRebuilt opened outside g d r h clear (inl (answer, kept)) b =
      kept-IsRebuilt opened g h kept b
  ends-IsRebuilt opened outside g d r h clear (inr w) b =
      let step =
        rebuild_record-recorded outside g d w.order_sha256 w.bytes w.entry clear w.made w.canonical
          d.decision refl in
      rw w.state (record {
        maps = rebuild-append g.chain w.entry opened (g.uses, g.allowed) _ b.maps step;
        counted = omega (arith, b.counted, length-append g.chain (w.entry ∷ []));
      })

  allow_of_none : (rs : List Reason) → decision_of setup rs ≡ allow → rs ≡ []
  allow_of_none [] h = refl
  allow_of_none (r ∷ rs) h = cc

  fresh-Clear :
      (g : Gate) (p : Prepared) (at : Text) (j : Judgement)
      → judge_limits p setup.identity.kid at (or_zero (map_get p.digest g.uses)) ≡ some j
      → IsFresh setup g p at
      → Clear g (decided_by setup p at j)
  fresh-Clear g p at j h (inl none_there) allowed = none_there
  fresh-Clear g p at j h (inr late) allowed =
      let (within, named, uses, (s, t, from, early, until, over)) =
        judge_limits-clear p setup.identity.kid at (or_zero (map_get p.digest g.uses)) j h
          (allow_of_none j.reasons allowed) in
      absurd (over (ground (arith, until, late)))

  outcome-IsRebuilt :
      (opened : Maps) (outside : Outside) (g : Gate) (read : Read) (order : Option Json)
      (r : CheckResult) (h : Gate)
      → Outcome setup outside g read order r h
      → IsRebuilt opened g
      → IsRebuilt opened h
  outcome-IsRebuilt opened outside g read order _ _ (quiet r d n f) b = b
  outcome-IsRebuilt opened outside g read order _ _
        (again p at prior limits sign now given found hashed compared s) b =
      b
  outcome-IsRebuilt opened outside g read order _ _ (denies d r h denied ends) b =
      ends-IsRebuilt opened outside g d r h (λ allowed. cc) ends b
  outcome-IsRebuilt opened outside g read order _ _ (judges p at j r h now given fresh judged ends)
        b =
      ends-IsRebuilt opened outside g (decided_by setup p at j) r h
        (fresh-Clear g p at j judged fresh) ends b

-- What one check is called with.
pub record Call : Type 0 where
  pub outside : Outside
  pub read : Read
  pub order : Option Json

-- The state after a list of calls.
unfoldable pub after_calls : Setup → List Call → Gate → Gate
unfolding check
after_calls setup [] g = g
after_calls setup (c ∷ cs) g = after_calls setup cs (check setup c.outside g c.read c.order).1

go :
    (setup : Setup) (opened : Maps) (calls : List Call) (g : Gate)
    → IsRebuilt setup opened g
    → IsRebuilt setup opened (after_calls setup calls g)
unfolding after_calls
go setup opened [] g b = b
go setup opened (c ∷ cs) g b =
    let (r, h) = check setup c.outside g c.read c.order in
    go setup opened cs h (
      outcome-IsRebuilt setup opened c.outside g c.read c.order r h
        (check-Acts setup c.outside g c.read c.order) b)

-- From an opening on an empty chain with maps that were rebuilt from other chains, after any calls,
-- whatever fails in them, the maps of the uses and of the allows are those that the records of the
-- chain rebuild to, and the next record's number is the number of the records.
pub after_calls-IsRebuilt :
    (setup : Setup) (calls : List Call) (g : Gate)
    → g.chain ≡ []
    → g.head.seq ≡ 0
    → IsRebuilt setup (g.uses, g.allowed) (after_calls setup calls g)
unfolding after_calls rebuild
after_calls-IsRebuilt setup calls g empty first =
    go setup (g.uses, g.allowed) calls g
      (record {
        maps = ap (λ c. rebuild setup c (g.uses, g.allowed)) empty;
        counted = first ∙ ap length (sym empty);
      })
