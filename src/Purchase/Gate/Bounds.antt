-- ===== src/Purchase/Gate/Bounds.antt =====
-- What an answer of src/purchase/check.ts costs: the uses of an instruction, and the record.
use chirindo.Prelude.{
  ℕ, ◌+◌, ◌≤◌, ◌≡◌, ◌≢◌, refl, sym, ap, ◌∙◌, true, false, Option, none, some, List, [], ◌∷◌, ◌++◌,
  Sign, not_after, Text, codes, text_eq, text_eq_refl, arith, Bool-cases, inl, inr,
}
use chirindo.Json.{Json, obj, get}
use chirindo.Record.{SignedRecord}
use chirindo.Receipt.{allow, deny}
use chirindo.Purchase.Card.{CardLimit}
use chirindo.Purchase.Rows.{limits_nothing}
use chirindo.Purchase.Limits.{
  Reason, Prepared, Judgement, judge_limits, card_of, constraints_of, uses_allowed,
}
use chirindo.Purchase.Limits.Within.{judge_limits-clear, IsWithin, InWindow}
use chirindo.Purchase.Judge.{Read}
use chirindo.Purchase.Open.{
  Setup, Outside, Gate, Allowed, CheckResult, Decided, Map, map_get, map_set, count_use, or_zero,
  failed, not_recorded,
}
use chirindo.Purchase.Jcs.{jcs_sha256}
use chirindo.Purchase.Time.{compare_instants}
use chirindo.Purchase.Write.{quote, key_of, recorded, answered, count_if}
use chirindo.Purchase.Gate.{check, valid_until_of, decided_by, decision_of}
use chirindo.Purchase.Gate.Writes.{IsKept, IsWritten, IsKept-self}
use chirindo.Purchase.Gate.Answers.{Outcome, quiet, again, denies, judges, Prepares, check-Acts}

pub get-set : {A : Type 0} (k : Text) (a : A) (m : Map A) → map_get k (map_set k a m) ≡ some a
unfolding map_get map_set
get-set k a [] = rw (text_eq_refl k) refl
get-set k a ((j, b) ∷ m) = elim (Bool-cases (text_eq j k)) [
  | inl e ↦ rw (e, e) refl
  | inr e ↦ rw (e, e) (get-set k a m)
]

pub get-count_use :
    (k : Text) (m : Map ℕ) → map_get k (count_use k m) ≡ some (or_zero (map_get k m) + 1)
unfolding count_use
get-count_use k m = get-set k (or_zero (map_get k m) + 1) m

allow_of_none : (setup : Setup) (rs : List Reason) → decision_of setup rs ≡ allow → rs ≡ []
allow_of_none setup [] h = refl
allow_of_none setup (r ∷ rs) h = cc

module _ (setup : Setup) (outside : Outside) (g : Gate) (read : Read) (order : Option Json) where
  -- A purchase allowed for the first time.
  pub record IsNewAllow (r : CheckResult) (h : Gate) : Type 0 where
    pub p : Prepared
    pub at : Text
    pub now : outside.now ≡ some at
    pub given : Prepares setup read order p
    pub within :
        (limit : CardLimit)
        → limits_nothing (card_of p.instruction) limit ≡ false
        → IsWithin (card_of p.instruction) p.order limit
    pub window : InWindow p.instruction at
    pub uses : ℕ
    pub counted : map_get p.digest h.uses ≡ some uses
    pub before : or_zero (map_get p.digest g.uses) + 1 ≡ uses
    pub bounded : uses ≤ uses_allowed (get (codes "max_uses") (constraints_of p.instruction))
    pub entry : SignedRecord
    pub last : h.chain ≡ g.chain ++ entry ∷ []
    pub named : r.receipt ≡ some (g.head.seq, h.head.prev_hash)

  written-IsNewAllow :
      (p : Prepared) (at : Text) (j : Judgement) (r : CheckResult) (h : Gate)
      → outside.now ≡ some at
      → Prepares setup read order p
      → judge_limits p setup.identity.kid at (or_zero (map_get p.digest g.uses)) ≡ some j
      → j.reasons ≡ []
      → IsWritten setup outside g (decided_by setup p at j) r h
      → IsNewAllow r h
  unfolding recorded answered count_if
  written-IsNewAllow p at j r h now given judged none_against w =
      let used = or_zero (map_get p.digest g.uses) in
      let (within, named, fits, window) =
        judge_limits-clear p setup.identity.kid at used j judged none_against in
      let allowed : decision_of setup j.reasons ≡ allow = ap (decision_of setup) none_against in
      rw (w.answer, w.state)
        (record {
          p = p;
          at = at;
          now = now;
          given = given;
          within = within;
          window = window;
          uses = used + 1;
          counted =
              ap (λ d. map_get p.digest (count_if setup d p.digest g.uses)) allowed
              ∙ get-count_use p.digest g.uses;
          before = refl;
          bounded = omega (arith, fits);
          entry = w.entry;
          last = refl;
          named = refl;
        })

  failed-deny : (d : Decided) → (not_recorded d).decision ≢ allow
  unfolding not_recorded failed
  failed-deny d e = cc

  outcome-IsNewAllow :
      (r : CheckResult) (h : Gate)
      → Outcome setup outside g read order r h
      → r.decision ≡ allow
      → r.repeat ≡ false
      → IsNewAllow r h
  unfolding answered
  outcome-IsNewAllow _ _ (quiet r d n f) a e = ground (arith, d, a)
  outcome-IsNewAllow _ _ (again p at prior limits sign now given found hashed compared s) a e = cc
  outcome-IsNewAllow _ _ (denies d r h denied (inl (answer, kept))) a e =
      absurd (failed-deny d (ap (λ (s : CheckResult). s.decision) (sym answer) ∙ a))
  outcome-IsNewAllow _ _ (denies d r h denied (inr w)) a e =
      let same : d.decision ≡ allow = ap (λ (s : CheckResult). s.decision) (sym w.answer) ∙ a in
      ground (arith, same, denied)
  outcome-IsNewAllow _ _ (judges p at j r h now given fresh judged (inl (answer, kept))) a e =
      absurd (
        failed-deny (decided_by setup p at j)
          (ap (λ (s : CheckResult). s.decision) (sym answer) ∙ a))
  outcome-IsNewAllow _ _ (judges p at j r h now given fresh judged (inr w)) a e =
      let same = ap (λ (s : CheckResult). s.decision) (sym w.answer) ∙ a in
      written-IsNewAllow p at j r h now given judged (allow_of_none setup j.reasons same) w

  -- An answer without a record denies, and changes nothing that an answer depends on.
  outcome-IsKept :
      (r : CheckResult) (h : Gate)
      → Outcome setup outside g read order r h
      → r.receipt ≡ none
      → (r.decision ≡ deny) × (r.repeat ≡ false) × IsKept g h
  unfolding answered not_recorded failed
  outcome-IsKept _ _ (quiet r d n f) e = (d, f, IsKept-self g)
  outcome-IsKept _ _ (again p at prior limits sign now given found hashed compared s) e = cc
  outcome-IsKept _ _ (denies d r h denied (inl (answer, kept))) e =
      (ap (λ (s : CheckResult). s.decision) answer, ap (λ (s : CheckResult). s.repeat) answer, kept)
  outcome-IsKept _ _ (denies d r h denied (inr w)) e =
      let named = ap (λ (s : CheckResult). s.receipt) (sym w.answer) ∙ e in cc
  outcome-IsKept _ _ (judges p at j r h now given fresh judged (inl (answer, kept))) e =
      (ap (λ (s : CheckResult). s.decision) answer, ap (λ (s : CheckResult). s.repeat) answer, kept)
  outcome-IsKept _ _ (judges p at j r h now given fresh judged (inr w)) e =
      let named = ap (λ (s : CheckResult). s.receipt) (sym w.answer) ∙ e in cc

  -- An earlier allow, answered again.
  pub record IsRepeat (r : CheckResult) (h : Gate) : Type 0 where
    pub p : Prepared
    pub prior : Allowed
    pub given : Prepares setup read order p
    pub found : map_get (key_of setup p.digest p.order) g.allowed ≡ some prior
    pub at : Text
    pub now : outside.now ≡ some at
    pub same_order :
        jcs_sha256 setup.js (quote setup) setup.crypto (obj p.order) ≡ some prior.order_sha256
    pub sign : Sign
    pub compared : compare_instants at (valid_until_of setup p) ≡ some sign
    pub in_time : not_after sign ≡ true
    pub decided_at : r.at ≡ some prior.at
    pub instruction : r.instruction_sha256 ≡ some p.digest
    pub no_reasons : (r.reasons ≡ []) × (r.exceeded ≡ [])
    pub decision : r.decision ≡ allow
    pub receipt : r.receipt ≡ some (prior.seq, prior.entry_hash)
    pub state : h ≡ g

  outcome-IsRepeat :
      (r : CheckResult) (h : Gate)
      → Outcome setup outside g read order r h
      → r.repeat ≡ true
      → IsRepeat r h
  unfolding answered not_recorded failed
  outcome-IsRepeat _ _ (quiet r d n f) e = ground (arith, e, f)
  outcome-IsRepeat _ _ (again p at prior limits sign now given found hashed compared s) e = record {
    p = p;
    prior = prior;
    given = given;
    found = found;
    at = at;
    now = now;
    same_order = hashed;
    sign = sign;
    compared = compared;
    in_time = s;
    decided_at = refl;
    instruction = refl;
    no_reasons = (refl, refl);
    decision = refl;
    receipt = refl;
    state = refl;
  }
  outcome-IsRepeat _ _ (denies d r h denied (inl (answer, kept))) e =
      let named = ap (λ (s : CheckResult). s.repeat) (sym answer) ∙ e in cc
  outcome-IsRepeat _ _ (denies d r h denied (inr w)) e =
      let named = ap (λ (s : CheckResult). s.repeat) (sym w.answer) ∙ e in cc
  outcome-IsRepeat _ _ (judges p at j r h now given fresh judged (inl (answer, kept))) e =
      let named = ap (λ (s : CheckResult). s.repeat) (sym answer) ∙ e in cc
  outcome-IsRepeat _ _ (judges p at j r h now given fresh judged (inr w)) e =
      let named = ap (λ (s : CheckResult). s.repeat) (sym w.answer) ∙ e in cc

-- An answer that allows and is not a repeat has its record at the end of the chain and names it; the
-- order is inside every limit that the card of the instruction sets, and the time in its window. The
-- uses counted for the instruction are one more than before, and at most its max_uses, or 1.
pub check-IsNewAllow :
    (setup : Setup) (outside : Outside) (g : Gate) (read : Read) (order : Option Json)
    → (check setup outside g read order).0.decision ≡ allow
    → (check setup outside g read order).0.repeat ≡ false
    → IsNewAllow setup outside g read order
        (check setup outside g read order).0
        (check setup outside g read order).1
check-IsNewAllow setup outside g read order =
    outcome-IsNewAllow setup outside g read order (check setup outside g read order).0
      (check setup outside g read order).1 (check-Acts setup outside g read order)

-- An answer that names no record denies: so does every failure of the clock, of the arguments file,
-- of the append and of a throw anywhere. Head, chain, the time of the last record and both maps are
-- as before, and a broken chain stays broken.
pub check-IsKept :
    (setup : Setup) (outside : Outside) (g : Gate) (read : Read) (order : Option Json)
    → (check setup outside g read order).0.receipt ≡ none
    → ((check setup outside g read order).0.decision ≡ deny)
      × ((check setup outside g read order).0.repeat ≡ false)
      × IsKept g (check setup outside g read order).1
check-IsKept setup outside g read order =
    outcome-IsKept setup outside g read order (check setup outside g read order).0
      (check setup outside g read order).1 (check-Acts setup outside g read order)

-- An answer that is a repeat is given only where an earlier allow stands at the key of the instruction
-- and of the order's reference, the order has the hash of the order allowed then, and the clock is
-- not past the instruction's valid_until; it allows with the record and the time of that allow and no
-- reason, and changes nothing: no use is counted and nothing is recorded.
pub check-IsRepeat :
    (setup : Setup) (outside : Outside) (g : Gate) (read : Read) (order : Option Json)
    → (check setup outside g read order).0.repeat ≡ true
    → IsRepeat setup outside g read order
        (check setup outside g read order).0
        (check setup outside g read order).1
check-IsRepeat setup outside g read order =
    outcome-IsRepeat setup outside g read order (check setup outside g read order).0
      (check setup outside g read order).1 (check-Acts setup outside g read order)
