-- ===== src/Purchase/Gate/Answers.antt =====
-- What check of src/purchase/check.ts answers, and what it does to the state.
use chirindo.Prelude.{
  ◌≡◌, ◌⊎◌, refl, sym, ap, ◌∙◌, Bool, true, false, ◌||◌, Option, none, some, [], ◌∷◌, Text, arith,
  Bool-cases, Option-cases, inl, inr, Sign, after, not_after, text_eq, text_eq→eq,
}
use chirindo.Json.{Json, obj}
use chirindo.Receipt.{deny}
use chirindo.Purchase.Time.{compare_instants}
use chirindo.Purchase.Jcs.{jcs_sha256}
use chirindo.Purchase.Limits.{
  order_ref_reused, Prepared, Judgement, judge_limits, CardLimits, card_limits_of,
}
use chirindo.Purchase.Judge.{Read, Input, refused, denied, prepared, check_options, judge_input}
use chirindo.Purchase.Open.{
  Setup, Outside, Gate, Allowed, CheckResult, Decided, failed, failed_at, map_get, or_zero,
}
use chirindo.Purchase.Write.{quote, key_of}
use chirindo.Purchase.Gate.{
  repeated, decided_by, judge_and_write, denial, valid_until_of, on_same_order, on_ref, on_prior,
  refusal, on_input, regresses, run_at, run, caught, check,
}
use chirindo.Purchase.Gate.Writes.{Ends, write-Ends}

module _ (setup : Setup) where
  open setup use {crypto, dates, js, classes, node, identity}

  abbrev returns : CheckResult → Gate → Option (CheckResult × Gate)
  returns r h = some (r, h)

  abbrev pub Prepares : Read → Option Json → Prepared → Type 0
  Prepares read order p =
      judge_input js dates classes (quote setup) crypto node read order ≡ some (prepared p)

  -- No earlier allow stands for the order, or the instruction's time is over.
  abbrev pub IsFresh : Gate → Prepared → (at : Text) → Type 0
  IsFresh g p at =
      (map_get (key_of setup p.digest p.order) g.allowed ≡ none)
      ⊎ (compare_instants at (valid_until_of setup p) ≡ some after)

  -- The four ways a check goes: it decides nothing, it answers an earlier allow again, it denies
  -- without the limits, or the limits decide.
  pub data Outcome (outside : Outside) (g : Gate) (read : Read) (order : Option Json)
      : CheckResult → Gate → Type 0 where
    quiet :
        (r : CheckResult)
        → r.decision ≡ deny
        → r.receipt ≡ none
        → r.repeat ≡ false
        → Outcome outside g read order r g
    again :
        (p : Prepared) (at : Text) (prior : Allowed) (limits : CardLimits) (sign : Sign)
        → outside.now ≡ some at
        → Prepares read order p
        → map_get (key_of setup p.digest p.order) g.allowed ≡ some prior
        → jcs_sha256 js (quote setup) crypto (obj p.order) ≡ some prior.order_sha256
        → compare_instants at (valid_until_of setup p) ≡ some sign
        → not_after sign ≡ true
        → Outcome outside g read order (repeated setup p prior limits) g
    denies :
        (d : Decided) (r : CheckResult) (h : Gate)
        → d.decision ≡ deny
        → Ends setup outside g d r h
        → Outcome outside g read order r h
    judges :
        (p : Prepared) (at : Text) (j : Judgement) (r : CheckResult) (h : Gate)
        → outside.now ≡ some at
        → Prepares read order p
        → IsFresh g p at
        → judge_limits p identity.kid at (or_zero (map_get p.digest g.uses)) ≡ some j
        → Ends setup outside g (decided_by setup p at j) r h
        → Outcome outside g read order r h

  module _ (outside : Outside) (g : Gate) (read : Read) (order : Option Json) where
    abbrev Acts : CheckResult → Gate → Type 0
    Acts r h = Outcome outside g read order r h

    parts : (a r : CheckResult) (k h : Gate) → returns a k ≡ returns r h → (a ≡ r) × (k ≡ h)
    parts a r k h e = (cc, cc)

    -- An answer that decides nothing leaves the state alone.
    still :
        (a r : CheckResult) (h : Gate)
        → a.decision ≡ deny
        → a.receipt ≡ none
        → a.repeat ≡ false
        → returns a g ≡ returns r h
        → Acts r h
    still a r h d n f e =
        let (answer, state) = parts a r g h e in rw (← answer, ← state) (quiet a d n f)

    judge_and_write-Acts :
        (p : Prepared) (at : Text) (r : CheckResult) (h : Gate)
        → outside.now ≡ some at
        → Prepares read order p
        → IsFresh g p at
        → judge_and_write setup outside g p at ≡ returns r h
        → Acts r h
    unfolding judge_and_write
    judge_and_write-Acts p at r h now given fresh e =
        elim (Option-cases (judge_limits p identity.kid at (or_zero (map_get p.digest g.uses)))) [
          | inl n ↦ ground (arith, e, n)
          | inr (j, n) ↦
              judges p at j r h now given fresh n
                (write-Ends setup outside g (decided_by setup p at j) r h (rw (← e, n) refl))
        ]

    after_sign : (s : Sign) → not_after s ≡ false → s ≡ after
    unfolding not_after
    after_sign s h = ground (arith, h)

    on_same_order-Acts :
        (p : Prepared) (at : Text) (prior : Allowed) (sign : Sign) (r : CheckResult) (h : Gate)
        → outside.now ≡ some at
        → Prepares read order p
        → map_get (key_of setup p.digest p.order) g.allowed ≡ some prior
        → jcs_sha256 js (quote setup) crypto (obj p.order) ≡ some prior.order_sha256
        → compare_instants at (valid_until_of setup p) ≡ some sign
        → on_same_order setup outside g p at prior sign ≡ returns r h
        → Acts r h
    unfolding on_same_order
    on_same_order-Acts p at prior sign r h now given found hashed compared e =
        elim (Bool-cases (not_after sign)) [
          | inr s ↦
              judge_and_write-Acts p at r h now given (inr (compared ∙ ap some (after_sign sign s)))
                (rw (← e, s) refl)
          | inl s ↦ elim (Option-cases (card_limits_of p.instruction p.order identity.kid at 1)) [
            | inl n ↦ ground (arith, e, s, n)
            | inr (limits, n) ↦
                let (answer, state) =
                  parts (repeated setup p prior limits) r g h (rw (← e, s, n) refl) in
                rw (← answer, ← state)
                  (again p at prior limits sign now given found hashed compared s)
          ]
        ]

    on_ref-Acts :
        (p : Prepared) (at : Text) (prior : Allowed) (sha : Text) (b : Bool) (r : CheckResult)
        (h : Gate)
        → outside.now ≡ some at
        → Prepares read order p
        → map_get (key_of setup p.digest p.order) g.allowed ≡ some prior
        → jcs_sha256 js (quote setup) crypto (obj p.order) ≡ some sha
        → text_eq prior.order_sha256 sha ≡ b
        → on_ref setup outside g p at prior b ≡ returns r h
        → Acts r h
    unfolding on_ref
    on_ref-Acts p at prior sha false r h now given found hashed same e =
        let d = denial setup (order_ref_reused ∷ []) p.digest p.order at in
        denies d r h refl (write-Ends setup outside g d r h e)
    on_ref-Acts p at prior sha true r h now given found hashed same e =
        let named = hashed ∙ ap some (sym (text_eq→eq prior.order_sha256 sha same)) in
        elim (Option-cases (compare_instants at (valid_until_of setup p))) [
          | inl n ↦ ground (arith, e, n)
          | inr (sign, n) ↦
              on_same_order-Acts p at prior sign r h now given found named n (rw (← e, n) refl)
        ]

    on_prior-Acts :
        (p : Prepared) (at : Text) (o : Option Allowed) (r : CheckResult) (h : Gate)
        → outside.now ≡ some at
        → Prepares read order p
        → map_get (key_of setup p.digest p.order) g.allowed ≡ o
        → on_prior setup outside g p at o ≡ returns r h
        → Acts r h
    unfolding on_prior
    on_prior-Acts p at none r h now given found e =
        judge_and_write-Acts p at r h now given (inl found) e
    on_prior-Acts p at (some prior) r h now given found e =
        elim (Option-cases (jcs_sha256 js (quote setup) crypto (obj p.order))) [
          | inl n ↦ ground (arith, e, n)
          | inr (sha, n) ↦
              on_ref-Acts p at prior sha (text_eq prior.order_sha256 sha) r h now given found n refl
                (rw (← e, n) refl)
        ]

    on_input-Acts :
        (at : Text) (input : Input) (r : CheckResult) (h : Gate)
        → outside.now ≡ some at
        → judge_input js dates classes (quote setup) crypto node read order ≡ some input
        → on_input setup outside g at input ≡ returns r h
        → Acts r h
    unfolding on_input
    on_input-Acts at (refused reasons) r h now given e =
        still (refusal setup reasons at) r h refl refl refl e
    on_input-Acts at (denied reasons digest o) r h now given e =
        let d = denial setup reasons digest o at in
        denies d r h refl (write-Ends setup outside g d r h e)
    on_input-Acts at (prepared p) r h now given e =
        on_prior-Acts p at (map_get (key_of setup p.digest p.order) g.allowed) r h now given refl e

    run_at-Acts :
        (at : Text) (r : CheckResult) (h : Gate)
        → outside.now ≡ some at
        → run_at setup outside g at read order ≡ returns r h
        → Acts r h
    unfolding run_at failed_at failed
    run_at-Acts at r h now e = elim (Bool-cases (check_options dates identity.kid at)) [
      | inr c ↦ still (failed_at none) r h refl refl refl (rw (← e, c) refl)
      | inl c ↦ elim (Bool-cases (regresses setup g.last_ts_ms (dates.parse at))) [
        | inl b ↦ still (failed_at (some at)) r h refl refl refl (rw (← e, c, b) refl)
        | inr b ↦
            elim (Option-cases
              (judge_input js dates classes (quote setup) crypto node read order)) [
                | inl n ↦ ground (arith, e, c, b, n)
                | inr (input, n) ↦ on_input-Acts at input r h now n (rw (← e, c, b, n) refl)
              ]
      ]
    ]

    run-Acts :
        (r : CheckResult) (h : Gate) → run setup outside g read order ≡ returns r h → Acts r h
    unfolding run failed_at failed
    run-Acts r h e = elim (Bool-cases (g.closed || g.closing)) [
      | inl c ↦ still (failed_at none) r h refl refl refl (rw (← e, c) refl)
      | inr c ↦ elim (Option-cases outside.now) [
        | inl n ↦ still (failed_at none) r h refl refl refl (rw (← e, c, n) refl)
        | inr (at, n) ↦ run_at-Acts at r h n (rw (← e, c, n) refl)
      ]
    ]

    caught-Acts :
        (o : Option (CheckResult × Gate))
        → run setup outside g read order ≡ o
        → Acts (caught setup g o).0 (caught setup g o).1
    unfolding caught failed_at failed
    caught-Acts none e = quiet (failed_at none) refl refl refl
    caught-Acts (some (r, h)) e = run-Acts r h e

    pub check-Acts : Acts (check setup outside g read order).0 (check setup outside g read order).1
    unfolding check
    check-Acts = caught-Acts (run setup outside g read order) refl
