-- ===== src/Policy/Matching.antt =====
-- What `evaluate` of src/policy.ts decides, by its rules and by the two keys of a name.
use chirindo.Prelude.{
  ◌≡◌, refl, ◌↔◌, true, false, List, [], ◌∷◌, ◌++◌, Text, inl, inr, Bool-cases, arith, All, ap, sym,
  ◌∙◌,
}
use chirindo.Js.{Js}
use chirindo.Names.Fold.{case_keys}
use chirindo.Policy.{
  DenyRule, Policy, allow, deny, DenyReason, reason_of, rule_matches, evaluate_rules, evaluate,
}

module _ (js : Js) where
  evaluate_rules-allow :
      (rules : List DenyRule) (server tool : Text)
      → (evaluate_rules js rules server tool ≡ allow)
        ↔ All (λ rule. rule_matches js rule server tool ≡ false) rules
  unfolding evaluate_rules
  evaluate_rules-allow [] server tool = (λ _. tt, λ _. refl)
  evaluate_rules-allow (rule ∷ rules) server tool =
      elim (Bool-cases (rule_matches js rule server tool)) [
        | inl hit ↦ ground arith
        | inr miss ↦ ground (arith, evaluate_rules-allow rules server tool)
      ]

  -- The call is allowed exactly when no deny rule matches it.
  pub evaluate-allow_iff :
      (policy : Policy) (server tool : Text)
      → (evaluate js policy server tool ≡ allow)
        ↔ All (λ rule. rule_matches js rule server tool ≡ false) policy.deny
  unfolding evaluate
  evaluate-allow_iff policy server tool = evaluate_rules-allow policy.deny server tool

  evaluate_rules-deny :
      (rules : List DenyRule) (server tool : Text) (r : DenyReason)
      → evaluate_rules js rules server tool ≡ deny r
      → (before : List DenyRule) × (rule : DenyRule) × (after : List DenyRule) × (rules
          ≡ before ++ rule ∷ after)
        × All (λ earlier. rule_matches js earlier server tool ≡ false) before
        × (rule_matches js rule server tool ≡ true)
        × (r ≡ reason_of rule.reason tool)
  unfolding evaluate_rules
  evaluate_rules-deny [] server tool r h = cc
  evaluate_rules-deny (rule ∷ rules) server tool r h =
      elim (Bool-cases (rule_matches js rule server tool)) [
        | inl hit ↦ ([], rule, rules, refl, tt, hit, ground arith)
        | inr miss ↦
            let (before, found, after, split, none_before, hit, reason) =
              evaluate_rules-deny rules server tool r (ground arith) in
            (rule ∷ before, found, after, ap (◌∷◌ rule) split, (miss, none_before), hit, reason)
      ]

  -- A denied call is denied by one of the policy's rules, which matches it and which no matching
  -- rule stands before; the reason given is that rule's, or the call's tool if it has none.
  pub evaluate-deny :
      (policy : Policy) (server tool : Text) (r : DenyReason)
      → evaluate js policy server tool ≡ deny r
      → (before : List DenyRule) × (rule : DenyRule) × (after : List DenyRule) × (policy.deny
          ≡ before ++ rule ∷ after)
        × All (λ earlier. rule_matches js earlier server tool ≡ false) before
        × (rule_matches js rule server tool ≡ true)
        × (r ≡ reason_of rule.reason tool)
  unfolding evaluate
  evaluate-deny policy server tool r h = evaluate_rules-deny policy.deny server tool r h

  rule_matches-same_keys :
      (rule : DenyRule) (server a b : Text)
      → case_keys js a ≡ case_keys js b
      → rule_matches js rule server a ≡ rule_matches js rule server b
  unfolding rule_matches
  rule_matches-same_keys rule server a b e = rw e

  evaluate_rules-same_keys :
      (rules : List DenyRule) (server a b : Text)
      → case_keys js a ≡ case_keys js b
      → All (λ rule. rule_matches js rule server a ≡ false) rules
      → All (λ rule. rule_matches js rule server b ≡ false) rules
  evaluate_rules-same_keys [] server a b e h = tt
  evaluate_rules-same_keys (rule ∷ rules) server a b e h = (
    sym (rule_matches-same_keys rule server a b e) ∙ h.0,
    evaluate_rules-same_keys rules server a b e h.1,
  )

  -- Two names with the same case keys, such as two spellings in another case, are both allowed or
  -- both denied.
  pub evaluate-same_keys :
      (policy : Policy) (server a b : Text)
      → case_keys js a ≡ case_keys js b
      → (evaluate js policy server a ≡ allow) ↔ (evaluate js policy server b ≡ allow)
  evaluate-same_keys policy server a b e = (
    λ h. (evaluate-allow_iff policy server b).1 (
        evaluate_rules-same_keys policy.deny server a b e
          ((evaluate-allow_iff policy server a).0 h)),
    λ h. (evaluate-allow_iff policy server a).1 (
        evaluate_rules-same_keys policy.deny server b a (sym e)
          ((evaluate-allow_iff policy server b).0 h)),
  )
