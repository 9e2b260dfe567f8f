-- ===== src/Purchase/Limits.antt =====
-- src/purchase/limits.ts: cardLimitsOf and the judge of its steps 3 and 4.
pub mod Within
pub mod Agree
use chirindo.Prelude.{
  ℕ, suc, ltb, Bool, true, false, not, if◌then◌else◌, Option, none, some, List, [], ◌∷◌, Text,
  codes, any, map, pos, Sign, before, after,
}
use chirindo.Json.{Json, num, int, Members, get}
use chirindo.Purchase.Time.{compare_instants}
use chirindo.Purchase.Card.{CardLimit, card_limits, str_of}
use chirindo.Purchase.Rows.{
  CardLimitRow, is_not_evaluated, is_outside_limit, is_text, list_of, obj_of, result_of, row_of,
}

-- The verifier's names for what an order exceeds.
pub data Exceeded : Type 0 where
  valid_from valid_until agent_kid max_uses : Exceeded
  card_limit : CardLimit → Exceeded

-- EXCEEDED_ORDER
abbrev pub exceeded_order : List Exceeded
exceeded_order = valid_from ∷ valid_until ∷ agent_kid ∷ max_uses ∷ map card_limit card_limits

abbrev pub keep {ℓ} : {A : Type ℓ} → (A → Bool) → List A → List A
keep p [] = []
keep p (x ∷ xs) = let rest = keep p xs in if p x then x ∷ rest else rest

abbrev pub is_before : Sign → Bool
is_before before = true
is_before _ = false

abbrev pub is_after : Sign → Bool
is_after after = true
is_after _ = false

abbrev pub constraints_of : Members → Members
constraints_of ins = obj_of (get (codes "constraints") ins)

abbrev pub card_of : Members → Members
card_of ins = obj_of (get (codes "card") (constraints_of ins))

-- (c["max_uses"] as number | undefined) ?? 1
abbrev pub uses_allowed : Option Json → ℕ
uses_allowed (some (num (int (pos n)))) = n
uses_allowed _ = 1

abbrev pub kid_named : Members → Text → Bool
kid_named ins kid = any (is_text kid) (list_of (get (codes "agent_kid") ins))

-- The two comparisons of the time with the window: early, late; `none` is a throw.
unfoldable pub window_of : Members → (at : Text) → Option (Bool × Bool)
unfolding compare_instants
window_of ins at =
    elim (compare_instants at (str_of (get (codes "valid_from") (constraints_of ins)))) [
      | none ↦ none
      | some from ↦
          elim (compare_instants at (str_of (get (codes "valid_until") (constraints_of ins)))) [
            | none ↦ none
            | some until ↦ some (is_before from, is_after until)
          ]
    ]

abbrev pub used_up : Members → (uses : ℕ) → Bool
used_up ins uses = ltb (uses_allowed (get (codes "max_uses") (constraints_of ins))) uses

-- out.has(x)
unfoldable pub is_out :
    (ins order : Members) → (kid : Text) → (window : Bool × Bool) → (uses : ℕ) → Exceeded → Bool
unfolding result_of
is_out ins order kid (early, late) uses valid_from = early
is_out ins order kid (early, late) uses valid_until = late
is_out ins order kid (early, late) uses agent_kid = not (kid_named ins kid)
is_out ins order kid (early, late) uses max_uses = used_up ins uses
is_out ins order kid (early, late) uses (card_limit limit) =
    is_outside_limit (result_of (card_of ins) order limit)

pub record CardLimits : Type 0 where
  pub rows : List CardLimitRow
  pub exceeded : List Exceeded
  pub missing : Bool

unfoldable pub rows_of : (ins order : Members) → List CardLimitRow
unfolding row_of
rows_of ins order = map (row_of (card_of ins) order) card_limits

unfoldable pub limits_in :
    (ins order : Members) → (kid : Text) → (uses : ℕ) → Bool × Bool → CardLimits
unfolding is_out rows_of
limits_in ins order kid uses window = record {
  rows = rows_of ins order;
  exceeded = keep (is_out ins order kid window uses) exceeded_order;
  missing = any (λ (l : CardLimitRow). is_not_evaluated l.result) (rows_of ins order);
}

-- cardLimitsOf; `none` is a throw.
unfoldable pub card_limits_of :
    (ins order : Members) → (kid : Text) → (authorized_at : Text) → (uses : ℕ) → Option CardLimits
unfolding window_of limits_in
card_limits_of ins order kid authorized_at uses = elim (window_of ins authorized_at) [
  | none ↦ none
  | some window ↦ some (limits_in ins order kid uses window)
]

-- The reasons of a decision.
pub data Reason : Type 0 where
  instruction_invalid : Text → Reason
  order_invalid : Text → Reason
  unsupported_limit : Text → Reason
  order_ref_reused not_yet_valid expired agent_not_named uses_exhausted record_failed : Reason
  limit_exceeded : CardLimit → Reason
  order_field_missing : CardLimit → Reason

abbrev pub when : Bool → Reason → List Reason → List Reason
when b reason rest = if b then reason ∷ rest else rest

-- The loop over the rows.
unfoldable pub row_reasons : List CardLimitRow → List Reason
row_reasons [] = []
row_reasons (l ∷ ls) =
    let rest = row_reasons ls in
    when (is_outside_limit l.result) (limit_exceeded l.limit)
      (when (is_not_evaluated l.result) (order_field_missing l.limit) rest)

-- An instruction and an order that passed steps 1 and 2.
pub record Prepared : Type 0 where
  pub instruction : Members
  pub digest : Text
  pub order : Members

pub record Judgement : Type 0 where
  pub reasons : List Reason
  pub exceeded : List Exceeded
  pub card_limits : List CardLimitRow

unfoldable pub judgement :
    Prepared → (kid : Text) → (uses_so_far : ℕ) → Bool × Bool → CardLimits → Judgement
unfolding row_reasons
judgement p kid uses_so_far (early, late) limits = record {
  reasons = when early not_yet_valid (
      when late expired (
        when (not (kid_named p.instruction kid)) agent_not_named (
          when (used_up p.instruction (suc uses_so_far)) uses_exhausted
            (row_reasons limits.rows))));
  exceeded = limits.exceeded;
  card_limits = limits.rows;
}

unfoldable pub on_limits :
    Prepared
    → (kid : Text) → (uses_so_far : ℕ) → Option (Bool × Bool)
    → Option CardLimits
    → Option Judgement
unfolding judgement
on_limits p kid uses_so_far (some window) (some limits) =
    some (judgement p kid uses_so_far window limits)
on_limits p kid uses_so_far _ _ = none

-- judgeLimits; `none` is a throw.
unfoldable pub judge_limits :
    Prepared → (kid : Text) → (at : Text) → (uses_so_far : ℕ) → Option Judgement
unfolding window_of card_limits_of on_limits
judge_limits p kid at uses_so_far =
    on_limits p kid uses_so_far (window_of p.instruction at)
      (card_limits_of p.instruction p.order kid at (suc uses_so_far))
