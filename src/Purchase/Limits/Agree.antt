-- ===== src/Purchase/Limits/Agree.antt =====
-- The two lists that cardLimitsOf and judgeLimits of src/purchase/limits.ts make of the same tests.
use chirindo.Prelude.{
  ℕ, suc, ◌≡◌, ◌↔◌, refl, sym, ap, ◌∙◌, Bool, false, not, ◌||◌, some, List, [], ◌∷◌, map, any, Text,
  arith, Option-cases, inl, inr,
}
use chirindo.Json.{Members}
use chirindo.Purchase.Card.{CardLimit, card_limits}
use chirindo.Purchase.Rows.{CardLimitRow, result_of, row_of, is_outside_limit}
use chirindo.Purchase.Limits.{
  rows_of, is_out, valid_from, valid_until, agent_kid, max_uses, card_limit, keep, limits_in,
  card_limits_of, window_of, Prepared, Judgement, judgement, on_limits, judge_limits, row_reasons,
  when, Reason, not_yet_valid, expired, agent_not_named, uses_exhausted, kid_named, used_up,
  card_of,
}

-- What judgeLimits returns, by the window of the time.
pub judged :
    (p : Prepared) (kid at : Text) (uses : ℕ) (j : Judgement)
    → judge_limits p kid at uses ≡ some j
    → (window : Bool × Bool) × (window_of p.instruction at ≡ some window)
      × (judgement p kid uses window (limits_in p.instruction p.order kid (suc uses) window) ≡ j)
unfolding judge_limits card_limits_of on_limits
judged p kid at uses j h = elim (Option-cases (window_of p.instruction at)) [
  | inl e ↦ ground (arith, h, e)
  | inr (window, e) ↦ (window, e, ground (arith, h, e))
]

keep-none : {A : Type 0} (p : A → Bool) (xs : List A) → (keep p xs ≡ []) ↔ (any p xs ≡ false)
keep-none p [] = (λ h. refl, λ h. refl)
keep-none p (x ∷ xs) = let ih = keep-none p xs in ground (arith, ih)

pub any-map :
    {A B : Type 0} (p : B → Bool) (f : A → B) (xs : List A)
    → any p (map f xs) ≡ any (λ x. p (f x)) xs
any-map p f [] = refl
any-map p f (x ∷ xs) = ap (λ b. p (f x) || b) (any-map p f xs)

-- No reason of the rows, where none is outside and no field is missing.
pub row_reasons-none :
    (card order : Members) (ls : List CardLimit)
    → (row_reasons (map (row_of card order) ls) ≡ []) ↔ (
        (any (λ l. is_outside_limit (result_of card order l)) ls ≡ false)
        × (any (λ (l : CardLimitRow). l.field_missing) (map (row_of card order) ls) ≡ false))
unfolding row_reasons row_of
row_reasons-none card order [] = (λ h. (refl, refl), λ h. refl)
row_reasons-none card order (l ∷ ls) = let ih = row_reasons-none card order ls in ground (arith, ih)

pub four_false :
    (a b c d : Bool) (r s t u : Reason) (rest : List Reason)
    → (when a r (when b s (when c t (when d u rest))) ≡ [])
      ↔ ((a ≡ false) × (b ≡ false) × (c ≡ false) × (d ≡ false) × (rest ≡ []))
four_false a b c d r s t u rest = ground arith

five_false :
    (a b c d e : Bool)
    → ((a || (b || (c || (d || e)))) ≡ false)
      ↔ ((a ≡ false) × (b ≡ false) × (c ≡ false) × (d ≡ false) × (e ≡ false))
five_false a b c d e = ground arith

exceeded-none :
    (ins order : Members) (kid : Text) (early late : Bool) (uses : ℕ) (ls : List CardLimit)
    → (keep
          (is_out ins order kid (early, late) uses)
          (valid_from ∷ valid_until ∷ agent_kid ∷ max_uses ∷ map card_limit ls)
        ≡ [])
      ↔ ((early ≡ false)
          × (late ≡ false)
          × (not (kid_named ins kid) ≡ false)
          × (used_up ins uses ≡ false)
          × (any (λ l. is_outside_limit (result_of (card_of ins) order l)) ls ≡ false))
unfolding is_out
exceeded-none ins order kid early late uses ls =
    let out = is_out ins order kid (early, late) uses in
    let (to, from) =
      keep-none out (valid_from ∷ valid_until ∷ agent_kid ∷ max_uses ∷ map card_limit ls) in
    let mapped = any-map out card_limit ls in
    let (split, join) =
      five_false early late (not (kid_named ins kid)) (used_up ins uses)
        (any out (map card_limit ls)) in
    (
      λ h. let (a, b, c, d, e) = split (to h) in (a, b, c, d, sym mapped ∙ e),
      λ (a, b, c, d, e). from (join (a, b, c, d, mapped ∙ e)),
    )

-- A decision of judgeLimits has no reason if and only if cardLimitsOf names nothing that the order
-- exceeds and no limit could not be read for a field that an item does not have.
pub judge_limits-exceeded :
    (p : Prepared) (kid at : Text) (uses : ℕ) (j : Judgement)
    → judge_limits p kid at uses ≡ some j
    → (j.reasons ≡ [])
      ↔ ((j.exceeded ≡ []) × (any (λ (l : CardLimitRow). l.field_missing) j.card_limits ≡ false))
unfolding judgement limits_in is_out rows_of
judge_limits-exceeded p kid at uses j h =
    let ((early, late), e, same) = judged p kid at uses j h in
    let ins = p.instruction in
    let (to, from) = exceeded-none ins p.order kid early late (suc uses) card_limits in
    let (down, up) = row_reasons-none (card_of ins) p.order card_limits in
    let (split, join) =
      four_false early late (not (kid_named ins kid)) (used_up ins (suc uses)) not_yet_valid expired
        agent_not_named uses_exhausted (row_reasons (rows_of ins p.order)) in
    rw (← same) (
      λ none_given.
          let (a, b, c, d, rest) = split none_given in
          let (held, read) = down rest in (from (a, b, c, d, held), read),
      λ (none_out, read).
          let (a, b, c, d, held) = to none_out in join (a, b, c, d, up (held, read)),
    )
