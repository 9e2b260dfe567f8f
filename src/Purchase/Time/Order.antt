-- ===== src/Purchase/Time/Order.antt =====
-- The order of instants of src/purchase/time.ts, compareInstants.
use chirindo.Prelude.{
  ◌⊎◌, ltb, [], ◌<◌, ℕ, suc, zero, ◌-◌, ◌≤◌, max, ◌≡◌, refl, sym, ◌∙◌, ap, true, some, ◌∷◌, ◌++◌,
  Text, text_order, text_order_swap, same_text, not_after, opposite, Sign, before, same, after,
  length, arith, Bool-cases, inl, inr,
}
use chirindo.Purchase.Time.{
  zeros, pad_end, fraction_order, then_by, compare_instants, whole, fraction, time_re,
}
use chirindo.Purchase.Time.Fractions.{
  length-pad_end, fraction_order_swap, fraction_order_trans, then_by_swap, then_by_trans,
}

-- The digit at a place of a fraction, 0 behind its end.
unfoldable pub digit_at : Text → ℕ → ℕ
digit_at [] i = b'0'
digit_at (c ∷ t) zero = c
digit_at (c ∷ t) (suc i) = digit_at t i

-- The first digit that differs is less.
unfoldable pub IsLess : Text → Text → Type 0
IsLess f g =
    (i : ℕ) × ((j : ℕ) → j < i → digit_at f j ≡ digit_at g j) × (digit_at f i < digit_at g i)

-- The time up to the second is earlier, or it is the same and the fraction is less.
unfoldable pub IsEarlier : Text → Text → Type 0
unfolding IsLess
IsEarlier a b =
    (text_order (whole a) (whole b) ≡ before)
    ⊎ ((whole a ≡ whole b) × IsLess (fraction a) (fraction b))

-- What a sign of compareInstants means of two times.
unfoldable pub IsMeant : Sign → Text → Text → Type 0
unfolding IsEarlier
IsMeant before a b = IsEarlier a b
IsMeant same a b =
    (whole a ≡ whole b) × ((i : ℕ) → digit_at (fraction a) i ≡ digit_at (fraction b) i)
IsMeant after a b = IsEarlier b a

digit_at-zeros : (n i : ℕ) → digit_at (zeros n) i ≡ b'0'
unfolding digit_at
digit_at-zeros zero i = refl
digit_at-zeros (suc n) zero = refl
digit_at-zeros (suc n) (suc i) = digit_at-zeros n i

digit_at-padded : (t : Text) (n i : ℕ) → digit_at (t ++ zeros n) i ≡ digit_at t i
unfolding digit_at
digit_at-padded [] n i = digit_at-zeros n i
digit_at-padded (c ∷ t) n zero = refl
digit_at-padded (c ∷ t) n (suc i) = digit_at-padded t n i

next_place :
    (c d : ℕ) (s t : Text) (i : ℕ)
    → c ≡ d
    → ((j : ℕ) → j < i → digit_at s j ≡ digit_at t j)
    → (j : ℕ) → j < suc i
    → digit_at (c ∷ s) j ≡ digit_at (d ∷ t) j
unfolding digit_at
next_place c d s t i e h zero less = e
next_place c d s t i e h (suc j) less = h j (omega (arith, less))

text_order-IsLess : (s t : Text) → length s ≡ length t → text_order s t ≡ before → IsLess s t
unfolding text_order IsLess digit_at
text_order-IsLess [] [] l h = cc
text_order-IsLess [] (d ∷ t) l h = ground (arith, l)
text_order-IsLess (c ∷ s) [] l h = cc
text_order-IsLess (c ∷ s) (d ∷ t) l h = elim (Bool-cases (ltb c d)) [
  | inl less ↦ (0, (λ j n. omega (arith, n)), ground (arith, less))
  | inr more ↦ elim (Bool-cases (ltb d c)) [
    | inl greater ↦ ground (arith, h, more, greater)
    | inr equal ↦
        let rest : text_order s t ≡ before = ground (arith, h, more, equal) in
        let (i, kept, less) = text_order-IsLess s t (omega (arith, l)) rest in
        let head : c ≡ d = ground (arith, more, equal) in
        (suc i, next_place c d s t i head kept, less)
  ]
]

fraction_order-IsLess : (f g : Text) → fraction_order f g ≡ before → IsLess f g
unfolding fraction_order IsLess
fraction_order-IsLess f g h =
    let n = max (length f) (length g) in
    let hf : length f ≤ n = omega arith in
    let hg : length g ≤ n = omega arith in
    let (i, kept, less) =
      text_order-IsLess (pad_end f n) (pad_end g n)
        (length-pad_end f n hf ∙ sym (length-pad_end g n hg)) h in
    let at_f = λ (j : ℕ). digit_at-padded f (n - length f) j in
    let at_g = λ (j : ℕ). digit_at-padded g (n - length g) j in
    (i, (λ j l. sym (at_f j) ∙ kept j l ∙ at_g j), omega (arith, less, at_f i, at_g i))

fraction_order-same :
    (f g : Text) → fraction_order f g ≡ same → (i : ℕ) → digit_at f i ≡ digit_at g i
unfolding fraction_order
fraction_order-same f g h i =
    let n = max (length f) (length g) in
    sym (digit_at-padded f (n - length f) i)
    ∙ ap (λ t. digit_at t i) (same_text (pad_end f n) (pad_end g n) h)
    ∙ digit_at-padded g (n - length g) i

then_by-IsMeant :
    (a b : Text) (w x s : Sign)
    → text_order (whole a) (whole b) ≡ w
    → fraction_order (fraction a) (fraction b) ≡ x
    → then_by w x ≡ s
    → IsMeant s a b
unfolding IsMeant
then_by-IsMeant a b before x before e f h = inl e
then_by-IsMeant a b after x after e f h = inl (text_order_swap (whole a) (whole b) ∙ ap opposite e)
then_by-IsMeant a b same before before e f h =
    inr (same_text (whole a) (whole b) e, fraction_order-IsLess (fraction a) (fraction b) f)
then_by-IsMeant a b same same same e f h =
    (same_text (whole a) (whole b) e, fraction_order-same (fraction a) (fraction b) f)
then_by-IsMeant a b same after after e f h = inr (
  sym (same_text (whole a) (whole b) e),
  fraction_order-IsLess (fraction b) (fraction a)
      (fraction_order_swap (fraction a) (fraction b) ∙ ap opposite f),
)
then_by-IsMeant a b before x same e f h = cc
then_by-IsMeant a b before x after e f h = cc
then_by-IsMeant a b after x same e f h = cc
then_by-IsMeant a b after x before e f h = cc
then_by-IsMeant a b same before same e f h = cc
then_by-IsMeant a b same before after e f h = cc
then_by-IsMeant a b same same before e f h = cc
then_by-IsMeant a b same same after e f h = cc
then_by-IsMeant a b same after same e f h = cc
then_by-IsMeant a b same after before e f h = cc

-- The sign of two comparable times is that of their order: before where the one is earlier up to the
-- second, or the same to the second with a fraction whose first different digit is less, digits behind
-- the end counting as 0; same where no digit differs; and after the other way round. Whatever the
-- sign is, the comparison the other way round has the opposite one. If besides a second time is
-- comparable with a third, the first is not after the second and the second not after the third,
-- then the first and the third are comparable, and the first is not after the third.
pub compare_instants_order :
    (a b c : Text) (s t : Sign)
    → compare_instants a b ≡ some s
    → compare_instants b c ≡ some t
    → IsMeant s a b
      × (compare_instants b a ≡ some (opposite s))
      × (not_after s ≡ true
          → not_after t ≡ true
          → (u : Sign) × (compare_instants a c ≡ some u) × (not_after u ≡ true))
unfolding compare_instants
compare_instants_order a b c s t h k = elim (Bool-cases (time_re a)) [
  | inl ha ↦ elim (Bool-cases (time_re b)) [
    | inl hb ↦ elim (Bool-cases (time_re c)) [
      | inl hc ↦
          let first : then_by (text_order (whole a) (whole b))
                (fraction_order (fraction a) (fraction b))
              ≡ s =
            ground (arith, h, ha, hb) in
          let second : then_by (text_order (whole b) (whole c))
                (fraction_order (fraction b) (fraction c))
              ≡ t =
            ground (arith, k, hb, hc) in
          (
            then_by-IsMeant a b _ _ s refl refl first,
            rw (ha, hb)
                (ap some (
                  then_by_swap (text_order (whole a) (whole b)) (text_order (whole b) (whole a))
                    (fraction_order (fraction a) (fraction b))
                    (fraction_order (fraction b) (fraction a)) (text_order_swap (whole a) (whole b))
                    (fraction_order_swap (fraction a) (fraction b))
                  ∙ ap opposite first)),
            λ p q. (
              then_by (text_order (whole a) (whole c)) (fraction_order (fraction a) (fraction c)),
              rw (ha, hc) refl,
              then_by_trans (whole a) (whole b) (whole c) (fraction_order (fraction a) (fraction b))
                  (fraction_order (fraction b) (fraction c))
                  (fraction_order (fraction a) (fraction c)) (ap not_after first ∙ p)
                  (ap not_after second ∙ q)
                  (fraction_order_trans (fraction a) (fraction b) (fraction c)),
            ),
          )
      | inr hc ↦ ground (arith, k, hb, hc)
    ]
    | inr hb ↦ ground (arith, h, ha, hb)
  ]
  | inr ha ↦ ground (arith, h, ha)
]
