-- ===== src/Purchase/Time/Fractions.antt =====
-- The order of the fractions of src/purchase/time.ts, and of two signs one after the other.
use chirindo.Prelude.{
  ℕ, suc, zero, ◌+◌, ◌-◌, ◌≤◌, max, ◌≡◌, refl, sym, ◌∙◌, ap, true, ◌∷◌, ◌++◌, Text, text_order,
  text_order_swap, text_order_trans, text_order_append, same_text, not_after, opposite, Sign,
  before, same, after, length, arith, length-append,
}
use chirindo.Record.File.Laws.{append_assoc}
use chirindo.Purchase.Time.{zeros, pad_end, fraction_order, then_by}

zeros-add : (m n : ℕ) → zeros (m + n) ≡ zeros m ++ zeros n
zeros-add zero n = ap zeros (omega arith)
zeros-add (suc m) n =
    let next : suc m + n ≡ suc (m + n) = omega arith in
    ap zeros next ∙ ap (λ z. b'0' ∷ z) (zeros-add m n)

length-zeros : (n : ℕ) → length (zeros n) ≡ n
length-zeros zero = refl
length-zeros (suc n) = ap suc (length-zeros n)

pub length-pad_end : (t : Text) (n : ℕ) → length t ≤ n → length (pad_end t n) ≡ n
length-pad_end t n h =
    omega (arith, h, length-append t (zeros (n - length t)), length-zeros (n - length t))

pad_end-add : (t : Text) (n k : ℕ) → length t ≤ n → pad_end t (n + k) ≡ pad_end t n ++ zeros k
pad_end-add t n k h =
    let split : (n + k) - length t ≡ (n - length t) + k = omega (arith, h) in
    ap (λ m. t ++ zeros m) split
    ∙ ap (λ z. t ++ z) (zeros-add (n - length t) k)
    ∙ sym (append_assoc t (zeros (n - length t)) (zeros k))

-- Padding further changes nothing.
order-pad_end :
    (s t : Text) (n : ℕ)
    → length s ≤ n
    → length t ≤ n
    → text_order (pad_end s n) (pad_end t n) ≡ fraction_order s t
unfolding fraction_order
order-pad_end s t n h k =
    let m = max (length s) (length t) in
    let hm : length s ≤ m = omega arith in
    let km : length t ≤ m = omega arith in
    let split : n ≡ m + (n - m) = omega (arith, h, k) in
    ap (λ i. text_order (pad_end s i) (pad_end t i)) split
    ∙ ap (λ p. text_order p (pad_end t (m + (n - m)))) (pad_end-add s m (n - m) hm)
    ∙ ap (λ p. text_order (pad_end s m ++ zeros (n - m)) p) (pad_end-add t m (n - m) km)
    ∙ text_order_append (pad_end s m) (pad_end t m) (zeros (n - m))
        (length-pad_end s m hm ∙ sym (length-pad_end t m km))

pub fraction_order_swap : (f g : Text) → fraction_order g f ≡ opposite (fraction_order f g)
fraction_order_swap f g =
    let n = length f + length g in
    let hf : length f ≤ n = omega arith in
    let hg : length g ≤ n = omega arith in
    sym (order-pad_end g f n hg hf)
    ∙ text_order_swap (pad_end f n) (pad_end g n)
    ∙ ap opposite (order-pad_end f g n hf hg)

pub fraction_order_trans :
    (f g h : Text)
    → not_after (fraction_order f g) ≡ true
    → not_after (fraction_order g h) ≡ true
    → not_after (fraction_order f h) ≡ true
fraction_order_trans f g h p q =
    let n = length f + length g + length h in
    let hf : length f ≤ n = omega arith in
    let hg : length g ≤ n = omega arith in
    let hh : length h ≤ n = omega arith in
    ap not_after (sym (order-pad_end f h n hf hh))
    ∙ text_order_trans (pad_end f n) (pad_end g n) (pad_end h n)
        (ap not_after (order-pad_end f g n hf hg) ∙ p)
        (ap not_after (order-pad_end g h n hg hh) ∙ q)

pub then_by_swap :
    (s t x y : Sign) → t ≡ opposite s → y ≡ opposite x → then_by t y ≡ opposite (then_by s x)
then_by_swap before t x y h k = ap (λ z. then_by z y) h
then_by_swap same t x y h k = ap (λ z. then_by z y) h ∙ k
then_by_swap after t x y h k = ap (λ z. then_by z y) h

-- The first sign that is not `same` decides, three times over.
signs_trans :
    (p q r x y z : Sign)
    → (p ≡ same → r ≡ q)
    → (q ≡ same → r ≡ p)
    → (p ≡ before → q ≡ before → r ≡ before)
    → not_after (then_by p x) ≡ true
    → not_after (then_by q y) ≡ true
    → (not_after x ≡ true → not_after y ≡ true → not_after z ≡ true)
    → not_after (then_by r z) ≡ true
unfolding not_after
signs_trans same same r x y z e f g h k rest = rw (e refl) (rest h k)
signs_trans same before r x y z e f g h k rest = rw (e refl) refl
signs_trans before same r x y z e f g h k rest = rw (f refl) refl
signs_trans before before r x y z e f g h k rest = rw (g refl refl) refl
signs_trans same after r x y z e f g h k rest = ground arith
signs_trans before after r x y z e f g h k rest = ground arith
signs_trans after q r x y z e f g h k rest = ground arith

both_before :
    (a b c : Text) (r : Sign)
    → text_order a c ≡ r
    → text_order a b ≡ before
    → text_order b c ≡ before
    → r ≡ before
unfolding not_after
both_before a b c before e h k = refl
both_before a b c same e h k =
    let back : text_order c b ≡ before = ap (λ t. text_order t b) (sym (same_text a c e)) ∙ h in
    let swap = text_order_swap b c in cc
both_before a b c after e h k =
    let held = text_order_trans a b c (ap not_after h) (ap not_after k) in ground (arith, held, e)

pub then_by_trans :
    (a b c : Text) (x y z : Sign)
    → not_after (then_by (text_order a b) x) ≡ true
    → not_after (then_by (text_order b c) y) ≡ true
    → (not_after x ≡ true → not_after y ≡ true → not_after z ≡ true)
    → not_after (then_by (text_order a c) z) ≡ true
then_by_trans a b c x y z =
    signs_trans (text_order a b) (text_order b c) (text_order a c) x y z
      (λ e. ap (λ t. text_order t c) (same_text a b e))
      (λ e. ap (text_order a) (sym (same_text b c e))) (both_before a b c (text_order a c) refl)
