-- ===== src/Trial/Screen/Luhn.antt =====
-- The check digit of src/trial/rules.ts, luhn.
use chirindo.Prelude.{
  ℕ, ◌+◌, ◌-◌, ◌%◌, ◌≤◌, ◌≡◌, ◌≢◌, refl, sym, ◌∙◌, ap, Bool, true, false, not, [], ◌∷◌, ◌++◌, Text,
  arith, Bool-cases, inl, inr,
}
use chirindo.Record.File.Laws.{append_assoc}
use chirindo.Purchase.Time.{is_digit}
use chirindo.Trial.Screen.{luhn_digit, luhn_sum, reverse_onto, luhn}

reverse_onto-append :
    (s t acc : Text) → reverse_onto (s ++ t) acc ≡ reverse_onto t (reverse_onto s acc)
unfolding reverse_onto
reverse_onto-append [] t acc = refl
reverse_onto-append (c ∷ s) t acc = reverse_onto-append s t (c ∷ acc)

reverse_onto-end : (t acc : Text) → reverse_onto t acc ≡ reverse_onto t [] ++ acc
unfolding reverse_onto
reverse_onto-end [] acc = refl
reverse_onto-end (c ∷ t) acc =
    reverse_onto-end t (c ∷ acc)
    ∙ sym (append_assoc (reverse_onto t []) (c ∷ []) acc)
    ∙ ap (λ r. r ++ acc) (sym (reverse_onto-end t (c ∷ [])))

-- The digit in the middle is added once, doubled or not; the rest does not depend on it.
sum_around :
    (double : Bool) (x y : Text)
    → (rest : ℕ) × (b : Bool) × ((d : ℕ)
        → luhn_sum double (x ++ d ∷ y) ≡ rest + luhn_digit b (d - b'0'))
unfolding luhn_sum
sum_around double [] y = (luhn_sum (not double) y, double, λ d. omega arith)
sum_around double (c ∷ x) y =
    let (rest, b, e) = sum_around (not double) x y in
    (luhn_digit double (c - b'0') + rest, b, λ d. omega (arith, e d))

luhn_digit-apart : (b : Bool) (d e : ℕ) → d ≤ 9 → e ≤ 9 → luhn_digit b d ≡ luhn_digit b e → d ≡ e
unfolding luhn_digit
luhn_digit-apart false d e hd he h = h
luhn_digit-apart true d e hd he h = ground (arith, hd, he, h)

luhn_digit_le : (b : Bool) (d : ℕ) → d ≤ 9 → luhn_digit b d ≤ 9
unfolding luhn_digit
luhn_digit_le false d h = h
luhn_digit_le true d h = ground (arith, h)

reversed :
    (s t : Text) (c : ℕ) → reverse_onto (s ++ c ∷ t) [] ≡ reverse_onto t [] ++ c ∷ reverse_onto s []
unfolding reverse_onto
reversed s t c = reverse_onto-append s (c ∷ t) [] ∙ reverse_onto-end t (c ∷ reverse_onto s [])

same_digit : (rest u v : ℕ) → u ≤ 9 → v ≤ 9 → (rest + u) % 10 ≡ 0 → (rest + v) % 10 ≡ 0 → u ≡ v
same_digit rest u v hu hv h k = omega (arith, hu, hv, h, k)

-- A digit text with a right check digit has a wrong one after any one digit is replaced by another.
pub luhn-changed_digit :
    (s t : Text) (d e : ℕ)
    → is_digit d ≡ true
    → is_digit e ≡ true
    → d ≢ e
    → luhn (s ++ d ∷ t) ≡ true
    → luhn (s ++ e ∷ t) ≡ false
unfolding luhn
luhn-changed_digit s t d e hd he apart h =
    let (rest, b, sum) = sum_around false (reverse_onto t []) (reverse_onto s []) in
    let total = λ (c : ℕ). ap (luhn_sum false) (reversed s t c) ∙ sum c in
    let dd : d - b'0' ≤ 9 = ground (arith, hd) in
    let ee : e - b'0' ≤ 9 = ground (arith, he) in
    elim (Bool-cases (luhn (s ++ e ∷ t))) [
      | inr bad ↦ bad
      | inl good ↦
          let now : (rest + luhn_digit b (d - b'0')) % 10 ≡ 0 =
            rw (← total d) (ground (arith, h)) in
          let then : (rest + luhn_digit b (e - b'0')) % 10 ≡ 0 =
            rw (← total e) (ground (arith, good)) in
          let alike = luhn_digit-apart b (d - b'0') (e - b'0') dd ee (
            same_digit rest (luhn_digit b (d - b'0')) (luhn_digit b (e - b'0'))
              (luhn_digit_le b (d - b'0') dd) (luhn_digit_le b (e - b'0') ee) now then) in
          let equal : d ≡ e = ground (arith, hd, he, alike) in absurd (apart equal)
    ]
