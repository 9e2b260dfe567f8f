-- ===== src/Purchase/Jcs/Order.antt =====
-- Member order under jcs of src/purchase/m6.ts.
use chirindo.Prelude.{
  ◌≡◌, ◌≢◌, refl, sym, ap, ◌∙◌, Bool, true, false, Option, none, some, List, [], ◌∷◌, Text, arith,
  text_order, not_after, Sign, before, same, after, opposite, text_order_swap, text_order_trans,
  same_text, Bool-cases, Option-cases, inl, inr,
}
use chirindo.Json.{Json, obj, Members, member}
use chirindo.Js.{Js}
use chirindo.Purchase.Jcs.{Written, insert, sort, jcs, jcs_members, members_text}

-- The members of an object in another order, each name once.
pub data Reordered : Members → Members → Type 0 where
  alike : (ms : Members) → Reordered ms ms
  within :
      (k : Text) (v : Json) (ms ns : Members)
      → Reordered ms ns
      → Reordered (member k v ms) (member k v ns)
  swapped :
      (k l : Text) (v w : Json) (ms : Members)
      → k ≢ l
      → Reordered (member k v (member l w ms)) (member l w (member k v ms))
  then : (ms ns os : Members) → Reordered ms ns → Reordered ns os → Reordered ms os

abbrev le : Text → Text → Bool
le k l = not_after (text_order k l)

le_total : (k l : Text) → le k l ≡ false → le l k ≡ true
unfolding not_after
le_total k l h = let swap = text_order_swap k l in ground (arith, swap, h)

antisym_signs : (s t : Sign) → t ≡ opposite s → not_after s ≡ true → not_after t ≡ true → s ≡ same
unfolding not_after
antisym_signs same t e h k = refl
antisym_signs before t e h k = ground (arith, e, k)
antisym_signs after t e h k = ground (arith, h)

le_apart : (k l : Text) → k ≢ l → le k l ≡ true → le l k ≡ false
le_apart k l apart h = elim (Bool-cases (le l k)) [
  | inr e ↦ e
  | inl e ↦ absurd (
      apart
        (same_text k l (antisym_signs (text_order k l) (text_order l k) (text_order_swap k l) h e)))
]

insert_first :
    (m n : Written) (ns : List Written) → le m.0 n.0 ≡ true → insert m (n ∷ ns) ≡ m ∷ n ∷ ns
unfolding insert
insert_first m n ns h = ground (arith, h)

insert_later :
    (m n : Written) (ns : List Written) → le m.0 n.0 ≡ false → insert m (n ∷ ns) ≡ n ∷ insert m ns
unfolding insert
insert_later m n ns h = ground (arith, h)

-- The first of two that go into one place.
insert_before :
    (m n : Written) (l : List Written)
    → le m.0 n.0 ≡ true
    → le n.0 m.0 ≡ false
    → insert m (insert n l) ≡ insert n (insert m l)
unfolding insert
insert_before m n [] h k = insert_first m n [] h ∙ sym (insert_later n m [] k)
insert_before m n (o ∷ l) h k = elim (Bool-cases (le n.0 o.0)) [
  | inl on ↦
      let mo = text_order_trans m.0 n.0 o.0 h on in
      ap (insert m) (insert_first n o l on)
      ∙ insert_first m n (o ∷ l) h
      ∙ ap (λ r. m ∷ r) (sym (insert_first n o l on))
      ∙ sym (ap (insert n) (insert_first m o l mo) ∙ insert_later n m (o ∷ l) k)
  | inr on ↦ elim (Bool-cases (le m.0 o.0)) [
    | inl mo ↦
        ap (insert m) (insert_later n o l on)
        ∙ insert_first m o (insert n l) mo
        ∙ ap (λ r. m ∷ r) (sym (insert_later n o l on))
        ∙ sym (ap (insert n) (insert_first m o l mo) ∙ insert_later n m (o ∷ l) k)
    | inr mo ↦
        ap (insert m) (insert_later n o l on)
        ∙ insert_later m o (insert n l) mo
        ∙ ap (λ r. o ∷ r) (insert_before m n l h k)
        ∙ sym (ap (insert n) (insert_later m o l mo) ∙ insert_later n o (insert m l) on)
  ]
]

insert-swap :
    (m n : Written) (l : List Written) → m.0 ≢ n.0 → insert m (insert n l) ≡ insert n (insert m l)
insert-swap m n l apart = elim (Bool-cases (le m.0 n.0)) [
  | inl h ↦ insert_before m n l h (le_apart m.0 n.0 apart h)
  | inr h ↦ let back = le_total m.0 n.0 h in sym (insert_before n m l back h)
]

abbrev sorted : Option (List Written) → Option (List Written)
sorted none = none
sorted (some ms) = some (sort ms)

abbrev with_member : Written → Option (List Written) → Option (List Written)
with_member m none = none
with_member m (some ms) = some (insert m ms)

module _ (js : Js) (quote : Text → Text) where
  abbrev written : Members → Option (List Written)
  written ms = sorted (jcs_members js quote ms)

  written-member :
      (k : Text) (v : Json) (ms : Members) (s : Text)
      → jcs js quote v ≡ some s
      → written (member k v ms) ≡ with_member (k, s) (written ms)
  unfolding jcs sort
  written-member k v ms s e = elim (Option-cases (jcs_members js quote ms)) [
    | inl m ↦ rw (e, m) refl
    | inr (w, m) ↦ rw (e, m) refl
  ]

  written-none :
      (k : Text) (v : Json) (ms : Members) → jcs js quote v ≡ none → written (member k v ms) ≡ none
  unfolding jcs
  written-none k v ms e = rw e refl

  with_member-swap :
      (m n : Written) (o : Option (List Written))
      → m.0 ≢ n.0
      → with_member m (with_member n o) ≡ with_member n (with_member m o)
  with_member-swap m n none apart = refl
  with_member-swap m n (some l) apart = ap some (insert-swap m n l apart)

  two_members :
      (k l : Text) (v w : Json) (ms : Members) (s r : Text)
      → jcs js quote v ≡ some s
      → jcs js quote w ≡ some r
      → written (member k v (member l w ms)) ≡ with_member (k, s) (with_member (l, r) (written ms))
  two_members k l v w ms s r e f =
      written-member k v (member l w ms) s e ∙ ap (with_member (k, s)) (written-member l w ms r f)

  sides_none :
      (k l : Text) (v w : Json) (ms : Members)
      → jcs js quote v ≡ none
      → written (member k v (member l w ms)) ≡ written (member l w (member k v ms))
  sides_none k l v w ms e = elim (Option-cases (jcs js quote w)) [
    | inl f ↦ written-none k v (member l w ms) e ∙ sym (written-none l w (member k v ms) f)
    | inr (r, f) ↦
        written-none k v (member l w ms) e
        ∙ sym (
            written-member l w (member k v ms) r f
            ∙ ap (with_member (l, r)) (written-none k v ms e))
  ]

  written-Reordered : (ms ns : Members) → Reordered ms ns → written ms ≡ written ns
  written-Reordered _ _ (alike os) = refl
  written-Reordered _ _ (then ms os ns h k) = written-Reordered ms os h ∙ written-Reordered os ns k
  written-Reordered _ _ (within k v ms' ns' h) = elim (Option-cases (jcs js quote v)) [
    | inl e ↦ written-none k v ms' e ∙ sym (written-none k v ns' e)
    | inr (s, e) ↦
        written-member k v ms' s e
        ∙ ap (with_member (k, s)) (written-Reordered ms' ns' h)
        ∙ sym (written-member k v ns' s e)
  ]
  written-Reordered _ _ (swapped k l v w os apart) = elim (Option-cases (jcs js quote v)) [
    | inl e ↦ sides_none k l v w os e
    | inr (s, e) ↦ elim (Option-cases (jcs js quote w)) [
      | inl f ↦ sym (sides_none l k w v os f)
      | inr (r, f) ↦
          two_members k l v w os s r e f
          ∙ with_member-swap (k, s) (l, r) (written os) apart
          ∙ sym (two_members l k w v os r s f e)
    ]
  ]

  abbrev wrapped : Option (List Written) → Option Text
  wrapped none = none
  wrapped (some ms) = some (members_text js quote ms)

  jcs_of_written : (ms : Members) → jcs js quote (obj ms) ≡ wrapped (written ms)
  unfolding jcs
  jcs_of_written ms = elim (Option-cases (jcs_members js quote ms)) [
    | inl e ↦ rw e refl
    | inr (w, e) ↦ rw e refl
  ]

-- The members of an object may stand in any order: jcs writes the same text, or throws for both.
pub jcs-Reordered :
    (js : Js) (quote : Text → Text) (ms ns : Members)
    → Reordered ms ns
    → jcs js quote (obj ms) ≡ jcs js quote (obj ns)
jcs-Reordered js quote ms ns h =
    jcs_of_written js quote ms
    ∙ ap (wrapped js quote) (written-Reordered js quote ms ns h)
    ∙ sym (jcs_of_written js quote ns)
