-- ===== src/Prelude/Compare.antt =====
-- The order of JavaScript strings: by UTF-16 code units, a proper prefix first.
use mathlib.Core.Path.{◌≡◌, refl, ap₂}
use mathlib.Core.Bool.{Bool, true, false}
use mathlib.Core.List.{[], ◌∷◌, ◌++◌}
use native.Mathlib.Omega.{arith}
use chirindo.Prelude.Tests.{ltb, if◌then◌else◌}
use chirindo.Prelude.Lists.{length}
use chirindo.Prelude.Utf16.{Text}

-- -1, 0 and 1, the signs of a comparison.
pub data Sign : Type 0 where
  before same after : Sign

abbrev pub opposite : Sign → Sign
opposite before = after
opposite same = same
opposite after = before

-- The sign of `s` against `t`: s < t, s === t, s > t.
unfoldable pub text_order : Text → Text → Sign
text_order [] [] = same
text_order [] (d ∷ t) = before
text_order (c ∷ s) [] = after
text_order (c ∷ s) (d ∷ t) =
    let rest = text_order s t in if ltb c d then before else if ltb d c then after else rest

-- s <= t
unfoldable pub not_after : Sign → Bool
not_after after = false
not_after _ = true

pub text_order_refl : (s : Text) → text_order s s ≡ same
unfolding text_order
text_order_refl [] = refl
text_order_refl (c ∷ s) = let ih = text_order_refl s in ground (arith, ih)

pub text_order_swap : (s t : Text) → text_order t s ≡ opposite (text_order s t)
unfolding text_order
text_order_swap [] [] = refl
text_order_swap [] (d ∷ t) = refl
text_order_swap (c ∷ s) [] = refl
text_order_swap (c ∷ s) (d ∷ t) = let ih = text_order_swap s t in ground (arith, ih)

pub same_text : (s t : Text) → text_order s t ≡ same → s ≡ t
unfolding text_order
same_text [] [] h = refl
same_text [] (d ∷ t) h = ground arith
same_text (c ∷ s) [] h = ground arith
same_text (c ∷ s) (d ∷ t) h =
    let rest : text_order s t ≡ same = ground (arith, h) in
    ap₂ ◌∷◌ (ground (arith, h)) (same_text s t rest)

pub text_order_trans :
    (s t u : Text)
    → not_after (text_order s t) ≡ true
    → not_after (text_order t u) ≡ true
    → not_after (text_order s u) ≡ true
unfolding text_order not_after
text_order_trans [] t [] h k = refl
text_order_trans [] t (e ∷ u) h k = refl
text_order_trans (c ∷ s) [] u h k = ground arith
text_order_trans (c ∷ s) (d ∷ t) [] h k = ground arith
text_order_trans (c ∷ s) (d ∷ t) (e ∷ u) h k =
    let ih = text_order_trans s t u in ground (arith, ih, h, k)

-- Texts of one length that go on alike compare as they did.
pub text_order_append :
    (s t u : Text) → length s ≡ length t → text_order (s ++ u) (t ++ u) ≡ text_order s t
unfolding text_order
text_order_append [] [] u h = text_order_refl u
text_order_append [] (d ∷ t) u h = ground arith
text_order_append (c ∷ s) [] u h = ground arith
text_order_append (c ∷ s) (d ∷ t) u h =
    let ih = text_order_append s t u (omega (arith, h)) in ground (arith, ih)
