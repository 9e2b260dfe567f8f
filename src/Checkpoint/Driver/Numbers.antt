-- ===== src/Checkpoint/Driver/Numbers.antt =====
-- Numbers of the checkpoint objects of ProxyCheckpointer, in the order of building.
use chirindo.Prelude.{ℕ, suc, ◌≤◌, ◌<◌, ◌≡◌, refl, ap, false, List, [], ◌∷◌, ◌++◌, arith}
use chirindo.Checkpoint.Driver.{Built, SidecarLine, has}

-- The numbers increase, from `low` on and below `high`.
unfoldable pub Increasing : ℕ → List ℕ → ℕ → Type 0
Increasing low [] high = low ≤ high
Increasing low (n ∷ ns) high = (low ≤ n) × Increasing (suc n) ns high

unfoldable pub ids : List Built → List ℕ
ids [] = []
ids (b ∷ bs) = b.id ∷ ids bs

unfoldable pub line_ids : List SidecarLine → List ℕ
line_ids [] = []
line_ids (l ∷ ls) = l.checkpoint.id ∷ line_ids ls

pub Increasing-lower :
    (m low high : ℕ) (ns : List ℕ) → m ≤ low → Increasing low ns high → Increasing m ns high
unfolding Increasing
Increasing-lower m low high [] le h = omega (arith, le, h)
Increasing-lower m low high (n ∷ ns) le (first, rest) = (omega (arith, le, first), rest)

pub Increasing-next :
    (low high : ℕ) (ns : List ℕ)
    → Increasing low ns high
    → Increasing low (ns ++ high ∷ []) (suc high)
unfolding Increasing
Increasing-next low high [] h = (h, omega arith)
Increasing-next low high (n ∷ ns) (first, rest) = (first, Increasing-next (suc n) high ns rest)

pub Increasing-delete :
    (low high n : ℕ) (ms ns : List ℕ)
    → Increasing low (ms ++ n ∷ ns) high
    → Increasing low (ms ++ ns) high
unfolding Increasing
Increasing-delete low high n [] ns (first, rest) =
    Increasing-lower low (suc n) high ns (omega (arith, first)) rest
Increasing-delete low high n (m ∷ ms) ns (first, rest) =
    (first, Increasing-delete (suc m) high n ms ns rest)

pub Increasing-prefix :
    (low high : ℕ) (ms ns : List ℕ) → Increasing low (ms ++ ns) high → Increasing low ns high
unfolding Increasing
Increasing-prefix low high [] ns h = h
Increasing-prefix low high (m ∷ ms) ns h =
    Increasing-prefix low high ms ns (Increasing-delete low high m [] (ms ++ ns) h)

pub ids-append : (xs ys : List Built) → ids (xs ++ ys) ≡ ids xs ++ ids ys
unfolding ids
ids-append [] ys = refl
ids-append (x ∷ xs) ys = ap (λ l. x.id ∷ l) (ids-append xs ys)

pub line_ids-append :
    (ls : List SidecarLine) (l : SidecarLine)
    → line_ids (ls ++ l ∷ []) ≡ line_ids ls ++ l.checkpoint.id ∷ []
unfolding line_ids
line_ids-append [] l = refl
line_ids-append (x ∷ ls) l = ap (λ ns. x.checkpoint.id ∷ ns) (line_ids-append ls l)

-- An object older than those of a set is not in it.
pub has-older :
    (b : Built) (low high : ℕ) (bs : List Built)
    → b.id < low
    → Increasing low (ids bs) high
    → has b bs ≡ false
unfolding ids Increasing has
has-older b low high [] older h = refl
has-older b low high (x ∷ xs) older (first, rest) =
    let later = has-older b (suc x.id) high xs (omega (arith, older, first)) rest in
    ground (arith, older, first, later)

pub Increasing-upper :
    (low high : ℕ) (ns : List ℕ) → Increasing low ns high → Increasing low ns (suc high)
unfolding Increasing
Increasing-upper low high [] h = omega (arith, h)
Increasing-upper low high (n ∷ ns) (first, rest) = (first, Increasing-upper (suc n) high ns rest)
