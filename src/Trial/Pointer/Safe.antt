-- ===== src/Trial/Pointer/Safe.antt =====
-- What the pointers of src/trial/rules.ts are made of, by POINTER_RE_SOURCE of src/purchase/reasons.ts.
use chirindo.Prelude.{
  ℕ, suc, zero, ◌+◌, ◌^◌, ◌<◌, ◌≤◌, ◌≡◌, refl, ap, ◌∙◌, Bool, true, false, ◌||◌, ◌&&◌, ◌==◌, leb,
  Option, none, some, List, [], ◌∷◌, ◌++◌, Text, codes, All, arith, length, take, all, map, pos,
  includes, Bool-cases, inl, inr,
}
use chirindo.Json.{
  Json, null, bool, num, int, str, arr, obj, Items, nil, cons, get, keys, has_own, elems,
}
use chirindo.Js.{Js}
use chirindo.Purchase.Time.{Dates, date_ok, is_digit}
use chirindo.Trial.Pointer.{
  Segment, key, index, key_char, safe_key, join, segment_text, pointer, unless, ◌<|>◌,
  printable_256, is_str, first_some, first_of, each_key, extra_key,
}
use chirindo.Trial.Order.{
  order_members, item_members, len_256, absent_or, in_item, item_path, item_checks, item_failure,
  items_loop, items_failure, order_checks, order_failure,
}

-- [A-Za-z0-9_~/-]
unfoldable pub pointer_char : ℕ → Bool
unfolding key_char
pointer_char c = key_char c || c == b'~' || c == b'/'

-- Whether a text matches POINTER_RE_SOURCE.
unfoldable pub pointer_re : Text → Bool
unfolding pointer_char
pointer_re [] = false
pointer_re (c ∷ t) = c == b'/' && leb (length t) 127 && all pointer_char t

all-append : (p : ℕ → Bool) (s t : Text) → all p s ≡ true → all p t ≡ true → all p (s ++ t) ≡ true
all-append p [] t h k = k
all-append p (c ∷ s) t h k =
    let rest = all-append p s t (ground (arith, h)) k in ground (arith, h, rest)

all-take : (p : ℕ → Bool) (n : ℕ) (t : Text) → all p t ≡ true → all p (take n t) ≡ true
all-take p zero t h = refl
all-take p (suc n) [] h = refl
all-take p (suc n) (c ∷ t) h =
    let rest = all-take p n t (ground (arith, h)) in ground (arith, h, rest)

length-take : (n : ℕ) (t : Text) → length (take n t) ≤ n
length-take zero t = omega arith
length-take (suc n) [] = omega arith
length-take (suc n) (c ∷ t) = omega (arith, length-take n t)

all-weaken :
    (p q : ℕ → Bool) (t : Text)
    → ((c : ℕ) → p c ≡ true → q c ≡ true)
    → all p t ≡ true
    → all q t ≡ true
all-weaken p q [] f h = refl
all-weaken p q (c ∷ t) f h =
    let now = f c (ground (arith, h)) in
    let rest = all-weaken p q t f (ground (arith, h)) in ground (arith, now, rest)

all-join :
    (parts : List Text)
    → All (λ s. all pointer_char s ≡ true) parts
    → all pointer_char (join parts) ≡ true
unfolding pointer_char key_char
all-join [] h = refl
all-join (s ∷ []) (h, e) = h
all-join (s ∷ t ∷ parts) (h, rest) =
    all-append pointer_char s (b'/' ∷ join (t ∷ parts)) h (all-join (t ∷ parts) rest)

-- The length of an array is less than 2 ** 32, and so is each index.
abbrev array_limit : ℕ
array_limit = 2 ^ 32

abbrev Indexed : Segment → Type 0
Indexed (key k) = Unit
Indexed (index n) = n < array_limit

Indexed-append :
    (path : List Segment) (k : Text) → All Indexed path → All Indexed (path ++ key k ∷ [])
Indexed-append [] k h = (tt, tt)
Indexed-append (s ∷ path) k (h, rest) = (h, Indexed-append path k rest)

-- The items of an order are no more than an array can have.
abbrev IsArray : Option Json → Type 0
IsArray (some (arr vs)) = length (elems vs) < array_limit
IsArray _ = Unit

abbrev pub HasArray : Json → Type 0
HasArray (obj o) = IsArray (get (codes "items") o)
HasArray _ = Unit

-- String writes an array index in digits.
abbrev pub WritesIndices : Js → Type 0
WritesIndices js =
    (n : ℕ) → n < array_limit → all is_digit (js.to_string (num (int (pos n)))) ≡ true

module _ (js : Js) (digits : WritesIndices js) where
  all-segment_text : (s : Segment) → Indexed s → all pointer_char (segment_text js s) ≡ true
  unfolding segment_text safe_key key_char pointer_char
  all-segment_text (key k) h = elim (Bool-cases (safe_key k)) [
    | inl e ↦
        let kept =
          all-weaken key_char pointer_char k (λ c h. ground (arith, h)) (ground (arith, e)) in
        rw e kept
    | inr e ↦ rw e refl
  ]
  all-segment_text (index n) h =
      all-weaken is_digit pointer_char (js.to_string (num (int (pos n)))) (λ c h. ground (arith, h))
        (digits n h)

  all-segments :
      (path : List Segment)
      → All Indexed path
      → All (λ s. all pointer_char s ≡ true) (map (segment_text js) path)
  all-segments [] h = tt
  all-segments (s ∷ path) (h, rest) = (all-segment_text s h, all-segments path rest)

  pointer_re-pointer :
      (path : List Segment) → All Indexed path → pointer_re (pointer js path) ≡ true
  unfolding pointer_re pointer
  pointer_re-pointer path h =
      let made = all-join (map (segment_text js) path) (all-segments path h) in
      let kept = all-take pointer_char 127 (join (map (segment_text js) path)) made in
      let short = length-take 127 (join (map (segment_text js) path)) in ground (arith, kept, short)

  -- No failure, or one whose pointer matches.
  abbrev Safe : Option Text → Type 0
  Safe none = Unit
  Safe (some p) = pointer_re p ≡ true

  Safe-some : (o : Option Text) (p : Text) → Safe o → o ≡ some p → pointer_re p ≡ true
  Safe-some (some q) p h e = ap pointer_re (ground (arith, e)) ∙ h
  Safe-some none p h e = cc

  unless-Safe : (b : Bool) (p : Text) → pointer_re p ≡ true → Safe (unless b p)
  unless-Safe true p h = tt
  unless-Safe false p h = h

  or-Safe : (x y : Option Text) → Safe x → Safe y → Safe (x <|> y)
  or-Safe none y h k = k
  or-Safe (some p) y h k = h

  first_some-Safe : (os : List (Option Text)) → All Safe os → Safe (first_some os)
  first_some-Safe [] h = tt
  first_some-Safe (o ∷ os) (h, k) = or-Safe o (first_some os) h (first_some-Safe os k)

  extra-Safe :
      (members : List Text) (path : List Segment) (ks : List Text)
      → All Indexed path
      → Safe (first_of (extra_key js members path) ks)
  extra-Safe members path [] h = tt
  extra-Safe members path (k ∷ ks) h =
      or-Safe (extra_key js members path k) (first_of (extra_key js members path) ks)
        (unless-Safe (includes members k) _
          (pointer_re-pointer (path ++ key k ∷ []) (Indexed-append path k h)))
        (extra-Safe members path ks h)

  each_key-Safe :
      (ok : Text → Bool) (at : Text → Text) (ks : List Text)
      → All (λ k. pointer_re (at k) ≡ true) ks
      → Safe (each_key ok at ks)
  each_key-Safe ok at [] h = tt
  each_key-Safe ok at (k ∷ ks) (h, hs) =
      or-Safe (unless (ok k) (at k)) (each_key ok at ks) (unless-Safe (ok k) (at k) h)
        (each_key-Safe ok at ks hs)

  module _ (dates : Dates) where
    item_failure-Safe : (i : ℕ) (v : Json) → i < array_limit → Safe (item_failure js dates i v)
    unfolding item_failure
    item_failure-Safe i (obj it) h =
        let at = λ (k : Text).
          pointer_re-pointer (item_path js dates i ++ key k ∷ []) (tt, (tt, (h, (tt, tt)))) in
        first_some-Safe (item_checks js dates i it) (
          extra-Safe item_members (item_path js dates i) (keys it) (tt, (tt, (h, tt))),
          (
            each_key-Safe (λ k. has_own k it) (in_item js dates i)
                (codes "sku" ∷ codes "quantity" ∷ codes "unit_price_minor" ∷ [])
                (at (codes "sku"), (at (codes "quantity"), (at (codes "unit_price_minor"), tt))),
            (
              unless-Safe _ _ (at (codes "sku")),
              (
                unless-Safe _ _ (at (codes "quantity")),
                (
                  unless-Safe _ _ (at (codes "unit_price_minor")),
                  (
                    unless-Safe _ _ (at (codes "name")),
                    (
                      each_key-Safe (absent_or len_256 it) (in_item js dates i)
                          (codes "category" ∷ codes "location" ∷ [])
                          (at (codes "category"), (at (codes "location"), tt)),
                      (
                        unless-Safe _ _ (at (codes "refundable")),
                        (
                          each_key-Safe (absent_or (is_str (date_ok dates)) it) (in_item js dates i)
                              (codes "service_from" ∷ codes "service_until" ∷ [])
                              (at (codes "service_from"), (at (codes "service_until"), tt)),
                          (unless-Safe _ _ (at (codes "service_from")), tt),
                        ),
                      ),
                    ),
                  ),
                ),
              ),
            ),
          ),
        )
    item_failure-Safe i null h = pointer_re-pointer (item_path js dates i) (tt, (tt, (h, tt)))
    item_failure-Safe i (bool b) h = pointer_re-pointer (item_path js dates i) (tt, (tt, (h, tt)))
    item_failure-Safe i (num n) h = pointer_re-pointer (item_path js dates i) (tt, (tt, (h, tt)))
    item_failure-Safe i (str t) h = pointer_re-pointer (item_path js dates i) (tt, (tt, (h, tt)))
    item_failure-Safe i (arr vs) h = pointer_re-pointer (item_path js dates i) (tt, (tt, (h, tt)))

    items_loop-Safe :
        (i : ℕ) (vs : Items) → i + length (elems vs) ≤ array_limit → Safe (items_loop js dates i vs)
    unfolding items_loop
    items_loop-Safe i nil h = tt
    items_loop-Safe i (cons v vs) h =
        or-Safe (item_failure js dates i v) (items_loop js dates (suc i) vs)
          (item_failure-Safe i v (omega (arith, h))) (items_loop-Safe (suc i) vs (omega (arith, h)))

    items_failure-Safe : (v : Option Json) → IsArray v → Safe (items_failure js dates v)
    unfolding items_failure pointer_re pointer_char key_char
    items_failure-Safe (some (arr (cons v vs))) h = items_loop-Safe 0 (cons v vs) (omega (arith, h))
    items_failure-Safe (some (arr nil)) h = refl
    items_failure-Safe (some null) h = refl
    items_failure-Safe (some (bool b)) h = refl
    items_failure-Safe (some (num n)) h = refl
    items_failure-Safe (some (str t)) h = refl
    items_failure-Safe (some (obj ms)) h = refl
    items_failure-Safe none h = refl

    order_failure-Safe : (v : Json) → HasArray v → Safe (order_failure js dates v)
    unfolding order_failure pointer_re pointer_char key_char
    order_failure-Safe (obj o) h = first_some-Safe (order_checks js dates o) (
      extra-Safe order_members (key (codes "order") ∷ []) (keys o) (tt, tt),
      (
        unless-Safe _ _ refl,
        (
          unless-Safe _ _ refl,
          (
            each_key-Safe (absent_or (is_str printable_256) o) (λ k. codes "/order/" ++ k)
                (codes "merchant_order_id" ∷ codes "checkout_ref" ∷ []) (refl, (refl, tt)),
            (
              unless-Safe _ _ refl,
              (unless-Safe _ _ refl, (items_failure-Safe (get (codes "items") o) h, tt)),
            ),
          ),
        ),
      ),
    )
    order_failure-Safe null h = refl
    order_failure-Safe (bool b) h = refl
    order_failure-Safe (num n) h = refl
    order_failure-Safe (str t) h = refl
    order_failure-Safe (arr vs) h = refl

-- Where String writes array indices in digits, and the items of an order are as many as an array can
-- have: the pointer of a fault that orderFailure finds, whatever the value, matches
-- POINTER_RE_SOURCE, so it has at most 128 characters and none of the value's own text but member
-- names of letters, digits, - and _.
pub order_failure-pointer_re :
    (js : Js) (digits : WritesIndices js) (dates : Dates) (v : Json) (p : Text)
    → HasArray v
    → order_failure js dates v ≡ some p
    → pointer_re p ≡ true
unfolding order_failure
order_failure-pointer_re js digits dates v p short h =
    Safe-some js digits (order_failure js dates v) p (order_failure-Safe js digits dates v short) h
