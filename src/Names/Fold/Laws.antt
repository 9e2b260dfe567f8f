-- ===== src/Names/Fold/Laws.antt =====
-- The member-name tests of src/member-names.ts and the fold of ASCII names.
use chirindo.Prelude.{
  ℕ, ◌+◌, ◌<◌, ◌≡◌, ◌≢◌, refl, sym, ◌∙◌, ap, true, ◌&&◌, leb, if◌then◌else◌, none, List, [], ◌∷◌,
  map, Text, text_eq, text_eq→eq, text_eq_iff, includes, Bool-cases, Option-cases, inl, inr, arith,
  All, All-map,
}
use chirindo.Js.{Js}
use chirindo.Names.Fold.{
  chars, fold_char, fold_chars, fold_name, name_of_fold, case_variant, seen_with, collision_loop,
  fold_collision,
}

-- The simple lower case of an ASCII letter.
abbrev pub ascii_lower : ℕ → ℕ
ascii_lower c = if leb 0x41 c && leb c 0x5a then c + 0x20 else c

abbrev pub IsAscii : Text → Type 0
IsAscii = All (λ c. c < 0x80)

abbrev pub single : ℕ → Text
single c = c ∷ []

pub chars-IsAscii : (s : Text) → IsAscii s → chars s ≡ map single s
unfolding chars
chars-IsAscii [] h = refl
chars-IsAscii (a ∷ []) h = refl
chars-IsAscii (a ∷ b ∷ t) h = ground (arith, chars-IsAscii (b ∷ t) h.1)

module _ (js : Js) where
  fold_chars-IsAscii : (s : Text) → IsAscii s → fold_chars js (map single s) ≡ map ascii_lower s
  unfolding fold_chars fold_char
  fold_chars-IsAscii [] h = refl
  fold_chars-IsAscii (c ∷ s) h = ground (arith, fold_chars-IsAscii s h.1)

  -- The fold of an ASCII name is its lower case, whatever the Unicode tables say.
  pub fold_name-IsAscii : (s : Text) → IsAscii s → fold_name js s ≡ map ascii_lower s
  unfolding fold_name
  fold_name-IsAscii s h = rw (chars-IsAscii s h) (fold_chars-IsAscii s h)

  fixed_of_includes :
      (names : List Text) (n : Text)
      → All (λ m. fold_name js m ≡ m) names
      → includes names n ≡ true
      → fold_name js n ≡ n
  unfolding includes
  fixed_of_includes [] n h i = cc
  fixed_of_includes (m ∷ names) n h i = elim (Bool-cases (text_eq m n)) [
    | inl same ↦ rw (← text_eq→eq m n same) h.0
    | inr other ↦ fixed_of_includes names n h.1 (ground arith)
  ]

  name_of_fold-none :
      (names : List Text) (n f : Text)
      → name_of_fold js f names ≡ none
      → includes names n ≡ true
      → f ≢ fold_name js n
  unfolding name_of_fold includes
  name_of_fold-none [] n f h i = λ _. cc
  name_of_fold-none (m ∷ names) n f h i = λ e. elim (Bool-cases (text_eq m n)) [
    | inl same ↦
        ground (arith, ap (fold_name js) (text_eq→eq m n same), (text_eq_iff (fold_name js m) f).1)
    | inr other ↦ name_of_fold-none names n f (ground arith) (ground arith) e
  ]

  -- The one name of a list that folds like one of `names` is that name itself.
  pub case_variant-none :
      (ks names : List Text) (n : Text)
      → All (λ m. fold_name js m ≡ m) names
      → includes names n ≡ true
      → case_variant js ks names ≡ none
      → All (λ k. fold_name js k ≡ fold_name js n → k ≡ n) ks
  unfolding case_variant
  case_variant-none [] names n fixed i h = tt
  case_variant-none (key ∷ ks) names n fixed i h = elim (Bool-cases (includes names key)) [
    | inl named ↦ (
      λ e. sym (fixed_of_includes names key fixed named) ∙ e ∙ fixed_of_includes names n fixed i,
      case_variant-none ks names n fixed i (ground arith),
    )
    | inr foreign ↦ elim (Option-cases (name_of_fold js (fold_name js key) names)) [
      | inl free ↦ (
        λ e. absurd (name_of_fold-none names n (fold_name js key) free i e),
        case_variant-none ks names n fixed i (ground arith),
      )
      | inr (of_name, found) ↦ ground arith
    ]
  ]

  -- No two of the names have one fold.
  abbrev pub FoldsDistinct : List Text → Type 0
  FoldsDistinct [] = Unit
  FoldsDistinct (k ∷ ks) = All (λ j. fold_name js k ≢ fold_name js j) ks × FoldsDistinct ks

  seen_with-cons :
      (f g key : Text) (seen : List (Text × Text))
      → seen_with js f ((g, key) ∷ seen) ≡ none
      → (g ≢ f) × (seen_with js f seen ≡ none)
  unfolding seen_with
  seen_with-cons f g key seen h = (λ e. ground (arith, (text_eq_iff g f).1), ground arith)

  collision_loop-none :
      (seen : List (Text × Text)) (ks : List Text)
      → collision_loop js seen ks ≡ none
      → All (λ k. seen_with js (fold_name js k) seen ≡ none) ks × FoldsDistinct ks
  unfolding collision_loop
  collision_loop-none seen [] h = (tt, tt)
  collision_loop-none seen (key ∷ ks) h =
      elim (Option-cases (seen_with js (fold_name js key) seen)) [
        | inr (earlier, found) ↦ ground arith
        | inl fresh ↦
            let (unseen, distinct) =
              collision_loop-none ((fold_name js key, key) ∷ seen) ks (ground arith) in
            (
              (
                fresh,
                All-map (λ k u. (seen_with-cons (fold_name js k) (fold_name js key) key seen u).1)
                    ks unseen,
              ),
              (
                All-map (λ k u. (seen_with-cons (fold_name js k) (fold_name js key) key seen u).0)
                    ks unseen,
                distinct,
              ),
            )
      ]

  pub fold_collision-none : (ks : List Text) → fold_collision js ks ≡ none → FoldsDistinct ks
  unfolding fold_collision
  fold_collision-none ks h = (collision_loop-none [] ks h).1
