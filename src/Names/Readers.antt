-- ===== src/Names/Readers.antt =====
-- Readers of a message that match member names without regard to case, as Go's encoding/json does
-- into a struct, beside the gate's exact reading.
use chirindo.Prelude.{
  ◌≡◌, ◌≢◌, refl, ap, true, if◌then◌else◌, Option, none, some, List, Text, text_eq, text_eq_iff,
  text_eq_refl, text_eq→eq, Bool-cases, inl, inr, arith, All, includes, codes,
}
use chirindo.Json.{Json, Members, end, member, keys, get}
use chirindo.Js.{Js}
use chirindo.Names.Fold.{fold_name, case_variant, fold_collision, envelope_members}
use chirindo.Names.Fold.Laws.{
  FoldsDistinct, case_variant-none, fold_collision-none, fold_name-IsAscii,
}

module _ (js : Js) where
  -- The first member whose name folds like `k`, and the last one.
  unfoldable pub get_folded : Text → Members → Option Json
  get_folded k end = none
  get_folded k (member j v ms) =
      if text_eq (fold_name js j) (fold_name js k) then some v else get_folded k ms

  unfoldable pub get_last_folded : Text → Members → Option Json
  get_last_folded k end = none
  get_last_folded k (member j v ms) = elim (get_last_folded k ms) [
    | some later ↦ some later
    | none ↦ if text_eq (fold_name js j) (fold_name js k) then some v else none
  ]

  -- No member but one named exactly `n` folds like `n`.
  abbrev pub OnlyExact : Text → List Text → Type 0
  OnlyExact n = All (λ j. fold_name js j ≡ fold_name js n → j ≡ n)

  get_folded-eq-get : (n : Text) (ms : Members) → OnlyExact n (keys ms) → get_folded n ms ≡ get n ms
  unfolding get_folded get
  get_folded-eq-get n end h = refl
  get_folded-eq-get n (member j v ms) (exact, h) =
      elim (Bool-cases (text_eq (fold_name js j) (fold_name js n))) [
        | inl same ↦
            rw (same, exact (text_eq→eq (fold_name js j) (fold_name js n) same), text_eq_refl n)
        | inr other ↦ ground (
          arith,
          get_folded-eq-get n ms h,
          text_eq_iff j n,
          ap (fold_name js) {x = j} {y = n},
          text_eq_iff (fold_name js j) (fold_name js n),
        )
      ]

  get_last_folded-none :
      (n f : Text) (ms : Members)
      → f ≡ fold_name js n
      → All (λ k. f ≢ fold_name js k) (keys ms)
      → get_last_folded n ms ≡ none
  unfolding get_last_folded
  get_last_folded-none n f end e h = refl
  get_last_folded-none n f (member k v ms) e (ne, h) =
      ground
        (arith, get_last_folded-none n f ms e h, text_eq_iff (fold_name js k) (fold_name js n), ne)

  get_last_folded-eq-get :
      (n : Text) (ms : Members)
      → OnlyExact n (keys ms)
      → FoldsDistinct js (keys ms)
      → get_last_folded n ms ≡ get n ms
  unfolding get_last_folded get
  get_last_folded-eq-get n end h d = refl
  get_last_folded-eq-get n (member j v ms) (exact, h) (fresh, d) =
      elim (Bool-cases (text_eq (fold_name js j) (fold_name js n))) [
        | inl same ↦
            let e = text_eq→eq (fold_name js j) (fold_name js n) same in
            ground
              (arith, get_last_folded-none n (fold_name js j) ms e fresh, exact e, text_eq_iff j n)
        | inr other ↦ ground (
          arith,
          get_last_folded-eq-get n ms h d,
          text_eq_iff j n,
          ap (fold_name js) {x = j} {y = n},
          text_eq_iff (fold_name js j) (fold_name js n),
        )
      ]

  envelope-fixed : All (λ m. fold_name js m ≡ m) envelope_members
  envelope-fixed = (
    fold_name-IsAscii js (codes "jsonrpc") (omega arith),
    (
      fold_name-IsAscii js (codes "id") (omega arith),
      (
        fold_name-IsAscii js (codes "method") (omega arith),
        (fold_name-IsAscii js (codes "params") (omega arith), tt),
      ),
    ),
  )

  -- When no top-level member is an envelope member in another case and no two members fold alike, a
  -- reader that ignores case, taking the first or the last member that fits, finds at each of
  -- jsonrpc, id, method and params the very member that the gate reads there, or none as the gate.
  pub readers_agree :
      (ms : Members) (n : Text)
      → includes envelope_members n ≡ true
      → case_variant js (keys ms) envelope_members ≡ none
      → fold_collision js (keys ms) ≡ none
      → (get_folded n ms ≡ get n ms) × (get_last_folded n ms ≡ get n ms)
  readers_agree ms n i free apart =
      let exact = case_variant-none js (keys ms) envelope_members n envelope-fixed i free in
      (
        get_folded-eq-get n ms exact,
        get_last_folded-eq-get n ms exact (fold_collision-none js (keys ms) apart),
      )
