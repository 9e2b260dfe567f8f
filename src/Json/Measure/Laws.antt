-- ===== src/Json/Measure/Laws.antt =====
-- The two loops of src/rpc.ts over a value beside recursions on the value.
use chirindo.Prelude.{
  ℕ, zero, suc, ◌+◌, ◌<◌, ◌≡◌, refl, ◌∙◌, ap, Bool, false, ◌||◌, ltb, arith, max, some, List, [],
  ◌∷◌,
}
use chirindo.Json.{Json, null, bool, num, str, arr, obj, Items, nil, cons, Members, end, member}
use chirindo.Json.Measure.{
  not_finite, push_items, push_members, non_finite_loop, size, size_items, size_members,
  has_non_finite_number, push_items_at, push_members_at, push_children, depth_loop, exceeds_depth,
}

unfoldable mutual
  -- Whether a number that is not finite stands anywhere in a value.
  pub non_finite : Json → Bool
  non_finite (num n) = not_finite n
  non_finite (arr vs) = non_finite_items vs
  non_finite (obj ms) = non_finite_members ms
  non_finite _ = false

  pub non_finite_items : Items → Bool
  non_finite_items nil = false
  non_finite_items (cons v vs) = non_finite v || non_finite_items vs

  pub non_finite_members : Members → Bool
  non_finite_members end = false
  non_finite_members (member k v ms) = non_finite v || non_finite_members ms

non_finite_stack : List Json → Bool
non_finite_stack [] = false
non_finite_stack (v ∷ stack) = non_finite v || non_finite_stack stack

size_stack : List Json → ℕ
size_stack [] = 0
size_stack (v ∷ stack) = size v + size_stack stack

non_finite-push_items :
    (vs : Items) (stack : List Json)
    → non_finite_stack (push_items vs stack) ≡ (non_finite_items vs || non_finite_stack stack)
unfolding push_items non_finite_stack non_finite
non_finite-push_items nil stack = refl
non_finite-push_items (cons v vs) stack = ground (arith, non_finite-push_items vs (v ∷ stack))

non_finite-push_members :
    (ms : Members) (stack : List Json)
    → non_finite_stack (push_members ms stack) ≡ (non_finite_members ms || non_finite_stack stack)
unfolding push_members non_finite_stack non_finite
non_finite-push_members end stack = refl
non_finite-push_members (member k v ms) stack =
    ground (arith, non_finite-push_members ms (v ∷ stack))

size-push_items :
    (vs : Items) (stack : List Json)
    → size_stack (push_items vs stack) ≡ size_items vs + size_stack stack
unfolding push_items size_stack size
size-push_items nil stack = omega arith
size-push_items (cons v vs) stack = omega (arith, size-push_items vs (v ∷ stack))

size-push_members :
    (ms : Members) (stack : List Json)
    → size_stack (push_members ms stack) ≡ size_members ms + size_stack stack
unfolding push_members size_stack size
size-push_members end stack = omega arith
size-push_members (member k v ms) stack = omega (arith, size-push_members ms (v ∷ stack))

non_finite_loop_lem :
    (fuel : ℕ) (stack : List Json)
    → size_stack stack < fuel
    → non_finite_loop fuel stack ≡ some (non_finite_stack stack)
unfolding non_finite_loop size_stack size non_finite_stack non_finite
non_finite_loop_lem zero stack h = absurd (omega arith)
non_finite_loop_lem (suc fuel) [] h = refl
non_finite_loop_lem (suc fuel) (num n ∷ stack) h = ground (arith, non_finite_loop_lem fuel stack)
non_finite_loop_lem (suc fuel) (arr vs ∷ stack) h =
    non_finite_loop_lem fuel (push_items vs stack) (omega (arith, size-push_items vs stack))
    ∙ ap some (non_finite-push_items vs stack)
non_finite_loop_lem (suc fuel) (obj ms ∷ stack) h =
    non_finite_loop_lem fuel (push_members ms stack) (omega (arith, size-push_members ms stack))
    ∙ ap some (non_finite-push_members ms stack)
non_finite_loop_lem (suc fuel) (null ∷ stack) h = non_finite_loop_lem fuel stack (omega arith)
non_finite_loop_lem (suc fuel) (bool b ∷ stack) h = non_finite_loop_lem fuel stack (omega arith)
non_finite_loop_lem (suc fuel) (str s ∷ stack) h = non_finite_loop_lem fuel stack (omega arith)

-- For every value the stack loop of hasNonFiniteNumber ends within its fuel with true exactly when a
-- number that is not finite stands somewhere in the value.
pub has_non_finite_number-eq-non_finite :
    (v : Json)
    → (non_finite_loop (suc (size v)) (v ∷ []) ≡ some (non_finite v))
      × (has_non_finite_number v ≡ non_finite v)
unfolding has_non_finite_number size_stack non_finite_stack
has_non_finite_number-eq-non_finite v =
    let e : non_finite_loop (suc (size v)) (v ∷ []) ≡ some (non_finite v || false) =
      non_finite_loop_lem (suc (size v)) (v ∷ []) (omega arith) in
    (ground arith, ground arith)

unfoldable mutual
  -- The level of the deepest value below a value that stands at level 0.
  pub height : Json → ℕ
  height (arr vs) = height_items vs
  height (obj ms) = height_members ms
  height _ = 0

  pub height_items : Items → ℕ
  height_items nil = 0
  height_items (cons v vs) = max (suc (height v)) (height_items vs)

  pub height_members : Members → ℕ
  height_members end = 0
  height_members (member k v ms) = max (suc (height v)) (height_members ms)

-- The deepest level that a stack leads to.
deepest : List (Json × ℕ) → ℕ
deepest [] = 0
deepest ((v, d) ∷ stack) = max (d + height v) (deepest stack)

size_stack_at : List (Json × ℕ) → ℕ
size_stack_at [] = 0
size_stack_at ((v, d) ∷ stack) = size v + size_stack_at stack

deepest-push_items :
    (d : ℕ) (vs : Items) (stack : List (Json × ℕ))
    → max d (deepest (push_items_at (d + 1) vs stack)) ≡ max (d + height_items vs) (deepest stack)
unfolding push_items_at deepest height
deepest-push_items d nil stack = omega arith
deepest-push_items d (cons v vs) stack = omega (arith, deepest-push_items d vs ((v, d + 1) ∷ stack))

deepest-push_members :
    (d : ℕ) (ms : Members) (stack : List (Json × ℕ))
    → max d (deepest (push_members_at (d + 1) ms stack))
      ≡ max (d + height_members ms) (deepest stack)
unfolding push_members_at deepest height
deepest-push_members d end stack = omega arith
deepest-push_members d (member k v ms) stack =
    omega (arith, deepest-push_members d ms ((v, d + 1) ∷ stack))

deepest-push_children :
    (v : Json) (d : ℕ) (stack : List (Json × ℕ))
    → max d (deepest (push_children v d stack)) ≡ max (d + height v) (deepest stack)
unfolding push_children height
deepest-push_children (arr vs) d stack = deepest-push_items d vs stack
deepest-push_children (obj ms) d stack = deepest-push_members d ms stack
deepest-push_children _ d stack = omega arith

size-push_items_at :
    (d : ℕ) (vs : Items) (stack : List (Json × ℕ))
    → size_stack_at (push_items_at d vs stack) ≡ size_items vs + size_stack_at stack
unfolding push_items_at size_stack_at size
size-push_items_at d nil stack = omega arith
size-push_items_at d (cons v vs) stack = omega (arith, size-push_items_at d vs ((v, d) ∷ stack))

size-push_members_at :
    (d : ℕ) (ms : Members) (stack : List (Json × ℕ))
    → size_stack_at (push_members_at d ms stack) ≡ size_members ms + size_stack_at stack
unfolding push_members_at size_stack_at size
size-push_members_at d end stack = omega arith
size-push_members_at d (member k v ms) stack =
    omega (arith, size-push_members_at d ms ((v, d) ∷ stack))

size-push_children :
    (v : Json) (d : ℕ) (stack : List (Json × ℕ))
    → suc (size_stack_at (push_children v d stack)) ≡ size v + size_stack_at stack
unfolding push_children size
size-push_children (arr vs) d stack = omega (arith, size-push_items_at (d + 1) vs stack)
size-push_children (obj ms) d stack = omega (arith, size-push_members_at (d + 1) ms stack)
size-push_children _ d stack = omega arith

depth_loop_lem :
    (limit fuel : ℕ) (stack : List (Json × ℕ))
    → size_stack_at stack < fuel
    → depth_loop limit fuel stack ≡ some (ltb limit (deepest stack))
unfolding depth_loop size_stack_at deepest
depth_loop_lem limit zero stack h = absurd (omega arith)
depth_loop_lem limit (suc fuel) [] h = ground arith
depth_loop_lem limit (suc fuel) ((v, d) ∷ stack) h =
    let ih : depth_loop limit fuel (push_children v d stack)
        ≡ some (ltb limit (deepest (push_children v d stack))) =
      depth_loop_lem limit fuel (push_children v d stack)
        (omega (arith, size-push_children v d stack)) in
    ground (arith, ih, deepest-push_children v d stack)

-- For every value and limit the stack loop of exceedsDepth ends within its fuel with true exactly
-- when some value inside stands at a level beyond the limit, the value itself being at level 0.
pub exceeds_depth-eq-height :
    (v : Json) (limit : ℕ)
    → (depth_loop limit (suc (size v)) ((v, 0) ∷ []) ≡ some (ltb limit (height v)))
      × (exceeds_depth v limit ≡ ltb limit (height v))
unfolding exceeds_depth size_stack_at deepest
exceeds_depth-eq-height v limit =
    let e : depth_loop limit (suc (size v)) ((v, 0) ∷ [])
        ≡ some (ltb limit (max (0 + height v) 0)) =
      depth_loop_lem limit (suc (size v)) ((v, 0) ∷ []) (omega arith) in
    (ground arith, ground arith)
