-- ===== src/Json/Measure.antt =====
-- hasNonFiniteNumber and exceedsDepth of src/rpc.ts: each walks a value with a stack of its own,
-- the value popped being the one pushed last. One unit of fuel is one round of the loop, and the
-- number of values in the root is enough of it (Measure/Laws.antt).
pub mod Laws
use chirindo.Prelude.{
  ℕ, zero, suc, ◌+◌, Bool, true, false, ltb, if◌then◌else◌, Option, none, some, List, [], ◌∷◌,
}
use chirindo.Json.{Json, num, arr, obj, Items, nil, cons, Members, end, member, Number, infinity}

-- !Number.isFinite(v)
pub not_finite : Number → Bool
not_finite (infinity _) = true
not_finite _ = false

-- `for (const item of v) stack.push(item)`
pub push_items : Items → List Json → List Json
push_items nil stack = stack
push_items (cons v vs) stack = push_items vs (v ∷ stack)

pub push_members : Members → List Json → List Json
push_members end stack = stack
push_members (member k v ms) stack = push_members ms (v ∷ stack)

-- The loop of hasNonFiniteNumber; `none` means that the fuel ran out.
pub non_finite_loop : ℕ → List Json → Option Bool
unfolding push_items push_members not_finite
non_finite_loop zero stack = none
non_finite_loop (suc fuel) [] = some false
non_finite_loop (suc fuel) (num n ∷ stack) =
    let rest = non_finite_loop fuel stack in if not_finite n then some true else rest
non_finite_loop (suc fuel) (arr vs ∷ stack) = non_finite_loop fuel (push_items vs stack)
non_finite_loop (suc fuel) (obj ms ∷ stack) = non_finite_loop fuel (push_members ms stack)
non_finite_loop (suc fuel) (_ ∷ stack) = non_finite_loop fuel stack

unfoldable mutual
  -- The number of values in a value, itself included.
  pub size : Json → ℕ
  size (arr vs) = suc (size_items vs)
  size (obj ms) = suc (size_members ms)
  size _ = 1

  pub size_items : Items → ℕ
  size_items nil = 0
  size_items (cons v vs) = size v + size_items vs

  pub size_members : Members → ℕ
  size_members end = 0
  size_members (member k v ms) = size v + size_members ms

-- What a loop says; running out of fuel counts as a refusal.
abbrev pub verdict : Option Bool → Bool
verdict (some b) = b
verdict none = true

unfoldable pub has_non_finite_number : Json → Bool
unfolding non_finite_loop size
has_non_finite_number v = verdict (non_finite_loop (suc (size v)) (v ∷ []))

-- MAX_VALUE_DEPTH
abbrev pub max_value_depth : ℕ
max_value_depth = 128

pub push_items_at : ℕ → Items → List (Json × ℕ) → List (Json × ℕ)
push_items_at d nil stack = stack
push_items_at d (cons v vs) stack = push_items_at d vs ((v, d) ∷ stack)

pub push_members_at : ℕ → Members → List (Json × ℕ) → List (Json × ℕ)
push_members_at d end stack = stack
push_members_at d (member k v ms) stack = push_members_at d ms ((v, d) ∷ stack)

-- What a value that is not too deep adds to the stack.
pub push_children : Json → ℕ → List (Json × ℕ) → List (Json × ℕ)
unfolding push_items_at push_members_at
push_children (arr vs) d stack = push_items_at (d + 1) vs stack
push_children (obj ms) d stack = push_members_at (d + 1) ms stack
push_children _ d stack = stack

-- The loop of exceedsDepth.
pub depth_loop : ℕ → ℕ → List (Json × ℕ) → Option Bool
unfolding push_children
depth_loop limit zero stack = none
depth_loop limit (suc fuel) [] = some false
depth_loop limit (suc fuel) ((v, d) ∷ stack) =
    let rest = depth_loop limit fuel (push_children v d stack) in
    if ltb limit d then some true else rest

unfoldable pub exceeds_depth : Json → ℕ → Bool
unfolding depth_loop size
exceeds_depth v limit = verdict (depth_loop limit (suc (size v)) ((v, 0) ∷ []))
