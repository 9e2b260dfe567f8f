-- ===== src/Purchase/Judge.antt =====
-- src/purchase/limits.ts: the order side and judgeInput, over values that JSON can write; the checks
-- of getters, prototypes, symbols and holes have no counterpart there. What readInstruction of
-- src/purchase/m6.ts returns is an argument.
pub mod Prepares
use chirindo.Prelude.{
  ℕ, suc, zero, Bool, not, ◌&&◌, if◌then◌else◌, Option, none, some, List, [], ◌∷◌, ◌++◌, Text,
  codes, text_eq, includes, map, take,
}
use chirindo.Json.{
  Json, null, bool, num, str, arr, obj, Items, nil, cons, Members, end, member, get,
}
use chirindo.Js.{Js}
use chirindo.Crypto.{Crypto}
use chirindo.Purchase.Time.{Dates, iso_utc, is_calendar_instant}
use chirindo.Purchase.Jcs.{is_well_formed, jcs_sha256}
use chirindo.Purchase.Card.{Node, Checked, bad, good}
use chirindo.Purchase.M6.{m6_check}
use chirindo.Purchase.Rows.{obj_of}
use chirindo.Purchase.Limits.{
  Reason, instruction_invalid, order_invalid, unsupported_limit, Prepared, Judgement, judge_limits,
  constraints_of,
}
use chirindo.Trial.Pointer.{Segment, key, index, pointer, is_str}
use chirindo.Trial.Order.{order_failure}
use chirindo.Trial.Screen.{Classes, items_values}
use chirindo.Trial.Input.{plain_number}

-- What readInstruction returns: a problem, or the value.
pub data Read : Type 0 where
  problem : Text → Read
  value : Json → Read

-- What the order is read as: the reasons against it, or its members.
pub data OrderRead : Type 0 where
  faulty : List Text → OrderRead
  sound : Members → OrderRead

-- The judgement of steps 1 and 2.
pub data Input : Type 0 where
  refused : (reasons : List Reason) → Input
  denied : (reasons : List Reason) → (digest : Text) → (order : Members) → Input
  prepared : Prepared → Input

abbrev pub max_depth : ℕ
max_depth = 32

abbrev pub max_pointers : ℕ
max_pointers = 20

-- [...new Set(bad)]
unfoldable pub distinct : (seen : List Text) → List Text → List Text
distinct seen [] = []
distinct seen (t ∷ ts) =
    let again = distinct seen ts in
    let rest = distinct (t ∷ seen) ts in if includes seen t then again else t ∷ rest

-- checkOptions of a kid, a time and a use count that is a number
unfoldable pub check_options : Dates → (kid : Text) → (at : Text) → Bool
unfolding iso_utc is_calendar_instant
check_options dates kid at = not (text_eq kid []) && iso_utc at && is_calendar_instant dates at

infixl 10 ◌>>=◌
abbrev ◌>>=◌ {ℓ κ} : {A : Type ℓ} {B : Type κ} → Option A → (A → Option B) → Option B
none >>= f = none
some a >>= f = f a

module _ (js : Js) where
  abbrev fault : Bool → List Segment → List Text → List Text
  fault ok path rest = if ok then rest else pointer js path ∷ rest

  -- walk: the pointers of what is wrong; `room` is MAX_DEPTH - depth.
  unfoldable mutual
    unfolding is_well_formed

    pub walk : (room : ℕ) → List Segment → Json → List Text
    walk room path null = []
    walk room path (bool b) = []
    walk room path (str t) = fault (is_well_formed t) path []
    walk room path (num n) = fault (plain_number n) path []
    walk zero path (arr vs) = pointer js path ∷ []
    walk (suc room) path (arr vs) = walk_items room path 0 vs
    walk zero path (obj ms) = pointer js path ∷ []
    walk (suc room) path (obj ms) = walk_members room path ms

    pub walk_items : (room : ℕ) → List Segment → ℕ → Items → List Text
    walk_items room path i nil = []
    walk_items room path i (cons v vs) =
        walk room (path ++ index i ∷ []) v ++ walk_items room path (suc i) vs

    pub walk_members : (room : ℕ) → List Segment → Members → List Text
    walk_members room path end = []
    walk_members room path (member k v ms) =
        fault (is_well_formed k) (path ++ key k ∷ [])
          (walk room (path ++ key k ∷ []) v ++ walk_members room path ms)

  -- snapshotOrder: its pointers; none where the copy is the value.
  unfoldable pub snapshot_order : Json → List Text
  unfolding walk distinct
  snapshot_order v = take max_pointers (distinct [] (walk max_depth (key (codes "order") ∷ []) v))

  module _ (dates : Dates) (classes : Classes) where
    abbrev pub items_of : Members → Items
    items_of o = elim (get (codes "items") o) [ some (arr vs) ↦ vs | _ ↦ nil ]

    -- screenFailures
    unfoldable pub screen_failures : Members → List Text
    unfolding items_values
    screen_failures o = items_values classes js 0 (items_of o)

    abbrev on_screen : Members → List Text → OrderRead
    on_screen o [] = sound o
    on_screen o (p ∷ ps) = faulty (p ∷ ps)

    abbrev on_failure : Json → Option Text → OrderRead
    unfolding screen_failures
    on_failure v (some p) = faulty (p ∷ [])
    on_failure v none = on_screen (obj_of (some v)) (screen_failures (obj_of (some v)))

    abbrev on_snapshot : Json → List Text → OrderRead
    unfolding order_failure on_failure
    on_snapshot v (p ∷ ps) = faulty (p ∷ ps)
    on_snapshot v [] = on_failure v (order_failure js dates v)

    -- Step 1 for the order.
    unfoldable pub read_order : Option Json → OrderRead
    unfolding snapshot_order on_snapshot
    read_order none = faulty (codes "/order" ∷ [])
    read_order (some v) = on_snapshot v (snapshot_order v)

    module _ (quote : Text → Text) (crypto : Crypto) (node : Node) where
      -- [valid_from, valid_until, iat].every(isCalendarInstant)
      abbrev pub calendar : Members → Bool
      unfolding is_calendar_instant
      calendar ins =
          let c = constraints_of ins in
          is_str (is_calendar_instant dates) (get (codes "valid_from") c)
          && is_str (is_calendar_instant dates) (get (codes "valid_until") c)
          && is_str (is_calendar_instant dates) (get (codes "iat") ins)

      -- The reasons of step 2 where M6 passes.
      unfoldable pub step_2 : Members → List Text → List Reason
      unfolding calendar
      step_2 ins unsupported =
          map unsupported_limit unsupported
          ++ (if calendar ins then [] else instruction_invalid (codes "time-not-calendar") ∷ [])

      abbrev on_step_2 : Members → Text → Text → Members → List Reason → Input
      on_step_2 ins digest m6_digest order [] =
          prepared (record { instruction = ins; digest = m6_digest; order = order })
      on_step_2 ins digest m6_digest order (r ∷ rs) = denied (r ∷ rs) digest order

      unfoldable pub on_m6 : Json → Text → Members → Checked (Text × List Text) → Input
      unfolding step_2
      on_m6 v digest order (bad code) = denied (instruction_invalid code ∷ []) digest order
      on_m6 v digest order (good (m6_digest, unsupported)) =
          let ins = obj_of (some v) in on_step_2 ins digest m6_digest order (step_2 ins unsupported)

      unfoldable pub on_read : Read → OrderRead → Option Input
      unfolding on_m6 jcs_sha256 m6_check
      on_read (problem p) (faulty ps) =
          some (refused (instruction_invalid p ∷ map order_invalid ps))
      on_read (problem p) (sound o) = some (refused (instruction_invalid p ∷ []))
      on_read (value v) (faulty ps) = some (refused (map order_invalid ps))
      on_read (value v) (sound o) = do
        digest ← jcs_sha256 js quote crypto v
        some (on_m6 v digest o (m6_check js quote crypto dates node v))

      -- judgeInput; `none` is a throw.
      unfoldable pub judge_input : Read → (order : Option Json) → Option Input
      unfolding on_read read_order
      judge_input read order = on_read read (read_order order)

      abbrev on_input :
          (kid at : Text) → (uses_so_far : ℕ) → Input → Option (List Reason × Option Judgement)
      unfolding judge_limits
      on_input kid at uses_so_far (refused reasons) = some (reasons, none)
      on_input kid at uses_so_far (denied reasons digest order) = some (reasons, none)
      on_input kid at uses_so_far (prepared p) = do
        j ← judge_limits p kid at uses_so_far
        some (j.reasons, some j)

      -- judgePurchase: the reasons, and the judgement of step 3 where it ran; `none` is a throw.
      unfoldable pub judge_purchase :
          Read
          → (order : Option Json) → (kid at : Text) → (uses_so_far : ℕ)
          → Option (List Reason × Option Judgement)
      unfolding check_options judge_input on_input
      judge_purchase read order kid at uses_so_far =
          if check_options dates kid at
          then (do input ← judge_input read order; on_input kid at uses_so_far input)
          else none
