-- ===== src/Trial/Input.antt =====
-- src/trial/rules.ts: checkRecordInput and checkGapInput, over values that JSON can write; the
-- checks of getters, prototypes and holes of the source have no counterpart there, and one reading
-- of JSON.stringify and JSON.parse gives the value back.
pub mod Taken
use chirindo.Prelude.{
  ℕ, suc, zero, Bool, true, false, not, ◌&&◌, ◌||◌, leb, if◌then◌else◌, Option, none, some, List,
  [], ◌∷◌, Text, codes, text_eq, pos, take, includes, any,
}
use chirindo.Json.{
  Json, null, bool, num, str, arr, obj, Number, int, frac, infinity, Items, nil, cons, Members, end,
  member, get, has_own, keys, is_safe_integer,
}
use chirindo.Js.{Js}
use chirindo.Purchase.Time.{Dates}
use chirindo.Trial.Pointer.{is_str, printable_256, safe_from}
use chirindo.Trial.Order.{order_failure}
use chirindo.Trial.Screen.{Classes}
use chirindo.Trial.Fields.{
  refused_fields, cap_failure, refused_values, Refusal, invalid_input, refused_field, refused_value,
  invalid_order,
}
use chirindo.Trial.Format.{format_failure}

abbrev pub max_input_bytes : ℕ
max_input_bytes = 262144

abbrev pub max_paths : ℕ
max_paths = 20

abbrev pub max_depth : ℕ
max_depth = 32

-- Number.isFinite(v) && (!Number.isInteger(v) || Number.isSafeInteger(v))
abbrev pub plain_number : Number → Bool
plain_number (int n) = is_safe_integer n
plain_number (frac f) = true
plain_number (infinity b) = false

-- isJsonValue, and the loops over the elements and the members; `room` is MAX_DEPTH - depth.
unfoldable mutual
  pub is_json_value : (room : ℕ) → Json → Bool
  is_json_value room null = true
  is_json_value room (bool b) = true
  is_json_value room (str t) = true
  is_json_value room (num n) = plain_number n
  is_json_value zero (arr vs) = false
  is_json_value (suc room) (arr vs) = are_json_values room vs
  is_json_value zero (obj ms) = false
  is_json_value (suc room) (obj ms) = members_are_json room ms

  pub are_json_values : (room : ℕ) → Items → Bool
  are_json_values room nil = true
  are_json_values room (cons v vs) = is_json_value room v && are_json_values room vs

  pub members_are_json : (room : ℕ) → Members → Bool
  members_are_json room end = true
  members_are_json room (member k v ms) = is_json_value room v && members_are_json room ms

-- Checked
pub data Checked : Type 0 where
  accepted : (order_ref : Text) → (call_seq : Option ℕ) → (args : Members) → Checked
  refused : Refusal → (paths : List Text) → Checked

-- isCallSeq(v) ? v : null
abbrev pub call_seq_of : Option Json → Option ℕ
call_seq_of (some (num (int (pos n)))) = if is_safe_integer (pos n) then some n else none
call_seq_of _ = none

abbrev pub text_or_empty : Option Json → Text
text_or_empty (some (str t)) = t
text_or_empty _ = []

abbrev pub or_null : Option Json → Json
or_null (some v) = v
or_null none = null

-- The members that go into the receipt's arguments.
unfoldable pub args_of : Members → Members
args_of input = member (codes "order") (or_null (get (codes "order") input)) (
    if has_own (codes "agent_context") input
    then member (codes "agent_context") (or_null (get (codes "agent_context") input)) end
    else end)

-- Buffer.byteLength(JSON.stringify(raw), "utf8")
module _ (js : Js) (dates : Dates) (classes : Classes) (byte_length : Json → ℕ) where
  unfoldable pub given_order_failure : Option Json → Option Text
  unfolding order_failure
  given_order_failure (some order) = order_failure js dates order
  given_order_failure none = some (codes "/order")

  unfoldable pub on_order : Members → Option Text → Checked
  unfolding args_of
  on_order input (some path) = refused invalid_order (path ∷ [])
  on_order input none =
      accepted (text_or_empty (get (codes "order_ref") input))
        (call_seq_of (get (codes "call_seq") input)) (args_of input)

  unfoldable pub on_format : Members → Option Text → Checked
  unfolding given_order_failure on_order
  on_format input (some path) = refused invalid_input (path ∷ [])
  on_format input none = on_order input (given_order_failure (get (codes "order") input))

  unfoldable pub on_values : Members → List Text → Checked
  unfolding on_format format_failure
  on_values input [] = on_format input (format_failure js dates input)
  on_values input (v ∷ vs) = refused refused_value (take max_paths (v ∷ vs))

  unfoldable pub on_cap : Members → Option (Refusal × Text) → Checked
  unfolding on_values refused_values
  on_cap input none = on_values input (refused_values js classes input)
  on_cap input (some (reason, path)) = refused reason (path ∷ [])

  unfoldable pub on_fields : Members → List Text → Checked
  unfolding on_cap cap_failure
  on_fields input [] = on_cap input (cap_failure js input)
  on_fields input (f ∷ fs) = refused refused_field (take max_paths (f ∷ fs))

  -- checkRecordInput
  unfoldable pub check_record_input : Json → Checked
  unfolding is_json_value refused_fields on_fields
  check_record_input (obj input) =
      if is_json_value max_depth (obj input) && leb (byte_length (obj input)) max_input_bytes
      then on_fields input (refused_fields js input)
      else refused invalid_input []
  check_record_input _ = refused invalid_input []

-- GapChecked; `none` is not ok.
pub data GapReason : Type 0 where
  caller_timeout unreachable other : GapReason

abbrev pub gap_reason : Option Json → Option GapReason
gap_reason (some (str t)) =
    if text_eq t (codes "caller-timeout")
    then some caller_timeout
    else if text_eq t (codes "unreachable")
    then some unreachable
    else if text_eq t (codes "other")
    then some other
    else none
gap_reason _ = none

abbrev pub gap_members : List Text
gap_members = codes "order_ref" ∷ codes "call_seq" ∷ codes "reason" ∷ []

abbrev pub on_reason : Members → Option GapReason → Option (Text × Option ℕ × GapReason)
on_reason input none = none
on_reason input (some reason) = some (
  text_or_empty (get (codes "order_ref") input),
  call_seq_of (get (codes "call_seq") input),
  reason,
)

-- checkGapInput
unfoldable pub check_gap_input : Json → Option (Text × Option ℕ × GapReason)
unfolding is_json_value
check_gap_input (obj input) =
    if is_json_value max_depth (obj input)
      && not (any (λ k. not (includes gap_members k)) (keys input))
      && is_str printable_256 (get (codes "order_ref") input)
      && (not (has_own (codes "call_seq") input) || safe_from 0 (get (codes "call_seq") input))
    then on_reason input (gap_reason (get (codes "reason") input))
    else none
check_gap_input _ = none
