-- ===== src/Purchase/Rebuild.antt =====
-- src/purchase/check.ts: what openPurchaseCheck rebuilds from the records of the chains it finds.
use chirindo.Prelude.{
  ℕ, Bool, true, false, not, ◌&&◌, ◌==◌, Option, none, some, List, [], ◌∷◌, Text, codes, text_eq,
  length, all, includes, is_some,
}
use chirindo.Json.{Json, null, str, arr, obj, nil, Members, elems, keys, get}
use chirindo.Record.{SignedRecord, RecordEvent, mcp_call, Decision}
use chirindo.Record
use chirindo.Record.Canon.{content_json}
use chirindo.Record.Hash.{entry_hash_of_canonical, is_payment_ref_format}
use chirindo.Purchase.Card.{str_of}
use chirindo.Purchase.Rows.{obj_of}
use chirindo.Purchase.Open.{Setup, Allowed, Map, map_get, map_set, count_use, or_null}
use chirindo.Purchase.Write.{key_of_parts}
use chirindo.Trial.Pointer.{unless, first_some, is_str}

-- MEMBER_KEYS
abbrev pub member_keys : List Text
member_keys =
    codes "v"
    ∷ codes "instruction_sha256"
    ∷ codes "order_sha256"
    ∷ codes "merchant_id"
    ∷ codes "merchant_order_id"
    ∷ codes "checkout_ref"
    ∷ codes "at"
    ∷ codes "reasons"
    ∷ codes "exceeded"
    ∷ []

-- e["type"] === "mcp_call" && e["tool_name"] === TOOL_NAME
abbrev pub is_check_call : RecordEvent → Bool
is_check_call (mcp_call e) = text_eq e.tool_name (codes "check")
is_check_call _ = false

-- event.decision of an mcp_call: allow (true), deny (false), or neither
abbrev pub allows_word : Option Decision → Option Bool
allows_word (some Record.allow) = some true
allows_word (some Record.deny) = some false
allows_word _ = none

abbrev pub allows : RecordEvent → Option Bool
allows (mcp_call e) = allows_word e.decision
allows _ = none

abbrev pub null_or_str : Option Json → Bool
null_or_str (some null) = true
null_or_str (some (str t)) = true
null_or_str _ = false

abbrev pub is_str_json : Json → Bool
is_str_json (str t) = true
is_str_json _ = false

abbrev pub str_items : Option Json → Bool
str_items (some (arr vs)) = all is_str_json (elems vs)
str_items _ = false

abbrev pub no_items : Option Json → Bool
no_items (some (arr nil)) = true
no_items _ = false

abbrev pub same_decision : Option Bool → Bool → Bool
same_decision (some true) empty = empty
same_decision (some false) empty = not empty
same_decision none empty = false

-- The checks of the member, in their order.
abbrev pub member_checks : SignedRecord → Members → List (Option Text)
member_checks r c =
    unless (length (keys c) == length member_keys && all (includes (keys c)) member_keys)
      (codes "check does not have exactly its members")
    ∷ unless (is_str (text_eq (codes "purchase-check/0.1")) (get (codes "v") c))
        (codes "check.v is not purchase-check/0.1")
    ∷ unless (is_str is_payment_ref_format (get (codes "instruction_sha256") c))
        (codes "check.instruction_sha256 is malformed")
    ∷ unless (is_str is_payment_ref_format (get (codes "order_sha256") c))
        (codes "check.order_sha256 is malformed")
    ∷ unless
        (is_str (λ t. true) (get (codes "merchant_id") c)
          && null_or_str (get (codes "merchant_order_id") c)
          && null_or_str (get (codes "checkout_ref") c))
        (codes "check's key parts are malformed")
    ∷ unless (is_str (text_eq r.ts) (get (codes "at") c)) (codes "check.at is not the receipt's ts")
    ∷ unless (str_items (get (codes "reasons") c) && str_items (get (codes "exceeded") c))
        (codes "check.reasons or check.exceeded is not a list of strings")
    ∷ unless (same_decision (allows r.event) (no_items (get (codes "reasons") c)))
        (codes "the decision and check.reasons disagree")
    ∷ []

unfoldable pub member_problem : SignedRecord → Option Json → Option Text
member_problem r (some (obj c)) = first_some (member_checks r c)
member_problem r _ = some (codes "no check member")

-- recordProblem
unfoldable pub record_problem : SignedRecord → (session_id : Text) → Option Text
unfolding member_problem
record_problem r session_id = first_some (
    unless (text_eq r.session_id session_id) (codes "session_id is not the file's")
    ∷ unless (is_check_call r.event) (codes "not a purchase-check record")
    ∷ unless (is_some (allows r.event)) (codes "event.decision is neither allow nor deny")
    ∷ member_problem r r.check
    ∷ [])

-- The two maps.
abbrev pub Maps : Type 0
Maps = Map ℕ × Map Allowed

infixl 10 ◌>>=◌
abbrev ◌>>=◌ {ℓ κ} : {A : Type ℓ} {B : Type κ} → Option A → (A → Option B) → Option B
none >>= f = none
some a >>= f = f a

module _ (setup : Setup) where
  open setup use {crypto}

  abbrev pub member_of : SignedRecord → Members
  member_of r = obj_of r.check

  abbrev pub record_key : Members → Text
  record_key c =
      key_of_parts setup (str_of (get (codes "instruction_sha256") c))
        (or_null (get (codes "merchant_id") c)) (or_null (get (codes "merchant_order_id") c))
        (or_null (get (codes "checkout_ref") c))

  -- if (!allowed.has(key)) allowed.set(key, ...)
  unfoldable pub set_first : Text → Allowed → Map Allowed → Option Allowed → Map Allowed
  unfolding map_set
  set_first key a allowed (some prior) = allowed
  set_first key a allowed none = map_set key a allowed

  unfoldable pub count_allow : SignedRecord → Maps → Option Maps
  unfolding map_get set_first count_use
  count_allow r (uses, allowed) = do
    bytes ← crypto.canonicalize (content_json r.content)
    let c = member_of r
    let a : Allowed = record {
      order_sha256 = str_of (get (codes "order_sha256") c);
      seq = r.seq;
      entry_hash = entry_hash_of_canonical crypto bytes;
      at = str_of (get (codes "at") c);
    }
    some (
      count_use (str_of (get (codes "instruction_sha256") c)) uses,
      set_first (record_key c) a allowed (map_get (record_key c) allowed),
    )

  unfoldable pub on_decision : SignedRecord → Maps → Option Bool → Option Maps
  unfolding count_allow
  on_decision r maps (some true) = count_allow r maps
  on_decision r maps _ = some maps

  -- The body of the loop over the records, after recordProblem.
  unfoldable pub rebuild_record : SignedRecord → Maps → Option Maps
  unfolding on_decision
  rebuild_record r maps = on_decision r maps (allows r.event)

  -- The loop over the records of a file; `none` is a throw.
  unfoldable pub rebuild : List SignedRecord → Maps → Option Maps
  unfolding rebuild_record
  rebuild [] maps = some maps
  rebuild (r ∷ rs) maps = do next ← rebuild_record r maps; rebuild rs next
