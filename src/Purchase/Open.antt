-- ===== src/Purchase/Open.antt =====
-- src/purchase/check.ts: the variables of an open check, what it answers, and the `check` member.
use chirindo.Prelude.{
  ℕ, ◌+◌, Bool, false, if◌then◌else◌, Option, none, some, List, [], ◌∷◌, ◌++◌, Text, codes, text_eq,
}
use chirindo.Json.{Json, null, str, arr, obj, Items, nil, cons, Members, end, member, get}
use chirindo.Js.{Js}
use chirindo.Crypto.{Crypto}
use chirindo.Record.{AgentInfo, SignedRecord}
use chirindo.Receipt.{GateDecision, allow, deny, Identity, Head}
use chirindo.Purchase.Time.{Dates}
use chirindo.Purchase.Card.{Node, limit_name}
use chirindo.Purchase.Rows.{CardLimitRow}
use chirindo.Purchase.Limits.{
  Reason, instruction_invalid, order_invalid, unsupported_limit, order_ref_reused, not_yet_valid,
  expired, agent_not_named, uses_exhausted, record_failed, limit_exceeded, order_field_missing,
  Exceeded, valid_from, valid_until, agent_kid, max_uses, card_limit,
}
use chirindo.Trial.Screen.{Classes}

-- What a check is opened with. `stringify` is JSON.stringify, of a string too.
pub record Setup : Type 0 where
  pub js : Js
  pub dates : Dates
  pub classes : Classes
  pub stringify : Json → Text
  pub crypto : Crypto
  pub node : Node
  pub identity : Identity
  pub agent : AgentInfo
  pub session_id : Text
  pub server_label : Text
  pub jwks_uri : Option Text

-- The outside during one check: the clock (`none` throws), whether the arguments file and the chain
-- file could be made ready, the record appended, and a failed append cut back.
pub record Outside : Type 0 where
  pub now : Option Text
  pub args_written : Bool
  pub file_ready : Bool
  pub appended : Bool
  pub cut_back : Bool

-- Allowed
pub record Allowed : Type 0 where
  pub order_sha256 : Text
  pub seq : ℕ
  pub entry_hash : Text
  pub at : Text

-- A Map of texts: its entries, each key once.
abbrev pub Map {ℓ} : Type ℓ → Type ℓ
Map A = List (Text × A)

unfoldable pub map_get {ℓ} : {A : Type ℓ} → Text → Map A → Option A
map_get k [] = none
map_get k ((j, a) ∷ m) = let rest = map_get k m in if text_eq j k then some a else rest

unfoldable pub map_set {ℓ} : {A : Type ℓ} → Text → A → Map A → Map A
map_set k a [] = (k, a) ∷ []
map_set k a ((j, b) ∷ m) =
    let rest = map_set k a m in if text_eq j k then (j, a) ∷ m else (j, b) ∷ rest

abbrev pub or_zero : Option ℕ → ℕ
or_zero none = 0
or_zero (some n) = n

-- uses.set(digest, (uses.get(digest) ?? 0) + 1)
unfoldable pub count_use : Text → Map ℕ → Map ℕ
unfolding map_get map_set
count_use digest uses = map_set digest (or_zero (map_get digest uses) + 1) uses

-- The variables of an open check.
pub record Gate : Type 0 where
  pub head : Head
  pub chain : List SignedRecord
  pub torn : Bool
  pub chain_created : Bool
  pub chain_broken : Bool
  pub last_ts_ms : Option ℕ
  pub uses : Map ℕ
  pub allowed : Map Allowed
  pub closing : Bool
  pub closed : Bool

-- CheckResult
pub record CheckResult : Type 0 where
  pub decision : GateDecision
  pub reasons : List Reason
  pub exceeded : List Exceeded
  pub card_limits : List CardLimitRow
  pub instruction_sha256 : Option Text
  pub at : Option Text
  pub receipt : Option (ℕ × Text)
  pub repeat : Bool

-- The text of a reason.
unfoldable pub reason_text : Reason → Text
reason_text (instruction_invalid code) = codes "instruction-invalid:" ++ code
reason_text (order_invalid p) = codes "order-invalid:" ++ p
reason_text (unsupported_limit k) = codes "unsupported-limit:" ++ k
reason_text order_ref_reused = codes "order-ref-reused"
reason_text not_yet_valid = codes "not-yet-valid"
reason_text expired = codes "expired"
reason_text agent_not_named = codes "agent-not-named"
reason_text uses_exhausted = codes "uses-exhausted"
reason_text record_failed = codes "record-failed"
reason_text (limit_exceeded l) = codes "limit-exceeded:" ++ limit_name l
reason_text (order_field_missing l) = codes "order-field-missing:" ++ limit_name l

unfoldable pub exceeded_text : Exceeded → Text
exceeded_text valid_from = codes "valid_from"
exceeded_text valid_until = codes "valid_until"
exceeded_text agent_kid = codes "agent_kid"
exceeded_text max_uses = codes "max_uses"
exceeded_text (card_limit l) = limit_name l

abbrev pub texts : {A : Type 0} → (A → Text) → List A → Items
texts f [] = nil
texts f (x ∷ xs) = cons (str (f x)) (texts f xs)

-- v ?? null
abbrev pub or_null : Option Json → Json
or_null none = null
or_null (some v) = v

-- recordFailed
unfoldable pub failed :
    (at : Option Text)
    → List Reason
    → List Exceeded
    → List CardLimitRow
    → (digest : Option Text) → CheckResult
failed at reasons exceeded rows digest = record {
  decision = deny;
  reasons = reasons ++ record_failed ∷ [];
  exceeded = exceeded;
  card_limits = rows;
  instruction_sha256 = digest;
  at = at;
  receipt = none;
  repeat = false;
}

-- recordFailed(at)
unfoldable pub failed_at : Option Text → CheckResult
unfolding failed
failed_at at = failed at [] [] [] none

-- A decision on its way to be written.
pub record Decided : Type 0 where
  pub decision : GateDecision
  pub reasons : List Reason
  pub exceeded : List Exceeded
  pub rows : List CardLimitRow
  pub digest : Text
  pub order : Members
  pub at : Text

unfoldable pub not_recorded : Decided → CheckResult
unfolding failed
not_recorded d = failed (some d.at) d.reasons d.exceeded d.rows (some d.digest)

abbrev pub digest_member : GateDecision → Text
digest_member allow = codes "instruction_sha256"
digest_member deny = codes "denied_instruction_sha256"

-- args
abbrev pub args_of : Decided → Json
args_of d =
    obj
      (member (codes "order") (obj d.order) (member (digest_member d.decision) (str d.digest) end))

-- The member `check` of the receipt.
unfoldable pub check_member : Decided → (order_sha256 : Text) → Members
unfolding reason_text exceeded_text
check_member d order_sha256 = member (codes "v") (str (codes "purchase-check/0.1")) (
    member (codes "instruction_sha256") (str d.digest) (
      member (codes "order_sha256") (str order_sha256) (
        member (codes "merchant_id") (or_null (get (codes "merchant_id") d.order)) (
          member (codes "merchant_order_id") (or_null (get (codes "merchant_order_id") d.order)) (
            member (codes "checkout_ref") (or_null (get (codes "checkout_ref") d.order)) (
              member (codes "at") (str d.at) (
                member (codes "reasons") (arr (texts reason_text d.reasons))
                  (member (codes "exceeded") (arr (texts exceeded_text d.exceeded)) end))))))))
