-- ===== src/Verify.antt =====
-- src/vendor/recorder/cli/verify.ts: what verifyChain works on, under a key that is already resolved.
-- A throw is `throws`.
pub mod Scan
pub mod Linked
pub mod Vouched
pub mod Pinned
pub mod Delivery
pub mod History
pub mod Written
pub mod Valid
use chirindo.Prelude.{
  ℕ, max, ◌+◌, Bool, true, false, not, ltb, if◌then◌else◌, Option, none, some, List, Text, text_eq,
  is_some, ◌≡◌, refl, ◌⊎◌, inl, inr,
}
use chirindo.Record.{RecordEvent, tool_call, mcp_call}
use chirindo.Record.Hash.{is_payment_ref_format}

pub data KeySource : Type 0 where
  flag receipt_jwks env default : KeySource

pub record ResolvedKey : Type 0 where
  pub thumbprint : Text
  pub source : KeySource
  pub origin : Text

pub data DeliveryUnprovenReason : Type 0 where
  no_output_commitment malformed_payment_ref : DeliveryUnprovenReason

-- DeliveryVerdict, with deliveryEntry and deliveryReason, which only `unproven` has.
pub data DeliveryVerdict : Type 0 where
  no_claim proven : DeliveryVerdict
  unproven : (entry : ℕ) → DeliveryUnprovenReason → DeliveryVerdict

pub data TamperReason : Type 0 where
  prev_hash_linkage_broken signature_invalid sequence_gap timestamp_regression : TamperReason
  unsupported_record_version kid_mismatch request_commitment_mismatch : TamperReason
  count_mismatch last_entry_hash_mismatch : TamperReason

pub data InvalidReason : Type 0 where
  key_binding_mismatch untrusted_key insecure_jwks_uri : InvalidReason

pub data Entry : Type 0 where
  entry : ℕ → Entry
  checkpoint chain : Entry

pub record ValidChain : Type 0 where
  pub count : ℕ
  pub session_id : Text
  pub has_checkpoint : Bool
  pub key : ResolvedKey
  pub delivery : DeliveryVerdict

-- The results that verifyChain returns early.
pub data Failure : Type 0 where
  tampered : Entry → TamperReason → Failure
  invalid : Entry → InvalidReason → ResolvedKey → Failure

pub data VerifyResult : Type 0 where
  valid : ValidChain → VerifyResult
  failed : Failure → VerifyResult
  empty : VerifyResult
  unverifiable : (reason : Text) → VerifyResult

-- VerifyControls, with `max_skew_ms` as given or DEFAULT_MAX_SKEW_MS.
pub record VerifyControls : Type 0 where
  pub max_skew_ms : ℕ
  pub expect_thumbprints : List Text
  pub key_source : KeySource
  pub key_origin : Text

abbrev pub default_max_skew_ms : ℕ
default_max_skew_ms = 5000

-- A part of verifyChain: it throws, returns a failure, or goes on.
pub data Step {ℓ} (A : Type ℓ) : Type ℓ where
  throws : Step A
  stop : Failure → Step A
  go : A → Step A

infixl 5 ◌>>=◌ ◌>>◌
abbrev pub ◌>>=◌ {ℓ κ} : {A : Type ℓ} {B : Type κ} → Step A → (A → Step B) → Step B
throws >>= f = throws
stop r >>= f = stop r
go a >>= f = f a

abbrev pub ◌>>◌ {κ} : {B : Type κ} → Step (Unit {0}) → Step B → Step B
m >> k = m >>= λ _. k

abbrev pub or_throw {ℓ} : {A : Type ℓ} → Option A → Step A
or_throw none = throws
or_throw (some a) = go a

-- if (b) return r
abbrev pub return_if : Bool → Failure → Step (Unit {0})
return_if true r = stop r
return_if false r = go tt

abbrev pub is_unproven : DeliveryVerdict → Bool
is_unproven (unproven e why) = true
is_unproven _ = false

-- markUnproven: the first one stays.
unfoldable pub mark_unproven : ℕ → DeliveryUnprovenReason → DeliveryVerdict → DeliveryVerdict
mark_unproven i why (unproven e w) = unproven e w
mark_unproven i why d = unproven i why

abbrev pub prove : DeliveryVerdict → DeliveryVerdict
prove no_claim = proven
prove d = d

unfoldable pub event_result_hash : RecordEvent → Option Text
event_result_hash (tool_call e) = e.result_hash
event_result_hash (mcp_call e) = e.result_hash
event_result_hash _ = none

-- The delivery pairing of the record numbered `i`.
unfoldable pub delivery_after :
    ℕ → (payment_ref : Option Text) → RecordEvent → DeliveryVerdict → DeliveryVerdict
unfolding mark_unproven event_result_hash
delivery_after i none event d = d
delivery_after i (some ref) event d =
    if not (is_payment_ref_format ref)
    then mark_unproven i malformed_payment_ref d
    else if is_some (event_result_hash event)
    then prove d
    else mark_unproven i no_output_commitment d

-- What the loop carries: `index` is i.
pub record Progress : Type 0 where
  pub index : ℕ
  pub last_entry_hash : Text
  pub last_ts : Option ℕ
  pub delivery : DeliveryVerdict

-- tsMs + maxSkewMs < lastTs, where both are dates
unfoldable pub regresses : (skew : ℕ) → (last_ts ts : Option ℕ) → Bool
regresses skew (some last) (some ts) = ltb (ts + skew) last
regresses skew _ _ = false

unfoldable pub ts_after : (last_ts ts : Option ℕ) → Option ℕ
ts_after last none = last
ts_after none (some ts) = some ts
ts_after (some last) (some ts) = some (max last ts)

abbrev pub text_opt_eq : Option Text → Text → Bool
text_opt_eq none t = false
text_opt_eq (some s) t = text_eq s t

pub Step-cases {ℓ} :
    {A : Type ℓ} (m : Step A)
    → (m ≡ throws) ⊎ ((f : Failure) × (m ≡ stop f)) ⊎ ((a : A) × (m ≡ go a))
Step-cases throws = inl refl
Step-cases (stop f) = inr (inl (f, refl))
Step-cases (go a) = inr (inr (a, refl))
