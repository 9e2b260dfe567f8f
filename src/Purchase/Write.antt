-- ===== src/Purchase/Write.antt =====
-- src/purchase/check.ts: write, the receipt before the answer. The bytes of a failed append may be
-- left behind the records of the chain file; `none` is a throw.
use chirindo.Prelude.{
  ℕ, suc, true, false, ◌&&◌, ◌||◌, if◌then◌else◌, Option, none, some, [], ◌∷◌, ◌++◌, Text, codes,
  is_some, max,
}
use chirindo.Json.{Json, str, arr, obj, nil, cons, Members, get}
use chirindo.Record.{SignedRecord}
use chirindo.Record.Canon.{content_json}
use chirindo.Record.Hash.{args_hash, entry_hash_of_canonical}
use chirindo.Receipt.{GateDecision, allow, deny, ReceiptInputs, append_receipt}
use chirindo.Purchase.Jcs.{jcs_sha256}
use chirindo.Purchase.Open.{
  Setup, Outside, Allowed, Map, map_set, count_use, Gate, CheckResult, or_null, Decided,
  not_recorded, args_of, check_member,
}

infixl 10 ◌>>=◌
abbrev ◌>>=◌ {ℓ κ} : {A : Type ℓ} {B : Type κ} → Option A → (A → Option B) → Option B
none >>= f = none
some a >>= f = f a

module _ (setup : Setup) where
  open setup use {crypto, dates, js, classes, node, stringify, identity}

  abbrev pub quote : Text → Text
  quote t = stringify (str t)

  -- keyOf, of the digest and the three members
  abbrev pub key_of_parts : Text → Json → Json → Json → Text
  key_of_parts digest merchant order_id ref =
      stringify (arr (cons (str digest) (cons merchant (cons order_id (cons ref nil)))))

  -- keyOf
  unfoldable pub key_of : Text → Members → Text
  key_of digest order =
      key_of_parts digest (or_null (get (codes "merchant_id") order))
        (or_null (get (codes "merchant_order_id") order))
        (or_null (get (codes "checkout_ref") order))

  unfoldable pub inputs_of : Gate → Decided → (order_sha256 : Text) → ReceiptInputs
  unfolding check_member
  inputs_of g d order_sha256 = record {
    session_id = setup.session_id;
    identity = identity;
    agent = setup.agent;
    server = setup.server_label;
    tool_name = codes "check";
    tool_args = args_of d;
    tool_result = none;
    jwks_uri = setup.jwks_uri;
    iss = none;
    x402_payment_ref = none;
    decision = d.decision;
    ts = d.at;
    head = some g.head;
    check = some (obj (check_member d order_sha256));
  }

  -- The later of the last time and the time of this decision.
  abbrev pub later : Option ℕ → Option ℕ → Option ℕ
  later none now = now
  later (some t) none = some t
  later (some t) (some now) = some (max t now)

  unfoldable pub count_if : GateDecision → Text → Map ℕ → Map ℕ
  unfolding count_use
  count_if allow digest uses = count_use digest uses
  count_if deny digest uses = uses

  unfoldable pub keep_if : GateDecision → Text → Allowed → Map Allowed → Map Allowed
  unfolding map_set
  keep_if allow key a allowed = map_set key a allowed
  keep_if deny key a allowed = allowed

  -- The state after the append of `entry`.
  unfoldable pub recorded :
      Gate → Decided → (order_sha256 : Text) → SignedRecord → (entry_hash : Text) → Gate
  unfolding count_if keep_if key_of
  recorded g d order_sha256 entry entry_hash = record g {
    head = record { seq = suc g.head.seq; prev_hash = entry_hash };
    chain = g.chain ++ entry ∷ [];
    chain_created = true;
    last_ts_ms = later g.last_ts_ms (dates.parse d.at);
    uses = count_if d.decision d.digest g.uses;
    allowed =
        keep_if d.decision (key_of d.digest d.order)
          (record {
            order_sha256 = order_sha256;
            seq = g.head.seq;
            entry_hash = entry_hash;
            at = d.at;
          })
          g.allowed;
  }

  unfoldable pub answered : Gate → Decided → (entry_hash : Text) → CheckResult
  answered g d entry_hash = record {
    decision = d.decision;
    reasons = d.reasons;
    exceeded = d.exceeded;
    card_limits = d.rows;
    instruction_sha256 = some d.digest;
    at = some d.at;
    receipt = some (g.head.seq, entry_hash);
    repeat = false;
  }

  -- From the append on; the entry's bytes are those that its signature covers.
  unfoldable pub on_append :
      Outside
      → Gate
      → Decided
      → (order_sha256 : Text) → Option SignedRecord
      → Option (CheckResult × Gate)
  unfolding not_recorded recorded answered
  on_append outside g d order_sha256 none =
      if outside.cut_back
      then some (not_recorded d, record g { chain_created = true })
      else some
          (not_recorded d, record g { chain_created = true; torn = true; chain_broken = true })
  on_append outside g d order_sha256 (some entry) = do
    bytes ← crypto.canonicalize (content_json entry.content)
    let entry_hash = entry_hash_of_canonical crypto bytes
    some (answered g d entry_hash, recorded g d order_sha256 entry entry_hash)

  -- appendEntry, which fails where the record is not made or its line is not written
  unfoldable pub append_entry :
      Outside → Gate → Decided → (order_sha256 : Text) → Option SignedRecord
  unfolding inputs_of
  append_entry outside g d order_sha256 =
      if outside.appended then append_receipt crypto (inputs_of g d order_sha256) [] else none

  -- With the chain file ready, or not.
  unfoldable pub on_file :
      Outside → Gate → Decided → (order_sha256 : Text) → Option (CheckResult × Gate)
  unfolding not_recorded on_append append_entry
  on_file outside g d order_sha256 =
      if g.chain_created || outside.file_ready
      then on_append outside g d order_sha256 (append_entry outside g d order_sha256)
      else some (not_recorded d, g)

  -- With the arguments file written, or not.
  unfoldable pub on_args : Outside → Gate → Decided → Option (CheckResult × Gate)
  unfolding not_recorded on_file jcs_sha256
  on_args outside g d =
      if outside.args_written && is_some (crypto.canonicalize (args_of d))
      then (do
        order_sha256 ← jcs_sha256 js quote crypto (obj d.order)
        on_file outside g d order_sha256)
      else some (not_recorded d, g)

  unfoldable pub write : Outside → Gate → Decided → Option (CheckResult × Gate)
  unfolding not_recorded on_args
  write outside g d =
      if g.chain_broken
      then some (not_recorded d, g)
      else do ah ← args_hash crypto (args_of d); on_args outside g d
