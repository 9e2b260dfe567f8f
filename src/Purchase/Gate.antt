-- ===== src/Purchase/Gate.antt =====
-- src/purchase/check.ts: check, from the first one on. What the file system and the clock answer during
-- a check is an argument of it. The checkpointer that a record wakes is not in the state.
pub mod Rebuilt
pub mod Writes
pub mod Bounds
pub mod Answers
pub mod Served
use chirindo.Prelude.{
  ℕ, ◌+◌, ltb, Bool, true, false, not, ◌||◌, if◌then◌else◌, Option, none, some, List, [], ◌∷◌, Text,
  codes, text_eq, Sign, not_after,
}
use chirindo.Json.{Json, obj, Members, get}
use chirindo.Receipt.{GateDecision, allow, deny}
use chirindo.Purchase.Time.{compare_instants}
use chirindo.Purchase.Jcs.{jcs_sha256}
use chirindo.Purchase.Card.{str_of}
use chirindo.Purchase.Limits.{
  Reason, order_ref_reused, valid_until, CardLimits, Prepared, Judgement, judge_limits,
  card_limits_of, constraints_of,
}
use chirindo.Purchase.Judge.{Read, Input, refused, denied, prepared, check_options, judge_input}
use chirindo.Purchase.Open.{
  Setup, Outside, Allowed, map_get, or_zero, Gate, CheckResult, failed_at, Decided,
}
use chirindo.Purchase.Write.{key_of, quote, write}

infixl 10 ◌>>=◌
abbrev ◌>>=◌ {ℓ κ} : {A : Type ℓ} {B : Type κ} → Option A → (A → Option B) → Option B
none >>= f = none
some a >>= f = f a

module _ (setup : Setup) where
  open setup use {crypto, dates, js, classes, node, stringify, identity}

  -- An earlier allow, answered again.
  abbrev pub repeated : Prepared → Allowed → CardLimits → CheckResult
  repeated p prior limits = record {
    decision = allow;
    reasons = [];
    exceeded = [];
    card_limits = limits.rows;
    instruction_sha256 = some p.digest;
    at = some prior.at;
    receipt = some (prior.seq, prior.entry_hash);
    repeat = true;
  }

  abbrev pub decision_of : List Reason → GateDecision
  decision_of [] = allow
  decision_of (r ∷ rs) = deny

  abbrev pub decided_by : Prepared → (at : Text) → Judgement → Decided
  decided_by p at j = record {
    decision = decision_of j.reasons;
    reasons = j.reasons;
    exceeded = j.exceeded;
    rows = j.card_limits;
    digest = p.digest;
    order = p.order;
    at = at;
  }

  -- Steps 3 to 5.
  unfoldable pub judge_and_write :
      Outside → Gate → Prepared → (at : Text) → Option (CheckResult × Gate)
  unfolding write judge_limits
  judge_and_write outside g p at = do
    j ← judge_limits p identity.kid at (or_zero (map_get p.digest g.uses))
    write setup outside g (decided_by p at j)

  abbrev pub denial : List Reason → Text → Members → (at : Text) → Decided
  denial reasons digest order at = record {
    decision = deny;
    reasons = reasons;
    exceeded = [];
    rows = [];
    digest = digest;
    order = order;
    at = at;
  }

  abbrev pub valid_until_of : Prepared → Text
  valid_until_of p = str_of (get (codes "valid_until") (constraints_of p.instruction))

  -- Step 2b, where the order is that of an earlier allow: the repeat, or on to step 3.
  unfoldable pub on_same_order :
      Outside → Gate → Prepared → (at : Text) → Allowed → Sign → Option (CheckResult × Gate)
  unfolding judge_and_write card_limits_of
  on_same_order outside g p at prior sign =
      if not_after sign
      then (do
        limits ← card_limits_of p.instruction p.order identity.kid at 1
        some (repeated p prior limits, g))
      else judge_and_write outside g p at

  unfoldable pub on_ref :
      Outside → Gate → Prepared → (at : Text) → Allowed → Bool → Option (CheckResult × Gate)
  unfolding on_same_order write compare_instants
  on_ref outside g p at prior false =
      write setup outside g (denial (order_ref_reused ∷ []) p.digest p.order at)
  on_ref outside g p at prior true = do
    sign ← compare_instants at (valid_until_of p)
    on_same_order outside g p at prior sign

  -- Step 2b
  unfoldable pub on_prior :
      Outside → Gate → Prepared → (at : Text) → Option Allowed → Option (CheckResult × Gate)
  unfolding on_ref judge_and_write jcs_sha256
  on_prior outside g p at none = judge_and_write outside g p at
  on_prior outside g p at (some prior) = do
    order_sha256 ← jcs_sha256 js (quote setup) crypto (obj p.order)
    on_ref outside g p at prior (text_eq prior.order_sha256 order_sha256)

  abbrev pub refusal : List Reason → (at : Text) → CheckResult
  refusal reasons at = record {
    decision = deny;
    reasons = reasons;
    exceeded = [];
    card_limits = [];
    instruction_sha256 = none;
    at = some at;
    receipt = none;
    repeat = false;
  }

  unfoldable pub on_input : Outside → Gate → (at : Text) → Input → Option (CheckResult × Gate)
  unfolding write on_prior map_get key_of
  on_input outside g at (refused reasons) = some (refusal reasons at, g)
  on_input outside g at (denied reasons digest order) =
      write setup outside g (denial reasons digest order at)
  on_input outside g at (prepared p) =
      on_prior outside g p at (map_get (key_of setup p.digest p.order) g.allowed)

  abbrev pub max_skew_ms : ℕ
  max_skew_ms = 5000

  -- lastTsMs !== null && Date.parse(at) + MAX_SKEW_MS < lastTsMs
  abbrev pub regresses : Option ℕ → Option ℕ → Bool
  regresses (some last) (some ms) = ltb (ms + max_skew_ms) last
  regresses _ _ = false

  unfoldable pub run_at :
      Outside → Gate → (at : Text) → Read → Option Json → Option (CheckResult × Gate)
  unfolding check_options failed_at judge_input on_input
  run_at outside g at read order =
      if not (check_options dates identity.kid at)
      then some (failed_at none, g)
      else if regresses g.last_ts_ms (dates.parse at)
      then some (failed_at (some at), g)
      else do
        input ← judge_input js dates classes (quote setup) crypto node read order
        on_input outside g at input

  unfoldable pub run : Outside → Gate → Read → Option Json → Option (CheckResult × Gate)
  unfolding failed_at run_at
  run outside g read order =
      if g.closed || g.closing then some (failed_at none, g) else elim outside.now [
        | none ↦ some (failed_at none, g)
        | some at ↦ run_at outside g at read order
      ]

  unfoldable pub caught : Gate → Option (CheckResult × Gate) → CheckResult × Gate
  unfolding failed_at
  caught g none = (failed_at none, g)
  caught g (some result) = result

  -- check
  unfoldable pub check : Outside → Gate → Read → Option Json → CheckResult × Gate
  unfolding run caught
  check outside g read order = caught g (run outside g read order)

-- close, and what follows the last checkpoint
abbrev pub close : Gate → Gate
close g = record g { closing = true }

abbrev pub finish_close : Gate → Gate
finish_close g = record g { closed = true }
