-- ===== src/Checkpoint.antt =====
-- src/checkpoint.ts: the checkpoints of a gate, signed from the records of its chain or from the head that
-- the caller holds. `none` is a throw.
pub mod Head
pub mod Driver
use chirindo.Prelude.{ℕ, ◌==◌, leb, not, if◌then◌else◌, Option, none, some, List, [], ◌∷◌, Text}
use chirindo.Json.{max_safe_integer}
use chirindo.Crypto.{Crypto}
use chirindo.Record.{AgentInfo, SignedRecord, CheckpointContent, SignedCheckpoint, record_version}
use chirindo.Record.Canon.{checkpoint_json}
use chirindo.Receipt.{Identity}
use chirindo.Chain.{ChainOptions, from_records, checkpoint}

-- The head that a caller holds.
pub record HeldHead : Type 0 where
  pub session_id : Text
  pub count : ℕ
  pub last_entry_hash : Text

infixl 10 ◌>>=◌
abbrev ◌>>=◌ {ℓ κ} : {A : Type ℓ} {B : Type κ} → Option A → (A → Option B) → Option B
none >>= f = none
some a >>= f = f a

module _ (crypto : Crypto) (agent : AgentInfo) (identity : Identity) where
  open crypto use {canonicalize, sign}

  abbrev pub checkpoint_options : (session_id : Text) → ChainOptions
  checkpoint_options session_id = record {
    session_id = session_id;
    agent = agent;
    kid = identity.kid;
    private_key = identity.private_key;
    iss = none;
  }

  -- buildCheckpoint; `ts` is the time written, given or the clock's.
  unfoldable pub build_checkpoint : List SignedRecord → (ts : Text) → Option SignedCheckpoint
  unfolding from_records checkpoint
  build_checkpoint [] ts = none
  build_checkpoint (r ∷ records) ts = do
    chain ← from_records crypto (r ∷ records) (checkpoint_options r.content.session_id)
    checkpoint crypto chain ts

  unfoldable pub head_content : HeldHead → (ts : Text) → CheckpointContent
  head_content head ts = record {
    v = record_version;
    session_id = head.session_id;
    count = head.count;
    last_entry_hash = head.last_entry_hash;
    ts = ts;
    kid = identity.kid;
  }

  -- buildCheckpointFromHead
  unfoldable pub build_checkpoint_from_head : HeldHead → (ts : Text) → Option SignedCheckpoint
  unfolding head_content
  build_checkpoint_from_head head ts =
      if not (leb head.count max_safe_integer) then none else if head.count == 0 then none else do
        canon ← canonicalize (checkpoint_json (head_content head ts))
        some (record { content = head_content head ts; sig = sign identity.private_key canon })
