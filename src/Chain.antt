-- ===== src/Chain.antt =====
-- src/vendor/recorder/chain.ts: the chain that a recorder holds in memory. `none` is a throw.
pub mod Links
use chirindo.Prelude.{
  ◌==◌, Bool, false, not, if◌then◌else◌, Option, none, some, List, [], ◌∷◌, ◌++◌, Text, length,
}
use chirindo.Crypto.{Crypto}
use chirindo.Record.{
  AgentInfo, RecordEvent, RecordContent, SignedRecord, CheckpointContent, SignedCheckpoint,
  record_version,
}
use chirindo.Record.Canon.{content_json, checkpoint_json}
use chirindo.Record.Hash.{
  entry_hash_of_canonical, genesis_prev_hash, request_commitment, rfc7638_thumbprint,
  default_issuer, is_payment_ref_format,
}

pub record ChainOptions : Type 0 where
  pub session_id : Text
  pub agent : AgentInfo
  pub kid : Text
  pub private_key : Text
  pub iss : Option Text

pub record Chain : Type 0 where
  pub opts : ChainOptions
  pub records : List SignedRecord
  pub last_entry_hash : Text
  pub key_thumbprint : Text

infixl 10 ◌>>=◌
abbrev ◌>>=◌ {ℓ κ} : {A : Type ℓ} {B : Type κ} → Option A → (A → Option B) → Option B
none >>= f = none
some a >>= f = f a

abbrev bad_ref : Option Text → Bool
bad_ref none = false
bad_ref (some ref) = not (is_payment_ref_format ref)

abbrev iss_or : Option Text → Text → Text
iss_or (some iss) other = iss
iss_or none other = other

module _ (crypto : Crypto) where
  open crypto use {canonicalize, sign, public_of}

  -- new Chain(opts)
  unfoldable pub new_chain : ChainOptions → Option Chain
  new_chain opts = do
    genesis ← genesis_prev_hash crypto opts.session_id record_version
    thumbprint ← rfc7638_thumbprint crypto (public_of opts.private_key)
    some (record {
      opts = opts;
      records = [];
      last_entry_hash = genesis;
      key_thumbprint = thumbprint;
    })

  -- The chain after a record of canonical bytes `canon`.
  unfoldable pub pushed : Chain → SignedRecord → Text → Chain
  pushed chain r canon = record chain {
    records = chain.records ++ r ∷ [];
    last_entry_hash = entry_hash_of_canonical crypto canon;
  }

  -- One turn of the loop of fromRecords.
  unfoldable pub push_record : SignedRecord → Chain → Option Chain
  push_record r chain = do
    bytes ← canonicalize (content_json r.content)
    some (pushed chain r bytes)

  unfoldable pub push_records : List SignedRecord → Chain → Option Chain
  unfolding push_record
  push_records [] chain = some chain
  push_records (r ∷ rs) chain = do next ← push_record r chain; push_records rs next

  unfoldable pub from_records : List SignedRecord → ChainOptions → Option Chain
  unfolding new_chain push_records
  from_records records opts = do chain ← new_chain opts; push_records records chain

  unfoldable pub chain_content :
      Chain
      → RecordEvent
      → (commitment : Text) → (ts : Text) → (payment_ref : Option Text) → RecordContent
  chain_content chain event commitment ts payment_ref = record {
    v = record_version;
    seq = length chain.records;
    session_id = chain.opts.session_id;
    ts = ts;
    agent = chain.opts.agent;
    event = event;
    request_commitment = commitment;
    gate = none;
    jwks_uri = none;
    key_thumbprint = some chain.key_thumbprint;
    iss = some (iss_or chain.opts.iss (default_issuer crypto chain.key_thumbprint none));
    x402_payment_ref = payment_ref;
    check = none;
    prev_hash = chain.last_entry_hash;
    kid = chain.opts.kid;
  }

  -- append; `ts` is the time written, given or the clock's.
  unfoldable pub append :
      Chain
      → RecordEvent
      → (ts : Text) → (payment_ref : Option Text) → Option (SignedRecord × Chain)
  unfolding chain_content
  append chain event ts payment_ref = if bad_ref payment_ref then none else do
    commitment ← request_commitment crypto event
    let content = chain_content chain event commitment ts payment_ref
    canon ← canonicalize (content_json content)
    let r : SignedRecord = record { content = content; sig = sign chain.opts.private_key canon }
    some (r, pushed chain r canon)

  unfoldable pub checkpoint_content : Chain → (ts : Text) → CheckpointContent
  checkpoint_content chain ts = record {
    v = record_version;
    session_id = chain.opts.session_id;
    count = length chain.records;
    last_entry_hash = chain.last_entry_hash;
    ts = ts;
    kid = chain.opts.kid;
  }

  -- checkpoint
  unfoldable pub checkpoint : Chain → (ts : Text) → Option SignedCheckpoint
  unfolding checkpoint_content
  checkpoint chain ts = if length chain.records == 0 then none else do
    let content = checkpoint_content chain ts
    canon ← canonicalize (checkpoint_json content)
    some (record { content = content; sig = sign chain.opts.private_key canon })
