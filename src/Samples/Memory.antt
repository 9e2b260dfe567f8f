-- ===== src/Samples/Memory.antt =====
-- The theorems on the chain in memory at a chain of one record.
use chirindo.Prelude.{
  ◌≡◌, refl, none, some, [], ◌∷◌, ◌++◌, codes, length, true, text_eq, text_eq_refl,
}
use chirindo.Json.{get}
use chirindo.Record.{
  RecordEvent, SignedRecord, SignedCheckpoint, executed, record_version_v1, file_read,
}
use chirindo.Record.Canon.{content_json, checkpoint_json, request_descriptor}
use chirindo.Record.Hash.{
  genesis_prev_hash, request_commitment, rfc7638_thumbprint, kid_matches_key, default_issuer,
}
use chirindo.Receipt.{prev_hash_of}
use chirindo.Verify.{ResolvedKey, flag, go}
use chirindo.Verify.Scan.{verify_checkpoint}
use chirindo.Chain.{ChainOptions, Chain, pushed, from_records, append, checkpoint}
use chirindo.Chain.Links.{HoldsLink, resumed_chain_links, checkpoint_is_taken}
use chirindo.Samples.{crypto, agent, receipt, hash}

abbrev opts : ChainOptions
opts = record {
  session_id = codes "s";
  agent = agent;
  kid = [];
  private_key = codes "k";
  iss = none;
}

abbrev resumed : Chain
resumed = record {
  opts = opts;
  records = receipt ∷ [];
  last_entry_hash = hash (hash []);
  key_thumbprint = [];
}

abbrev read_event : RecordEvent
read_event = file_read (record { outcome = executed; path = codes "a"; content_hash = none })

abbrev second : SignedRecord
second = record {
  content = record {
    v = record_version_v1;
    seq = 1;
    session_id = codes "s";
    ts = codes "t";
    agent = agent;
    event = read_event;
    request_commitment = hash [];
    gate = none;
    jwks_uri = none;
    key_thumbprint = some [];
    iss = some (codes "urn:chirindo:key:");
    x402_payment_ref = none;
    check = none;
    prev_hash = hash (hash []);
    kid = [];
  };
  sig = hash (hash []);
}

abbrev grown : Chain
grown = record resumed { records = receipt ∷ second ∷ []; last_entry_hash = hash (hash (hash [])) }

resumed_from : from_records crypto (receipt ∷ []) opts ≡ some resumed
unfolding from_records pushed genesis_prev_hash rfc7638_thumbprint get text_eq content_json
resumed_from = refl

second_appended : append crypto resumed read_event (codes "t") none ≡ some (second, grown)
unfolding append pushed request_commitment request_descriptor get text_eq content_json
    default_issuer
second_appended = refl

resumed_chain_links_example :
    (prev_hash_of crypto (codes "s") (receipt ∷ []) ≡ some second.prev_hash)
    × (second.seq ≡ length (receipt ∷ []))
    × (request_commitment crypto second.event ≡ some second.request_commitment)
    × (grown.records ≡ (receipt ∷ []) ++ second ∷ [])
    × HoldsLink crypto grown
resumed_chain_links_example =
    resumed_chain_links crypto (receipt ∷ []) opts resumed grown read_event (codes "t") none second
      resumed_from second_appended

abbrev pub closing : SignedCheckpoint
closing = record {
  content = record {
    v = record_version_v1;
    session_id = codes "s";
    count = 1;
    last_entry_hash = hash (hash []);
    ts = codes "t";
    kid = [];
  };
  sig = [];
}

closing_made : checkpoint crypto resumed (codes "t") ≡ some closing
unfolding checkpoint checkpoint_json get text_eq
closing_made = refl

abbrev key : ResolvedKey
key = record { thumbprint = []; source = flag; origin = codes "key.json" }

kid_fits : kid_matches_key crypto [] (codes "k") [] ≡ true
unfolding kid_matches_key text_eq
kid_fits = refl

checkpoint_is_taken_example :
    verify_checkpoint crypto
      (codes "k")
      key
      (length resumed.records)
      resumed.last_entry_hash
      closing
    ≡ go tt
checkpoint_is_taken_example =
    checkpoint_is_taken crypto resumed (codes "t") closing (codes "k") key kid_fits
      (λ m. text_eq_refl m) closing_made
