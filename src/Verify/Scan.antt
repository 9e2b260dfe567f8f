-- ===== src/Verify/Scan.antt =====
-- The loop of verifyChain over the records, the checkpoint, and the whole of verifyChain.
use chirindo.Prelude.{
  ℕ, suc, ◌==◌, Bool, true, false, not, ◌&&◌, Option, none, some, List, [], ◌∷◌, Text, codes,
  text_eq, length, includes, is_some,
}
use chirindo.Crypto.{Crypto, Url}
use chirindo.Record.{
  SignedRecord, SignedCheckpoint, ChainFile, record_version_v1, is_supported_record_version,
}
use chirindo.Record.Canon.{content_json, checkpoint_json}
use chirindo.Record.Hash.{
  entry_hash_of_canonical, genesis_prev_hash, request_commitment, rfc7638_thumbprint,
  kid_matches_key,
}
use chirindo.Record.File.{ChainLine, chain_of_lines}
use chirindo.Verify.{
  ResolvedKey, no_claim, prev_hash_linkage_broken, signature_invalid, sequence_gap,
  timestamp_regression, unsupported_record_version, kid_mismatch, request_commitment_mismatch,
  count_mismatch, last_entry_hash_mismatch, key_binding_mismatch, untrusted_key, insecure_jwks_uri,
  entry, checkpoint, chain, VerifyResult, valid, failed, tampered, invalid, ValidChain, empty,
  VerifyControls, Step, throws, stop, go, ◌>>=◌, ◌>>◌, or_throw, return_if, delivery_after,
  Progress, regresses, ts_after, text_opt_eq,
}

is_https : Option Url → Bool
is_https none = false
is_https (some u) = text_eq u.protocol (codes "https:")

module _ (crypto : Crypto) (public_key : Text) where
  open crypto use {canonicalize, verify, url, date_ms}

  -- isHttpsUrl, of a jwks_uri that is there
  unfoldable pub secure_jwks_uri : Option Text → Bool
  unfolding is_https
  secure_jwks_uri none = true
  secure_jwks_uri (some u) = is_https (url u)

  -- One turn of the loop, its checks in the order of the code.
  unfoldable pub check_record : ResolvedKey → (skew : ℕ) → Progress → SignedRecord → Step Progress
  check_record key skew p r = do
    return_if (not (r.seq == p.index)) (tampered (entry p.index) sequence_gap)
    return_if (not (is_supported_record_version r.v))
        (tampered (entry p.index) unsupported_record_version)
    return_if (not (secure_jwks_uri r.jwks_uri)) (invalid (entry p.index) insecure_jwks_uri key)
    return_if (text_eq r.v record_version_v1 && not (text_opt_eq r.key_thumbprint key.thumbprint))
        (invalid (entry p.index) key_binding_mismatch key)
    return_if (not (kid_matches_key crypto key.thumbprint public_key r.kid))
        (tampered (entry p.index) kid_mismatch)
    canon ← or_throw (canonicalize (content_json r.content))
    return_if (not (text_eq r.prev_hash p.last_entry_hash))
        (tampered (entry p.index) prev_hash_linkage_broken)
    commitment ← or_throw (request_commitment crypto r.event)
    return_if (not (text_eq commitment r.request_commitment))
        (tampered (entry p.index) request_commitment_mismatch)
    return_if (not (verify public_key canon r.sig)) (tampered (entry p.index) signature_invalid)
    return_if (regresses skew p.last_ts (date_ms r.ts))
        (tampered (entry p.index) timestamp_regression)
    go (record {
      index = suc p.index;
      last_entry_hash = entry_hash_of_canonical crypto canon;
      last_ts = ts_after p.last_ts (date_ms r.ts);
      delivery = delivery_after p.index r.x402_payment_ref r.event p.delivery;
    })

  unfoldable pub check_records :
      ResolvedKey → (skew : ℕ) → Progress → List SignedRecord → Step Progress
  unfolding check_record
  check_records key skew p [] = go p
  check_records key skew p (r ∷ rs) = do
    p' ← check_record key skew p r
    check_records key skew p' rs

  -- verifyCheckpoint
  unfoldable pub verify_checkpoint :
      ResolvedKey → (count : ℕ) → (last_entry_hash : Text) → SignedCheckpoint → Step (Unit {0})
  verify_checkpoint key count last_entry_hash cp = do
    return_if (not (kid_matches_key crypto key.thumbprint public_key cp.kid))
        (tampered checkpoint kid_mismatch)
    return_if (not (cp.count == count)) (tampered checkpoint count_mismatch)
    return_if (not (text_eq cp.last_entry_hash last_entry_hash))
        (tampered checkpoint last_entry_hash_mismatch)
    canon ← or_throw (canonicalize (checkpoint_json cp.content))
    return_if (not (verify public_key canon cp.sig)) (tampered checkpoint signature_invalid)

  unfoldable pub verify_tail :
      ResolvedKey
      → (count : ℕ) → (last_entry_hash : Text) → Option SignedCheckpoint
      → Step (Unit {0})
  unfolding verify_checkpoint
  verify_tail key count last none = go tt
  verify_tail key count last (some cp) = verify_checkpoint key count last cp

  unfoldable pub resolved_key : VerifyControls → Text → ResolvedKey
  resolved_key controls thumbprint = record {
    thumbprint = thumbprint;
    source = controls.key_source;
    origin = controls.key_origin;
  }

  unfoldable pub pinned_out : VerifyControls → Text → Bool
  pinned_out controls thumbprint =
      not (length controls.expect_thumbprints == 0)
      && not (includes controls.expect_thumbprints thumbprint)

  -- verifyChain of a file with a record
  unfoldable pub verify_records :
      VerifyControls → SignedRecord → List SignedRecord → Option SignedCheckpoint → Step ValidChain
  unfolding check_records verify_tail resolved_key pinned_out
  verify_records controls r rs cp = do
    thumbprint ← or_throw (rfc7638_thumbprint crypto public_key)
    let key = resolved_key controls thumbprint
    return_if (pinned_out controls thumbprint) (invalid chain untrusted_key key)
    genesis ← or_throw (genesis_prev_hash crypto r.session_id r.v)
    p ←
        check_records key controls.max_skew_ms
          (record { index = 0; last_entry_hash = genesis; last_ts = none; delivery = no_claim })
          (r ∷ rs)
    verify_tail key (length (r ∷ rs)) p.last_entry_hash cp
    go (record {
      count = length (r ∷ rs);
      session_id = r.session_id;
      has_checkpoint = is_some cp;
      key = key;
      delivery = p.delivery;
    })

  abbrev pub result_of : Step ValidChain → Option VerifyResult
  result_of throws = none
  result_of (stop f) = some (failed f)
  result_of (go v) = some (valid v)

  unfoldable pub verify_file :
      VerifyControls → List SignedRecord → Option SignedCheckpoint → Option VerifyResult
  unfolding verify_records
  verify_file controls [] cp = some empty
  verify_file controls (r ∷ rs) cp = result_of (verify_records controls r rs cp)

  unfoldable pub on_file : VerifyControls → Option ChainFile → Option VerifyResult
  unfolding verify_file
  on_file controls none = none
  on_file controls (some file) = verify_file controls file.records file.checkpoint

  -- verifyChain; `none` is a throw.
  unfoldable pub verify_chain : VerifyControls → List ChainLine → Option VerifyResult
  unfolding on_file
  verify_chain controls lines = on_file controls (chain_of_lines lines)
