-- ===== src/Verify/Valid.antt =====
-- verifyChain of src/vendor/recorder/cli/verify.ts on the chains that appendReceipt of src/receipt.ts
-- writes, one receipt after the other.
use chirindo.Prelude.{
  ◌≤◌, ◌≡◌, refl, false, none, some, List, [], ◌∷◌, map, Text, arith, length, All,
}
use chirindo.Crypto.{Crypto}
use chirindo.Record.{SignedRecord, record_version_v1}
use chirindo.Record.Hash.{genesis_prev_hash, rfc7638_thumbprint}
use chirindo.Record.File.{of_record}
use chirindo.Record.File.Laws.{chain_of_lines-records}
use chirindo.Verify.{ResolvedKey, go, Progress, VerifyControls, ValidChain, valid}
use chirindo.Verify.Scan.{
  check_records, verify_tail, verify_records, verify_file, resolved_key, pinned_out, on_file,
  verify_chain,
}
use chirindo.Verify.Vouched.{start}
use chirindo.Verify.History.{Receipts}
use chirindo.Verify.Written.{Receipts-IsAt, Receipts-Opened}

module _ (crypto : Crypto) (public_key : Text) (controls : VerifyControls)
    (session thumbprint genesis : Text) (t : rfc7638_thumbprint crypto public_key ≡ some thumbprint)
    (g : genesis_prev_hash crypto session record_version_v1 ≡ some genesis)
    (free : pinned_out crypto public_key controls thumbprint ≡ false) where
  abbrev key : ResolvedKey
  key = resolved_key crypto public_key controls thumbprint

  result : (r : SignedRecord) (rs : List SignedRecord) → Progress → ValidChain
  result r rs p = record {
    count = length (r ∷ rs);
    session_id = r.session_id;
    has_checkpoint = false;
    key = key;
    delivery = p.delivery;
  }

  verify_records-valid :
      (r : SignedRecord) (rs : List SignedRecord) (p : Progress)
      → r.v ≡ record_version_v1
      → r.session_id ≡ session
      → check_records crypto public_key key controls.max_skew_ms (start genesis) (r ∷ rs) ≡ go p
      → verify_records crypto public_key controls r rs none ≡ go (result r rs p)
  unfolding verify_records verify_tail result
  verify_records-valid r rs p v s c =
      let opened : genesis_prev_hash crypto r.session_id r.v ≡ some genesis = rw (v, s) g in
      rw (t, free, opened, c) refl

  verify_file-valid :
      (rs : List SignedRecord) (p : Progress)
      → 1 ≤ length rs
      → All (λ r. (r.v ≡ record_version_v1) × (r.session_id ≡ session)) rs
      → check_records crypto public_key key controls.max_skew_ms (start genesis) rs ≡ go p
      → (v : ValidChain) × (verify_file crypto public_key controls rs none ≡ some (valid v))
        × (v.count ≡ length rs)
        × (v.session_id ≡ session)
        × (v.has_checkpoint ≡ false)
  unfolding verify_file result
  verify_file-valid [] p h o c = absurd (omega (arith, h))
  verify_file-valid (r ∷ rs) p h ((v, s), os) c =
      (result r rs p, rw (verify_records-valid r rs p v s c) refl, refl, s, refl)

-- A chain file of one or more receipts of one session, each appended by appendReceipt to the file
-- before it under one key, whose kid names the key, whose signatures verify and whose clock went
-- back by the skew at most, is VALID under that key if it is pinned or no key is, with the number of
-- the receipts and the session.
pub written_chain_is_valid :
    (crypto : Crypto) (public_key : Text) (controls : VerifyControls)
    (session thumbprint genesis : Text)
    → (rs : List SignedRecord) → rfc7638_thumbprint crypto public_key ≡ some thumbprint
    → genesis_prev_hash crypto session record_version_v1 ≡ some genesis
    → pinned_out crypto public_key controls thumbprint ≡ false
    → 1 ≤ length rs
    → Receipts crypto public_key controls.max_skew_ms session rs
    → (v : ValidChain) × (verify_chain crypto public_key controls (map of_record rs)
        ≡ some (valid v))
      × (v.count ≡ length rs)
      × (v.session_id ≡ session)
      × (v.has_checkpoint ≡ false)
unfolding verify_chain on_file resolved_key
written_chain_is_valid crypto public_key controls session thumbprint genesis rs t g free h written =
    let key = resolved_key crypto public_key controls thumbprint in
    let (p, at) =
      Receipts-IsAt crypto public_key controls.max_skew_ms session thumbprint genesis key t g refl
        rs written in
    let opened =
      Receipts-Opened crypto public_key controls.max_skew_ms session thumbprint genesis key t g refl
        rs written in
    rw (chain_of_lines-records rs) (
      verify_file-valid crypto public_key controls session thumbprint genesis t g free rs p h opened
        at.reached)
