-- ===== src/Verify/History.antt =====
-- Chains that appendReceipt of src/receipt.ts writes, one receipt after the other, and the loop of
-- verifyChain, src/vendor/recorder/cli/verify.ts, at one record more.
use chirindo.Prelude.{
  ℕ, ◌+◌, ◌≤◌, ◌≡◌, refl, true, none, some, List, [], ◌∷◌, ◌++◌, map, Text, inl, inr, arith, All,
}
use chirindo.Crypto.{Crypto}
use chirindo.Record.{SignedRecord}
use chirindo.Record.Canon.{content_json}
use chirindo.Record.Hash.{entry_hash_of_canonical, rfc7638_thumbprint, kid_matches_key}
use chirindo.Record.File.{of_record}
use chirindo.Receipt.{ReceiptInputs, prev_hash_of, append_receipt}
use chirindo.Verify.{ResolvedKey, go, Progress, Step-cases}
use chirindo.Verify.Scan.{secure_jwks_uri, check_record, check_records}

module _ (crypto : Crypto) (public_key : Text) (skew : ℕ) (session : Text) where
  open crypto use {canonicalize, sign, verify, date_ms}

  -- Inputs of a receipt of the session under the key, written after the chain file is read.
  pub record IsSender (inputs : ReceiptInputs) : Type 0 where
    pub same_session : inputs.session_id ≡ session
    pub same_key : inputs.identity.public_key ≡ public_key
    pub reads_file : inputs.head ≡ none
    pub secure : secure_jwks_uri crypto public_key inputs.jwks_uri ≡ true
    pub named :
        (thumbprint : Text)
        → rfc7638_thumbprint crypto public_key ≡ some thumbprint
        → kid_matches_key crypto thumbprint public_key inputs.identity.kid ≡ true
    -- a signature of the private key verifies under the public key
    pub signs : (m : Text) → verify public_key m (sign inputs.identity.private_key m) ≡ true

  abbrev pub IsBefore : ℕ → SignedRecord → Type 0
  IsBefore now r = (d : ℕ) → date_ms r.ts ≡ some d → d ≤ now

  -- A clock that went back by the skew at most.
  abbrev pub IsOnTime : List SignedRecord → Text → Type 0
  IsOnTime rs ts = (now : ℕ) → date_ms ts ≡ some now → All (IsBefore (now + skew)) rs

  -- The records of a chain file that appendReceipt wrote line by line.
  pub data Receipts : List SignedRecord → Type 0 where
    none_yet : Receipts []
    one_more :
        (rs : List SignedRecord) (inputs : ReceiptInputs) (r : SignedRecord)
        → Receipts rs
        → IsSender inputs
        → IsOnTime rs inputs.ts
        → append_receipt crypto inputs (map of_record rs) ≡ some r
        → Receipts (rs ++ r ∷ [])

  pub prev_hash_of-append :
      (rs : List SignedRecord) (r : SignedRecord) (canon : Text)
      → canonicalize (content_json r.content) ≡ some canon
      → prev_hash_of crypto session (rs ++ r ∷ []) ≡ some (entry_hash_of_canonical crypto canon)
  unfolding prev_hash_of
  prev_hash_of-append [] r canon c = rw c refl
  prev_hash_of-append (q ∷ []) r canon c = rw c refl
  prev_hash_of-append (q ∷ s ∷ rs) r canon c = prev_hash_of-append (s ∷ rs) r canon c

  pub check_records-append :
      (key : ResolvedKey) (rs : List SignedRecord) (r : SignedRecord) (p q q' : Progress)
      → check_records crypto public_key key skew p rs ≡ go q
      → check_record crypto public_key key skew q r ≡ go q'
      → check_records crypto public_key key skew p (rs ++ r ∷ []) ≡ go q'
  unfolding check_records
  check_records-append key [] r p q q' h e = ground (arith, h, e)
  check_records-append key (s ∷ rs) r p q q' h e =
      elim (Step-cases (check_record crypto public_key key skew p s)) [
        | inl a ↦ ground (arith, h, a)
        | inr (inl (f, a)) ↦ ground (arith, h, a)
        | inr (inr (p', a)) ↦ rw a (check_records-append key rs r p' q q' (ground (arith, h, a)) e)
      ]
