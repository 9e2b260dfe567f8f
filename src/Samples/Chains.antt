-- ===== src/Samples/Chains.antt =====
-- The theorems on receipts and chains at a chain of one receipt.
use chirindo.Prelude.{
  ◌≡◌, refl, ap, sym, ◌∙◌, ◌↔◌, true, false, Option, none, some, List, [], ◌∷◌, String, Text, codes,
  text_eq, text_eq_refl, arith, All, includes,
}
use chirindo.Json.{Json, str, Members, end, member, get}
use chirindo.Record.{
  SignedRecord, SignedCheckpoint, ChainFile, RecordContent, record_version_v1,
  is_supported_record_version,
}
use chirindo.Record.Canon.{content_json, checkpoint_json, with_option, request_descriptor}
use chirindo.Record.Hash.{
  genesis_prev_hash, args_hash, result_hash, request_commitment, rfc7638_thumbprint, default_issuer,
  kid_matches_key, entry_hash_of_canonical,
}
use chirindo.Record.File.{ChainLine, of_record, of_checkpoint, chain_of_lines}
use chirindo.Record.File.Laws.{as_file}
use chirindo.Receipt.{append_receipt}
use chirindo.Verify.{ValidChain, valid, no_claim, is_unproven, delivery_after, regresses}
use chirindo.Verify.Scan.{secure_jwks_uri, pinned_out, verify_chain}
use chirindo.Verify.Vouched.{IsVouched, valid_chain-IsVouched}
use chirindo.Verify.Pinned.{IsCollisionFree, KeepsLink, record_bytes, checkpoint_pins_records}
use chirindo.Verify.Delivery.{IsPaired, delivery_unproven_iff}
use chirindo.Verify.History.{IsSender, Receipts, none_yet, one_more}
use chirindo.Verify.Valid.{written_chain_is_valid}
use chirindo.Record.Lines.{Forms, line_json}
use chirindo.Samples.{js, crypto, inputs, receipt, controls, hash, text_of, link_of}

receipt-appended : append_receipt crypto inputs [] ≡ some receipt
unfolding append_receipt chain_of_lines genesis_prev_hash args_hash result_hash request_commitment
    rfc7638_thumbprint get request_descriptor content_json default_issuer text_eq
receipt-appended = refl

abbrev closing : SignedCheckpoint
closing = record {
  content = record {
    v = record_version_v1;
    session_id = codes "s";
    count = 1;
    last_entry_hash = hash (hash []);
    ts = codes "t";
    kid = [];
  };
  sig = [];
}

abbrev closed_file : ChainFile
closed_file = as_file (receipt ∷ []) (some closing)

abbrev closed_lines : List ChainLine
closed_lines = of_record receipt ∷ of_checkpoint closing ∷ []

abbrev forms : Forms
forms = record {
  js = record js { parse = λ t. some (line_json (of_record receipt)) };
  stringify = λ v. codes "{}";
  as_record = λ v. receipt;
  as_checkpoint = λ v. closing;
}

abbrev one_receipt : ChainFile
one_receipt = as_file (receipt ∷ []) none

sender : IsSender crypto (codes "k") 5000 (codes "s") inputs
unfolding kid_matches_key rfc7638_thumbprint text_eq secure_jwks_uri get
sender = record {
  same_session = refl;
  same_key = refl;
  reads_file = refl;
  secure = refl;
  named = λ t e. let same : [] ≡ t = ground (arith, e) in rw (← same) refl;
  signs = λ m. text_eq_refl m;
}

sample-Receipts : Receipts crypto (codes "k") 5000 (codes "s") (receipt ∷ [])
sample-Receipts = one_more [] inputs receipt none_yet sender (λ now e. tt) receipt-appended

thumbprint_known : rfc7638_thumbprint crypto (codes "k") ≡ some []
unfolding rfc7638_thumbprint get text_eq
thumbprint_known = refl

genesis_known : genesis_prev_hash crypto (codes "s") record_version_v1 ≡ some (hash [])
unfolding genesis_prev_hash get text_eq
genesis_known = refl

key_pinned : pinned_out crypto (codes "k") controls [] ≡ false
unfolding pinned_out includes text_eq
key_pinned = refl

written_chain_is_valid_example :
    (v : ValidChain) × (verify_chain crypto (codes "k") controls (of_record receipt ∷ [])
      ≡ some (valid v))
    × (v.count ≡ 1)
    × (v.session_id ≡ codes "s")
    × (v.has_checkpoint ≡ false)
written_chain_is_valid_example =
    written_chain_is_valid crypto (codes "k") controls (codes "s") [] (hash []) (receipt ∷ [])
      thumbprint_known genesis_known key_pinned (omega arith) sample-Receipts

abbrev sample_valid : ValidChain
sample_valid = record {
  count = 1;
  session_id = codes "s";
  has_checkpoint = true;
  key = record { thumbprint = []; source = controls.key_source; origin = controls.key_origin };
  delivery = no_claim;
}

closed_valid : verify_chain crypto (codes "k") controls closed_lines ≡ some (valid sample_valid)
unfolding verify_chain chain_of_lines rfc7638_thumbprint includes text_eq get genesis_prev_hash
    is_supported_record_version secure_jwks_uri kid_matches_key request_commitment
    request_descriptor content_json regresses checkpoint_json delivery_after
closed_valid = refl

closed_parsed : chain_of_lines closed_lines ≡ some closed_file
unfolding chain_of_lines
closed_parsed = refl

valid_chain-IsVouched_example :
    (file : ChainFile) × (chain_of_lines closed_lines ≡ some file)
    × (r : SignedRecord) × (rs : List SignedRecord) × (file.records ≡ r ∷ rs)
    × IsVouched crypto (codes "k") controls sample_valid r rs file.checkpoint
valid_chain-IsVouched_example =
    valid_chain-IsVouched crypto (codes "k") controls closed_lines sample_valid closed_valid

delivery_unproven_iff_example : (is_unproven no_claim ≡ false) ↔ All IsPaired (receipt ∷ [])
delivery_unproven_iff_example =
    delivery_unproven_iff crypto (codes "k") controls closed_lines sample_valid closed_file
      closed_valid closed_parsed

sample_free : IsCollisionFree crypto
unfolding entry_hash_of_canonical
sample_free = record { injective = λ s t h. ground (arith, h) }

-- A member of another name does not matter to the link.
skip :
    {A : Type 0} (f : A → Json) (name : String) (o : Option A) (ms : Members)
    → text_eq (codes name) (codes "prev_hash") ≡ false
    → get (codes "prev_hash") (with_option f name o ms) ≡ get (codes "prev_hash") ms
unfolding get
skip f name none ms h = refl
skip f name (some a) ms h = rw h refl

link_of-content : (c : RecordContent) → link_of (content_json c) ≡ c.prev_hash
unfolding content_json get text_eq
link_of-content c =
    let tail : Members =
      member (codes "prev_hash") (str c.prev_hash) (member (codes "kid") (str c.kid) end) in
    let checked : Members = with_option (λ (j : Json). j) "check" c.check tail in
    let paid : Members = with_option str "x402_payment_ref" c.x402_payment_ref checked in
    let issued : Members = with_option str "iss" c.iss paid in
    let keyed : Members = with_option str "key_thumbprint" c.key_thumbprint issued in
    ap text_of (
      skip str "jwks_uri" c.jwks_uri keyed refl
      ∙ skip str "key_thumbprint" c.key_thumbprint issued refl
      ∙ skip str "iss" c.iss paid refl
      ∙ skip str "x402_payment_ref" c.x402_payment_ref checked refl
      ∙ skip (λ (j : Json). j) "check" c.check tail refl)

some_injective : (s t : Text) → some s ≡ some t → s ≡ t
some_injective s t h = ground (arith, h)

sample_link : KeepsLink crypto
sample_link = record {
  keeps = λ a b t h k.
      sym (link_of-content a)
      ∙ some_injective (link_of (content_json a)) (link_of (content_json b)) (h ∙ sym k)
      ∙ link_of-content b;
}

checkpoint_pins_records_example :
    record_bytes crypto (receipt ∷ []) ≡ record_bytes crypto (receipt ∷ [])
checkpoint_pins_records_example =
    checkpoint_pins_records crypto sample_free sample_link (codes "k") (codes "k") controls controls
      closed_lines closed_lines sample_valid sample_valid closed_file closed_file closing closing
      closed_valid closed_valid closed_parsed closed_parsed refl refl refl refl
