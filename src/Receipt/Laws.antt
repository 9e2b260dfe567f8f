-- ===== src/Receipt/Laws.antt =====
-- What appendReceipt of src/receipt.ts puts into the record that it appends.
use chirindo.Prelude.{
  ◌≡◌, refl, ap, none, some, List, Text, codes, Option-cases, inl, inr, arith, length,
}
use chirindo.Crypto.{Crypto}
use chirindo.Record.{RecordContent, record_version_v1, permit, RecordEvent, SignedRecord, ChainFile}
use chirindo.Record.Canon.{content_json}
use chirindo.Record.Hash.{
  default_issuer, request_commitment, entry_hash_of_canonical, rfc7638_thumbprint,
}
use chirindo.Record.File.{ChainLine, chain_of_lines}
use chirindo.Receipt.{
  GateDecision, or_default, ReceiptInputs, Head, result_of, build_event, prev_hash_of, head_of,
  receipt_content, append_receipt,
}
use chirindo.Receipt.Event.{IsCallOf, build_event-IsCallOf}

-- What is hashed for `gate_receipt`: the record with a placeholder for it.
abbrev pub provisional_of : SignedRecord → GateDecision → RecordContent
provisional_of r decision = record (r.content) {
  gate = some (record {
    request_commitment = r.request_commitment;
    gate_receipt = codes "self";
    gate_family = permit;
    result = result_of decision;
  });
}

module _ (crypto : Crypto) where
  open crypto use {canonicalize, sign}

  -- The receipt of `inputs` after the records of `file`.
  pub record IsReceipt (inputs : ReceiptInputs) (file : ChainFile) (r : SignedRecord) : Type 0 where
    pub version : r.v ≡ record_version_v1
    pub numbered : r.seq ≡ length file.records
    pub linked : prev_hash_of crypto inputs.session_id file.records ≡ some r.prev_hash
    pub session : r.session_id ≡ inputs.session_id
    pub kid : r.kid ≡ inputs.identity.kid
    pub jwks : r.jwks_uri ≡ inputs.jwks_uri
    pub time : r.ts ≡ inputs.ts
    pub described : build_event crypto inputs ≡ some r.event
    pub committed : request_commitment crypto r.event ≡ some r.request_commitment
    pub thumbprint : Text
    pub keyed : rfc7638_thumbprint crypto inputs.identity.public_key ≡ some thumbprint
    pub bound : r.key_thumbprint ≡ some thumbprint
    pub called : IsCallOf crypto inputs r.event
    pub agent : r.agent ≡ inputs.agent
    pub payment : r.x402_payment_ref ≡ inputs.x402_payment_ref
    pub checked : r.check ≡ inputs.check
    pub iss_given : (t : Text) → inputs.iss ≡ some t → r.iss ≡ some t
    pub iss_default :
        inputs.iss ≡ none → r.iss ≡ some (default_issuer crypto thumbprint inputs.jwks_uri)
    pub provisional : Text
    pub provisional_bytes :
        canonicalize (content_json (provisional_of r inputs.decision)) ≡ some provisional
    -- the gate's block names the commitment of the record it is in, and the hash of its provisional
    -- bytes
    pub gated :
        r.gate
        ≡ some (record {
          request_commitment = r.request_commitment;
          gate_receipt = entry_hash_of_canonical crypto provisional;
          gate_family = permit;
          result = result_of inputs.decision;
        })
    pub bytes : Text
    pub canonical : canonicalize (content_json r.content) ≡ some bytes
    pub signed : r.sig ≡ sign inputs.identity.private_key bytes

  Sealed :
      (inputs : ReceiptInputs) (head : Head) (event : RecordEvent)
      (commitment thumbprint gate_receipt canon : Text)
      → SignedRecord
  Sealed inputs head event commitment thumbprint gate_receipt canon = record {
    content = receipt_content crypto inputs head event commitment thumbprint gate_receipt;
    sig = sign inputs.identity.private_key canon;
  }

  head_of-file :
      (inputs : ReceiptInputs) (lines : List ChainLine) (file : ChainFile) (head : Head)
      → inputs.head ≡ none
      → chain_of_lines lines ≡ some file
      → head_of crypto inputs lines ≡ some head
      → (head.seq ≡ length file.records)
        × (prev_hash_of crypto inputs.session_id file.records ≡ some head.prev_hash)
  unfolding head_of
  head_of-file inputs lines file head n e h =
      elim (Option-cases (prev_hash_of crypto inputs.session_id file.records)) [
        | inl p ↦ ground (arith, n, e, h, p)
        | inr (prev, p) ↦ (ground (arith, n, e, h, p), ground (arith, n, e, h, p))
      ]

  append_receipt-Sealed :
      (inputs : ReceiptInputs) (lines : List ChainLine) (r : SignedRecord)
      → append_receipt crypto inputs lines ≡ some r
      → (head : Head) × (event : RecordEvent) × (commitment : Text) × (thumbprint : Text)
        × (provisional : Text) × (canon : Text) × (head_of crypto inputs lines ≡ some head)
        × (build_event crypto inputs ≡ some event)
        × (request_commitment crypto event ≡ some commitment)
        × (rfc7638_thumbprint crypto inputs.identity.public_key ≡ some thumbprint)
        × (canonicalize (
              content_json
                (receipt_content crypto inputs head event commitment thumbprint (codes "self")))
            ≡ some provisional)
        × (canonicalize (
              content_json (
                receipt_content crypto inputs head event commitment thumbprint
                  (entry_hash_of_canonical crypto provisional)))
            ≡ some canon)
        × (r
            ≡ Sealed inputs head event commitment thumbprint
                (entry_hash_of_canonical crypto provisional)
                canon)
  unfolding append_receipt Sealed
  append_receipt-Sealed inputs lines r h = elim (Option-cases (head_of crypto inputs lines)) [
    | inl a ↦ ground (arith, h, a)
    | inr (head, a) ↦ elim (Option-cases (build_event crypto inputs)) [
      | inl b ↦ ground (arith, h, a, b)
      | inr (event, b) ↦ elim (Option-cases (request_commitment crypto event)) [
        | inl c ↦ ground (arith, h, a, b, c)
        | inr (commitment, c) ↦
            elim (Option-cases (rfc7638_thumbprint crypto inputs.identity.public_key)) [
              | inl d ↦ ground (arith, h, a, b, c, d)
              | inr (thumbprint, d) ↦
                  let content = receipt_content crypto inputs head event commitment thumbprint in
                  elim (Option-cases (canonicalize (content_json (content (codes "self"))))) [
                    | inl e ↦ ground (arith, h, a, b, c, d, e)
                    | inr (provisional, e) ↦
                        let gate_receipt = entry_hash_of_canonical crypto provisional in
                        elim (Option-cases (canonicalize (content_json (content gate_receipt)))) [
                          | inl f ↦ ground (arith, h, a, b, c, d, e, f)
                          | inr (canon, f) ↦ (
                            head,
                            event,
                            commitment,
                            thumbprint,
                            provisional,
                            canon,
                            a,
                            b,
                            c,
                            d,
                            e,
                            f,
                            ground (arith, h, a, b, c, d, e, f),
                          )
                        ]
                  ]
            ]
      ]
    ]
  ]

-- The receipt of inputs that hold a head.
pub record IsHeld (crypto : Crypto) (inputs : ReceiptInputs) (head : Head) (r : SignedRecord)
    : Type 0 where
  pub numbered : r.seq ≡ head.seq
  pub linked : r.prev_hash ≡ head.prev_hash
  pub session : r.session_id ≡ inputs.session_id
  pub time : r.ts ≡ inputs.ts
  pub checked : r.check ≡ inputs.check
  pub described : build_event crypto inputs ≡ some r.event

pub append_receipt-IsHeld :
    (crypto : Crypto) (inputs : ReceiptInputs) (lines : List ChainLine) (head : Head)
    (r : SignedRecord)
    → inputs.head ≡ some head
    → append_receipt crypto inputs lines ≡ some r
    → IsHeld crypto inputs head r
unfolding receipt_content head_of
append_receipt-IsHeld crypto inputs lines head r given h =
    let (held, event, commitment, thumbprint, provisional, canon, a, b, c, d, e, f, same) =
      append_receipt-Sealed crypto inputs lines r h in
    let equal : held ≡ head = ground (arith, a, given) in
    unfold Sealed in
    rw same (record {
      numbered = ap (λ (i : Head). i.seq) equal;
      linked = ap (λ (i : Head). i.prev_hash) equal;
      session = refl;
      time = refl;
      checked = refl;
      described = b;
    })

pub append_receipt-IsReceipt :
    (crypto : Crypto) (inputs : ReceiptInputs) (lines : List ChainLine) (file : ChainFile)
    (r : SignedRecord)
    → inputs.head ≡ none
    → chain_of_lines lines ≡ some file
    → append_receipt crypto inputs lines ≡ some r
    → IsReceipt crypto inputs file r
unfolding receipt_content
append_receipt-IsReceipt crypto inputs lines file r n p h =
    let (head, event, commitment, thumbprint, provisional, canon, a, b, c, d, e, f, same) =
      append_receipt-Sealed crypto inputs lines r h in
    let (seq, prev) = head_of-file crypto inputs lines file head n p a in
    unfold Sealed in
    rw same (record {
      version = refl;
      numbered = seq;
      linked = prev;
      session = refl;
      kid = refl;
      jwks = refl;
      time = refl;
      described = b;
      committed = c;
      thumbprint = thumbprint;
      keyed = d;
      bound = refl;
      called = build_event-IsCallOf crypto inputs event b;
      agent = refl;
      payment = refl;
      checked = refl;
      iss_given =
          λ t i. ap (λ o. some (or_default o (default_issuer crypto thumbprint inputs.jwks_uri))) i;
      iss_default =
          λ i. ap (λ o. some (or_default o (default_issuer crypto thumbprint inputs.jwks_uri))) i;
      provisional = provisional;
      provisional_bytes = e;
      gated = refl;
      bytes = canon;
      canonical = f;
      signed = refl;
    })

-- The event of a receipt, wherever its head is from.
pub append_receipt-IsCallOf :
    (crypto : Crypto) (inputs : ReceiptInputs) (lines : List ChainLine) (r : SignedRecord)
    → append_receipt crypto inputs lines ≡ some r
    → IsCallOf crypto inputs r.event
unfolding receipt_content
append_receipt-IsCallOf crypto inputs lines r h =
    let (held, event, commitment, thumbprint, provisional, canon, a, b, c, d, e, f, same) =
      append_receipt-Sealed crypto inputs lines r h in
    unfold Sealed in rw same (build_event-IsCallOf crypto inputs event b)

-- The bytes that the signature of a receipt covers.
pub append_receipt-bytes :
    (crypto : Crypto) (inputs : ReceiptInputs) (lines : List ChainLine) (r : SignedRecord)
    → append_receipt crypto inputs lines ≡ some r
    → (bytes : Text) × (crypto.canonicalize (content_json r.content) ≡ some bytes)
append_receipt-bytes crypto inputs lines r h =
    let (held, event, commitment, thumbprint, provisional, canon, a, b, c, d, e, f, same) =
      append_receipt-Sealed crypto inputs lines r h in
    unfold Sealed in rw same (canon, f)
