-- ===== src/Verify/Delivery.antt =====
-- The delivery verdict of verifyChain, src/vendor/recorder/cli/verify.ts.
use chirindo.Prelude.{
  ℕ, ◌≡◌, refl, sym, ◌∙◌, ap, ◌↔◌, true, false, Option, none, some, List, [], ◌∷◌, Text, arith,
  Option-cases, inl, inr, All, is_some,
}
use chirindo.Crypto.{Crypto}
use chirindo.Record.{RecordEvent, SignedRecord, SignedCheckpoint, ChainFile}
use chirindo.Record.Canon.{content_json}
use chirindo.Record.Hash.{is_payment_ref_format, request_commitment}
use chirindo.Record.File.{ChainLine, chain_of_lines}
use chirindo.Verify.{
  DeliveryVerdict, no_claim, proven, unproven, is_unproven, event_result_hash, delivery_after,
  mark_unproven, ResolvedKey, go, Step-cases, Progress, ValidChain, valid, VerifyControls,
}
use chirindo.Verify.Scan.{check_record, check_records, verify_chain}
use chirindo.Verify.Vouched.{start, IsVouched, valid_chain-IsVouched}

-- A payment reference, if there is one, that can be recomputed and is paired with the hash of a
-- result.
abbrev pub IsPairedRef : (payment_ref : Option Text) → RecordEvent → Type 0
IsPairedRef none event = Unit
IsPairedRef (some ref) event =
    (is_payment_ref_format ref ≡ true) × (is_some (event_result_hash event) ≡ true)

abbrev pub IsPaired : SignedRecord → Type 0
IsPaired r = IsPairedRef r.x402_payment_ref r.event

delivery_after-unproven :
    (i : ℕ) (o : Option Text) (event : RecordEvent) (d : DeliveryVerdict)
    → (is_unproven (delivery_after i o event d) ≡ false)
      ↔ ((is_unproven d ≡ false) × IsPairedRef o event)
unfolding delivery_after mark_unproven
delivery_after-unproven i none event d = (λ h. (h, tt), λ h. h.0)
delivery_after-unproven i (some ref) event no_claim = ground arith
delivery_after-unproven i (some ref) event proven = ground arith
delivery_after-unproven i (some ref) event (unproven e why) = ground arith

module _ (crypto : Crypto) (public_key : Text) (key : ResolvedKey) (skew : ℕ) where
  open crypto use {canonicalize}

  check_record-delivery :
      (p p' : Progress) (r : SignedRecord)
      → check_record crypto public_key key skew p r ≡ go p'
      → p'.delivery ≡ delivery_after p.index r.x402_payment_ref r.event p.delivery
  unfolding check_record
  check_record-delivery p p' r h = elim (Option-cases (canonicalize (content_json r.content))) [
    | inl unread ↦ ground (arith, h, unread)
    | inr (canon, c) ↦ elim (Option-cases (request_commitment crypto r.event)) [
      | inl unread ↦ ground (arith, h, unread)
      | inr (commitment, m) ↦ ground (arith, h, c, m)
    ]
  ]

  check_records-delivery :
      (rs : List SignedRecord) (p q : Progress)
      → check_records crypto public_key key skew p rs ≡ go q
      → (is_unproven q.delivery ≡ false) ↔ ((is_unproven p.delivery ≡ false) × All IsPaired rs)
  unfolding check_records
  check_records-delivery [] p q h =
      let same : p ≡ q = ground (arith, h) in rw (← same) (λ e. (e, tt), λ e. e.0)
  check_records-delivery (r ∷ rs) p q h =
      elim (Step-cases (check_record crypto public_key key skew p r)) [
        | inl a ↦ ground (arith, h, a)
        | inr (inl (f, a)) ↦ ground (arith, h, a)
        | inr (inr (p', a)) ↦
            let rest = check_records-delivery rs p' q (ground (arith, h, a)) in
            let now = delivery_after-unproven p.index r.x402_payment_ref r.event p.delivery in
            let same = check_record-delivery p p' r a in
            (
              λ e.
                  let (proved, paired) = rest.0 e in
                  let (before, this) = now.0 (rw (← same) proved) in (before, (this, paired)),
              λ (before, (this, paired)). rest.1 (rw same (now.1 (before, this)), paired),
            )
      ]

  vouched-delivery :
      (controls : VerifyControls) (v : ValidChain) (r : SignedRecord) (rs : List SignedRecord)
      (cp : Option SignedCheckpoint)
      → v.key ≡ key
      → controls.max_skew_ms ≡ skew
      → IsVouched crypto public_key controls v r rs cp
      → (is_unproven v.delivery ≡ false) ↔ All IsPaired (r ∷ rs)
  vouched-delivery controls v r rs cp same width vouched =
      let scan =
        check_records-delivery (r ∷ rs) (start vouched.genesis) vouched.progress
          (rw (← same, ← width) vouched.scanned) in
      (
        λ h. (scan.0 (sym (ap is_unproven vouched.delivered) ∙ h)).1,
        λ h. ap is_unproven vouched.delivered ∙ scan.1 (refl, h),
      )

-- The delivery verdict of a VALID chain is not `unproven` exactly where each of its records that names
-- a payment has a reference that can be recomputed and the hash of a result: no later record lifts
-- the first that fails.
pub delivery_unproven_iff :
    (crypto : Crypto) (public_key : Text) (controls : VerifyControls) (lines : List ChainLine)
    (v : ValidChain)
    → (file : ChainFile) → verify_chain crypto public_key controls lines ≡ some (valid v)
    → chain_of_lines lines ≡ some file
    → (is_unproven v.delivery ≡ false) ↔ All IsPaired file.records
delivery_unproven_iff crypto public_key controls lines v file ok read =
    let (f, e, r, rs, all, vouched) = valid_chain-IsVouched crypto public_key controls lines v ok in
    let same : f ≡ file = ground (arith, e, read) in
    rw (← same, all)
      (vouched-delivery crypto public_key v.key controls.max_skew_ms controls v r rs f.checkpoint
        refl refl vouched)
