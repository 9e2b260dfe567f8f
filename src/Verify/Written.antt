-- ===== src/Verify/Written.antt =====
-- The loop of verifyChain, src/vendor/recorder/cli/verify.ts, over the receipts that appendReceipt of
-- src/receipt.ts writes.
use chirindo.Prelude.{
  ℕ, suc, ◌+◌, ◌≤◌, max, ◌==◌, ◌≡◌, refl, sym, ◌∙◌, Bool, true, false, not, ◌&&◌, Option, none,
  some, List, [], ◌∷◌, ◌++◌, map, Text, text_eq, text_eq_iff, text_eq_refl, arith, length,
  length-append, All,
}
use chirindo.Crypto.{Crypto}
use chirindo.Record.{SignedRecord, record_version_v1, is_supported_record_version}
use chirindo.Record.Canon.{content_json}
use chirindo.Record.Hash.{
  entry_hash_of_canonical, genesis_prev_hash, request_commitment, rfc7638_thumbprint,
  kid_matches_key,
}
use chirindo.Record.File.{of_record}
use chirindo.Record.File.Laws.{chain_of_lines-records, as_file}
use chirindo.Receipt.{ReceiptInputs, prev_hash_of}
use chirindo.Receipt.Laws.{IsReceipt, append_receipt-IsReceipt}
use chirindo.Verify.{ResolvedKey, go, delivery_after, Progress, regresses, ts_after, text_opt_eq}
use chirindo.Verify.Scan.{secure_jwks_uri, check_record, check_records}
use chirindo.Verify.Vouched.{start}
use chirindo.Verify.History.{
  IsSender, IsBefore, IsOnTime, Receipts, none_yet, one_more, prev_hash_of-append,
  check_records-append,
}

All-append {ℓ κ} :
    {A : Type ℓ} (P : A → Type κ) (xs : List A) (x : A) → All P (xs ++ x ∷ []) → All P xs × P x
All-append P [] x (h, u) = (tt, h)
All-append P (y ∷ xs) x (h, hs) = let (before, last) = All-append P xs x hs in ((h, before), last)

pub append-All {ℓ κ} :
    {A : Type ℓ} (P : A → Type κ) (xs : List A) (x : A) → All P xs → P x → All P (xs ++ x ∷ [])
append-All P [] x h p = (p, tt)
append-All P (y ∷ xs) x (h, hs) p = (h, append-All P xs x hs p)

module _ (crypto : Crypto) (public_key : Text) (skew : ℕ) (session : Text) where
  open crypto use {canonicalize, sign, verify, date_ms}

  module _ (thumbprint genesis : Text) (key : ResolvedKey)
      (t : rfc7638_thumbprint crypto public_key ≡ some thumbprint)
      (g : genesis_prev_hash crypto session record_version_v1 ≡ some genesis)
      (k : key.thumbprint ≡ thumbprint) where
    -- Where the loop is after the records that appendReceipt wrote.
    pub record IsAt (rs : List SignedRecord) (p : Progress) : Type 0 where
      pub reached : check_records crypto public_key key skew (start genesis) rs ≡ go p
      pub number : p.index ≡ length rs
      pub links : prev_hash_of crypto session rs ≡ some p.last_entry_hash
      pub bounded :
          (b : ℕ)
          → All (IsBefore crypto public_key skew session b) rs
          → (last : ℕ) → p.last_ts ≡ some last
          → last ≤ b

    next : Progress → SignedRecord → Text → Progress
    next p r canon = record {
      index = suc p.index;
      last_entry_hash = entry_hash_of_canonical crypto canon;
      last_ts = ts_after p.last_ts (date_ms r.ts);
      delivery = delivery_after p.index r.x402_payment_ref r.event p.delivery;
    }

    version_supported : (v : Text) → v ≡ record_version_v1 → is_supported_record_version v ≡ true
    unfolding is_supported_record_version text_eq
    version_supported v e = rw e refl

    thumbprint_bound :
        (o : Option Text) → o ≡ some key.thumbprint → text_opt_eq o key.thumbprint ≡ true
    thumbprint_bound o e = rw e (text_eq_refl key.thumbprint)

    v-bound : (a b : Bool) → b ≡ true → a && not b ≡ false
    v-bound a b e = ground arith

    -- No check of the loop returns.
    check_record-passes :
        (p : Progress) (r : SignedRecord) (canon commitment : Text)
        → r.seq ≡ p.index
        → r.v ≡ record_version_v1
        → secure_jwks_uri crypto public_key r.jwks_uri ≡ true
        → r.key_thumbprint ≡ some key.thumbprint
        → kid_matches_key crypto key.thumbprint public_key r.kid ≡ true
        → canonicalize (content_json r.content) ≡ some canon
        → r.prev_hash ≡ p.last_entry_hash
        → request_commitment crypto r.event ≡ some commitment
        → commitment ≡ r.request_commitment
        → verify public_key canon r.sig ≡ true
        → regresses skew p.last_ts (date_ms r.ts) ≡ false
        → check_record crypto public_key key skew p r ≡ go (next p r canon)
    unfolding check_record next
    check_record-passes p r canon commitment seq v secure bound named c prev m same signed time =
        let numbered : (r.seq == p.index) ≡ true = ground (arith, seq) in
        let linked = (text_eq_iff r.prev_hash p.last_entry_hash).1 prev in
        let committed = (text_eq_iff commitment r.request_commitment).1 same in
        let supported = version_supported r.v v in
        let keyed = thumbprint_bound r.key_thumbprint bound in
        rw
          (
            numbered,
            supported,
            secure,
            v-bound (text_eq r.v record_version_v1) (text_opt_eq r.key_thumbprint key.thumbprint)
                keyed,
            named,
            c,
            linked,
            m,
            committed,
            signed,
            time,
          )
          refl

    regresses-false :
        (last ts : Option ℕ)
        → ((l n : ℕ) → last ≡ some l → ts ≡ some n → l ≤ n + skew)
        → regresses skew last ts ≡ false
    unfolding regresses
    regresses-false none ts h = refl
    regresses-false (some l) none h = refl
    regresses-false (some l) (some n) h = ground (arith, h l n refl refl)

    bounded-after :
        (last ts : Option ℕ) (b n : ℕ)
        → ((l : ℕ) → last ≡ some l → l ≤ b)
        → ((d : ℕ) → ts ≡ some d → d ≤ b)
        → ts_after last ts ≡ some n
        → n ≤ b
    unfolding ts_after
    bounded-after last none b n h d e = h n e
    bounded-after none (some m) b n h d e = d n e
    bounded-after (some l) (some m) b n h d e =
        let le = h l refl in
        let me = d m refl in
        let same : max l m ≡ n = ground (arith, e) in omega (arith, le, me, same)

    index-append :
        (rs : List SignedRecord) (r : SignedRecord) (p : Progress) (canon : Text)
        → p.index ≡ length rs
        → (next p r canon).index ≡ length (rs ++ r ∷ [])
    unfolding next
    index-append rs r p canon h = omega (arith, h, length-append rs (r ∷ []))

    bounded-append :
        (rs : List SignedRecord) (r : SignedRecord) (p : Progress) (canon : Text)
        → ((b : ℕ)
            → All (IsBefore crypto public_key skew session b) rs
            → (last : ℕ) → p.last_ts ≡ some last
            → last ≤ b)
        → (b : ℕ) → All (IsBefore crypto public_key skew session b) (rs ++ r ∷ [])
        → (last : ℕ) → (next p r canon).last_ts ≡ some last
        → last ≤ b
    unfolding next
    bounded-append rs r p canon h b all last e =
        let (before, now) = All-append (IsBefore crypto public_key skew session b) rs r all in
        bounded-after p.last_ts (date_ms r.ts) b last (λ l. h b before l) now e

    -- The loop accepts a receipt after the records that it was appended to.
    IsAt-append :
        (rs : List SignedRecord) (inputs : ReceiptInputs) (r : SignedRecord) (p : Progress)
        → IsSender crypto public_key skew session inputs
        → IsOnTime crypto public_key skew session rs inputs.ts
        → IsReceipt crypto inputs (as_file rs none) r
        → IsAt rs p
        → (p' : Progress) × IsAt (rs ++ r ∷ []) p'
    unfolding next
    IsAt-append rs inputs r p sender on_time receipt at =
        let links : some r.prev_hash ≡ some p.last_entry_hash =
          sym receipt.linked ∙ rw sender.same_session at.links in
        let same : some receipt.thumbprint ≡ some thumbprint =
          sym receipt.keyed ∙ rw sender.same_key t in
        let bound : r.key_thumbprint ≡ some key.thumbprint = receipt.bound ∙ same ∙ rw k refl in
        let named : kid_matches_key crypto key.thumbprint public_key r.kid ≡ true =
          rw (receipt.kid, k) (sender.named thumbprint t) in
        let signed : verify public_key receipt.bytes r.sig ≡ true =
          rw receipt.signed (sender.signs receipt.bytes) in
        let secure : secure_jwks_uri crypto public_key r.jwks_uri ≡ true =
          rw receipt.jwks sender.secure in
        let in_time : regresses skew p.last_ts (date_ms r.ts) ≡ false =
          regresses-false p.last_ts (date_ms r.ts)
            (λ l n e d. at.bounded (n + skew) (on_time n (rw (← receipt.time) d)) l e) in
        let passes =
          check_record-passes p r receipt.bytes r.request_commitment
            (receipt.numbered ∙ sym at.number) receipt.version secure bound named receipt.canonical
            (ground (arith, links)) receipt.committed refl signed in_time in
        (
          next p r receipt.bytes,
          record {
            reached =
                check_records-append crypto public_key skew session key rs r (start genesis) p
                  (next p r receipt.bytes) at.reached passes;
            number = index-append rs r p receipt.bytes at.number;
            links =
                prev_hash_of-append crypto public_key skew session rs r receipt.bytes
                  receipt.canonical;
            bounded = bounded-append rs r p receipt.bytes at.bounded;
          },
        )

    pub Receipts-IsAt :
        (rs : List SignedRecord)
        → Receipts crypto public_key skew session rs
        → (p : Progress) × IsAt rs p
    unfolding check_records prev_hash_of
    Receipts-IsAt [] none_yet = (
      start genesis,
      record { reached = refl; number = refl; links = g; bounded = λ b all last e. cc },
    )
    Receipts-IsAt _ (one_more rs inputs r before sender on_time appended) =
        let (p, at) = Receipts-IsAt rs before in
        IsAt-append rs inputs r p sender on_time
          (append_receipt-IsReceipt crypto inputs (map of_record rs) (as_file rs none) r
            sender.reads_file (chain_of_lines-records rs) appended)
          at

    abbrev pub Opened : SignedRecord → Type 0
    Opened r = (r.v ≡ record_version_v1) × (r.session_id ≡ session)

    pub Receipts-Opened :
        (rs : List SignedRecord) → Receipts crypto public_key skew session rs → All Opened rs
    Receipts-Opened [] none_yet = tt
    Receipts-Opened _ (one_more rs inputs r before sender on_time appended) =
        let receipt =
          append_receipt-IsReceipt crypto inputs (map of_record rs) (as_file rs none) r
            sender.reads_file (chain_of_lines-records rs) appended in
        append-All Opened rs r (Receipts-Opened rs before)
          (receipt.version, receipt.session ∙ sender.same_session)
