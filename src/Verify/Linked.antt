-- ===== src/Verify/Linked.antt =====
-- What verifyChain of src/vendor/recorder/cli/verify.ts has checked of a chain that it calls VALID,
-- said without its loop.
use chirindo.Prelude.{
  ℕ, suc, ◌≡◌, refl, ap, true, Option, none, some, List, [], ◌∷◌, Text, text_eq_iff, Option-cases,
  inl, inr, arith,
}
use chirindo.Crypto.{Crypto}
use chirindo.Record.{SignedRecord, record_version_v1, is_supported_record_version}
use chirindo.Record.Canon.{content_json}
use chirindo.Record.Hash.{entry_hash_of_canonical, request_commitment, kid_matches_key}
use chirindo.Verify.{ResolvedKey, Step, throws, stop, go, ◌>>=◌, Progress, text_opt_eq}
use chirindo.Verify.Scan.{secure_jwks_uri, check_record, check_records}

text_opt_eq→eq : (o : Option Text) (t : Text) → text_opt_eq o t ≡ true → o ≡ some t
text_opt_eq→eq none t h = cc
text_opt_eq→eq (some s) t h = ap some ((text_eq_iff s t).0 h)

module _ (crypto : Crypto) (public_key : Text) (key : ResolvedKey) where
  open crypto use {canonicalize, verify, date_ms}

  -- The record numbered `i` after an entry of hash `prev`, of canonical bytes `canon`.
  pub record IsAuthentic (i : ℕ) (prev : Text) (r : SignedRecord) (canon : Text) : Type 0 where
    pub numbered : r.seq ≡ i
    pub version : is_supported_record_version r.v ≡ true
    pub secure : secure_jwks_uri crypto public_key r.jwks_uri ≡ true
    pub bound : r.v ≡ record_version_v1 → r.key_thumbprint ≡ some key.thumbprint
    pub named : kid_matches_key crypto key.thumbprint public_key r.kid ≡ true
    pub bytes : canonicalize (content_json r.content) ≡ some canon
    pub linked : r.prev_hash ≡ prev
    pub committed : request_commitment crypto r.event ≡ some r.request_commitment
    pub signed : verify public_key canon r.sig ≡ true

  -- The records from number `i` on, the last of hash `last`.
  abbrev pub IsLinked : ℕ → (prev : Text) → List SignedRecord → (last : Text) → Type 0
  IsLinked i prev [] last = prev ≡ last
  IsLinked i prev (r ∷ rs) last =
      (canon : Text) × IsAuthentic i prev r canon
      × IsLinked (suc i) (entry_hash_of_canonical crypto canon) rs last

  check_record-go :
      (skew : ℕ) (p p' : Progress) (r : SignedRecord) (canon commitment : Text)
      → canonicalize (content_json r.content) ≡ some canon
      → request_commitment crypto r.event ≡ some commitment
      → check_record crypto public_key key skew p r ≡ go p'
      → IsAuthentic p.index p.last_entry_hash r canon
        × (p'.index ≡ suc p.index)
        × (p'.last_entry_hash ≡ entry_hash_of_canonical crypto canon)
  unfolding check_record
  check_record-go skew p p' r canon commitment c m h = (
    record {
      numbered = ground (arith, h);
      version = ground (arith, h);
      secure = ground (arith, h);
      bound = λ v.
          text_opt_eq→eq r.key_thumbprint key.thumbprint
            (ground (arith, h, (text_eq_iff r.v record_version_v1).1 v));
      named = ground (arith, h);
      bytes = c;
      linked = ground (arith, h, text_eq_iff r.prev_hash p.last_entry_hash);
      committed = ground (arith, h, m, text_eq_iff commitment r.request_commitment);
      signed = ground (arith, h);
    },
    ground (arith, h),
    ground (arith, h),
  )

  -- A record that the loop accepts is authentic, and the loop goes on after it.
  pub check_record-IsAuthentic :
      (skew : ℕ) (p p' : Progress) (r : SignedRecord)
      → check_record crypto public_key key skew p r ≡ go p'
      → (canon : Text) × IsAuthentic p.index p.last_entry_hash r canon
        × (p'.index ≡ suc p.index)
        × (p'.last_entry_hash ≡ entry_hash_of_canonical crypto canon)
  unfolding check_record
  check_record-IsAuthentic skew p p' r h =
      elim (Option-cases (canonicalize (content_json r.content))) [
        | inl unread ↦ ground (arith, h, unread)
        | inr (canon, c) ↦ elim (Option-cases (request_commitment crypto r.event)) [
          | inl unread ↦ ground (arith, h, unread)
          | inr (commitment, m) ↦
              let (authentic, number, hash) = check_record-go skew p p' r canon commitment c m h in
              (canon, authentic, number, hash)
        ]
      ]

  -- One turn and the rest.
  check_records-cons :
      (skew : ℕ) (rs : List SignedRecord) (p' : Progress) (step : Step Progress)
      → (step >>= λ q. check_records crypto public_key key skew q rs) ≡ go p'
      → (q : Progress) × (step ≡ go q) × (check_records crypto public_key key skew q rs ≡ go p')
  check_records-cons skew rs p' throws h = cc
  check_records-cons skew rs p' (stop v) h = cc
  check_records-cons skew rs p' (go q) h = (q, refl, h)

  pub check_records-IsLinked :
      (skew : ℕ) (rs : List SignedRecord) (p p' : Progress)
      → check_records crypto public_key key skew p rs ≡ go p'
      → IsLinked p.index p.last_entry_hash rs p'.last_entry_hash
  unfolding check_records
  check_records-IsLinked skew [] p p' h = ground (arith, h)
  check_records-IsLinked skew (r ∷ rs) p p' h =
      let (q, one, more) =
        check_records-cons skew rs p' (check_record crypto public_key key skew p r) h in
      let (canon, authentic, number, hash) = check_record-IsAuthentic skew p q r one in
      (canon, authentic, rw (← number, ← hash) (check_records-IsLinked skew rs q p' more))
