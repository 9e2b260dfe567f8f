-- ===== src/Verify/Vouched.antt =====
-- What a VALID of verifyChain, src/vendor/recorder/cli/verify.ts, says of the chain file.
use chirindo.Prelude.{
  ℕ, ◌⊎◌, ◌≡◌, refl, true, false, Option, none, some, List, [], ◌∷◌, Text, text_eq_iff,
  Option-cases, inl, inr, arith, length, includes, is_some,
}
use chirindo.Crypto.{Crypto}
use chirindo.Record.{SignedRecord, SignedCheckpoint, ChainFile}
use chirindo.Record.Canon.{checkpoint_json}
use chirindo.Record.Hash.{genesis_prev_hash, rfc7638_thumbprint, kid_matches_key}
use chirindo.Record.File.{ChainLine, chain_of_lines}
use chirindo.Verify.{
  ResolvedKey, no_claim, ValidChain, valid, VerifyControls, Step, throws, stop, go, Progress,
  Step-cases,
}
use chirindo.Verify.Scan.{
  check_records, verify_checkpoint, verify_tail, verify_file, verify_records, resolved_key,
  pinned_out, result_of, on_file, verify_chain,
}
use chirindo.Verify.Linked.{IsLinked, check_records-IsLinked}

abbrev pub start : Text → Progress
start genesis = record { index = 0; last_entry_hash = genesis; last_ts = none; delivery = no_claim }

module _ (crypto : Crypto) (public_key : Text) (controls : VerifyControls) where
  open crypto use {canonicalize, verify}

  -- A checkpoint that closes `count` records, the last of hash `last`, under the key.
  pub record IsClosing (key : ResolvedKey) (count : ℕ) (last : Text) (cp : SignedCheckpoint)
      : Type 0 where
    pub named : kid_matches_key crypto key.thumbprint public_key cp.kid ≡ true
    pub counted : cp.count ≡ count
    pub closes : cp.last_entry_hash ≡ last
    pub bytes : Text
    pub canonical : canonicalize (checkpoint_json cp.content) ≡ some bytes
    pub signed : verify public_key bytes cp.sig ≡ true

  verify_checkpoint-IsClosing :
      (key : ResolvedKey) (count : ℕ) (last : Text) (cp : SignedCheckpoint)
      → verify_checkpoint crypto public_key key count last cp ≡ go tt
      → IsClosing key count last cp
  unfolding verify_checkpoint
  verify_checkpoint-IsClosing key count last cp h =
      elim (Option-cases (canonicalize (checkpoint_json cp.content))) [
        | inl unread ↦ ground (arith, h, unread)
        | inr (bytes, c) ↦ record {
          named = ground (arith, h);
          counted = ground (arith, h);
          closes = ground (arith, h, text_eq_iff cp.last_entry_hash last);
          bytes = bytes;
          canonical = c;
          signed = ground (arith, h, c);
        }
      ]

  -- The chain `r ∷ rs` with the checkpoint `cp`, as the result `v` describes it.
  pub record IsVouched (v : ValidChain) (r : SignedRecord) (rs : List SignedRecord)
      (cp : Option SignedCheckpoint) : Type 0 where
    pub thumbprint : rfc7638_thumbprint crypto public_key ≡ some v.key.thumbprint
    pub pinned :
        (length controls.expect_thumbprints ≡ 0)
        ⊎ (includes controls.expect_thumbprints v.key.thumbprint ≡ true)
    pub counted : v.count ≡ length (r ∷ rs)
    pub session : v.session_id ≡ r.session_id
    pub checkpointed : v.has_checkpoint ≡ is_some cp
    pub genesis : Text
    pub opened : genesis_prev_hash crypto r.session_id r.v ≡ some genesis
    pub last : Text
    pub linked : IsLinked crypto public_key v.key 0 genesis (r ∷ rs) last
    pub closed : (c : SignedCheckpoint) → cp ≡ some c → IsClosing v.key (length (r ∷ rs)) last c
    pub progress : Progress
    pub scanned :
        check_records crypto public_key v.key controls.max_skew_ms (start genesis) (r ∷ rs)
        ≡ go progress
    pub delivered : v.delivery ≡ progress.delivery

  verify_tail-IsClosing :
      (key : ResolvedKey) (count : ℕ) (last : Text) (cp : Option SignedCheckpoint)
      → verify_tail crypto public_key key count last cp ≡ go tt
      → (c : SignedCheckpoint) → cp ≡ some c
      → IsClosing key count last c
  unfolding verify_tail
  verify_tail-IsClosing key count last none h c e = cc
  verify_tail-IsClosing key count last (some cp) h c e =
      let same : cp ≡ c = ground (arith, e) in
      rw (← same) (verify_checkpoint-IsClosing key count last cp h)

  pinned_in :
      (thumbprint : Text)
      → pinned_out crypto public_key controls thumbprint ≡ false
      → (length controls.expect_thumbprints ≡ 0)
        ⊎ (includes controls.expect_thumbprints thumbprint ≡ true)
  unfolding pinned_out
  pinned_in thumbprint h = ground arith

  result :
      (thumbprint : Text) (r : SignedRecord) (rs : List SignedRecord) (cp : Option SignedCheckpoint)
      (p : Progress)
      → ValidChain
  result thumbprint r rs cp p = record {
    count = length (r ∷ rs);
    session_id = r.session_id;
    has_checkpoint = is_some cp;
    key = resolved_key crypto public_key controls thumbprint;
    delivery = p.delivery;
  }

  result-IsVouched :
      (thumbprint genesis : Text) (r : SignedRecord) (rs : List SignedRecord)
      → (cp : Option SignedCheckpoint) (p : Progress)
      → rfc7638_thumbprint crypto public_key ≡ some thumbprint
      → pinned_out crypto public_key controls thumbprint ≡ false
      → genesis_prev_hash crypto r.session_id r.v ≡ some genesis
      → let key = resolved_key crypto public_key controls thumbprint in
        check_records crypto public_key key controls.max_skew_ms (start genesis) (r ∷ rs) ≡ go p
        → verify_tail crypto public_key key (length (r ∷ rs)) p.last_entry_hash cp ≡ go tt
        → IsVouched (result thumbprint r rs cp p) r rs cp
  unfolding result resolved_key
  result-IsVouched thumbprint genesis r rs cp p t free g c tail =
      let key = resolved_key crypto public_key controls thumbprint in
      record {
        thumbprint = t;
        pinned = pinned_in thumbprint free;
        counted = refl;
        session = refl;
        checkpointed = refl;
        genesis = genesis;
        opened = g;
        last = p.last_entry_hash;
        linked =
            check_records-IsLinked crypto public_key key controls.max_skew_ms (r ∷ rs)
              (start genesis) p c;
        closed = verify_tail-IsClosing key (length (r ∷ rs)) p.last_entry_hash cp tail;
        progress = p;
        scanned = c;
        delivered = refl;
      }

  result_of-valid :
      (v : ValidChain) (step : Step ValidChain)
      → result_of crypto public_key step ≡ some (valid v)
      → step ≡ go v
  result_of-valid v throws h = cc
  result_of-valid v (stop f) h = cc
  result_of-valid v (go w) h = cc

  verify_records-IsVouched :
      (v : ValidChain) (r : SignedRecord) (rs : List SignedRecord) (cp : Option SignedCheckpoint)
      → verify_records crypto public_key controls r rs cp ≡ go v
      → IsVouched v r rs cp
  unfolding verify_records result
  verify_records-IsVouched v r rs cp h =
      elim (Option-cases (rfc7638_thumbprint crypto public_key)) [
        | inl t ↦ ground (arith, h, t)
        | inr (thumbprint, t) ↦ elim (Option-cases (genesis_prev_hash crypto r.session_id r.v)) [
          | inl g ↦ ground (arith, h, t, g)
          | inr (genesis, g) ↦
              let key = resolved_key crypto public_key controls thumbprint in
              elim (Step-cases (
                check_records crypto public_key key controls.max_skew_ms (start genesis)
                  (r ∷ rs))) [
                    | inl c ↦ ground (arith, h, t, g, c)
                    | inr (inl (f, c)) ↦ ground (arith, h, t, g, c)
                    | inr (inr (p, c)) ↦
                        let same : v ≡ result thumbprint r rs cp p = ground (arith, h, t, g, c) in
                        rw same (
                          result-IsVouched thumbprint genesis r rs cp p t (ground (arith, h, t)) g c
                            (ground (arith, h, t, g, c)))
                  ]
        ]
      ]

  verify_file-IsVouched :
      (v : ValidChain) (records : List SignedRecord) (cp : Option SignedCheckpoint)
      → verify_file crypto public_key controls records cp ≡ some (valid v)
      → (r : SignedRecord) × (rs : List SignedRecord) × (records ≡ r ∷ rs) × IsVouched v r rs cp
  unfolding verify_file
  verify_file-IsVouched v [] cp h = cc
  verify_file-IsVouched v (r ∷ rs) cp h = (
    r,
    rs,
    refl,
    verify_records-IsVouched v r rs cp
        (result_of-valid v (verify_records crypto public_key controls r rs cp) h),
  )

  of_file :
      (v : ValidChain) (lines : List ChainLine) (o : Option ChainFile)
      → chain_of_lines lines ≡ o
      → on_file crypto public_key controls o ≡ some (valid v)
      → (file : ChainFile) × (chain_of_lines lines ≡ some file)
        × (r : SignedRecord) × (rs : List SignedRecord) × (file.records ≡ r ∷ rs)
        × IsVouched v r rs file.checkpoint
  unfolding on_file
  of_file v lines none e h = cc
  of_file v lines (some file) e h =
      let (r, rs, same, vouched) = verify_file-IsVouched v file.records file.checkpoint h in
      (file, e, r, rs, same, vouched)

-- verifyChain says VALID only of a file that is a chain with a record in it, opened by the genesis
-- hash of its session, each record numbered, of a supported version, bound to the key, linked to
-- the one before, committed to its event and signed, the key pinned where keys are, and the
-- checkpoint, if there is one, signed over the count and the hash of the last record.
pub valid_chain-IsVouched :
    (crypto : Crypto) (public_key : Text) (controls : VerifyControls) (lines : List ChainLine)
    (v : ValidChain)
    → verify_chain crypto public_key controls lines ≡ some (valid v)
    → (file : ChainFile) × (chain_of_lines lines ≡ some file)
      × (r : SignedRecord) × (rs : List SignedRecord) × (file.records ≡ r ∷ rs)
      × IsVouched crypto public_key controls v r rs file.checkpoint
unfolding verify_chain
valid_chain-IsVouched crypto public_key controls lines v h =
    of_file crypto public_key controls v lines (chain_of_lines lines) refl h
