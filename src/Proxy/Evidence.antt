-- ===== src/Proxy/Evidence.antt =====
-- The chain file that a run of src/proxy.ts leaves, before the verifier of
-- src/vendor/recorder/cli/verify.ts.
use chirindo.Prelude.{
  ℕ, suc, ◌+◌, ◌≤◌, ◌<◌, ◌≡◌, refl, sym, ◌∙◌, ap, true, false, Option, none, some, List, [], ◌∷◌,
  ◌++◌, map, Text, arith, length, All, All-map, Option-cases, inl, inr,
}
use chirindo.Record.{SignedRecord, record_version_v1}
use chirindo.Record.Hash.{genesis_prev_hash, rfc7638_thumbprint, kid_matches_key}
use chirindo.Record.File.{ChainLine, of_record}
use chirindo.Record.File.Laws.{map-append, chain_of_lines-records, as_file}
use chirindo.Receipt.{append_receipt}
use chirindo.Receipt.Laws.{append_receipt-IsReceipt}
use chirindo.Verify.{VerifyControls, ValidChain, valid}
use chirindo.Verify.Scan.{secure_jwks_uri, pinned_out, verify_chain}
use chirindo.Verify.History.{IsSender, IsBefore, Receipts, none_yet, one_more}
use chirindo.Verify.Written.{append-All}
use chirindo.Verify.Valid.{written_chain_is_valid}
use chirindo.Proxy.State.{
  Deps, ReceiptArgs, State, receipt_inputs, written_chain, on_written, write_receipt_safely,
}
use chirindo.Proxy.Run.{Event, initial, run}
use chirindo.Proxy.Actions.{
  Act, emitted, tried_receipt, loaded_policy, changed_pending, buffered_client, buffered_downstream,
  Acts, rest, then_act,
}
use chirindo.Proxy.Actions.Runs.{run-Acts}

-- What a proxy needs of the outside for its receipts to verify: a key that has a thumbprint, a kid
-- that names it, signatures that verify under it, an https jwks_uri or none, and a clock that never
-- goes back by more than the skew.
pub record IsHonest (deps : Deps) (skew : ℕ) (thumbprint genesis : Text) : Type 0 where
  pub keyed : rfc7638_thumbprint deps.crypto deps.identity.public_key ≡ some thumbprint
  pub opened : genesis_prev_hash deps.crypto deps.session_id record_version_v1 ≡ some genesis
  pub named :
      kid_matches_key deps.crypto thumbprint deps.identity.public_key deps.identity.kid ≡ true
  pub secure : secure_jwks_uri deps.crypto deps.identity.public_key deps.jwks_uri ≡ true
  pub signs :
      (m : Text)
      → deps.crypto.verify deps.identity.public_key m (deps.crypto.sign deps.identity.private_key m)
        ≡ true
  pub clock :
      (i j d e : ℕ)
      → i < j
      → deps.crypto.date_ms (deps.now i) ≡ some d
      → deps.crypto.date_ms (deps.now j) ≡ some e
      → d ≤ e + skew

length-map : {A B : Type 0} (f : A → B) (xs : List A) → length (map f xs) ≡ length xs
length-map f [] = refl
length-map f (x ∷ xs) = ap suc (length-map f xs)

module _ (deps : Deps) (skew : ℕ) (thumbprint genesis : Text)
    (honest : IsHonest deps skew thumbprint genesis) where
  -- A record that was written before the attempt numbered `n`.
  abbrev IsEarlier : ℕ → SignedRecord → Type 0
  IsEarlier n r = (i : ℕ) × (i < n) × (r.ts ≡ deps.now i)

  record IsHistory (s : State) : Type 0 where
    records : List SignedRecord
    lines : s.chain ≡ map of_record records
    written : Receipts deps.crypto deps.identity.public_key skew deps.session_id records
    earlier : All (IsEarlier s.attempts) records

  sender :
      (args : ReceiptArgs) (n : ℕ)
      → IsSender deps.crypto deps.identity.public_key skew deps.session_id
          (receipt_inputs deps args n)
  unfolding receipt_inputs
  sender args n = record {
    same_session = refl;
    same_key = refl;
    reads_file = refl;
    secure = honest.secure;
    named =
        λ t e. let same : t ≡ thumbprint = ground (arith, e, honest.keyed) in rw same honest.named;
    signs = honest.signs;
  }

  on_time :
      (args : ReceiptArgs) (n : ℕ) (rs : List SignedRecord)
      → All (IsEarlier n) rs
      → (now : ℕ) → deps.crypto.date_ms (receipt_inputs deps args n).ts ≡ some now
      → All (IsBefore deps.crypto deps.identity.public_key skew deps.session_id (now + skew)) rs
  unfolding receipt_inputs
  on_time args n rs all now e =
      All-map (λ r (i, before, ts) d h. honest.clock i n d now before (rw (← ts) h) e) rs all

  later : (n : ℕ) (r : SignedRecord) → IsEarlier n r → IsEarlier (suc n) r
  later n r (i, before, ts) = (i, omega (arith, before), ts)

  time-now :
      (args : ReceiptArgs) (n : ℕ) (r : SignedRecord)
      → r.ts ≡ (receipt_inputs deps args n).ts
      → r.ts ≡ deps.now n
  unfolding receipt_inputs
  time-now args n r h = h

  written_chain-receipt :
      (args : ReceiptArgs) (s : State) (chain : List ChainLine)
      → written_chain deps args s ≡ some chain
      → (r : SignedRecord) × (append_receipt deps.crypto
            (receipt_inputs deps args s.attempts)
            s.chain
          ≡ some r)
        × (chain ≡ s.chain ++ of_record r ∷ [])
  unfolding written_chain
  written_chain-receipt args s chain h =
      elim (Option-cases
        (append_receipt deps.crypto (receipt_inputs deps args s.attempts) s.chain)) [
          | inl failed ↦ ground (arith, h, failed)
          | inr (r, a) ↦ (r, a, ground (arith, h, a))
        ]

  -- One attempt to write a receipt, by whether it gives a new file.
  on_written-IsHistory :
      (args : ReceiptArgs) (s : State) (o : Option (List ChainLine))
      → written_chain deps args s ≡ o
      → IsHistory s
      → IsHistory (on_written deps o args s).1
  unfolding on_written
  on_written-IsHistory args s none e h = record {
    records = h.records;
    lines = h.lines;
    written = h.written;
    earlier = All-map (later s.attempts) h.records h.earlier;
  }
  on_written-IsHistory args s (some chain) e h =
      let (r, a, c) = written_chain-receipt args s chain e in
      let a' : append_receipt deps.crypto (receipt_inputs deps args s.attempts)
            (map of_record h.records)
          ≡ some r =
        rw (← h.lines) a in
      let receipt =
        append_receipt-IsReceipt deps.crypto (receipt_inputs deps args s.attempts)
          (map of_record h.records) (as_file h.records none) r (sender args s.attempts).reads_file
          (chain_of_lines-records h.records) a' in
      record {
        records = h.records ++ r ∷ [];
        lines = c ∙ rw (h.lines, map-append of_record h.records (r ∷ [])) refl;
        written =
            one_more h.records (receipt_inputs deps args s.attempts) r h.written
              (sender args s.attempts) (on_time args s.attempts h.records h.earlier) a';
        earlier =
            append-All (IsEarlier (suc s.attempts)) h.records r
              (All-map (later s.attempts) h.records h.earlier)
              (s.attempts, omega arith, time-now args s.attempts r receipt.time);
      }

  Act-IsHistory : (s t : State) → Act deps s t → IsHistory s → IsHistory t
  unfolding write_receipt_safely
  Act-IsHistory s _ (tried_receipt _ args) h =
      on_written-IsHistory args s (written_chain deps args s) refl h
  Act-IsHistory s _ (emitted _ e p) h = record {
    records = h.records;
    lines = h.lines;
    written = h.written;
    earlier = h.earlier;
  }
  Act-IsHistory s _ (loaded_policy _) h = record {
    records = h.records;
    lines = h.lines;
    written = h.written;
    earlier = h.earlier;
  }
  Act-IsHistory s _ (changed_pending _ p) h = record {
    records = h.records;
    lines = h.lines;
    written = h.written;
    earlier = h.earlier;
  }
  Act-IsHistory s _ (buffered_client _ t) h = record {
    records = h.records;
    lines = h.lines;
    written = h.written;
    earlier = h.earlier;
  }
  Act-IsHistory s _ (buffered_downstream _ t) h = record {
    records = h.records;
    lines = h.lines;
    written = h.written;
    earlier = h.earlier;
  }

  Acts-IsHistory : (s t : State) → Acts deps s t → IsHistory s → IsHistory t
  Acts-IsHistory s _ (rest _) h = h
  Acts-IsHistory s u (then_act _ t _ k a) h = Act-IsHistory t u a (Acts-IsHistory s t k h)

  initial-IsHistory : IsHistory (initial [])
  initial-IsHistory = record { records = []; lines = refl; written = none_yet; earlier = tt }

-- Over any run of an honest proxy that starts with no chain file, whatever the client and the
-- downstream server send, if a receipt was written then the chain file is VALID under the proxy's
-- key, pinned or with no key pinned, with as many entries as the file has lines.
pub run_leaves_valid_chain :
    (deps : Deps) (controls : VerifyControls) (thumbprint genesis : Text) (es : List Event)
    → IsHonest deps controls.max_skew_ms thumbprint genesis
    → pinned_out deps.crypto deps.identity.public_key controls thumbprint ≡ false
    → 1 ≤ length (run deps es (initial [])).chain
    → (v : ValidChain) × (verify_chain deps.crypto deps.identity.public_key controls
          (run deps es (initial [])).chain
        ≡ some (valid v))
      × (v.count ≡ length (run deps es (initial [])).chain)
      × (v.session_id ≡ deps.session_id)
run_leaves_valid_chain deps controls thumbprint genesis es honest free filled =
    let t = run deps es (initial []) in
    let h =
      Acts-IsHistory deps controls.max_skew_ms thumbprint genesis honest (initial []) t
        (run-Acts deps es (initial []))
        (initial-IsHistory deps controls.max_skew_ms thumbprint genesis honest) in
    let lengths : length t.chain ≡ length h.records = rw h.lines (length-map of_record h.records) in
    let (v, ok, count, session, closed) =
      written_chain_is_valid deps.crypto deps.identity.public_key controls deps.session_id
        thumbprint genesis h.records honest.keyed honest.opened free
        (omega (arith, filled, lengths)) h.written in
    (v, rw h.lines ok, count ∙ sym lengths, session)
