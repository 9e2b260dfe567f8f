-- ===== src/Verify/Pinned.antt =====
-- The last hash of a chain, which a signed checkpoint of src/vendor/recorder/chain.ts names, and its
-- records.
use chirindo.Prelude.{
  ℕ, suc, ◌≡◌, refl, sym, ◌∙◌, Option, some, List, [], ◌∷◌, map, Text, arith, length,
}
use chirindo.Crypto.{Crypto}
use chirindo.Record.{RecordContent, SignedRecord, SignedCheckpoint, ChainFile}
use chirindo.Record.Canon.{content_json}
use chirindo.Record.Hash.{entry_hash_of_canonical}
use chirindo.Record.File.{ChainLine, chain_of_lines}
use chirindo.Verify.{ResolvedKey, ValidChain, valid, VerifyControls}
use chirindo.Verify.Scan.{verify_chain}
use chirindo.Verify.Linked.{IsLinked}
use chirindo.Verify.Vouched.{valid_chain-IsVouched}

-- The canonical bytes of the records' contents.
pub record_bytes : Crypto → List SignedRecord → List (Option Text)
record_bytes crypto rs = map (λ r. crypto.canonicalize (content_json r.content)) rs

-- No two texts have one hash.
pub record IsCollisionFree (crypto : Crypto) : Type 0 where
  pub injective :
      (s t : Text) → entry_hash_of_canonical crypto s ≡ entry_hash_of_canonical crypto t → s ≡ t

-- Canonical bytes have the link in them: contents of the same bytes name the same previous entry.
pub record KeepsLink (crypto : Crypto) : Type 0 where
  pub keeps :
      (a b : RecordContent) (t : Text)
      → crypto.canonicalize (content_json a) ≡ some t
      → crypto.canonicalize (content_json b) ≡ some t
      → a.prev_hash ≡ b.prev_hash

module _ (crypto : Crypto) (free : IsCollisionFree crypto) (link : KeepsLink crypto) where
  -- Two chains of one length that end in one hash begin after one hash and have the same bytes.
  pub IsLinked-same :
      (pk pk' : Text) (key key' : ResolvedKey) (i j : ℕ) (prev prev' last : Text)
      (rs ss : List SignedRecord)
      → length rs ≡ length ss
      → IsLinked crypto pk key i prev rs last
      → IsLinked crypto pk' key' j prev' ss last
      → (prev ≡ prev') × (record_bytes crypto rs ≡ record_bytes crypto ss)
  unfolding record_bytes
  IsLinked-same pk pk' key key' i j prev prev' last [] [] l h h' = (h ∙ sym h', refl)
  IsLinked-same pk pk' key key' i j prev prev' last [] (s ∷ ss) l h h' = absurd (omega (arith, l))
  IsLinked-same pk pk' key key' i j prev prev' last (r ∷ rs) [] l h h' = absurd (omega (arith, l))
  IsLinked-same pk pk' key key' i j prev prev' last (r ∷ rs) (s ∷ ss) l (c, a, h) (c', a', h') =
      let (hash, rest) =
        IsLinked-same pk pk' key key' (suc i) (suc j) _ _ last rs ss (omega (arith, l)) h h' in
      let same : c ≡ c' = free.injective c c' hash in
      let before : r.prev_hash ≡ s.prev_hash =
        link.keeps r.content s.content c a.bytes (rw same a'.bytes) in
      (sym a.linked ∙ before ∙ a'.linked, rw (a.bytes, a'.bytes, same, rest) refl)

-- Two files that verifyChain calls VALID, under whatever keys, with checkpoints that name one count
-- and one last hash, have the same canonical bytes in every record, where the hash is free of
-- collisions and canonical bytes keep the link.
pub checkpoint_pins_records :
    (crypto : Crypto)
    → IsCollisionFree crypto
    → KeepsLink crypto
    → (pk pk' : Text) (controls controls' : VerifyControls) (lines lines' : List ChainLine)
      (v v' : ValidChain)
    → (file file' : ChainFile) (cp cp' : SignedCheckpoint)
    → verify_chain crypto pk controls lines ≡ some (valid v)
    → verify_chain crypto pk' controls' lines' ≡ some (valid v')
    → chain_of_lines lines ≡ some file
    → chain_of_lines lines' ≡ some file'
    → file.checkpoint ≡ some cp
    → file'.checkpoint ≡ some cp'
    → cp.count ≡ cp'.count
    → cp.last_entry_hash ≡ cp'.last_entry_hash
    → record_bytes crypto file.records ≡ record_bytes crypto file'.records
checkpoint_pins_records crypto free link pk pk' controls controls' lines lines' v v' file file' cp
      cp' ok ok' read read' c c' count last =
    let (f, e, r, rs, all, vouched) = valid_chain-IsVouched crypto pk controls lines v ok in
    let (f', e', r', rs', all', vouched') =
      valid_chain-IsVouched crypto pk' controls' lines' v' ok' in
    let same : f ≡ file = ground (arith, e, read) in
    let same' : f' ≡ file' = ground (arith, e', read') in
    let closing = vouched.closed cp (rw same c) in
    let closing' = vouched'.closed cp' (rw same' c') in
    let lengths : length (r ∷ rs) ≡ length (r' ∷ rs') =
      sym closing.counted ∙ count ∙ closing'.counted in
    let ends : vouched'.last ≡ vouched.last = sym closing'.closes ∙ sym last ∙ closing.closes in
    let linked' = vouched'.linked in
    let (opened, bytes) =
      IsLinked-same crypto free link pk pk' v.key v'.key 0 0 vouched.genesis vouched'.genesis
        vouched.last (r ∷ rs) (r' ∷ rs') lengths vouched.linked (rw (← ends) linked') in
    rw (← same, ← same', all, all') bytes
