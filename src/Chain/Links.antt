-- ===== src/Chain/Links.antt =====
-- The hash that a chain of src/vendor/recorder/chain.ts holds, and its checkpoints before the verifier.
use chirindo.Prelude.{
  ◌==◌, ◌≡◌, refl, sym, ◌∙◌, ap, true, Option, some, List, [], ◌∷◌, ◌++◌, Text, arith, length,
  text_eq_iff, Option-cases, inl, inr,
}
use chirindo.Crypto.{Crypto}
use chirindo.Record.{RecordEvent, SignedRecord, SignedCheckpoint, record_version}
use chirindo.Record.Canon.{content_json, checkpoint_json}
use chirindo.Record.Hash.{
  genesis_prev_hash, request_commitment, rfc7638_thumbprint, kid_matches_key,
}
use chirindo.Record.File.Laws.{append_assoc, append_nil}
use chirindo.Receipt.{prev_hash_of}
use chirindo.Verify.{ResolvedKey, go}
use chirindo.Verify.Scan.{verify_checkpoint}
use chirindo.Verify.History.{prev_hash_of-append}
use chirindo.Chain.{
  ChainOptions, Chain, new_chain, pushed, push_record, push_records, from_records, chain_content,
  append, checkpoint_content, checkpoint,
}

module _ (crypto : Crypto) where
  open crypto use {canonicalize, sign, verify}

  -- The chain holds the hash that the record after its last one has to link to.
  abbrev pub HoldsLink : Chain → Type 0
  HoldsLink c = prev_hash_of crypto c.opts.session_id c.records ≡ some c.last_entry_hash

  new_chain-HoldsLink :
      (opts : ChainOptions) (c : Chain)
      → new_chain crypto opts ≡ some c
      → HoldsLink c × (c.records ≡ []) × (c.opts ≡ opts)
  unfolding new_chain prev_hash_of
  new_chain-HoldsLink opts c h =
      elim (Option-cases (genesis_prev_hash crypto opts.session_id record_version)) [
        | inl g ↦ ground (arith, h, g)
        | inr (genesis, g) ↦
            elim (Option-cases (rfc7638_thumbprint crypto (crypto.public_of opts.private_key))) [
              | inl t ↦ ground (arith, h, g, t)
              | inr (thumbprint, t) ↦
                  let same : record {
                    opts = opts;
                    records = [];
                    last_entry_hash = genesis;
                    key_thumbprint = thumbprint;
                  }
                      ≡ c =
                    ground (arith, h, g, t) in
                  rw (← same) (g, refl, refl)
            ]
      ]

  pushed-HoldsLink :
      (c : Chain) (r : SignedRecord) (canon : Text)
      → canonicalize (content_json r.content) ≡ some canon
      → HoldsLink (pushed crypto c r canon)
  unfolding pushed
  pushed-HoldsLink c r canon e =
      prev_hash_of-append crypto [] 0 c.opts.session_id c.records r canon e

  push_record-HoldsLink :
      (r : SignedRecord) (c d : Chain)
      → push_record crypto r c ≡ some d
      → HoldsLink d × (d.records ≡ c.records ++ r ∷ []) × (d.opts ≡ c.opts)
  unfolding push_record pushed
  push_record-HoldsLink r c d h = elim (Option-cases (canonicalize (content_json r.content))) [
    | inl e ↦ ground (arith, h, e)
    | inr (canon, e) ↦
        let same : pushed crypto c r canon ≡ d = ground (arith, h, e) in
        rw (← same) (pushed-HoldsLink c r canon e, refl, refl)
  ]

  push_records-HoldsLink :
      (rs : List SignedRecord) (c d : Chain)
      → HoldsLink c
      → push_records crypto rs c ≡ some d
      → HoldsLink d × (d.records ≡ c.records ++ rs) × (d.opts ≡ c.opts)
  unfolding push_records
  push_records-HoldsLink [] c d k h =
      let same : c ≡ d = ground (arith, h) in rw (← same) (k, sym (append_nil c.records), refl)
  push_records-HoldsLink (r ∷ rs) c d k h = elim (Option-cases (push_record crypto r c)) [
    | inl e ↦ ground (arith, h, e)
    | inr (next, e) ↦
        let (held, records, opts) = push_record-HoldsLink r c next e in
        let (held', records', opts') =
          push_records-HoldsLink rs next d held (ground (arith, h, e)) in
        (
          held',
          records' ∙ ap (λ l. l ++ rs) records ∙ append_assoc c.records (r ∷ []) rs,
          opts' ∙ opts,
        )
  ]

  pub from_records-HoldsLink :
      (rs : List SignedRecord) (opts : ChainOptions) (c : Chain)
      → from_records crypto rs opts ≡ some c
      → HoldsLink c × (c.records ≡ rs) × (c.opts ≡ opts)
  unfolding from_records
  from_records-HoldsLink rs opts c h = elim (Option-cases (new_chain crypto opts)) [
    | inl e ↦ ground (arith, h, e)
    | inr (new, e) ↦
        let (held, none_yet, given) = new_chain-HoldsLink opts new e in
        let (held', records, kept) = push_records-HoldsLink rs new c held (ground (arith, h, e)) in
        (held', records ∙ ap (λ l. l ++ rs) none_yet, kept ∙ given)
  ]

  append-HoldsLink :
      (c d : Chain) (event : RecordEvent) (ts : Text) (ref : Option Text) (r : SignedRecord)
      → append crypto c event ts ref ≡ some (r, d)
      → HoldsLink d
        × (d.records ≡ c.records ++ r ∷ [])
        × (r.seq ≡ length c.records)
        × (r.prev_hash ≡ c.last_entry_hash)
        × (request_commitment crypto r.event ≡ some r.request_commitment)
  unfolding append pushed chain_content
  append-HoldsLink c d event ts ref r h = elim (Option-cases (request_commitment crypto event)) [
    | inl m ↦ ground (arith, h, m)
    | inr (commitment, m) ↦
        let content = chain_content crypto c event commitment ts ref in
        elim (Option-cases (canonicalize (content_json content))) [
          | inl e ↦ ground (arith, h, m, e)
          | inr (canon, e) ↦
              let made : SignedRecord = record {
                content = content;
                sig = sign c.opts.private_key canon;
              } in
              let same : made ≡ r = ground (arith, h, m, e) in
              let next : pushed crypto c made canon ≡ d = ground (arith, h, m, e) in
              rw (← same, ← next) (pushed-HoldsLink c made canon e, refl, refl, refl, m)
        ]
  ]

-- A chain that is resumed from records, whatever they are, and then appended to gives a record that
-- is numbered by them, links to the last of them, or to the genesis of the session, and commits to
-- its event; the chain then has that record after them and holds the hash the next one links to.
pub resumed_chain_links :
    (crypto : Crypto) (rs : List SignedRecord) (opts : ChainOptions) (c d : Chain)
    (event : RecordEvent)
    → (ts : Text) (ref : Option Text) (r : SignedRecord) → from_records crypto rs opts ≡ some c
    → append crypto c event ts ref ≡ some (r, d)
    → (prev_hash_of crypto opts.session_id rs ≡ some r.prev_hash)
      × (r.seq ≡ length rs)
      × (request_commitment crypto r.event ≡ some r.request_commitment)
      × (d.records ≡ rs ++ r ∷ [])
      × HoldsLink crypto d
resumed_chain_links crypto rs opts c d event ts ref r resumed appended =
    let (held, records, kept) = from_records-HoldsLink crypto rs opts c resumed in
    let (held', grown, seq, prev, committed) =
      append-HoldsLink crypto c d event ts ref r appended in
    (
      ap (λ o. prev_hash_of crypto o.session_id rs) (sym kept)
          ∙ ap (prev_hash_of crypto c.opts.session_id) (sym records)
          ∙ held
          ∙ ap some (sym prev),
      seq ∙ ap length records,
      committed,
      grown ∙ ap (λ l. l ++ r ∷ []) records,
      held',
    )

closes :
    (crypto : Crypto) (c : Chain) (cp : SignedCheckpoint) (public_key : Text) (key : ResolvedKey)
    (canon : Text)
    → kid_matches_key crypto key.thumbprint public_key cp.kid ≡ true
    → cp.count ≡ length c.records
    → cp.last_entry_hash ≡ c.last_entry_hash
    → crypto.canonicalize (checkpoint_json cp.content) ≡ some canon
    → crypto.verify public_key canon cp.sig ≡ true
    → verify_checkpoint crypto public_key key (length c.records) c.last_entry_hash cp ≡ go tt
unfolding verify_checkpoint
closes crypto c cp public_key key canon named count last e signed =
    let counted : (cp.count == length c.records) ≡ true = ground (arith, count) in
    let linked = (text_eq_iff cp.last_entry_hash c.last_entry_hash).1 last in
    rw (named, counted, linked, e, signed) refl

-- The verifier takes each checkpoint of a chain against the number of its records and the hash it
-- holds, under a key that the kid names and that verifies what the chain's key signs.
pub checkpoint_is_taken :
    (crypto : Crypto) (c : Chain) (ts : Text) (cp : SignedCheckpoint) (public_key : Text)
    (key : ResolvedKey)
    → kid_matches_key crypto key.thumbprint public_key c.opts.kid ≡ true
    → ((m : Text) → crypto.verify public_key m (crypto.sign c.opts.private_key m) ≡ true)
    → checkpoint crypto c ts ≡ some cp
    → verify_checkpoint crypto public_key key (length c.records) c.last_entry_hash cp ≡ go tt
unfolding checkpoint checkpoint_content
checkpoint_is_taken crypto c ts cp public_key key named signs h =
    let content = checkpoint_content crypto c ts in
    elim (Option-cases (crypto.canonicalize (checkpoint_json content))) [
      | inl e ↦ ground (arith, h, e)
      | inr (canon, e) ↦
          let made : SignedCheckpoint = record {
            content = content;
            sig = crypto.sign c.opts.private_key canon;
          } in
          let same : made ≡ cp = ground (arith, h, e) in
          rw (← same) (closes crypto c made public_key key canon named refl refl e (signs canon))
    ]
