-- ===== src/Checkpoint/Head.antt =====
-- The two builders of a checkpoint in src/checkpoint.ts.
use chirindo.Prelude.{
  ◌≡◌, refl, sym, ap, ◌∙◌, true, leb, some, List, ◌∷◌, Text, arith, length, Option-cases, inl, inr,
}
use chirindo.Json.{max_safe_integer}
use chirindo.Crypto.{Crypto}
use chirindo.Record.{AgentInfo, SignedRecord, SignedCheckpoint, CheckpointContent}
use chirindo.Record.Canon.{checkpoint_json}
use chirindo.Receipt.{Identity, prev_hash_of}
use chirindo.Chain.{Chain, ChainOptions, from_records, checkpoint, checkpoint_content}
use chirindo.Chain.Links.{from_records-HoldsLink}
use chirindo.Checkpoint.{
  HeldHead, checkpoint_options, build_checkpoint, head_content, build_checkpoint_from_head,
}

module _ (crypto : Crypto) (agent : AgentInfo) (identity : Identity) where
  open crypto use {canonicalize, sign}

  abbrev pub head_after : SignedRecord → List SignedRecord → (hash : Text) → HeldHead
  head_after r rs hash = record {
    session_id = r.content.session_id;
    count = length (r ∷ rs);
    last_entry_hash = hash;
  }

  same_content :
      (r : SignedRecord) (rs : List SignedRecord) (ts : Text) (c : Chain)
      → c.records ≡ r ∷ rs
      → c.opts ≡ checkpoint_options crypto agent identity r.content.session_id
      → checkpoint_content crypto c ts
        ≡ head_content crypto agent identity (head_after r rs c.last_entry_hash) ts
  unfolding checkpoint_content head_content
  same_content r rs ts c records opts = rw (records, opts) refl

  checkpoint-eq-from_head :
      (r : SignedRecord) (rs : List SignedRecord) (ts : Text) (c : Chain)
      → leb (length (r ∷ rs)) max_safe_integer ≡ true
      → c.records ≡ r ∷ rs
      → c.opts ≡ checkpoint_options crypto agent identity r.content.session_id
      → checkpoint crypto c ts
        ≡ build_checkpoint_from_head crypto agent identity (head_after r rs c.last_entry_hash) ts
  unfolding checkpoint build_checkpoint_from_head checkpoint_content
  checkpoint-eq-from_head r rs ts c safe records opts = rw (records, opts, safe) refl

  checkpoint-content :
      (c : Chain) (ts : Text) (cp : SignedCheckpoint)
      → checkpoint crypto c ts ≡ some cp
      → checkpoint_content crypto c ts ≡ cp.content
  unfolding checkpoint
  checkpoint-content c ts cp h =
      elim (Option-cases (canonicalize (checkpoint_json (checkpoint_content crypto c ts)))) [
        | inl e ↦ ground (arith, h, e)
        | inr (canon, e) ↦ ground (arith, h, e)
      ]

-- A checkpoint that is built from the records of a chain, which are not more than a safe integer, names
-- their count and the hash that the record after them links to; the checkpoint that is built from the
-- head with that count and that hash at the same time is the same, its signature included.
pub build_checkpoint-eq-from_head :
    (crypto : Crypto) (agent : AgentInfo) (identity : Identity) (r : SignedRecord)
    (rs : List SignedRecord) (ts : Text) (cp : SignedCheckpoint)
    → leb (length (r ∷ rs)) max_safe_integer ≡ true
    → build_checkpoint crypto agent identity (r ∷ rs) ts ≡ some cp
    → (cp.content.count ≡ length (r ∷ rs))
      × (prev_hash_of crypto r.content.session_id (r ∷ rs) ≡ some cp.content.last_entry_hash)
      × (build_checkpoint_from_head crypto agent identity
            (head_after crypto agent identity r rs cp.content.last_entry_hash)
            ts
          ≡ some cp)
unfolding build_checkpoint checkpoint_content
build_checkpoint-eq-from_head crypto agent identity r rs ts cp safe h =
    let opts = checkpoint_options crypto agent identity r.content.session_id in
    elim (Option-cases (from_records crypto (r ∷ rs) opts)) [
      | inl e ↦ ground (arith, h, e)
      | inr (c, e) ↦
          let (held, records, given) = from_records-HoldsLink crypto (r ∷ rs) opts c e in
          let signed : checkpoint crypto c ts ≡ some cp = ground (arith, h, e) in
          let same = checkpoint-content crypto agent identity c ts cp signed in
          let hash : c.last_entry_hash ≡ cp.content.last_entry_hash =
            ap (λ (x : CheckpointContent). x.last_entry_hash) same in
          (
            sym (ap (λ (x : CheckpointContent). x.count) same) ∙ ap length records,
            sym (ap (λ l. prev_hash_of crypto r.content.session_id l) records)
                ∙ sym (ap (λ (o : ChainOptions). prev_hash_of crypto o.session_id c.records) given)
                ∙ held
                ∙ ap some hash,
            sym (
                  ap
                    (λ h.
                      build_checkpoint_from_head crypto agent identity
                        (head_after crypto agent identity r rs h) ts)
                    hash)
                ∙ sym (checkpoint-eq-from_head crypto agent identity r rs ts c safe records given)
                ∙ signed,
          )
    ]
