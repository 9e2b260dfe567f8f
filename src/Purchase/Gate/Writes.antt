-- ===== src/Purchase/Gate/Writes.antt =====
-- The two ends of write in src/purchase/check.ts.
use chirindo.Prelude.{
  ◌≡◌, ◌⊎◌, refl, sym, true, false, ◌&&◌, ◌||◌, Option, none, some, Text, arith, is_some,
  Bool-cases, Option-cases, inl, inr,
}
use chirindo.Json.{obj}
use chirindo.Record.{SignedRecord}
use chirindo.Record.Canon.{content_json}
use chirindo.Record.Hash.{args_hash, entry_hash_of_canonical}
use chirindo.Purchase.Jcs.{jcs_sha256}
use chirindo.Purchase.Open.{Setup, Outside, Gate, CheckResult, Decided, not_recorded, args_of}
use chirindo.Purchase.Write.{
  quote, append_entry, recorded, answered, on_append, on_file, on_args, write,
}

-- The state of which nothing is changed that an answer depends on.
pub record IsKept (g h : Gate) : Type 0 where
  pub head : h.head ≡ g.head
  pub chain : h.chain ≡ g.chain
  pub last : h.last_ts_ms ≡ g.last_ts_ms
  pub uses : h.uses ≡ g.uses
  pub allowed : h.allowed ≡ g.allowed
  pub broken : g.chain_broken ≡ true → h.chain_broken ≡ true

pub IsKept-self : (g : Gate) → IsKept g g
IsKept-self g = record {
  head = refl;
  chain = refl;
  last = refl;
  uses = refl;
  allowed = refl;
  broken = λ h. h;
}

module _ (setup : Setup) where
  open setup use {crypto, js}

  -- The decision is in no record, and the answer says so.
  abbrev pub IsLost : Gate → Decided → CheckResult → Gate → Type 0
  IsLost g d r h = (r ≡ not_recorded d) × IsKept g h

  -- The decision is in the record that the chain now ends in, and the answer names it.
  pub record IsWritten (outside : Outside) (g : Gate) (d : Decided) (r : CheckResult) (h : Gate)
      : Type 0 where
    pub unbroken : g.chain_broken ≡ false
    pub order_sha256 : Text
    pub hashed : jcs_sha256 js (quote setup) crypto (obj d.order) ≡ some order_sha256
    pub entry : SignedRecord
    pub made : append_entry setup outside g d order_sha256 ≡ some entry
    pub bytes : Text
    pub canonical : crypto.canonicalize (content_json entry.content) ≡ some bytes
    pub answer : r ≡ answered setup g d (entry_hash_of_canonical crypto bytes)
    pub state : h ≡ recorded setup g d order_sha256 entry (entry_hash_of_canonical crypto bytes)

  abbrev pub Ends : Outside → Gate → Decided → CheckResult → Gate → Type 0
  Ends outside g d r h = IsLost g d r h ⊎ IsWritten outside g d r h

  abbrev returns : CheckResult → Gate → Option (CheckResult × Gate)
  returns r h = some (r, h)

  parts : (a r : CheckResult) (k h : Gate) → returns a k ≡ returns r h → (a ≡ r) × (k ≡ h)
  parts a r k h e = (cc, cc)

  lost :
      (outside : Outside) (g : Gate) (d : Decided) (r : CheckResult) (h k : Gate)
      → IsKept g k
      → returns (not_recorded d) k ≡ returns r h
      → Ends outside g d r h
  lost outside g d r h k kept e =
      let (answer, state) = parts (not_recorded d) r k h e in inl (sym answer, rw (← state) kept)

  on_append-Ends :
      (outside : Outside) (g : Gate) (d : Decided) (sha : Text) (o : Option SignedRecord)
      (r : CheckResult) (h : Gate)
      → g.chain_broken ≡ false
      → jcs_sha256 js (quote setup) crypto (obj d.order) ≡ some sha
      → append_entry setup outside g d sha ≡ o
      → on_append setup outside g d sha o ≡ returns r h
      → Ends outside g d r h
  unfolding on_append
  on_append-Ends outside g d sha none r h unbroken hashed made e =
      elim (Bool-cases outside.cut_back) [
        | inl c ↦
            lost outside g d r h (record g { chain_created = true })
              (record {
                head = refl;
                chain = refl;
                last = refl;
                uses = refl;
                allowed = refl;
                broken = λ b. b;
              })
              (ground (arith, e, c))
        | inr c ↦
            lost outside g d r h
              (record g { chain_created = true; torn = true; chain_broken = true })
              (record {
                head = refl;
                chain = refl;
                last = refl;
                uses = refl;
                allowed = refl;
                broken = λ b. refl;
              })
              (ground (arith, e, c))
      ]
  on_append-Ends outside g d sha (some entry) r h unbroken hashed made e =
      elim (Option-cases (crypto.canonicalize (content_json entry.content))) [
        | inl c ↦ ground (arith, e, c)
        | inr (bytes, c) ↦
            let hash = entry_hash_of_canonical crypto bytes in
            let (answer, state) =
              parts (answered setup g d hash) r (recorded setup g d sha entry hash) h
                (ground (arith, e, c)) in
            inr (record {
              unbroken = unbroken;
              order_sha256 = sha;
              hashed = hashed;
              entry = entry;
              made = made;
              bytes = bytes;
              canonical = c;
              answer = sym answer;
              state = sym state;
            })
      ]

  on_file-Ends :
      (outside : Outside) (g : Gate) (d : Decided) (sha : Text) (r : CheckResult) (h : Gate)
      → g.chain_broken ≡ false
      → jcs_sha256 js (quote setup) crypto (obj d.order) ≡ some sha
      → on_file setup outside g d sha ≡ returns r h
      → Ends outside g d r h
  unfolding on_file
  on_file-Ends outside g d sha r h unbroken hashed e =
      elim (Bool-cases (g.chain_created || outside.file_ready)) [
        | inl c ↦
            on_append-Ends outside g d sha (append_entry setup outside g d sha) r h unbroken hashed
              refl (rw (← e, c) refl)
        | inr c ↦ lost outside g d r h g (IsKept-self g) (rw (← e, c) refl)
      ]

  on_args-Ends :
      (outside : Outside) (g : Gate) (d : Decided) (r : CheckResult) (h : Gate)
      → g.chain_broken ≡ false
      → on_args setup outside g d ≡ returns r h
      → Ends outside g d r h
  unfolding on_args
  on_args-Ends outside g d r h unbroken e =
      elim (Bool-cases (outside.args_written && is_some (crypto.canonicalize (args_of d)))) [
        | inr c ↦ lost outside g d r h g (IsKept-self g) (rw (← e, c) refl)
        | inl c ↦ elim (Option-cases (jcs_sha256 js (quote setup) crypto (obj d.order))) [
          | inl n ↦ ground (arith, e, c, n)
          | inr (sha, n) ↦ on_file-Ends outside g d sha r h unbroken n (rw (← e, c, n) refl)
        ]
      ]

  pub write-Ends :
      (outside : Outside) (g : Gate) (d : Decided) (r : CheckResult) (h : Gate)
      → write setup outside g d ≡ returns r h
      → Ends outside g d r h
  unfolding write
  write-Ends outside g d r h e = elim (Bool-cases g.chain_broken) [
    | inl b ↦ lost outside g d r h g (IsKept-self g) (rw (← e, b) refl)
    | inr b ↦ elim (Option-cases (args_hash crypto (args_of d))) [
      | inl n ↦ ground (arith, e, b, n)
      | inr (ah, n) ↦ on_args-Ends outside g d r h b (rw (← e, b, n) refl)
    ]
  ]
