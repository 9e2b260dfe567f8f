-- ===== src/Purchase/Gate/Served.antt =====
-- The answer of check in src/purchase/check.ts where nothing outside fails.
use chirindo.Prelude.{
  suc, ◌+◌, ◌≢◌, ◌++◌, List, ◌∷◌, ◌≡◌, refl, true, false, ◌||◌, Option, none, some, [], Text, arith,
}
use chirindo.Json.{Json, obj}
use chirindo.Record.{SignedRecord}
use chirindo.Record.Canon.{content_json}
use chirindo.Record.Hash.{args_hash, entry_hash_of_canonical}
use chirindo.Receipt.{append_receipt, allow, deny}
use chirindo.Receipt.Laws.{append_receipt-bytes}
use chirindo.Purchase.Gate.Bounds.{get-set, get-count_use}
use chirindo.Purchase.Jcs.{jcs_sha256}
use chirindo.Purchase.Limits.{Reason, Prepared, Judgement, judge_limits}
use chirindo.Purchase.Judge.{Read, prepared, check_options, judge_input}
use chirindo.Purchase.Open.{CheckResult, Setup, Outside, Gate, args_of, map_get, or_zero}
use chirindo.Purchase.Write.{
  count_if, keep_if, quote, key_of, inputs_of, append_entry, recorded, answered, on_append, on_file,
  on_args, write,
}
use chirindo.Purchase.Gate.{
  decision_of, decided_by, judge_and_write, on_prior, on_input, regresses, run_at, run, caught,
  check,
}

module _ (setup : Setup) where
  open setup use {crypto, js, dates, classes, node, identity}

  -- The clock gives a time, and the files can be written.
  pub record IsWell (outside : Outside) (at : Text) : Type 0 where
    pub clock : outside.now ≡ some at
    pub args : outside.args_written ≡ true
    pub file : outside.file_ready ≡ true
    pub append : outside.appended ≡ true

  -- The check is open, its chain whole, and the time one that it takes.
  pub record IsOpen (g : Gate) (at : Text) : Type 0 where
    pub running : g.closed ≡ false
    pub not_closing : g.closing ≡ false
    pub unbroken : g.chain_broken ≡ false
    pub options : check_options dates identity.kid at ≡ true
    pub forward : regresses setup g.last_ts_ms (dates.parse at) ≡ false

  -- The answer `r` and the state `h` after the check that judged `p` by `j` in the state `g`, and
  -- appended `entry`.
  pub record IsServed (g h : Gate) (r : CheckResult) (p : Prepared) (j : Judgement) (at sha : Text)
      (entry : SignedRecord) : Type 0 where
    pub allows : j.reasons ≡ [] → r.decision ≡ allow
    pub denies : j.reasons ≢ [] → r.decision ≡ deny
    pub reasons : r.reasons ≡ j.reasons
    pub exceeded : r.exceeded ≡ j.exceeded
    pub rows : r.card_limits ≡ j.card_limits
    pub instruction : r.instruction_sha256 ≡ some p.digest
    pub time : r.at ≡ some at
    pub first_time : r.repeat ≡ false
    pub bytes : Text
    pub canonical : crypto.canonicalize (content_json entry.content) ≡ some bytes
    pub receipt : r.receipt ≡ some (g.head.seq, entry_hash_of_canonical crypto bytes)
    pub chain : h.chain ≡ g.chain ++ entry ∷ []
    pub seq : h.head.seq ≡ suc g.head.seq
    pub prev_hash : h.head.prev_hash ≡ entry_hash_of_canonical crypto bytes
    pub counted :
        j.reasons ≡ [] → map_get p.digest h.uses ≡ some (or_zero (map_get p.digest g.uses) + 1)
    pub stands :
        j.reasons ≡ []
        → map_get (key_of setup p.digest p.order) h.allowed
          ≡ some (record {
            order_sha256 = sha;
            seq = g.head.seq;
            entry_hash = entry_hash_of_canonical crypto bytes;
            at = at;
          })
    pub not_counted : j.reasons ≢ [] → (h.uses ≡ g.uses) × (h.allowed ≡ g.allowed)

  write-answered :
      (outside : Outside) (g : Gate) (p : Prepared) (j : Judgement) (at canon sha bytes : Text)
      (entry : SignedRecord)
      → IsWell outside at
      → g.chain_broken ≡ false
      → crypto.canonicalize (args_of (decided_by setup p at j)) ≡ some canon
      → jcs_sha256 js (quote setup) crypto (obj p.order) ≡ some sha
      → append_receipt crypto (inputs_of setup g (decided_by setup p at j) sha) [] ≡ some entry
      → crypto.canonicalize (content_json entry.content) ≡ some bytes
      → write setup outside g (decided_by setup p at j)
        ≡ some (
          answered setup g (decided_by setup p at j) (entry_hash_of_canonical crypto bytes),
          recorded setup g
              (decided_by setup p at j)
              sha
              entry
              (entry_hash_of_canonical crypto bytes),
        )
  unfolding args_hash write on_args on_file on_append append_entry
  write-answered outside g p j at canon sha bytes entry well unbroken c s e b =
      let file : (g.chain_created || outside.file_ready) ≡ true = ground (arith, well.file) in
      rw (unbroken, well.args, c, s, file, well.append, e, b) refl

  allow_of : (rs : List Reason) → rs ≡ [] → decision_of setup rs ≡ allow
  allow_of [] e = refl
  allow_of (r ∷ rs) e = cc

  deny_of : (rs : List Reason) → rs ≢ [] → decision_of setup rs ≡ deny
  deny_of [] e = absurd (e refl)
  deny_of (r ∷ rs) e = refl

  recorded-IsServed :
      (g : Gate) (p : Prepared) (j : Judgement) (at sha bytes : Text) (entry : SignedRecord)
      → crypto.canonicalize (content_json entry.content) ≡ some bytes
      → let d = decided_by setup p at j in
        let hash = entry_hash_of_canonical crypto bytes in
        IsServed g (recorded setup g d sha entry hash) (answered setup g d hash) p j at sha entry
  unfolding recorded answered count_if keep_if
  recorded-IsServed g p j at sha bytes entry b = record {
    allows = λ e. allow_of j.reasons e;
    denies = λ e. deny_of j.reasons e;
    reasons = refl;
    exceeded = refl;
    rows = refl;
    instruction = refl;
    time = refl;
    first_time = refl;
    bytes = bytes;
    canonical = b;
    receipt = refl;
    chain = refl;
    seq = refl;
    prev_hash = refl;
    counted = λ e. rw (allow_of j.reasons e) (get-count_use p.digest g.uses);
    stands = λ e. rw (allow_of j.reasons e) (get-set (key_of setup p.digest p.order) _ g.allowed);
    not_counted = λ e. rw (deny_of j.reasons e) (refl, refl);
  }

-- Where the check is open, nothing outside fails, and the canonicalizer takes what is to be recorded: a
-- prepared purchase at a key that no earlier allow stands for gets its judgement as the answer, an
-- allow where the judgement has no reason and a deny otherwise. The answer names the record that is
-- then the chain's last, and the head follows it; an allow is counted as a use of the instruction and
-- stands at its key, and a deny leaves both maps as they were.
pub check-answered :
    (setup : Setup) (outside : Outside) (g : Gate) (read : Read) (order : Option Json)
    (p : Prepared) (j : Judgement) (at canon sha : Text) (entry : SignedRecord)
    → IsWell setup outside at
    → IsOpen setup g at
    → judge_input setup.js setup.dates setup.classes
        (quote setup)
        setup.crypto
        setup.node
        read
        order
      ≡ some (prepared p)
    → map_get (key_of setup p.digest p.order) g.allowed ≡ none
    → judge_limits p setup.identity.kid at (or_zero (map_get p.digest g.uses)) ≡ some j
    → setup.crypto.canonicalize (args_of (decided_by setup p at j)) ≡ some canon
    → jcs_sha256 setup.js (quote setup) setup.crypto (obj p.order) ≡ some sha
    → append_receipt setup.crypto (inputs_of setup g (decided_by setup p at j) sha) [] ≡ some entry
    → let (r, h) = check setup outside g read order in IsServed setup g h r p j at sha entry
unfolding check caught run run_at on_input on_prior judge_and_write
check-answered setup outside g read order p j at canon sha entry well opened given fresh judged c s
      e =
    let (bytes, b) =
      append_receipt-bytes setup.crypto (inputs_of setup g (decided_by setup p at j) sha) [] entry
        e in
    let written =
      write-answered setup outside g p j at canon sha bytes entry well opened.unbroken c s e b in
    let shut : (g.closed || g.closing) ≡ false =
      ground (arith, opened.running, opened.not_closing) in
    rw (shut, well.clock, opened.options, opened.forward, given, fresh, judged, written)
      (recorded-IsServed setup g p j at sha bytes entry b)
