-- ===== src/Record/File/Laws.antt =====
-- Reading and writing chain files, src/vendor/recorder/io.ts, one after the other.
use chirindo.Prelude.{
  ◌≡◌, refl, sym, ◌∙◌, ap, Option, none, some, List, [], ◌∷◌, ◌++◌, map, arith, ◌↔◌,
}
use chirindo.Record.{SignedRecord, SignedCheckpoint, ChainFile}
use chirindo.Record.File.{
  ChainLine, of_record, of_checkpoint, parse_lines, chain_of_lines, checkpoint_lines,
  lines_of_chain,
}

pub append_nil : {A : Type 0} (xs : List A) → xs ++ [] ≡ xs
append_nil [] = refl
append_nil (x ∷ xs) = ap (λ ys. x ∷ ys) (append_nil xs)

pub append_assoc : {A : Type 0} (xs ys zs : List A) → (xs ++ ys) ++ zs ≡ xs ++ (ys ++ zs)
append_assoc [] ys zs = refl
append_assoc (x ∷ xs) ys zs = ap (λ ts. x ∷ ts) (append_assoc xs ys zs)

pub map-append :
    {A B : Type 0} (f : A → B) (xs ys : List A) → map f (xs ++ ys) ≡ map f xs ++ map f ys
map-append f [] ys = refl
map-append f (x ∷ xs) ys = ap (λ ts. f x ∷ ts) (map-append f xs ys)

abbrev pub as_file : List SignedRecord → Option SignedCheckpoint → ChainFile
as_file rs cp = record { records = rs; checkpoint = cp }

pub parse_lines-records :
    (acc rs : List SignedRecord) (cp : Option SignedCheckpoint)
    → parse_lines acc none (map of_record rs ++ checkpoint_lines cp) ≡ some (as_file (acc ++ rs) cp)
unfolding parse_lines checkpoint_lines
parse_lines-records acc [] none = rw (append_nil acc) refl
parse_lines-records acc [] (some c) = rw (append_nil acc) refl
parse_lines-records acc (r ∷ rs) cp =
    parse_lines-records (acc ++ r ∷ []) rs cp
    ∙ ap (λ l. some (as_file l cp)) (append_assoc acc (r ∷ []) rs)

pub chain_of_lines-records :
    (rs : List SignedRecord) → chain_of_lines (map of_record rs) ≡ some (as_file rs none)
unfolding chain_of_lines checkpoint_lines
chain_of_lines-records rs =
    ap (parse_lines [] none) (sym (append_nil (map of_record rs))) ∙ parse_lines-records [] rs none

parse_lines-closed :
    (acc : List SignedRecord) (c : SignedCheckpoint) (lines : List ChainLine) (file : ChainFile)
    → parse_lines acc (some c) lines ≡ some file
    → (lines ≡ []) × (as_file acc (some c) ≡ file)
unfolding parse_lines
parse_lines-closed acc c [] file h = (refl, ground arith)
parse_lines-closed acc c (l ∷ ls) file h = cc

lines_of_chain-parse_lines :
    (acc : List SignedRecord) (lines : List ChainLine) (file : ChainFile)
    → parse_lines acc none lines ≡ some file
    → lines_of_chain file ≡ map of_record acc ++ lines
unfolding parse_lines lines_of_chain checkpoint_lines
lines_of_chain-parse_lines acc [] file h =
    let same : as_file acc none ≡ file = ground arith in rw (← same) refl
lines_of_chain-parse_lines acc (of_record r ∷ ls) file h =
    lines_of_chain-parse_lines (acc ++ r ∷ []) ls file h
    ∙ ap (λ l. l ++ ls) (map-append of_record acc (r ∷ []))
    ∙ append_assoc (map of_record acc) (of_record r ∷ []) ls
lines_of_chain-parse_lines acc (of_checkpoint c ∷ ls) file h =
    let (closed, same) = parse_lines-closed acc c ls file h in rw (← same, closed) refl

-- A file read is the file written: the lines of a chain with or without a checkpoint parse to that
-- chain, and lines that parse are the lines of the chain they parse to.
pub chain_of_lines_iff :
    (lines : List ChainLine) (file : ChainFile)
    → (chain_of_lines lines ≡ some file) ↔ (lines_of_chain file ≡ lines)
unfolding chain_of_lines lines_of_chain
chain_of_lines_iff lines file = (
  λ h. lines_of_chain-parse_lines [] lines file h,
  λ h. rw (← h) (parse_lines-records [] file.records file.checkpoint),
)
