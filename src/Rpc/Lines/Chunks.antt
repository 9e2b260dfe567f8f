-- ===== src/Rpc/Lines/Chunks.antt =====
-- Streams that src/proxy.ts reads by splitLines of src/rpc.ts, cut into chunks.
use chirindo.Prelude.{ℕ, ◌==◌, ◌≡◌, refl, false, List, [], ◌∷◌, ◌++◌, Text, Bool-cases, inl, inr}
use chirindo.Record.File.Laws.{append_nil, append_assoc, map-append}
use chirindo.Rpc.Lines.{Split, glue, split, strip_cr, split_lines, split_stream}

pub concat : List Text → Text
concat [] = []
concat (t ∷ ts) = t ++ concat ts

abbrev both : List Text → Split → Split
both ls s = record { lines = ls ++ s.lines; rest = s.rest }

glue-both :
    (c : ℕ) (ls : List Text) (rest t : Text)
    → (c == 10) ≡ false
    → let after = split (rest ++ t) in
      glue c (ls ++ after.lines) after.rest
      ≡ both (glue c ls rest).lines (split ((glue c ls rest).rest ++ t))
unfolding glue split
glue-both c [] rest t h = rw h refl
glue-both c (l ∷ ls) rest t h = refl

-- The lines before the last newline of `s` do not depend on what comes after it.
split-append : (s t : Text) → split (s ++ t) ≡ both (split s).lines (split ((split s).rest ++ t))
unfolding split
split-append [] t = refl
split-append (c ∷ s) t = elim (Bool-cases (c == 10)) [
  | inl newline ↦ rw (newline, split-append s t) refl
  | inr other ↦ rw (other, split-append s t) (glue-both c (split s).lines (split s).rest t other)
]

-- The rest that a split leaves has no newline.
glue-rest :
    (c : ℕ) (ls : List Text) (rest : Text)
    → (c == 10) ≡ false
    → split rest ≡ record { lines = []; rest = rest }
    → split (glue c ls rest).rest ≡ record { lines = []; rest = (glue c ls rest).rest }
unfolding glue split
glue-rest c [] rest h e = rw (h, e) refl
glue-rest c (l ∷ ls) rest h e = e

split-rest : (s : Text) → split (split s).rest ≡ record { lines = []; rest = (split s).rest }
unfolding split
split-rest [] = refl
split-rest (c ∷ s) = elim (Bool-cases (c == 10)) [
  | inl newline ↦ rw newline (split-rest s)
  | inr other ↦ rw other (glue-rest c (split s).lines (split s).rest other (split-rest s))
]

-- Whatever chunks a stream comes in, the lines that splitLines gives one after the other and the
-- buffer it leaves are those of the whole stream in one chunk, where the first buffer has no newline.
pub split_stream-concat :
    (buffer : Text) (chunks : List Text)
    → split buffer ≡ record { lines = []; rest = buffer }
    → split_stream buffer chunks ≡ split_lines buffer (concat chunks)
unfolding split_stream split_lines concat
split_stream-concat buffer [] h = rw (append_nil buffer, h) refl
split_stream-concat buffer (chunk ∷ chunks) h =
    let now = split (buffer ++ chunk) in
    let later = split (now.rest ++ concat chunks) in
    rw
      (
        ← append_assoc buffer chunk (concat chunks),
        split-append (buffer ++ chunk) (concat chunks),
        split_stream-concat now.rest chunks (split-rest (buffer ++ chunk)),
        map-append strip_cr now.lines later.lines,
      )
      refl
