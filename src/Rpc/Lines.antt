-- ===== src/Rpc/Lines.antt =====
-- splitLines of src/rpc.ts, and what it gives a stream that comes in chunks.
pub mod Chunks
use chirindo.Prelude.{ℕ, ◌==◌, if◌then◌else◌, List, [], ◌∷◌, ◌++◌, map, Text}

pub record Split : Type 0 where
  pub lines : List Text
  pub rest : Text

-- A character before the first line.
unfoldable pub glue : ℕ → List Text → Text → Split
glue c [] rest = record { lines = []; rest = c ∷ rest }
glue c (l ∷ ls) rest = record { lines = (c ∷ l) ∷ ls; rest = rest }

-- combined.split("\n"): all parts but the last, and the last.
unfoldable pub split : Text → Split
unfolding glue
split [] = record { lines = []; rest = [] }
split (c ∷ t) =
    let after = split t in
    if c == 10
    then record { lines = [] ∷ after.lines; rest = after.rest }
    else glue c after.lines after.rest

-- l.replace(/\r$/, "")
unfoldable pub strip_cr : Text → Text
strip_cr [] = []
strip_cr (c ∷ []) = if c == 13 then [] else c ∷ []
strip_cr (c ∷ d ∷ t) = c ∷ strip_cr (d ∷ t)

unfoldable pub split_lines : Text → Text → Split
unfolding split strip_cr
split_lines buffer chunk =
    let parts = split (buffer ++ chunk) in
    record { lines = map strip_cr parts.lines; rest = parts.rest }

-- The lines of a stream read chunk by chunk, and the buffer left.
unfoldable pub split_stream : Text → List Text → Split
split_stream buffer [] = record { lines = []; rest = buffer }
split_stream buffer (chunk ∷ chunks) =
    let now = split_lines buffer chunk in
    let later = split_stream now.rest chunks in
    record { lines = now.lines ++ later.lines; rest = later.rest }
