-- ===== src/Record/Lines/Laws.antt =====
-- The text of a chain file written by src/vendor/recorder/io.ts, and what is read from it.
use chirindo.Prelude.{◌==◌, ◌≡◌, true, false, not, none, some, List, [], ◌∷◌, ◌++◌, Text, all}
use chirindo.Json.{Json}
use chirindo.Strict.{validate}
use chirindo.Record.File.{ChainLine, of_record, of_checkpoint}
use chirindo.Record.Lines.{Forms, line_json, line_text}

-- The lines of a text, each with its line feed.
unfoldable pub ended : List Text → Text
ended [] = []
ended (l ∷ ls) = l ++ b'\n' ∷ ended ls

module _ (forms : Forms) where
  open forms use {js, as_record, as_checkpoint}

  -- Braces are no white space.
  pub record KeepsBraces : Type 0 where
    pub open_brace : js.trimmed b'{' ≡ false
    pub close_brace : js.trimmed b'}' ≡ false

  abbrev pub Recast : ChainLine → Type 0
  Recast (of_record r) = as_record (line_json (of_record r)) ≡ r
  Recast (of_checkpoint c) = as_checkpoint (line_json (of_checkpoint c)) ≡ c

  -- The text that JSON.stringify writes for a line is one line in braces, which JSON.parse reads back,
  -- with safe integers and no member twice.
  pub record IsWritable (l : ChainLine) : Type 0 where
    pub one_line : all (λ c. not (c == 10)) (line_text forms l) ≡ true
    pub body : Text
    pub braces : line_text forms l ≡ b'{' ∷ body ++ b'}' ∷ []
    pub strict : validate (line_text forms l) true true ≡ none
    pub read_back : js.parse (line_text forms l) ≡ some (line_json l)
    pub recast : Recast l
