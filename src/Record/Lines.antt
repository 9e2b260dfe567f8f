-- ===== src/Record/Lines.antt =====
-- Chain files as texts, src/vendor/recorder/io.ts. `none` is a ChainParseError.
pub mod Laws
use chirindo.Prelude.{
  ◌&&◌, Bool, true, false, if◌then◌else◌, Option, none, some, List, [], ◌∷◌, ◌++◌, map, Text, codes,
  text_eq,
}
use chirindo.Json.{Json, str, arr, obj, Members, end, member, get}
use chirindo.Js.{Js}
use chirindo.Strict.{StrictResult, value, strict_json_parse}
use chirindo.Record.{SignedRecord, SignedCheckpoint, ChainFile}
use chirindo.Record.Canon.{content_json, checkpoint_json}
use chirindo.Record.File.{ChainLine, of_record, of_checkpoint, chain_of_lines, lines_of_chain}
use chirindo.Rpc.Lines.{split, strip_cr}

-- JSON.stringify, and the casts of a parsed object to a record or a checkpoint.
pub record Forms : Type 0 where
  pub js : Js
  pub stringify : Json → Text
  pub as_record : Json → SignedRecord
  pub as_checkpoint : Json → SignedCheckpoint

-- { ...content, sig }
unfoldable pub with_sig : Members → Text → Members
with_sig end sig = member (codes "sig") (str sig) end
with_sig (member k v ms) sig = member k v (with_sig ms sig)

abbrev pub signed : Json → Text → Json
signed (obj ms) sig = obj (with_sig ms sig)
signed v sig = v

unfoldable pub line_json : ChainLine → Json
unfolding with_sig content_json checkpoint_json
line_json (of_record r) = signed (content_json r.content) r.sig
line_json (of_checkpoint c) = signed (checkpoint_json c.content) c.sig

-- text.split(/\r?\n/)
unfoldable pub text_lines : Text → List Text
unfolding split strip_cr
text_lines text = let parts = split text in map strip_cr parts.lines ++ parts.rest ∷ []

abbrev pub is_empty : Text → Bool
is_empty [] = true
is_empty (c ∷ t) = false

-- A text of `lines` with a line feed between them.
unfoldable pub join_lines : List Text → Text
join_lines [] = []
join_lines (l ∷ []) = l
join_lines (l ∷ m ∷ ls) = l ++ b'\n' ∷ join_lines (m ∷ ls)

abbrev pub end_of : List Text → Text
end_of [] = []
end_of (l ∷ ls) = b'\n' ∷ []

-- obj["type"] === "checkpoint"
unfoldable pub is_checkpoint : Members → Bool
unfolding get
is_checkpoint ms = elim (get (codes "type") ms) [
  | some (str t) ↦ text_eq t (codes "checkpoint")
  | _ ↦ false
]

module _ (forms : Forms) where
  open forms use {js, stringify, as_record, as_checkpoint}

  unfoldable pub trim_start : Text → Text
  trim_start [] = []
  trim_start (c ∷ t) = let rest = trim_start t in if js.trimmed c then rest else c ∷ t

  unfoldable pub trim_end : Text → Text
  trim_end [] = []
  trim_end (c ∷ t) = let rest = trim_end t in if is_empty rest && js.trimmed c then [] else c ∷ rest

  -- An array is an object too, with no member "type".
  unfoldable pub classify : Json → Option ChainLine
  unfolding is_checkpoint
  classify (obj ms) =
      if is_checkpoint ms
      then some (of_checkpoint (as_checkpoint (obj ms)))
      else some (of_record (as_record (obj ms)))
  classify (arr vs) = some (of_record (as_record (arr vs)))
  classify _ = none

  unfoldable pub of_result : StrictResult → Option ChainLine
  unfolding classify
  of_result (value v) = classify v
  of_result _ = none

  unfoldable pub parse_line : Text → Option ChainLine
  unfolding strict_json_parse of_result
  parse_line trimmed = of_result (strict_json_parse js trimmed)

  abbrev pub and_then : Option ChainLine → Option (List ChainLine) → Option (List ChainLine)
  and_then (some l) (some ls) = some (l ∷ ls)
  and_then _ _ = none

  -- The lines that are not blank.
  unfoldable pub read_lines : List Text → Option (List ChainLine)
  unfolding trim_start trim_end parse_line
  read_lines [] = some []
  read_lines (l ∷ ls) =
      let trimmed = trim_end (trim_start l) in
      let rest = read_lines ls in
      if is_empty trimmed then rest else and_then (parse_line trimmed) rest

  unfoldable pub of_lines : Option (List ChainLine) → Option ChainFile
  unfolding chain_of_lines
  of_lines none = none
  of_lines (some ls) = chain_of_lines ls

  -- parseChainJsonl
  unfoldable pub parse_chain_jsonl : Text → Option ChainFile
  unfolding text_lines read_lines of_lines
  parse_chain_jsonl text = of_lines (read_lines (text_lines text))

  unfoldable pub line_text : ChainLine → Text
  unfolding line_json
  line_text l = stringify (line_json l)

  -- serializeChainJsonl
  unfoldable pub serialize_chain_jsonl : ChainFile → Text
  unfolding line_text lines_of_chain join_lines
  serialize_chain_jsonl file =
      let lines = map line_text (lines_of_chain file) in join_lines lines ++ end_of lines

  -- appendRecordLine, on the text of the file
  unfoldable pub append_record_text : Text → SignedRecord → Text
  unfolding line_text
  append_record_text text r = text ++ line_text (of_record r) ++ b'\n' ∷ []
