-- ===== src/Record/File.antt =====
-- Chain files, src/vendor/recorder/io.ts, as their lines, each a record or a checkpoint by its `type`
-- member: what parseChainJsonl does with the lines that it has read. Record.Lines has their texts.
pub mod Laws
use chirindo.Prelude.{Option, none, some, List, [], ◌∷◌, ◌++◌, map}
use chirindo.Record.{SignedRecord, SignedCheckpoint, ChainFile}

pub data ChainLine : Type 0 where
  of_record : SignedRecord → ChainLine
  of_checkpoint : SignedCheckpoint → ChainLine

-- The loop of parseChainJsonl, from the line's value on; `none` is a ChainParseError.
unfoldable pub parse_lines :
    List SignedRecord → Option SignedCheckpoint → List ChainLine → Option ChainFile
parse_lines records checkpoint [] = some (record { records = records; checkpoint = checkpoint })
parse_lines records (some c) (l ∷ ls) = none
parse_lines records none (of_record r ∷ ls) = parse_lines (records ++ r ∷ []) none ls
parse_lines records none (of_checkpoint c ∷ ls) = parse_lines records (some c) ls

unfoldable pub chain_of_lines : List ChainLine → Option ChainFile
unfolding parse_lines
chain_of_lines = parse_lines [] none

unfoldable pub checkpoint_lines : Option SignedCheckpoint → List ChainLine
checkpoint_lines none = []
checkpoint_lines (some c) = of_checkpoint c ∷ []

unfoldable pub lines_of_chain : ChainFile → List ChainLine
unfolding checkpoint_lines
lines_of_chain file = map of_record file.records ++ checkpoint_lines file.checkpoint

-- appendRecordLine
abbrev pub append_record_line : List ChainLine → SignedRecord → List ChainLine
append_record_line lines r = lines ++ of_record r ∷ []
