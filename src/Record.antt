-- ===== src/Record.antt =====
-- src/vendor/recorder/record.ts: the records of the evidence chain. An optional member is an Option.
pub mod Canon
pub mod Hash
pub mod File
pub mod Lines
use chirindo.Prelude.{ℕ, Bool, ◌||◌, Option, List, Text, codes, text_eq}
use chirindo.Json.{Json}

abbrev pub record_version_v0 : Text
record_version_v0 = codes "evidence.action/0"

abbrev pub record_version_v1 : Text
record_version_v1 = codes "evidence.action/1"

abbrev pub record_version : Text
record_version = record_version_v1

unfoldable pub is_supported_record_version : Text → Bool
is_supported_record_version v = text_eq v record_version_v0 || text_eq v record_version_v1

pub data Outcome : Type 0 where
  executed blocked denied errored timed_out : Outcome

pub data Decision : Type 0 where
  allow deny ask observed : Decision

pub data DecisionSource : Type 0 where
  user config hook n_a : DecisionSource

pub record AgentInfo : Type 0 where
  pub vendor : Text
  pub version : Text

pub record ShellEvent : Type 0 where
  pub outcome : Outcome
  pub argv : List Text
  pub cwd : Text
  pub exit_code : Option ℕ
  pub command : Option Text
  pub command_hash : Option Text
  pub decision : Option Decision
  pub decision_source : Option DecisionSource

pub record FileEditEvent : Type 0 where
  pub outcome : Outcome
  pub path : Text
  pub content_hash : Text
  pub prev_content_hash : Option Text
  pub bytes : Option ℕ

pub record FileReadEvent : Type 0 where
  pub outcome : Outcome
  pub path : Text
  pub content_hash : Option Text

pub record ToolCallEvent : Type 0 where
  pub outcome : Outcome
  pub tool_name : Text
  pub args_hash : Text
  pub result_hash : Option Text
  pub decision : Option Decision
  pub decision_source : Option DecisionSource

pub record McpCallEvent : Type 0 where
  pub outcome : Outcome
  pub server : Text
  pub tool_name : Text
  pub args_hash : Text
  pub result_hash : Option Text
  pub decision : Option Decision
  pub decision_source : Option DecisionSource

pub data RecordEvent : Type 0 where
  shell : ShellEvent → RecordEvent
  file_edit : FileEditEvent → RecordEvent
  file_read : FileReadEvent → RecordEvent
  tool_call : ToolCallEvent → RecordEvent
  mcp_call : McpCallEvent → RecordEvent

pub data GateFamily : Type 0 where
  environment verification permit : GateFamily

pub data GateResult : Type 0 where
  act halt : GateResult

pub record GateBlock : Type 0 where
  pub request_commitment : Text
  pub gate_receipt : Text
  pub gate_family : GateFamily
  pub result : GateResult

-- The content of a record, with the `check` member that src/receipt.ts adds to it.
pub record RecordContent : Type 0 where
  pub v : Text
  pub seq : ℕ
  pub session_id : Text
  pub ts : Text
  pub agent : AgentInfo
  pub event : RecordEvent
  pub request_commitment : Text
  pub gate : Option GateBlock
  pub jwks_uri : Option Text
  pub key_thumbprint : Option Text
  pub iss : Option Text
  pub x402_payment_ref : Option Text
  pub check : Option Json
  pub prev_hash : Text
  pub kid : Text

-- `content` is contentOf of the record.
pub record SignedRecord : Type 0 where
  pub content : RecordContent
  pub open content use *
  pub sig : Text

pub record CheckpointContent : Type 0 where
  pub v : Text
  pub session_id : Text
  pub count : ℕ
  pub last_entry_hash : Text
  pub ts : Text
  pub kid : Text

pub record SignedCheckpoint : Type 0 where
  pub content : CheckpointContent
  pub open content use *
  pub sig : Text

-- ChainFile of io.ts
pub record ChainFile : Type 0 where
  pub records : List SignedRecord
  pub checkpoint : Option SignedCheckpoint
