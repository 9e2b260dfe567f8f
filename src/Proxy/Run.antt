-- ===== src/Proxy/Run.antt =====
-- A run of runProxy of src/proxy.ts: the chunks that the event loop hands to the two listeners, in
-- the order in which they come.
use chirindo.Prelude.{List, [], ◌∷◌, Text}
use chirindo.Record.File.{ChainLine}
use chirindo.Proxy.State.{Deps, State}
use chirindo.Proxy.Client.{on_client_chunk}
use chirindo.Proxy.Downstream.{on_downstream_chunk}

pub data Event : Type 0 where
  client : Text → Event
  downstream : Text → Event

-- The state of a new proxy over the chain file as it is.
abbrev pub initial : List ChainLine → State
initial chain = record {
  pending_allows = [];
  receipt_count = 0;
  chain = chain;
  client_stdin_buf = [];
  down_stdout_buf = [];
  attempts = 0;
  loads = 0;
  effects = [];
}

module _ (deps : Deps) where
  unfoldable pub handle : Event → State → State
  unfolding on_client_chunk on_downstream_chunk
  handle (client chunk) s = on_client_chunk deps chunk s
  handle (downstream chunk) s = on_downstream_chunk deps chunk s

  unfoldable pub run : List Event → State → State
  unfolding handle
  run [] s = s
  run (e ∷ es) s = run es (handle e s)
