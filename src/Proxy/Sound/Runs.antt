-- ===== src/Proxy/Sound/Runs.antt =====
-- Whole runs of src/proxy.ts: any chunks in any order.
use chirindo.Prelude.{◌+◌, ◌≡◌, refl, List, [], ◌∷◌, length}
use chirindo.Record.File.{ChainLine}
use chirindo.Proxy.State.{Deps, State}
use chirindo.Proxy.Run.{Event, client, downstream, initial, handle, run}
use chirindo.Proxy.Quiet.{passage}
use chirindo.Proxy.Sound.{IsSound, AreLetThrough, calls}
use chirindo.Proxy.Sound.OnClient.{on_client_chunk-IsSound}
use chirindo.Proxy.Sound.OnDownstream.{on_downstream_chunk-IsSound}

module _ (deps : Deps) where
  initial-IsSound : (chain : List ChainLine) → IsSound deps (initial chain)
  unfolding passage
  initial-IsSound chain = record { let_through = tt; accounted = refl; distinct = tt }

  handle-IsSound : (e : Event) (s : State) → IsSound deps s → IsSound deps (handle deps e s)
  unfolding handle
  handle-IsSound (client chunk) s k = on_client_chunk-IsSound deps chunk s k
  handle-IsSound (downstream chunk) s k = on_downstream_chunk-IsSound deps chunk s k

  run-IsSound : (es : List Event) (s : State) → IsSound deps s → IsSound deps (run deps es s)
  unfolding run
  run-IsSound [] s k = k
  run-IsSound (e ∷ es) s k = run-IsSound es (handle deps e s) (handle-IsSound e s k)

-- Whatever chunks the client and the downstream server send, in whatever order, each frame that the
-- proxy has sent downstream is either the text of a line with no carriage return that JSON.parse
-- reads as no batch, and, of an object, as one that is plain (no member twice, no variants in case,
-- no __proto__, no invisible character in its method) and that neither the first nor the last reader
-- that ignores case takes for a call; or the encoding of a tools/call that came in such a plain
-- line, with safe integers and a usable id, a name that the rules for names take, finite and
-- shallow, with arguments that can be hashed, and that no rule of the policy matches that was
-- loaded for it, after that of the call sent before it.
pub sent-AreLetThrough :
    (deps : Deps) (chain : List ChainLine) (es : List Event)
    → let s = run deps es (initial chain) in AreLetThrough deps s.loads (passage s.effects).sent
sent-AreLetThrough deps chain es =
    (run-IsSound deps es (initial chain) (initial-IsSound deps chain)).let_through

-- After any run the calls sent downstream are as many as those still pending, those whose ALLOW
-- receipt was written and those whose result was withheld together.
pub calls_are_accounted :
    (deps : Deps) (chain : List ChainLine) (es : List Event)
    → let s = run deps es (initial chain) in
      calls (passage s.effects).sent
      ≡ length s.pending_allows
        + length (passage s.effects).allowed
        + length (passage s.effects).withheld
calls_are_accounted deps chain es =
    (run-IsSound deps es (initial chain) (initial-IsSound deps chain)).accounted
