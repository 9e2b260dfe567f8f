-- ===== src/Proxy/Sound.antt =====
-- The invariant of a run of src/proxy.ts: what may reach the downstream server, and what the calls
-- that did come to.
pub mod InFlight
pub mod OnClient
pub mod OnDownstream
pub mod Runs
use chirindo.Prelude.{
  ◌==◌, ℕ, suc, ◌+◌, ◌≡◌, false, some, List, [], ◌∷◌, ◌<◌, arith, Text, length, any,
}
use chirindo.Json.{Json, arr, obj}
use chirindo.Rpc.{RequestId}
use chirindo.Receipt
use chirindo.Proxy.State.{Deps, PendingAllow, Frame, line, message, State, Gate, pending_has}
use chirindo.Proxy.Quiet.{Quiet, passage}
use chirindo.Proxy.Forwards.{IsNoCall, IsPlain}
use chirindo.Proxy.Gated.{IsGated}

-- The value of a line that goes on as it came: no batch, and of an object only one that is plain and
-- that no reader takes for a call.
abbrev pub IsHarmless : Deps → Text → Json → Type 0
IsHarmless deps text (arr vs) = ⊥
IsHarmless deps text (obj ms) = IsPlain deps text ms × IsNoCall deps ms
IsHarmless deps text _ = Unit

abbrev GatedValue : Deps → ℕ → Json → Type 0
GatedValue deps load (obj ms) = IsGated deps load ms
GatedValue deps load _ = ⊥

-- Frames that may be sent downstream, the newest first: lines that JSON.parse reads as a harmless
-- value, with no carriage return in them, and encodings of gated calls, each allowed by a load of
-- the policy of its own, the number of which is less than `loads` and than that of any later call.
abbrev pub AreLetThrough : Deps → (loads : ℕ) → List Frame → Type 0
AreLetThrough deps loads [] = Unit
AreLetThrough deps loads (line text ∷ frames) =
    ((v : Json) × (deps.js.parse text ≡ some v)
      × (any (λ c. c == 13) text ≡ false)
      × IsHarmless deps text v)
    × AreLetThrough deps loads frames
AreLetThrough deps loads (message v ∷ frames) =
    (load : ℕ) × (load < loads) × GatedValue deps load v × AreLetThrough deps load frames

pub AreLetThrough-suc :
    (deps : Deps) (loads : ℕ) (frames : List Frame)
    → AreLetThrough deps loads frames
    → AreLetThrough deps (suc loads) frames
AreLetThrough-suc deps loads [] h = tt
AreLetThrough-suc deps loads (line text ∷ frames) (l, rest) =
    (l, AreLetThrough-suc deps loads frames rest)
AreLetThrough-suc deps loads (message v ∷ frames) (load, less, g, rest) =
    (load, omega (arith, less), g, rest)

-- The calls among the frames.
abbrev pub calls : List Frame → ℕ
calls [] = 0
calls (line text ∷ frames) = calls frames
calls (message v ∷ frames) = suc (calls frames)

-- No two pending calls have one id.
abbrev pub DistinctIds : List (RequestId × PendingAllow) → Type 0
DistinctIds [] = Unit
DistinctIds ((id, p) ∷ pending) = (pending_has id pending ≡ false) × DistinctIds pending

pub record IsSound (deps : Deps) (s : State) : Type 0 where
  pub let_through : AreLetThrough deps s.loads (passage s.effects).sent
  pub accounted :
      calls (passage s.effects).sent
      ≡ length s.pending_allows
        + length (passage s.effects).allowed
        + length (passage s.effects).withheld
  pub distinct : DistinctIds s.pending_allows

pub Quiet-IsSound :
    (deps : Deps) {A : Type 0} (m : Gate A)
    → Quiet m
    → (s : State) → IsSound deps s
    → IsSound deps (m s).1
Quiet-IsSound deps m q s h =
    let p = q.passed s in
    let k = q.kept s in
    record {
      let_through = rw (p, q.loaded s) h.let_through;
      accounted = rw (p, k) h.accounted;
      distinct = rw k h.distinct;
    }
