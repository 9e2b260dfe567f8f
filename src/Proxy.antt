-- ===== src/Proxy.antt =====
-- src/proxy.ts, the gate at the tools/call boundary: its state, what it does to the outside, and the
-- handlers of the client's and of the downstream's lines.
pub mod State
pub mod Refuse
pub mod Client
pub mod Downstream
pub mod Run
pub mod Quiet
pub mod Answers
pub mod Denials
pub mod Actions
pub mod Evidence
pub mod Forwards
pub mod Gated
pub mod Sound
