-- ===== src/Machine.antt =====
-- apps/web/protocol/contractMachine.ts: the connection and session state machine that both ends of
-- the protocol keep, with apps/web/protocol/auth.ts for the proof of a challenge.
pub mod State
pub mod Transitions
pub mod Auth
pub mod Apply
pub mod Invariant
pub mod Outcomes
pub mod Preservation
pub mod Sequence
pub mod Graph
pub mod Runs
pub mod Authentication
pub mod Output
pub mod Replay
pub mod Session
pub mod Texts
