-- ===== src/Adapter.antt =====
-- apps/web/terminal/protocolTerminalAdapter.ts: the client end of a terminal over a WebSocket.
pub mod State
pub mod Connection
pub mod Methods
pub mod Receive
pub mod Events
pub mod Invariant
pub mod Answers
pub mod Preservation
pub mod Growth
pub mod Stale
pub mod Paste
pub mod Cuts
pub mod Chunks
pub mod Sending
pub mod Reserved
pub mod Numbers
