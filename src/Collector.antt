-- ===== src/Collector.antt =====
-- internal/serve: the collector's side of a live session. A job from the client is prepared, shown
-- to the person at the terminal, run, redacted, capped and sent back.
pub mod State
pub mod Result
pub mod Send
pub mod Rows
pub mod Handle
pub mod Rules
pub mod Sending
pub mod Widens
pub mod Running
pub mod Numbering
pub mod Scope
pub mod Preparing
pub mod Grown
pub mod Ready
pub mod Reads
pub mod LevelZero
pub mod Accepted
