-- ===== src/Protocol.antt =====
-- The package `protocol`: constants, tokens, the relay's API types, session envelopes and jobs.
pub mod Crypto
pub mod Caps
pub mod Wire
pub mod Token
pub mod Api
pub mod Envelope
pub mod Jobs
pub mod Blob
