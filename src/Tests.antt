-- ===== src/Tests.antt =====
-- Tests of the definitions at inputs that can be followed in the source, and the theorems applied to
-- concrete inputs.
mod Samples
mod Protocol
mod Relay
mod Handler
mod Blob
mod Limits
mod Collector
mod LocalSession
mod Files
mod Jobs
mod Gather
mod Reads
