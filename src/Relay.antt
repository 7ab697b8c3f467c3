-- ===== src/Relay.antt =====
-- The package `relay`: stores of ciphertext, live sessions and the handler of relay API v0.
pub mod Store
pub mod Memory
pub mod Live
pub mod Http
pub mod Registry
pub mod Create
pub mod BlobRoute
pub mod SessionRoute
pub mod Poll
pub mod Handler
