-- ===== src/Api.antt =====
-- server/src/api: the HTTP service. A handler takes the state of the storage and returns the new
-- one with its response or error.
pub mod Http
pub mod Body
pub mod Handlers
pub mod AddVersion
pub mod Access
pub mod NewClient
pub mod Concurrent
pub mod Sessions
