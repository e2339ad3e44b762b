-- ===== src/Core.antt =====
-- The crate `core`: the data of the protocol, the storage interface, the server and the storage
-- in memory.
pub mod Types
pub mod Txn
pub mod Storage
pub mod Urgency
pub mod Server
pub mod InMemory
pub mod History
pub mod Protocol
