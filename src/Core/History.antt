-- ===== src/Core/History.antt =====
-- The protocol's view of a storage: each client has one line of versions, the newest first, and
-- perhaps a snapshot. The calls of the server are described on it, apart from how they are made.
pub mod Chain
pub mod Calls
pub mod Invariant
