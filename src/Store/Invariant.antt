-- ===== src/Store/Invariant.antt =====
-- The invariant of the message store, and its operations as steps: what holds of every state that
-- the operations can reach from the empty store.
pub mod Leases
pub mod Messages
pub mod Agents
pub mod Steps
