-- ===== src/Store.antt =====
-- internal/store: the in-memory store of the hub.
pub mod State
pub mod Activity
pub mod Audit
pub mod Stats
pub mod Metrics
pub mod Queue
pub mod Roles
pub mod Humans
pub mod Orgs
pub mod Invites
pub mod Members
pub mod AccessKeys
pub mod Agents
pub mod Trust
pub mod Publish
pub mod Peers
pub mod Messages
pub mod Leases
pub mod Invariant
pub mod Tests
