-- ===== src/Store/Trust.antt =====
-- The trust edges between organizations and between agents, in internal/store/memory.go.
pub mod Edge
pub mod Request
pub mod Decide
pub mod Pairs
pub mod Consent
pub mod Orgs
pub mod Reopen
pub mod Graph
pub mod Safety
pub mod Decisions
pub mod Agents
pub mod History
pub mod RevokeAgent
