-- ===== src/Lib.antt =====
-- The core of MoltenHub, a hub over which agents exchange messages.
--
-- An agent sends a message; the hub accepts it as a record, queues it for the receiver, and leases
-- it to the receiver as a delivery, which the receiver acknowledges or releases, or which expires.
-- Two agents may exchange messages only over a trust edge that both of their sides approve. Every
-- operation writes an audit trail, from which the agents' activity logs are kept. All of that is
-- the in-memory store of the hub, internal/store/memory.go; the HTTP handlers of internal/api call
-- its operations one after another, and internal/handles normalizes the names that they are given.
--
-- Parts and files:
--   Base               shared names, Boolean tests, lists, texts and dictionaries
--   Model              internal/model/types.go; Model.Value the `any` values of metadata, Model.Clock
--                      the times and their formats
--   Handles            internal/handles/handles.go; Handles.Shape the shape of a normalized handle
--   Longpoll           internal/longpoll/waiters.go
--   Store.State        the fields of `MemoryStore` and `NewMemoryStore`
--   Store.Messages     `CreateOrGetMessageRecord`, `MarkMessageForwarded`, `AbortMessageRecord`
--   Store.Leases       `LeaseMessage`, `AckMessageDelivery`, `ReleaseMessageDelivery`,
--                      `ExpireMessageLeases`
--   Store.Queue        `Enqueue`, `Dequeue`, `RecordMessageQueued`, `RecordMessageDropped`, and in
--                      Store.Queue.Purge the loop over the queues of `RevokeAgent`
--   Store.Metrics      `computeQueueMetricsLocked` and the functions that keep the metrics up to date
--   Store.Trust        `createOrJoinTrustLocked` and the approvals, blocks and revocations of edges,
--                      and in Store.Trust.RevokeAgent the loop over the edges of `RevokeAgent`;
--                      Store.Trust.Orgs and Store.Trust.Reopen trust between organizations
--   Store.Publish      `CanPublish`
--   Store.Peers        peer instances; Store.Peers.Remote the trust in remote organizations and
--                      agents; Store.Peers.Outbound the messages that wait for a peer
--   Store.Humans       humans and their handles; Store.Humans.Presence the presence of humans and agents
--   Store.Orgs         `CreateOrg` and `EnsurePersonalOrg`; Store.Orgs.Search the search for a free
--                      handle, Store.Orgs.Owners who owns an organization
--   Store.Invites      invitations and their acceptance; Store.Invites.Transfer the agents that a new
--                      member brings along
--   Store.Members      `RevokeMembership` and the lists of members
--   Store.AccessKeys   the access keys of organizations
--   Store.Agents       `RegisterAgent` and the look-up by token; below it, Binds the bind tokens, Retire
--                      rotated tokens, revoked and deleted agents, Finalize the final handle, and
--                      Names, Tokens and Once what they keep, Resolve the references to agents,
--                      Activity `RecordAgentSystemActivity`
--   Store.Roles        roles, memberships and the rights over an agent
--   Store.Audit        `appendAuditLocked` and the labels of activity entries; Store.Audit.Agents and
--                      Store.Audit.Frame what it leaves
--   Store.Activity     parsing, removing duplicates from and trimming activity logs
--   Store.Stats        the message counters by organization and by day
--   Store.Invariant    the message operations as a step relation, and what every step keeps
--
-- Correspondence. An operation takes the store and returns its result, a value or one of the
-- sentinel errors, with the store that it leaves. The mutex of the store is held throughout an
-- operation, so that a run is a sequence of operations. A map is an association list, read with
-- `get`; that no key stands twice is part of the invariants that need it. A string is its list of
-- code points, compared as Go compares the bytes of valid UTF-8. A time is the number of nanoseconds
-- since the year 1, in UTC; counters are natural numbers, since they count operations and stay far
-- below the bounds of their Go types. Ids that the callers draw at random are arguments, fresh
-- where a step says so; where the source draws one itself, by `idFactory` or `newRandomUUID`, the
-- argument is an option, and `none` is the failure of the drawing. Loops over maps are recursion on
-- the list of entries, over sorted keys where the source sorts. Two loops take fuel: the search for
-- the handle of a personal organization and that for the handle of a human, where `none` says that
-- the fuel has run out. For the first one, as many rounds as there are handles, and two, are enough,
-- under the condition that its theorem states. `strings.ToLower` is exact for the
-- letters that Base.Text names and keeps the others, which Normalize replaces by separators;
-- `strings.EqualFold` is exact for the same letters.
--
-- Not modelled: the deletion of organizations, which no history in the results contains, the metadata
-- updates of agents and organizations, the lists of invitations, the admin page, the S3 store, the
-- HTTP handlers and the commands.
pub mod Base
pub mod Model
pub mod Handles
pub mod Longpoll
pub mod Store
