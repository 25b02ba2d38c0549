-- ===== src/Store/Queue.antt =====
-- `Enqueue` and `Dequeue` of internal/store/memory.go, and the counters of queued and dropped
-- messages that the handlers report.
pub mod Exact
pub mod Purge
pub mod Fifo
pub mod Linked
use moltenhub.Base.{
  Bool, true, false, Option, none, some, List, [], ◌∷◌, ◌++◌, is_empty, if◌then◌else◌,
}
use moltenhub.Base.Text.{Text, text, trim_space}
use moltenhub.Base.Dict.{Dict, get, put, get_or}
use moltenhub.Model.{Agent, Message, Status, revoked}
use moltenhub.Model.Value.{string}
use moltenhub.Model.Clock.{Time}
use moltenhub.Store.State.{MemoryStore, Mailbox, Outcome, ok, err, agent_not_found}
use moltenhub.Store.Metrics.{note_queued_message_added, note_queued_message_removed}
use moltenhub.Store.Stats.{increment_queued, increment_dropped}
use moltenhub.Store.Audit.{append_audit}

abbrev pub is_revoked : Status → Bool
is_revoked revoked = true
is_revoked _ = false

-- agent, ok := s.agents[id]; !ok || agent.Status == revoked
unfoldable pub live_agent : Dict Agent → Text → Option Agent
live_agent agents uuid = elim (get agents uuid) [
  | none ↦ none
  | some agent ↦ if is_revoked agent.status then none else some agent
]

abbrev pub queue_of : Mailbox → Text → List Message
queue_of b uuid = get_or b.queues uuid []

pub push : Message → Mailbox → Mailbox
unfolding note_queued_message_added
push message b = note_queued_message_added message (record b {
  queues = put b.queues message.to_agent_uuid (queue_of b message.to_agent_uuid ++ message ∷ []);
})

deliver : Option Agent → Message → MemoryStore → Outcome (Unit {0})
unfolding push
deliver none message s = (err agent_not_found, s)
deliver (some agent) message s =
    (ok tt, record s { mailbox = push (record message { to_agent_id = agent.agent_id }) s.mailbox })

unfoldable pub enqueue : Message → MemoryStore → Outcome (Unit {0})
unfolding deliver live_agent
enqueue message s =
    if is_empty message.to_agent_uuid
    then (err agent_not_found, s)
    else deliver (live_agent s.agents message.to_agent_uuid) message s

pub pop : Text → List Message → Mailbox → Option Message × Mailbox
unfolding note_queued_message_removed
pop uuid [] b = (none, b)
pop uuid (message ∷ rest) b = (
  some message,
  note_queued_message_removed message (record b { queues = put b.queues uuid rest }),
)

unfoldable pub dequeue : Text → MemoryStore → Option Message × MemoryStore
unfolding pop
dequeue uuid s =
    let (found, b) = pop uuid (queue_of s.mailbox uuid) s.mailbox in
    (found, record s { mailbox = b })

unfoldable pub record_message_queued : Text → Time → MemoryStore → MemoryStore
record_message_queued = increment_queued

unfoldable pub record_message_dropped : Text → Time → MemoryStore → MemoryStore
record_message_dropped org_id now s =
    let counted = increment_dropped org_id now s in
    if is_empty (trim_space org_id)
    then counted
    else append_audit org_id [] (text "message") (text "drop") org_id
        ((text "reason", string (text "no_trust_path_or_policy")) ∷ []) now counted
