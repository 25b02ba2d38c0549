-- ===== src/Store/Audit.antt =====
-- The audit trail of an organization, and the entries that it leaves in the activity logs of the
-- agents an event is about: `appendAuditLocked` of internal/store/memory.go and what it calls.
pub mod Labels
pub mod Bounds
pub mod Frame
pub mod Agents
use moltenhub.Base.{
  ℕ, ◌+◌, Bool, true, false, ◌&&◌, ◌||◌, not, Option, none, some, List, [], ◌∷◌, ◌++◌, length,
  is_empty, if◌then◌else◌,
}
use moltenhub.Base.Text.{Text, text, text_eq, text_le, trim_space}
use moltenhub.Base.Dict.{Dict, get, put, remove, get_or}
use moltenhub.Model.{Agent, AuditEvent}
use moltenhub.Model.Value.{Metadata, objects, string, list_rows, value_at}
use moltenhub.Model.Clock.{Time, unix_nano, decimal, format_rfc3339}
use moltenhub.Store.State.{MemoryStore, Ledger}
use moltenhub.Store.Activity.{
  copy_metadata, max_agent_activity_entries, parse_activity_entries,
  dedupe_and_trim_activity_entries, keep_last,
}
use Labels.{audit_activity_label, audit_event_detail_string}

-- The sorted slice of a set of strings, with one more.
insert_target : Text → List Text → List Text
insert_target t [] = t ∷ []
insert_target t (u ∷ us) =
    if text_eq t u then u ∷ us else if text_le t u then t ∷ u ∷ us else u ∷ insert_target t us

add_target : Dict Agent → Text → List Text → List Text
unfolding insert_target
add_target agents raw targets =
    let candidate = trim_space raw in
    if is_empty candidate
    then targets
    else elim (get agents candidate) [ none ↦ targets | some _ ↦ insert_target candidate targets ]

unfoldable pub activity_targets_from_audit_event : Dict Agent → AuditEvent → List Text
unfolding add_target audit_event_detail_string
activity_targets_from_audit_event agents event =
    let detail = λ (k : Text). audit_event_detail_string event.details k in
    let is = λ (c : Text). text_eq event.category c in
    let action_is = λ (a : Text). text_eq event.action a in
    if is (text "agent")
    then add_target agents (detail (text "agent_uuid")) (add_target agents event.subject_id [])
    else if is (text "agent_bind")
    then add_target agents (detail (text "agent_uuid")) []
    else if is (text "message")
    then (if action_is (text "publish")
          || action_is (text "publish_replay")
          || action_is (text "forward")
          || action_is (text "publish_abort")
        then add_target agents (detail (text "from_agent_uuid")) []
        else if action_is (text "lease")
            || action_is (text "ack")
            || action_is (text "nack")
            || action_is (text "lease_expire")
        then add_target agents (detail (text "to_agent_uuid")) []
        else add_target agents (detail (text "to_agent_uuid"))
            (add_target agents (detail (text "from_agent_uuid")) []))
    else if is (text "trust_agent")
    then add_target agents (detail (text "peer_agent_uuid"))
        (add_target agents (detail (text "agent_uuid")) [])
    else add_target agents (detail (text "to_agent_uuid")) (
        add_target agents (detail (text "from_agent_uuid"))
          (add_target agents (detail (text "agent_uuid")) []))

activity_entry : AuditEvent → Text → Metadata
activity_entry event activity =
    (text "activity", string (trim_space activity))
    ∷ (text "source", string (text "system"))
    ∷ (text "at", string (format_rfc3339 event.created_at))
    ∷ (text "event_id", string event.event_id)
    ∷ (text "category", string event.category)
    ∷ (text "action", string event.action)
    ∷ (text "subject_id", string event.subject_id)
    ∷ []

abbrev pub system_activity_log : Text
system_activity_log = text "_system_activity_log"

pub log_activity : Metadata → AuditEvent → Text → Metadata
unfolding activity_entry
log_activity metadata event activity =
    let existing = parse_activity_entries (value_at metadata system_activity_log) in
    let system_log =
      dedupe_and_trim_activity_entries (existing ++ activity_entry event activity ∷ [])
        max_agent_activity_entries in
    if is_empty system_log
    then remove (copy_metadata metadata) system_activity_log
    else put (copy_metadata metadata) system_activity_log (objects (list_rows system_log))

unfoldable pub append_system_activity_to_agent : Text → AuditEvent → Text → Dict Agent → Dict Agent
unfolding log_activity
append_system_activity_to_agent uuid event activity agents = elim (get agents uuid) [
  | none ↦ agents
  | some agent ↦
      put agents uuid (record agent { metadata = log_activity agent.metadata event activity })
]

pub append_to_targets : List Text → AuditEvent → Text → Dict Agent → Dict Agent
append_to_targets [] event activity agents = agents
append_to_targets (t ∷ ts) event activity agents =
    append_to_targets ts event activity (append_system_activity_to_agent t event activity agents)

unfoldable pub append_system_activity_from_audit : AuditEvent → Dict Agent → Dict Agent
unfolding append_to_targets
append_system_activity_from_audit event agents =
    let targets = activity_targets_from_audit_event agents event in
    if is_empty targets
    then agents
    else let activity = audit_activity_label agents event in
      if is_empty (trim_space activity)
      then agents
      else append_to_targets targets event activity agents

abbrev pub audit_limit : ℕ
audit_limit = 200

unfoldable pub next_event_id : Time → List AuditEvent → Text
next_event_id now events = unix_nano now ++ b'-' ∷ decimal (length events + 1)

audit_event : Text → Text → Text → Text → Text → Metadata → Time → List AuditEvent → AuditEvent
unfolding next_event_id
audit_event org_id actor category action subject details now events = record {
  event_id = next_event_id now events;
  org_id = org_id;
  actor_human = actor;
  category = category;
  action = action;
  subject_id = subject;
  details = details;
  created_at = now;
}

-- The audit trail of an organization; none is the empty slice.
abbrev pub audit_of : Ledger → Text → List AuditEvent
audit_of l org_id = get_or l.audit_by_org org_id []

unfoldable pub append_audit :
    Text → Text → Text → Text → Text → Metadata → Time → MemoryStore → MemoryStore
unfolding audit_event
append_audit org_id actor category action subject details now s =
    let events = audit_of s.ledger org_id in
    let event = audit_event org_id actor category action subject details now events in
    record s {
      directory = record s.directory { agents = append_system_activity_from_audit event s.agents };
      ledger = record s.ledger {
        audit_by_org = put s.audit_by_org org_id (keep_last audit_limit (events ++ event ∷ []));
      };
    }
